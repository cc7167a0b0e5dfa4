-- ===== src/NodeList.antt =====
-- list.c: a singly linked list of login entries, over a memory of nodes and entries. The address 0
-- is the null pointer.
pub mod Chain
pub mod Delete
pub mod Ends
use imonitor.Base.{
  ℕ, zero, suc, true, false, Option, none, some, [], ◌∷◌, ◌++◌, Bytes, codes, ℤ, ◌==◌, ◌==ℤ◌,
  if◌then◌else◌,
}
use mathlib.Core.Option
use imonitor.Sys.{Utmpx, c_string}
use imonitor.Utils.{decimal_ℤ}

pub record Node : Type 0 where
  pub ut : ℕ
  pub next : ℕ

-- `head` is the caller's variable that holds the list.
pub record Memory : Type 0 where
  pub head : ℕ
  pub nodes : ℕ → Option Node
  pub entries : ℕ → Option Utmpx

-- How a function ends: it returns, ends the process by DIE, or its behaviour is undefined.
pub data Ended (A : Type 0) : Type 0 where
  returned : A → Memory → Ended A
  died undefined starved : Ended A

-- What a `struct node **` points to: the caller's variable, or the `next` of a node.
pub data Slot : Type 0 where
  head_slot : Slot
  next_slot : (address : ℕ) → Slot

abbrev pub set : {A : Type 0} → (ℕ → Option A) → ℕ → Option A → ℕ → Option A
set f p a q = if q == p then a else f q

-- `*pp`
unfoldable pub read_slot : Memory → Slot → Option ℕ
read_slot m head_slot = some m.head
read_slot m (next_slot p) = elim (m.nodes p) [ none ↦ none | some n ↦ some n.next ]

-- `*pp = p`, for a slot that was read before.
abbrev pub write_next : Memory → (address p : ℕ) → Option Node → Memory
write_next m q p none = m
write_next m q p (some n) = record m { nodes = set m.nodes q (some (record n { next = p })) }

abbrev pub write_slot : Memory → Slot → ℕ → Memory
write_slot m head_slot p = record m { head = p }
write_slot m (next_slot q) p = write_next m q p (m.nodes q)

abbrev pub init_list : ℕ
init_list = 0

-- `memcpy(new->ut, ut, sizeof(ut))` copies as many bytes as a pointer has: the type and the pid, the
-- first eight of the entry.
abbrev pub copy_start : Utmpx → Utmpx → Utmpx
copy_start old ut = record old { ut_type = ut.ut_type; ut_pid = ut.ut_pid }

-- `insert_list`, where `malloc` returns `new`, and `junk` stands in the fresh node's `ut`.
unfoldable pub insert_list : (new junk : ℕ) → Utmpx → Memory → Ended (Unit {0})
insert_list zero junk ut m = died
insert_list (suc new) junk ut m = elim (m.entries junk) [
  | none ↦ undefined
  | some old ↦ returned tt (record m {
    head = suc new;
    nodes = set m.nodes (suc new) (some (record { ut = junk; next = m.head }));
    entries = set m.entries junk (some (copy_start old ut));
  })
]

-- `*pp = victim->next; free(victim->ut); free(victim);`
unfoldable pub unlink : Memory → Slot → (victim : ℕ) → Node → Memory
unlink m pp victim n =
    let m1 : Memory = write_slot m pp n.next in
    record m1 { entries = set m1.entries n.ut none; nodes = set m1.nodes victim none }

-- The loop of `delete_node`.
unfoldable pub delete_node : (fuel : ℕ) → Slot → ℤ → Memory → Ended (Unit {0})
delete_node zero pp pid m = starved
delete_node (suc fuel) pp pid m = elim (read_slot m pp) [
  | none ↦ undefined
  | some zero ↦ returned tt m
  | some (suc p) ↦ elim (m.nodes (suc p)) [
    | none ↦ undefined
    | some n ↦ elim (m.entries n.ut) [
      | none ↦ undefined
      | some ut ↦ elim (ut.ut_pid ==ℤ pid) [
        | true ↦ delete_node fuel pp pid (unlink m pp (suc p) n)
        | false ↦ delete_node fuel (next_slot (suc p)) pid m
      ]
    ]
  ]
]

-- One line of `print_list`; `none` is a read past the end of `ut_user`.
unfoldable pub node_text : Utmpx → Option Bytes
unfolding decimal_ℤ
node_text ut =
    Option.map
      (λ user. codes "Node: " ++ user ++ codes " with pid = " ++ decimal_ℤ ut.ut_pid ++ 10 ∷ [])
      (c_string ut.ut_user)

-- What the rest of a loop prints, behind a line.
abbrev after_text : Bytes → Ended Bytes → Ended Bytes
after_text line (returned text m) = returned (line ++ text) m
after_text line e = e

-- `print_list` from the node at `current`, with the printed text.
unfoldable pub print_list : (fuel current : ℕ) → Memory → Ended Bytes
unfolding node_text
print_list zero current m = starved
print_list (suc fuel) current m = elim (m.nodes current) [
  | none ↦ undefined
  | some n ↦ elim (m.entries n.ut) [
    | none ↦ undefined
    | some ut ↦
        let rest = print_list fuel n.next m in
        elim (node_text ut) [
          | none ↦ undefined
          | some line ↦ after_text line (if n.next == 0 then returned [] m else rest)
        ]
  ]
]
