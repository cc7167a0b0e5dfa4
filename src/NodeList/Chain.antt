-- ===== src/NodeList/Chain.antt =====
-- Well-formed lists of list.c, and what a deletion leaves of them.
use imonitor.Base.{ℕ, ◌≡◌, ◌≢◌, sym, ◌∙◌, true, none, some, List, [], ◌∷◌, ℤ, ◌==ℤ◌, if◌then◌else◌}
use imonitor.Sys.{Utmpx}
use imonitor.NodeList.{Node, Memory, Ended, returned, Slot, head_slot, next_slot, read_slot}

-- An element of a list: its node, the address of its entry, and the entry.
pub record Item : Type 0 where
  pub node : ℕ
  pub ut : ℕ
  pub entry : Utmpx

abbrev pub cell : ℕ → ℕ → Node
cell u next = record { ut = u; next = next }

-- The list that begins at an address.
abbrev pub Chain : Memory → ℕ → List Item → Type 0
Chain m p [] = p ≡ 0
Chain m p (x ∷ xs) =
    (p ≡ x.node)
    × ((x.node ≢ 0)
        × ((next : ℕ) × ((m.nodes x.node ≡ some (cell x.ut next))
              × ((m.entries x.ut ≡ some x.entry) × Chain m next xs))))

-- An address that is none of the nodes, or of the entries.
abbrev pub NoNode : ℕ → List Item → Type 0
NoNode a [] = Unit
NoNode a (x ∷ xs) = (a ≢ x.node) × NoNode a xs

abbrev pub NoEntry : ℕ → List Item → Type 0
NoEntry u [] = Unit
NoEntry u (x ∷ xs) = (u ≢ x.ut) × NoEntry u xs

-- No two elements share a node or an entry.
abbrev pub Distinct : List Item → Type 0
Distinct [] = Unit
Distinct (x ∷ xs) = NoNode x.node xs × (NoEntry x.ut xs × Distinct xs)

-- The slot lies in no node of the list.
abbrev pub Outside : Slot → List Item → Type 0
Outside head_slot xs = Unit
Outside (next_slot r) xs = NoNode r xs

abbrev pub Elsewhere : ℕ → Slot → Type 0
Elsewhere a head_slot = Unit
Elsewhere a (next_slot r) = a ≢ r

-- The elements that are to stay.
abbrev pub kept : ℤ → List Item → List Item
kept pid [] = []
kept pid (x ∷ xs) = if x.entry.ut_pid ==ℤ pid then kept pid xs else x ∷ kept pid xs

abbrev pub Returned : {A : Type 0} → (A → Memory → Type 0) → Ended A → Type 0
Returned P (returned a m) = P a m
Returned P _ = ⊥

-- The node of the slot keeps its entry, and points to the new list.
abbrev pub SlotKept : Memory → Memory → ℕ → Slot → Type 0
SlotKept m m' p head_slot = Unit
SlotKept m m' p (next_slot r) =
    (u n : ℕ) → m.nodes r ≡ some (cell u n) → m'.nodes r ≡ some (cell u p)

-- The caller's variable, unless it is the slot.
abbrev pub HeadKept : Memory → Memory → Slot → Type 0
HeadKept m m' head_slot = Unit
HeadKept m m' (next_slot r) = m'.head ≡ m.head

-- The nodes of the elements with the pid are freed, and their entries too.
abbrev pub Freed : ℤ → List Item → Memory → Type 0
Freed pid [] m = Unit
Freed pid (x ∷ xs) m =
    ((x.entry.ut_pid ==ℤ pid) ≡ true → (m.nodes x.node ≡ none) × (m.entries x.ut ≡ none))
    × Freed pid xs m

-- What a deletion from a slot leaves: the elements with another pid behind the slot, and all else as
-- it was.
pub record Deleted (pp : Slot) (pid : ℤ) (xs : List Item) (m m' : Memory) : Type 0 where
  pub first : ℕ
  pub slot : read_slot m' pp ≡ some first
  pub chain : Chain m' first (kept pid xs)
  pub freed : Freed pid xs m'
  pub other_nodes : (a : ℕ) → NoNode a xs → Elsewhere a pp → m'.nodes a ≡ m.nodes a
  pub other_entries : (u : ℕ) → NoEntry u xs → m'.entries u ≡ m.entries u
  pub slot_kept : SlotKept m m' first pp
  pub head_kept : HeadKept m m' pp

pub Outside-Elsewhere :
    (pp : Slot) (x : Item) (xs : List Item) → Outside pp (x ∷ xs) → Elsewhere x.node pp
Outside-Elsewhere head_slot x xs h = tt
Outside-Elsewhere (next_slot r) x xs h = λ e. h.0 (sym e)

pub Outside-rest : (pp : Slot) (x : Item) (xs : List Item) → Outside pp (x ∷ xs) → Outside pp xs
Outside-rest head_slot x xs h = tt
Outside-rest (next_slot r) x xs h = h.1

-- What happens to one node and its entry leaves a list that holds neither.
pub Chain-frame :
    (m m' : Memory) (pp : Slot) (v u p : ℕ) (xs : List Item)
    → ((a : ℕ) → Elsewhere a pp → a ≢ v → m'.nodes a ≡ m.nodes a)
    → ((w : ℕ) → w ≢ u → m'.entries w ≡ m.entries w)
    → NoNode v xs
    → NoEntry u xs
    → Outside pp xs
    → Chain m p xs
    → Chain m' p xs
Chain-frame m m' pp v u p [] nodes entries no_node no_entry out c = c
Chain-frame m m' pp v u p (x ∷ xs) nodes entries no_node no_entry out
      (at, (alive, (next, (node, (entry, rest))))) =
    (
      at,
      (
        alive,
        (
          next,
          (
            nodes x.node (Outside-Elsewhere pp x xs out) (λ e. no_node.0 (sym e)) ∙ node,
            (
              entries x.ut (λ e. no_entry.0 (sym e)) ∙ entry,
              Chain-frame m m' pp v u next xs nodes entries no_node.1 no_entry.1
                  (Outside-rest pp x xs out) rest,
            ),
          ),
        ),
      ),
    )
