-- ===== src/NodeList/Ends.antt =====
-- `insert_list` and `print_list` of list.c on a well-formed list.
use imonitor.Base.{
  ℕ, false, zero, suc, ◌<◌, ◌≡◌, refl, ◌∙◌, some, List, [], ◌∷◌, ◌++◌, Bytes, codes, arith, ◌==◌,
  if◌then◌else◌, length,
}
use imonitor.Sys.{Utmpx}
use imonitor.Utils.{decimal_ℤ}
use imonitor.Utils.Text.{before_nul, c_string-before_nul}
use imonitor.NodeList.{
  set, Node, after_text, Memory, returned, insert_list, copy_start, node_text, print_list,
  head_slot,
}
use imonitor.NodeList.Chain.{Item, cell, Chain, NoNode, NoEntry, Returned, Chain-frame}

-- The lines of a list: the user and the pid of each element.
abbrev pub lines : List Item → Bytes
lines [] = []
lines (x ∷ xs) =
    (codes "Node: "
      ++ before_nul x.entry.ut_user
      ++ codes " with pid = "
      ++ decimal_ℤ x.entry.ut_pid
      ++ 10 ∷ [])
    ++ lines xs

-- The user of every element ends in the array.
abbrev pub AllNamed : List Item → Type 0
AllNamed [] = Unit
AllNamed (x ∷ xs) = (length (before_nul x.entry.ut_user) < length x.entry.ut_user) × AllNamed xs

print_list-step :
    (fuel p : ℕ) (m : Memory) {n : Node} {ut : Utmpx}
    → m.nodes p ≡ some n
    → m.entries n.ut ≡ some ut
    → length (before_nul ut.ut_user) < length ut.ut_user
    → print_list (suc fuel) p m
      ≡ after_text
          (codes "Node: "
            ++ before_nul ut.ut_user
            ++ codes " with pid = "
            ++ decimal_ℤ ut.ut_pid
            ++ 10 ∷ [])
          (if n.next == 0 then returned [] m else print_list fuel n.next m)
unfolding print_list node_text
print_list-step fuel p m {ut = ut} node entry named =
    rw (print_list, node, entry, c_string-before_nul ut.ut_user named) refl

-- On a well-formed list that is not empty, whose users each end inside their arrays, with fuel for each
-- element, the loop of `print_list` ends: it has printed one line for each element, in order, with its
-- user and its pid, and changes no memory.
pub print_list-lines :
    (m : Memory) (fuel p : ℕ) (x : Item) (xs : List Item)
    → Chain m p (x ∷ xs)
    → AllNamed (x ∷ xs)
    → length xs < fuel
    → print_list fuel p m ≡ returned (lines (x ∷ xs)) m
print_list-lines m zero p x xs chain named enough = absurd (omega arith)
print_list-lines m (suc fuel) p x [] (at, (alive, (next, (node, (entry, end))))) named enough =
    print_list-step fuel p m {n = cell x.ut next} (rw at node) entry named.0 ∙ rw end refl
print_list-lines m (suc fuel) p x (y ∷ ys) (at, (alive, (next, (node, (entry, rest))))) named
      enough =
    let more : (next == 0) ≡ false = ground arith in
    print_list-step fuel p m {n = cell x.ut next} (rw at node) entry named.0
    ∙ rw (more, print_list-lines m fuel next y ys rest named.1 (omega arith)) refl

-- Where `malloc` returns a node that is not in the well-formed list, and the fresh node's `ut` happens
-- to point to an entry that is not in it either, `insert_list` puts that entry in front, with the type
-- and the pid of the new login and the rest of what the entry held.
pub insert_list-front :
    (m : Memory) (new junk : ℕ) (ut old : Utmpx) (xs : List Item)
    → Chain m m.head xs
    → m.entries junk ≡ some old
    → NoNode (suc new) xs
    → NoEntry junk xs
    → Returned
        (λ _ m'.
          Chain m' m'.head ((record { node = suc new; ut = junk; entry = copy_start old ut }) ∷ xs))
        (insert_list (suc new) junk ut m)
unfolding insert_list
insert_list-front m new junk ut old xs chain held no_node no_entry =
    let item : Item = record { node = suc new; ut = junk; entry = copy_start old ut } in
    let m1 : Memory = record m {
      head = suc new;
      nodes = set m.nodes (suc new) (some (cell junk m.head));
      entries = set m.entries junk (some (copy_start old ut));
    } in
    let rest : Chain m1 m.head xs =
      Chain-frame m m1 head_slot (suc new) junk m.head xs (λ a e other. ground arith)
        (λ w other. ground arith) no_node no_entry tt chain in
    let front : Chain m1 (suc new) (item ∷ xs) =
      (refl, (omega arith, (m.head, (ground arith, (ground arith, rest))))) in
    rw (insert_list, held) front
