-- ===== src/NodeList/Delete.antt =====
-- `delete_node` of list.c on a well-formed list.
use imonitor.Base.{
  ℕ, zero, suc, ◌<◌, ◌≡◌, ◌≢◌, refl, ap, ◌∙◌, Bool-cases, inl, inr, none, some, List, [], ◌∷◌, ℤ,
  arith, ◌==ℤ◌, if◌then◌else◌, length,
}
use imonitor.Sys.{Utmpx}
use imonitor.NodeList.{
  Node, Memory, Ended, returned, died, undefined, starved, Slot, head_slot, next_slot, read_slot,
  unlink, delete_node,
}
use imonitor.NodeList.Chain.{
  Item, cell, Chain, NoNode, NoEntry, Freed, Distinct, Outside, Elsewhere, kept, Returned, SlotKept,
  HeadKept, Deleted, Outside-Elsewhere, Outside-rest, Chain-frame,
}

delete_node-step :
    (fuel : ℕ) (pp : Slot) (pid : ℤ) (m : Memory) (q : ℕ) {n : Node} {ut : Utmpx}
    → read_slot m pp ≡ some q
    → q ≢ 0
    → m.nodes q ≡ some n
    → m.entries n.ut ≡ some ut
    → delete_node (suc fuel) pp pid m ≡ (
        if ut.ut_pid ==ℤ pid
        then delete_node fuel pp pid (unlink m pp q n)
        else delete_node fuel (next_slot q) pid m)
unfolding delete_node
delete_node-step fuel pp pid m zero h alive node entry = absurd (alive refl)
delete_node-step fuel pp pid m (suc q) h alive node entry =
    rw (delete_node, h, node, entry) (ground arith)

unlink-slot :
    (m : Memory) (pp : Slot) (v : ℕ) (n : Node) {q : ℕ}
    → read_slot m pp ≡ some q
    → Elsewhere v pp
    → read_slot (unlink m pp v n) pp ≡ some n.next
unfolding unlink read_slot
unlink-slot m head_slot v n h e = refl
unlink-slot m (next_slot r) v n h e = ground arith

unlink-nodes :
    (m : Memory) (pp : Slot) (v : ℕ) (n : Node) (a : ℕ)
    → Elsewhere a pp
    → a ≢ v
    → (unlink m pp v n).nodes a ≡ m.nodes a
unfolding unlink
unlink-nodes m head_slot v n a e h = ground arith
unlink-nodes m (next_slot r) v n a e h = ground arith

unlink-entries :
    (m : Memory) (pp : Slot) (v : ℕ) (n : Node) (w : ℕ)
    → w ≢ n.ut
    → (unlink m pp v n).entries w ≡ m.entries w
unfolding unlink
unlink-entries m head_slot v n w h = ground arith
unlink-entries m (next_slot r) v n w h = ground arith

unlink-freed :
    (m : Memory) (pp : Slot) (v : ℕ) (n : Node)
    → Elsewhere v pp
    → ((unlink m pp v n).nodes v ≡ none) × ((unlink m pp v n).entries n.ut ≡ none)
unfolding unlink
unlink-freed m pp v n e = (ground arith, ground arith)

unlink-SlotKept :
    (m m' : Memory) (pp : Slot) (v : ℕ) (n : Node) (p : ℕ)
    → Elsewhere v pp
    → SlotKept (unlink m pp v n) m' p pp
    → SlotKept m m' p pp
unfolding unlink
unlink-SlotKept m m' head_slot v n p e k = tt
unlink-SlotKept m m' (next_slot r) v n p e k = λ u next node. k u n.next (ground arith)

unlink-HeadKept :
    (m m' : Memory) (pp : Slot) (v : ℕ) (n : Node)
    → HeadKept (unlink m pp v n) m' pp
    → HeadKept m m' pp
unfolding unlink
unlink-HeadKept m m' head_slot v n k = tt
unlink-HeadKept m m' (next_slot r) v n k = ground arith

delete_node-end :
    (fuel : ℕ) (pp : Slot) (pid : ℤ) (m : Memory)
    → read_slot m pp ≡ some 0
    → delete_node (suc fuel) pp pid m ≡ returned tt m
unfolding delete_node
delete_node-end fuel pp pid m h = rw (delete_node, h) refl

SlotKept-refl : (m : Memory) (pp : Slot) (p : ℕ) → read_slot m pp ≡ some p → SlotKept m m p pp
unfolding read_slot
SlotKept-refl m head_slot p h = tt
SlotKept-refl m (next_slot r) p h = λ u n node. ground arith

HeadKept-refl : (m : Memory) (pp : Slot) → HeadKept m m pp
HeadKept-refl m head_slot = tt
HeadKept-refl m (next_slot r) = refl

Returned-mono :
    {A : Type 0} (r : Ended A) (P Q : A → Memory → Type 0)
    → Returned P r
    → ((a : A) (m : Memory) → P a m → Q a m)
    → Returned Q r
Returned-mono (returned a m) P Q p weaken = weaken a m p
Returned-mono died P Q p weaken = absurd p
Returned-mono undefined P Q p weaken = absurd p
Returned-mono starved P Q p weaken = absurd p

-- A slot behind a deletion further down.
slot_behind :
    (m m' : Memory) (pp : Slot) (x : Item) (xs : List Item) (pid : ℤ)
    → read_slot m pp ≡ some x.node
    → Outside pp (x ∷ xs)
    → Deleted (next_slot x.node) pid xs m m'
    → (read_slot m' pp ≡ some x.node) × (SlotKept m m' x.node pp × HeadKept m m' pp)
unfolding read_slot
slot_behind m m' head_slot x xs pid h out d = (ap some d.head_kept ∙ h, (tt, tt))
slot_behind m m' (next_slot r) x xs pid h out d =
    let same = d.other_nodes r out.1 out.0 in
    (ground arith, ((λ u n node. ground arith), d.head_kept))

read_next :
    (m : Memory) (q : ℕ) {n : Node} → m.nodes q ≡ some n → read_slot m (next_slot q) ≡ some n.next
unfolding read_slot
read_next m q h = rw (read_slot, h) refl

-- On a list without sharing, at a slot outside it, and with fuel for its elements `delete_node`
-- returns, and leaves behind the slot the elements with another pid, in their order.
delete_node-Deleted :
    (fuel : ℕ) (pp : Slot) (pid : ℤ) (m : Memory) (p : ℕ) (xs : List Item)
    → read_slot m pp ≡ some p
    → Chain m p xs
    → Distinct xs
    → Outside pp xs
    → length xs < fuel
    → Returned (λ _ m'. Deleted pp pid xs m m') (delete_node fuel pp pid m)
delete_node-Deleted zero pp pid m p xs h c d out enough = absurd (omega arith)
delete_node-Deleted (suc fuel) pp pid m p [] h c d out enough =
    rw (delete_node-end fuel pp pid m (h ∙ ap some c)) record {
      first = 0;
      slot = h ∙ ap some c;
      chain = refl;
      freed = tt;
      other_nodes = λ a _ _. refl;
      other_entries = λ u _. refl;
      slot_kept = SlotKept-refl m pp 0 (h ∙ ap some c);
      head_kept = HeadKept-refl m pp;
    }
delete_node-Deleted (suc fuel) pp pid m p (x ∷ xs) h (at, (alive, (next, (node, (entry, rest)))))
      (no_node, (no_entry, d)) out enough =
    let here : read_slot m pp ≡ some x.node = h ∙ ap some at in
    let away = Outside-Elsewhere pp x xs out in
    let n : Node = cell x.ut next in
    let m1 : Memory = unlink m pp x.node n in
    rw (delete_node-step fuel pp pid m x.node here alive node entry)
      (elim (Bool-cases (x.entry.ut_pid ==ℤ pid)) [
        | inl equal ↦ rw equal (
            Returned-mono (delete_node fuel pp pid m1) _ _
              (delete_node-Deleted fuel pp pid m1 next xs (unlink-slot m pp x.node n here away)
                (Chain-frame m m1 pp x.node x.ut next xs (unlink-nodes m pp x.node n)
                  (unlink-entries m pp x.node n) no_node no_entry (Outside-rest pp x xs out) rest)
                d (Outside-rest pp x xs out) (omega arith))
              λ _ m' k. record {
                first = k.first;
                slot = k.slot;
                chain = rw equal k.chain;
                freed = (
                  λ _. (
                    k.other_nodes x.node no_node away ∙ (unlink-freed m pp x.node n away).0,
                    k.other_entries x.ut no_entry ∙ (unlink-freed m pp x.node n away).1,
                  ),
                  k.freed,
                );
                other_nodes =
                    λ a no e. k.other_nodes a no.1 e ∙ unlink-nodes m pp x.node n a e no.0;
                other_entries =
                    λ u no. k.other_entries u no.1 ∙ unlink-entries m pp x.node n u no.0;
                slot_kept = unlink-SlotKept m m' pp x.node n k.first away k.slot_kept;
                head_kept = unlink-HeadKept m m' pp x.node n k.head_kept;
              })
        | inr other ↦ rw other (
            Returned-mono (delete_node fuel (next_slot x.node) pid m) _ _
              (delete_node-Deleted fuel (next_slot x.node) pid m next xs (read_next m x.node node)
                rest d no_node (omega arith))
              λ _ m' k.
                let (slot, (slot_kept, head_kept)) = slot_behind m m' pp x xs pid here out k in
                record {
                  first = x.node;
                  slot = slot;
                  chain = rw other (
                    refl,
                    (
                      alive,
                      (
                        k.first,
                        (
                          k.slot_kept x.ut next node,
                          (k.other_entries x.ut no_entry ∙ entry, k.chain),
                        ),
                      ),
                    ),
                  );
                  freed = ((λ equal. absurd (ground arith)), k.freed);
                  other_nodes = λ a no e. k.other_nodes a no.1 no.0;
                  other_entries = λ u no. k.other_entries u no.1;
                  slot_kept = slot_kept;
                  head_kept = head_kept;
                })
      ])

head-read : (m : Memory) → read_slot m head_slot ≡ some m.head
unfolding read_slot
head-read m = refl

head_first : (m : Memory) {p : ℕ} → read_slot m head_slot ≡ some p → p ≡ m.head
unfolding read_slot
head_first m h = ground arith

-- On a list whose nodes and entries are all different, with fuel for each element, `delete_node`
-- from the caller's variable returns: that variable holds the list of the elements with another pid,
-- in their order, the node and the entry of every element with the pid are freed, and every node and
-- every entry outside the list is as it was.
pub delete_node-kept :
    (pid : ℤ) (m : Memory) (xs : List Item)
    → Chain m m.head xs
    → Distinct xs
    → Returned
        (λ _ m'.
          Chain m' m'.head (kept pid xs)
          × (Freed pid xs m'
              × (((a : ℕ) → NoNode a xs → m'.nodes a ≡ m.nodes a)
                  × ((u : ℕ) → NoEntry u xs → m'.entries u ≡ m.entries u))))
        (delete_node (suc (length xs)) head_slot pid m)
delete_node-kept pid m xs c d =
    Returned-mono (delete_node (suc (length xs)) head_slot pid m) _ _
      (delete_node-Deleted (suc (length xs)) head_slot pid m m.head xs (head-read m) c d tt
        (omega arith))
      λ _ m' k. (
        rw (head_first m' k.slot) at k.chain,
        (k.freed, ((λ a no. k.other_nodes a no tt), k.other_entries)),
      )
