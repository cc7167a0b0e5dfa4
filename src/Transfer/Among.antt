-- ===== src/Transfer/Among.antt =====
-- The transfers of several connections at the same time: the events of one of them, with any events
-- of the others, of the listening socket and of the login database in between.
use imonitor.Base.{
  ℕ, zero, suc, ◌*◌, ◌<◌, ◌≡◌, ◌≢◌, refl, ap, ◌∙◌, Bool, true, false, List, [], ◌∷◌, ◌++◌, Bytes, ℤ,
  pos, arith, ◌==◌, length,
}
use imonitor.Sys.{
  Env, Server, Connection, Reply, Run, Ensures-both, Returns, Returns-both, Returns-bind,
  Returns-mono, Yields, Yields-Ensures,
}
use imonitor.Utils.{header200}
use imonitor.Main.{dispatch}
use imonitor.Transfer.Defs.{Honest}
use imonitor.Transfer.Apart.{
  Apart, Apart-refl, Apart-trans, dispatch_all, Live, Robust, round_events,
}
use imonitor.Transfer.Start.{Stored}
use imonitor.Transfer.Complete.{Finished, blocks}
use imonitor.Transfer.Serve.{Asked, answer_events, answer-Robust}
use imonitor.Safety.System.{System}
use imonitor.Safety.NewWatch.{MallocFresh}
use imonitor.Safety.EventsWatch.{Delivered, Delivered-Genuine, dispatch-Kept}
use imonitor.Safety.Program.{Good}
use imonitor.Safety.Apart.{dispatch-Apart}

-- The events of `own`, in their order, with the events of a gap before each of them.
unfoldable pub among : List Reply → List (List Reply) → List Reply
among [] gaps = []
among (rev ∷ own) [] = rev ∷ among own []
among (rev ∷ own) (gap ∷ gaps) = gap ++ rev ∷ among own gaps

-- All events are for the address `p`, or none is.
abbrev pub AllFor : ℕ → List Reply → Type 0
AllFor p [] = Unit
AllFor p (rev ∷ revs) = (rev.word ≡ p) × AllFor p revs

abbrev pub NoneFor : ℕ → List Reply → Type 0
NoneFor p [] = Unit
NoneFor p (rev ∷ revs) = (rev.word ≢ p) × NoneFor p revs

abbrev pub AllNoneFor : ℕ → List (List Reply) → Type 0
AllNoneFor p [] = Unit
AllNoneFor p (gap ∷ gaps) = NoneFor p gap × AllNoneFor p gaps

abbrev Served : Bool → (Unit {0} → Server → Type 0) → Run (Unit {0}) → Type 0
Served true P r = Yields P r
Served false P r = Returns P r

-- Every event comes from a registration when it is delivered, and no event for another address than
-- `p` ends the process.
abbrev pub Fair : Env → ℕ → List Reply → Server → Type 0
Fair env p [] s = Unit
Fair env p (rev ∷ revs) s =
    Delivered s rev × Served (rev.word == p) (λ _ s1. Fair env p revs s1) (dispatch env rev s)

own-Served :
    {b : Bool} (P : Unit {0} → Server → Type 0) (r : Run (Unit {0}))
    → b ≡ true
    → Served b P r
    → Yields P r
own-Served {b = true} P r e h = h
own-Served {b = false} P r e h = absurd (ground arith)

other-Served :
    {b : Bool} (P : Unit {0} → Server → Type 0) (r : Run (Unit {0}))
    → b ≡ false
    → Served b P r
    → Returns P r
other-Served {b = false} P r e h = h
other-Served {b = true} P r e h = absurd (ground arith)

eqb_refl : (p : ℕ) → (p == p) ≡ true
eqb_refl p = ground arith

eqb_other : (p q : ℕ) → q ≢ p → (q == p) ≡ false
eqb_other p q h = ground arith

module _ (env : Env) (sys : System env) (malloc_fresh : MallocFresh env) (p ctx : ℕ)
    (P : Server → Type 0) where
  -- What the rest of the events needs.
  abbrev Continues : List Reply → Server → Server → Type 0
  Continues rest s s1 = Apart p ctx s s1 × (Good env s1 × Fair env p rest s1)

  other_event :
      (rev : Reply) (rest : List Reply) (s : Server)
      → rev.word ≢ p
      → Live p ctx s
      → Good env s
      → Fair env p (rev ∷ rest) s
      → Returns (λ _. Continues rest s) (dispatch env rev s)
  other_event rev rest s other (c, (h, same)) (v, r) (from, returns) =
      let genuine = Delivered-Genuine env sys malloc_fresh s v r rev from in
      Returns-mono (dispatch env rev s) _ _
        (Returns-both (dispatch env rev s) _ _
          (other-Served _ _ (eqb_other p rev.word other) returns)
          (Yields-Ensures (dispatch env rev s) _ (
            Ensures-both (dispatch env rev s) _ _
              (dispatch-Apart env sys malloc_fresh s v r p c h rev genuine other)
              (dispatch-Kept env sys malloc_fresh s v r rev from))))
        λ _ s1 (fair, (a, ((v1, _), r1))). (rw same at a, ((v1, r1), fair))

  -- The events of a gap.
  gap_events :
      (gap rest : List Reply) (s : Server)
      → NoneFor p gap
      → Live p ctx s
      → Good env s
      → Fair env p (gap ++ rest) s
      → ((s1 : Server) → Continues rest s s1 → Returns (λ _. P) (dispatch_all env rest s1))
      → Returns (λ _. P) (dispatch_all env (gap ++ rest) s)
  unfolding dispatch_all
  gap_events [] rest s none live good fair next = next s (Apart-refl p ctx s, (good, fair))
  gap_events (rev ∷ gap) rest s (other, none) (c, (h, same)) good fair next =
      Returns-bind (dispatch env rev s) _ _ _
        (other_event rev (gap ++ rest) s other (c, (h, same)) good fair)
        λ _ s1 (a, (good1, fair1)).
          gap_events gap rest s1 none (c, (a.same_here ∙ h, same)) good1 fair1
            λ s2 (b, more). next s2 (Apart-trans a b, more)

  -- An event of the connection itself.
  own_event :
      (rev : Reply) (own rest : List Reply) (s s1 : Server)
      → rev.word ≡ p
      → Robust env p ctx (rev ∷ own) P s
      → Continues (rev ∷ rest) s s1
      → Returns
          (λ _ s2. Robust env p ctx own P s2 × (Good env s2 × Fair env p rest s2))
          (dispatch env rev s1)
  own_event rev own rest s s1 mine (live, robust) (a, ((v, r), (from, yields))) =
      Returns-mono (dispatch env rev s1) _ _
        (Returns-both (dispatch env rev s1) _ _
          (Returns-both (dispatch env rev s1) _ _ (robust s1 a) (
            Yields-Ensures (dispatch env rev s1) _
              (dispatch-Kept env sys malloc_fresh s1 v r rev from)))
          (own-Served _ _ (ap (λ q. q == p) mine ∙ eqb_refl p) yields))
        λ _ s2 ((next, ((v2, _), r2)), fair). (next, ((v2, r2), fair))

  among-Robust :
      (own : List Reply) (gaps : List (List Reply)) (s : Server)
      → AllFor p own
      → AllNoneFor p gaps
      → Robust env p ctx own P s
      → Good env s
      → Fair env p (among own gaps) s
      → Returns (λ _. P) (dispatch_all env (among own gaps) s)
  unfolding among dispatch_all
  among-Robust [] gaps s mine none robust good fair = robust
  among-Robust (rev ∷ own) [] s (for_p, mine) none robust good fair =
      Returns-bind (dispatch env rev s) _ _ _
        (own_event rev own (among own []) s s for_p robust (Apart-refl p ctx s, (good, fair)))
        λ _ s1 (next, (good1, fair1)). among-Robust own [] s1 mine tt next good1 fair1
  among-Robust (rev ∷ own) (gap ∷ gaps) s (for_p, mine) (none, more) robust good fair =
      gap_events gap (rev ∷ among own gaps) s none robust.0 good fair λ s1 continues.
        Returns-bind (dispatch env rev s1) _ _ _
          (own_event rev own (among own gaps) s s1 for_p robust continues)
          λ _ s2 (next, (good2, fair2)). among-Robust own gaps s2 mine more next good2 fair2

round_events-AllFor : (p k : ℕ) → AllFor p (round_events p k)
round_events-AllFor p zero = tt
round_events-AllFor p (suc k) = (refl, (refl, round_events-AllFor p k))

-- The answer to a request among the events of other connections. On a system as memory safety asks
-- for it, where no call of the transfer fails and every write is whole, where `malloc` returns no
-- address that is allocated, with a file below 2 GB, between two events where both invariants
-- hold: the events of the answer come in their order, before each of them any number of other
-- events may come, new connections, changes of the login database and events of other connections
-- in whatever state, every event comes from a registration, and no other event ends the process.
-- Then all events return, and behind the last the connection has delivered to its socket the 200
-- header and the whole file, in this order and nothing else, and is freed.
pub answer-among :
    (env : Env) {path : Bytes} {file : ℤ} {content : Bytes}
    → System env
    → MallocFresh env
    → Honest env file content
    → Stored env path file content
    → length content < 0x8000_0000
    → (p : ℕ) (c : Connection) (s : Server) → Asked env p c path s
    → Good env s
    → (gaps : List (List Reply)) → AllNoneFor p gaps
    → let own = answer_events p (suc (2 * blocks env content)) in
      Fair env p (among own gaps) s
      → Returns
          (λ _. Finished p c.ctx c.sockfd (header200 (pos (length content)) ++ content))
          (dispatch_all env (among own gaps) s)
answer-among env {content} sys malloc_fresh honest stored small p c s asked good gaps none fair =
    let k = suc (2 * blocks env content) in
    let large = sys.large in
    among-Robust env sys malloc_fresh p c.ctx _ (answer_events p k) gaps s
      (refl, round_events-AllFor p k) none
      (answer-Robust env honest stored (omega arith) small p c s asked) good fair
