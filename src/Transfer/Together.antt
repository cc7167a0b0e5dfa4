-- ===== src/Transfer/Together.antt =====
-- Several answers at the same time: any number of connections, each with its own request, whose events
-- come in any order.
use imonitor.Base.{
  ℕ, suc, ◌*◌, ◌<◌, ◌≡◌, ◌≢◌, sym, ◌∙◌, List, [], ◌∷◌, ◌++◌, Bytes, ℤ, pos, arith, ◌==◌,
  if◌then◌else◌, length,
}
use std.Path.{subst}
use native.Mathlib.Decide.{ℕ_discrete}
use imonitor.Sys.{
  Env, Server, Connection, Reply, Returns, Returns-all, Returns-both, Returns-bind, Returns-mono,
  Yields-Ensures, Returns-Ensures,
}
use imonitor.Utils.{header200}
use imonitor.Main.{dispatch}
use imonitor.Transfer.Defs.{Honest}
use imonitor.Transfer.Apart.{Apart, Apart-refl, Apart-trans, dispatch_all, Robust}
use imonitor.Transfer.Rounds.{Ordinary, Ordinary-Kept}
use imonitor.Transfer.Start.{Stored}
use imonitor.Transfer.Complete.{Finished, blocks}
use imonitor.Transfer.Serve.{Asked, answer_events, answer-Robust}
use imonitor.Safety.Frame.{Frame}
use imonitor.Safety.System.{System}
use imonitor.Safety.Valid.{Valid}
use imonitor.Safety.Apart.{Apart-Frame, connection_event}

-- The events for the address `p`, in their order.
unfoldable pub events_for : ℕ → List Reply → List Reply
events_for p [] = []
events_for p (rev ∷ revs) =
    let rest = events_for p revs in if rev.word == p then rev ∷ rest else rest

events_for-own :
    (p : ℕ) (rev : Reply) (revs : List Reply)
    → rev.word ≡ p
    → events_for p (rev ∷ revs) ≡ rev ∷ events_for p revs
unfolding events_for
events_for-own p rev revs e = ground arith

events_for-other :
    (p : ℕ) (rev : Reply) (revs : List Reply)
    → rev.word ≢ p
    → events_for p (rev ∷ revs) ≡ events_for p revs
unfolding events_for
events_for-other p rev revs e = ground arith

-- Every event is for one of the addresses.
abbrev pub AllFrom : {I : Type 0} → (I → ℕ) → List Reply → Type 0
AllFrom at [] = Unit
AllFrom {I} at (rev ∷ revs) = ((i : I) × (rev.word ≡ at i)) × AllFrom at revs

-- What is left of the events of a connection does not depend on other connections.
Robust-Apart :
    (env : Env) (p ctx : ℕ) (P : Server → Type 0)
    → ((s s1 : Server) → Apart p ctx s s1 → P s → P s1)
    → (revs : List Reply) {s s1 : Server} → Apart p ctx s s1
    → Robust env p ctx revs P s
    → Robust env p ctx revs P s1
Robust-Apart env p ctx P stable [] {s} {s1} a h = stable s s1 a h
Robust-Apart env p ctx P stable (rev ∷ revs) a ((c, (live, same)), next) =
    ((c, (a.same_here ∙ live, same)), λ s2 b. next s2 (Apart-trans a b))

module _ (env : Env) (sys : System env) {I : Type 0} (at ctx : I → ℕ) (P : I → Server → Type 0)
    (separate : (i j : I) → ctx i ≡ ctx j → at i ≡ at j)
    (stable : (i : I) (s s1 : Server) → Apart (at i) (ctx i) s s1 → P i s → P i s1) where
  -- Between two events every connection goes on with the events that are left for it.
  record Serving (revs : List Reply) (s : Server) : Type 0 where
    valid : Valid env s
    ordinary : (i : I) → Ordinary (at i) s
    robust : (i : I) → Robust env (at i) (ctx i) (events_for (at i) revs) (P i) s

  module _ (rev : Reply) (revs : List Reply) (s : Server) (j : I) (for_j : rev.word ≡ at j)
      (now : Serving (rev ∷ revs) s) where
    own_event :
        (i : I) → rev.word ≡ at i → Robust env (at i) (ctx i) (rev ∷ events_for (at i) revs) (P i) s
    own_event i e =
        subst (λ l. Robust env (at i) (ctx i) l (P i) s) (events_for-own (at i) rev revs e)
          (now.robust i)

    event-Frame : Returns (λ _ s1. Valid env s1 × Frame rev.word (ctx j) s s1) (dispatch env rev s)
    event-Frame =
        let ((c, (live, same)), next) = own_event j for_j in
        let o = now.ordinary j in
        Returns-mono (dispatch env rev s) _ _
          (Returns-both (dispatch env rev s) _ _ (next s (Apart-refl (at j) (ctx j) s)) (
            Yields-Ensures (dispatch env rev s) _ (
              connection_event env sys s now.valid rev c (rw for_j live) (rw for_j o.not_listener)
                (rw for_j o.not_inotify))))
          λ _ s1 (_, (v, f)). (v, rw same at f)

    event-Robust :
        (i : I)
        → Returns
            (λ _. Robust env (at i) (ctx i) (events_for (at i) revs) (P i))
            (dispatch env rev s)
    event-Robust i = elim (ℕ_discrete rev.word (at i)) [
      | yes e ↦ (own_event i e).1 s (Apart-refl (at i) (ctx i) s)
      | no e ↦ Returns-mono (dispatch env rev s) _ _ event-Frame λ _ s1 (_, f).
          Robust-Apart env (at i) (ctx i) (P i) (stable i) (events_for (at i) revs)
            (Apart-Frame f (λ same. e (sym same)) λ same. e (for_j ∙ sym (separate i j same)))
            (subst (λ l. Robust env (at i) (ctx i) l (P i) s) (events_for-other (at i) rev revs e)
              (now.robust i))
    ]

    event-Serving : Returns (λ _. Serving revs) (dispatch env rev s)
    event-Serving =
        Returns-mono (dispatch env rev s) _ _
          (Returns-all (dispatch env rev s) _ j λ i.
            Returns-both (dispatch env rev s) _ _ (event-Robust i) (
              Yields-Ensures (dispatch env rev s) _
                (Returns-Ensures (dispatch env rev s) _ event-Frame)))
          λ _ s1 h. record {
            valid = (h j).1.0;
            ordinary = λ i.
                let f = (h j).1.1 in
                Ordinary-Kept (now.ordinary i) (f.kept_listenfd, f.kept_inotifyfd, f.kept_epollfd);
            robust = λ i. (h i).0;
          }

  all-Serving :
      (revs : List Reply) (s : Server)
      → AllFrom at revs
      → Serving revs s
      → Returns (λ _ s1. (i : I) → P i s1) (dispatch_all env revs s)
  unfolding dispatch_all events_for
  all-Serving [] s from now = now.robust
  all-Serving (rev ∷ revs) s ((j, for_j), from) now =
      Returns-bind (dispatch env rev s) _ _ _ (event-Serving rev revs s j for_j now)
        λ _ s1 next. all-Serving revs s1 from next

-- A client whose request has been parsed, and the file that it asks for.
pub record Customer (env : Env) (s : Server) : Type 0 where
  pub p : ℕ
  pub c : Connection
  pub path : Bytes
  pub file : ℤ
  pub content : Bytes
  pub asked : Asked env p c path s
  pub stored : Stored env path file content
  pub honest : Honest env file content
  pub small : length content < 0x8000_0000

-- The answers to any number of requests at the same time. On a system as memory safety asks for it,
-- where no call of the transfers fails and every write is whole, between two events where the
-- invariant holds: each of some connections has a request for a file below 2 GB, and of the events
-- that come, in any order of the connections, each is for one of them, those for each connection
-- being the event that starts the answer, one round for the header and two for each block of its
-- file. Then all events return, and behind the last each connection has delivered to its socket the
-- 200 header and the whole of its own file, in this order and nothing else, and is freed.
pub answer-all :
    (env : Env)
    → System env
    → (s : Server) → Valid env s
    → {I : Type 0} (client : I → Customer env s) (revs : List Reply)
    → AllFrom (λ i. (client i).p) revs
    → ((i : I)
        → events_for (client i).p revs
          ≡ answer_events (client i).p (suc (2 * blocks env (client i).content)))
    → Returns
        (λ _ s'.
          (i : I)
          → let content = (client i).content in
            Finished
              (client i).p
              (client i).c.ctx
              (client i).c.sockfd
              (header200 (pos (length content)) ++ content)
              s')
        (dispatch_all env revs s)
answer-all env sys s v client revs from own =
    all-Serving env sys (λ i. (client i).p) (λ i. (client i).c.ctx) _
      (λ i j. v.apart _ _ _ _ (client i).asked.live (client j).asked.live)
      (λ i s1 s2 a (gone, sent). (a.same_here ∙ gone, a.same_sent _ ∙ sent)) revs s from
      record {
        valid = v;
        ordinary = λ i. (client i).asked.ordinary;
        robust = λ i.
            let k = client i in
            let large = sys.large in
            rw (own i)
              (answer-Robust env k.honest k.stored (omega arith) k.small k.p k.c s k.asked);
      }
