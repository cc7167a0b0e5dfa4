-- ===== src/Safety/DeadEnds.antt =====
-- Events that a connection's state has no step for: `handle_epollin`, `handle_work` and
-- `handle_work_done` of imonitor.c end the whole server there.
use imonitor.Base.{ℕ, ◌≡◌, refl, sym, ◌∙◌, Bool, true, false, Option, some, arith, ap}
use mathlib.Core.Option
use mathlib.Core.Option.{some-injective}
use imonitor.Sys.{
  Env, Server, Connection, ConnectionState, Reply, Run, done, exit, fault, starved, Ensures,
  Ensures-mono, state_new_conn, state_data_received, state_reading, state_sending,
}
use imonitor.Main.{dispatch}
use imonitor.Safety.Valid.{Valid}
use imonitor.Safety.System.{System}
use imonitor.Safety.Next.{
  Next, Ready, readable, writable, Phases, Moves, moved, ready, event_of, request_received,
  peer_left, given_up, header_begun, read_begun, read_ended, write_begun, write_ended,
  transfer_ended,
}
use imonitor.Safety.Events.{Genuine, dispatch-Moves}

-- The events that a state has a step for.
abbrev pub awaits : ConnectionState → Ready → Bool
awaits state_new_conn readable = true
awaits state_data_received writable = true
awaits state_reading r = true
awaits state_sending r = true
awaits _ _ = false

awaits-Next :
    {state : ConnectionState} {r : Ready} {after : Option ConnectionState}
    → Next state r after
    → awaits state r ≡ true
awaits-Next request_received = refl
awaits-Next peer_left = refl
awaits-Next given_up = refl
awaits-Next header_begun = refl
awaits-Next read_begun = refl
awaits-Next read_ended = refl
awaits-Next write_begun = refl
awaits-Next write_ended = refl
awaits-Next transfer_ended = refl

awaits-Moves :
    {before after : Phases} {p : ℕ} {r : Ready}
    → Moves (ready p r) before after
    → (state : ConnectionState) × ((before p ≡ some state) × (awaits state r ≡ true))
awaits-Moves (moved state h n others) = (state, (h, awaits-Next n))

-- A command that cannot return ends in `exit`.
pub Ensures-exit :
    {A : Type 0} (run : Run A) → Ensures (λ _ _. ⊥) run → (s : Server) × (run ≡ exit s)
Ensures-exit (done a s) h = absurd h
Ensures-exit (exit s) h = (s, refl)
Ensures-exit (fault s) h = absurd h
Ensures-exit (starved s) h = absurd h

-- On a system as described, an event at an allocated connection whose state has no step for it ends
-- the whole server by DIE: output at a connection without a request or that its peer has closed,
-- input at one whose request has been received or that its peer has closed.
pub dispatch-exit :
    (env : Env)
    → System env
    → (s : Server) → Valid env s
    → (rev : Reply) (p : ℕ) (r : Ready) (c : Connection) → Genuine s rev
    → event_of s rev ≡ ready p r
    → s.heap p ≡ some c
    → awaits c.state r ≡ false
    → (s' : Server) × (dispatch env rev s ≡ exit s')
dispatch-exit env sys s v rev p r c g at h no_step = Ensures-exit (dispatch env rev s) (
    Ensures-mono (dispatch env rev s) _ _ (dispatch-Moves env sys s v rev g) λ _ s' (_, m).
      let (state, (was, step)) = awaits-Moves (rw at at m) in
      let same : state ≡ c.state =
        some-injective state c.state (sym was ∙ ap (Option.map (λ c. c.state)) h) in
      absurd (ground arith))
