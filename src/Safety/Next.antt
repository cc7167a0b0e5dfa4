-- ===== src/Safety/Next.antt =====
-- The protocol of a connection: its states, without the rest of its data, and the steps between
-- them that the handlers of imonitor.c take.
use imonitor.Base.{
  ℕ, ◌≡◌, ◌≢◌, sym, ap, ◌∙◌, false, Option, none, some, ◌==ℤ◌, if◌then◌else◌, length,
}
use mathlib.Core.Option
use mathlib.Core.Option.{some-injective}
use imonitor.Sys.{
  Env, Server, Connection, ConnectionState, state_new_conn, state_data_received, state_reading,
  state_sending, state_connection_closed, Reply, Call, called,
}
use imonitor.WEpoll.{fd_of}
use imonitor.Safety.Frame.{Frame, Frame-trans, Frame-called, is_traced, untraced}
use imonitor.Safety.Valid.{Sound, Valid, Valid-changed, Valid-freed, Valid-Mute, Mute-called}

-- What an event says of a connection's socket or eventfd.
pub data Ready : Type 0 where
  readable writable : Ready

-- The steps of one connection, `none` where it is freed.
pub data Next : ConnectionState → Ready → Option ConnectionState → Type 0 where
  request_received : Next state_new_conn readable (some state_data_received)
  peer_left : Next state_new_conn readable (some state_connection_closed)
  given_up : Next state_new_conn readable none
  header_begun : Next state_data_received writable (some state_sending)
  read_begun : Next state_reading writable (some state_reading)
  read_ended : Next state_reading readable (some state_sending)
  write_begun : Next state_sending writable (some state_sending)
  write_ended : Next state_sending readable (some state_reading)
  transfer_ended : Next state_sending readable none

-- The states of all connections.
abbrev pub Phases : Type 0
Phases = ℕ → Option ConnectionState

abbrev pub phases : Server → Phases
phases s p = Option.map (λ c. c.state) (s.heap p)

-- What happens at the server.
pub data Event : Type 0 where
  connecting login_changed : Event
  ready : ℕ → Ready → Event

-- An event and what it changes.
pub data Moves : Event → Phases → Phases → Type 0 where
  accepted :
      {before after : Phases} (p : ℕ)
      → after p ≡ some state_new_conn
      → ((q : ℕ) → q ≢ p → after q ≡ before q)
      → Moves connecting before after
  ignored : {before after : Phases} → ((q : ℕ) → after q ≡ before q) → Moves connecting before after
  logged :
      {before after : Phases} → ((q : ℕ) → after q ≡ before q) → Moves login_changed before after
  moved :
      {before after : Phases} {p : ℕ} {r : Ready} (state : ConnectionState)
      → before p ≡ some state
      → Next state r (after p)
      → ((q : ℕ) → q ≢ p → after q ≡ before q)
      → Moves (ready p r) before after

-- The event that `epoll_wait` reports to the server.
unfoldable pub event_of : Server → Reply → Event
event_of s rev =
    if fd_of rev.word ==ℤ s.listenfd
    then connecting
    else if fd_of rev.word ==ℤ s.inotifyfd
    then login_changed
    else if rev.mask.epollout
    then ready rev.word writable
    else ready rev.word readable

-- The connection at `p`, in `state`, has taken a step, and the invariant holds.
pub record Step (env : Env) (p : ℕ) (r : Ready) (state : ConnectionState) (s s' : Server)
    : Type 0 where
  pub valid : Valid env s'
  pub next : Next state r (phases s' p)
  pub ctx : ℕ
  pub own : (c : Connection) → s.heap p ≡ some c → c.ctx ≡ ctx
  pub frame : Frame p ctx s s'

-- The connection at an address is one.
same_ctx :
    (s : Server) (p : ℕ) (c d : Connection) → s.heap p ≡ some c → s.heap p ≡ some d → d.ctx ≡ c.ctx
same_ctx s p c d h e = ap (λ x. x.ctx) (some-injective d c (sym e ∙ h))

module _ {env : Env} {s s' : Server} {p : ℕ} {c : Connection} (v : Valid env s)
    (h : s.heap p ≡ some c) (f : Frame p c.ctx s s') (size : length s'.request_path ≡ env.bufsiz)
    {r : Ready} {state : ConnectionState} where
  -- The connection at `p` is another, with the same context, and sound.
  pub Step-changed :
      {c' : Connection}
      → s'.heap p ≡ some c'
      → c'.ctx ≡ c.ctx
      → Sound env p c' s'.trace
      → Next state r (some c'.state)
      → Step env p r state s s'
  Step-changed live ctx sound n = record {
    valid = Valid-changed v h f size live ctx sound;
    next = rw live n;
    ctx = c.ctx;
    own = λ d e. same_ctx s p c d h e;
    frame = f;
  }

  -- The connection at `p` is freed.
  pub Step-freed : s'.heap p ≡ none → Next state r none → Step env p r state s s'
  Step-freed gone n = record {
    valid = Valid-freed v h f size gone;
    next = rw gone n;
    ctx = c.ctx;
    own = λ d e. same_ctx s p c d h e;
    frame = f;
  }

-- Calls that leave the connections alone are no further step.
pub Step-called :
    {env : Env} {p : ℕ} {r : Ready} {state : ConnectionState} {s s1 : Server} (call : Call)
    → Step env p r state s s1
    → is_traced call ≡ false
    → Step env p r state s (called env call s1)
Step-called {env} {p} {s1} call d h = record {
  valid = Valid-Mute d.valid (Mute-called env call s1 (untraced call h));
  next = d.next;
  ctx = d.ctx;
  own = d.own;
  frame = Frame-trans d.frame (Frame-called env call s1 p d.ctx h);
}
