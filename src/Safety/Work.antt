-- ===== src/Safety/Work.antt =====
-- The pieces of the handlers for a connection in a transfer.
use imonitor.Base.{◌∙◌, length, ◌⊎◌, inl, inr, ℕ, ◌≡◌, refl, some, none, arith}
use imonitor.Sys.{
  Env, Server, Connection, ConnectionState, state_reading, state_sending, state_new_conn,
  state_connection_closed, state_data_received, Ensures, die, load, load-some, eventfd, Trace,
  Ensures-mono,
}
use imonitor.Aio.{submitted, arm}
use imonitor.Logfile.Line.{written}
use imonitor.Transfer.Defs.{delivered}
use imonitor.Handlers.{work, handle_work, start_header, wait_in, resume, finish}
use imonitor.Safety.Frame.{alive, Frame, Quiet, Frame-Quiet}
use imonitor.Safety.Valid.{Own, Sound, Valid}
use imonitor.Safety.Header.{start_header-Headed}
use imonitor.Safety.System.{System}
use imonitor.Safety.Next.{Step, Step-changed, Next, writable, header_begun, read_begun, write_begun}

module _ (env : Env) (p : ℕ) (s : Server) (c : Connection) (h : s.heap p ≡ some c) where
  pub wait_in-Quiet : Ensures (λ _ s'. Quiet p c.ctx s s' × (s'.heap p ≡ some c)) (wait_in env p s)
  unfolding wait_in die load submitted alive delivered written
  wait_in-Quiet = grind arith

  pub arm-Quiet :
      Ensures
        (λ c' s'.
          Quiet p c.ctx s s'
          × ((c' ≡ record c { eventfd = (env.reply s.trace eventfd).rc }) × (s'.heap p ≡ some c')))
        (arm env p s)
  unfolding arm die load submitted alive delivered written
  arm-Quiet = grind arith

  pub resume-Quiet :
      (ctx : ℕ) (c1 : Connection) (next : ConnectionState)
      → Ensures
          (λ _ s'. Quiet p ctx s s' × (s'.heap p ≡ some (record c1 { state = next })))
          (resume env p c1 next s)
  unfolding resume die load submitted alive delivered written
  resume-Quiet ctx c1 next = grind arith

  pub finish-Frame :
      (c1 : Connection)
      → Ensures
          (λ _ s'. Frame p c.ctx s s' × ((s'.heap p ≡ none) × (s'.request_path ≡ s.request_path)))
          (finish env p c1 s)
  unfolding finish die load submitted alive delivered written
  finish-Frame c1 = grind arith

-- A write takes the header, if there is one.
abbrev pub header_left : ConnectionState → ℕ → ℕ
header_left state_sending n = 0
header_left _ n = n

-- The connection at `p` has submitted an operation.
pub record Busy (env : Env) (p : ℕ) (c : Connection) (s s' : Server) : Type 0 where
  pub live :
      s'.heap p
      ≡ some (record c {
        eventfd = (env.reply s.trace eventfd).rc;
        is_header = header_left c.state c.is_header;
      })
  pub frame : Frame p c.ctx s s'
  pub own : Own env.bufsiz p (submitted c.ctx s'.trace)
  pub context : alive c.ctx s'.trace ≡ alive c.ctx s.trace
  pub same_path : s'.request_path ≡ s.request_path

module _ (env : Env) (p : ℕ) (s : Server) (c : Connection) (h : s.heap p ≡ some c) where
  pub reading-Busy :
      c.state ≡ state_reading → Ensures (λ _ s'. Busy env p c s s') (work env state_reading p s)
  unfolding work die load submitted alive delivered written
  reading-Busy e = grind arith

  pub sending-Busy :
      c.state ≡ state_sending
      → length c.send_buffer ≡ env.bufsiz
      → Ensures (λ _ s'. Busy env p c s s') (work env state_sending p s)
  unfolding work die load submitted alive delivered written
  sending-Busy e size = grind arith

-- A connection in a transfer: no request is expected, and none is kept.
abbrev pub InTransfer : Connection → Type 0
InTransfer c = (c.state ≡ state_reading) ⊎ (c.state ≡ state_sending)

-- In a transfer soundness is the sizes and the context.
pub InTransfer-Sound :
    {env : Env} {p : ℕ} {c c' : Connection} {t t' : Trace}
    → Sound env p c t
    → InTransfer c'
    → c'.ctx ≡ c.ctx
    → c'.recv_buffer ≡ c.recv_buffer
    → length c'.send_buffer ≡ env.bufsiz
    → Own env.bufsiz p (submitted c.ctx t')
    → alive c.ctx t' ≡ alive c.ctx t
    → Sound env p c' t'
InTransfer-Sound h transfer same recv size op context = record {
  recv_size = rw recv h.recv_size;
  send_size = size;
  cleared = λ e. absurd (ground arith);
  named = λ e. absurd (ground arith);
  own = rw same op;
  open_context = rw same (context ∙ h.open_context);
}

module _ (env : Env) (sys : System env) (s : Server) (v : Valid env s) (p : ℕ) (c : Connection)
    (h : s.heap p ≡ some c) where
  Busy-Step :
      {state : ConnectionState} (s' : Server)
      → InTransfer c
      → Next state writable (some c.state)
      → Busy env p c s s'
      → Step env p writable state s s'
  Busy-Step s' transfer n b =
      let old = v.sound p c h in
      Step-changed v h b.frame (rw b.same_path v.path_size) b.live refl
        (InTransfer-Sound old transfer refl refl old.send_size b.own b.context) n

  pub start_header-Step :
      c.state ≡ state_data_received
      → Ensures (λ _. Step env p writable state_data_received s) (start_header env p s)
  start_header-Step e =
      let old = v.sound p c h in
      let (name, named) = old.named e in
      let large = sys.large in
      let size = old.send_size in
      Ensures-mono (start_header env p s) _ _ (start_header-Headed env p c (omega arith) s h named)
        λ _ s' (quiet, (c', (live, (state, (ctx, (recv, (send, _))))))).
          Step-changed v h (Frame-Quiet quiet) (rw quiet.same_path v.path_size) live ctx
            (InTransfer-Sound old (inr state) ctx recv (send ∙ old.send_size)
              (rw (quiet.ops c.ctx) old.own) (quiet.contexts c.ctx))
            (rw state header_begun)

  pub work-Step :
      (state : ConnectionState)
      → c.state ≡ state
      → Ensures (λ _. Step env p writable state s) (work env state p s)
  unfolding work
  work-Step state_data_received e = start_header-Step e
  work-Step state_reading e =
      Ensures-mono (work env state_reading p s) _ _ (reading-Busy env p s c h e)
        λ _ s' b. Busy-Step s' (inl e) (rw e read_begun) b
  work-Step state_sending e =
      Ensures-mono (work env state_sending p s) _ _
        (sending-Busy env p s c h e (v.sound p c h).send_size)
        λ _ s' b. Busy-Step s' (inr e) (rw e write_begun) b
  work-Step state_new_conn e = tt
  work-Step state_connection_closed e = tt

  -- An event that lets the server answer, at a connection in any state, is a step of the protocol.
  pub handle_work-Step : Ensures (λ _. Step env p writable c.state s) (handle_work env p s)
  unfolding handle_work
  handle_work-Step = rw (load-some p s h) (work-Step c.state refl)
