-- ===== src/Safety/Done.antt =====
-- The completion of an operation: `handle_work_done` keeps the invariant.
use imonitor.Base.{
  ℕ, ◌≡◌, ◌≤◌, ◌⊎◌, inl, inr, refl, ◌∙◌, ◌++◌, Option, some, none, Bytes, ℤ, arith, ◌==◌, length,
  length-append, length-drop, drop, add_size, Bool-cases,
}
use imonitor.Sys.{
  Env, Server, Connection, ConnectionState, state_reading, state_sending, state_new_conn,
  state_connection_closed, state_data_received, IoOp, pread, pwrite, Ensures, Ensures-bind,
  Ensures-mono, Ensures-die, load-some, called, defined-some, memcpy_lem, EpollEvent, epoll_ctl,
  ctl_del, close, malloc_event, io_getevents, fprintf_stderr,
}
use imonitor.WEpoll.{epollin}
use imonitor.Aio.{submitted, complete}
use imonitor.Handlers.{work_done, resume, finish, handle_work_done}
use imonitor.Debug.{dprintf_text, message}
use imonitor.Safety.Frame.{
  Frame-trans, Quiet, Quiet-refl, Quiet-trans, Quiet-called, Quiet-getevents, Quiet-store,
  Frame-Quiet,
}
use imonitor.Safety.Valid.{Own, Valid}
use imonitor.Safety.System.{System}
use imonitor.Safety.Next.{
  Step, Step-changed, Step-freed, Next, readable, read_ended, write_ended, transfer_ended,
}
use imonitor.Safety.Work.{InTransfer-Sound, resume-Quiet, finish-Frame}

-- A finished operation has changed no more than the send buffer of its connection, inside it.
pub record Filled (p : ℕ) (c : Connection) (s s' : Server) : Type 0 where
  pub buffer : Bytes
  pub size : length buffer ≡ length c.send_buffer
  pub quiet : Quiet p c.ctx s s'
  pub live : s'.heap p ≡ some (record c { send_buffer = buffer })

pub complete-Filled :
    (op : Option IoOp) (bytes : Bytes) (size p : ℕ) (s : Server) (c : Connection)
    → s.heap p ≡ some c
    → length c.send_buffer ≡ size
    → Own size p op
    → ((fd : ℤ) (buf count offset : ℕ)
        → op ≡ some (pread fd buf count offset)
        → length bytes ≤ count)
    → Ensures (λ _ s'. Filled p c s s') (complete op bytes s)
unfolding complete
complete-Filled (some (pread fd buf count offset)) bytes size p s c h e own fits =
    let short = fits fd buf count offset refl in
    let a : Bytes = bytes ++ drop (length bytes) c.send_buffer in
    rw
      (
        own.0,
        load-some p s h,
        defined-some _ _ (memcpy_lem c.send_buffer bytes (omega (arith, own.1))),
      )
      record {
        buffer = a;
        size = omega (
          arith,
          own.1,
          length-append bytes (drop (length bytes) c.send_buffer),
          length-drop (length bytes) c.send_buffer,
        );
        quiet = Quiet-store s p c.ctx (some (record c { send_buffer = a }));
        live = ground arith;
      }
complete-Filled (some (pwrite fd text count offset)) bytes size p s c h e own fits = record {
  buffer = c.send_buffer;
  size = refl;
  quiet = Quiet-refl p c.ctx s;
  live = h;
}
complete-Filled none bytes size p s c h e own fits = record {
  buffer = c.send_buffer;
  size = refl;
  quiet = Quiet-refl p c.ctx s;
  live = h;
}

module _ (env : Env) (sys : System env) (s : Server) (v : Valid env s) (p : ℕ) (c : Connection)
    (h : s.heap p ≡ some c) where
  -- The invariant behind the switch, where `s1` has the filled buffer.
  module _ (s1 : Server) (d : Filled p c s s1) where
    abbrev filled : Connection
    filled = record c { send_buffer = d.buffer }

    resumed-Step :
        {state : ConnectionState} (c1 : Connection) (next : ConnectionState)
        → Next state readable (some next)
        → ((next ≡ state_reading) ⊎ (next ≡ state_sending))
        → c1.ctx ≡ c.ctx
        → c1.recv_buffer ≡ c.recv_buffer
        → c1.send_buffer ≡ d.buffer
        → Ensures (λ _. Step env p readable state s) (resume env p c1 next s1)
    resumed-Step c1 next step transfer ctx recv send =
        let old = v.sound p c h in
        Ensures-mono (resume env p c1 next s1) _ _
          (resume-Quiet env p s1 filled d.live c.ctx c1 next)
          λ _ s2 (quiet, live).
            let both = Quiet-trans d.quiet quiet in
            Step-changed v h (Frame-Quiet both) (rw both.same_path v.path_size) live ctx
              (InTransfer-Sound old transfer ctx recv (rw send (d.size ∙ old.send_size))
                (rw (both.ops c.ctx) old.own) (both.contexts c.ctx))
              step

    finished-Step :
        (s2 : Server)
        → Quiet p c.ctx s1 s2
        → s2.heap p ≡ some filled
        → Ensures (λ _. Step env p readable state_sending s) (finish env p filled s2)
    finished-Step s2 quiet live =
        Ensures-mono (finish env p filled s2) _ _ (finish-Frame env p s2 filled live filled)
          λ _ s3 (frame, (gone, same)).
            let both = Quiet-trans d.quiet quiet in
            Step-freed v h (Frame-trans (Frame-Quiet both) frame)
              (rw (same ∙ both.same_path) v.path_size) gone transfer_ended

    work_done-Step :
        (state : ConnectionState) (res : ℕ)
        → Ensures (λ _. Step env p readable state s) (work_done env state p res s1)
    unfolding work_done
    work_done-Step state_reading res = rw (load-some p s1 d.live) (
        resumed-Step (record filled { send_len = add_size c.send_len res; read_data = res })
          state_sending read_ended (inr refl) refl refl refl)
    work_done-Step state_sending res =
        let line =
          dprintf_text "handle_work_done" "imonitor.c" 442
            (message "Logfile sent succesfully.\n") in
        let s2 : Server = called env (fprintf_stderr line) s1 in
        rw (load-some p s1 d.live) (elim (Bool-cases (c.send_len == c.file_dimension)) [
          | inl over ↦
              rw over
                (finished-Step s2 (Quiet-called env (fprintf_stderr line) s1 p c.ctx refl) d.live)
          | inr more ↦
              rw more (resumed-Step filled state_reading write_ended (inl refl) refl refl refl)
        ])
    work_done-Step state_data_received res = tt
    work_done-Step state_connection_closed res = tt
    work_done-Step state_new_conn res = tt

  -- The event that an operation is finished, at a connection in any state, is a step of the protocol.
  pub handle_work_done-Step :
      Ensures (λ _. Step env p readable c.state s) (handle_work_done env p s)
  unfolding handle_work_done
  handle_work_done-Step =
      let old = v.sound p c h in
      let ev : EpollEvent = record { events = epollin; payload = p } in
      let remove = epoll_ctl s.epollfd ctl_del c.eventfd ev in
      let s1 : Server = called env remove s in
      let s2 : Server = called env (close c.eventfd) s1 in
      let s3 : Server = called env malloc_event s2 in
      let s4 : Server = called env (io_getevents c.ctx) s3 in
      let bytes = (env.reply s3.trace (io_getevents c.ctx)).bytes in
      let quiet3 : Quiet p c.ctx s s3 = Quiet-trans (Quiet-called env remove s p c.ctx refl) (
        Quiet-trans (Quiet-called env (close c.eventfd) s1 p c.ctx refl)
          (Quiet-called env malloc_event s2 p c.ctx refl)) in
      let quiet : Quiet p c.ctx s s4 = Quiet-trans quiet3 (Quiet-getevents env s3 p c.ctx) in
      rw (load-some p s h) (
        Ensures-die _ s1 _ _ λ _. Ensures-die _ s3 _ _ λ _. Ensures-die _ s4 _ _ λ _.
          Ensures-bind (complete (submitted c.ctx s3.trace) bytes s4) _ _ _
            (complete-Filled (submitted c.ctx s3.trace) bytes env.bufsiz p s4 c h old.send_size
              (rw (quiet3.ops c.ctx) old.own)
              λ fd buf count offset e. sys.read_fits s3.trace c.ctx fd buf count offset e)
            λ _ s5 d.
              let filled_since : Filled p c s s5 = record {
                buffer = d.buffer;
                size = d.size;
                quiet = Quiet-trans quiet d.quiet;
                live = d.live;
              } in
              work_done-Step s5 filled_since c.state _)
