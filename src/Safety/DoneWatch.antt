-- ===== src/Safety/DoneWatch.antt =====
-- `handle_work_done` keeps the registrations of epoll in order.
use imonitor.Base.{
  length, ℕ, ◌≤◌, ◌≡◌, ◌≢◌, refl, sym, ap, ◌∙◌, false, Option, none, some, Bytes, ℤ, arith, is_neg,
  ◌⊎◌, inl, inr, ==ℤ_iff, ◌==◌, Bool-cases, add_size,
}
use imonitor.Sys.{
  Env, Server, Connection, ConnectionState, IoOp, pread, pwrite, EpollEvent, state_reading,
  state_sending, state_new_conn, state_connection_closed, state_data_received, Ensures,
  Ensures-both, Ensures-Yields, Ensures-mono, Ensures-bind, Ensures-die, Yields, load, load-some,
  called, defined, epoll_ctl, ctl_del, close, malloc_event, io_getevents, fprintf_stderr,
}
use imonitor.WEpoll.{epollin, epollout}
use imonitor.WEpoll.Interest.{interest}
use imonitor.Aio.{submitted, complete}
use imonitor.Debug.{dprintf_text, message}
use imonitor.Handlers.{work_done, resume, finish, handle_work_done}
use imonitor.Safety.Frame.{
  Frame, Quiet, Quiet-called, Quiet-getevents, Quiet-trans, Frame-Quiet, Frame-trans,
}
use imonitor.Safety.Contained.{Inside, contained-Inside, contained}
use imonitor.Safety.Valid.{Valid, Own}
use imonitor.Safety.System.{System, asked}
use imonitor.Safety.Work.{resume-Quiet, finish-Frame}
use imonitor.Safety.Done.{Filled, complete-Filled}
use imonitor.Safety.Effects.{set-cases, resume-interest, finish-interest}
use imonitor.Safety.Registered.{
  allocated, HeaderFits, Counted, Plain, Watch, Registered, owner, socket-Registered,
  gone-Registered, Frame-Kept,
}

complete-trace :
    (op : Option IoOp) (bytes : Bytes) (s : Server)
    → Yields (λ _ s'. s'.trace ≡ s.trace) (complete op bytes s)
unfolding complete load defined
complete-trace (some (pread fd buf count offset)) bytes s = grind arith
complete-trace (some (pwrite fd text count offset)) bytes s = refl
complete-trace none bytes s = refl

-- From `s` to `s1` the eventfd has been taken out of the interest list.
record Cleared (p : ℕ) (c : Connection) (s s1 : Server) : Type 0 where
  quiet : Quiet p c.ctx s s1
  cleared :
      (fd : ℤ) (ev : EpollEvent)
      → interest s.epollfd s1.trace fd ≡ some ev
      → Watch s fd ev × (fd ≢ c.eventfd)
  alloc : (q : ℕ) → allocated q s1.trace ≡ allocated q s.trace
  cont : contained s1.trace ≡ contained s.trace

removed_event :
    (env : Env) (p : ℕ) (s : Server) (c : Connection)
    → let ev : EpollEvent = record { events = epollin; payload = p } in
      let s1 : Server = called env (epoll_ctl s.epollfd ctl_del c.eventfd ev) s in
      is_neg (env.reply s.trace (epoll_ctl s.epollfd ctl_del c.eventfd ev)).rc ≡ false
      → (fd : ℤ) (e : EpollEvent)
      → interest s.epollfd (called env (close c.eventfd) s1).trace fd ≡ some e
      → Watch s fd e × (fd ≢ c.eventfd)
removed_event env p s c ok fd e w = grind (arith, ==ℤ_iff)

module _ (env : Env) (p : ℕ) (s : Server) (r : Registered s) (c : Connection)
    (h : s.heap p ≡ some c) (plain : Plain s p) where
  -- What is left of the connection's registrations.
  left :
      {s1 : Server} (k : Cleared p c s s1) (fd : ℤ) (ev : EpollEvent)
      → interest s.epollfd s1.trace fd ≡ some ev
      → ev.payload ≡ p
      → fd ≡ c.sockfd
  left k fd ev w e =
      let (old, other) = k.cleared fd ev w in
      elim (owner r h plain fd ev old e) [ inl sock ↦ sock | inr (event, _) ↦ absurd (other event) ]

  resume-Registered :
      (s1 : Server) (d : Connection)
      → Cleared p c s s1
      → s1.heap p ≡ some d
      → (c1 : Connection) (next : ConnectionState) → c1.sockfd ≡ c.sockfd
      → HeaderFits (record c1 { state = next })
      → Counted (record c1 { state = next })
      → Ensures (λ _ s'. Registered s') (resume env p c1 next s1)
  resume-Registered s1 d k live c1 next sock header counted =
      Ensures-mono (resume env p c1 next s1) _ _
        (Ensures-both (resume env p c1 next s1) _ _ (resume-Quiet env p s1 d live c.ctx c1 next)
          (resume-interest env p s1 d live c1 next))
        λ _ s' ((quiet, live'), (ep, (watch, (alloc, cont)))).
          let both = Quiet-trans k.quiet quiet in
          let to_old : (fd : ℤ) (ev : EpollEvent)
              → Watch s' fd ev
              → (ev.payload ≡ p × fd ≡ c.sockfd) ⊎ (interest s.epollfd s1.trace fd ≡ some ev) =
            λ fd ev w.
              let w1 : interest s1.epollfd s'.trace fd ≡ some ev =
                ap (λ e. interest e s'.trace fd) (sym ep) ∙ w in
              elim (set-cases p c1.sockfd fd epollout ev (sym (watch fd) ∙ w1)) [
                | inl (own, at) ↦ inl (own, at ∙ sock)
                | inr old ↦ inr (rw k.quiet.kept_epollfd at old)
              ] in
          socket-Registered r (Frame-Kept (Frame-Quiet both)) h live' sock
            (λ q. alloc q ∙ k.alloc q)
            (λ fd ev w e. elim (to_old fd ev w) [ inl (_, at) ↦ at | inr old ↦ left k fd ev old e ])
            (λ fd ev w other. elim (to_old fd ev w) [
              | inl (own, _) ↦ absurd (other own)
              | inr old ↦ (k.cleared fd ev old).0
            ])
            (header, λ fd ev w e out. counted) (cont ∙ k.cont ∙ r.writes)

  finish-Registered :
      (s1 : Server) (d : Connection)
      → Cleared p c s s1
      → s1.heap p ≡ some d
      → d.sockfd ≡ c.sockfd
      → d.ctx ≡ c.ctx
      → Ensures (λ _ s'. Registered s') (finish env p d s1)
  finish-Registered s1 d k live sock ctx =
      Ensures-mono (finish env p d s1) _ _
        (Ensures-both (finish env p d s1) _ _ (finish-Frame env p s1 d live d)
          (finish-interest env p s1 d live d))
        λ _ s' ((frame, (gone, _)), (ep, (watch, (alloc, cont)))).
          let frame' : Frame p c.ctx s1 s' = rw ctx at frame in
          gone-Registered r (Frame-Kept (Frame-trans (Frame-Quiet k.quiet) frame')) h gone
            (λ q other. alloc q other ∙ k.alloc q)
            (λ fd ev w.
              let (old, apart) = watch fd ev (ap (λ e. interest e s'.trace fd) (sym ep) ∙ w) in
              let old1 : interest s.epollfd s1.trace fd ≡ some ev =
                rw k.quiet.kept_epollfd at old in
              ((k.cleared fd ev old1).0, λ e. apart (left k fd ev old1 e ∙ sym sock)))
            (cont ∙ k.cont ∙ r.writes)

-- An operation of the connection asks for no more than its buffer holds.
asked_small :
    {size n : ℕ} (p : ℕ) (op : Option IoOp) → Own size p op → Inside op → n ≤ asked op → n ≤ size
asked_small p (some (pread fd buf count offset)) own inside h = omega (arith, own.1)
asked_small p (some (pwrite fd text count offset)) own inside h =
    let fits : count ≤ length text = ground arith in omega (arith, own)
asked_small p none own inside h = omega arith

-- What stands before the switch of `handle_work_done` clears the eventfd.
module _ (env : Env) (sys : System env) (s : Server) (v : Valid env s) (r : Registered s) (p : ℕ)
    (c : Connection) (h : s.heap p ≡ some c) (plain : Plain s p) where
  work_done-Registered :
      (s1 : Server) (d : Filled p c s s1)
      → Cleared p c s s1
      → (state : ConnectionState) (res : ℕ) → c.state ≡ state
      → res ≤ env.bufsiz
      → Ensures (λ _ s'. Registered s') (work_done env state p res s1)
  unfolding work_done allocated contained
  work_done-Registered s1 d k state_reading res e small =
      let c1 : Connection = record c { send_buffer = d.buffer } in
      rw (load-some p s1 d.live) (
        resume-Registered env p s r c h plain s1 c1 k d.live
          (record c1 { send_len = add_size c.send_len res; read_data = res }) state_sending refl
          (λ _. rw d.size ((r.sized p c h).0 (inl e)))
          (λ _ _. rw (d.size, (v.sound p c h).send_size) small))
  work_done-Registered s1 d k state_sending res e small =
      let c1 : Connection = record c { send_buffer = d.buffer } in
      let line =
        dprintf_text "handle_work_done" "imonitor.c" 442 (message "Logfile sent succesfully.\n") in
      let s2 : Server = called env (fprintf_stderr line) s1 in
      let k2 : Cleared p c s s2 = record {
        quiet = Quiet-trans k.quiet (Quiet-called env (fprintf_stderr line) s1 p c.ctx refl);
        cleared = k.cleared;
        alloc = k.alloc;
        cont = k.cont;
      } in
      rw (load-some p s1 d.live) (elim (Bool-cases (c.send_len == c.file_dimension)) [
        | inl over ↦ rw over (finish-Registered env p s r c h plain s2 c1 k2 d.live refl refl)
        | inr more ↦ rw more (
            resume-Registered env p s r c h plain s1 c1 k d.live c1 state_reading refl
              (λ _. rw d.size ((r.sized p c h).0 (inr e))) (λ sending. absurd (ground arith)))
      ])
  work_done-Registered s1 d k state_data_received res e small = tt
  work_done-Registered s1 d k state_connection_closed res e small = tt
  work_done-Registered s1 d k state_new_conn res e small = tt

  -- The completion of an operation keeps the registrations in order: the eventfd is out of the list,
  -- and if the connection is freed then so is every registration of it.
  pub handle_work_done-Registered : Ensures (λ _ s'. Registered s') (handle_work_done env p s)
  unfolding handle_work_done allocated contained
  handle_work_done-Registered =
      let old = v.sound p c h in
      let ev : EpollEvent = record { events = epollin; payload = p } in
      let remove = epoll_ctl s.epollfd ctl_del c.eventfd ev in
      let s1 : Server = called env remove s in
      let s2 : Server = called env (close c.eventfd) s1 in
      let s3 : Server = called env malloc_event s2 in
      let s4 : Server = called env (io_getevents c.ctx) s3 in
      let bytes = (env.reply s3.trace (io_getevents c.ctx)).bytes in
      let own : Own env.bufsiz p (submitted c.ctx s3.trace) = old.own in
      let small : (env.reply s3.trace (io_getevents c.ctx)).word ≤ env.bufsiz =
        asked_small p (submitted c.ctx s3.trace) own (contained-Inside c.ctx s3.trace r.writes)
          (sys.result_fits s3.trace c.ctx) in
      let quiet3 : Quiet p c.ctx s s3 = Quiet-trans (Quiet-called env remove s p c.ctx refl) (
        Quiet-trans (Quiet-called env (close c.eventfd) s1 p c.ctx refl)
          (Quiet-called env malloc_event s2 p c.ctx refl)) in
      let quiet : Quiet p c.ctx s s4 = Quiet-trans quiet3 (Quiet-getevents env s3 p c.ctx) in
      rw (load-some p s h) (
        Ensures-die _ s1 _ _ λ removed. Ensures-die _ s3 _ _ λ _. Ensures-die _ s4 _ _ λ _.
          Ensures-bind (complete (submitted c.ctx s3.trace) bytes s4) _ _ _
            (Ensures-Yields (complete (submitted c.ctx s3.trace) bytes s4) _ _
              (complete-Filled (submitted c.ctx s3.trace) bytes env.bufsiz p s4 c h old.send_size
                (rw (quiet3.ops c.ctx) old.own)
                λ fd buf count offset e. sys.read_fits s3.trace c.ctx fd buf count offset e)
              (complete-trace (submitted c.ctx s3.trace) bytes s4))
            λ _ s5 (d, same).
              let filled_since : Filled p c s s5 = record {
                buffer = d.buffer;
                size = d.size;
                quiet = Quiet-trans quiet d.quiet;
                live = d.live;
              } in
              let k : Cleared p c s s5 = record {
                quiet = Quiet-trans quiet d.quiet;
                cleared = λ fd e w.
                    removed_event env p s c removed fd e
                      (ap (λ t. interest s.epollfd t fd) (sym same) ∙ w);
                alloc = λ q. ap (allocated q) same;
                cont = ap contained same;
              } in
              work_done-Registered s5 filled_since k c.state _ refl small)
