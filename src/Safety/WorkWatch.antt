-- ===== src/Safety/WorkWatch.antt =====
-- `handle_work` keeps the registrations of epoll in order.
use imonitor.Base.{
  ℕ, ◌≡◌, refl, sym, ap, ◌∙◌, true, some, ℤ, arith, inl, inr, ◌≤◌, ◌==◌, if◌then◌else◌, length,
  Bool-cases,
}
use imonitor.Sys.{
  Env, Server, Connection, ConnectionState, EpollEvent, state_reading, state_sending,
  state_new_conn, state_connection_closed, state_data_received, Ensures, Ensures-both,
  Ensures-Yields, Ensures-mono, load-some, eventfd,
}
use imonitor.WEpoll.Interest.{interest}
use imonitor.Handlers.{work, handle_work, start_header}
use mathlib.Core.Option.{some-injective}
use imonitor.Safety.Frame.{Frame-Quiet}
use imonitor.Safety.Contained.{contained}
use imonitor.Safety.Header.{start_header-Headed}
use imonitor.Safety.Valid.{Valid}
use imonitor.Safety.System.{System}
use imonitor.Safety.Work.{InTransfer, Busy, header_left, reading-Busy, sending-Busy}
use imonitor.Safety.Effects.{
  Unwatching, busy, busy-cases, reading-busy, sending-busy, start_header-interest,
}
use imonitor.Safety.Registered.{
  allocated, Sized, Counted, Plain, Watch, Registered, Registered-step, Rewatched-live, OnlySocket,
  out-OnlySocket, socket-Registered, Kept, Frame-Kept,
}

module _ (env : Env) (p : ℕ) (s : Server) (c : Connection) (h : s.heap p ≡ some c)
    (r : Registered s) (only : OnlySocket p c s) where
  -- An operation has been submitted.
  busy-Registered :
      (s' : Server)
      → InTransfer c
      → Busy env p c s s'
      → ((fd : ℤ) → interest s.epollfd s'.trace fd ≡ busy env p s c fd)
      → ((q : ℕ) → allocated q s'.trace ≡ allocated q s.trace)
      → contained s'.trace ≡ contained s.trace
      → Registered s'
  busy-Registered s' transfer b watch alloc cont =
      let c' : Connection = record c {
        eventfd = (env.reply s.trace eventfd).rc;
        is_header = header_left c.state c.is_header;
      } in
      let back : (fd : ℤ) (ev : EpollEvent) → Watch s' fd ev → busy env p s c fd ≡ some ev =
        λ fd ev w.
          sym (watch fd) ∙ ap (λ e. interest e s'.trace fd) (sym b.frame.kept_epollfd) ∙ w in
      Registered-step r (
        Rewatched-live r h (Frame-Kept b.frame) b.live alloc
          (λ fd ev w e. elim (busy-cases env p s c fd ev (back fd ev w)) [
            | inl (_, (out, inl sock)) ↦ inl sock
            | inl (_, (out, inr event)) ↦ inr (event, (out, transfer))
            | inr (old, other) ↦ absurd (other (only fd ev old e))
          ])
          (λ fd ev w other. elim (busy-cases env p s c fd ev (back fd ev w)) [
            | inl (own, _) ↦ absurd (other own)
            | inr (old, _) ↦ old
          ])
          (λ fd other ev ev2 w w2 e e2 out. elim (busy-cases env p s c fd ev (back fd ev w)) [
            | inl (_, (no_out, _)) ↦ absurd (ground arith)
            | inr (old, apart) ↦ absurd (apart (only fd ev old e))
          ])
          (
            (λ t. (r.sized p c h).0 transfer),
            λ fd ev w e out. elim (busy-cases env p s c fd ev (back fd ev w)) [
              | inl (_, (no_out, _)) ↦ absurd (ground arith)
              | inr (old, apart) ↦ absurd (apart (only fd ev old e))
            ],
          )
          (cont ∙ r.writes))

  -- Nothing has been registered, and the connection has the same socket.
  pub same-Registered :
      (s' : Server) (c' : Connection)
      → Kept p s s'
      → s'.heap p ≡ some c'
      → c'.sockfd ≡ c.sockfd
      → Unwatching s s'
      → Sized s' p c'
      → Registered s'
  same-Registered s' c' f live sock u sized =
      let back : (fd : ℤ) (ev : EpollEvent) → Watch s' fd ev → Watch s fd ev = λ fd ev w.
        sym (u.same_interest fd) ∙ ap (λ e. interest e s'.trace fd) (sym u.same_epollfd) ∙ w in
      socket-Registered r f h live sock (λ q. u.same_allocated q)
        (λ fd ev w e. only fd ev (back fd ev w) e) (λ fd ev w other. back fd ev w) sized
        (u.same_contained ∙ r.writes)

  -- What the connection is to send is in its buffer.
  count_fits :
      InTransfer c
      → (c.is_header ≡ 0 → c.read_data ≤ length c.send_buffer)
      → (if c.is_header == 0 then c.read_data else c.header_size) ≤ length c.send_buffer
  count_fits transfer read = elim (Bool-cases (c.is_header == 0)) [
    | inl e ↦ rw e (read (ground arith))
    | inr e ↦ rw e ((r.sized p c h).0 transfer)
  ]

  work-Registered :
      (sys : System env) (v : Valid env s) (counted : Counted c) (state : ConnectionState)
      → c.state ≡ state
      → Ensures (λ _ s'. Registered s') (work env state p s)
  unfolding work
  work-Registered sys v counted state_data_received e =
      let old = v.sound p c h in
      let (name, named) = old.named e in
      let large = sys.large in
      let size = old.send_size in
      Ensures-mono (start_header env p s) _ _
        (Ensures-Yields (start_header env p s) _ _
          (start_header-Headed env p c (omega arith) s h named) (start_header-interest env p s c h))
        λ _ s'
            ((quiet, (c2, (live2, (_, (_, (_, (_, (header, inside)))))))), (u, (c', (live, sock)))).
          let same : c' ≡ c2 = some-injective c' c2 (sym live ∙ live2) in
          same-Registered s' c' (Frame-Kept (Frame-Quiet quiet)) live sock u
            (rw same ((λ _. inside), λ fd ev w e out sending none. absurd (ground arith)))
  work-Registered sys v counted state_reading e =
      Ensures-mono (work env state_reading p s) _ _
        (Ensures-both (work env state_reading p s) _ _ (reading-Busy env p s c h e)
          (reading-busy env p s c h e))
        λ _ s' (b, (_, (watch, (alloc, cont)))). busy-Registered s' (inl e) b watch alloc cont
  work-Registered sys v counted state_sending e =
      Ensures-mono (work env state_sending p s) _ _
        (Ensures-both (work env state_sending p s) _ _
          (sending-Busy env p s c h e (v.sound p c h).send_size)
          (sending-busy env p s c h e (count_fits (inr e) (λ none. counted e none))))
        λ _ s' (b, (_, (watch, (alloc, cont)))). busy-Registered s' (inr e) b watch alloc cont
  work-Registered sys v counted state_new_conn e = tt
  work-Registered sys v counted state_connection_closed e = tt

-- An event for output keeps the registrations in order: behind it the connection's socket is
-- registered for input alone and the eventfd of its operation for the completion.
pub handle_work-Registered :
    (env : Env) (sys : System env) (s : Server) (v : Valid env s) (r : Registered s) (p : ℕ)
    (c : Connection)
    → s.heap p ≡ some c
    → Plain s p
    → (fd : ℤ) (ev : EpollEvent) → Watch s fd ev
    → ev.payload ≡ p
    → ev.events.epollout ≡ true
    → Ensures (λ _ s'. Registered s') (handle_work env p s)
unfolding handle_work
handle_work-Registered env sys s v r p c h plain fd ev w at out = rw (load-some p s h) (
    work-Registered env p s c h r (out-OnlySocket r h plain fd ev w at out) sys v
      ((r.sized p c h).1 fd ev w at out) c.state refl)
