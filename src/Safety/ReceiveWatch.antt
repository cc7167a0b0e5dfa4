-- ===== src/Safety/ReceiveWatch.antt =====
-- `handle_client_request` keeps the registrations of epoll in order.
use imonitor.Base.{
  ℕ, suc, arith, ◌≡◌, refl, sym, ap, ◌∙◌, ◌⊎◌, inl, inr, some, Bytes, ℤ, is_neg, replicate,
  Bool-cases, Option-cases,
}
use imonitor.Sys.{
  get, ◌>>=◌, Env, Server, Connection, ConnectionState, state_connection_closed,
  state_data_received, EpollEvent, Yields, Yields-bind, Yields-mono, Yields-defined, die, load,
  load-some, update, called, fprintf_stderr, getpeername, epoll_ctl, ctl_mod,
}
use imonitor.WEpoll.{epollinout, w_epoll_update_ptr_inout}
use imonitor.WEpoll.Interest.{interest}
use imonitor.Debug.{dprintf_text}
use imonitor.Request.{
  Received, received, peer_closed, recv_failed, peer_line, receive_loop, parse_request, abandon,
  after_receive, receive_message,
}
use imonitor.SockUtil.{get_peer_address}
use imonitor.Handlers.{handle_client_request}
use imonitor.Safety.ReceiveEffects.{
  Handled, Handled-trans, called-Handled, receive_loop-Handled, abandon-interest,
}
use imonitor.Safety.Work.{InTransfer}
use imonitor.Safety.Contained.{contained}
use imonitor.Safety.Registered.{
  allocated, Sized, Watch, Registered, OnlySocket, Kept, socket-Registered, gone-Registered,
}
use imonitor.Safety.ParseEffects.{die-ok, modified-cases, parse_request-Handled, line-Handled}

module _ (env : Env) (p : ℕ) where
  -- What a request leaves: the registrations in order if it is over, and else nothing registered.
  abbrev Left : Connection → Server → ConnectionState → Server → Type 0
  Left c s state s' =
      ((state ≡ state_connection_closed) × Registered s')
      ⊎ ((state ≡ state_data_received) × Handled p c s s')

  module _ (s : Server) (r : Registered s) (c : Connection) (h : s.heap p ≡ some c)
      (only : OnlySocket p c s) (idle : InTransfer c → ⊥) where
    -- What is no transfer sends nothing.
    Handled-Sized : {s1 : Server} (f : Handled p c s s1) (s2 : Server) → Sized s2 p f.connection
    Handled-Sized f s2 =
        (λ t. absurd (f.idle idle t), λ fd ev w e out sending. absurd (f.idle idle (inr sending)))

    back :
        {s1 : Server} (f : Handled p c s s1) (fd : ℤ) (ev : EpollEvent)
        → interest s1.epollfd s1.trace fd ≡ some ev
        → Watch s fd ev
    back {s1} f fd ev w =
        sym (f.watching.same_interest fd)
        ∙ ap (λ e. interest e s1.trace fd) (sym f.watching.same_epollfd)
        ∙ w

    Handled-Kept : {s1 : Server} → Handled p c s s1 → Kept p s s1
    Handled-Kept f = record {
      kept_listenfd = f.kept_listenfd;
      kept_inotifyfd = f.kept_inotifyfd;
      others = f.others;
    }

    Handled-Registered : {s1 : Server} → Handled p c s s1 → Registered s1
    Handled-Registered {s1} f =
        socket-Registered r (Handled-Kept f) h f.live f.same_socket
          (λ q. f.watching.same_allocated q) (λ fd ev w e. only fd ev (back f fd ev w) e)
          (λ fd ev w other. back f fd ev w) (Handled-Sized f s1)
          (f.watching.same_contained ∙ r.writes)

    abandon-Left :
        (s1 : Server) → Handled p c s s1 → Yields (λ state s'. Left c s state s') (abandon env p s1)
    abandon-Left s1 f =
        Yields-mono (abandon env p s1) _ _ (abandon-interest env p s1 f.connection f.live)
          λ state s2 (closed, (listen, (inotify, (others, (gone, (ep, (watch, (alloc, cont)))))))).
            inl (
              closed,
              gone-Registered r
                  record {
                    kept_listenfd = listen ∙ f.kept_listenfd;
                    kept_inotifyfd = inotify ∙ f.kept_inotifyfd;
                    others = λ q e. others q e ∙ f.others q e;
                  }
                  h gone (λ q e. alloc q e ∙ f.watching.same_allocated q)
                  (λ fd ev w.
                    let (old, apart) =
                      watch fd ev (ap (λ e. interest e s2.trace fd) (sym ep) ∙ w) in
                    let first = back f fd ev old in
                    (first, λ e. apart (only fd ev first e ∙ sym f.same_socket)))
                  (cont ∙ f.watching.same_contained ∙ r.writes),
            )

    after_receive-Left :
        (s1 : Server) (abuffer : Bytes) (end : Received)
        → Handled p c s s1
        → Yields (λ state s'. Left c s state s') (after_receive env p abuffer end s1)
    unfolding after_receive
    after_receive-Left s1 abuffer (received n) f =
        elim (Option-cases (peer_line "Received message from: " abuffer)) [
          | inl no_line ↦ rw no_line tt
          | inr (line, e) ↦
              let out = dprintf_text "receive_message" "imonitor.c" 187 line in
              let s2 : Server = called env (fprintf_stderr out) s1 in
              let g = line-Handled env p out s1 f.connection f.live in
              rw e (
                Yields-mono (parse_request env p n s2) _ _
                  (parse_request-Handled env p n s2 g.connection g.live)
                  λ state s3 (found, k). inr (found, Handled-trans f (Handled-trans g k)))
        ]
    after_receive-Left s1 abuffer peer_closed f =
        elim (Option-cases (peer_line "Connection closed from: " abuffer)) [
          | inl no_line ↦ rw no_line tt
          | inr (line, e) ↦
              let out = dprintf_text "receive_message" "imonitor.c" 179 line in
              let s2 : Server = called env (fprintf_stderr out) s1 in
              let d : Connection = record f.connection { state = state_connection_closed } in
              let g : Handled p f.connection s1 (record s2 { heap = update s2.heap p (some d) }) =
                (called-Handled env p (fprintf_stderr out) s1 f.connection d refl f.live refl
                  λ _ t. absurd (ground arith)).1 in
              rw (e, load-some p s2 f.live) (inl (refl, Handled-Registered (Handled-trans f g)))
        ]
    after_receive-Left s1 abuffer recv_failed f =
        elim (Option-cases (peer_line "Error in communication from: " abuffer)) [
          | inl no_line ↦ rw no_line tt
          | inr (line, e) ↦
              let out = dprintf_text "receive_message" "imonitor.c" 174 line in
              rw e (
                abandon-Left (called env (fprintf_stderr out) s1)
                  (Handled-trans f (line-Handled env p out s1 f.connection f.live)))
        ]

    get_peer_address-Handled :
        (buf : Bytes) → Yields (λ _ s'. Handled p c s s') (get_peer_address env c.sockfd buf s)
    unfolding get_peer_address
    get_peer_address-Handled buf =
        let f = (called-Handled env p (getpeername c.sockfd) s c c refl h refl λ i. i).0 in
        elim (Bool-cases (is_neg (env.reply s.trace (getpeername c.sockfd)).rc)) [
          | inl failed ↦ rw failed f
          | inr fine ↦ rw fine (Yields-defined _ _ _ _ λ a _. f)
        ]

    receive_message-Left : Yields (λ state s'. Left c s state s') (receive_message env p s)
    unfolding receive_message
    receive_message-Left = rw (load-some p s h) (
        Yields-bind (get_peer_address env c.sockfd (replicate 64 0) s) _ _ _
          (get_peer_address-Handled (replicate 64 0))
          λ (rc, abuffer) s1 f. elim (Bool-cases (is_neg rc)) [
            | inl failed ↦ rw failed (abandon-Left s1 f)
            | inr fine ↦ rw fine (
                Yields-bind (receive_loop env (suc env.bufsiz) p 0 s1) _ _ _
                  (receive_loop-Handled env p (suc env.bufsiz) 0 s1 f.connection f.live)
                  λ end s2 g. after_receive-Left s2 abuffer end (Handled-trans f g))
          ])

    -- The socket is registered for both kinds of events.
    watched-Registered :
        (s1 : Server) (f : Handled p c s s1)
        → Yields
            (λ _. Registered)
            ((do
              d ← load p
              s2 ← get
              rc ← w_epoll_update_ptr_inout env s2.epollfd d.sockfd p
              die (is_neg rc))
              s1)
    unfolding w_epoll_update_ptr_inout allocated contained
    watched-Registered s1 f =
        let sock = f.connection.sockfd in
        let ev : EpollEvent = record { events = epollinout; payload = p } in
        let call = epoll_ctl s1.epollfd ctl_mod sock ev in
        let s2 : Server = called env call s1 in
        rw (load-some p s1 f.live) (
          Yields-mono (die (is_neg (env.reply s1.trace call).rc) s2) _ _ (die-ok _ s2)
            λ _ s3 (e, ok). rw e (
              socket-Registered r
                record {
                  kept_listenfd = f.kept_listenfd;
                  kept_inotifyfd = f.kept_inotifyfd;
                  others = f.others;
                }
                h f.live f.same_socket (λ q. f.watching.same_allocated q)
                (λ fd x w own. elim (modified-cases env s1 sock fd ev x ok w) [
                  | inl (_, at) ↦ at ∙ f.same_socket
                  | inr old ↦ only fd x (back f fd x old) own
                ])
                (λ fd x w other. elim (modified-cases env s1 sock fd ev x ok w) [
                  | inl (own, _) ↦ absurd (other own)
                  | inr old ↦ back f fd x old
                ])
                (Handled-Sized f s2) (f.watching.same_contained ∙ r.writes)))

    -- Behind a request the socket is registered for both kinds of events, or nothing of the connection
    -- is registered that was not.
    pub handle_client_request-Registered :
        Yields (λ _ s'. Registered s') (handle_client_request env p s)
    unfolding handle_client_request
    handle_client_request-Registered =
        Yields-bind (receive_message env p s) _ _ _ receive_message-Left λ state s1 how. elim how [
          | inl (closed, done) ↦ rw closed done
          | inr (found, f) ↦ rw found (watched-Registered s1 f)
        ]
