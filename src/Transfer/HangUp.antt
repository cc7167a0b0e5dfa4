-- ===== src/Transfer/HangUp.antt =====
-- A client that connects and closes before its request is there.
use imonitor.Base.{
  ℕ, zero, suc, ◌-◌, ◌≡◌, refl, ap, ◌∙◌, none, some, [], ◌∷◌, ◌++◌, Bytes, ℤ, pos, arith, codes,
  drop, length, length-replicate, replicate,
}
use imonitor.Sys.{
  Env, Server, Connection, Trace, EpollEvent, Reply, recv, accept, getpeername, malloc_connection,
  close, malloc_event, io_getevents, epoll_ctl, ctl_del, Returns, Returns-bind, Returns-mono,
  Ensures-die, load-some, defined-some, called, c_string, ConnectionState, sprintf_lem,
  state_new_conn, state_connection_closed, exit, fprintf_stderr,
}
use imonitor.Aio.{submitted, complete}
use imonitor.Debug.{dprintf_text}
use imonitor.SockUtil.{peer_text, get_peer_address}
use imonitor.Utils.Text.{c_string-nul}
use imonitor.WEpoll.{epollin}
use imonitor.WEpoll.Interest.{interest}
use imonitor.Request.{
  peer_closed, receive_loop, receive_once, after_receive, receive_message, peer_line,
}
use imonitor.Request.Failure.{PeerKnown}
use imonitor.Handlers.{
  epollin as epollin_of, handle_epollin, handle_client_request, handle_new_connection,
  handle_work_done, work_done,
}
use imonitor.Main.{dispatch}
use imonitor.Transfer.Defs.{Kept}
use imonitor.Transfer.Rounds.{in_event, Ordinary, Ordinary-Kept}
use imonitor.Transfer.Fresh.{Accepts, handle_new_connection-Opened}
use imonitor.Transfer.Visit.{Connecting}
use imonitor.Safety.DeadEnds.{Ensures-exit}

-- The connection is closed in its state alone: it is there, its socket is registered, and nothing is
-- submitted.
record Left (p : ℕ) (c : Connection) (s s' : Server) : Type 0 where
  live : s'.heap p ≡ some (record c { state = state_connection_closed })
  same_interest : (ep fd : ℤ) → interest ep s'.trace fd ≡ interest ep s.trace fd
  same_op : submitted c.ctx s'.trace ≡ submitted c.ctx s.trace
  kept : Kept s s'

-- A call that changes neither memory nor what is registered or submitted.
record Unchanged (s s' : Server) : Type 0 where
  same_heap : s'.heap ≡ s.heap
  same_interest : (ep fd : ℤ) → interest ep s'.trace fd ≡ interest ep s.trace fd
  same_op : (k : ℕ) → submitted k s'.trace ≡ submitted k s.trace
  kept : Kept s s'

module _ (env : Env) (p : ℕ) (c : Connection) (s : Server) (h : s.heap p ≡ some c) where
  -- The loop ends at once.
  receive_loop-Unchanged :
      ((t : Trace) (room : ℕ) → (env.reply t (recv c.sockfd room)).rc ≡ pos 0)
      → Returns
          (λ end s'. (end ≡ peer_closed) × Unchanged s s')
          (receive_loop env (suc env.bufsiz) p 0 s)
  unfolding receive_loop receive_once submitted
  receive_loop-Unchanged over =
      rw (load-some p s h, over s.trace (env.bufsiz - 0))
        (
          refl,
          record {
            same_heap = refl;
            same_interest = λ ep fd. refl;
            same_op = λ k. refl;
            kept = (refl, refl, refl);
          },
        )

  -- The state of the connection is the only thing that changes.
  after_receive-Left :
      (abuffer : Bytes) {text : Bytes}
      → c_string abuffer ≡ some text
      → Returns
          (λ state s'. (state ≡ state_connection_closed) × Left p c s s')
          (after_receive env p abuffer peer_closed s)
  unfolding after_receive peer_line submitted
  after_receive-Left abuffer {text} printed =
      let line =
        dprintf_text "receive_message" "imonitor.c" 179
          (codes "Connection closed from: " ++ text ++ 10 ∷ []) in
      rw (printed, load-some p (called env (fprintf_stderr line) s) h)
        (
          refl,
          record {
            live = ground arith;
            same_interest = λ ep fd. refl;
            same_op = refl;
            kept = (refl, refl, refl);
          },
        )

module _ (env : Env) (p : ℕ) (c : Connection) (s : Server) (o : Ordinary p s)
    (h : s.heap p ≡ some c) where
  receive_message-Left :
      PeerKnown env c.sockfd
      → ((t : Trace) (room : ℕ) → (env.reply t (recv c.sockfd room)).rc ≡ pos 0)
      → Returns
          (λ state s'. (state ≡ state_connection_closed) × Left p c s s')
          (receive_message env p s)
  unfolding receive_message get_peer_address submitted
  receive_message-Left peer over =
      let s1 = called env (getpeername c.sockfd) s in
      let text = peer_text (env.reply s.trace (getpeername c.sockfd)) in
      let buffer : Bytes = replicate 64 0 in
      let (name, (printed, short)) = c_string-nul text (drop (suc (length text)) buffer) in
      rw
        (
          load-some p s h,
          (peer s.trace).0,
          defined-some _ _ (
              sprintf_lem buffer text
                (omega (arith, (peer s.trace).1, length-replicate 64 (zero)))),
        )
        (Returns-bind (receive_loop env (suc env.bufsiz) p 0 s1) _ _ _
          (receive_loop-Unchanged env p c s1 h over)
          λ end s2 (e, u). rw e (
            Returns-mono (after_receive env p _ peer_closed s2) _ _
              (after_receive-Left env p c s2 (ap (λ x. x p) u.same_heap ∙ h) _ printed)
              λ state s3 (closed, l). (
                closed,
                record {
                  live = l.live;
                  same_interest = λ ep fd. l.same_interest ep fd ∙ u.same_interest ep fd;
                  same_op = l.same_op ∙ u.same_op c.ctx;
                  kept = (l.kept.0 ∙ u.kept.0, l.kept.1 ∙ u.kept.1, l.kept.2 ∙ u.kept.2);
                },
              )))

  epollin-Left :
      (state : ConnectionState)
      → state ≡ state_new_conn
      → PeerKnown env c.sockfd
      → ((t : Trace) (room : ℕ) → (env.reply t (recv c.sockfd room)).rc ≡ pos 0)
      → Returns (λ _. Left p c s) (epollin_of env state p s)
  unfolding epollin_of handle_client_request
  epollin-Left state new peer over = rw new (
      Returns-bind (receive_message env p s) _ _ _ (receive_message-Left peer over)
        λ state s1 (closed, l). rw closed l)

  -- The event that the peer has closed.
  dispatch-Left :
      c.state ≡ state_new_conn
      → PeerKnown env c.sockfd
      → ((t : Trace) (room : ℕ) → (env.reply t (recv c.sockfd room)).rc ≡ pos 0)
      → Returns (λ _. Left p c s) (dispatch env (in_event p) s)
  unfolding dispatch handle_epollin
  dispatch-Left new peer over =
      rw (o.not_listener, o.not_inotify, load-some p s h) (epollin-Left c.state new peer over)

  -- The next event of a closed connection.
  closed-exit :
      c.state ≡ state_connection_closed
      → submitted c.ctx s.trace ≡ none
      → (s' : Server) × (dispatch env (in_event p) s ≡ exit s')
  unfolding dispatch handle_epollin epollin_of handle_work_done complete work_done submitted
  closed-exit state idle =
      let ev : EpollEvent = record { events = epollin; payload = p } in
      let remove = epoll_ctl s.epollfd ctl_del c.eventfd ev in
      let s1 : Server = called env remove s in
      let s2 : Server = called env (close c.eventfd) s1 in
      let s3 : Server = called env malloc_event s2 in
      let s4 : Server = called env (io_getevents c.ctx) s3 in
      Ensures-exit (dispatch env (in_event p) s) (
        rw (o.not_listener, o.not_inotify, load-some p s h, state, load-some p s h)
          (Ensures-die _ s1 _ _
            λ _. Ensures-die _ s3 _ _ λ _. Ensures-die _ s4 _ _ λ _. rw (idle, state) tt))

-- Where no call fails that takes a new connection, its client's address is known, `malloc` gives no
-- address that is taken for one of the two descriptors that the loop compares with, and the client
-- closes before it has sent anything: the event that it has closed leaves the connection allocated
-- and its socket registered for input, and the next event of that socket ends the whole server.
pub visit-closed :
    (env : Env) (s : Server) (rev : Reply)
    → Connecting s rev
    → Accepts env s.listenfd
    → PeerKnown env (env.reply s.trace (accept s.listenfd)).rc
    → ((t : Trace) (room : ℕ)
        → (env.reply t (recv (env.reply s.trace (accept s.listenfd)).rc room)).rc ≡ pos 0)
    → ((t : Trace) → Ordinary (env.reply t malloc_connection).word s)
    → Returns
        (λ _ s1.
          (p : ℕ) × Returns
            (λ _ s2.
              ((c : Connection) × (s2.heap p ≡ some c))
              × ((interest s.epollfd s2.trace (env.reply s.trace (accept s.listenfd)).rc
                    ≡ some (record { events = epollin; payload = p }))
                  × ((s' : Server) × (dispatch env (in_event p) s2 ≡ exit s'))))
            (dispatch env (in_event p) s1))
        (dispatch env rev s)
unfolding dispatch
visit-closed env s rev connecting accepts peer over ordinary =
    rw (connecting.listener, connecting.input)
      (Returns-mono (handle_new_connection env s) _ _ (handle_new_connection-Opened env s accepts)
        λ _ s1 o.
          let sock = o.fresh.socket_kept in
          let o1 : Ordinary o.p s1 =
            Ordinary-Kept {s = s} (rw o.from_malloc.1 (ordinary o.from_malloc.0)) o.kept in
          (
            o.p,
            Returns-mono (dispatch env (in_event o.p) s1) _ _
                (dispatch-Left env o.p o.c s1 o1 o.live o.fresh.state_new (rw sock peer)
                  (rw sock over))
                λ _ s2 left.
                  let closed : Connection = record o.c { state = state_connection_closed } in
                  (
                    (closed, left.live),
                    (
                      left.same_interest s.epollfd _ ∙ o.watched,
                      closed-exit env o.p closed s2 (Ordinary-Kept o1 left.kept) left.live refl
                          (left.same_op ∙ o.idle),
                    ),
                  ),
          ))
