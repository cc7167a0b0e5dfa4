-- ===== src/Request/Failure.antt =====
-- The error path of `receive_message`.
use imonitor.Base.{
  ◌++◌, suc, [], ◌∷◌, drop, codes, refl, ℕ, ◌<◌, ◌≡◌, zero, ◌-◌, true, false, some, Bytes, ℤ,
  is_neg, arith, length, replicate, length-replicate,
}
use imonitor.Sys.{
  Env, Server, Connection, Trace, EpollEvent, exit, recv, getpeername, epoll_ctl, ctl_del, die,
  load-some, sprintf_lem, defined-some, called, fprintf_stderr,
}
use imonitor.SockUtil.{peer_text, get_peer_address}
use imonitor.Debug.{dprintf_text}
use imonitor.Utils.Text.{c_string-nul}
use imonitor.WEpoll.{w_epoll_remove_ptr}
use imonitor.Request.{
  peer_line, receive_once, receive_loop, abandon, after_receive, receive_message,
}

-- The descriptor is not registered with any epoll instance, so that its removal fails.
abbrev pub Unregistered : Env → ℤ → Type 0
Unregistered env fd =
    (t : Trace) (ep : ℤ) (ev : EpollEvent)
    → is_neg (env.reply t (epoll_ctl ep ctl_del fd ev)).rc ≡ true

-- The address of the peer can be read, and fits in the 64 bytes that it is given.
abbrev pub PeerKnown : Env → ℤ → Type 0
PeerKnown env fd =
    (t : Trace)
    → let r = env.reply t (getpeername fd) in (is_neg r.rc ≡ false) × (length (peer_text r) < 64)

-- The label `remove_connection` ends the process where the connection's eventfd is not registered.
abandon-exit :
    (env : Env) (p : ℕ) (c : Connection) (s : Server)
    → s.heap p ≡ some c
    → Unregistered env c.eventfd
    → (s' : Server) × (abandon env p s ≡ exit s')
unfolding abandon w_epoll_remove_ptr die
abandon-exit env p c s h none_yet = rw (load-some p s h, none_yet s.trace s.epollfd) (_, refl)

-- Where the peer's address is known and fits its array, the first `recv` fails and the connection's
-- eventfd is not registered, a request ends the whole server.
pub receive_message-exit :
    (env : Env) (p : ℕ) (c : Connection) (s : Server)
    → s.heap p ≡ some c
    → PeerKnown env c.sockfd
    → ((t : Trace) (room : ℕ) → is_neg (env.reply t (recv c.sockfd room)).rc ≡ true)
    → Unregistered env c.eventfd
    → (s' : Server) × (receive_message env p s ≡ exit s')
unfolding receive_message receive_loop receive_once after_receive peer_line get_peer_address
receive_message-exit env p c s h peer failed none_yet =
    let s1 = called env (getpeername c.sockfd) s in
    let s2 = called env (recv c.sockfd (env.bufsiz - 0)) s1 in
    let text = peer_text (env.reply s.trace (getpeername c.sockfd)) in
    let buffer : Bytes = replicate 64 0 in
    let (name, (printed, short)) = c_string-nul text (drop (suc (length text)) buffer) in
    let line =
      dprintf_text "receive_message" "imonitor.c" 174
        (codes "Error in communication from: " ++ name ++ 10 ∷ []) in
    let (s', ended) = abandon-exit env p c (called env (fprintf_stderr line) s2) h none_yet in
    (
      s',
      rw
          (
            load-some p s h,
            (peer s.trace).0,
            defined-some _ _ (
                sprintf_lem buffer text
                  (omega (arith, (peer s.trace).1, length-replicate 64 (zero)))),
            load-some p s1 h,
            failed s1.trace (env.bufsiz - 0),
            printed,
          )
          ended,
    )
