-- ===== src/Transfer/Fresh.antt =====
-- A new connection: what `handle_new_connection` leaves.
use imonitor.Base.{
  refl, ℕ, ◌≡◌, some, none, [], ℤ, arith, is_neg, false, true, replicate, ==ℤ_iff, ◌==◌,
}
use imonitor.Sys.{
  Env, Server, Connection, Trace, Returns, Returns-mono, accept, io_setup, malloc_connection,
  epoll_ctl, ctl_add, EpollEvent, state_new_conn, die-pass, load-some, called, update, fcntl_getfl,
  fcntl_setfl, fprintf_stderr,
}
use imonitor.WEpoll.{epollin}
use imonitor.WEpoll.Interest.{interest}
use imonitor.Debug.{dprintf_text}
use imonitor.Transfer.Defs.{delivered, Kept}
use imonitor.Aio.{submitted}
use imonitor.Handlers.{accepted_text, handle_new_connection}

-- No call fails that takes a new connection from the socket `listenfd`.
pub record Accepts (env : Env) (listenfd : ℤ) : Type 0 where
  pub accept_ok : (t : Trace) → is_neg (env.reply t (accept listenfd)).rc ≡ false
  pub malloc_ok : (t : Trace) → ((env.reply t malloc_connection).word == 0) ≡ false
  pub setup_ok : (t : Trace) → is_neg (env.reply t io_setup).rc ≡ false
  pub ctl_ok :
      (t : Trace) (ep : ℤ) (fd : ℤ) (ev : EpollEvent)
      → is_neg (env.reply t (epoll_ctl ep ctl_add fd ev)).rc ≡ false

-- A new connection: its socket, two cleared buffers, nothing sent, and no request yet.
pub record New (env : Env) (c : Connection) (sock : ℤ) : Type 0 where
  pub socket_kept : c.sockfd ≡ sock
  pub state_new : c.state ≡ state_new_conn
  pub nothing_sent : c.send_len ≡ 0
  pub recv_cleared : c.recv_buffer ≡ replicate env.bufsiz 0
  pub send_cleared : c.send_buffer ≡ replicate env.bufsiz 0

-- What an accepted connection leaves: a new connection at an address that `malloc` gave, with a context
-- that has no operation and has delivered nothing, and its socket registered for input.
pub record Opened (env : Env) (s s' : Server) : Type 0 where
  pub p : ℕ
  pub c : Connection
  pub live : s'.heap p ≡ some c
  pub fresh : New env c (env.reply s.trace (accept s.listenfd)).rc
  pub watched :
      interest s.epollfd s'.trace (env.reply s.trace (accept s.listenfd)).rc
      ≡ some (record { events = epollin; payload = p })
  pub from_malloc : (t : Trace) × (p ≡ (env.reply t malloc_connection).word)
  pub silent : delivered c.sockfd c.ctx s'.trace ≡ []
  pub idle : submitted c.ctx s'.trace ≡ none
  pub kept : Kept s s'

pub handle_new_connection-Opened :
    (env : Env) (s : Server)
    → Accepts env s.listenfd
    → Returns (λ _ s'. Opened env s s') (handle_new_connection env s)
unfolding handle_new_connection delivered submitted
handle_new_connection-Opened env s a =
    let sock = (env.reply s.trace (accept s.listenfd)).rc in
    let s1 : Server = called env (accept s.listenfd) s in
    let s2 : Server = called env (fcntl_getfl sock) s1 in
    let flags = (env.reply s1.trace (fcntl_getfl sock)).rc in
    let line =
      dprintf_text "handle_new_connection" "imonitor.c" 134
        (accepted_text (env.reply s.trace (accept s.listenfd))) in
    let s3 : Server =
      called env (fprintf_stderr line) (called env (fcntl_setfl sock flags true) s2) in
    let p = (env.reply s3.trace malloc_connection).word in
    let c : Connection = record (env.junk s3.trace) {
      sockfd = sock;
      recv_buffer = replicate env.bufsiz 0;
      send_buffer = replicate env.bufsiz 0;
    } in
    let s4 : Server = record (called env malloc_connection s3) {
      heap = update s3.heap p (some c);
    } in
    let opened : Connection = record c {
      send_len = 0;
      is_header = 0;
      state = state_new_conn;
      ctx = (env.reply s4.trace io_setup).word;
    } in
    rw
      (
        die-pass _ _ (a.accept_ok _),
        die-pass _ _ (a.malloc_ok _),
        load-some p s4 {c = c} (ground arith),
        die-pass _ _ (a.setup_ok _),
        die-pass _ _ (a.ctl_ok _ _ _ _),
      )
      record {
        p = p;
        c = opened;
        live = ground arith;
        fresh = record {
          socket_kept = refl;
          state_new = refl;
          nothing_sent = refl;
          recv_cleared = refl;
          send_cleared = refl;
        };
        watched = grind (arith, ==ℤ_iff s.epollfd s.epollfd, ==ℤ_iff sock sock, a.ctl_ok);
        from_malloc = (s3.trace, refl);
        silent = ground arith;
        idle = ground arith;
        kept = (refl, refl, refl);
      }

-- Where no call fails, `handle_new_connection` leaves a new connection for the accepted socket at
-- some address, and the socket is registered for input alone, with that address as its payload.
pub handle_new_connection-New :
    (env : Env) (s : Server)
    → Accepts env s.listenfd
    → let sock = (env.reply s.trace (accept s.listenfd)).rc in
      Returns
        (λ _ s'.
          (p : ℕ) × ((c : Connection) × ((s'.heap p ≡ some c)
              × (New env c sock
                  × (interest s.epollfd s'.trace sock
                      ≡ some (record { events = epollin; payload = p }))))))
        (handle_new_connection env s)
handle_new_connection-New env s a =
    Returns-mono (handle_new_connection env s) _ _ (handle_new_connection-Opened env s a)
      λ _ s' o. (o.p, (o.c, (o.live, (o.fresh, o.watched))))
