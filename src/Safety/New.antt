-- ===== src/Safety/New.antt =====
-- A new connection keeps the invariant.
use mathlib.Core.Option.{some-injective}
use imonitor.Base.{
  ap, ℕ, ◌≡◌, refl, sym, ◌∙◌, ◌==◌, true, false, Option, some, none, ℤ, arith, is_neg,
  length-replicate, replicate,
}
use imonitor.Sys.{
  Trace, Env, Server, Connection, state_new_conn, Ensures, Ensures-mono, Ensures-die, die-Same,
  Ensures-bind, load-some, called, update, accept, fcntl_getfl, fcntl_setfl, fprintf_stderr,
  malloc_connection, io_setup, epoll_ctl, ctl_add, EpollEvent, die,
}
use imonitor.WEpoll.{epollin}
use imonitor.Aio.{submitted}
use imonitor.Logfile.Line.{written}
use imonitor.Transfer.Defs.{delivered}
use imonitor.Debug.{dprintf_text}
use imonitor.Handlers.{accepted_text, connection_create, handle_new_connection}
use imonitor.Safety.Frame.{alive, Frame}
use imonitor.Safety.Valid.{Valid, Valid-frame, Valid-Mute, Mute-called, Mute-trans}
use imonitor.Safety.Next.{Moves, connecting, accepted, phases}
use imonitor.Safety.Registered.{allocated}
use imonitor.Safety.System.{System}

module _ (env : Env) (s : Server) (p : ℕ) (c : Connection) (old : Option Connection) where
  -- `io_setup` has returned a context, and the connection is stored with it.
  abbrev set_up : Server
  set_up =
      let s1 : Server = record s { heap = update s.heap p old } in
      record (called env io_setup s1) { heap = update s1.heap p (some c) }

  set_up-Frame : (env.reply s.trace io_setup).word ≡ c.ctx → Frame p c.ctx s set_up
  unfolding submitted alive delivered written
  set_up-Frame word = record {
    others = λ q other. ground arith;
    ops = λ k other. ground arith;
    contexts = λ k other. ground arith;
    sent = λ sock k other. ground arith;
    unlogged = λ fd. refl;
    kept_logfd = refl;
    kept_listenfd = refl;
    kept_inotifyfd = refl;
    kept_epollfd = refl;
  }

  set_up-submitted : (env.reply s.trace io_setup).word ≡ c.ctx → submitted c.ctx set_up.trace ≡ none
  unfolding submitted
  set_up-submitted word = ground arith

  set_up-alive : (env.reply s.trace io_setup).word ≡ c.ctx → alive c.ctx set_up.trace ≡ true
  unfolding alive
  set_up-alive word = ground arith

  set_up-heap : set_up.heap p ≡ some c
  set_up-heap = ground arith

  set_up-Valid :
      Valid env s
      → (env.reply s.trace io_setup).word ≡ c.ctx
      → alive c.ctx s.trace ≡ false
      → c.recv_buffer ≡ replicate env.bufsiz 0
      → c.send_buffer ≡ replicate env.bufsiz 0
      → c.state ≡ state_new_conn
      → Valid env set_up
  set_up-Valid v word fresh recv send state =
      Valid-frame v p c.ctx (set_up-Frame word)
        (λ q d other h e.
          let was : alive c.ctx s.trace ≡ true =
            ap (λ k. alive k s.trace) (sym e) ∙ (v.sound q d h).open_context in
          absurd (ground arith))
        (λ d h.
          let same : d ≡ c = some-injective d c (sym h ∙ set_up-heap) in
          rw same (
            record {
              recv_size = rw recv (length-replicate env.bufsiz _);
              send_size = rw send (length-replicate env.bufsiz _);
              cleared = λ e. recv;
              named = λ e. absurd (ground arith);
              own = rw (set_up-submitted word) tt;
              open_context = set_up-alive word;
            },
            refl,
          ))
        v.path_size

-- `connection_create` stores a connection with two cleared buffers, at an address that is not null.
pub created :
    (env : Env) (sock : ℤ) (s : Server)
    → let p = (env.reply s.trace malloc_connection).word in
      let c : Connection = record (env.junk s.trace) {
        sockfd = sock;
        recv_buffer = replicate env.bufsiz 0;
        send_buffer = replicate env.bufsiz 0;
      } in
      let s1 : Server = called env malloc_connection s in
      Ensures
        (λ q s'.
          ((q ≡ p) × (s' ≡ record s1 { heap = update s1.heap p (some c) })) × ((p == 0) ≡ false))
        (connection_create env sock s)
unfolding connection_create
created env sock s = Ensures-die _ (called env malloc_connection s) _ _ λ ok. ((refl, refl), ok)

-- From `s` to `s'` one connection has been made, at an address from `malloc` and with a new context.
pub record Entered (env : Env) (s s' : Server) : Type 0 where
  pub p : ℕ
  pub ctx : ℕ
  pub frame : Frame p ctx s s'
  pub new_context : alive ctx s.trace ≡ false
  pub t : Trace
  pub from_malloc : p ≡ (env.reply t malloc_connection).word
  pub not_null : ((env.reply t malloc_connection).word == 0) ≡ false
  pub before : (q : ℕ) → allocated q t ≡ allocated q s.trace

-- A connection at the listening socket keeps the invariant, and is one new connection.
pub handle_new_connection-Moves :
    (env : Env) (sys : System env) (s : Server)
    → Valid env s
    → Ensures
        (λ _ s'. (Valid env s' × Moves connecting (phases s) (phases s')) × Entered env s s')
        (handle_new_connection env s)
unfolding handle_new_connection submitted alive delivered allocated written
handle_new_connection-Moves env sys s v =
    let a = env.reply s.trace (accept s.listenfd) in
    let sock = a.rc in
    let s1 : Server = called env (accept s.listenfd) s in
    let s2 : Server = called env (fcntl_getfl sock) s1 in
    let flags = (env.reply s1.trace (fcntl_getfl sock)).rc in
    let s3 : Server = called env (fcntl_setfl sock flags true) s2 in
    let line = dprintf_text "handle_new_connection" "imonitor.c" 134 (accepted_text a) in
    let s4 : Server = called env (fprintf_stderr line) s3 in
    let p = (env.reply s4.trace malloc_connection).word in
    let s5 : Server = called env malloc_connection s4 in
    let c0 : Connection = record (env.junk s4.trace) {
      sockfd = sock;
      recv_buffer = replicate env.bufsiz 0;
      send_buffer = replicate env.bufsiz 0;
    } in
    let s6 : Server = record s5 { heap = update s5.heap p (some c0) } in
    let c : Connection = record c0 {
      send_len = 0;
      is_header = 0;
      state = state_new_conn;
      ctx = (env.reply s5.trace io_setup).word;
    } in
    let s7 : Server = set_up env s5 p c (some c0) in
    let ev : EpollEvent = record { events = epollin; payload = p } in
    let call = epoll_ctl s.epollfd ctl_add sock ev in
    let quiet = Mute-trans (Mute-called env (accept s.listenfd) s refl) (
      Mute-trans (Mute-called env (fcntl_getfl sock) s1 refl) (
        Mute-trans (Mute-called env (fcntl_setfl sock flags true) s2 refl) (
          Mute-trans (Mute-called env (fprintf_stderr line) s3 refl)
            (Mute-called env malloc_connection s4 refl)))) in
    Ensures-die _ s1 _ _ λ _.
      Ensures-bind (connection_create env sock s4) _
        (λ q s'.
          ((q ≡ p) × (s' ≡ s6)) × (((env.reply s4.trace malloc_connection).word == 0) ≡ false))
        _ (created env sock s4)
        λ q s' ((at, e), ok).
          rw (at, e, load-some p s6 {c = c0} (ground arith))
            (Ensures-die _ s7 _ _ λ opened.
              Ensures-mono (die (is_neg (env.reply s7.trace call).rc) (called env call s7)) _ _
                (die-Same _ _)
                λ _ s8 last. rw last (
                  (
                    Valid-Mute
                        (set_up-Valid env s5 p c (some c0) (Valid-Mute v quiet) refl
                          (sys.fresh_context s5.trace opened) refl refl refl)
                        (Mute-called env call s7 refl),
                    accepted p (ground arith) (λ q other. ground arith),
                  ),
                  record {
                    p = p;
                    ctx = c.ctx;
                    frame = record {
                      others = λ q other. ground arith;
                      ops = λ k other. ground arith;
                      contexts = λ k other. ground arith;
                      sent = λ sock k other. ground arith;
                      unlogged = λ fd. refl;
                      kept_logfd = refl;
                      kept_listenfd = refl;
                      kept_inotifyfd = refl;
                      kept_epollfd = refl;
                    };
                    new_context = sys.fresh_context s5.trace opened;
                    t = s4.trace;
                    from_malloc = refl;
                    not_null = ok;
                    before = λ q. refl;
                  },
                ))
