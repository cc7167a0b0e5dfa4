-- ===== src/Transfer/Session.antt =====
-- A session from the start: the request of a new connection, up to the state in which it is answered.
use imonitor.Base.{
  zero, ℕ, suc, ◌<◌, ◌≡◌, refl, ap, ◌∙◌, false, some, [], ◌∷◌, ◌++◌, Bytes, ℤ, is_neg, arith, codes,
  drop, length, length-replicate, replicate,
}
use imonitor.Sys.{
  Env, Server, Connection, Trace, getpeername, Returns, Returns-bind, Returns-mono, load-some,
  defined-some, die-pass, called, sprintf_lem, c_string, state_data_received, fprintf_stderr,
  EpollEvent, epoll_ctl, CtlOp,
}
use imonitor.Debug.{dprintf_text}
use imonitor.SockUtil.{peer_text, get_peer_address}
use imonitor.Utils.Text.{HasNoNul, c_string-nul, c_string-append}
use imonitor.Request.{received, receive_loop, after_receive, receive_message, peer_line}
use imonitor.Request.Arrival.{holding, holding-cleared}
use imonitor.Request.Failure.{PeerKnown}
use imonitor.Request.Path.{urls, padded_nul, parsed, parse_request_lem}
use imonitor.Request.Segments.{Segments, Now, Now-trans, receive_loop-Segments}
use imonitor.Handlers.{epollin, handle_epollin, handle_client_request}
use imonitor.Main.{dispatch}
use imonitor.Transfer.Fresh.{New}
use imonitor.Transfer.Rounds.{in_event, Ordinary, Ordinary-Kept}
use imonitor.Transfer.Serve.{Asked}
use imonitor.Transfer.Defs.{delivered}

-- A request as the server takes it: `whole` is a string shorter than the buffer, in which the parser
-- finds one URL, `/` and the string `path`, which fits as well.
pub record Request (env : Env) (whole path : Bytes) : Type 0 where
  pub proper : HasNoNul whole
  pub short : length whole < env.bufsiz
  pub found : urls (env.parse whole) ≡ (b'/' ∷ path) ∷ []
  pub proper_path : HasNoNul path
  pub short_path : suc (length path) < env.bufsiz

module _ (env : Env) (int_sized : env.bufsiz < 0x8000_0000) {whole path : Bytes}
    (request : Request env whole path) (p : ℕ) (c : Connection) (last : ℕ) where
  -- Behind the loop the path is kept.
  after_receive_lem :
      (text : Bytes) (abuffer : Bytes) (s : Server)
      → c_string abuffer ≡ some text
      → s.heap p ≡ some (holding env c whole)
      → Returns
          (λ state s'.
            (state ≡ state_data_received)
            × Now p (parsed env (holding env c whole) (b'/' ∷ path) last) s s')
          (after_receive env p abuffer (received last) s)
  unfolding after_receive peer_line delivered
  after_receive_lem text abuffer s e h =
      let line =
        dprintf_text "receive_message" "imonitor.c" 187
          (codes "Received message from: " ++ text ++ 10 ∷ []) in
      let s1 : Server = called env (fprintf_stderr line) s in
      let held =
        ap c_string (padded_nul env.bufsiz whole request.short)
        ∙ c_string-append whole _ request.proper in
      rw
        (
          e,
          parse_request_lem env p last (holding env c whole) s1 h held request.found
              (omega arith, request.proper_path) request.short_path,
        )
        (refl, record { live = ground arith; sent = λ sock ctx. refl; kept = (refl, refl, refl) })

  -- The request of a new connection is received and its path kept.
  receive_message-Now :
      (s : Server)
      → s.heap p ≡ some c
      → c.recv_buffer ≡ replicate env.bufsiz 0
      → PeerKnown env c.sockfd
      → Segments env c.sockfd whole last (called env (getpeername c.sockfd) s).trace []
      → Returns
          (λ state s'.
            (state ≡ state_data_received)
            × Now p (parsed env (holding env c whole) (b'/' ∷ path) last) s s')
          (receive_message env p s)
  unfolding receive_message get_peer_address delivered
  receive_message-Now s h cleared peer segments =
      let s1 = called env (getpeername c.sockfd) s in
      let text = peer_text (env.reply s.trace (getpeername c.sockfd)) in
      let buffer : Bytes = replicate 64 0 in
      let (shown, (printed, short)) = c_string-nul text (drop (suc (length text)) buffer) in
      rw
        (
          load-some p s h,
          (peer s.trace).0,
          defined-some _ _ (
              sprintf_lem buffer text
                (omega (arith, (peer s.trace).1, length-replicate 64 (zero)))),
        )
        (Returns-bind (receive_loop env (suc env.bufsiz) p 0 s1) _ _ _
          (receive_loop-Segments env int_sized p c whole last (suc env.bufsiz) [] s1
            (holding-cleared env p c s1 h cleared) segments (omega arith) (omega arith))
          λ end s2 (e, now). rw e (
            Returns-mono (after_receive env p _ (received last) s2) _ _
              (after_receive_lem shown _ s2 printed now.live)
              λ state s3 (is, then).
                let both = Now-trans now then in
                (
                  is,
                  record {
                    live = both.live;
                    sent = λ sock ctx. both.sent sock ctx;
                    kept = both.kept;
                  },
                )))

  -- The event that the socket of a new connection can be read: the request is kept, and epoll is asked
  -- for the moment to answer.
  pub dispatch-Asked :
      (s : Server) (sock : ℤ)
      → Ordinary p s
      → s.heap p ≡ some c
      → New env c sock
      → delivered c.sockfd c.ctx s.trace ≡ []
      → PeerKnown env c.sockfd
      → Segments env c.sockfd whole last (called env (getpeername c.sockfd) s).trace []
      → ((t : Trace) (ep : ℤ) (op : CtlOp) (fd : ℤ) (ev : EpollEvent)
          → is_neg (env.reply t (epoll_ctl ep op fd ev)).rc ≡ false)
      → Returns
          (λ _. Asked env p (parsed env (holding env c whole) (b'/' ∷ path) last) path)
          (dispatch env (in_event p) s)
  unfolding dispatch handle_epollin epollin handle_client_request delivered
  dispatch-Asked s sock o h new silent peer segments ctl_ok =
      rw (o.not_listener, o.not_inotify, load-some p s h, new.state_new)
        (Returns-bind (receive_message env p s) _ _ _
          (receive_message-Now s h new.recv_cleared peer segments)
          λ state s1 (is, now).
            rw (is, load-some p s1 now.live, die-pass _ _ (ctl_ok _ _ _ _ _))
              record {
                ordinary = Ordinary-Kept o now.kept;
                live = now.live;
                state = refl;
                named =
                    ap (λ b. c_string (drop 1 b))
                      (padded_nul env.bufsiz (b'/' ∷ path) request.short_path)
                    ∙ c_string-append path _ request.proper_path;
                fits = ap length new.send_cleared ∙ length-replicate env.bufsiz _;
                fresh = new.nothing_sent;
                silent = now.sent _ c.ctx ∙ silent;
              })
