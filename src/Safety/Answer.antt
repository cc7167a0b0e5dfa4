-- ===== src/Safety/Answer.antt =====
-- The end of a request: what `receive_message` does behind its loop is a step of the protocol.
use imonitor.Base.{
  ℕ, suc, ◌-◌, ◌≡◌, ◌<◌, ◌⊎◌, inl, inr, refl, ap, ◌∙◌, none, some, [], ◌∷◌, ◌++◌, Bytes, arith,
  length, length-append, length-replicate, replicate,
}
use imonitor.Sys.{
  state_new_conn, Env, Server, Connection, ConnectionState, state_data_received,
  state_connection_closed, Ensures, Ensures-mono, die, load, load-some, called, defined-some,
  c_string, fprintf_stderr, update,
}
use imonitor.Debug.{dprintf_text}
use imonitor.Utils.Text.{c_string-nul}
use imonitor.Aio.{submitted}
use imonitor.Request.{
  Received, received, peer_closed, recv_failed, abandon, parse_request, after_receive,
}
use imonitor.Logfile.Line.{written}
use imonitor.Transfer.Defs.{delivered}
use imonitor.Request.Arrival.{holding}
use imonitor.Request.Path.{urls, callbacks-urls}
use imonitor.Safety.Frame.{alive, Frame, Frame-trans, Frame-store, Quiet-called, Frame-Quiet}
use imonitor.Safety.Valid.{Sound, Valid}
use imonitor.Safety.System.{System}
use imonitor.Safety.Path.{replicate-Closed, overlaid-FitIn, strcpy-Closed}
use imonitor.Safety.Peer.{Named}
use imonitor.Safety.Next.{
  Step, Step-changed, Step-freed, Next, readable, given_up, request_received, peer_left,
}

-- Behind the loop: the connection at `p` is `c'`, nothing else has changed since `s`.
pub record Since (p : ℕ) (c c' : Connection) (s s' : Server) : Type 0 where
  pub live : s'.heap p ≡ some c'
  pub frame : Frame p c.ctx s s'
  pub same_op : submitted c.ctx s'.trace ≡ submitted c.ctx s.trace
  pub same_context : alive c.ctx s'.trace ≡ alive c.ctx s.trace
  pub same_path : s'.request_path ≡ s.request_path

module _ (env : Env) (sys : System env) (s : Server) (v : Valid env s) (p : ℕ) (c : Connection)
    (h : s.heap p ≡ some c) where
  abandon-Frame :
      (s1 : Server) (c1 : Connection)
      → s1.heap p ≡ some c1
      → Ensures
          (λ state s'.
            (state ≡ state_connection_closed)
            × (Frame p c1.ctx s1 s' × ((s'.heap p ≡ none) × (s'.request_path ≡ s1.request_path))))
          (abandon env p s1)
  unfolding abandon die load submitted alive delivered written
  abandon-Frame s1 c1 live = grind arith

  -- What a request leaves: a step of the protocol, and a live connection unless it is over.
  abbrev pub Answered : ConnectionState → Server → Type 0
  Answered state s' =
      Step env p readable state_new_conn s s'
      × ((state ≡ state_connection_closed)
          ⊎ ((state ≡ state_data_received) × ((c' : Connection) × (s'.heap p ≡ some c'))))

  pub abandon-Answered :
      (s1 : Server) (c1 : Connection)
      → Since p c c1 s s1
      → c1.ctx ≡ c.ctx
      → Ensures (λ state s'. Answered state s') (abandon env p s1)
  abandon-Answered s1 c1 since same =
      Ensures-mono (abandon env p s1) _ _ (abandon-Frame s1 c1 since.live)
        λ state s' (closed, (frame, (gone, path))).
          let frame' : Frame p c.ctx s1 s' = rw same at frame in
          (
            Step-freed v h (Frame-trans since.frame frame')
                (rw (path ∙ since.same_path) v.path_size) gone given_up,
            inl closed,
          )

  Since-print :
      (s1 : Server) (c1 : Connection) (line : Bytes)
      → Since p c c1 s s1
      → Since p c c1 s (called env (fprintf_stderr line) s1)
  Since-print s1 c1 line b =
      let quiet = Quiet-called env (fprintf_stderr line) s1 p c.ctx refl in
      record {
        live = b.live;
        frame = Frame-trans b.frame (Frame-Quiet quiet);
        same_op = quiet.ops c.ctx ∙ b.same_op;
        same_context = quiet.contexts c.ctx ∙ b.same_context;
        same_path = b.same_path;
      }

  -- The connection at `p` is changed in the last step, and the global path is `a`.
  stored_Answered :
      (s1 : Server) (c1 c2 : Connection) (a : Bytes)
      → Since p c c1 s s1
      → length a ≡ env.bufsiz
      → c2.ctx ≡ c.ctx
      → Sound env p c2 s1.trace
      → Next state_new_conn readable (some c2.state)
      → Step env p readable state_new_conn s
          (record s1 { request_path = a; heap = update s1.heap p (some c2) })
  stored_Answered s1 c1 c2 a b size ctx sound n =
      Step-changed v h
        (Frame-trans b.frame (
          Frame-trans (Frame-store s1 p c.ctx (some c2)) record {
            others = λ q e. refl;
            ops = λ k e. refl;
            contexts = λ k e. refl;
            sent = λ sock k e. refl;
            unlogged = λ fd. refl;
            kept_logfd = refl;
            kept_listenfd = refl;
            kept_inotifyfd = refl;
            kept_epollfd = refl;
          }))
        size (ground arith) ctx sound n

  parse_request-Answered :
      (s1 : Server) (text : Bytes) (last : ℕ)
      → length text < env.bufsiz
      → Since p c (holding env c text) s s1
      → Ensures (λ state s'. Answered state s') (parse_request env p last s1)
  unfolding parse_request
  parse_request-Answered s1 text last fits b =
      let old = v.sound p c h in
      let large = sys.large in
      let zeros : Bytes = replicate env.bufsiz 0 in
      let split : text ++ replicate (env.bufsiz - length text) 0
          ≡ text ++ 0 ∷ replicate (env.bufsiz - suc (length text)) 0 =
        ap (λ k. text ++ replicate k 0) {x = env.bufsiz - length text}
          {y = suc (env.bufsiz - suc (length text))} (omega arith) in
      let (str, (read, _)) = c_string-nul text (replicate (env.bufsiz - suc (length text)) 0) in
      let (a, (laid, closed)) =
        overlaid-FitIn env.bufsiz (urls (env.parse str)) zeros
          (replicate-Closed env.bufsiz (omega arith)) (sys.parsed str) in
      let (d, (copied, named)) = strcpy-Closed env.bufsiz a (omega arith) closed in
      let c2 : Connection = record (holding env c text) {
        request_path = d;
        recv_len = last;
        state = state_data_received;
      } in
      let size_a : length a ≡ env.bufsiz =
        rw closed.closed (omega (arith, closed.length_text, length-append closed.text (0 ∷ []))) in
      rw
        (
          load-some p s1 b.live,
          defined-some _ _ (ap c_string split ∙ read),
          callbacks-urls (env.parse str) (record s1 { request_path = zeros }) laid,
          defined-some _ _ copied,
        )
        (
          stored_Answered s1 (holding env c text) c2 a b size_a refl
              record {
                recv_size = omega (
                  arith,
                  length-append text (replicate (env.bufsiz - length text) 0),
                  length-replicate {A = ℕ} (env.bufsiz - length text) 0,
                );
                send_size = old.send_size;
                cleared = λ e. absurd (ground arith);
                named = λ e. named;
                own = rw b.same_op old.own;
                open_context = b.same_context ∙ old.open_context;
              }
              request_received,
          inr (refl, (c2, ground arith)),
        )

  pub after_receive-Answered :
      (s1 : Server) (text abuffer : Bytes) (end : Received)
      → length text < env.bufsiz
      → Named abuffer
      → Since p c (holding env c text) s s1
      → Ensures (λ state s'. Answered state s') (after_receive env p abuffer end s1)
  unfolding after_receive
  after_receive-Answered s1 text abuffer (received n) fits name b =
      let (line, printed) = name "Received message from: " in
      let out = dprintf_text "receive_message" "imonitor.c" 187 line in
      rw printed (
        parse_request-Answered (called env (fprintf_stderr out) s1) text n fits
          (Since-print s1 _ out b))
  after_receive-Answered s1 text abuffer peer_closed fits name b =
      let (line, printed) = name "Connection closed from: " in
      let out = dprintf_text "receive_message" "imonitor.c" 179 line in
      let s2 : Server = called env (fprintf_stderr out) s1 in
      let b2 = Since-print s1 _ out b in
      let old = v.sound p c h in
      let c2 : Connection = record (holding env c text) { state = state_connection_closed } in
      rw (printed, load-some p s2 b2.live)
        (
          stored_Answered s2 (holding env c text) c2 s2.request_path b2
              (rw b2.same_path v.path_size) refl
              record {
                recv_size = omega (
                  arith,
                  length-append text (replicate (env.bufsiz - length text) 0),
                  length-replicate {A = ℕ} (env.bufsiz - length text) 0,
                );
                send_size = old.send_size;
                cleared = λ e. absurd (ground arith);
                named = λ e. absurd (ground arith);
                own = rw b2.same_op old.own;
                open_context = b2.same_context ∙ old.open_context;
              }
              peer_left,
          inl refl,
        )
  after_receive-Answered s1 text abuffer recv_failed fits name b =
      let (line, printed) = name "Error in communication from: " in
      let out = dprintf_text "receive_message" "imonitor.c" 174 line in
      rw printed (
        abandon-Answered (called env (fprintf_stderr out) s1) (holding env c text)
          (Since-print s1 _ out b) refl)
