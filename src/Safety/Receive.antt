-- ===== src/Safety/Receive.antt =====
-- A request: `handle_client_request` is a step of the protocol.
use imonitor.Base.{
  ℕ, suc, ◌≡◌, inl, inr, refl, sym, ◌∙◌, some, [], append-nil, arith, is_neg, replicate, Bool-cases,
}
use imonitor.Sys.{
  Env, Server, Connection, state_new_conn, Ensures, Ensures-bind, Ensures-mono, Returns-Ensures,
  die, load, load-some, called, getpeername, die-Same, ◌>>=◌, get, EpollEvent, epoll_ctl, ctl_mod,
}
use imonitor.SockUtil.{get_peer_address}
use imonitor.Request.{receive_loop, receive_message}
use imonitor.Request.Arrival.{Holds, holding-cleared}
use imonitor.Request.Receive.{receive_loop-Holds}
use imonitor.Handlers.{handle_client_request}
use imonitor.Safety.Frame.{Frame-refl, Frame-trans, Quiet-called, Frame-Quiet}
use imonitor.Safety.Valid.{Valid}
use imonitor.WEpoll.{epollinout, w_epoll_update_ptr_inout}
use imonitor.Safety.System.{System}
use imonitor.Safety.Next.{Step, Step-called, readable}
use imonitor.SockUtil.Address.{length-peer_text}
use imonitor.Safety.Peer.{get_peer_address-Named}
use imonitor.Safety.Answer.{Since, abandon-Answered, Answered, after_receive-Answered}

module _ (env : Env) (sys : System env) (s : Server) (v : Valid env s) (p : ℕ) (c : Connection)
    (h : s.heap p ≡ some c) where
  -- Nothing has arrived at a connection whose buffer is clear.
  Holds-cleared :
      (s1 : Server)
      → s1.heap p ≡ some c
      → c.recv_buffer ≡ replicate env.bufsiz 0
      → Holds env p c s1 [] s1
  Holds-cleared s1 live clear = record {
    live = holding-cleared env p c s1 live clear;
    all = sym (append-nil _);
    inside = omega arith;
    shorter = λ short room. omega arith;
    started = inl refl;
    frame = Frame-refl p c.ctx s1;
    same_op = refl;
    same_context = refl;
    same_path = refl;
  }

  receive_message-Answered :
      c.state ≡ state_new_conn
      → Ensures (λ state s'. Answered env sys s v p c h state s') (receive_message env p s)
  unfolding receive_message
  receive_message-Answered e =
      let old = v.sound p c h in
      let large = sys.large in
      rw (load-some p s h) (
        Ensures-bind (get_peer_address env c.sockfd (replicate 64 0) s) _ _ _
          (get_peer_address-Named env c.sockfd s (
            omega (
              arith,
              length-peer_text (env.reply s.trace (getpeername c.sockfd))
                  (sys.peer_address s.trace c.sockfd),
            )))
          λ (rc, abuffer) s1 (name, at).
            let quiet = Quiet-called env (getpeername c.sockfd) s p c.ctx refl in
            let b : Since p c c s s1 = rw at record {
              live = h;
              frame = Frame-Quiet quiet;
              same_op = quiet.ops c.ctx;
              same_context = quiet.contexts c.ctx;
              same_path = refl;
            } in
            elim (Bool-cases (is_neg rc)) [
              | inl failed ↦ rw failed (abandon-Answered env sys s v p c h s1 c b refl)
              | inr fine ↦ rw fine (
                  Ensures-bind (receive_loop env (suc env.bufsiz) p 0 s1) _ _ _
                    (Returns-Ensures (receive_loop env (suc env.bufsiz) p 0 s1) _ (
                      receive_loop-Holds env sys.network sys.int_sized p c s1 (suc env.bufsiz) [] s1
                        (Holds-cleared s1 b.live (old.cleared e)) (omega arith)))
                    λ end s2 (text, held).
                      after_receive-Answered env sys s v p c h s2 text abuffer end
                        (held.shorter sys.short (omega arith)) name
                        record {
                          live = held.live;
                          frame = Frame-trans b.frame held.frame;
                          same_op = held.same_op ∙ b.same_op;
                          same_context = held.same_context ∙ b.same_context;
                          same_path = held.same_path ∙ b.same_path;
                        })
            ])

  -- Where a request has been received the socket is watched for both kinds of events.
  watched_Step :
      (s1 : Server) (c1 : Connection)
      → s1.heap p ≡ some c1
      → Step env p readable state_new_conn s s1
      → Ensures
          (λ _. Step env p readable state_new_conn s)
          ((do
            c ← load p
            s ← get
            rc ← w_epoll_update_ptr_inout env s.epollfd c.sockfd p
            die (is_neg rc))
            s1)
  unfolding w_epoll_update_ptr_inout
  watched_Step s1 c1 live v1 =
      let ev : EpollEvent = record { events = epollinout; payload = p } in
      let call = epoll_ctl s1.epollfd ctl_mod c1.sockfd ev in
      let s2 : Server = called env call s1 in
      rw (load-some p s1 live) (
        Ensures-mono (die (is_neg (env.reply s1.trace call).rc) s2) _ _ (die-Same _ s2)
          λ _ s3 e. rw e (Step-called call v1 refl))

  pub handle_client_request-Step :
      c.state ≡ state_new_conn
      → Ensures (λ _. Step env p readable state_new_conn s) (handle_client_request env p s)
  unfolding handle_client_request
  handle_client_request-Step e =
      Ensures-bind (receive_message env p s) _ _ _ (receive_message-Answered e)
        λ state s1 (v1, how). elim how [
          | inl closed ↦ rw closed v1
          | inr (received_all, (c1, live)) ↦ rw received_all (watched_Step s1 c1 live v1)
        ]
