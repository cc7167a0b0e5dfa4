-- ===== src/Request/Overrun.antt =====
-- A request that fills the whole buffer.
use imonitor.Base.{
  ℕ, zero, suc, ◌-◌, ◌<◌, ◌≤◌, ◌≡◌, ◌≢◌, pos, to_int_self, refl, ap, ◌∙◌, none, some, [], ◌∷◌, ◌++◌,
  append-nil, Bytes, arith, codes, drop, length, length-replicate, replicate,
}
use imonitor.Sys.{
  Env, Server, Connection, Faults, Faults-bind, getpeername, load-some, defined-some, die-false,
  recv, called, sprintf_lem, memcpy_at_lem, c_string, defined, fprintf_stderr,
}
use imonitor.Debug.{dprintf_text}
use imonitor.SockUtil.{peer_text, get_peer_address}
use imonitor.Utils.Ends.{is_req_finished_short}
use imonitor.Utils.Text.{HasNoNul, c_string-nul}
use imonitor.Request.{
  receive_loop, receive_once, parse_request, after_receive, receive_message, peer_line,
}
use imonitor.Request.Arrival.{holding, holding-cleared}
use imonitor.Request.Failure.{PeerKnown}
use imonitor.Request.Segments.{Segments, receive_loop-Segments}

c_string-none : (a : Bytes) → HasNoNul a → c_string a ≡ none
c_string-none [] h = refl
c_string-none (b ∷ bs) h = ground (arith, c_string-none bs h.1)

-- `strlen` reads past a buffer without a NUL.
parse_request-Faults :
    (env : Env) (p last : ℕ) (c : Connection) (s : Server)
    → s.heap p ≡ some c
    → HasNoNul c.recv_buffer
    → Faults (parse_request env p last s)
unfolding parse_request defined
parse_request-Faults env p last c s h full =
    rw (load-some p s h, c_string-none c.recv_buffer full) (s, refl)

-- Where the peer's address is known and fits its array, with a buffer below 2 GB, on a connection with
-- a cleared buffer: a request without a NUL that is as long as the buffer, and arrives in segments
-- behind which the loop's test asks for more except for the last, makes `receive_message` read past
-- the array.
pub receive_message-Faults :
    (env : Env) {whole : Bytes} {last : ℕ}
    → env.bufsiz < 0x8000_0000
    → (p : ℕ) (c : Connection) (s : Server) → s.heap p ≡ some c
    → c.recv_buffer ≡ replicate env.bufsiz 0
    → PeerKnown env c.sockfd
    → HasNoNul whole
    → length whole ≡ env.bufsiz
    → Segments env c.sockfd whole last (called env (getpeername c.sockfd) s).trace []
    → Faults (receive_message env p s)
unfolding receive_message get_peer_address after_receive peer_line
receive_message-Faults env {whole} {last} int_sized p c s h cleared peer proper full segments =
    let s1 = called env (getpeername c.sockfd) s in
    let text = peer_text (env.reply s.trace (getpeername c.sockfd)) in
    let buffer : Bytes = replicate 64 0 in
    let (name, (printed, short)) = c_string-nul text (drop (suc (length text)) buffer) in
    let line =
      dprintf_text "receive_message" "imonitor.c" 187
        (codes "Received message from: " ++ name ++ 10 ∷ []) in
    let filled : whole ++ replicate (env.bufsiz - length whole) 0 ≡ whole =
      ap (λ k. whole ++ replicate k 0) {y = 0} (omega arith) ∙ append-nil whole in
    rw
      (
        load-some p s h,
        (peer s.trace).0,
        defined-some _ _
            (sprintf_lem buffer text (omega (arith, (peer s.trace).1, length-replicate 64 (zero)))),
      )
      (Faults-bind (receive_loop env (suc env.bufsiz) p 0 s1) _ _
        (receive_loop-Segments env int_sized p c whole last (suc env.bufsiz) [] s1
          (holding-cleared env p c s1 h cleared) segments (omega arith) (omega arith))
        λ end s2 (e, now).
          rw (e, printed)
            (parse_request-Faults env p last (holding env c whole)
              (called env (fprintf_stderr line) s2) now.live (rw filled proper)))

-- Where the peer's address is known and fits its array, on a connection with a cleared buffer of one
-- byte at least and below 2 GB: a first segment of one byte that is no line feed makes the loop's test
-- read before the array.
pub receive_message-Faults_byte :
    (env : Env) (b : ℕ)
    → 1 ≤ env.bufsiz
    → env.bufsiz < 0x8000_0000
    → (p : ℕ) (c : Connection) (s : Server) → s.heap p ≡ some c
    → c.recv_buffer ≡ replicate env.bufsiz 0
    → PeerKnown env c.sockfd
    → b ≢ 10
    → (let r = env.reply (called env (getpeername c.sockfd) s).trace (recv c.sockfd env.bufsiz) in
        (r.rc ≡ pos 1) × (r.bytes ≡ b ∷ []))
    → Faults (receive_message env p s)
unfolding receive_message get_peer_address receive_loop receive_once defined
receive_message-Faults_byte env b room int_sized p c s h cleared peer other (got, bytes) =
    let s1 = called env (getpeername c.sockfd) s in
    let text = peer_text (env.reply s.trace (getpeername c.sockfd)) in
    let buffer : Bytes = replicate 64 0 in
    let whole : env.bufsiz - 0 ≡ env.bufsiz = omega arith in
    rw
      (
        load-some p s h,
        (peer s.trace).0,
        defined-some _ _
            (sprintf_lem buffer text (omega (arith, (peer s.trace).1, length-replicate 64 (zero)))),
        load-some p s1 {c = holding env c []} (holding-cleared env p c s1 h cleared),
        whole,
        got,
        bytes,
        defined-some _ _ (
            memcpy_at_lem (replicate env.bufsiz 0) 0 (b ∷ [])
              (omega (arith, length-replicate env.bufsiz (zero)))),
        to_int_self (pos 1) (omega arith),
        die-false,
        is_req_finished_short b (drop 1 (replicate env.bufsiz 0)) other,
      )
      (_, refl)
