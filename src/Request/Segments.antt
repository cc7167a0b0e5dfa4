-- ===== src/Request/Segments.antt =====
-- A request that arrives: the receiving loop of `receive_message` takes its segments one by one and
-- ends behind the last.
use imonitor.Base.{
  ℕ, ℤ, zero, suc, ◌+◌, ◌-◌, ◌<◌, ◌≤◌, ◌≡◌, ◌==◌, refl, ◌∙◌, Bool, true, false, some, ◌∷◌, ◌++◌,
  Bytes, ℤ, pos, arith, length, length-append, replicate, to_int_self,
}
use imonitor.Sys.{
  Env, Server, Connection, Trace, done, update, recv, Returns, Returns-mono, load-some,
  defined-some, die-false, called,
}
use imonitor.Utils.{is_req_finished}
use imonitor.Request.{receive_once, receive_loop, received}
use imonitor.Request.Arrival.{memcpy_at-holding, holding}
use imonitor.Transfer.Defs.{delivered, Kept}

-- The call of `recv` behind `text`, on the trace `t`, gives `piece`, which fits in the buffer, and the
-- loop's test then has the result `more`.
pub record Piece (env : Env) (fd : ℤ) (t : Trace) (text piece : Bytes) (more : Bool) : Type 0 where
  pub n : ℕ
  pub count : length piece ≡ suc n
  pub got : (env.reply t (recv fd (env.bufsiz - length text))).rc ≡ pos (suc n)
  pub bytes : (env.reply t (recv fd (env.bufsiz - length text))).bytes ≡ piece
  pub fits : length text + length piece ≤ env.bufsiz
  pub test :
      is_req_finished
        ((text ++ piece) ++ replicate (env.bufsiz - length (text ++ piece)) 0)
        (length text + length piece)
      ≡ some more

-- The trace behind the call of `recv` that follows `text`.
abbrev received_from : Env → ℤ → Bytes → Trace → Trace
received_from env fd text t =
    let call = recv fd (env.bufsiz - length text) in (call, env.reply t call) ∷ t

-- Behind `text` the rest of `whole` arrives in segments, the last of `last` bytes: the loop's test
-- asks for more behind every segment but that.
pub data Segments (env : Env) (fd : ℤ) (whole : Bytes) (last : ℕ) : Trace → Bytes → Type 0 where
  final :
      {t : Trace} {text piece : Bytes}
      → Piece env fd t text piece false
      → text ++ piece ≡ whole
      → length piece ≡ last
      → Segments env fd whole last t text
  further :
      {t : Trace} {text piece : Bytes}
      → Piece env fd t text piece true
      → Segments env fd whole last (received_from env fd text t) (text ++ piece)
      → Segments env fd whole last t text

-- The connection at `p` is `c`, and since `s` no operation has been finished.
pub record Now (p : ℕ) (c : Connection) (s s' : Server) : Type 0 where
  pub live : s'.heap p ≡ some c
  pub sent : (sock : ℤ) (ctx : ℕ) → delivered sock ctx s'.trace ≡ delivered sock ctx s.trace
  pub kept : Kept s s'

pub Now-trans :
    {p : ℕ} {c d : Connection} {s s1 s2 : Server} → Now p c s s1 → Now p d s1 s2 → Now p d s s2
Now-trans f g = record {
  live = g.live;
  sent = λ sock ctx. g.sent sock ctx ∙ f.sent sock ctx;
  kept = (g.kept.0 ∙ f.kept.0, g.kept.1 ∙ f.kept.1, g.kept.2 ∙ f.kept.2);
}

suc-eqb-zero : (n : ℕ) → (suc n == 0) ≡ false
suc-eqb-zero n = ground arith

module _ (env : Env) (int_sized : env.bufsiz < 0x8000_0000) (p : ℕ) (c : Connection) where
  -- What a piece leaves.
  abbrev taken_in : Bytes → Bytes → Server → Server
  taken_in text piece s =
      let s1 : Server = called env (recv c.sockfd (env.bufsiz - length text)) s in
      record s1 { heap = update s1.heap p (some (holding env c (text ++ piece))) }

  receive_once-Piece :
      (text piece : Bytes) (more : Bool) (s : Server)
      → s.heap p ≡ some (holding env c text)
      → Piece env c.sockfd s.trace text piece more
      → receive_once env p (length text) s
        ≡ done (received (length piece), length text + length piece, more) (taken_in text piece s)
  unfolding receive_once
  receive_once-Piece text piece more s h a =
      let size : length text + suc a.n ≡ length text + length piece = omega (arith, a.count) in
      rw
        (
          load-some p s h,
          a.got,
          suc-eqb-zero a.n,
          a.bytes,
          defined-some _ _ (memcpy_at-holding env.bufsiz text piece a.fits),
          size,
          to_int_self (pos (length text + length piece)) (omega (arith, a.fits)),
          die-false,
          defined-some _ _ a.test,
          a.count,
        )
        refl

  -- The loop takes the whole text, and ends behind its last segment.
  pub receive_loop-Segments :
      (whole : Bytes) (last fuel : ℕ) (text : Bytes) (s : Server)
      → s.heap p ≡ some (holding env c text)
      → Segments env c.sockfd whole last s.trace text
      → length text ≤ env.bufsiz
      → env.bufsiz < length text + fuel
      → Returns
          (λ end s'. (end ≡ received last) × Now p (holding env c whole) s s')
          (receive_loop env fuel p (length text) s)
  unfolding receive_loop delivered
  receive_loop-Segments whole last zero text s h segments inside room = absurd (omega arith)
  receive_loop-Segments whole last (suc fuel) text s h (final {piece} a whole_is size) inside room =
      rw (receive_once-Piece text piece false s h a, size, whole_is)
        (refl, record { live = ground arith; sent = λ sock ctx. refl; kept = (refl, refl, refl) })
  receive_loop-Segments whole last (suc fuel) text s h (further {piece} a rest) inside room =
      let joined = length-append text piece in
      rw (receive_once-Piece text piece true s h a, ← joined)
        (Returns-mono (receive_loop env fuel p (length (text ++ piece)) (taken_in text piece s)) _ _
          (receive_loop-Segments whole last fuel (text ++ piece) (taken_in text piece s)
            (ground arith) rest (omega (arith, a.fits)) (omega (arith, a.count)))
          λ end s' (e, now).
            (e, record { live = now.live; sent = λ sock ctx. now.sent sock ctx; kept = now.kept }))
