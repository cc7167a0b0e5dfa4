-- ===== src/Request/Arrival.antt =====
-- What arrives at a socket, and a connection whose buffer holds it.
use mathlib.Core.Path.{ap₂}
use imonitor.Base.{
  ◌<◌, ℕ, zero, suc, ◌+◌, ◌-◌, ◌≤◌, ◌≡◌, ◌⊎◌, refl, sym, ap, ◌∙◌, ◌++◌, some, [], ◌∷◌, Bytes, ℤ,
  pos, negsuc, arith, ◌==ℤ◌, ==ℤ_iff, if◌then◌else◌, length, length-append, take-append, drop,
  drop-append, drop-drop, replicate, length-replicate, drop-replicate,
}
use imonitor.Aio.{submitted}
use imonitor.Safety.Frame.{Frame, alive}
use imonitor.Sys.{memcpy_at_lem, Env, Server, Connection, Trace, recv, memcpy_at, called}

-- The bytes of a `recv` that returned a number.
abbrev pub segment : ℤ → Bytes → Bytes
segment (pos n) bytes = bytes
segment (negsuc n) bytes = []

-- What has been received from a socket, in order.
unfoldable pub arrived : ℤ → Trace → Bytes
arrived fd [] = []
arrived fd ((recv f room, r) ∷ t) =
    if f ==ℤ fd then arrived fd t ++ segment r.rc r.bytes else arrived fd t
arrived fd (e ∷ t) = arrived fd t

-- `recv` returns the number of the bytes that it stores, no more than there is room for, and the
-- first segment of a request, for which the whole buffer is there, has four bytes at least.
pub record Network (env : Env) : Type 0 where
  pub counted :
      (t : Trace) (fd : ℤ) (room n : ℕ)
      → (env.reply t (recv fd room)).rc ≡ pos n
      → (length (env.reply t (recv fd room)).bytes ≡ n) × (n ≤ room)
  pub first :
      (t : Trace) (fd : ℤ) (n : ℕ) → (env.reply t (recv fd env.bufsiz)).rc ≡ pos (suc n) → 4 ≤ suc n

-- Requests are shorter than the buffer: `recv` never fills the room that it is given.
abbrev pub Short : Env → Type 0
Short env =
    (t : Trace) (fd : ℤ) (room n : ℕ) → (env.reply t (recv fd room)).rc ≡ pos (suc n) → suc n < room

-- The connection with `text` received into its cleared buffer.
abbrev pub holding : Env → Connection → Bytes → Connection
holding env c text = record c { recv_buffer = text ++ replicate (env.bufsiz - length text) 0 }

-- A connection with a cleared buffer holds no text.
pub holding-cleared :
    (env : Env) (p : ℕ) (c : Connection) (s : Server)
    → s.heap p ≡ some c
    → c.recv_buffer ≡ replicate env.bufsiz 0
    → s.heap p ≡ some (holding env c [])
holding-cleared env p c s h cleared =
    h
    ∙ ap {A = Bytes} (λ b. some (record c { recv_buffer = b }))
        (cleared ∙ ap (λ k. replicate k 0) {y = env.bufsiz - 0} (omega arith))

-- A cleared buffer that holds a text takes more bytes behind it.
pub memcpy_at-holding :
    (size : ℕ) (text more : Bytes)
    → length text + length more ≤ size
    → memcpy_at (text ++ replicate (size - length text) 0) (length text) more
      ≡ some ((text ++ more) ++ replicate (size - length (text ++ more)) 0)
memcpy_at-holding size text more h =
    let zeros : Bytes = replicate (size - length text) 0 in
    let behind : drop (length text + length more) (text ++ zeros)
        ≡ replicate (size - length (text ++ more)) 0 =
      sym (drop-drop (length text) (length more) (text ++ zeros))
      ∙ ap (drop (length more)) (drop-append text zeros)
      ∙ drop-replicate (length more) (size - length text) 0
      ∙ ap (λ k. replicate k 0) {y = size - length (text ++ more)}
          (omega (arith, length-append text more)) in
    memcpy_at_lem (text ++ zeros) (length text) more
      (omega (arith, length-append text zeros, length-replicate (size - length text) (zero)))
    ∙ ap₂ (λ a b. some ((a ++ more) ++ b)) (take-append text zeros (length text) refl) behind

-- The connection at `p` holds what has arrived since `s0`, and nothing else has changed.
pub record Holds (env : Env) (p : ℕ) (c : Connection) (s0 : Server) (text : Bytes) (s : Server)
    : Type 0 where
  pub live : s.heap p ≡ some (holding env c text)
  pub all : arrived c.sockfd s.trace ≡ arrived c.sockfd s0.trace ++ text
  pub inside : length text ≤ env.bufsiz
  pub shorter : Short env → 0 < env.bufsiz → length text < env.bufsiz
  pub started : (text ≡ []) ⊎ (4 ≤ length text)
  pub frame : Frame p c.ctx s0 s
  pub same_op : submitted c.ctx s.trace ≡ submitted c.ctx s0.trace
  pub same_context : alive c.ctx s.trace ≡ alive c.ctx s0.trace
  pub same_path : s.request_path ≡ s0.request_path

pub arrived-recv :
    (fd : ℤ) (room : ℕ) (env : Env) (s : Server)
    → let r = env.reply s.trace (recv fd room) in
      arrived fd (called env (recv fd room) s).trace ≡ arrived fd s.trace ++ segment r.rc r.bytes
unfolding arrived
arrived-recv fd room env s = ground (arith, ==ℤ_iff fd fd)
