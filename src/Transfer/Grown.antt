-- ===== src/Transfer/Grown.antt =====
-- A file that grows after `handle_work` has taken its size.
use imonitor.Base.{
  [], ℕ, zero, suc, ◌+◌, ◌%◌, ◌<◌, ◌≤◌, ◌≡◌, ◌≢◌, ◌⊎◌, inl, inr, ap, ◌∙◌, none, Bytes, ℤ, arith,
  length,
}
use native.Mathlib.Nat.{add-mod_right}
use native.Mathlib.Decide.{dec_le}
use native.Mathlib.Nat.{zero-mod}
use imonitor.Transfer.Start.{Stored}
use imonitor.Transfer.Serve.{Asked, answer, Sending-found}
use imonitor.Main.{dispatch}
use imonitor.Transfer.Apart.{Robust-round}
use imonitor.Transfer.Rounds.{out_event}
use imonitor.Sys.{Connection, Env, Server, Returns, Returns-bind, Returns-mono}
use imonitor.Transfer.Defs.{Honest, chunk}
use imonitor.Transfer.Rounds.{round, rounds, Reading, Sending}
use imonitor.Transfer.Step.{length-chunk, round-Reading, round-Sending_more}

-- The counts that a transfer of `size` bytes goes through: whole blocks, and in the end all bytes.
record Count (block size n : ℕ) : Type 0 where
  bounded : n ≤ size
  aligned : (n % block ≡ 0) ⊎ (n ≡ size)

-- The connection is in a transfer, before a read or before a write.
data Going (env : Env) (p ctx : ℕ) (sock file : ℤ) (dimension size : ℕ) (s : Server) : Type 0 where
  reading :
      {n : ℕ} {out : Bytes}
      → Count env.bufsiz size n
      → Reading env p ctx sock file dimension n out s
      → Going env p ctx sock file dimension size s
  sending :
      {n : ℕ} {out text : Bytes}
      → Count env.bufsiz size n
      → Sending env p ctx sock file dimension n out text s
      → Going env p ctx sock file dimension size s

module _ (env : Env) {file : ℤ} {content : Bytes} (honest : Honest env file content) (p ctx : ℕ)
    (sock : ℤ) (dimension : ℕ) (small : length content < 0x1_0000_0000_0000_0000)
    (grown : dimension < length content) (unaligned : dimension % env.bufsiz ≢ 0) where
  -- A read that does not reach the end takes a whole block.
  full_block :
      (n : ℕ)
      → ¬ (length content ≤ n + env.bufsiz)
      → (n % env.bufsiz ≡ 0) ⊎ (n ≡ length content)
      → (n + length (chunk env content n)) % env.bufsiz ≡ 0
  full_block n inside (inl whole) =
      ap (λ m. (n + m) % env.bufsiz) {y = env.bufsiz} (omega (arith, length-chunk env content n))
      ∙ add-mod_right n env.bufsiz
      ∙ whole
  full_block n inside (inr all) = absurd (omega arith)

  -- The count behind the next read.
  Count-next :
      {n : ℕ}
      → Count env.bufsiz (length content) n
      → Count env.bufsiz (length content) (n + length (chunk env content n))
  Count-next {n} k = elim (dec_le (length content) (n + env.bufsiz)) [
    | yes last ↦ record {
      bounded = omega (arith, length-chunk env content n, k.bounded);
      aligned = inr (omega (arith, length-chunk env content n, k.bounded));
    }
    | no inside ↦ record {
      bounded = omega (arith, length-chunk env content n, k.bounded);
      aligned = inl (full_block n inside k.aligned);
    }
  ]

  Count-ne : {n : ℕ} → Count env.bufsiz (length content) n → n ≢ dimension
  Count-ne k e =
      unaligned (elim k.aligned [ inl whole ↦ rw e at whole | inr all ↦ absurd (omega arith) ])

  round-Going :
      (s : Server)
      → Going env p ctx sock file dimension (length content) s
      → Returns (λ _. Going env p ctx sock file dimension (length content)) (round env p s)
  round-Going s (reading {n} k r) =
      Returns-mono (round env p s) _ _
        (Robust-round env p ctx _ [] s
          (round-Reading env honest p ctx (omega (arith, (Count-next k).bounded)) r))
        λ _ s1 r1. sending (Count-next k) r1
  round-Going s (sending k r) =
      Returns-mono (round env p s) _ _
        (Robust-round env p ctx _ [] s (round-Sending_more env honest p ctx (Count-ne k) r))
        λ _ s1 r1. reading k r1

  rounds-Going :
      (k : ℕ) (s : Server)
      → Going env p ctx sock file dimension (length content) s
      → Returns (λ _. Going env p ctx sock file dimension (length content)) (rounds env p k s)
  unfolding rounds
  rounds-Going zero s g = g
  rounds-Going (suc k) s g =
      Returns-bind (round env p s) _ _ _ (round-Going s g) λ _ s1 g1. rounds-Going k s1 g1

  Going-live :
      {s : Server} → Going env p ctx sock file dimension (length content) s → s.heap p ≢ none
  Going-live (reading k r) e = ground arith
  Going-live (sending k r) e = ground arith

  rounds-grown :
      {header : Bytes} (k : ℕ) (s : Server)
      → Sending env p ctx sock file dimension 0 [] header s
      → Returns (λ _ s'. s'.heap p ≢ none) (rounds env p k s)
  rounds-grown k s r =
      Returns-mono (rounds env p k s) _ _
        (rounds-Going k s
          (sending (record { bounded = omega arith; aligned = inl (zero-mod env.bufsiz) }) r))
        λ _ s' g. Going-live g

-- A request for a file that has grown when it is read, on a system where no call fails and every
-- write is whole, with a buffer of 109 bytes at least and a file below 2 GB, where the size that was
-- taken is no multiple of the buffer's: the answer never ends, since the connection is there after any
-- number of rounds.
pub answer-grown :
    (env : Env) {path : Bytes} {file : ℤ} {old new : Bytes}
    → Stored env path file old
    → Honest env file new
    → 109 ≤ env.bufsiz
    → length old < length new
    → length new < 0x8000_0000
    → length old % env.bufsiz ≢ 0
    → (p : ℕ) (c : Connection) (s : Server) → Asked env p c path s
    → (k : ℕ) → Returns (λ _ s'. s'.heap p ≢ none) (answer env p k s)
unfolding answer
answer-grown env {old} stored honest room grown small unaligned p c s a k =
    Returns-bind (dispatch env (out_event p) s) _ _ _
      (Sending-found env stored room (omega arith) p c s a)
      λ _ s1 r.
        rounds-grown env honest p c.ctx c.sockfd (length old) (omega arith) grown unaligned k s1 r
