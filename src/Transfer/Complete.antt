-- ===== src/Transfer/Complete.antt =====
-- A whole transfer: the rounds from the first read, or from the header, to the close.
use imonitor.Base.{
  [], ◌∷◌, ◌/◌, drop-drop, ℕ, zero, suc, ◌+◌, ◌-◌, ◌*◌, ◌<◌, ◌≤◌, ◌≡◌, refl, sym, ap, ◌∙◌, ◌++◌,
  append_assoc, none, Bytes, ℤ, arith, length, drop, take-append-drop, drop-length-take, drop-all,
  append-nil,
}
use native.Mathlib.Decide.{dec_lt}
use native.Mathlib.Nat.{add-div_right, div-eq_of_lt}
use imonitor.Sys.{Env, Server}
use imonitor.Transfer.Defs.{delivered, Honest, chunk}
use imonitor.Transfer.Apart.{Robust, Robust-bind, round_events}
use imonitor.Transfer.Rounds.{Reading, Sending}
use imonitor.Transfer.Step.{length-chunk, round-Reading, round-Sending_last, round-Sending_more}

-- The next bytes of the file and those behind them.
chunk-append-drop :
    (env : Env) (content : Bytes) (n : ℕ)
    → chunk env content n ++ drop (n + length (chunk env content n)) content ≡ drop n content
chunk-append-drop env content n =
    ap (λ l. chunk env content n ++ l)
      (sym (drop-drop n (length (chunk env content n)) content)
        ∙ drop-length-take env.bufsiz (drop n content))
    ∙ take-append-drop env.bufsiz (drop n content)

abbrev double : ℕ → ℕ
double zero = 0
double (suc b) = suc (suc (double b))

double_lem : (b : ℕ) → double b ≡ 2 * b
double_lem zero = omega arith
double_lem (suc b) = omega (arith, double_lem b)

-- The reads that a file takes.
unfoldable pub blocks : Env → Bytes → ℕ
blocks env content = (length content + (env.bufsiz - 1)) / env.bufsiz

-- A quotient that is rounded up is one more than that of the number before.
round_up : (l b : ℕ) → 0 < b → 0 < l → (l + (b - 1)) / b ≡ suc ((l - 1) / b)
round_up l b room some_left =
    ap (λ n. n / b) {x = l + (b - 1)} {y = l - 1 + b} (omega arith)
    ∙ add-div_right (l - 1) room
    ∙ omega arith

div_bounds : (l b : ℕ) → 0 < b → 0 < l → ((l - 1) / b * b < l) × (l ≤ suc ((l - 1) / b) * b)
div_bounds l b room some_left = omega arith

div_none : (b : ℕ) → 0 < b → (0 + (b - 1)) / b ≡ 0
div_none b room = div-eq_of_lt (omega arith)

nil_of_length : (l : Bytes) → length l ≡ 0 → l ≡ []
nil_of_length [] e = refl
nil_of_length (b ∷ l) e = absurd (omega arith)

-- The connection is freed, and `text` is what its context delivered to the socket `sock` in all.
abbrev pub Finished : (p ctx : ℕ) → ℤ → Bytes → Server → Type 0
Finished p ctx sock text s = (s.heap p ≡ none) × (delivered sock ctx s.trace ≡ text)

module _ (env : Env) {file : ℤ} {content : Bytes} (honest : Honest env file content) (p ctx : ℕ)
    {sock : ℤ} (room : 0 < env.bufsiz) (small : length content < 0x1_0000_0000_0000_0000) where
  -- With `suc b` blocks left, that many reads and writes finish the transfer.
  reads :
      (b n : ℕ) {out : Bytes} (s : Server)
      → n + b * env.bufsiz < length content
      → length content ≤ n + suc b * env.bufsiz
      → Reading env p ctx sock file (length content) n out s
      → Robust env p ctx
          (round_events p (double (suc b)))
          (Finished p ctx sock (out ++ drop n content))
          s
  reads zero n {out} s more fuel r =
      let text = chunk env content n in
      let size = length-chunk env content n in
      Robust-bind env p ctx _ (round_events p 1) (round_events p 1)
        (Finished p ctx sock (out ++ drop n content)) s
        (round-Reading env honest p ctx (omega arith) r)
        λ s1 r1.
          Robust-bind env p ctx _ (round_events p 1) []
            (Finished p ctx sock (out ++ drop n content)) s1
            (round-Sending_last env honest p ctx (omega arith) r1)
            λ s2 (gone, sent). (
              gone,
              sent
                  ∙ ap (λ l. out ++ l)
                      (sym (append-nil text)
                        ∙ ap (λ l. text ++ l)
                            (sym (drop-all content (n + length text) (omega arith)))
                        ∙ chunk-append-drop env content n),
            )
  reads (suc b) n {out} s more fuel r =
      let text = chunk env content n in
      let size = length-chunk env content n in
      let full : length text ≡ env.bufsiz = omega arith in
      Robust-bind env p ctx _ (round_events p 1) (round_events p (suc (double (suc b))))
        (Finished p ctx sock (out ++ drop n content)) s
        (round-Reading env honest p ctx (omega arith) r)
        λ s1 r1.
          Robust-bind env p ctx _ (round_events p 1) (round_events p (double (suc b)))
            (Finished p ctx sock (out ++ drop n content)) s1
            (round-Sending_more env honest p ctx (omega arith) r1)
            λ s2 r2.
              let whole : (out ++ text) ++ drop (n + length text) content ≡ out ++ drop n content =
                append_assoc out text _ ∙ ap (λ l. out ++ l) (chunk-append-drop env content n) in
              rw whole at
                (reads b (n + length text) s2 (rw full (omega arith)) (rw full (omega arith)) r2)

  -- Once the header is in the buffer, a round for it and two for each block finish the transfer:
  -- the header and then the whole content are delivered, and the connection is freed, whatever
  -- happens in between to other connections.
  pub rounds-Finished :
      {out header : Bytes} (s : Server)
      → Sending env p ctx sock file (length content) 0 out header s
      → Robust env p ctx
          (round_events p (suc (2 * blocks env content)))
          (Finished p ctx sock ((out ++ header) ++ content))
          s
  unfolding blocks
  rounds-Finished {out} {header} s r = elim (dec_lt 0 (length content)) [
    | yes some_left ↦
        let b = (length content - 1) / env.bufsiz in
        let (below, above) = div_bounds (length content) env.bufsiz room some_left in
        rw (round_up (length content) env.bufsiz room some_left, ← double_lem (suc b))
          (Robust-bind env p ctx _ (round_events p 1) (round_events p (double (suc b)))
            (Finished p ctx sock ((out ++ header) ++ content)) s
            (round-Sending_more env honest p ctx (omega arith) r)
            λ s1 r1. reads b 0 s1 (omega arith) (omega arith) r1)
    | no none_left ↦
        let no_content : length content ≡ 0 = omega arith in
        let no_blocks : blocks env content ≡ 0 =
          ap (λ n. (n + (env.bufsiz - 1)) / env.bufsiz) no_content ∙ div_none env.bufsiz room in
        rw no_blocks (
          Robust-bind env p ctx _ (round_events p 1) []
            (Finished p ctx sock ((out ++ header) ++ content)) s
            (round-Sending_last env honest p ctx (omega arith) r)
            λ s1 (gone, sent). (
              gone,
              sent
                  ∙ sym (append-nil (out ++ header))
                  ∙ ap (λ l. (out ++ header) ++ l) (sym (nil_of_length content no_content)),
            ))
  ]
