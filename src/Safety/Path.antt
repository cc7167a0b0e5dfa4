-- ===== src/Safety/Path.antt =====
-- The path of a request: the copies stay inside their arrays, and a string is left.
use imonitor.Base.{
  ℕ, zero, suc, ◌≡◌, ◌<◌, ◌≤◌, refl, sym, ap, ◌∙◌, some, List, [], ◌∷◌, ◌++◌, append_assoc, Bytes,
  arith, length, length-append, length-drop, length-replicate, drop, replicate,
}
use mathlib.Core.Option
use imonitor.Sys.{c_string, memcpy, memcpy_lem, strcpy, sprintf, sprintf_lem}
use imonitor.Utils.Text.{c_string-nul}
use imonitor.Request.Path.{overlaid}
use imonitor.Safety.System.{FitIn}

-- An array whose last byte is a NUL.
pub record Closed (size : ℕ) (a : Bytes) : Type 0 where
  pub text : Bytes
  pub closed : a ≡ text ++ 0 ∷ []
  pub length_text : suc (length text) ≡ size

replicate-last : (n : ℕ) → replicate {A = ℕ} (suc n) 0 ≡ replicate n 0 ++ 0 ∷ []
replicate-last zero = refl
replicate-last (suc n) = ap (λ l. 0 ∷ l) (replicate-last n)

pub replicate-Closed : (size : ℕ) → 0 < size → Closed size (replicate size 0)
replicate-Closed zero h = absurd (omega arith)
replicate-Closed (suc n) h = record {
  text = replicate n 0;
  closed = replicate-last n;
  length_text = ap suc (length-replicate n (zero));
}

drop-append_inside : (k : ℕ) (xs ys : Bytes) → k ≤ length xs → drop k (xs ++ ys) ≡ drop k xs ++ ys
drop-append_inside zero xs ys h = refl
drop-append_inside (suc k) [] ys h = absurd (omega arith)
drop-append_inside (suc k) (x ∷ xs) ys h = drop-append_inside k xs ys (omega arith)

-- A shorter text at the start of such an array leaves its last byte.
memcpy-Closed :
    (size : ℕ) (a text : Bytes)
    → Closed size a
    → length text < size
    → (b : Bytes) × ((memcpy a text ≡ some b) × Closed size b)
memcpy-Closed size a text c fits =
    let size_a : length a ≡ size =
      rw c.closed (omega (arith, length-append c.text (0 ∷ []), c.length_text)) in
    (
      text ++ drop (length text) a,
      (
        memcpy_lem a text (omega arith),
        record {
          text = text ++ drop (length text) c.text;
          closed =
              ap (λ l. text ++ l)
                (ap (drop (length text)) c.closed
                  ∙ drop-append_inside (length text) c.text (0 ∷ []) (omega (arith, c.length_text)))
              ∙ sym (append_assoc text (drop (length text) c.text) (0 ∷ []));
          length_text = omega (
            arith,
            c.length_text,
            length-append text (drop (length text) c.text),
            length-drop (length text) c.text,
          );
        },
      ),
    )

pub overlaid-FitIn :
    (size : ℕ) (texts : List Bytes) (a : Bytes)
    → Closed size a
    → FitIn size texts
    → (b : Bytes) × ((overlaid a texts ≡ some b) × Closed size b)
overlaid-FitIn size [] a c h = (a, (refl, c))
overlaid-FitIn size (text ∷ texts) a c h =
    let (b, (copied, closed)) = memcpy-Closed size a text c h.0.1 in
    let (d, (rest, last)) = overlaid-FitIn size texts b closed h.1 in
    (d, (rw (overlaid, copied) rest, last))

-- Behind the first byte of a string and of the zeros that follow it stands a string.
behind_first :
    (s : Bytes) (size : ℕ)
    → 2 ≤ size
    → (name : Bytes) × (c_string (drop 1 (s ++ 0 ∷ drop (suc (length s)) (replicate size 0)))
        ≡ some name)
behind_first [] (suc (suc n)) h = ([], refl)
behind_first [] zero h = absurd (omega arith)
behind_first [] (suc zero) h = absurd (omega arith)
behind_first (b ∷ s) size h =
    let (name, (e, _)) = c_string-nul s (drop (suc (suc (length s))) (replicate size 0)) in
    (name, e)

-- What `strcpy` makes of it: a string, also without its first byte.
pub strcpy-Closed :
    (size : ℕ) (a : Bytes)
    → 2 ≤ size
    → Closed size a
    → (b : Bytes) × ((strcpy (replicate size 0) a ≡ some b)
        × ((name : Bytes) × (c_string (drop 1 b) ≡ some name)))
unfolding strcpy sprintf Option.bind
strcpy-Closed size a large c =
    let (s, (read, short)) = c_string-nul c.text [] in
    let zeros : Bytes = replicate size 0 in
    let whole : c_string a ≡ some s = ap c_string c.closed ∙ read in
    let size_zeros : length zeros ≡ size = length-replicate size _ in
    (
      s ++ 0 ∷ drop (suc (length s)) zeros,
      (
        rw whole (sprintf_lem zeros s (omega (arith, c.length_text, size_zeros, short))),
        behind_first s size large,
      ),
    )
