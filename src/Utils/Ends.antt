-- ===== src/Utils/Ends.antt =====
-- `is_req_finished` of utils.c, the test of the receiving loop.
use imonitor.Base.{
  ℕ, suc, zero, ◌+◌, ◌-◌, ◌<◌, ◌≤◌, ◌≡◌, ◌≢◌, refl, false, not, ◌||◌, ◌==◌, none, some, [], ◌∷◌,
  ◌++◌, Bytes, arith, length, get_elem?, ap,
}
use imonitor.Utils.{is_req_finished}

get_elem?_defined : (a : Bytes) (i : ℕ) → i < length a → (b : ℕ) × (get_elem? a i ≡ some b)
get_elem?_defined [] i h = absurd (omega arith)
get_elem?_defined (x ∷ a) zero h = (x, refl)
get_elem?_defined (x ∷ a) (suc i) h = get_elem?_defined a i (omega arith)

get_elem?-append :
    (xs ys : Bytes) (i k : ℕ) → k ≡ length xs + i → get_elem? (xs ++ ys) k ≡ get_elem? ys i
get_elem?-append [] ys i k h = ap (get_elem? ys) (omega arith)
get_elem?-append (x ∷ xs) ys i zero h = absurd (omega arith)
get_elem?-append (x ∷ xs) ys i (suc k) h = get_elem?-append xs ys i k (omega arith)

-- With four bytes or more in the buffer the test reads inside the array.
pub is_req_finished-ne-none :
    (a : Bytes) (n : ℕ) → 4 ≤ n → n ≤ length a → is_req_finished a n ≢ none
unfolding is_req_finished
is_req_finished-ne-none a n h fits =
    let (b1, e1) = get_elem?_defined a (n - 1) (omega arith) in
    let (b2, e2) = get_elem?_defined a (n - 2) (omega arith) in
    let (b3, e3) = get_elem?_defined a (n - 3) (omega arith) in
    let (b4, e4) = get_elem?_defined a (n - 4) (omega arith) in ground arith

-- For any four bytes in the buffer the function returns 0 (`false`), so that the loop ends, behind the
-- fourth exactly if one of them is what CR LF CR LF has at its place, whatever stands around them and
-- whatever the other three are.
pub is_req_finished-any :
    (before behind : Bytes) (b1 b2 b3 b4 : ℕ)
    → is_req_finished (before ++ b1 ∷ b2 ∷ b3 ∷ b4 ∷ behind) (length before + 4)
      ≡ some (not (((b1 == b'\r') || (b2 == b'\n')) || ((b3 == b'\r') || (b4 == b'\n'))))
unfolding is_req_finished
is_req_finished-any before behind b1 b2 b3 b4 =
    let rest : Bytes = b1 ∷ b2 ∷ b3 ∷ b4 ∷ behind in
    let n = length before + 4 in
    ground (
      arith,
      get_elem?-append before rest 0 (n - 4) (omega arith),
      get_elem?-append before rest 1 (n - 3) (omega arith),
      get_elem?-append before rest 2 (n - 2) (omega arith),
      get_elem?-append before rest 3 (n - 1) (omega arith),
    )

-- Behind a text that ends in a line feed the function returns 0 (`false`), whatever the text and the
-- rest of the buffer.
pub is_req_finished-line :
    (text rest : Bytes) → is_req_finished (text ++ 10 ∷ rest) (suc (length text)) ≡ some false
unfolding is_req_finished
is_req_finished-line text rest =
    ground (arith, get_elem?-append text (10 ∷ rest) 0 (suc (length text) - 1))

-- A buffer whose only byte is no line feed makes the test read before the array.
pub is_req_finished_short : (b : ℕ) (rest : Bytes) → b ≢ 10 → is_req_finished (b ∷ rest) 1 ≡ none
unfolding is_req_finished
is_req_finished_short b rest h = ground arith
