-- ===== src/Safety/Contained.antt =====
-- The counts of the writes that send_data of imonitor.c submits.
use imonitor.Base.{
  Bool, true, false, ◌&&◌, Bool-cases, inl, inr, some, none, Option, [], ◌∷◌, ℕ, ◌≡◌, ◌==◌, leb,
  length, arith,
}
use imonitor.Sys.{IoOp, pread, pwrite, Env, Server, Trace, Call, io_setup, io_submit, called}
use imonitor.Aio.{submitted}
use imonitor.Safety.Frame.{is_aio}

-- A write asks for no more bytes than its array has, from where it begins.
abbrev within : IoOp → Bool
within (pwrite fd text count offset) = leb count (length text)
within (pread fd buf count offset) = true

-- No write that was submitted reaches past its array.
unfoldable pub contained : Trace → Bool
contained [] = true
contained ((io_submit k b, r) ∷ t) = within b.op && contained t
contained (e ∷ t) = contained t

-- The same of the operation that a context has under way.
abbrev pub Inside : Option IoOp → Type 0
Inside (some op) = within op ≡ true
Inside none = Unit

pub contained-Inside : (ctx : ℕ) (t : Trace) → contained t ≡ true → Inside (submitted ctx t)
unfolding contained submitted
contained-Inside ctx [] h = tt
contained-Inside ctx ((io_submit k b, r) ∷ t) h = elim (Bool-cases (k == ctx)) [
  | inl e ↦ rw e (ground arith)
  | inr e ↦ rw e (contained-Inside ctx t (ground arith))
]
contained-Inside ctx ((io_setup, r) ∷ t) h = elim (Bool-cases (r.word == ctx)) [
  | inl e ↦ rw e tt
  | inr e ↦ rw e (contained-Inside ctx t h)
]
contained-Inside ctx (e ∷ t) h = contained-Inside ctx t h

pub contained-called :
    (env : Env) (c : Call) (s : Server)
    → is_aio c ≡ false
    → contained (called env c s).trace ≡ contained s.trace
unfolding contained
contained-called env c s h = ground arith
