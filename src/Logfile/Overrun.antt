-- ===== src/Logfile/Overrun.antt =====
-- An entry whose id fills its array, as the ids of pseudo terminals do.
use imonitor.Base.{
  ℕ, zero, suc, ◌≡◌, ◌≤◌, ◌<◌, refl, none, some, [], ◌∷◌, Bytes, arith, length, inl, inl,
}
use mathlib.Core.Option
use imonitor.Sys.{Env, Server, Utmpx, Faults, Faults-bind, c_string_n, defined}
use imonitor.Utils.Text.{HasNoNul, c_string_n-take}
use imonitor.Logfile.{place_columns, type_column, write_log, log_text}
use imonitor.Logfile.Columns.{Terminated, user_text, user_column-text, type_column-Fits}
use imonitor.Logfile.Line.{Writable, logged_type, logged_type-column, log_text-Logged}

-- More bytes are asked for than the array has, and none of them is a NUL.
c_string_n-none : (n : ℕ) (a : Bytes) → HasNoNul a → length a < n → c_string_n n a ≡ none
c_string_n-none zero a h short = absurd (omega arith)
c_string_n-none (suc n) [] h short = refl
c_string_n-none (suc n) (b ∷ bs) h short =
    rw (c_string_n-none n bs h.1 (omega arith)) (ground (arith, h.0))

place_columns-none :
    (ut : Utmpx)
    → length ut.ut_line ≡ 32
    → length ut.ut_id ≡ 4
    → HasNoNul ut.ut_id
    → place_columns ut ≡ none
unfolding place_columns Option.bind
place_columns-none ut line id full =
    rw
      (
        c_string_n-take 6 ut.ut_line (inl (omega (arith, line))),
        c_string_n-none 5 ut.ut_id full (omega (arith, id)),
      )
      refl

-- Where no write fails, with a buffer of 284 bytes at least: an entry of one of the four types whose
-- user ends inside its array, and whose id fills its four bytes without a NUL, makes `write_log` read
-- past the array of the id.
pub write_log-Faults :
    (env : Env)
    → Writable env
    → 284 ≤ env.bufsiz
    → (ut : Utmpx) (s : Server) {kind : Bytes} → logged_type ut.ut_type ≡ some kind
    → Terminated 32 ut.ut_user
    → length ut.ut_line ≡ 32
    → length ut.ut_id ≡ 4
    → HasNoNul ut.ut_id
    → Faults (write_log env ut s)
unfolding write_log defined
write_log-Faults env writable room ut s kind user line id full =
    let (printed, fits) = user_column-text ut user in
    rw ((logged_type-column ut.ut_type kind).0, printed)
      (Faults-bind (log_text env (user_text ut) s) _ _
        (log_text-Logged env writable room _ s (fits.0, omega (arith, fits.1)))
        λ _ s1 h1.
          Faults-bind (log_text env (type_column ut) s1) _ _
            (log_text-Logged env writable room _ s1
              ((type_column-Fits ut).0, omega (arith, (type_column-Fits ut).1)))
            λ _ s2 h2. rw (place_columns-none ut line id full) (s2, refl))
