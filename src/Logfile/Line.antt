-- ===== src/Logfile/Line.antt =====
-- What `write_log` adds to the log file.
use imonitor.Base.{
  Option, none, some, Option-cases, codes, take, sym, inl, inr, ℕ, suc, ◌≤◌, ◌≡◌, refl, ap, ◌∙◌,
  ◌++◌, append_assoc, append-nil, true, false, [], ◌∷◌, Bytes, ℤ, is_neg, arith, ◌==ℤ◌, ==ℤ_iff,
  if◌then◌else◌, length, drop, replicate, length-replicate,
}
use imonitor.Sys.{
  Env, Server, Trace, Utmpx, UtType, empty, run_lvl, boot_time, new_time, old_time, init_process,
  login_process, user_process, dead_process, unknown, write, setutxent, getutxent, Returns,
  Returns-bind, Returns-mono, called, done, defined-some, die-pass, sprintf_lem,
}
use mathlib.Core.Option
use mathlib.Core.Option.{some-injective}
use imonitor.Utils.{decimal_ℤ}
use imonitor.Utils.Text.{before_nul, c_string-append}
use imonitor.Logfile.{
  pad_right, pad_left, type_name, is_logged, type_column, time_column, log_text, write_log,
}
use imonitor.Logfile.Columns.{
  Fits, IsEntry, user_text, place_text, user_column-text, place_columns-text, type_column-Fits,
  time_column-Fits,
}

-- What was written to a descriptor, in order.
unfoldable pub written : ℤ → Trace → Bytes
written fd [] = []
written fd ((write f text, r) ∷ t) = if f ==ℤ fd then written fd t ++ text else written fd t
written fd (e ∷ t) = written fd t

-- The name of a type that is logged, in its column of nine bytes and a space.
abbrev pub logged_type : UtType → Option Bytes
logged_type user_process = some (codes "USER_PR   ")
logged_type login_process = some (codes "LOGIN_PR  ")
logged_type dead_process = some (codes "DEAD_PR   ")
logged_type run_lvl = some (codes "RUN_LVL   ")
logged_type _ = none

-- The line of an entry: the user in 8 bytes at least, the type, the pid in 5 at least, of the line 6,
-- of the id 5 in 3 at least, the host in 20 at least, and the time.
abbrev pub log_line : Env → Utmpx → Bytes → Bytes
log_line env ut kind =
    (pad_right 8 (before_nul ut.ut_user) ++ codes " ")
    ++ (kind
        ++ ((pad_left 5 (decimal_ℤ ut.ut_pid)
              ++ codes " "
              ++ pad_right 6 (take 6 (before_nul ut.ut_line))
              ++ codes " "
              ++ pad_right 3 (take 5 (before_nul ut.ut_id))
              ++ codes " "
              ++ pad_right 20 (before_nul ut.ut_host)
              ++ codes " ")
            ++ (env.ctime ut.tv_sec ++ 10 ∷ [])))

-- What `write_log` is to add for an entry of any type.
abbrev pub added : Env → Utmpx → Bytes
added env ut = Option.get_or (Option.map (λ kind. log_line env ut kind) (logged_type ut.ut_type)) []

-- No write fails.
abbrev pub Writable : Env → Type 0
Writable env = (t : Trace) (fd : ℤ) (text : Bytes) → is_neg (env.reply t (write fd text)).rc ≡ false

-- The number of entries that were read from the login database since it was rewound.
abbrev pub entries_read : Trace → ℕ
entries_read [] = 0
entries_read ((setutxent, r) ∷ t) = 0
entries_read ((getutxent, r) ∷ t) = suc (entries_read t)
entries_read (e ∷ t) = entries_read t

-- The text is written to the log file, and nothing else of the server changes but the trace.
pub record Logged (text : Bytes) (s s' : Server) : Type 0 where
  pub same_file : s'.logfd ≡ s.logfd
  pub same_heap : s'.heap ≡ s.heap
  pub same_entry : entries_read s'.trace ≡ entries_read s.trace
  pub line : written s.logfd s'.trace ≡ written s.logfd s.trace ++ text

pub Logged-trans :
    {s s1 s2 : Server} (xs ys : Bytes) → Logged xs s s1 → Logged ys s1 s2 → Logged (xs ++ ys) s s2
Logged-trans {s} {s1} xs ys h k = record {
  same_file = k.same_file ∙ h.same_file;
  same_heap = k.same_heap ∙ h.same_heap;
  same_entry = k.same_entry ∙ h.same_entry;
  line =
      (rw h.same_file at k.line)
      ∙ ap (λ l. l ++ ys) h.line
      ∙ append_assoc (written s.logfd s.trace) xs ys;
}

written-write :
    (fd : ℤ) (env : Env) (text : Bytes) (s : Server)
    → written fd (called env (write fd text) s).trace ≡ written fd s.trace ++ text
unfolding written
written-write fd env text s = ground (arith, ==ℤ_iff fd fd)

-- A type that is logged passes the test, and its name fills the second column.
pub logged_type-column :
    (t : UtType) {kind : Bytes}
    → logged_type t ≡ some kind
    → (is_logged t ≡ true) × (pad_right 9 (take 9 (type_name t)) ++ codes " " ≡ kind)
unfolding is_logged type_name pad_right
logged_type-column empty e = absurd (ground arith)
logged_type-column run_lvl e = (refl, some-injective _ _ e)
logged_type-column boot_time e = absurd (ground arith)
logged_type-column new_time e = absurd (ground arith)
logged_type-column old_time e = absurd (ground arith)
logged_type-column init_process e = absurd (ground arith)
logged_type-column login_process e = (refl, some-injective _ _ e)
logged_type-column user_process e = (refl, some-injective _ _ e)
logged_type-column dead_process e = (refl, some-injective _ _ e)
logged_type-column unknown e = absurd (ground arith)

logged_type-none : (t : UtType) → logged_type t ≡ none → is_logged t ≡ false
unfolding is_logged
logged_type-none empty e = refl
logged_type-none run_lvl e = absurd (ground arith)
logged_type-none boot_time e = refl
logged_type-none new_time e = refl
logged_type-none old_time e = refl
logged_type-none init_process e = refl
logged_type-none login_process e = absurd (ground arith)
logged_type-none user_process e = absurd (ground arith)
logged_type-none dead_process e = absurd (ground arith)
logged_type-none unknown e = refl

module _ (env : Env) (writable : Writable env) (room : 284 ≤ env.bufsiz) where
  pub log_text-Logged :
      (text : Bytes) (s : Server)
      → Fits 283 text
      → Returns (λ _ s'. Logged text s s') (log_text env text s)
  unfolding log_text
  log_text-Logged text s fits =
      let zeros : Bytes = replicate env.bufsiz 0 in
      let size : length zeros ≡ env.bufsiz = length-replicate env.bufsiz _ in
      rw
        (
          defined-some _ _ (sprintf_lem zeros text (omega (arith, size, fits.1))),
          defined-some _ _ (c_string-append text (drop (suc (length text)) zeros) fits.0),
          die-pass _ _ (writable s.trace s.logfd text),
        )
        record {
          same_file = refl;
          same_heap = refl;
          same_entry = refl;
          line = written-write s.logfd env text s;
        }

  -- A text of fewer bytes than the widest column.
  Fits-283 : {n : ℕ} (text : Bytes) → n ≤ 283 → Fits n text → Fits 283 text
  Fits-283 text h fits = (fits.0, omega (arith, fits.1))

  -- The four columns of an entry of one of the four types, in order.
  columns-Logged :
      (ut : Utmpx) (s : Server)
      → IsEntry env ut
      → is_logged ut.ut_type ≡ true
      → Returns
          (λ _ s'.
            Logged (user_text ut ++ (type_column ut ++ (place_text ut ++ time_column env ut))) s s')
          (write_log env ut s)
  unfolding write_log
  columns-Logged ut s e kind =
      let (user, user_fits) = user_column-text ut e.user in
      let (place, place_fits) = place_columns-text env ut e in
      rw (kind, defined-some _ s user)
        (Returns-bind (log_text env (user_text ut) s) _ _ _
          (log_text-Logged _ s (Fits-283 _ (omega arith) user_fits))
          λ _ s1 h1.
            Returns-bind (log_text env (type_column ut) s1) _ _ _
              (log_text-Logged _ s1 (Fits-283 _ (omega arith) (type_column-Fits ut)))
              λ _ s2 h2. rw (defined-some _ s2 place) (
                Returns-bind (log_text env (place_text ut) s2) _ _ _
                  (log_text-Logged _ s2 place_fits)
                  λ _ s3 h3.
                    Returns-mono (log_text env (time_column env ut) s3) _ _
                      (log_text-Logged _ s3 (Fits-283 _ (omega arith) (time_column-Fits env ut e)))
                      λ _ s4 h4.
                        Logged-trans _ _ h1 (Logged-trans _ _ h2 (Logged-trans _ _ h3 h4))))

  write_log-other :
      (ut : Utmpx) (s : Server) → is_logged ut.ut_type ≡ false → write_log env ut s ≡ done tt s
  unfolding write_log
  write_log-other ut s other = rw other

  -- Where no write fails, with a buffer of 284 bytes at least and an entry with a NUL in its id, user
  -- and host, `write_log` adds the line of an entry of one of the four types to the log file, and
  -- nothing for any other; it changes no connection, and reads no entry.
  pub write_log-added :
      (ut : Utmpx) (s : Server)
      → IsEntry env ut
      → Returns (λ _ s'. Logged (added env ut) s s') (write_log env ut s)
  unfolding type_column time_column
  write_log-added ut s e = elim (Option-cases (logged_type ut.ut_type)) [
    | inl other ↦
        rw (write_log-other ut s (logged_type-none ut.ut_type other), other)
          record {
            same_file = refl;
            same_heap = refl;
            same_entry = refl;
            line = sym (append-nil _);
          }
    | inr (kind, named) ↦
        let (is, name) = logged_type-column ut.ut_type named in
        rw (named, ← name) (columns-Logged ut s e is)
  ]
