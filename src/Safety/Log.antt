-- ===== src/Safety/Log.antt =====
-- The log: `write_log` and the branch of the loop for it leave the connections alone.
use imonitor.Base.{
  ℕ, suc, ◌≡◌, ◌≤◌, refl, ap, ◌∙◌, ◌∷◌, [], Bytes, ℤ, arith, is_neg, length, length-replicate, drop,
  replicate, Bool-cases, inl, inr,
}
use mathlib.Core.Option
use imonitor.Sys.{
  Env, Server, Utmpx, Ensures, Ensures-bind, Ensures-mono, Ensures-die, die-Same, die, called,
  defined-some, sprintf_lem, write, read, open_file, o_rdonly, lseek, seek_end,
}
use imonitor.Utils.Text.{c_string-append}
use imonitor.Logfile.{is_logged, type_column, time_column, log_text, write_log}
use imonitor.Logfile.Columns.{
  Fits, IsEntry, user_text, place_text, user_column-text, place_columns-text, type_column-Fits,
  time_column-Fits,
}
use imonitor.Logfile.Line.{entries_read}
use imonitor.Main.{handle_inotify, minus, zero_utmpx}
use imonitor.Safety.Valid.{Valid, Valid-Mute, Mute, Mute-called, Mute-trans, Mute-refl}
use imonitor.Safety.Next.{Moves, login_changed, logged, phases}
use imonitor.Safety.System.{System}

-- The same as `Mute`, and no entry of the login database is read.
abbrev pub Silent : Server → Server → Type 0
Silent s s' = Mute s s' × (entries_read s'.trace ≡ entries_read s.trace)

Silent-trans : {s s1 s2 : Server} → Silent s s1 → Silent s1 s2 → Silent s s2
Silent-trans f g = (Mute-trans f.0 g.0, g.1 ∙ f.1)

module _ (env : Env) (room : 284 ≤ env.bufsiz) where
  log_text-Silent :
      (n : ℕ) (text : Bytes) (s : Server)
      → n ≤ 283
      → Fits n text
      → Ensures (λ _ s'. Silent s s') (log_text env text s)
  unfolding log_text
  log_text-Silent n text s h fits =
      let zeros : Bytes = replicate env.bufsiz 0 in
      let size : length zeros ≡ env.bufsiz = length-replicate env.bufsiz _ in
      let s1 : Server = called env (write s.logfd text) s in
      rw
        (
          defined-some _ _ (sprintf_lem zeros text (omega (arith, size, fits.1))),
          defined-some _ _ (c_string-append text (drop (suc (length text)) zeros) fits.0),
        )
        (Ensures-mono (die (is_neg (env.reply s.trace (write s.logfd text)).rc) s1) _ _
          (die-Same _ s1) λ _ s2 e. rw e (Mute-called env (write s.logfd text) s refl, refl))

  -- Whatever the writes return, `write_log` of an entry leaves the connections alone.
  pub write_log-Silent :
      (ut : Utmpx) (s : Server)
      → IsEntry env ut
      → Ensures (λ _ s'. Silent s s') (write_log env ut s)
  unfolding write_log
  write_log-Silent ut s e = elim (Bool-cases (is_logged ut.ut_type)) [
    | inl kind ↦
        let (user, user_fits) = user_column-text ut e.user in
        let (place, place_fits) = place_columns-text env ut e in
        rw (kind, defined-some _ s user)
          (Ensures-bind (log_text env (user_text ut) s) _ _ _
            (log_text-Silent 33 _ s (omega arith) user_fits)
            λ _ s1 h1.
              Ensures-bind (log_text env (type_column ut) s1) _ _ _
                (log_text-Silent 10 _ s1 (omega arith) (type_column-Fits ut))
                λ _ s2 h2. rw (defined-some _ s2 place) (
                  Ensures-bind (log_text env (place_text ut) s2) _ _ _
                    (log_text-Silent 283 _ s2 (omega arith) place_fits)
                    λ _ s3 h3.
                      Ensures-mono (log_text env (time_column env ut) s3) _ _
                        (log_text-Silent 27 _ s3 (omega arith) (time_column-Fits env ut e))
                        λ _ s4 h4. Silent-trans h1 (Silent-trans h2 (Silent-trans h3 h4))))
    | inr other ↦ rw other (Mute-refl s, refl)
  ]

-- A change of the login database keeps the invariant.
pub handle_inotify-Moves :
    (env : Env) (sys : System env) (fd : ℤ) (s : Server)
    → Valid env s
    → Ensures
        (λ _ s'. (Valid env s' × Moves login_changed (phases s) (phases s')) × Mute s s')
        (handle_inotify env fd s)
unfolding handle_inotify
handle_inotify-Moves env sys fd s v =
    let s1 : Server = called env (read fd env.bufsiz) s in
    let open_wtmp = open_file env.path_wtmp (o_rdonly ∷ []) in
    let wtmp = (env.reply s1.trace open_wtmp).rc in
    let s2 : Server = called env open_wtmp s1 in
    let seek = lseek wtmp (minus env.sizeof_utmpx) seek_end in
    let s3 : Server = called env seek s2 in
    let entry = Option.get_or (env.reply s3.trace (read wtmp env.sizeof_utmpx)).entry zero_utmpx in
    let s4 : Server = called env (read wtmp env.sizeof_utmpx) s3 in
    let quiet = Mute-trans (Mute-called env (read fd env.bufsiz) s refl) (
      Mute-trans (Mute-called env open_wtmp s1 refl) (
        Mute-trans (Mute-called env seek s2 refl)
          (Mute-called env (read wtmp env.sizeof_utmpx) s3 refl))) in
    Ensures-die _ s1 _ _ λ _. Ensures-die _ s2 _ _ λ _. Ensures-die _ s4 _ _ λ _.
      Ensures-mono (write_log env entry s4) _ _
        (write_log-Silent env sys.large entry s4 (sys.read_entry s3.trace wtmp env.sizeof_utmpx))
        λ _ s5 m.
          let whole = Mute-trans quiet m.0 in
          (
            (
              Valid-Mute v whole,
              logged λ q. ap (λ h. phases (record s { heap = h }) q) whole.same_heap,
            ),
            whole,
          )
