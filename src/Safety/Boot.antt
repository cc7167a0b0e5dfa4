-- ===== src/Safety/Boot.antt =====
-- The start of the server: `create_logfile`, and what `main` does before its loop.
use imonitor.Base.{
  ℕ, drop, not, false, ◌==ℤ◌, negsuc, zero, suc, ◌-◌, ◌≡◌, ◌<◌, ◌≤◌, refl, sym, ◌∙◌, inl, inr, some,
  List, [], ◌∷◌, ℤ, arith, Bool-cases, Option-cases, length, get_elem?,
}
use mathlib.Core.Option.{some-injective}
use imonitor.Sys.{
  Call, defined-some, Env, Server, Utmpx, Ensures, Ensures-bind, Ensures-mono, Ensures-die, called,
  getutxent, endutxent, utmpxname, setutxent, open_file, o_rdwr, o_creat, access, die,
}
use imonitor.Aio.{submitted}
use imonitor.Transfer.Defs.{delivered}
use imonitor.Logfile.{auth_log_path, log_entries, create_logfile, write_log}
use imonitor.Logfile.Columns.{IsEntry}
use imonitor.Logfile.Line.{entries_read}
use imonitor.Logfile.Entries.{Database, AllEntries, log_entries-none, log_entries-some}
use imonitor.Main.{start_log, start_waiting}
use imonitor.Safety.Frame.{alive, is_aio, submitted-called, alive-called, delivered-called}
use imonitor.Safety.Contained.{contained, contained-called}
use imonitor.Safety.Valid.{Mute, Mute-called, Mute-trans}
use imonitor.Safety.Log.{write_log-Silent}

-- A call whose result is kept as the log file.
Mute-logfd :
    (env : Env) (c : Call) (fd : ℤ) (s : Server)
    → is_aio c ≡ false
    → Mute s (record (called env c s) { logfd = fd })
Mute-logfd env c fd s h = record {
  same_heap = refl;
  same_path = refl;
  ops = λ k. submitted-called env c s k h;
  contexts = λ k. alive-called env c s k h;
  sent = λ sock k. delivered-called env c s sock k h;
  same_contained = contained-called env c s h;
}

-- An entry that is there, and its place.
AllEntries-IsEntry :
    (env : Env) (db : List Utmpx) (k : ℕ) {ut : Utmpx}
    → AllEntries env db
    → get_elem? db k ≡ some ut
    → IsEntry env ut × (k < length db)
AllEntries-IsEntry env [] k all h = absurd (ground arith)
AllEntries-IsEntry env (u ∷ db) zero {ut} all h = (rw (some-injective u ut h) at all.0, omega arith)
AllEntries-IsEntry env (u ∷ db) (suc k) all h =
    let (e, small) = AllEntries-IsEntry env db k all.1 h in (e, omega arith)

module _ (env : Env) (room : 284 ≤ env.bufsiz) (db : List Utmpx) (database : Database env db)
    (all : AllEntries env db) where
  log_entries-Mute :
      (fuel : ℕ) (s : Server)
      → length db - entries_read s.trace < fuel
      → Ensures (λ _ s'. Mute s s') (log_entries env fuel s)
  log_entries-Mute zero s enough = absurd (omega arith)
  log_entries-Mute (suc fuel) s enough =
      let s1 : Server = called env getutxent s in
      let read = Mute-called env getutxent s refl in
      elim (Option-cases (env.reply s.trace getutxent).entry) [
        | inl over ↦ rw (log_entries-none env fuel s over) read
        | inr (ut, e) ↦
            let (entry, small) =
              AllEntries-IsEntry env db (entries_read s.trace) all (sym (database s.trace) ∙ e) in
            rw (log_entries-some env fuel s e) (
              Ensures-bind (write_log env ut s1) _ _ _ (write_log-Silent env room ut s1 entry)
                λ _ s2 (m, same).
                  Ensures-mono (log_entries env fuel s2) _ _
                    (log_entries-Mute fuel s2 (omega (arith, same)))
                    λ _ s3 rest. Mute-trans read (Mute-trans m rest))
      ]

  create_logfile-Mute :
      (fuel : ℕ) (s : Server)
      → length db < fuel
      → Ensures (λ _ s'. Mute s s') (create_logfile env fuel s)
  unfolding create_logfile
  create_logfile-Mute fuel s enough =
      let open_log = open_file auth_log_path (o_rdwr ∷ o_creat ∷ []) in
      let s1 : Server = record (called env open_log s) {
        logfd = (env.reply s.trace open_log).rc;
      } in
      let s2 : Server = called env (utmpxname env.path_wtmp) s1 in
      let s3 : Server = called env setutxent s2 in
      let before : Mute s s3 = Mute-trans (Mute-logfd env open_log _ s refl) (
        Mute-trans (Mute-called env (utmpxname env.path_wtmp) s1 refl)
          (Mute-called env setutxent s2 refl)) in
      Ensures-die _ s1 _ _ λ _.
        Ensures-bind (log_entries env fuel s3) _ _ _ (log_entries-Mute fuel s3 (omega arith))
          λ _ s4 read. Mute-trans before (Mute-trans read (Mute-called env endutxent s4 refl))

  pub start_log-Mute :
      (fuel : ℕ) (s : Server)
      → length db < fuel
      → Ensures (λ _ s'. Mute s s') (start_log env fuel s)
  unfolding start_log
  start_log-Mute fuel s enough =
      let found = not ((env.reply s.trace (access (drop 1 auth_log_path))).rc ==ℤ negsuc 0) in
      let s1 : Server = called env (access (drop 1 auth_log_path)) s in
      let looked = Mute-called env (access (drop 1 auth_log_path)) s refl in
      let open_log = open_file auth_log_path (o_rdwr ∷ []) in
      rw (defined-some (some (drop 1 auth_log_path)) s refl) (elim (Bool-cases found) [
        | inl there ↦ rw there (Mute-trans looked (Mute-logfd env open_log _ s1 refl))
        | inr missing ↦ rw missing (
            Ensures-mono (create_logfile env fuel s1) _ _ (create_logfile-Mute fuel s1 enough)
              λ _ s2 m. Mute-trans looked m)
      ])

-- Opening and registering the descriptors of the loop.
pub start_waiting-Mute :
    (env : Env) (s : Server) → Ensures (λ _ s'. Mute s s') (start_waiting env s)
unfolding start_waiting die submitted alive delivered contained
start_waiting-Mute env s = grind arith
