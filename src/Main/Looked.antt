-- ===== src/Main/Looked.antt =====
-- The first step of `main` of imonitor.c: the log file that it looks for, and the one that it writes.
use imonitor.Base.{
  ℕ, not, ◌<◌, ◌≤◌, ◌≡◌, refl, false, some, List, [], ◌∷◌, codes, ℤ, negsuc, is_neg, ◌==ℤ◌, length,
}
use imonitor.Sys.{
  Env, Server, Trace, Utmpx, Returns, called, defined-some, access, open_file, o_rdwr, o_creat,
}
use imonitor.Logfile.{auth_log_path}
use imonitor.Logfile.Line.{written, Writable}
use imonitor.Logfile.Entries.{AllEntries, Database, log_lines, create_logfile-lines}
use imonitor.Main.{start_log}

-- Where `access` of `/auth.log` fails, whatever the system answers for `./auth.log`, that log file
-- opens and no write fails, with a buffer of 284 bytes at least, a database whose entries have a
-- NUL in their ids, users and hosts and fuel for each of them, and nothing written to the file's descriptor before: the first
-- step of the start returns, and has written to the log file the lines of the entries that are logged,
-- in the order of the database.
pub start_log-lines :
    (env : Env)
    → Writable env
    → 284 ≤ env.bufsiz
    → (db : List Utmpx) → Database env db
    → AllEntries env db
    → (fuel : ℕ) (s : Server) {file : ℤ} → length db < fuel
    → (env.reply s.trace (access (codes "/auth.log"))).rc ≡ negsuc 0
    → ((t : Trace) → (env.reply t (open_file auth_log_path (o_rdwr ∷ o_creat ∷ []))).rc ≡ file)
    → is_neg file ≡ false
    → written file s.trace ≡ []
    → Returns
        (λ _ s'. (s'.logfd ≡ file) × (written file s'.trace ≡ log_lines env db))
        (start_log env fuel s)
unfolding start_log written
start_log-lines env writable room db database all fuel s enough missing opens valid fresh =
    let s1 : Server = called env (access (codes "/auth.log")) s in
    let found = not ((env.reply s.trace (access (codes "/auth.log"))).rc ==ℤ negsuc 0) in
    let gone : found ≡ false = rw missing refl in
    rw (defined-some (some (codes "/auth.log")) s refl, gone)
      (create_logfile-lines env writable room db database fuel s1 all enough opens valid fresh)
