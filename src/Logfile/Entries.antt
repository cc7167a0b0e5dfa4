-- ===== src/Logfile/Entries.antt =====
-- `create_logfile`: the log file of a whole login database.
use imonitor.Base.{
  ℕ, zero, suc, ◌+◌, ◌<◌, ◌≤◌, ◌≡◌, refl, sym, ap, ◌∙◌, ◌++◌, append-nil, append_assoc, some, none,
  List, [], ◌∷◌, Bytes, ℤ, is_neg, false, arith, length, get_elem?, drop, drop-drop,
}
use imonitor.Sys.{
  Env, Server, Trace, Utmpx, getutxent, open_file, o_rdwr, o_creat, Returns, Returns-bind,
  Returns-mono, called, die-pass, utmpxname, setutxent, done, ◌>>◌,
}
use imonitor.Logfile.{write_log, log_entries, create_logfile, auth_log_path}
use imonitor.Logfile.Columns.{IsEntry}
use imonitor.Logfile.Line.{written, added, Writable, entries_read, Logged, write_log-added}

-- `getutxent` goes through the entries `db`, from the start behind `setutxent`.
abbrev pub Database : Env → List Utmpx → Type 0
Database env db = (t : Trace) → (env.reply t getutxent).entry ≡ get_elem? db (entries_read t)

abbrev pub AllEntries : Env → List Utmpx → Type 0
AllEntries env [] = Unit
AllEntries env (ut ∷ uts) = IsEntry env ut × AllEntries env uts

-- The log of a list of entries.
abbrev pub log_lines : Env → List Utmpx → Bytes
log_lines env [] = []
log_lines env (ut ∷ uts) = added env ut ++ log_lines env uts

get_elem?-drop : (db : List Utmpx) (k : ℕ) → get_elem? db k ≡ get_elem? (drop k db) 0
get_elem?-drop [] zero = refl
get_elem?-drop [] (suc k) = refl
get_elem?-drop (ut ∷ db) zero = refl
get_elem?-drop (ut ∷ db) (suc k) = get_elem?-drop db k

drop_next :
    (db : List Utmpx) (k : ℕ) {ut : Utmpx} {uts : List Utmpx}
    → drop k db ≡ ut ∷ uts
    → drop (suc k) db ≡ uts
drop_next db k h =
    ap (λ n. drop n db) {x = suc k} {y = k + 1} (omega arith)
    ∙ sym (drop-drop k 1 db)
    ∙ ap (drop 1) h

pub log_entries-none :
    (env : Env) (fuel : ℕ) (s : Server)
    → (env.reply s.trace getutxent).entry ≡ none
    → log_entries env (suc fuel) s ≡ done tt (called env getutxent s)
unfolding log_entries
log_entries-none env fuel s h = rw h

pub log_entries-some :
    (env : Env) (fuel : ℕ) (s : Server) {ut : Utmpx}
    → (env.reply s.trace getutxent).entry ≡ some ut
    → log_entries env (suc fuel) s
      ≡ (write_log env ut >> log_entries env fuel) (called env getutxent s)
unfolding log_entries
log_entries-some env fuel s h = rw h

Logged-getutxent :
    (env : Env) (text : Bytes) {s s' : Server}
    → Logged text (called env getutxent s) s'
    → (s'.logfd ≡ s.logfd) × (written s.logfd s'.trace ≡ written s.logfd s.trace ++ text)
unfolding written
Logged-getutxent env text h = (h.same_file, h.line)

module _ (env : Env) (writable : Writable env) (room : 284 ≤ env.bufsiz) (db : List Utmpx)
    (database : Database env db) where
  -- The entry that the next call yields.
  next_entry :
      (s : Server) {uts : List Utmpx}
      → drop (entries_read s.trace) db ≡ uts
      → (env.reply s.trace getutxent).entry ≡ get_elem? uts 0
  next_entry s left = database s.trace ∙ get_elem?-drop db _ ∙ ap (λ l. get_elem? l 0) left

  -- With fuel for every entry that is left the loop ends, and their lines are written in order.
  log_entries-lines :
      (fuel : ℕ) (uts : List Utmpx) (s : Server)
      → AllEntries env uts
      → drop (entries_read s.trace) db ≡ uts
      → length uts < fuel
      → Returns
          (λ _ s'.
            (s'.logfd ≡ s.logfd)
            × (written s.logfd s'.trace ≡ written s.logfd s.trace ++ log_lines env uts))
          (log_entries env fuel s)
  log_entries-lines zero uts s e left enough = absurd (omega arith)
  log_entries-lines (suc fuel) [] s e left enough =
      rw (log_entries-none env fuel s (next_entry s left)) (
        Logged-getutxent env [] {s = s} {s' = called env getutxent s} record {
          same_file = refl;
          same_heap = refl;
          same_entry = refl;
          line = sym (append-nil _);
        })
  log_entries-lines (suc fuel) (ut ∷ uts) s e left enough =
      rw (log_entries-some env fuel s (next_entry s left)) (
        Returns-bind (write_log env ut (called env getutxent s)) _ _ _
          (write_log-added env writable room ut (called env getutxent s) e.0)
          λ _ s1 h1.
            let (same, first) = Logged-getutxent env (added env ut) h1 in
            Returns-mono (log_entries env fuel s1) _ _
              (log_entries-lines fuel uts s1 e.1
                (ap (λ n. drop n db) h1.same_entry ∙ drop_next db _ left) (omega arith))
              λ _ s2 (same2, later). (
                same2 ∙ same,
                (rw same at later)
                    ∙ ap (λ l. l ++ log_lines env uts) first
                    ∙ append_assoc _ (added env ut) (log_lines env uts),
              ))

  -- Where the log file opens and no write fails, with a buffer of 284 bytes at least, a database whose
  -- entries have a NUL in their ids, users and hosts and fuel for each of them, `create_logfile` returns: the new log file
  -- holds the lines of the entries that are logged, in the order of the database.
  pub create_logfile-lines :
      (fuel : ℕ) (s : Server) {file : ℤ}
      → AllEntries env db
      → length db < fuel
      → ((t : Trace) → (env.reply t (open_file auth_log_path (o_rdwr ∷ o_creat ∷ []))).rc ≡ file)
      → is_neg file ≡ false
      → written file s.trace ≡ []
      → Returns
          (λ _ s'. (s'.logfd ≡ file) × (written file s'.trace ≡ log_lines env db))
          (create_logfile env fuel s)
  unfolding create_logfile written
  create_logfile-lines fuel s {file} e enough opens valid fresh =
      let open_log = open_file auth_log_path (o_rdwr ∷ o_creat ∷ []) in
      let s1 : Server = record (called env open_log s) {
        logfd = (env.reply s.trace open_log).rc;
      } in
      let s2 : Server = called env setutxent (called env (utmpxname env.path_wtmp) s1) in
      rw (die-pass (is_neg (env.reply s.trace open_log).rc) s1 (rw (opens s.trace) valid)) (
        Returns-bind (log_entries env fuel s2) _ _ _ (log_entries-lines fuel db s2 e refl enough)
          λ _ s3 (same, lines). (
            same ∙ opens s.trace,
            (rw (opens s.trace) at lines) ∙ ap (λ l. l ++ log_lines env db) fresh,
          ))
