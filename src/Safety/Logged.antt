-- ===== src/Safety/Logged.antt =====
-- What a run of the loop of imonitor.c adds to the log file.
use imonitor.Base.{
  ◌≡◌, ◌∙◌, refl, sym, ap, inl, inr, true, false, some, List, [], ◌∷◌, ◌++◌, append-nil,
  append_assoc, Bytes, arith, ◌==ℤ◌, if◌then◌else◌, Bool-cases,
}
use imonitor.Sys.{
  Env, Server, Connection, Reply, Run, done, exit, fault, starved, Ensures, Ensures-both,
  Ensures-bind_done, Ensures-mono, Returns-Ensures, Yields, Ensures-Yields,
}
use imonitor.WEpoll.{fd_of}
use imonitor.Logfile.Line.{written, added, Writable}
use imonitor.Logfile.Change.{Readable, last_entry, dispatch-added}
use imonitor.Handlers.{handle_new_connection}
use imonitor.Main.{dispatch}
use imonitor.Transfer.Apart.{dispatch_all}
use imonitor.Safety.Frame.{Frame}
use imonitor.Safety.System.{System}
use imonitor.Safety.Valid.{Valid}
use imonitor.Safety.New.{handle_new_connection-Moves}
use imonitor.Safety.Apart.{connection_event}
use imonitor.Safety.NewWatch.{MallocFresh}
use imonitor.Safety.Events.{Genuine}
use imonitor.Safety.EventsWatch.{Delivered, Delivered-Genuine, dispatch-Kept}
use imonitor.Safety.Program.{Good}

-- Every event comes from a registration when it is delivered.
abbrev pub Reported : Env → List Reply → Server → Type 0
Reported env [] s = Unit
Reported env (rev ∷ revs) s =
    Delivered s rev × Yields (λ _ s1. Reported env revs s1) (dispatch env rev s)

-- The line that an event is to add to the log file: the one of the entry at the end of the login
-- database, if that has changed.
abbrev pub event_line : Env → Reply → Server → Bytes
event_line env rev s =
    if fd_of rev.word ==ℤ s.listenfd
    then []
    else if fd_of rev.word ==ℤ s.inotifyfd
    then added env (last_entry env s (fd_of rev.word))
    else []

abbrev behind : {A : Type 0} → Run A → (Server → Bytes) → Bytes
behind (done a s) k = k s
behind (exit s) k = []
behind (fault s) k = []
behind (starved s) k = []

-- The lines that the events are to add, in their order.
unfoldable pub event_lines : Env → List Reply → Server → Bytes
event_lines env [] s = []
event_lines env (rev ∷ revs) s =
    event_line env rev s ++ behind (dispatch env rev s) (λ s1. event_lines env revs s1)

-- The log file stays the same one, and the text is written to it.
record Adds (text : Bytes) (s s' : Server) : Type 0 where
  same_file : s'.logfd ≡ s.logfd
  line : written s.logfd s'.trace ≡ written s.logfd s.trace ++ text

Adds-nil : (s : Server) → Adds [] s s
Adds-nil s = record { same_file = refl; line = sym (append-nil _) }

Adds-trans :
    {s s1 s2 : Server} (xs ys : Bytes) → Adds xs s s1 → Adds ys s1 s2 → Adds (xs ++ ys) s s2
Adds-trans {s} xs ys h k = record {
  same_file = k.same_file ∙ h.same_file;
  line =
      (rw h.same_file at k.line)
      ∙ ap (λ l. l ++ ys) h.line
      ∙ append_assoc (written s.logfd s.trace) xs ys;
}

module _ (env : Env) (sys : System env) (malloc_fresh : MallocFresh env) (readable : Readable env)
    (writable : Writable env) where
  Adds-Frame : {p ctx : _} {s s' : Server} → Frame p ctx s s' → Adds [] s s'
  Adds-Frame {s = s} f = record {
    same_file = f.kept_logfd;
    line = f.unlogged s.logfd ∙ sym (append-nil _);
  }

  module _ (rev : Reply) (s : Server) (v : Valid env s)
      (a : (fd_of rev.word ==ℤ s.listenfd) ≡ false) where
    login-Adds :
        (fd_of rev.word ==ℤ s.inotifyfd) ≡ true
        → Ensures (λ _ s'. Adds (event_line env rev s) s s') (dispatch env rev s)
    login-Adds b =
        let large = sys.large in
        rw (a, b)
          (Ensures-mono (dispatch env rev s) _ _
            (Returns-Ensures (dispatch env rev s) _ (
              dispatch-added env readable writable (omega arith) s rev
                record { no_listener = a; inotify = b } (sys.read_entry _ _ _)))
            λ _ s' h. record { same_file = h.same_file; line = h.line })

    connection-Adds :
        (d : Connection)
        → s.heap rev.word ≡ some d
        → (fd_of rev.word ==ℤ s.inotifyfd) ≡ false
        → Ensures (λ _ s'. Adds (event_line env rev s) s s') (dispatch env rev s)
    connection-Adds d i b =
        rw (a, b)
          (Ensures-mono (dispatch env rev s) _ _ (connection_event env sys s v rev d i a b)
            λ _ s' (_, f). Adds-Frame f)

  -- An event adds its line.
  event-Adds :
      (rev : Reply) (s : Server)
      → Valid env s
      → Genuine s rev
      → Ensures (λ _ s'. Adds (event_line env rev s) s s') (dispatch env rev s)
  unfolding dispatch
  event-Adds rev s v g = elim (Bool-cases (fd_of rev.word ==ℤ s.listenfd)) [
    | inl a ↦ rw a (elim (Bool-cases rev.mask.epollin) [
      | inl input ↦ rw input (
          Ensures-mono (handle_new_connection env s) _ _ (handle_new_connection-Moves env sys s v)
            λ _ s' (_, entered). Adds-Frame entered.frame)
      | inr none_in ↦ rw none_in (Adds-nil s)
    ])
    | inr a ↦ elim (Bool-cases (fd_of rev.word ==ℤ s.inotifyfd)) [
      | inl b ↦ login-Adds rev s v a b
      | inr b ↦ elim g [
        | inl l ↦ absurd (ground arith)
        | inr (inl i) ↦ absurd (ground arith)
        | inr (inr (d, i)) ↦ connection-Adds rev s v a d i b
      ]
    ]
  ]

  events-Adds :
      (revs : List Reply) (s : Server)
      → Good env s
      → Reported env revs s
      → Ensures (λ _ s'. Adds (event_lines env revs s) s s') (dispatch_all env revs s)
  unfolding dispatch_all event_lines
  events-Adds [] s good from = Adds-nil s
  events-Adds (rev ∷ revs) s (v, r) (from, more) =
      let genuine = Delivered-Genuine env sys malloc_fresh s v r rev from in
      Ensures-bind_done (dispatch env rev s) _ _ _
        (Ensures-Yields (dispatch env rev s) _ _
          (Ensures-both (dispatch env rev s) _ _ (event-Adds rev s v genuine)
            (dispatch-Kept env sys malloc_fresh s v r rev from))
          more)
        λ _ s1 ran ((adds, ((v1, _), r1)), next).
          Ensures-mono (dispatch_all env revs s1) _ _ (events-Adds revs s1 (v1, r1) next)
            λ _ s2 rest. rw ran (Adds-trans _ _ adds rest)

  -- What a run of events adds to the log file. On a system as memory safety asks for it, where
  -- `malloc` returns no address that is allocated, the login database opens, and no read and no
  -- write to a file fails, from a state between two events where both invariants hold, through any
  -- events that each come from a registration, new connections and events of connections in whatever
  -- state among them: either the process ends by DIE, or all events return, and what was written to
  -- the log file is, in the order of the events, the lines of the entries at the login database's end
  -- at those events that tell of a change, as far as they are of one of the four types, and nothing
  -- else.
  pub dispatch_all-event_lines :
      (revs : List Reply) (s : Server)
      → Good env s
      → Reported env revs s
      → Ensures
          (λ _ s'. written s.logfd s'.trace ≡ written s.logfd s.trace ++ event_lines env revs s)
          (dispatch_all env revs s)
  dispatch_all-event_lines revs s good from =
      Ensures-mono (dispatch_all env revs s) _ _ (events-Adds revs s good from) λ _ s' h. h.line
