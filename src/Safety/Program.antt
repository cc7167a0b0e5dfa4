-- ===== src/Safety/Program.antt =====
-- The whole program: `main` of imonitor.c, from its start through any number of events.
use imonitor.Base.{
  ℕ, zero, suc, ◌≡◌, ◌<◌, refl, ap, ◌∙◌, true, false, some, none, ℤ, List, arith, length, is_neg,
}
use imonitor.Sys.{
  Env, Server, Trace, Utmpx, EpollEvent, Ensures, Ensures-both, Ensures-bind, Ensures-mono,
  Ensures-die, called, epoll_wait,
}
use imonitor.WEpoll.Interest.{interest}
use imonitor.Logfile.Entries.{Database, AllEntries}
use imonitor.Main.{start_log, start_waiting, start, dispatch, serve_once, serve, main}
use imonitor.Safety.Valid.{Valid, Mute-called, Mute-trans, Valid-Mute}
use imonitor.Safety.System.{System}
use imonitor.Safety.Next.{Event, Moves, Phases, phases, event_of}
use imonitor.Safety.Boot.{start_log-Mute, start_waiting-Mute}
use imonitor.Safety.Contained.{contained}
use imonitor.Safety.Registered.{allocated, Registered}
use imonitor.Safety.NewWatch.{MallocFresh}
use imonitor.Safety.LogWatch.{Untouched-called, Registered-Untouched}
use imonitor.Safety.EventsWatch.{dispatch-Kept}
use imonitor.Safety.BootWatch.{Kernel, start_waiting-Registered}

-- Any number of events.
pub data Runs : Phases → Phases → Type 0 where
  stop : {before after : Phases} → ((q : ℕ) → after q ≡ before q) → Runs before after
  next :
      {before after : Phases} (event : Event) (between : Phases)
      → Moves event before between
      → Runs between after
      → Runs before after

-- `epoll_wait` reports a registration: its payload, and EPOLLOUT only where that is asked for.
abbrev pub Reports : Env → Type 0
Reports env =
    (t : Trace) (ep : ℤ)
    → let rev = env.reply t (epoll_wait ep) in
      is_neg rev.rc ≡ false
      → (fd : ℤ) × ((ev : EpollEvent) × ((interest ep t fd ≡ some ev)
            × ((ev.payload ≡ rev.word) × (rev.mask.epollout ≡ true → ev.events.epollout ≡ true))))

-- The two invariants of the server between two events.
abbrev pub Good : Env → Server → Type 0
Good env s = Valid env s × Registered s

module _ (env : Env) (sys : System env) (malloc_fresh : MallocFresh env)
    (reports : Reports env) where
  serve_once-Moves :
      (s : Server)
      → Good env s
      → Ensures
          (λ _ s'. Good env s' × ((event : Event) × Moves event (phases s) (phases s')))
          (serve_once env s)
  unfolding serve_once allocated
  serve_once-Moves s (v, r) =
      let rev = env.reply s.trace (epoll_wait s.epollfd) in
      let s1 : Server = called env (epoll_wait s.epollfd) s in
      let v1 = Valid-Mute v (Mute-called env (epoll_wait s.epollfd) s refl) in
      let r1 = Registered-Untouched r (Untouched-called env (epoll_wait s.epollfd) s refl) in
      Ensures-die _ s1 _ _ λ ok.
        Ensures-mono (dispatch env rev s1) _ _
          (dispatch-Kept env sys malloc_fresh s1 v1 r1 rev (reports s.trace s.epollfd ok))
          λ _ s2 ((v2, m), r2). ((v2, r2), (event_of s1 rev, m))

  -- The loop keeps both invariants, and is a run of the protocol.
  pub serve-Runs :
      (rounds : ℕ) (s : Server)
      → Good env s
      → Ensures (λ _ s'. Good env s' × Runs (phases s) (phases s')) (serve env rounds s)
  unfolding serve
  serve-Runs zero s g = (g, stop λ q. refl)
  serve-Runs (suc rounds) s g =
      Ensures-bind (serve_once env s) _ _ _ (serve_once-Moves s g) λ _ s1 (g1, (event, m)).
        Ensures-mono (serve env rounds s1) _ _ (serve-Runs rounds s1 g1)
          λ _ s2 (g2, rest). (g2, next event (phases s1) m rest)

-- Before the start no connection is allocated.
pub record Empty (env : Env) (s : Server) : Type 0 where
  pub no_connection : (p : ℕ) → s.heap p ≡ none
  pub path_size : length s.request_path ≡ env.bufsiz
  pub no_write : contained s.trace ≡ true

Empty-Valid : {env : Env} {s : Server} → Empty env s → Valid env s
Empty-Valid e = record {
  path_size = e.path_size;
  sound = λ p c h. absurd (grind (arith, e.no_connection));
  apart = λ p q c d h i same. absurd (grind (arith, e.no_connection));
}

-- The start leaves the invariants, and no connection.
start-Good :
    (env : Env) (sys : System env) (kernel : Kernel env) (db : List Utmpx)
    (database : Database env db) (all : AllEntries env db) (fuel : ℕ)
    → length db < fuel
    → (s : Server) → Empty env s
    → Ensures (λ _ s'. Good env s' × (s'.heap ≡ s.heap)) (start env fuel s)
unfolding start
start-Good env sys kernel db database all fuel enough s empty =
    Ensures-bind (start_log env fuel s) _ _ _
      (start_log-Mute env sys.large db database all fuel s enough)
      λ _ s1 logged.
        Ensures-mono (start_waiting env s1) _ _
          (Ensures-both (start_waiting env s1) _ _ (start_waiting-Mute env s1)
            (start_waiting-Registered env kernel s1))
          λ _ s2 (waiting, registered).
            let m = Mute-trans logged waiting in
            (
              (
                Valid-Mute (Empty-Valid empty) m,
                registered (λ p. ap (λ h. h p) m.same_heap ∙ empty.no_connection p)
                    (m.same_contained ∙ empty.no_write),
              ),
              m.same_heap,
            )

-- On a system where requests are shorter than the buffer (of 284 bytes at least, below 2 GB) and come
-- in segments of four bytes or more, peers have IPv4 addresses, URLs fit in the buffer, no finished
-- operation counts or yields more bytes than it asked for, `malloc` and `io_setup` return nothing that
-- is in use, descriptors are in the range of `int`, a new epoll instance is empty and `epoll_wait`
-- reports registrations, with a login database whose entries have a NUL in their ids, users and hosts
-- and fuel for each of them, from a state with no connections and no writes: the program never faults from its start through any number
-- of events, so it reads and writes inside its arrays, and no event reaches a connection that has been
-- freed. It ends by DIE, or it has served all of the events, both invariants hold, the states of all
-- connections have gone through a run of the protocol that began without connections, and no write
-- that was submitted asks for more bytes than stand in its buffer.
pub main-Runs :
    (env : Env)
    → System env
    → Kernel env
    → MallocFresh env
    → Reports env
    → (db : List Utmpx) → Database env db
    → AllEntries env db
    → (fuel rounds : ℕ) → length db < fuel
    → (s : Server) → Empty env s
    → Ensures
        (λ _ s'. Good env s' × (Runs (phases s) (phases s') × (contained s'.trace ≡ true)))
        (main env fuel rounds s)
unfolding main
main-Runs env sys kernel malloc_fresh reports db database all fuel rounds enough s empty =
    Ensures-bind (start env fuel s) _ _ _
      (start-Good env sys kernel db database all fuel enough s empty)
      λ _ s2 (g, same).
        Ensures-mono (serve env rounds s2) _ _ (serve-Runs env sys malloc_fresh reports rounds s2 g)
          λ _ s3 (g3, runs). (g3, (rw same at runs, g3.1.writes))
