-- ===== src/Safety/NewWatch.antt =====
-- A new connection keeps the registrations of epoll in order.
use imonitor.Base.{
  ap, ℕ, ◌≡◌, ◌≢◌, refl, sym, ◌∙◌, ◌⊎◌, inl, inr, true, false, some, ℤ, arith, is_neg, ◌==ℤ◌,
  ==ℤ_iff, ◌==◌, replicate, Bool-cases,
}
use imonitor.Sys.{
  Env, Server, Connection, Trace, state_new_conn, Ensures, Ensures-mono, Ensures-die, die-Same,
  Ensures-bind, load-some, called, update, accept, fcntl_getfl, fcntl_setfl, fprintf_stderr,
  malloc_connection, io_setup, epoll_ctl, ctl_add, EpollEvent, die,
}
use imonitor.WEpoll.{epollin}
use imonitor.WEpoll.Interest.{interest}
use imonitor.Debug.{dprintf_text}
use imonitor.Handlers.{accepted_text, connection_create, handle_new_connection}
use imonitor.Safety.New.{created}
use mathlib.Core.Option.{some-injective}
use imonitor.Safety.Work.{InTransfer}
use imonitor.Safety.Valid.{same_address}
use imonitor.Safety.Contained.{contained}
use imonitor.Safety.Registered.{allocated, Plain, Watch, Registered, Registered-step}

-- `malloc` returns no address that is allocated.
abbrev pub MallocFresh : Env → Type 0
MallocFresh env =
    (t : Trace)
    → ((env.reply t malloc_connection).word == 0) ≡ false
    → allocated (env.reply t malloc_connection).word t ≡ false

pub no_transfer : (c : Connection) → c.state ≡ state_new_conn → InTransfer c → ⊥
no_transfer c e (inl h) = absurd (ground arith)
no_transfer c e (inr h) = absurd (ground arith)

-- A call of `epoll_ctl` that adds a registration.
pub added-cases :
    (env : Env) (s : Server) (sock fd : ℤ) (ev e : EpollEvent)
    → interest s.epollfd (called env (epoll_ctl s.epollfd ctl_add sock ev) s).trace fd ≡ some e
    → ((fd ≡ sock) × (ev ≡ e)) ⊎ (interest s.epollfd s.trace fd ≡ some e)
added-cases env s sock fd ev e w = elim (Bool-cases (sock ==ℤ fd)) [
  | inl h ↦
      elim (Bool-cases (is_neg (env.reply s.trace (epoll_ctl s.epollfd ctl_add sock ev)).rc)) [
        | inl failed ↦ inr (grind (arith, ==ℤ_iff))
        | inr ok ↦ inl (grind (arith, ==ℤ_iff))
      ]
  | inr h ↦ inr (grind (arith, ==ℤ_iff))
]

-- From `s` to `s'` the connection `c` is allocated at `p`, and nothing is registered.
record Allocated (p : ℕ) (c : Connection) (s s' : Server) : Type 0 where
  kept_listenfd : s'.listenfd ≡ s.listenfd
  kept_inotifyfd : s'.inotifyfd ≡ s.inotifyfd
  kept_epollfd : s'.epollfd ≡ s.epollfd
  others : (q : ℕ) → q ≢ p → s'.heap q ≡ s.heap q
  live : s'.heap p ≡ some c
  watch : (fd : ℤ) → interest s.epollfd s'.trace fd ≡ interest s.epollfd s.trace fd
  fresh : allocated p s.trace ≡ false
  here : allocated p s'.trace ≡ true
  other_contained : contained s'.trace ≡ contained s.trace
  new : c.state ≡ state_new_conn
  other_allocated : (q : ℕ) → q ≢ p → allocated q s'.trace ≡ allocated q s.trace

module _ (env : Env) (s : Server) (r : Registered s) (p : ℕ) (c : Connection) (s1 : Server)
    (a : Allocated p c s s1) where
  -- No registration is for the address of a new connection.
  none_before : (fd : ℤ) (ev : EpollEvent) → Watch s fd ev → ev.payload ≡ p → Plain s p → ⊥
  none_before fd ev w e plain =
      let (d, (found, _)) = r.known fd ev w (rw e plain) in
      let old : allocated p s.trace ≡ true = r.live p d (rw e at found) in
      absurd (ground (arith, a.fresh))

  added-Registered :
      let ev : EpollEvent = record { events = epollin; payload = p } in
      Registered (called env (epoll_ctl s1.epollfd ctl_add c.sockfd ev) s1)
  unfolding allocated contained
  added-Registered =
      let ev : EpollEvent = record { events = epollin; payload = p } in
      let back : (fd : ℤ) (e : EpollEvent)
          → interest s1.epollfd s1.trace fd ≡ some e
          → Watch s fd e =
        λ fd e w. sym (a.watch fd) ∙ ap (λ x. interest x s1.trace fd) (sym a.kept_epollfd) ∙ w in
      Registered-step r record {
        same_listenfd = a.kept_listenfd;
        same_inotifyfd = a.kept_inotifyfd;
        others = a.others;
        same_allocated = λ q e. a.other_allocated q e;
        here = λ d _. a.here;
        sized_here = λ d found.
            let same : d ≡ c = some-injective d c (sym found ∙ a.live) in
            rw same (
              (λ t. absurd (no_transfer c a.new t)),
              λ fd e w own out sending. absurd (no_transfer c a.new (inr sending)),
            );
        writes = a.other_contained ∙ r.writes;
        watched = λ fd e w. elim (added-cases env s1 c.sockfd fd ev e w) [
          | inl (at, same) ↦
              let own : e.payload ≡ p = ap {A = EpollEvent} (λ x. x.payload) (sym same) in
              inl (own, λ _. (c, (ap s1.heap own ∙ a.live, inl at)))
          | inr old ↦ elim (same_address p e.payload) [
            | inl own ↦ inl (
              own,
              λ plain. absurd (
                  none_before fd e (back fd e old) own
                    (rw (own, a.kept_listenfd) at plain.0, rw (own, a.kept_inotifyfd) at plain.1)),
            )
            | inr other ↦ inr (back fd e old, other)
          ]
        ];
        alone = λ fd other e e2 w w2 own own2 plain out.
            elim (added-cases env s1 c.sockfd fd ev e w) [
              | inl (at, same) ↦
                  let no_out : false ≡ e.events.epollout =
                    ap {A = EpollEvent} (λ x. x.events.epollout) same in
                  absurd (ground arith)
              | inr old ↦ absurd (none_before fd e (back fd e old) own plain)
            ];
      }

-- What `malloc` allocates.
allocated_here :
    (env : Env) (s : Server)
    → allocated (env.reply s.trace malloc_connection).word (called env malloc_connection s).trace
      ≡ true
unfolding allocated
allocated_here env s = ground arith

allocated_other :
    (env : Env) (s : Server) (q : ℕ)
    → q ≢ (env.reply s.trace malloc_connection).word
    → allocated q (called env malloc_connection s).trace ≡ allocated q s.trace
unfolding allocated
allocated_other env s q h = ground arith

-- A new connection keeps the registrations in order: its socket is the only descriptor that is
-- registered for it.
pub handle_new_connection-Registered :
    (env : Env) (s : Server)
    → MallocFresh env
    → Registered s
    → Ensures (λ _. Registered) (handle_new_connection env s)
unfolding handle_new_connection allocated contained
handle_new_connection-Registered env s malloc_fresh r =
    let a = env.reply s.trace (accept s.listenfd) in
    let sock = a.rc in
    let s1 : Server = called env (accept s.listenfd) s in
    let s2 : Server = called env (fcntl_getfl sock) s1 in
    let flags = (env.reply s1.trace (fcntl_getfl sock)).rc in
    let s3 : Server = called env (fcntl_setfl sock flags true) s2 in
    let line = dprintf_text "handle_new_connection" "imonitor.c" 134 (accepted_text a) in
    let s4 : Server = called env (fprintf_stderr line) s3 in
    let p = (env.reply s4.trace malloc_connection).word in
    let s5 : Server = called env malloc_connection s4 in
    let c0 : Connection = record (env.junk s4.trace) {
      sockfd = sock;
      recv_buffer = replicate env.bufsiz 0;
      send_buffer = replicate env.bufsiz 0;
    } in
    let s6 : Server = record s5 { heap = update s5.heap p (some c0) } in
    let c : Connection = record c0 {
      send_len = 0;
      is_header = 0;
      state = state_new_conn;
      ctx = (env.reply s5.trace io_setup).word;
    } in
    let s7 : Server = record (called env io_setup s6) { heap = update s6.heap p (some c) } in
    let ev : EpollEvent = record { events = epollin; payload = p } in
    let call = epoll_ctl s.epollfd ctl_add sock ev in
    Ensures-die _ s1 _ _ λ _.
      Ensures-bind (connection_create env sock s4) _
        (λ q s'.
          ((q ≡ p) × (s' ≡ s6)) × (((env.reply s4.trace malloc_connection).word == 0) ≡ false))
        _ (created env sock s4)
        λ q s' ((at, e), ok).
          let new : Allocated p c s s7 = record {
            kept_listenfd = refl;
            kept_inotifyfd = refl;
            kept_epollfd = refl;
            others = λ q other. ground arith;
            live = ground arith;
            watch = λ fd. refl;
            fresh = malloc_fresh s4.trace ok;
            here = allocated_here env s4;
            other_contained = refl;
            new = refl;
            other_allocated = λ q other. allocated_other env s4 q other;
          } in
          rw (at, e, load-some p s6 {c = c0} (ground arith))
            (Ensures-die _ s7 _ _ λ opened.
              Ensures-mono (die (is_neg (env.reply s7.trace call).rc) (called env call s7)) _ _
                (die-Same _ _) λ _ s8 last. rw last (added-Registered env s r p c s7 new))
