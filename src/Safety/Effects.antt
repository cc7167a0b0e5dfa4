-- ===== src/Safety/Effects.antt =====
-- What the handlers of a transfer change of the interest list.
use imonitor.Base.{
  ℕ, Bytes, drop, ◌≤◌, ◌==◌, length, ◌∙◌, ◌≡◌, ◌≢◌, refl, Bool, true, false, Option, some, ℤ, arith,
  ◌==ℤ◌, ==ℤ_iff, if◌then◌else◌, ◌⊎◌, inl, inr, Bool-cases,
}
use imonitor.Sys.{
  Mask, Env, Server, Connection, ConnectionState, state_reading, state_sending, Ensures, Yields,
  Yields-bind, Yields-defined, c_string, strlen, load-some, state_sending, defined, die, load,
  eventfd, EpollEvent,
}
use imonitor.WEpoll.{epollin, epollout, epollinpri}
use imonitor.WEpoll.Interest.{interest}
use imonitor.Safety.Contained.{contained}
use imonitor.Safety.Registered.{allocated}
use imonitor.Utils.{is_file, write_http200_header, write_http404_header}
use imonitor.Handlers.{start_header, start_file, start_missing, work, resume, finish}

-- A step after which the interest list and the allocations are as before.
pub record Unwatching (s s' : Server) : Type 0 where
  pub same_epollfd : s'.epollfd ≡ s.epollfd
  pub same_interest : (fd : ℤ) → interest s.epollfd s'.trace fd ≡ interest s.epollfd s.trace fd
  pub same_allocated : (q : ℕ) → allocated q s'.trace ≡ allocated q s.trace
  pub same_contained : contained s'.trace ≡ contained s.trace

pub Unwatching-trans : {s s1 s2 : Server} → Unwatching s s1 → Unwatching s1 s2 → Unwatching s s2
Unwatching-trans f g = record {
  same_epollfd = g.same_epollfd ∙ f.same_epollfd;
  same_interest = λ fd. (rw f.same_epollfd at g.same_interest fd) ∙ f.same_interest fd;
  same_allocated = λ q. g.same_allocated q ∙ f.same_allocated q;
  same_contained = g.same_contained ∙ f.same_contained;
}

is_file-Unwatching :
    (env : Env) (buffer : Bytes) (s : Server)
    → Yields (λ _ s'. Unwatching s s' × (s'.heap ≡ s.heap)) (is_file env buffer s)
unfolding is_file allocated contained
is_file-Unwatching env buffer s = Yields-defined (c_string (drop 1 buffer)) s _ _ λ path _. (
  record {
    same_epollfd = refl;
    same_interest = λ fd. refl;
    same_allocated = λ q. refl;
    same_contained = refl;
  },
  refl,
)

-- What an operation under way leaves of the interest list.
abbrev pub busy : Env → (p : ℕ) → Server → Connection → ℤ → Option EpollEvent
busy env p s c fd =
    if c.sockfd ==ℤ fd
    then some (record { events = epollin; payload = p })
    else if (env.reply s.trace eventfd).rc ==ℤ fd
    then some (record { events = epollinpri; payload = p })
    else interest s.epollfd s.trace fd

pub busy-cases :
    (env : Env) (p : ℕ) (s : Server) (c : Connection) (fd : ℤ) (ev : EpollEvent)
    → busy env p s c fd ≡ some ev
    → ((ev.payload ≡ p)
        × ((ev.events.epollout ≡ false)
            × ((fd ≡ c.sockfd) ⊎ (fd ≡ (env.reply s.trace eventfd).rc))))
      ⊎ ((interest s.epollfd s.trace fd ≡ some ev) × (fd ≢ c.sockfd))
busy-cases env p s c fd ev h = elim (Bool-cases (c.sockfd ==ℤ fd)) [
  | inl e ↦ inl (grind (arith, ==ℤ_iff))
  | inr e ↦ elim (Bool-cases ((env.reply s.trace eventfd).rc ==ℤ fd)) [
    | inl f ↦ inl (grind (arith, ==ℤ_iff))
    | inr f ↦ inr (grind (arith, ==ℤ_iff))
  ]
]

-- One descriptor has been registered, and the others are as before.
pub set-cases :
    (p : ℕ) (sock fd : ℤ) (mask : Mask) (ev : EpollEvent) {old : Option EpollEvent}
    → (if sock ==ℤ fd then some (record { events = mask; payload = p }) else old) ≡ some ev
    → ((ev.payload ≡ p) × (fd ≡ sock)) ⊎ (old ≡ some ev)
set-cases p sock fd mask ev h = elim (Bool-cases (sock ==ℤ fd)) [
  | inl e ↦ inl (grind (arith, ==ℤ_iff))
  | inr e ↦ inr (ground arith)
]

module _ (env : Env) (p : ℕ) (s : Server) (c : Connection) (h : s.heap p ≡ some c) where
  pub reading-busy :
      c.state ≡ state_reading
      → Ensures
          (λ _ s'.
            (s'.epollfd ≡ s.epollfd)
            × (((fd : ℤ) → interest s.epollfd s'.trace fd ≡ busy env p s c fd)
                × (((q : ℕ) → allocated q s'.trace ≡ allocated q s.trace)
                    × (contained s'.trace ≡ contained s.trace))))
          (work env state_reading p s)
  unfolding work die load allocated contained
  reading-busy e = grind (arith, ==ℤ_iff)

  pub sending-busy :
      c.state ≡ state_sending
      → (if c.is_header == 0 then c.read_data else c.header_size) ≤ length c.send_buffer
      → Ensures
          (λ _ s'.
            (s'.epollfd ≡ s.epollfd)
            × (((fd : ℤ) → interest s.epollfd s'.trace fd ≡ busy env p s c fd)
                × (((q : ℕ) → allocated q s'.trace ≡ allocated q s.trace)
                    × (contained s'.trace ≡ contained s.trace))))
          (work env state_sending p s)
  unfolding work die load allocated contained
  sending-busy e fits = grind (arith, ==ℤ_iff)

  pub resume-interest :
      (c1 : Connection) (next : ConnectionState)
      → Ensures
          (λ _ s'.
            (s'.epollfd ≡ s.epollfd)
            × (((fd : ℤ)
                  → interest s.epollfd s'.trace fd ≡ (
                      if c1.sockfd ==ℤ fd
                      then some (record { events = epollout; payload = p })
                      else interest s.epollfd s.trace fd))
                × (((q : ℕ) → allocated q s'.trace ≡ allocated q s.trace)
                    × (contained s'.trace ≡ contained s.trace))))
          (resume env p c1 next s)
  unfolding resume die load allocated contained
  resume-interest c1 next = grind (arith, ==ℤ_iff)

  start_missing-interest :
      (s1 : Server)
      → Yields
          (λ c' s'. Unwatching s1 s' × ((s'.heap ≡ s1.heap) × (c'.sockfd ≡ c.sockfd)))
          (start_missing env c s1)
  unfolding start_missing defined allocated write_http404_header contained
  start_missing-interest s1 = grind arith

  start_file-interest :
      (s1 : Server)
      → Yields
          (λ c' s'. Unwatching s1 s' × ((s'.heap ≡ s1.heap) × (c'.sockfd ≡ c.sockfd)))
          (start_file env c s1)
  unfolding start_file die defined allocated write_http200_header contained
  start_file-interest s1 = grind arith

  header_interest :
      (b : Bool) (s1 : Server)
      → Yields
          (λ c' s'. Unwatching s1 s' × ((s'.heap ≡ s1.heap) × (c'.sockfd ≡ c.sockfd)))
          ((if b then start_file env c else start_missing env c) s1)
  header_interest true s1 = start_file-interest s1
  header_interest false s1 = start_missing-interest s1

  pub start_header-interest :
      Yields
        (λ _ s'.
          Unwatching s s' × ((c' : Connection) × ((s'.heap p ≡ some c') × (c'.sockfd ≡ c.sockfd))))
        (start_header env p s)
  unfolding start_header allocated contained
  start_header-interest = rw (load-some p s h) (
      Yields-bind (is_file env c.request_path s) _ _ _ (is_file-Unwatching env c.request_path s)
        λ found s1 (u1, h1).
          Yields-bind ((if found then start_file env c else start_missing env c) s1) _ _ _
            (header_interest found s1)
            λ c' s2 (u2, (h2, sock)). Yields-defined (strlen c'.send_buffer) s2 _ _ λ n _.
              let both = Unwatching-trans u1 u2 in
              let c2 : Connection = record c' {
                state = state_sending;
                header_size = n;
                is_header = 1;
              } in
              (
                record {
                  same_epollfd = both.same_epollfd;
                  same_interest = λ fd. both.same_interest fd;
                  same_allocated = λ q. both.same_allocated q;
                  same_contained = both.same_contained;
                },
                (c2, (ground arith, sock)),
              ))

  pub finish-interest :
      (c1 : Connection)
      → Ensures
          (λ _ s'.
            (s'.epollfd ≡ s.epollfd)
            × (((fd : ℤ) (ev : EpollEvent)
                  → interest s.epollfd s'.trace fd ≡ some ev
                  → (interest s.epollfd s.trace fd ≡ some ev) × (fd ≢ c1.sockfd))
                × (((q : ℕ) → q ≢ p → allocated q s'.trace ≡ allocated q s.trace)
                    × (contained s'.trace ≡ contained s.trace))))
          (finish env p c1 s)
  unfolding finish die load allocated contained
  finish-interest c1 = grind (arith, ==ℤ_iff)
