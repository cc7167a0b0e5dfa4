-- ===== src/Safety/Registered.antt =====
-- What epoll watches between two events: every registration is for the listening socket, for the
-- login database, or for a descriptor of an allocated connection.
use imonitor.Base.{
  ℕ, ◌≡◌, ◌≢◌, ap, sym, ◌∙◌, Bool, true, false, none, some, [], ◌∷◌, ℤ, arith, ◌==ℤ◌, ◌==◌,
  if◌then◌else◌, length, ◌≤◌, ◌⊎◌, inl, inr, Bool-cases,
}
use mathlib.Core.Option.{some-injective}
use imonitor.Sys.{Server, Connection, Trace, EpollEvent, malloc_connection, free, state_sending}
use imonitor.WEpoll.{fd_of}
use imonitor.WEpoll.Interest.{interest}
use imonitor.Safety.Frame.{Frame}
use imonitor.Safety.Contained.{contained}
use imonitor.Safety.Valid.{same_address}
use imonitor.Safety.Work.{InTransfer}

-- The addresses that `malloc` has returned for connections and `free` has not been given.
unfoldable pub allocated : ℕ → Trace → Bool
allocated p [] = false
allocated p ((malloc_connection, r) ∷ t) = if r.word == p then true else allocated p t
allocated p ((free q, r) ∷ t) = if q == p then false else allocated p t
allocated p (e ∷ t) = allocated p t

-- The bytes that the connection sends next are in its buffer: of a header, and of what was read last.
abbrev pub HeaderFits : Connection → Type 0
HeaderFits c = InTransfer c → c.header_size ≤ length c.send_buffer

abbrev pub Counted : Connection → Type 0
Counted c = c.state ≡ state_sending → c.is_header ≡ 0 → c.read_data ≤ length c.send_buffer

-- A registration belongs to a connection: its socket, or the eventfd of an operation under way.
abbrev pub Owned : Connection → ℤ → EpollEvent → Type 0
Owned c fd ev = (fd ≡ c.sockfd) ⊎ ((fd ≡ c.eventfd) × ((ev.events.epollout ≡ false) × InTransfer c))

-- The payload of a connection, no descriptor that the loop compares with.
abbrev pub Plain : Server → ℕ → Type 0
Plain s payload =
    ((fd_of payload ==ℤ s.listenfd) ≡ false) × ((fd_of payload ==ℤ s.inotifyfd) ≡ false)

abbrev pub Known : Server → ℤ → EpollEvent → Type 0
Known s fd ev =
    Plain s ev.payload → (c : Connection) × ((s.heap ev.payload ≡ some c) × Owned c fd ev)

abbrev pub Watch : Server → ℤ → EpollEvent → Type 0
Watch s fd ev = interest s.epollfd s.trace fd ≡ some ev

-- A header in the buffer of the connection fits there, and where the connection is registered for
-- output, what it is to send does.
abbrev pub Sized : Server → ℕ → Connection → Type 0
Sized s p c =
    HeaderFits c
    × ((fd : ℤ) (ev : EpollEvent)
        → Watch s fd ev
        → ev.payload ≡ p
        → ev.events.epollout ≡ true
        → Counted c)

-- Every registration is known, a connection with a registration for output has no other one, every
-- connection in the heap is allocated, what a connection is to send is in its buffer, and no write
-- that was submitted reaches past its array.
pub record Registered (s : Server) : Type 0 where
  pub known : (fd : ℤ) (ev : EpollEvent) → Watch s fd ev → Known s fd ev
  pub single :
      (fd other : ℤ) (ev ev2 : EpollEvent)
      → Watch s fd ev
      → Watch s other ev2
      → ev2.payload ≡ ev.payload
      → Plain s ev.payload
      → ev.events.epollout ≡ true
      → other ≡ fd
  pub live : (p : ℕ) (c : Connection) → s.heap p ≡ some c → allocated p s.trace ≡ true
  pub sized : (p : ℕ) (c : Connection) → s.heap p ≡ some c → Sized s p c
  pub writes : contained s.trace ≡ true

-- A step that changes one connection: a registration behind it is one of that connection, or stood
-- before and is none of its.
pub record Rewatched (p : ℕ) (s s' : Server) : Type 0 where
  pub same_listenfd : s'.listenfd ≡ s.listenfd
  pub same_inotifyfd : s'.inotifyfd ≡ s.inotifyfd
  pub others : (q : ℕ) → q ≢ p → s'.heap q ≡ s.heap q
  pub same_allocated : (q : ℕ) → q ≢ p → allocated q s'.trace ≡ allocated q s.trace
  pub here : (c : Connection) → s'.heap p ≡ some c → allocated p s'.trace ≡ true
  pub sized_here : (c : Connection) → s'.heap p ≡ some c → Sized s' p c
  pub writes : contained s'.trace ≡ true
  pub watched :
      (fd : ℤ) (ev : EpollEvent)
      → Watch s' fd ev
      → ((ev.payload ≡ p) × Known s' fd ev) ⊎ (Watch s fd ev × (ev.payload ≢ p))
  pub alone :
      (fd other : ℤ) (ev ev2 : EpollEvent)
      → Watch s' fd ev
      → Watch s' other ev2
      → ev.payload ≡ p
      → ev2.payload ≡ p
      → Plain s p
      → ev.events.epollout ≡ true
      → other ≡ fd

module _ {p : ℕ} {s s' : Server} (r : Registered s) (w : Rewatched p s s') where
  Plain-back : (a : ℕ) → Plain s' a → Plain s a
  Plain-back a h = (rw w.same_listenfd at h.0, rw w.same_inotifyfd at h.1)

  Known-behind : (fd : ℤ) (ev : EpollEvent) → Watch s' fd ev → Known s' fd ev
  Known-behind fd ev h plain = elim (w.watched fd ev h) [
    | inl own ↦ own.1 plain
    | inr (old, other) ↦
        let (c, (at, owned)) = r.known fd ev old (Plain-back ev.payload plain) in
        (c, (w.others ev.payload other ∙ at, owned))
  ]

  single_behind :
      (fd other : ℤ) (ev ev2 : EpollEvent)
      → Watch s' fd ev
      → Watch s' other ev2
      → ev2.payload ≡ ev.payload
      → Plain s' ev.payload
      → ev.events.epollout ≡ true
      → other ≡ fd
  single_behind fd other ev ev2 h i same plain out =
      let before = Plain-back ev.payload plain in
      elim (w.watched fd ev h) [
        | inl own ↦ w.alone fd other ev ev2 h i own.0 (same ∙ own.0) (rw own.0 at before) out
        | inr (old, apart) ↦ elim (w.watched other ev2 i) [
          | inl own2 ↦ absurd (apart (sym same ∙ own2.0))
          | inr (old2, apart2) ↦ r.single fd other ev ev2 old old2 same before out
        ]
      ]

  live_behind : (q : ℕ) (c : Connection) → s'.heap q ≡ some c → allocated q s'.trace ≡ true
  live_behind q c h = elim (Bool-cases (q == p)) [
    | inl e ↦ let same : q ≡ p = ground arith in rw same (w.here c (rw same at h))
    | inr e ↦
        let other : q ≢ p = ground arith in
        w.same_allocated q other ∙ r.live q c (sym (w.others q other) ∙ h)
  ]

  Sized-behind : (q : ℕ) (c : Connection) → s'.heap q ≡ some c → Sized s' q c
  Sized-behind q c h = elim (same_address p q) [
    | inl e ↦ rw e (w.sized_here c (rw e at h))
    | inr other ↦
        let old = r.sized q c (sym (w.others q other) ∙ h) in
        (
          old.0,
          λ fd ev watch e out. elim (w.watched fd ev watch) [
            | inl own ↦ absurd (other (sym e ∙ own.0))
            | inr (before, _) ↦ old.1 fd ev before e out
          ],
        )
  ]

  pub Registered-step : Registered s'
  Registered-step = record {
    known = Known-behind;
    single = single_behind;
    live = live_behind;
    sized = Sized-behind;
    writes = w.writes;
  }

-- All registrations of the connection at `p` are for its socket.
abbrev pub OnlySocket : ℕ → Connection → Server → Type 0
OnlySocket p c s = (fd : ℤ) (ev : EpollEvent) → Watch s fd ev → ev.payload ≡ p → fd ≡ c.sockfd

module _ {p : ℕ} {s : Server} (r : Registered s) {c : Connection} (h : s.heap p ≡ some c)
    (plain : Plain s p) where
  -- What a registration for the connection at `p` belongs to.
  pub owner : (fd : ℤ) (ev : EpollEvent) → Watch s fd ev → ev.payload ≡ p → Owned c fd ev
  owner fd ev w e =
      let (d, (found, owned)) = r.known fd ev w (rw e plain) in
      let same : d ≡ c = some-injective d c (sym (rw e at found) ∙ h) in rw same at owned

  -- Behind an event for output every registration is for the socket.
  pub out-OnlySocket :
      (fd : ℤ) (ev : EpollEvent)
      → Watch s fd ev
      → ev.payload ≡ p
      → ev.events.epollout ≡ true
      → OnlySocket p c s
  out-OnlySocket fd ev w e out other ev2 w2 e2 =
      r.single fd other ev ev2 w w2 (e2 ∙ sym e) (rw e plain) out ∙ elim (owner fd ev w e) [
        | inl socket ↦ socket
        | inr (eventfd, (no_out, transfer)) ↦ absurd (ground arith)
      ]

  -- Where no operation is under way every registration is for the socket.
  pub idle-OnlySocket : (InTransfer c → ⊥) → OnlySocket p c s
  idle-OnlySocket idle fd ev w e = elim (owner fd ev w e) [
    | inl socket ↦ socket
    | inr (eventfd, (no_out, transfer)) ↦ absurd (idle transfer)
  ]

-- A step changes at most the connection at `p`, and no descriptor that the loop compares with.
pub record Kept (p : ℕ) (s s' : Server) : Type 0 where
  pub kept_listenfd : s'.listenfd ≡ s.listenfd
  pub kept_inotifyfd : s'.inotifyfd ≡ s.inotifyfd
  pub others : (q : ℕ) → q ≢ p → s'.heap q ≡ s.heap q

pub Frame-Kept : {p ctx : ℕ} {s s' : Server} → Frame p ctx s s' → Kept p s s'
Frame-Kept f = record {
  kept_listenfd = f.kept_listenfd;
  kept_inotifyfd = f.kept_inotifyfd;
  others = f.others;
}

-- A step that keeps the connection at `p` allocated.
pub Rewatched-live :
    {p : ℕ} {s s' : Server} {c c' : Connection}
    → Registered s
    → s.heap p ≡ some c
    → Kept p s s'
    → s'.heap p ≡ some c'
    → ((q : ℕ) → allocated q s'.trace ≡ allocated q s.trace)
    → ((fd : ℤ) (ev : EpollEvent) → Watch s' fd ev → ev.payload ≡ p → Owned c' fd ev)
    → ((fd : ℤ) (ev : EpollEvent) → Watch s' fd ev → ev.payload ≢ p → Watch s fd ev)
    → ((fd other : ℤ) (ev ev2 : EpollEvent)
        → Watch s' fd ev
        → Watch s' other ev2
        → ev.payload ≡ p
        → ev2.payload ≡ p
        → ev.events.epollout ≡ true
        → other ≡ fd)
    → Sized s' p c'
    → contained s'.trace ≡ true
    → Rewatched p s s'
Rewatched-live {p} {s'} {c} {c'} r h f live alloc own old alone sized writes = record {
  same_listenfd = f.kept_listenfd;
  same_inotifyfd = f.kept_inotifyfd;
  others = f.others;
  same_allocated = λ q _. alloc q;
  here = λ d _. alloc p ∙ r.live p c h;
  sized_here = λ d e. let same : d ≡ c' = some-injective d c' (sym e ∙ live) in rw same sized;
  writes = writes;
  watched = λ fd ev w. elim (same_address p ev.payload) [
    | inl e ↦ inl (e, λ _. (c', (ap s'.heap e ∙ live, own fd ev w e)))
    | inr other ↦ inr (old fd ev w other, other)
  ];
  alone = λ fd other ev ev2 w w2 e e2 _ out. alone fd other ev ev2 w w2 e e2 out;
}

module _ {p : ℕ} {s s' : Server} (r : Registered s) (f : Kept p s s') {c : Connection}
    (h : s.heap p ≡ some c) where
  -- Behind the step all registrations of the connection are for its socket.
  pub socket-Registered :
      {c' : Connection}
      → s'.heap p ≡ some c'
      → c'.sockfd ≡ c.sockfd
      → ((q : ℕ) → allocated q s'.trace ≡ allocated q s.trace)
      → ((fd : ℤ) (ev : EpollEvent) → Watch s' fd ev → ev.payload ≡ p → fd ≡ c.sockfd)
      → ((fd : ℤ) (ev : EpollEvent) → Watch s' fd ev → ev.payload ≢ p → Watch s fd ev)
      → Sized s' p c'
      → contained s'.trace ≡ true
      → Registered s'
  socket-Registered live sock alloc settled old sized writes = Registered-step r (
      Rewatched-live r h f live alloc (λ fd ev w e. inl (settled fd ev w e ∙ sym sock)) old
        (λ fd other ev ev2 w w2 e e2 out. settled other ev2 w2 e2 ∙ sym (settled fd ev w e)) sized
        writes)

  -- The connection is freed, and no registration of it is left.
  pub gone-Registered :
      s'.heap p ≡ none
      → ((q : ℕ) → q ≢ p → allocated q s'.trace ≡ allocated q s.trace)
      → ((fd : ℤ) (ev : EpollEvent) → Watch s' fd ev → Watch s fd ev × (ev.payload ≢ p))
      → contained s'.trace ≡ true
      → Registered s'
  gone-Registered gone alloc old writes = Registered-step r record {
    same_listenfd = f.kept_listenfd;
    same_inotifyfd = f.kept_inotifyfd;
    others = f.others;
    same_allocated = alloc;
    here = λ d e. absurd (ground arith);
    sized_here = λ d e. absurd (ground arith);
    writes = writes;
    watched = λ fd ev w. inr (old fd ev w);
    alone = λ fd other ev ev2 w w2 e e2 _ out. absurd ((old fd ev w).1 e);
  }
