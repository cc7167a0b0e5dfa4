-- ===== src/Safety/ReceiveEffects.antt =====
-- What a request changes of the interest list.
use imonitor.Base.{
  ℕ, zero, suc, ◌-◌, Bool-cases, inl, inr, ◌≡◌, ◌≢◌, refl, ◌∙◌, Bool, true, false, none, some, ℤ,
  pos, arith, is_neg, ◌==ℤ◌, ==ℤ_iff,
}
use imonitor.Sys.{
  Env, Server, Connection, state_connection_closed, EpollEvent, Yields, Yields-bind, Yields-mono,
  Yields-die, Call, io_submit, epoll_ctl, close, malloc_connection, free, called, recv,
  Yields-defined, die, load, load-some, update, memcpy_at,
}
use imonitor.WEpoll.Interest.{interest}
use imonitor.Request.{receive_once, receive_loop, abandon}
use imonitor.Safety.Contained.{contained}
use imonitor.Safety.Registered.{allocated}
use imonitor.Safety.Work.{InTransfer}
use imonitor.Safety.Effects.{Unwatching, Unwatching-trans}

-- A call that may change the interest list, or what is allocated, or that submits an operation.
abbrev pub is_watch : Call → Bool
is_watch (epoll_ctl ep op fd ev) = true
is_watch (close fd) = true
is_watch malloc_connection = true
is_watch (free q) = true
is_watch (io_submit ctx b) = true
is_watch c = false

pub Unwatching-called :
    (env : Env) (c : Call) (s : Server) → is_watch c ≡ false → Unwatching s (called env c s)
unfolding allocated contained
Unwatching-called env c s h = record {
  same_epollfd = refl;
  same_interest = λ fd. ground arith;
  same_allocated = λ q. ground arith;
  same_contained = ground arith;
}

-- The connection at `p` has the same socket and eventfd, and nothing is registered.
pub record Handled (p : ℕ) (c : Connection) (s s' : Server) : Type 0 where
  pub kept_listenfd : s'.listenfd ≡ s.listenfd
  pub kept_inotifyfd : s'.inotifyfd ≡ s.inotifyfd
  pub others : (q : ℕ) → q ≢ p → s'.heap q ≡ s.heap q
  pub watching : Unwatching s s'
  pub connection : Connection
  pub live : s'.heap p ≡ some connection
  pub same_socket : connection.sockfd ≡ c.sockfd
  pub idle : (InTransfer c → ⊥) → InTransfer connection → ⊥

pub Handled-trans :
    {p : ℕ} {c : Connection} {s s1 s2 : Server} (f : Handled p c s s1)
    → Handled p f.connection s1 s2
    → Handled p c s s2
Handled-trans f g = record {
  kept_listenfd = g.kept_listenfd ∙ f.kept_listenfd;
  kept_inotifyfd = g.kept_inotifyfd ∙ f.kept_inotifyfd;
  others = λ q e. g.others q e ∙ f.others q e;
  watching = Unwatching-trans f.watching g.watching;
  connection = g.connection;
  live = g.live;
  same_socket = g.same_socket ∙ f.same_socket;
  idle = λ h. g.idle (f.idle h);
}

module _ (env : Env) (p : ℕ) where
  -- A call that changes nothing of the interest list, and perhaps a store.
  pub called-Handled :
      (call : Call) (s : Server) (c c' : Connection)
      → is_watch call ≡ false
      → s.heap p ≡ some c
      → c'.sockfd ≡ c.sockfd
      → ((InTransfer c → ⊥) → InTransfer c' → ⊥)
      → let s1 : Server = called env call s in
        Handled p c s s1 × Handled p c s (record s1 { heap = update s1.heap p (some c') })
  called-Handled call s c c' h live sock idle =
      let u = Unwatching-called env call s h in
      (
        record {
          kept_listenfd = refl;
          kept_inotifyfd = refl;
          others = λ q e. refl;
          watching = u;
          connection = c;
          live = live;
          same_socket = refl;
          idle = λ i. i;
        },
        record {
          kept_listenfd = refl;
          kept_inotifyfd = refl;
          others = λ q e. ground arith;
          watching = record {
            same_epollfd = refl;
            same_interest = λ fd. u.same_interest fd;
            same_allocated = λ q. u.same_allocated q;
            same_contained = u.same_contained;
          };
          connection = c';
          live = ground arith;
          same_socket = sock;
          idle = idle;
        },
      )

  receive_once-Handled :
      (offset : ℕ) (s : Server) (c : Connection)
      → s.heap p ≡ some c
      → Yields (λ _ s'. Handled p c s s') (receive_once env p offset s)
  unfolding receive_once
  receive_once-Handled offset s c h =
      let call = recv c.sockfd (env.bufsiz - offset) in
      let r = env.reply s.trace call in
      let same = called-Handled call s c in
      rw (load-some p s h) (elim (Bool-cases (is_neg r.rc)) [
        | inl failed ↦ rw failed (same c refl h refl λ i. i).0
        | inr fine ↦ elim (Bool-cases (r.rc ==ℤ pos 0)) [
          | inl closed ↦ rw (fine, closed) (same c refl h refl λ i. i).0
          | inr some_bytes ↦
              rw (fine, some_bytes)
                (Yields-defined (memcpy_at c.recv_buffer offset r.bytes) _ _ _ λ a _.
                  Yields-die _ _ _ _ λ _.
                    Yields-defined _ _ _ _
                      λ more _. (same (record c { recv_buffer = a }) refl h refl λ i. i).1)
        ]
      ])

  pub receive_loop-Handled :
      (fuel offset : ℕ) (s : Server) (c : Connection)
      → s.heap p ≡ some c
      → Yields (λ _ s'. Handled p c s s') (receive_loop env fuel p offset s)
  unfolding receive_loop
  receive_loop-Handled zero offset s c h = tt
  receive_loop-Handled (suc fuel) offset s c h =
      Yields-bind (receive_once env p offset s) _ _ _ (receive_once-Handled offset s c h)
        λ (end, total, more) s1 f. elim (Bool-cases more) [
          | inl again ↦ rw again (
              Yields-mono (receive_loop env fuel p total s1) _ _
                (receive_loop-Handled fuel total s1 f.connection f.live)
                λ _ s2 g. Handled-trans f g)
          | inr over ↦ rw over f
        ]

  pub abandon-interest :
      (s : Server) (c : Connection)
      → s.heap p ≡ some c
      → Yields
          (λ state s'.
            (state ≡ state_connection_closed)
            × ((s'.listenfd ≡ s.listenfd)
                × ((s'.inotifyfd ≡ s.inotifyfd)
                    × (((q : ℕ) → q ≢ p → s'.heap q ≡ s.heap q)
                        × ((s'.heap p ≡ none)
                            × ((s'.epollfd ≡ s.epollfd)
                                × (((fd : ℤ) (e : EpollEvent)
                                      → interest s.epollfd s'.trace fd ≡ some e
                                      → (interest s.epollfd s.trace fd ≡ some e) × (fd ≢ c.sockfd))
                                    × (((q : ℕ)
                                          → q ≢ p
                                          → allocated q s'.trace ≡ allocated q s.trace)
                                        × (contained s'.trace ≡ contained s.trace)))))))))
          (abandon env p s)
  unfolding abandon load die allocated contained
  abandon-interest s c h = grind (arith, ==ℤ_iff)
