-- ===== src/Safety/Apart.antt =====
-- What an event of another connection leaves of a connection: everything.
use imonitor.Base.{ℕ, ◌≡◌, ◌≢◌, sym, ap, ◌∙◌, inl, inr, true, false, some, arith, ◌==ℤ◌, Bool-cases}
use imonitor.Sys.{Env, Server, Connection, Reply, Ensures, Ensures-mono, Ensures-Yields}
use imonitor.WEpoll.{fd_of}
use imonitor.Handlers.{handle_epollin, handle_work, handle_new_connection}
use imonitor.Main.{dispatch, handle_inotify}
use imonitor.Transfer.Apart.{Apart, Apart-refl}
use imonitor.Safety.Frame.{Frame, alive}
use imonitor.Safety.Valid.{Valid, Mute}
use imonitor.Safety.System.{System}
use imonitor.Safety.Registered.{allocated, Registered}
use imonitor.Safety.NewWatch.{MallocFresh}
use imonitor.Safety.New.{Entered, handle_new_connection-Moves}
use imonitor.Safety.Log.{handle_inotify-Moves}
use imonitor.Safety.LogWatch.{handle_inotify-Untouched, Untouched}
use imonitor.Safety.Work.{handle_work-Step}
use imonitor.Safety.Events.{Genuine, handle_epollin-Step}

pub Apart-Frame :
    {p q ctx k : ℕ} {s s' : Server} → Frame q k s s' → p ≢ q → ctx ≢ k → Apart p ctx s s'
Apart-Frame {p} {ctx = ctx} f other context = record {
  same_here = f.others p other;
  same_op = f.ops ctx context;
  same_sent = λ sock. f.sent sock ctx context;
  kept = (f.kept_listenfd, f.kept_inotifyfd, f.kept_epollfd);
}

module _ (env : Env) (sys : System env) (s : Server) (v : Valid env s) where
  -- An event of a connection keeps the invariant, and changes nothing but that connection and its
  -- context.
  pub connection_event :
      (rev : Reply) (d : Connection)
      → s.heap rev.word ≡ some d
      → (fd_of rev.word ==ℤ s.listenfd) ≡ false
      → (fd_of rev.word ==ℤ s.inotifyfd) ≡ false
      → Ensures (λ _ s'. Valid env s' × Frame rev.word d.ctx s s') (dispatch env rev s)
  unfolding dispatch
  connection_event rev d i a b =
      rw (a, b)
        (elim (Bool-cases rev.mask.epollout) [
          | inl out ↦ rw out (
              Ensures-mono (handle_work env rev.word s) _ _
                (handle_work-Step env sys s v rev.word d i)
                λ _ s' step. (step.valid, rw (step.own d i) step.frame))
          | inr no_out ↦ rw no_out (elim (Bool-cases rev.mask.epollin) [
            | inl input ↦ rw input (
                Ensures-mono (handle_epollin env rev.word s) _ _
                  (handle_epollin-Step env sys s v rev.word d i)
                  λ _ s' step. (step.valid, rw (step.own d i) step.frame))
            | inr no_in ↦ rw no_in tt
          ])
        ])

module _ (env : Env) (sys : System env) (malloc_fresh : MallocFresh env) (s : Server)
    (v : Valid env s) (r : Registered s) (p : ℕ) (c : Connection) (h : s.heap p ≡ some c) where
  -- A new connection.
  Apart-Entered : {s' : Server} → Entered env s s' → Apart p c.ctx s s'
  Apart-Entered e =
      let mine = r.live p c h in
      let open_context = (v.sound p c h).open_context in
      let new_address : allocated e.p s.trace ≡ false =
        sym (e.before e.p)
        ∙ ap (λ q. allocated q e.t) e.from_malloc
        ∙ malloc_fresh e.t e.not_null in
      Apart-Frame e.frame
        (λ same.
          let clash : true ≡ false = sym mine ∙ ap (λ q. allocated q s.trace) same ∙ new_address in
          ground arith)
        (λ same.
          let clash : true ≡ false =
            sym open_context ∙ ap (λ k. alive k s.trace) same ∙ e.new_context in
          ground arith)

  -- A change of the login database.
  Apart-Mute : {s' : Server} → Mute s s' → Untouched s s' → Apart p c.ctx s s'
  Apart-Mute m u = record {
    same_here = ap (λ x. x p) m.same_heap;
    same_op = m.ops c.ctx;
    same_sent = λ sock. m.sent sock c.ctx;
    kept = (u.same_listenfd, u.same_inotifyfd, u.watching.same_epollfd);
  }

  -- On a system as described where `malloc` returns no address that is allocated, between two
  -- events where both invariants hold: an event for the listening socket, for the login database
  -- or for another connection, in whatever state that is, leaves the connection at `p` as it was:
  -- the record itself, the operation that its context has submitted last, what its context has
  -- delivered to any descriptor, and the descriptors that the loop compares with. The process may
  -- end by DIE, and never faults.
  pub dispatch-Apart :
      (rev : Reply)
      → Genuine s rev
      → rev.word ≢ p
      → Ensures (λ _. Apart p c.ctx s) (dispatch env rev s)
  unfolding dispatch
  dispatch-Apart rev g other = elim (Bool-cases (fd_of rev.word ==ℤ s.listenfd)) [
    | inl a ↦ rw a (elim (Bool-cases rev.mask.epollin) [
      | inl input ↦ rw input (
          Ensures-mono (handle_new_connection env s) _ _ (handle_new_connection-Moves env sys s v)
            λ _ s' (_, entered). Apart-Entered entered)
      | inr none_in ↦ rw none_in (Apart-refl p c.ctx s)
    ])
    | inr a ↦ elim (Bool-cases (fd_of rev.word ==ℤ s.inotifyfd)) [
      | inl b ↦
          rw (a, b)
            (Ensures-mono (handle_inotify env (fd_of rev.word) s) _ _
              (Ensures-Yields (handle_inotify env (fd_of rev.word) s) _ _
                (handle_inotify-Moves env sys (fd_of rev.word) s v)
                (handle_inotify-Untouched env (fd_of rev.word) s))
              λ _ s' ((_, m), u). Apart-Mute m u)
      | inr b ↦ elim g [
        | inl l ↦ absurd (ground arith)
        | inr (inl i) ↦ absurd (ground arith)
        | inr (inr (d, i)) ↦
            Ensures-mono (dispatch env rev s) _ _ (connection_event env sys s v rev d i a b)
              λ _ s' (_, f).
                Apart-Frame f (λ e. other (sym e)) λ e. other (sym (v.apart p rev.word c d h i e))
      ]
    ]
  ]
