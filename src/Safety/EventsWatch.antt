-- ===== src/Safety/EventsWatch.antt =====
-- The loop: every event that epoll delivers is for something that is there, and keeps it so.
use imonitor.Base.{◌≡◌, inl, inr, refl, true, some, ℤ, ◌==ℤ◌, Bool-cases}
use imonitor.Sys.{
  Env, Server, Connection, ConnectionState, Reply, EpollEvent, Ensures, Yields, Ensures-Yields,
  Yields-mono, Yields-Ensures, load-some, state_new_conn, state_data_received,
  state_connection_closed, state_reading, state_sending,
}
use imonitor.WEpoll.{fd_of}
use imonitor.Handlers.{
  epollin, handle_epollin, handle_work, handle_work_done, handle_new_connection,
}
use imonitor.Main.{dispatch, handle_inotify}
use imonitor.Safety.Valid.{Valid}
use imonitor.Safety.System.{System}
use imonitor.Safety.Next.{Moves, phases, event_of}
use imonitor.Safety.Events.{Genuine, dispatch-Moves}
use imonitor.Safety.Registered.{Plain, Watch, Registered, idle-OnlySocket}
use imonitor.Safety.WorkWatch.{handle_work-Registered}
use imonitor.Safety.DoneWatch.{handle_work_done-Registered}
use imonitor.Safety.ReceiveWatch.{handle_client_request-Registered}
use imonitor.Safety.NewWatch.{MallocFresh, no_transfer, handle_new_connection-Registered}
use imonitor.Safety.LogWatch.{handle_inotify-Untouched, Registered-Untouched}

-- An event comes from a registration: it has that payload, and reports EPOLLOUT only if asked to.
abbrev pub Delivered : Server → Reply → Type 0
Delivered s rev =
    (fd : ℤ) × ((ev : EpollEvent) × (Watch s fd ev
        × ((ev.payload ≡ rev.word) × (rev.mask.epollout ≡ true → ev.events.epollout ≡ true))))

module _ (env : Env) (sys : System env) (malloc_fresh : MallocFresh env) (s : Server)
    (v : Valid env s) (r : Registered s) (rev : Reply) (from : Delivered s rev) where
  pub Delivered-Genuine : Genuine s rev
  Delivered-Genuine = elim (Bool-cases (fd_of rev.word ==ℤ s.listenfd)) [
    | inl a ↦ inl a
    | inr a ↦ elim (Bool-cases (fd_of rev.word ==ℤ s.inotifyfd)) [
      | inl b ↦ inr (inl b)
      | inr b ↦
          let (fd, (ev, (w, (same, _)))) = from in
          let (c, (live, _)) = r.known fd ev w (rw same (a, b)) in inr (inr (c, rw same at live))
    ]
  ]

  module _ (c : Connection) (h : s.heap rev.word ≡ some c) (plain : Plain s rev.word) where
    epollin-Registered :
        (state : ConnectionState)
        → c.state ≡ state
        → Yields (λ _. Registered) (epollin env state rev.word s)
    unfolding epollin
    epollin-Registered state_new_conn e =
        handle_client_request-Registered env rev.word s r c h
          (idle-OnlySocket r h plain λ transfer. no_transfer c e transfer)
          λ transfer. no_transfer c e transfer
    epollin-Registered state_data_received e =
        Yields-Ensures (handle_work_done env rev.word s) (λ _. Registered)
          (handle_work_done-Registered env sys s v r rev.word c h plain)
    epollin-Registered state_connection_closed e =
        Yields-Ensures (handle_work_done env rev.word s) (λ _. Registered)
          (handle_work_done-Registered env sys s v r rev.word c h plain)
    epollin-Registered state_reading e =
        Yields-Ensures (handle_work_done env rev.word s) (λ _. Registered)
          (handle_work_done-Registered env sys s v r rev.word c h plain)
    epollin-Registered state_sending e =
        Yields-Ensures (handle_work_done env rev.word s) (λ _. Registered)
          (handle_work_done-Registered env sys s v r rev.word c h plain)

    handle_epollin-Registered : Yields (λ _. Registered) (handle_epollin env rev.word s)
    unfolding handle_epollin
    handle_epollin-Registered = rw (load-some rev.word s h) (epollin-Registered c.state refl)

  dispatch-Registered : Yields (λ _. Registered) (dispatch env rev s)
  unfolding dispatch
  dispatch-Registered = elim (Bool-cases (fd_of rev.word ==ℤ s.listenfd)) [
    | inl a ↦ rw a (elim (Bool-cases rev.mask.epollin) [
      | inl input ↦ rw input (
          Yields-Ensures (handle_new_connection env s) (λ _. Registered)
            (handle_new_connection-Registered env s malloc_fresh r))
      | inr none_in ↦ rw none_in r
    ])
    | inr a ↦ elim (Bool-cases (fd_of rev.word ==ℤ s.inotifyfd)) [
      | inl b ↦
          rw (a, b)
            (Yields-mono (handle_inotify env (fd_of rev.word) s) _ _
              (handle_inotify-Untouched env (fd_of rev.word) s) λ _ s' u. Registered-Untouched r u)
      | inr b ↦
          let (fd, (ev, (w, (same, out_asked)))) = from in
          let plain : Plain s rev.word = (a, b) in
          let (c, (found, _)) = r.known fd ev w (rw same plain) in
          let h : s.heap rev.word ≡ some c = rw same at found in
          rw (a, b)
            (elim (Bool-cases rev.mask.epollout) [
              | inl out ↦ rw out (
                  Yields-Ensures (handle_work env rev.word s) (λ _. Registered)
                    (handle_work-Registered env sys s v r rev.word c h plain fd ev w same
                      (out_asked out)))
              | inr no_out ↦ rw no_out (elim (Bool-cases rev.mask.epollin) [
                | inl input ↦ rw input (handle_epollin-Registered c h plain)
                | inr no_in ↦ rw no_in tt
              ])
            ])
    ]
  ]

  -- One round keeps both invariants, and is a step of the protocol.
  pub dispatch-Kept :
      Ensures
        (λ _ s'. (Valid env s' × Moves (event_of s rev) (phases s) (phases s')) × Registered s')
        (dispatch env rev s)
  dispatch-Kept =
      Ensures-Yields (dispatch env rev s) _ _ (dispatch-Moves env sys s v rev Delivered-Genuine)
        dispatch-Registered
