-- ===== src/Safety/Events.antt =====
-- The loop: every event keeps the invariant, and is a step of the protocol.
use imonitor.Base.{ℕ, ◌≡◌, ◌⊎◌, inl, inr, refl, ap, true, false, some, arith, ◌==ℤ◌, Bool-cases}
use mathlib.Core.Option
use imonitor.Sys.{
  Env, Server, Connection, ConnectionState, Reply, state_reading, state_sending, state_new_conn,
  state_connection_closed, state_data_received, Ensures, Ensures-mono, load-some,
}
use imonitor.WEpoll.{fd_of}
use imonitor.Handlers.{epollin, handle_epollin, handle_work, handle_new_connection}
use imonitor.Main.{dispatch, handle_inotify}
use imonitor.Safety.Valid.{Valid}
use imonitor.Safety.Next.{
  Step, Ready, readable, writable, Moves, ready, ignored, moved, phases, event_of,
}
use imonitor.Safety.System.{System}
use imonitor.Safety.Work.{handle_work-Step}
use imonitor.Safety.Done.{handle_work_done-Step}
use imonitor.Safety.Receive.{handle_client_request-Step}
use imonitor.Safety.New.{handle_new_connection-Moves}
use imonitor.Safety.Log.{handle_inotify-Moves}

-- An event is for the listening socket, for the login database, or for a connection that is
-- allocated.
abbrev pub Genuine : Server → Reply → Type 0
Genuine s rev =
    ((fd_of rev.word ==ℤ s.listenfd) ≡ true)
    ⊎ (((fd_of rev.word ==ℤ s.inotifyfd) ≡ true) ⊎ ((c : Connection) × (s.heap rev.word ≡ some c)))

module _ (env : Env) (sys : System env) (s : Server) (v : Valid env s) where
  module _ (p : ℕ) (c : Connection) (h : s.heap p ≡ some c) where
    epollin-Step :
        (state : ConnectionState)
        → c.state ≡ state
        → Ensures (λ _. Step env p readable c.state s) (epollin env state p s)
    unfolding epollin
    epollin-Step state_new_conn e = rw e (handle_client_request-Step env sys s v p c h e)
    epollin-Step state_data_received e = handle_work_done-Step env sys s v p c h
    epollin-Step state_connection_closed e = handle_work_done-Step env sys s v p c h
    epollin-Step state_reading e = handle_work_done-Step env sys s v p c h
    epollin-Step state_sending e = handle_work_done-Step env sys s v p c h

    pub handle_epollin-Step : Ensures (λ _. Step env p readable c.state s) (handle_epollin env p s)
    unfolding handle_epollin
    handle_epollin-Step = rw (load-some p s h) (epollin-Step c.state refl)

    -- A step of one connection is a step of the whole.
    Step-Moves :
        (r : Ready) (s' : Server)
        → Step env p r c.state s s'
        → Valid env s' × Moves (ready p r) (phases s) (phases s')
    Step-Moves r s' d = (
      d.valid,
      moved c.state (ap (Option.map (λ c. c.state)) h) d.next
          λ q e. ap (Option.map (λ c. c.state)) (d.frame.others q e),
    )

  connection_event-Moves :
      (rev : Reply) (c : Connection)
      → s.heap rev.word ≡ some c
      → (fd_of rev.word ==ℤ s.listenfd) ≡ false
      → (fd_of rev.word ==ℤ s.inotifyfd) ≡ false
      → Ensures
          (λ _ s'. Valid env s' × Moves (event_of s rev) (phases s) (phases s'))
          (dispatch env rev s)
  unfolding dispatch event_of
  connection_event-Moves rev c h a b =
      rw (a, b)
        (elim (Bool-cases rev.mask.epollout) [
          | inl out ↦ rw out (
              Ensures-mono (handle_work env rev.word s) _ _
                (handle_work-Step env sys s v rev.word c h)
                λ _ s' d. Step-Moves rev.word c h writable s' d)
          | inr no_out ↦ rw no_out (elim (Bool-cases rev.mask.epollin) [
            | inl input ↦ rw input (
                Ensures-mono (handle_epollin env rev.word s) _ _ (handle_epollin-Step rev.word c h)
                  λ _ s' d. Step-Moves rev.word c h readable s' d)
            | inr no_in ↦ rw no_in tt
          ])
        ])

  -- On a system as described, one round of the loop keeps the invariant and is a step of the
  -- protocol, whatever the event is that epoll delivers for the listening socket, the login database
  -- or an allocated connection, in whatever state: the program neither faults nor runs on for ever in
  -- the round, it ends by DIE, or returns with the invariant and with the states of all connections
  -- as `Moves` says for this event.
  pub dispatch-Moves :
      (rev : Reply)
      → Genuine s rev
      → Ensures
          (λ _ s'. Valid env s' × Moves (event_of s rev) (phases s) (phases s'))
          (dispatch env rev s)
  unfolding dispatch event_of
  dispatch-Moves rev g = elim (Bool-cases (fd_of rev.word ==ℤ s.listenfd)) [
    | inl a ↦ rw a (elim (Bool-cases rev.mask.epollin) [
      | inl input ↦ rw input (
          Ensures-mono (handle_new_connection env s) _ _ (handle_new_connection-Moves env sys s v)
            λ _ s' (m, _). m)
      | inr none_in ↦ rw none_in (v, ignored λ q. refl)
    ])
    | inr a ↦ elim (Bool-cases (fd_of rev.word ==ℤ s.inotifyfd)) [
      | inl b ↦
          rw (a, b)
            (Ensures-mono (handle_inotify env (fd_of rev.word) s) _ _
              (handle_inotify-Moves env sys (fd_of rev.word) s v) λ _ s' (m, _). m)
      | inr b ↦ elim g [
        | inl l ↦ absurd (ground arith)
        | inr (inl i) ↦ absurd (ground arith)
        | inr (inr (c, h)) ↦ connection_event-Moves rev c h a b
      ]
    ]
  ]
