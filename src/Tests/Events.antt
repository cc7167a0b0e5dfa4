-- ===== src/Tests/Events.antt =====
-- Single events: a write that is submitted and finished, and a request that cannot be received.
use imonitor.Base.{
  length, drop, replicate, ℕ, ◌≡◌, refl, none, some, [], ◌∷◌, codes, pos, negsuc, inr, arith,
}
use imonitor.Sys.{
  c_string, Env, Server, Connection, Trace, Call, Reply, recv, getpeername, epoll_ctl, ctl_del,
  exit, Returns, state_sending, io_submit, pwrite,
}
use imonitor.WEpoll.{epollin, epollout, epollinpri}
use imonitor.WEpoll.Interest.{interest}
use imonitor.Aio.{submitted}
use imonitor.SockUtil.{peer_text, get_peer_address}
use imonitor.SockUtil.Address.{get_peer_address-text}
use imonitor.Request.{receive_message}
use imonitor.Request.Failure.{PeerKnown, receive_message-exit}
use imonitor.Transfer.Fresh.{Accepts, New, handle_new_connection-New}
use imonitor.Handlers.{handle_new_connection, handle_work, handle_work_done}
use imonitor.Transfer.Watch.{handle_work-interest, handle_work_done-interest}
use imonitor.Tests.{asking, small_env, one_connection, plain}
use imonitor.Tests.Answers.{small_env-Honest}

-- A connection that sends, and its write.
abbrev sending : Connection
sending = record (asking 9) { state = state_sending; eventfd = pos 8; read_data = 2 }

abbrev writing : Server
writing = record (one_connection sending) {
  trace =
      (
        io_submit 2 (record { op = pwrite (pos 7) (codes "hi") 2 0; resfd = pos 8 }),
        plain (pos 1) [] 0,
      )
      ∷ [];
}

handle_work-interest_example :
    Returns
      (λ _ s'.
        (interest (pos 3) s'.trace (pos 7) ≡ some (record { events = epollin; payload = 5 }))
        × (interest (pos 3) s'.trace (pos 0) ≡ some (record { events = epollinpri; payload = 5 })))
      (handle_work (small_env (pos 0) 0 []) 5 (one_connection sending))
handle_work-interest_example =
    handle_work-interest (small_env (pos 0) 0 []) (small_env-Honest (pos 0) 0 []) 5
      (one_connection sending) sending refl (inr refl) (ground arith)

handle_work_done-interest_example :
    Returns
      (λ _ s'.
        (interest (pos 3) s'.trace (pos 8) ≡ none)
        × (interest (pos 3) s'.trace (pos 7) ≡ some (record { events = epollout; payload = 5 })))
      (handle_work_done (small_env (pos 0) 0 []) 5 writing)
unfolding submitted
handle_work_done-interest_example =
    handle_work_done-interest (small_env (pos 0) 0 []) (small_env-Honest (pos 0) 0 []) 5 writing
      sending (pos 7) (codes "hi") 2 refl refl refl (ground arith)

-- Nothing arrives, and no descriptor is registered.
abbrev silent_reply : Trace → Call → Reply
silent_reply t (recv fd room) = plain (negsuc 0) [] 0
silent_reply t (epoll_ctl ep ctl_del fd ev) = plain (negsuc 0) [] 0
silent_reply t (getpeername fd) = plain (pos 0) (codes "10.0.0.1") 80
silent_reply t c = plain (pos 0) [] 0

abbrev silent_env : Env
silent_env = record (small_env (pos 0) 0 []) { reply = silent_reply }

silent_env-PeerKnown : PeerKnown silent_env (pos 7)
unfolding peer_text
silent_env-PeerKnown t = (refl, omega arith)

receive_message-exit_example :
    (s' : Server) × (receive_message silent_env 5 (one_connection (asking 0)) ≡ exit s')
receive_message-exit_example =
    receive_message-exit silent_env 5 (asking 0) (one_connection (asking 0)) refl
      silent_env-PeerKnown (λ t room. refl) (λ t ep ev. refl)

small_env-Accepts : Accepts (small_env (pos 0) 0 []) (pos 4)
small_env-Accepts = record {
  accept_ok = λ t. refl;
  malloc_ok = λ t. refl;
  setup_ok = λ t. refl;
  ctl_ok = λ t ep fd ev. refl;
}

handle_new_connection-New_example :
    Returns
      (λ _ s'.
        (p : ℕ) × ((c : Connection) × ((s'.heap p ≡ some c)
            × (New (small_env (pos 0) 0 []) c (pos 0)
                × (interest (pos 3) s'.trace (pos 0)
                    ≡ some (record { events = epollin; payload = p }))))))
      (handle_new_connection (small_env (pos 0) 0 []) (one_connection (asking 0)))
handle_new_connection-New_example =
    handle_new_connection-New (small_env (pos 0) 0 []) (one_connection (asking 0)) small_env-Accepts

get_peer_address-text_example :
    Returns
      (λ (rc, a) s'.
        (rc ≡ pos 0)
        × ((length a ≡ 64)
            × ((c_string a ≡ some (peer_text (plain (pos 0) (codes "10.0.0.1") 80)))
                × (drop 22 a ≡ replicate 42 0))))
      (get_peer_address silent_env (pos 7) (replicate 64 0) (one_connection (asking 0)))
get_peer_address-text_example =
    get_peer_address-text silent_env (pos 7) (replicate 64 0) (one_connection (asking 0)) refl
      record { string = omega arith; digits = omega arith; port = omega arith } (omega arith)
