-- ===== src/Tests/Visits.antt =====
-- A client that connects, sends its request in two segments, and is answered.
use imonitor.Base.{
  ℕ, suc, ◌*◌, ◌≡◌, refl, none, some, [], ◌∷◌, ◌++◌, Bytes, codes, crlf, pos, arith, leb,
  if◌then◌else◌,
}
use imonitor.Sys.{
  Env, Server, Connection, Trace, Call, Reply, recv, url, Returns, exit, malloc_connection,
}
use imonitor.SockUtil.{peer_text}
use imonitor.WEpoll.{epollin}
use imonitor.WEpoll.Interest.{interest}
use imonitor.Transfer.Rounds.{in_event}
use imonitor.Transfer.HangUp.{visit-closed}
use imonitor.Utils.{header200, is_req_finished}
use imonitor.Main.{dispatch}
use imonitor.Request.Segments.{Segments, final, further}
use imonitor.Transfer.Defs.{Honest}
use imonitor.Transfer.Start.{Stored}
use imonitor.Transfer.Complete.{Finished, blocks}
use imonitor.Transfer.Session.{Request}
use imonitor.Transfer.Visit.{Client, visit, visit-found}
use imonitor.Tests.{asking, small_env, one_connection, plain, answers}
use imonitor.Tests.Requests.{request}

abbrev text : Bytes
text = codes "hello"

-- The first line of the request arrives where the whole buffer is free, its end behind it.
abbrev two_segments : Trace → Call → Reply
two_segments t (recv fd room) =
    if leb 128 room
    then plain (pos 15) (codes "GET /a HTTP/1.0") 0
    else plain (pos 4) (crlf ++ crlf) 0
two_segments t malloc_connection = plain (pos 0) [] 1
two_segments t c = answers (pos 0) 5 text t c

abbrev visited_env : Env
visited_env = record (small_env (pos 0) 5 text) {
  reply = two_segments;
  parse = λ whole. url (codes "/a") ∷ [];
}

visited_env-Honest : Honest visited_env (pos 9) text
visited_env-Honest = record {
  ctl_ok = λ t ep op fd ev. refl;
  submit_ok = λ t ctx b. refl;
  malloc_ok = λ t. refl;
  getevents_ok = λ t ctx. refl;
  read_bytes = λ t ctx buf count offset h. rw h;
  read_res = λ t ctx buf count offset h. rw h;
  write_res = λ t ctx fd text count offset h. rw h;
}

visited_env-Stored : Stored visited_env (codes "a") (pos 9) text
visited_env-Stored = record {
  found = λ t. refl;
  opens = λ t. refl;
  valid = refl;
  ends = λ t. refl;
  rewinds = λ t. refl;
}

request-Request : Request visited_env request (codes "a")
request-Request = record {
  proper = ground arith;
  short = omega arith;
  found = refl;
  proper_path = ground arith;
  short_path = omega arith;
}

-- The server before the connection: no connection, the descriptor 4 for the listening socket.
abbrev listening : Server
listening = record (one_connection (asking 0)) { heap = λ _. none }

two_pieces : (t : Trace) → Segments visited_env (pos 0) request 4 t []
unfolding is_req_finished
two_pieces t =
    further {piece = codes "GET /a HTTP/1.0"}
      record { n = 14; count = refl; got = refl; bytes = refl; fits = omega arith; test = refl }
      (final {piece = crlf ++ crlf}
        record { n = 3; count = refl; got = refl; bytes = refl; fits = omega arith; test = refl }
        refl refl)

visited_env-Client : Client visited_env (pos 0) request 4
unfolding peer_text
visited_env-Client = record { known = λ t. (refl, omega arith); arrives = two_pieces }

visit-found_example :
    Returns
      (λ _ s1.
        (p : ℕ) × ((c : Connection) × ((s1.heap p ≡ some c)
            × ((c.sockfd ≡ pos 0)
                × Returns
                    (λ _. Finished p c.ctx c.sockfd (header200 (pos 5) ++ text))
                    (visit visited_env p (suc (2 * blocks visited_env text)) s1)))))
      (dispatch visited_env (plain (pos 1) [] 4) listening)
visit-found_example =
    visit-found visited_env visited_env-Honest visited_env-Stored request-Request (omega arith)
      (omega arith) (omega arith) listening (plain (pos 1) [] 4)
      record { listener = refl; input = refl }
      record {
        accept_ok = λ t. refl;
        malloc_ok = λ t. refl;
        setup_ok = λ t. refl;
        ctl_ok = λ t ep fd ev. refl;
      }
      visited_env-Client λ t. record { not_listener = refl; not_inotify = refl }

-- Nothing is received from a client that has closed.
visit-closed_example :
    Returns
      (λ _ s1.
        (p : ℕ) × Returns
          (λ _ s2.
            ((c : Connection) × (s2.heap p ≡ some c))
            × ((interest (pos 3) s2.trace (pos 0) ≡ some (record { events = epollin; payload = p }))
                × ((s' : Server) × (dispatch (small_env (pos 0) 0 []) (in_event p) s2 ≡ exit s'))))
          (dispatch (small_env (pos 0) 0 []) (in_event p) s1))
      (dispatch (small_env (pos 0) 0 []) (plain (pos 1) [] 4) listening)
unfolding peer_text
visit-closed_example =
    visit-closed (small_env (pos 0) 0 []) listening (plain (pos 1) [] 4)
      record { listener = refl; input = refl }
      record {
        accept_ok = λ t. refl;
        malloc_ok = λ t. refl;
        setup_ok = λ t. refl;
        ctl_ok = λ t ep fd ev. refl;
      }
      (λ t. (refl, omega arith)) (λ t room. refl)
      λ t. record { not_listener = refl; not_inotify = refl }
