-- ===== src/Tests/Requests.antt =====
-- Requests: the receiving loop, the parser's calls, and the test for the end of a request.
use imonitor.Base.{
  ◌≡◌, ◌≢◌, refl, false, none, some, [], ◌∷◌, ◌++◌, Bytes, codes, crlf, pos, negsuc, arith, leb,
  if◌then◌else◌, replicate,
}
use imonitor.Sys.{
  Env, Connection, Trace, Call, Reply, recv, Returns, done, memcpy, path, url, message_begin,
  state_data_received,
}
use imonitor.Utils.{is_req_finished, header200}
use imonitor.Utils.Headers.{announced, body_of, announced-header200, body_of-header200}
use imonitor.Utils.Ends.{is_req_finished-any, is_req_finished-line, is_req_finished-ne-none}
use imonitor.Request.{receive_loop, parse_request, callbacks, settings_on_path}
use imonitor.Request.Arrival.{Network, Holds, holding, arrived}
use imonitor.Request.Receive.{receive_loop-Holds}
use imonitor.Request.Path.{callbacks-urls, parse_request-url}
use imonitor.Safety.Frame.{Frame-refl}
use imonitor.Tests.{asking, small_env, one_connection, plain}

abbrev pub request : Bytes
request = codes "GET /a HTTP/1.0" ++ crlf ++ crlf

-- The whole request arrives wherever there is room for it.
abbrev net_reply : Trace → Call → Reply
net_reply t (recv fd room) = if leb 19 room then plain (pos 19) request 0 else plain (negsuc 0) [] 0
net_reply t c = plain (pos 0) [] 0

abbrev net_env : Env
net_env = record (small_env (pos 0) 0 []) {
  reply = net_reply;
  parse = λ text. message_begin ∷ path (codes "/b") ∷ url (codes "/a") ∷ [];
}

net_env-Network : Network net_env
net_env-Network = record {
  counted = λ t fd room n h. ground arith;
  first = λ t fd n h. ground arith;
}

asking-Holds : Holds net_env 5 (asking 0) (one_connection (asking 0)) [] (one_connection (asking 0))
unfolding arrived
asking-Holds = record {
  live = refl;
  all = refl;
  inside = omega arith;
  shorter = λ short room. omega arith;
  started = ground arith;
  frame = Frame-refl 5 2 (one_connection (asking 0));
  same_op = refl;
  same_context = refl;
  same_path = refl;
}

receive_loop-Holds_example :
    Returns
      (λ _ s'. (next : Bytes) × Holds net_env 5 (asking 0) (one_connection (asking 0)) next s')
      (receive_loop net_env 129 5 0 (one_connection (asking 0)))
receive_loop-Holds_example =
    receive_loop-Holds net_env net_env-Network (omega arith) 5 (asking 0)
      (one_connection (asking 0)) 129 [] (one_connection (asking 0)) asking-Holds (omega arith)

-- The connection with the request in its buffer.
abbrev received_request : Connection
received_request = holding net_env (asking 0) request

parse_request-url_example :
    Returns
      (λ state s'.
        (state ≡ state_data_received)
        × (s'.heap 5
            ≡ some (record received_request {
              request_path = codes "/a" ++ replicate 126 0;
              recv_len = 19;
              state = state_data_received;
            })))
      (parse_request net_env 5 19 (one_connection received_request))
parse_request-url_example =
    parse_request-url net_env 5 19 received_request (one_connection received_request)
      {text = request} {name = codes "/a"} refl refl refl (ground arith) (omega arith)

callbacks-urls_example :
    callbacks settings_on_path
      (path (codes "/b") ∷ url (codes "/a") ∷ [])
      (one_connection (asking 0))
    ≡ done tt (record (one_connection (asking 0)) { request_path = codes "/a" ++ replicate 126 0 })
unfolding memcpy
callbacks-urls_example =
    callbacks-urls (path (codes "/b") ∷ url (codes "/a") ∷ []) (one_connection (asking 0)) refl

is_req_finished-line_example :
    is_req_finished (codes "GET / HTTP/1.0" ++ 10 ∷ replicate 3 0) 15 ≡ some false
is_req_finished-line_example = is_req_finished-line (codes "GET / HTTP/1.0") (replicate 3 0)

-- A line feed in the third place from the end.
is_req_finished-any_example :
    is_req_finished (codes "GET /" ++ 32 ∷ 10 ∷ 32 ∷ 32 ∷ codes "HTTP") 9 ≡ some false
is_req_finished-any_example = is_req_finished-any (codes "GET /") (codes "HTTP") 32 10 32 32

is_req_finished-ne-none_example : is_req_finished request 19 ≢ none
is_req_finished-ne-none_example = is_req_finished-ne-none request 19 (omega arith) (omega arith)

announced-header200_example : announced (header200 (pos 5) ++ codes "hello") ≡ some 5
announced-header200_example = announced-header200 5 (codes "hello")

body_of-header200_example : body_of (header200 (pos 5) ++ codes "hello") ≡ some (codes "hello")
body_of-header200_example = body_of-header200 5 (codes "hello")
