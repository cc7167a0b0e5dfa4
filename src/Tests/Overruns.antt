-- ===== src/Tests/Overruns.antt =====
-- A request of 128 bytes for a buffer of 128, and a first segment of one byte.
use imonitor.Base.{codes, [], ◌∷◌, ◌++◌, Bytes, pos, arith, refl, replicate}
use imonitor.Sys.{
  Utmpx, user_process, Faults, Env, Trace, Call, Reply, recv, getpeername, called, Server,
}
use imonitor.SockUtil.{peer_text}
use imonitor.Utils.{is_req_finished}
use imonitor.Request.{receive_message}
use imonitor.Request.Segments.{Segments, final}
use imonitor.Request.Overrun.{receive_message-Faults, receive_message-Faults_byte}
use imonitor.Logfile.{write_log}
use imonitor.Logfile.Overrun.{write_log-Faults}
use imonitor.Tests.Logs.{login, log_env, log_env-Writable}
use imonitor.Tests.{asking, small_env, one_connection, plain}

abbrev long_request : Bytes
long_request = replicate 127 b'a' ++ 10 ∷ []

abbrev long_reply : Trace → Call → Reply
long_reply t (recv fd room) = plain (pos 128) long_request 0
long_reply t c = plain (pos 0) [] 0

abbrev long_env : Env
long_env = record (small_env (pos 0) 0 []) { reply = long_reply }

abbrev named : Server
named = called long_env (getpeername (pos 7)) (one_connection (asking 0))

one_piece : Segments long_env (pos 7) long_request 128 named.trace []
unfolding is_req_finished
one_piece =
    final {piece = long_request}
      record { n = 127; count = refl; got = refl; bytes = refl; fits = omega arith; test = refl }
      refl refl

receive_message-Faults_example : Faults (receive_message long_env 5 (one_connection (asking 0)))
unfolding peer_text
receive_message-Faults_example =
    receive_message-Faults long_env (omega arith) 5 (asking 0) (one_connection (asking 0)) refl refl
      (λ t. (refl, omega arith)) (ground arith) refl one_piece

-- One byte arrives.
abbrev byte_reply : Trace → Call → Reply
byte_reply t (recv fd room) = plain (pos 1) (b'G' ∷ []) 0
byte_reply t c = plain (pos 0) [] 0

abbrev byte_env : Env
byte_env = record (small_env (pos 0) 0 []) { reply = byte_reply }

receive_message-Faults_byte_example :
    Faults (receive_message byte_env 5 (one_connection (asking 0)))
unfolding peer_text
receive_message-Faults_byte_example =
    receive_message-Faults_byte byte_env b'G' (omega arith) (omega arith) 5 (asking 0)
      (one_connection (asking 0)) refl refl (λ t. (refl, omega arith)) (omega arith) (refl, refl)

-- A login at a pseudo terminal, whose id fills its array.
abbrev full_login : Utmpx
full_login = record (login user_process) { ut_id = codes "ts/0" }

write_log-Faults_example : Faults (write_log log_env full_login (one_connection (asking 0)))
write_log-Faults_example =
    write_log-Faults log_env log_env-Writable (omega arith) full_login (one_connection (asking 0))
      refl (omega arith, omega arith) refl refl
      (omega arith, (omega arith, (omega arith, (omega arith, tt))))
