-- ===== src/SockUtil.antt =====
-- sock_util.c: the listening socket, the peer's address, and the client's side of a connection.
-- Addresses are the four bytes of an `in_addr`, ports the numbers that `htons` is given.
pub mod Address
use imonitor.Base.{
  ℕ, Bytes, codes, ◌++◌, ℤ, pos, negsuc, is_neg, ◌==◌, if◌then◌else◌, take, replicate,
}
use imonitor.Sys.{
  Env, M, Reply, pure, ◌>>=◌, ◌>>◌, die, defined, sys, sprintf, socket, setsockopt, bind, listen,
  connect, shutdown, close, getpeername, gethostbyname,
}
use imonitor.Utils.{decimal}

abbrev pub default_listen_backlog : ℕ
default_listen_backlog = 5

-- `INADDR_ANY`
abbrev any_address : Bytes
any_address = replicate 4 0

-- "%s:%d" of the address that `inet_ntoa` prints and the port.
unfoldable pub peer_text : Reply → Bytes
unfolding decimal
peer_text r = r.bytes ++ codes ":" ++ decimal r.word

module _ (env : Env) where
  unfoldable pub tcp_connect_to_server : (name : Bytes) (port : ℕ) → M ℤ
  tcp_connect_to_server name port = do
    hent ← sys env (gethostbyname name)
    die (hent.word == 0)
    s ← sys env socket
    die (is_neg s.rc)
    r ← sys env (connect s.rc (take 4 hent.bytes) port)
    die (is_neg r.rc)
    pure s.rc

  unfoldable pub tcp_close_connection : (sockfd : ℤ) → M ℤ
  tcp_close_connection sockfd = do
    r ← sys env (shutdown sockfd)
    die (is_neg r.rc)
    r ← sys env (close sockfd)
    pure r.rc

  unfoldable pub tcp_create_listener : (port backlog : ℕ) → M ℤ
  tcp_create_listener port backlog = do
    s ← sys env socket
    die (is_neg s.rc)
    r ← sys env (setsockopt s.rc)
    die (is_neg r.rc)
    r ← sys env (bind s.rc any_address port)
    die (is_neg r.rc)
    r ← sys env (listen s.rc backlog)
    die (is_neg r.rc)
    pure s.rc

  -- The returned number, and the buffer with the text in it.
  unfoldable pub get_peer_address : (sockfd : ℤ) (buf : Bytes) → M (ℤ × Bytes)
  unfolding peer_text
  get_peer_address sockfd buf = do
    r ← sys env (getpeername sockfd)
    if is_neg r.rc
        then pure (negsuc 0, buf)
        else do buf ← defined (sprintf buf (peer_text r)); pure (pos 0, buf)
