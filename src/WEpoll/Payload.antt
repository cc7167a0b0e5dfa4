-- ===== src/WEpoll/Payload.antt =====
-- The union `epoll_data` of the events of w_epoll.h.
use imonitor.Base.{ℕ, ◌≡◌, ℤ, pos, negsuc, arith, IsInt}
use imonitor.WEpoll.{with_fd, fd_of}

-- A descriptor in the range of `int` that a wrapper stores into an event is read back from it as
-- `data.fd`, whatever the other half of the union held.
pub fd_of-with_fd : (half : ℕ) (fd : ℤ) → IsInt fd → fd_of (with_fd half fd) ≡ fd
fd_of-with_fd half (pos n) h = ground arith
fd_of-with_fd half (negsuc n) h = ground arith
