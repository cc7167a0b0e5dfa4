-- ===== src/WEpoll.antt =====
-- w_epoll.h: one function for each wrapper of `epoll_ctl` and `epoll_wait`.
pub mod Interest
pub mod Payload
use imonitor.Base.{ℕ, ◌+◌, ◌*◌, ◌%◌, ◌^◌, Bool, true, false, ℤ, bits, int_of_bits}
use imonitor.Sys.{
  Call, CtlOp, ctl_add, ctl_mod, ctl_del, Mask, EpollEvent, Reply, epoll_create, epoll_ctl,
  epoll_wait, Env, Server, M, pure, ◌>>=◌, done, get, sys,
}

abbrev pub epollin : Mask
epollin = record { epollin = true; epollpri = false; epollout = false }

abbrev pub epollout : Mask
epollout = record { epollin = false; epollpri = false; epollout = true }

abbrev pub epollinout : Mask
epollinout = record { epollin = true; epollpri = false; epollout = true }

abbrev pub epollinpri : Mask
epollinpri = record { epollin = true; epollpri = true; epollout = false }

-- The union after `data.fd = fd`: only its lower half is written.
abbrev pub with_fd : ℕ → ℤ → ℕ
with_fd half fd = half * 2 ^ 32 + bits 32 fd

-- `data.fd` of the union: its lower half, as an `int`.
abbrev pub fd_of : ℕ → ℤ
fd_of payload = int_of_bits (payload % 2 ^ 32)

module _ (env : Env) where
  unfoldable pub w_epoll_create : M ℤ
  w_epoll_create = do r ← sys env epoll_create; pure r.rc

  -- `epoll_ctl` with the event that a wrapper fills in.
  abbrev pub ctl : ℤ → CtlOp → ℤ → Mask → ℕ → M ℤ
  ctl epollfd op fd mask payload = do
    r ← sys env (epoll_ctl epollfd op fd (record { events = mask; payload = payload }))
    pure r.rc

  -- The same with `data.fd = fd` in an event that is not initialised.
  abbrev pub ctl_fd : ℤ → CtlOp → ℤ → Mask → M ℤ
  ctl_fd epollfd op fd mask = do
    s ← get
    ctl epollfd op fd mask (with_fd (env.junk_half s.trace) fd)

  unfoldable pub w_epoll_add_fd_in : (epollfd fd : ℤ) → M ℤ
  w_epoll_add_fd_in epollfd fd = ctl_fd epollfd ctl_add fd epollin

  unfoldable pub w_epoll_add_fd_out : (epollfd fd : ℤ) → M ℤ
  w_epoll_add_fd_out epollfd fd = ctl_fd epollfd ctl_add fd epollout

  unfoldable pub w_epoll_add_fd_inout : (epollfd fd : ℤ) → M ℤ
  w_epoll_add_fd_inout epollfd fd = ctl_fd epollfd ctl_add fd epollinout

  unfoldable pub w_epoll_update_fd_in : (epollfd fd : ℤ) → M ℤ
  w_epoll_update_fd_in epollfd fd = ctl_fd epollfd ctl_mod fd epollin

  unfoldable pub w_epoll_update_fd_out : (epollfd fd : ℤ) → M ℤ
  w_epoll_update_fd_out epollfd fd = ctl_fd epollfd ctl_mod fd epollout

  unfoldable pub w_epoll_update_fd_inout : (epollfd fd : ℤ) → M ℤ
  w_epoll_update_fd_inout epollfd fd = ctl_fd epollfd ctl_mod fd epollinout

  unfoldable pub w_epoll_remove_fd : (epollfd fd : ℤ) → M ℤ
  w_epoll_remove_fd epollfd fd = ctl_fd epollfd ctl_del fd epollin

  unfoldable pub w_epoll_add_ptr_in : (epollfd fd : ℤ) (ptr : ℕ) → M ℤ
  w_epoll_add_ptr_in epollfd fd ptr = ctl epollfd ctl_add fd epollin ptr

  unfoldable pub w_epoll_add_ptr_out : (epollfd fd : ℤ) (ptr : ℕ) → M ℤ
  w_epoll_add_ptr_out epollfd fd ptr = ctl epollfd ctl_add fd epollout ptr

  unfoldable pub w_epoll_add_ptr_inout : (epollfd fd : ℤ) (ptr : ℕ) → M ℤ
  w_epoll_add_ptr_inout epollfd fd ptr = ctl epollfd ctl_add fd epollinout ptr

  unfoldable pub w_epoll_add_ptr_eventfd : (epollfd fd : ℤ) (ptr : ℕ) → M ℤ
  w_epoll_add_ptr_eventfd epollfd fd ptr = ctl epollfd ctl_add fd epollinpri ptr

  unfoldable pub w_epoll_update_ptr_in : (epollfd fd : ℤ) (ptr : ℕ) → M ℤ
  w_epoll_update_ptr_in epollfd fd ptr = ctl epollfd ctl_mod fd epollin ptr

  unfoldable pub w_epoll_update_ptr_out : (epollfd fd : ℤ) (ptr : ℕ) → M ℤ
  w_epoll_update_ptr_out epollfd fd ptr = ctl epollfd ctl_mod fd epollout ptr

  unfoldable pub w_epoll_update_ptr_inout : (epollfd fd : ℤ) (ptr : ℕ) → M ℤ
  w_epoll_update_ptr_inout epollfd fd ptr = ctl epollfd ctl_mod fd epollinout ptr

  unfoldable pub w_epoll_remove_ptr : (epollfd fd : ℤ) (ptr : ℕ) → M ℤ
  w_epoll_remove_ptr epollfd fd ptr = ctl epollfd ctl_del fd epollin ptr

  -- The event comes back in the reply: `mask`, and `word` for the union.
  unfoldable pub w_epoll_wait_infinite : (epollfd : ℤ) → M Reply
  w_epoll_wait_infinite epollfd = sys env (epoll_wait epollfd)
