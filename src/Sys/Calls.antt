-- ===== src/Sys/Calls.antt =====
-- The calls that leave the program: system calls, libaio and the C library. Each is a value, and
-- so is the reply to it. Named constants of the system headers (EPOLLIN, O_RDWR, SEEK_END ...)
-- stay names here.
use imonitor.Base.{ℕ, Bool, Option, List, Bytes, ℤ}

-- An event mask of epoll.
pub record Mask : Type 0 where
  pub epollin : Bool
  pub epollpri : Bool
  pub epollout : Bool

-- `struct epoll_event`: `payload` is its `data`, a union of 64 bits.
pub record EpollEvent : Type 0 where
  pub events : Mask
  pub payload : ℕ

pub data CtlOp : Type 0 where
  ctl_add ctl_mod ctl_del : CtlOp

pub data OpenFlag : Type 0 where
  o_rdonly o_rdwr o_creat : OpenFlag

pub data Whence : Type 0 where
  seek_set seek_end : Whence

-- What an iocb asks for. A read names the buffer that it fills: the `send_buffer` of the
-- connection at the address `buf`. A write carries the bytes that its buffer holds when it is
-- submitted, at most `count` of them.
pub data IoOp : Type 0 where
  pread : (fd : ℤ) → (buf count offset : ℕ) → IoOp
  pwrite : (fd : ℤ) → (text : Bytes) → (count offset : ℕ) → IoOp

-- `struct iocb`, with the eventfd that `io_set_eventfd` puts into it.
pub record Iocb : Type 0 where
  pub op : IoOp
  pub resfd : ℤ

-- `ut_type`, by the names of utmpx.h; `unknown` is any other number.
pub data UtType : Type 0 where
  empty run_lvl boot_time new_time old_time init_process login_process user_process : UtType
  dead_process unknown : UtType

-- The fields of `struct utmpx` that the program reads, with the whole content of its `char` arrays,
-- which need not hold a NUL.
pub record Utmpx : Type 0 where
  pub ut_type : UtType
  pub ut_pid : ℤ
  pub ut_line : Bytes
  pub ut_id : Bytes
  pub ut_user : Bytes
  pub ut_host : Bytes
  pub tv_sec : ℤ

pub data Call : Type 0 where
  malloc_connection malloc_event : Call
  free : (address : ℕ) → Call
  close : ℤ → Call
  accept getpeername : ℤ → Call
  fcntl_getfl : ℤ → Call
  fcntl_setfl : ℤ → (flags : ℤ) → (nonblock : Bool) → Call
  recv : ℤ → (room : ℕ) → Call
  epoll_create : Call
  epoll_ctl : (epollfd : ℤ) → CtlOp → (fd : ℤ) → EpollEvent → Call
  epoll_wait : (epollfd : ℤ) → Call
  eventfd : Call
  io_setup : Call
  io_submit : (ctx : ℕ) → Iocb → Call
  io_getevents io_destroy : (ctx : ℕ) → Call
  fprintf_stderr : (text : Bytes) → Call
  open_file : (path : Bytes) → List OpenFlag → Call
  lseek : ℤ → (offset : ℤ) → Whence → Call
  read : ℤ → (count : ℕ) → Call
  write : ℤ → Bytes → Call
  access : (path : Bytes) → Call
  inotify_init : Call
  inotify_add_watch : ℤ → (path : Bytes) → Call
  utmpxname : (path : Bytes) → Call
  setutxent getutxent endutxent : Call
  gethostbyname : (name : Bytes) → Call
  socket : Call
  setsockopt : ℤ → Call
  bind connect : ℤ → (address : Bytes) → (port : ℕ) → Call
  listen : ℤ → (backlog : ℕ) → Call
  shutdown : ℤ → Call

-- A reply. `rc` is the returned number; a call that fills a buffer gives `bytes`, one that returns
-- a pointer, a context or a 64-bit count gives `word`, `epoll_wait` gives `mask` and `word`, and a
-- record of the login database is `entry`.
pub record Reply : Type 0 where
  pub rc : ℤ
  pub bytes : Bytes
  pub word : ℕ
  pub mask : Mask
  pub entry : Option Utmpx

-- The calls made so far with their replies, the newest first.
abbrev pub Trace : Type 0
Trace = List (Call × Reply)
