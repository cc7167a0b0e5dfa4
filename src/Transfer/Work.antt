-- ===== src/Transfer/Work.antt =====
-- The two halves of each step of a transfer: `handle_work` submits an operation, and
-- `handle_work_done` takes its completion. All calls succeed here.
use imonitor.Base.{
  take, ℕ, ◌≡◌, ◌++◌, some, none, Bytes, ℤ, arith, if◌then◌else◌, ◌==◌, length, drop, append-nil,
  length-take, add_size,
}
use imonitor.Sys.{
  Env, Server, EpollEvent, Connection, state_sending, state_reading, Returns, die, load, load-some,
  defined, die-pass, memcpy_lem, called, and_then, eventfd, malloc_event, close, epoll_ctl, ctl_del,
  io_getevents, pread, pwrite,
}
use imonitor.WEpoll.{epollin}
use imonitor.Aio.{complete, submitted, send_op}
use imonitor.Handlers.{work_done, handle_work, handle_work_done}
use imonitor.Transfer.Defs.{delivered, Honest, Kept, chunk}

module _ (env : Env) {file : ℤ} {content : Bytes} (honest : Honest env file content) where
  pub work_reading :
      (p : ℕ) (s : Server) (c : Connection)
      → s.heap p ≡ some c
      → c.state ≡ state_reading
      → Returns
          (λ _ s'.
            (s'.heap p ≡ some (record c { eventfd = (env.reply s.trace eventfd).rc }))
            × (submitted c.ctx s'.trace ≡ some (pread c.fd p env.bufsiz c.send_len))
            × (delivered c.sockfd c.ctx s'.trace ≡ delivered c.sockfd c.ctx s.trace)
            × Kept s s')
          (handle_work env p s)
  unfolding handle_work die load submitted delivered
  work_reading p s c h e = grind (arith, honest.ctl_ok, honest.submit_ok)

  pub work_sending :
      (p : ℕ) (s : Server) (c : Connection)
      → s.heap p ≡ some c
      → c.state ≡ state_sending
      → Returns
          (λ _ s'.
            (s'.heap p
              ≡ some (record c { eventfd = (env.reply s.trace eventfd).rc; is_header = 0 }))
            × (submitted c.ctx s'.trace ≡ some (send_op c))
            × (delivered c.sockfd c.ctx s'.trace ≡ delivered c.sockfd c.ctx s.trace)
            × Kept s s')
          (handle_work env p s)
  unfolding handle_work die load submitted delivered
  work_sending p s c h e = grind (arith, honest.ctl_ok, honest.submit_ok)

  -- The state in which `handle_work_done` waits for the completion.
  abbrev pub closing : (p : ℕ) → Connection → Server → Server
  closing p c s =
      let ev : EpollEvent = record { events = epollin; payload = p } in
      called env malloc_event
        (called env (close c.eventfd) (called env (epoll_ctl s.epollfd ctl_del c.eventfd ev) s))

  -- Up to the switch, `handle_work_done` makes four calls and completes the operation.
  pub done_lem :
      (p : ℕ) (s : Server) (c : Connection)
      → s.heap p ≡ some c
      → let r = env.reply (closing p c s).trace (io_getevents c.ctx) in
        handle_work_done env p s
        ≡ and_then
            (complete
              (submitted c.ctx s.trace)
              r.bytes
              (called env (io_getevents c.ctx) (closing p c s)))
            (λ _. work_done env c.state p r.word)
  unfolding handle_work_done
  done_lem p s c h = rw (
    load-some p s h,
    die-pass _ _ (honest.ctl_ok _ _ _ _ _),
    die-pass _ _ (honest.malloc_ok _),
    die-pass _ _ (honest.getevents_ok _ _),
  )

  pub done_reading :
      (p : ℕ) (s : Server) (c : Connection)
      → s.heap p ≡ some c
      → c.state ≡ state_reading
      → submitted c.ctx s.trace ≡ some (pread file p env.bufsiz c.send_len)
      → length c.send_buffer ≡ env.bufsiz
      → let text = chunk env content c.send_len in
        Returns
          (λ _ s'.
            (s'.heap p
              ≡ some (record c {
                send_buffer = text ++ drop (length text) c.send_buffer;
                send_len = add_size c.send_len (length text);
                read_data = length text;
                state = state_sending;
              }))
            × (delivered c.sockfd c.ctx s'.trace ≡ delivered c.sockfd c.ctx s.trace)
            × Kept s s')
          (handle_work_done env p s)
  unfolding complete work_done load defined delivered die
  done_reading p s c h e sub len =
      let text = chunk env content c.send_len in
      let bytes = honest.read_bytes (closing p c s).trace c.ctx p env.bufsiz c.send_len sub in
      let res = honest.read_res (closing p c s).trace c.ctx p env.bufsiz c.send_len sub in
      rw (done_lem p s c h, bytes, res, sub, e)
        (grind (
          arith,
          honest.ctl_ok,
          memcpy_lem c.send_buffer text,
          length-take env.bufsiz (drop c.send_len content),
          append-nil (delivered c.sockfd c.ctx s.trace),
        ))

  pub done_sending :
      (p : ℕ) (s : Server) (c : Connection) (text : Bytes) (n : ℕ)
      → s.heap p ≡ some c
      → c.state ≡ state_sending
      → submitted c.ctx s.trace ≡ some (pwrite c.sockfd text n 0)
      → Returns
          (λ _ s'.
            (s'.heap p ≡ (
              if c.send_len == c.file_dimension
              then none
              else some (record c { state = state_reading })))
            × (delivered c.sockfd c.ctx s'.trace ≡ delivered c.sockfd c.ctx s.trace ++ take n text)
            × Kept s s')
          (handle_work_done env p s)
  unfolding complete work_done load delivered die
  done_sending p s c text n h e sub =
      let res = honest.write_res (closing p c s).trace c.ctx c.sockfd text n 0 sub in
      rw (done_lem p s c h, res, sub, e) (grind (arith, honest.ctl_ok))
