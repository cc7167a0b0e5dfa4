-- ===== src/Transfer/Watch.antt =====
-- What the server waits for between two events of a transfer: the interest list behind
-- `handle_work` and `handle_work_done`.
use imonitor.Base.{
  ℕ, ◌≡◌, ◌≢◌, ◌⊎◌, inl, inr, some, none, ℤ, arith, ==ℤ_iff, ◌==◌, Bool-cases, if◌then◌else◌, Bytes,
}
use imonitor.Sys.{
  Env, Server, Connection, state_sending, state_reading, Returns, die, load, load-some, called,
  io_getevents, eventfd, pwrite,
}
use imonitor.WEpoll.{epollin, epollout, epollinpri}
use imonitor.WEpoll.Interest.{interest}
use imonitor.Aio.{complete, submitted}
use imonitor.Handlers.{handle_work, handle_work_done, work_done, finish}
use imonitor.Transfer.Defs.{Honest}
use imonitor.Transfer.Work.{done_lem, closing}

module _ (env : Env) {file : ℤ} {content : Bytes} (honest : Honest env file content) where
  -- On a system where no call fails, behind an event that submits a read or a write, where the new
  -- eventfd is another descriptor than the socket: the socket is registered for input alone, so that
  -- it starts no second operation, and the eventfd is registered for the completion.
  pub handle_work-interest :
      (p : ℕ) (s : Server) (c : Connection)
      → s.heap p ≡ some c
      → (c.state ≡ state_reading) ⊎ (c.state ≡ state_sending)
      → (env.reply s.trace eventfd).rc ≢ c.sockfd
      → Returns
          (λ _ s'.
            (interest s.epollfd s'.trace c.sockfd ≡ some (record { events = epollin; payload = p }))
            × (interest s.epollfd s'.trace (env.reply s.trace eventfd).rc
                ≡ some (record { events = epollinpri; payload = p })))
          (handle_work env p s)
  unfolding handle_work die load
  handle_work-interest p s c h (inl e) other =
      grind (arith, honest.ctl_ok, honest.submit_ok, ==ℤ_iff)
  handle_work-interest p s c h (inr e) other =
      grind (arith, honest.ctl_ok, honest.submit_ok, ==ℤ_iff)

  -- The end of a transfer whose eventfd is out of the list.
  finish-interest :
      (p : ℕ) (s : Server) (c : Connection)
      → s.heap p ≡ some c
      → interest s.epollfd s.trace c.eventfd ≡ none
      → Returns
          (λ _ s'.
            (interest s.epollfd s'.trace c.eventfd ≡ none)
            × (interest s.epollfd s'.trace c.sockfd ≡ none))
          (finish env p c s)
  unfolding finish die load
  finish-interest p s c h gone = grind (arith, honest.ctl_ok, ==ℤ_iff)

  -- On a system where no call fails, behind the completion of a write, where the eventfd is another
  -- descriptor than the socket: the eventfd is out of the interest list, and the socket is out of it
  -- too if the transfer is over, and else registered for output alone.
  pub handle_work_done-interest :
      (p : ℕ) (s : Server) (c : Connection) (fd : ℤ) (text : Bytes) (n : ℕ)
      → s.heap p ≡ some c
      → c.state ≡ state_sending
      → submitted c.ctx s.trace ≡ some (pwrite fd text n 0)
      → c.eventfd ≢ c.sockfd
      → Returns
          (λ _ s'.
            (interest s.epollfd s'.trace c.eventfd ≡ none)
            × (interest s.epollfd s'.trace c.sockfd ≡ (
                if c.send_len == c.file_dimension
                then none
                else some (record { events = epollout; payload = p }))))
          (handle_work_done env p s)
  unfolding complete work_done load die
  handle_work_done-interest p s c fd text n h e sub other =
      elim (Bool-cases (c.send_len == c.file_dimension)) [
        | inl over ↦
            rw
              (
                done_lem env honest p s c h,
                sub,
                e,
                load-some p (called env (io_getevents c.ctx) (closing env honest p c s)) h,
                over,
              )
              (finish-interest p _ c h (grind (arith, honest.ctl_ok, ==ℤ_iff)))
        | inr more ↦
            rw (done_lem env honest p s c h, sub, e, more) (grind (arith, honest.ctl_ok, ==ℤ_iff))
      ]
