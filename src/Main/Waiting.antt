-- ===== src/Main/Waiting.antt =====
-- The start of `main` of imonitor.c: what the loop waits for behind it.
use imonitor.Base.{ℕ, ◌≡◌, ◌≢◌, refl, sym, ap, ◌∙◌, false, some, ℤ, arith, is_neg, IsInt, ==ℤ_iff}
use mathlib.Core.Path.{ap₂}
use imonitor.Sys.{
  Env, Server, Trace, Ensures, Ensures-bind, Ensures-die, die, called, epoll_create, inotify_init,
  inotify_add_watch, socket, epoll_ctl, ctl_add, EpollEvent,
}
use imonitor.WEpoll.{epollin, with_fd, fd_of}
use imonitor.WEpoll.Interest.{interest}
use imonitor.WEpoll.Payload.{fd_of-with_fd}
use imonitor.SockUtil.{default_listen_backlog, tcp_create_listener}
use imonitor.Main.{imonitor_listen_port, start_waiting}

-- The descriptor is registered for input, with itself as `data.fd`.
abbrev pub Watched : Server → ℤ → Type 0
Watched s fd =
    (ev : EpollEvent) × ((interest s.epollfd s.trace fd ≡ some ev)
      × ((ev.events ≡ epollin) × (fd_of ev.payload ≡ fd)))

registered :
    (env : Env) (ep fd : ℤ) (ev : EpollEvent) (s : Server)
    → is_neg (env.reply s.trace (epoll_ctl ep ctl_add fd ev)).rc ≡ false
    → interest ep (called env (epoll_ctl ep ctl_add fd ev) s).trace fd ≡ some ev
registered env ep fd ev s h = grind (arith, ==ℤ_iff)

registered_other :
    (env : Env) (ep f fd : ℤ) (ev : EpollEvent) (s : Server)
    → f ≢ fd
    → interest ep (called env (epoll_ctl ep ctl_add f ev) s).trace fd ≡ interest ep s.trace fd
registered_other env ep f fd ev s h = grind (arith, ==ℤ_iff)

pub tcp_create_listener-interest :
    (env : Env) (port backlog : ℕ) (s : Server)
    → Ensures
        (λ rc s'.
          (rc ≡ (env.reply s.trace socket).rc)
          × ((s'.epollfd ≡ s.epollfd)
              × ((s'.inotifyfd ≡ s.inotifyfd)
                  × ((ep fd : ℤ) → interest ep s'.trace fd ≡ interest ep s.trace fd))))
        (tcp_create_listener env port backlog s)
unfolding tcp_create_listener die
tcp_create_listener-interest env port backlog s = grind arith

-- Where the kernel returns descriptors in the range of `int`, other ones for sockets than for inotify
-- instances, the start ends by DIE, or returns with the listening socket and the inotify instance
-- registered for input, each in an event whose `data.fd` is that descriptor.
pub start_waiting-Watched :
    (env : Env) (s : Server)
    → ((t : Trace) → IsInt (env.reply t inotify_init).rc)
    → ((t : Trace) → IsInt (env.reply t socket).rc)
    → ((t u : Trace) → (env.reply t inotify_init).rc ≢ (env.reply u socket).rc)
    → Ensures (λ _ s'. Watched s' s'.inotifyfd × Watched s' s'.listenfd) (start_waiting env s)
unfolding start_waiting
start_waiting-Watched env s small_inotify small_socket apart =
    let ep = (env.reply s.trace epoll_create).rc in
    let s1 : Server = record (called env epoll_create s) { epollfd = ep } in
    let i = (env.reply s1.trace inotify_init).rc in
    let s2 : Server = record (called env inotify_init s1) { inotifyfd = i } in
    let watch = inotify_add_watch i env.path_wtmp in
    let s3 : Server = record (called env watch s2) { wtmpfd = (env.reply s2.trace watch).rc } in
    let first : EpollEvent = record {
      events = epollin;
      payload = with_fd (env.junk_half s3.trace) i;
    } in
    let add = epoll_ctl ep ctl_add i first in
    let s4 : Server = called env add s3 in
    Ensures-die _ s1 _ _ λ _. Ensures-die _ s2 _ _ λ _. Ensures-die _ s3 _ _ λ _.
      Ensures-die _ s4 _ _ λ added.
        Ensures-bind (tcp_create_listener env imonitor_listen_port default_listen_backlog s4) _ _ _
          (tcp_create_listener-interest env imonitor_listen_port default_listen_backlog s4)
          λ l s5 (sock, (same_ep, (same_inotify, kept))).
            let s6 : Server = record s5 { listenfd = l } in
            let second : EpollEvent = record {
              events = epollin;
              payload = with_fd (env.junk_half s5.trace) l;
            } in
            let s7 : Server = called env (epoll_ctl ep ctl_add l second) s6 in
            let other : l ≢ i = λ e. apart s1.trace s4.trace (sym e ∙ sock) in
            let kept_first : interest ep s7.trace i ≡ some first =
              registered_other env ep l i second s6 other
              ∙ kept ep i
              ∙ registered env ep i first s3 added in
            Ensures-die _ s6 _ _ λ _. Ensures-die _ s7 _ _ λ added2. (
              (
                first,
                (
                  ap₂ (λ e f. interest e s7.trace f) same_ep same_inotify ∙ kept_first,
                  (refl, rw same_inotify (fd_of-with_fd _ i (small_inotify s1.trace))),
                ),
              ),
              (
                second,
                (
                  ap (λ e. interest e s7.trace l) same_ep ∙ registered env ep l second s6 added2,
                  (refl, fd_of-with_fd _ l (rw sock (small_socket s4.trace))),
                ),
              ),
            )
