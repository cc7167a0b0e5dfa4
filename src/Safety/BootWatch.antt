-- ===== src/Safety/BootWatch.antt =====
-- The start of `main` registers the listening socket and the inotify instance, and nothing else.
use imonitor.Base.{
  ℕ, ◌≡◌, ◌⊎◌, inl, inr, sym, ap, ◌∙◌, true, false, none, some, ℤ, arith, is_neg, IsInt, ==ℤ_iff,
}
use imonitor.Sys.{
  Env, Server, Trace, Ensures, Ensures-bind, Ensures-mono, Ensures-die, called, epoll_create,
  inotify_init, inotify_add_watch, socket, epoll_ctl, ctl_add, EpollEvent,
}
use imonitor.WEpoll.{epollin, with_fd, fd_of}
use imonitor.WEpoll.Interest.{interest}
use imonitor.WEpoll.Payload.{fd_of-with_fd}
use imonitor.SockUtil.{default_listen_backlog, tcp_create_listener}
use imonitor.Main.{imonitor_listen_port, start_waiting}
use imonitor.Main.Waiting.{tcp_create_listener-interest}
use imonitor.Safety.NewWatch.{added-cases}
use imonitor.Safety.Contained.{contained}
use imonitor.Safety.Registered.{Plain, Watch, Registered}

-- The kernel returns descriptors in the range of `int`, and new epoll instances without registrations.
pub record Kernel (env : Env) : Type 0 where
  pub small_inotify : (t : Trace) → IsInt (env.reply t inotify_init).rc
  pub small_socket : (t : Trace) → IsInt (env.reply t socket).rc
  pub new_instance :
      (t : Trace) (fd : ℤ)
      → is_neg (env.reply t epoll_create).rc ≡ false
      → interest (env.reply t epoll_create).rc t fd ≡ none

-- Every registration is for one of the two descriptors that the loop compares with.
abbrev pub OnlyOurs : Server → Type 0
OnlyOurs s =
    (fd : ℤ) (ev : EpollEvent)
    → Watch s fd ev
    → (fd_of ev.payload ≡ s.inotifyfd) ⊎ (fd_of ev.payload ≡ s.listenfd)

OnlyOurs-Registered :
    (s : Server)
    → ((p : ℕ) → s.heap p ≡ none)
    → contained s.trace ≡ true
    → OnlyOurs s
    → Registered s
OnlyOurs-Registered s empty writes ours =
    let refuse : (fd : ℤ) (ev : EpollEvent) → Watch s fd ev → Plain s ev.payload → ⊥ =
      λ fd ev w plain. elim (ours fd ev w) [
        | inl e ↦ absurd (grind (arith, ==ℤ_iff))
        | inr e ↦ absurd (grind (arith, ==ℤ_iff))
      ] in
    record {
      known = λ fd ev w plain. absurd (refuse fd ev w plain);
      single = λ fd other ev ev2 w w2 e plain out. absurd (refuse fd ev w plain);
      live = λ p c h. absurd (grind (arith, empty));
      sized = λ p c h. absurd (grind (arith, empty));
      writes = writes;
    }

pub start_waiting-OnlyOurs :
    (env : Env) (kernel : Kernel env) (s : Server)
    → Ensures (λ _ s'. OnlyOurs s') (start_waiting env s)
unfolding start_waiting
start_waiting-OnlyOurs env kernel s =
    let ep = (env.reply s.trace epoll_create).rc in
    let s1 : Server = record (called env epoll_create s) { epollfd = ep } in
    let i = (env.reply s1.trace inotify_init).rc in
    let s2 : Server = record (called env inotify_init s1) { inotifyfd = i } in
    let watch = inotify_add_watch i env.path_wtmp in
    let s3 : Server = record (called env watch s2) { wtmpfd = (env.reply s2.trace watch).rc } in
    let first : EpollEvent = record {
      events = epollin;
      payload = with_fd (env.junk_half s3.trace) i;
    } in
    let s4 : Server = called env (epoll_ctl ep ctl_add i first) s3 in
    Ensures-die _ s1 _ _ λ ok. Ensures-die _ s2 _ _ λ _. Ensures-die _ s3 _ _ λ _.
      Ensures-die _ s4 _ _ λ _.
        Ensures-bind (tcp_create_listener env imonitor_listen_port default_listen_backlog s4) _ _ _
          (tcp_create_listener-interest env imonitor_listen_port default_listen_backlog s4)
          λ l s5 (sock, (same_ep, (same_inotify, kept))).
            let s6 : Server = record s5 { listenfd = l } in
            let second : EpollEvent = record {
              events = epollin;
              payload = with_fd (env.junk_half s5.trace) l;
            } in
            let s7 : Server = called env (epoll_ctl ep ctl_add l second) s6 in
            Ensures-die _ s6 _ _ λ _. Ensures-die _ s7 _ _ λ _. λ fd ev w.
              let here : interest ep s7.trace fd ≡ some ev =
                ap (λ e. interest e s7.trace fd) (sym same_ep) ∙ w in
              elim (added-cases env (record s6 { epollfd = ep }) l fd second ev here) [
                | inl (_, e) ↦ inr (
                    ap {A = EpollEvent} (λ x. fd_of x.payload) (sym e)
                    ∙ fd_of-with_fd _ l (rw sock (kernel.small_socket s4.trace)))
                | inr old ↦ elim (added-cases env s3 i fd first ev (sym (kept ep fd) ∙ old)) [
                  | inl (_, e) ↦ inl (
                      ap {A = EpollEvent} (λ x. fd_of x.payload) (sym e)
                      ∙ fd_of-with_fd _ i (kernel.small_inotify s1.trace)
                      ∙ sym same_inotify)
                  | inr before ↦ absurd (ground (arith, kernel.new_instance s.trace fd ok))
                ]
              ]

-- Behind the start the registrations are in order, where no connection is allocated.
pub start_waiting-Registered :
    (env : Env)
    → Kernel env
    → (s : Server)
    → Ensures
        (λ _ s'. ((p : ℕ) → s'.heap p ≡ none) → contained s'.trace ≡ true → Registered s')
        (start_waiting env s)
start_waiting-Registered env kernel s =
    Ensures-mono (start_waiting env s) _ _ (start_waiting-OnlyOurs env kernel s)
      λ _ s' ours empty writes. OnlyOurs-Registered s' empty writes ours
