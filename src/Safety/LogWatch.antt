-- ===== src/Safety/LogWatch.antt =====
-- A change of the login database keeps the registrations of epoll in order.
use imonitor.Base.{
  ℕ, ◌≡◌, refl, sym, ap, ◌∙◌, false, [], ◌∷◌, Bytes, ℤ, replicate, Bool-cases, inl, inr,
}
use mathlib.Core.Option
use imonitor.Sys.{
  Env, Server, Call, Utmpx, EpollEvent, Yields, Yields-bind, Yields-mono, Yields-defined,
  Yields-die, die, called, sprintf, c_string, write, read, open_file, o_rdonly, lseek, seek_end,
}
use imonitor.WEpoll.Interest.{interest}
use imonitor.Logfile.{
  is_logged, user_column, type_column, place_columns, time_column, log_text, write_log,
}
use imonitor.Main.{handle_inotify, minus, zero_utmpx}
use imonitor.Safety.Effects.{Unwatching, Unwatching-trans}
use imonitor.Safety.ReceiveEffects.{is_watch, Unwatching-called}
use imonitor.Safety.ParseEffects.{die-ok}
use imonitor.Safety.Registered.{Plain, Watch, Registered}

-- Nothing that the registrations depend on has changed.
pub record Untouched (s s' : Server) : Type 0 where
  pub same_heap : s'.heap ≡ s.heap
  pub same_listenfd : s'.listenfd ≡ s.listenfd
  pub same_inotifyfd : s'.inotifyfd ≡ s.inotifyfd
  pub watching : Unwatching s s'

pub Untouched-called :
    (env : Env) (c : Call) (s : Server) → is_watch c ≡ false → Untouched s (called env c s)
Untouched-called env c s h = record {
  same_heap = refl;
  same_listenfd = refl;
  same_inotifyfd = refl;
  watching = Unwatching-called env c s h;
}

pub Untouched-trans : {s s1 s2 : Server} → Untouched s s1 → Untouched s1 s2 → Untouched s s2
Untouched-trans f g = record {
  same_heap = g.same_heap ∙ f.same_heap;
  same_listenfd = g.same_listenfd ∙ f.same_listenfd;
  same_inotifyfd = g.same_inotifyfd ∙ f.same_inotifyfd;
  watching = Unwatching-trans f.watching g.watching;
}

pub Registered-Untouched : {s s' : Server} → Registered s → Untouched s s' → Registered s'
Registered-Untouched {s} {s'} r u =
    let back : (fd : ℤ) (ev : EpollEvent) → Watch s' fd ev → Watch s fd ev = λ fd ev w.
      sym (u.watching.same_interest fd)
      ∙ ap (λ e. interest e s'.trace fd) (sym u.watching.same_epollfd)
      ∙ w in
    let plain : (a : ℕ) → Plain s' a → Plain s a =
      λ a h. (rw u.same_listenfd at h.0, rw u.same_inotifyfd at h.1) in
    record {
      known = λ fd ev w h.
          let (c, (found, owned)) = r.known fd ev (back fd ev w) (plain ev.payload h) in
          (c, (rw u.same_heap found, owned));
      single = λ fd other ev ev2 w w2 e h out.
          r.single fd other ev ev2 (back fd ev w) (back other ev2 w2) e (plain ev.payload h) out;
      live = λ p c h. u.watching.same_allocated p ∙ r.live p c (rw u.same_heap at h);
      sized = λ p c h.
          let old = r.sized p c (rw u.same_heap at h) in
          (old.0, λ fd ev w e out. old.1 fd ev (back fd ev w) e out);
      writes = u.watching.same_contained ∙ r.writes;
    }

module _ (env : Env) where
  log_text-Untouched :
      (text : Bytes) (s : Server) → Yields (λ _ s'. Untouched s s') (log_text env text s)
  unfolding log_text
  log_text-Untouched text s = Yields-defined (sprintf (replicate env.bufsiz 0) text) s _ _ λ a _.
      Yields-defined (c_string a) s _ _ λ line _.
        Yields-mono (die _ (called env (write s.logfd line) s)) _ _ (die-ok _ _)
          λ _ s2 (e, _). rw e (Untouched-called env (write s.logfd line) s refl)

  write_log-Untouched :
      (ut : Utmpx) (s : Server) → Yields (λ _ s'. Untouched s s') (write_log env ut s)
  unfolding write_log
  write_log-Untouched ut s = elim (Bool-cases (is_logged ut.ut_type)) [
    | inl kind ↦ rw kind (
        Yields-defined (user_column ut) s _ _ λ user _.
          Yields-bind (log_text env user s) _ _ _ (log_text-Untouched _ s) λ _ s1 h1.
            Yields-bind (log_text env (type_column ut) s1) _ _ _ (log_text-Untouched _ s1)
              λ _ s2 h2. Yields-defined (place_columns ut) s2 _ _ λ place _.
                Yields-bind (log_text env place s2) _ _ _ (log_text-Untouched _ s2) λ _ s3 h3.
                  Yields-mono (log_text env (time_column env ut) s3) _ _ (log_text-Untouched _ s3)
                    λ _ s4 h4. Untouched-trans h1 (Untouched-trans h2 (Untouched-trans h3 h4)))
    | inr other ↦ rw other record {
      same_heap = refl;
      same_listenfd = refl;
      same_inotifyfd = refl;
      watching = record {
        same_epollfd = refl;
        same_interest = λ fd. refl;
        same_allocated = λ q. refl;
        same_contained = refl;
      };
    }
  ]

  -- A change of the login database touches no registration.
  pub handle_inotify-Untouched :
      (fd : ℤ) (s : Server) → Yields (λ _ s'. Untouched s s') (handle_inotify env fd s)
  unfolding handle_inotify
  handle_inotify-Untouched fd s =
      let s1 : Server = called env (read fd env.bufsiz) s in
      let open_wtmp = open_file env.path_wtmp (o_rdonly ∷ []) in
      let wtmp = (env.reply s1.trace open_wtmp).rc in
      let s2 : Server = called env open_wtmp s1 in
      let seek = lseek wtmp (minus env.sizeof_utmpx) seek_end in
      let s3 : Server = called env seek s2 in
      let call = read wtmp env.sizeof_utmpx in
      let entry = Option.get_or (env.reply s3.trace call).entry zero_utmpx in
      let s4 : Server = called env call s3 in
      let before : Untouched s s4 =
        Untouched-trans (Untouched-called env (read fd env.bufsiz) s refl) (
          Untouched-trans (Untouched-called env open_wtmp s1 refl) (
            Untouched-trans (Untouched-called env seek s2 refl)
              (Untouched-called env call s3 refl))) in
      Yields-die _ s1 _ _ λ _. Yields-die _ s2 _ _ λ _. Yields-die _ s4 _ _ λ _.
        Yields-mono (write_log env entry s4) _ _ (write_log-Untouched entry s4)
          λ _ s5 u. Untouched-trans before u
