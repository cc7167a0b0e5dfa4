-- ===== src/Safety/ParseEffects.antt =====
-- What `parse_request` changes: nothing of the interest list.
use imonitor.Base.{
  ℕ, ◌≡◌, refl, ap, ◌∙◌, ◌⊎◌, inl, inr, Bool, true, false, some, List, [], ◌∷◌, Bytes, ℤ, pos,
  arith, is_neg, ◌==ℤ◌, ==ℤ_iff, replicate, Bool-cases,
}
use imonitor.Sys.{
  Env, Server, Connection, state_data_received, EpollEvent, Yields, Yields-bind, Yields-mono,
  Yields-defined, ParserCall, message_begin, path, query_string, url, fragment, header_field,
  header_value, headers_complete, body, message_complete, die, load-some, c_string, strcpy, update,
  called, fprintf_stderr, epoll_ctl, ctl_mod, memcpy,
}
use imonitor.WEpoll.Interest.{interest}
use imonitor.Request.{callback, callbacks, settings_on_path, on_path_cb, parse_request}
use imonitor.Safety.Work.{InTransfer}
use imonitor.Safety.ReceiveEffects.{Handled, called-Handled}

-- The callbacks of a parse change the global path alone.
abbrev OnPath : Server → Server → Type 0
OnPath s s' = s' ≡ record s { request_path = s'.request_path }

callback-OnPath :
    (c : ParserCall) (s : Server) → Yields (λ _ s'. OnPath s s') (callback settings_on_path c s)
unfolding callback settings_on_path on_path_cb
callback-OnPath message_begin s = refl
callback-OnPath (path b) s = refl
callback-OnPath (query_string b) s = refl
callback-OnPath (url b) s = Yields-defined (memcpy s.request_path b) s _ _ λ a _. refl
callback-OnPath (fragment b) s = refl
callback-OnPath (header_field b) s = refl
callback-OnPath (header_value b) s = refl
callback-OnPath headers_complete s = refl
callback-OnPath (body b) s = refl
callback-OnPath message_complete s = refl

callbacks-OnPath :
    (cs : List ParserCall) (s : Server)
    → Yields (λ _ s'. OnPath s s') (callbacks settings_on_path cs s)
unfolding callbacks
callbacks-OnPath [] s = refl
callbacks-OnPath (c ∷ cs) s =
    Yields-bind (callback settings_on_path c s) _ _ _ (callback-OnPath c s) λ rc s1 e.
      elim (Bool-cases (rc ==ℤ pos 0)) [
        | inl more ↦ rw more (
            Yields-mono (callbacks settings_on_path cs s1) _ _ (callbacks-OnPath cs s1)
              λ _ s2 f. f ∙ ap {A = Server} (λ t. record t { request_path = s2.request_path }) e)
        | inr over ↦ rw over e
      ]

-- What holds behind an assertion of DIE.
pub die-ok : (b : Bool) (s : Server) → Yields (λ _ s'. (s' ≡ s) × (b ≡ false)) (die b s)
unfolding die
die-ok true s = tt
die-ok false s = (refl, refl)

-- A call of `epoll_ctl` that modifies a registration and succeeds.
pub modified-cases :
    (env : Env) (s : Server) (sock fd : ℤ) (ev e : EpollEvent)
    → is_neg (env.reply s.trace (epoll_ctl s.epollfd ctl_mod sock ev)).rc ≡ false
    → interest s.epollfd (called env (epoll_ctl s.epollfd ctl_mod sock ev) s).trace fd ≡ some e
    → ((e.payload ≡ ev.payload) × (fd ≡ sock)) ⊎ (interest s.epollfd s.trace fd ≡ some e)
modified-cases env s sock fd ev e ok w = elim (Bool-cases (sock ==ℤ fd)) [
  | inl h ↦ inl (grind (arith, ==ℤ_iff))
  | inr h ↦ inr (grind (arith, ==ℤ_iff))
]

module _ (env : Env) (p : ℕ) where
  path-Handled :
      (s s2 : Server) (c c' : Connection) (a : Bytes)
      → s2 ≡ record s { request_path = a }
      → c'.sockfd ≡ c.sockfd
      → (InTransfer c' → ⊥)
      → Handled p c s (record s2 { heap = update s2.heap p (some c') })
  path-Handled s s2 c c' a e sock idle =
      let stored : Handled p c s (record s { request_path = a; heap = update s.heap p (some c') }) =
        record {
          kept_listenfd = refl;
          kept_inotifyfd = refl;
          others = λ q other. ground arith;
          watching = record {
            same_epollfd = refl;
            same_interest = λ fd. refl;
            same_allocated = λ q. refl;
            same_contained = refl;
          };
          connection = c';
          live = ground arith;
          same_socket = sock;
          idle = λ _. idle;
        } in
      rw e stored

  pub parse_request-Handled :
      (last : ℕ) (s : Server) (c : Connection)
      → s.heap p ≡ some c
      → Yields
          (λ state s'. (state ≡ state_data_received) × Handled p c s s')
          (parse_request env p last s)
  unfolding parse_request
  parse_request-Handled last s c h = rw (load-some p s h) (
      Yields-defined (c_string c.recv_buffer) s _ _ λ text _.
        let s1 : Server = record s { request_path = replicate env.bufsiz 0 } in
        Yields-bind (callbacks settings_on_path (env.parse text) s1) _ _ _
          (callbacks-OnPath (env.parse text) s1)
          λ _ s2 e. Yields-defined (strcpy (replicate env.bufsiz 0) s2.request_path) s2 _ _ λ a _.
            (refl, path-Handled s s2 c _ s2.request_path e refl λ transfer. absurd (ground arith)))

  -- A line that names the peer is printed.
  pub line-Handled :
      (text : Bytes) (s : Server) (c : Connection)
      → s.heap p ≡ some c
      → Handled p c s (called env (fprintf_stderr text) s)
  line-Handled text s c h = (called-Handled env p (fprintf_stderr text) s c c refl h refl λ i. i).0
