-- ===== src/Tests/Together.antt =====
-- Two clients at the same time: one is answered while the other connects and sends its request, and
-- the login database changes.
use imonitor.Base.{
  ℕ, ◌≡◌, ◌⊎◌, inl, inr, refl, sym, ◌∙◌, Bool, true, false, some, List, [], ◌∷◌, ◌++◌, codes, ℤ,
  pos, to_size, arith, ◌==ℤ◌, ==ℤ_iff, ◌==◌, replicate, Bool-cases, to_int, to_size, add_size,
}
use mathlib.Core.Option.{some-injective}
use imonitor.Sys.{
  Server, Connection, Call, Reply, EpollEvent, io_setup, malloc_connection, epoll_ctl, ctl_add,
  Returns, Ensures, die, load, defined, sprintf, memcpy, strcpy,
}
use imonitor.Utils.{header200, is_req_finished}
use imonitor.WEpoll.{epollin, epollinout, epollinpri, epollout}
use imonitor.WEpoll.Interest.{interest}
use imonitor.Request.{peer_line}
use imonitor.Aio.{submitted, complete}
use imonitor.Main.{dispatch}
use imonitor.Transfer.Defs.{delivered}
use imonitor.Transfer.Complete.{Finished, blocks}
use imonitor.Transfer.Serve.{Asked, answer_events}
use imonitor.Transfer.Apart.{Apart, dispatch_all}
use imonitor.Safety.Apart.{dispatch-Apart}
use imonitor.Transfer.Among.{among, Fair, answer-among}
use imonitor.Safety.Frame.{alive}
use imonitor.Safety.Contained.{contained}
use imonitor.Safety.Valid.{Sound, Valid}
use imonitor.Safety.Registered.{allocated, Registered}
use imonitor.Tests.{asking, one_connection, plain}
use imonitor.Tests.Requests.{request}
use imonitor.Tests.Crowd.{
  text, crowd_env, crowd_env-Honest, crowd_env-Stored, crowd_env-System, crowd_env-MallocFresh,
}

-- The client that is answered: its socket is 7, its address 5 and its context 2.
abbrev first_client : Connection
first_client = record (asking 0) {
  recv_buffer = request ++ replicate 493 0;
  send_buffer = replicate 512 0;
  request_path = codes "/a" ++ replicate 510 0;
}

abbrev pub watching : (fd payload : ℕ) → Call
watching fd payload =
    epoll_ctl (pos 3) ctl_add (pos fd) (record { events = epollin; payload = payload })

abbrev pub crowd : Server
crowd = record (one_connection first_client) {
  request_path = codes "/a" ++ replicate 510 0;
  trace =
      (
        epoll_ctl (pos 3) ctl_add (pos 7) (record { events = epollinout; payload = 5 }),
        plain (pos 0) [] 0,
      )
      ∷ (watching 4 4, plain (pos 0) [] 0)
      ∷ (watching 6 6, plain (pos 0) [] 0)
      ∷ (io_setup, plain (pos 0) [] 2)
      ∷ (malloc_connection, plain (pos 0) [] 5)
      ∷ [];
}

first_client-Asked : Asked crowd_env 5 first_client (codes "a") crowd
unfolding delivered
first_client-Asked = record {
  ordinary = record { not_listener = refl; not_inotify = refl };
  live = refl;
  state = refl;
  named = refl;
  fits = refl;
  fresh = refl;
  silent = refl;
}

first_client-Sound : Sound crowd_env 5 first_client crowd.trace
unfolding submitted alive
first_client-Sound = record {
  recv_size = omega arith;
  send_size = omega arith;
  cleared = λ e. absurd (ground arith);
  named = λ e. (codes "a", refl);
  own = tt;
  open_context = refl;
}

alone : (p : ℕ) (c : Connection) → crowd.heap p ≡ some c → (p ≡ 5) × (c ≡ first_client)
alone p c h = elim (Bool-cases (p == 5)) [
  | inl e ↦ (ground arith, some-injective c first_client (sym (rw e at h)))
  | inr e ↦ absurd (ground arith)
]

pub crowd-Valid : Valid crowd_env crowd
crowd-Valid = record {
  path_size = omega arith;
  sound = λ p c h. let (at, same) = alone p c h in rw (at, same) first_client-Sound;
  apart = λ p q c d h i e. (alone p c h).0 ∙ sym (alone q d i).0;
}

-- What epoll watches.
watched :
    (fd : ℤ) (ev : EpollEvent)
    → interest (pos 3) crowd.trace fd ≡ some ev
    → ((fd ≡ pos 7) × (ev.payload ≡ 5)) ⊎ ((ev.payload ≡ 4) ⊎ (ev.payload ≡ 6))
watched fd ev h = elim (Bool-cases (pos 7 ==ℤ fd)) [
  | inl e ↦ inl (grind (arith, ==ℤ_iff))
  | inr e ↦ elim (Bool-cases (pos 4 ==ℤ fd)) [
    | inl f ↦ inr (inl (grind (arith, ==ℤ_iff)))
    | inr f ↦ inr (inr (grind (arith, ==ℤ_iff)))
  ]
]

true-ne-false : true ≡ false → ⊥
true-ne-false e = ground arith

pub crowd-Registered : Registered crowd
unfolding allocated contained
crowd-Registered = record {
  known = λ fd ev w plain. elim (watched fd ev w) [
    | inl (at, own) ↦ (first_client, (rw own refl, inl at))
    | inr (inl own) ↦ absurd (true-ne-false (rw own at plain.0))
    | inr (inr own) ↦ absurd (true-ne-false (rw own at plain.1))
  ];
  single = λ fd other ev ev2 w w2 e plain out. elim (watched fd ev w) [
    | inl (at, own) ↦ elim (watched other ev2 w2) [
      | inl (at2, _) ↦ at2 ∙ sym at
      | inr (inl own2) ↦ absurd (ground arith)
      | inr (inr own2) ↦ absurd (ground arith)
    ]
    | inr (inl own) ↦ absurd (true-ne-false (rw own at plain.0))
    | inr (inr own) ↦ absurd (true-ne-false (rw own at plain.1))
  ];
  live = λ p c h. rw ((alone p c h).0) refl;
  sized = λ p c h.
      let (at, same) = alone p c h in
      rw same (
        λ t. absurd (elim t [ inl r ↦ ground arith | inr r ↦ ground arith ]),
        λ fd ev w e out sending. absurd (ground arith),
      );
  writes = refl;
}

-- A client connects before the answer begins, its request comes before the header is sent, and the
-- login database changes before the header is reported.
abbrev gaps : List (List Reply)
gaps = (plain (pos 1) [] 4 ∷ []) ∷ (plain (pos 1) [] 1 ∷ []) ∷ (plain (pos 1) [] 6 ∷ []) ∷ []

pub no_output : (b : Bool) → false ≡ true → b ≡ true
no_output b e = absurd (true-ne-false (sym e))

-- The payload and the mask that a descriptor is registered for.
abbrev pub input : ℕ → EpollEvent
input payload = record { events = epollin; payload = payload }

-- The registrations of the first client's socket and eventfd.
abbrev pub both : EpollEvent
both = record { events = epollinout; payload = 5 }

abbrev output : EpollEvent
output = record { events = epollout; payload = 5 }

abbrev completion : EpollEvent
completion = record { events = epollinpri; payload = 5 }

crowd-Fair : Fair crowd_env 5 (among (answer_events 5 3) gaps) crowd
unfolding among dispatch die load defined alive allocated submitted sprintf memcpy strcpy to_int
    to_size add_size is_req_finished peer_line complete
crowd-Fair = (
  (pos 4, (input 4, (refl, (refl, no_output _)))),
  (
    (pos 7, (both, (refl, (refl, λ e. refl)))),
    (
      (pos 10, (input 1, (refl, (refl, no_output _)))),
      (
        (pos 7, (both, (refl, (refl, λ e. refl)))),
        (
          (pos 6, (input 6, (refl, (refl, no_output _)))),
          (
            (pos 8, (completion, (refl, (refl, no_output _)))),
            (
              (pos 7, (output, (refl, (refl, λ e. refl)))),
              (
                (pos 8, (completion, (refl, (refl, no_output _)))),
                (
                  (pos 7, (output, (refl, (refl, λ e. refl)))),
                  ((pos 8, (completion, (refl, (refl, no_output _)))), tt),
                ),
              ),
            ),
          ),
        ),
      ),
    ),
  ),
)

answer-among_example :
    Returns
      (λ _. Finished 5 2 (pos 7) (header200 (pos 5) ++ text))
      (dispatch_all crowd_env (among (answer_events 5 3) gaps) crowd)
unfolding blocks
answer-among_example =
    answer-among crowd_env crowd_env-System crowd_env-MallocFresh crowd_env-Honest crowd_env-Stored
      (omega arith) 5 first_client crowd first_client-Asked (crowd-Valid, crowd-Registered) gaps
      (((omega arith), tt), (((omega arith), tt), (((omega arith), tt), tt))) crowd-Fair

dispatch-Apart_example :
    Ensures (λ _. Apart 5 2 crowd) (dispatch crowd_env (plain (pos 1) [] 4) crowd)
dispatch-Apart_example =
    dispatch-Apart crowd_env crowd_env-System crowd_env-MallocFresh crowd crowd-Valid
      crowd-Registered 5 first_client refl (plain (pos 1) [] 4) (inl refl) (omega arith)
