-- ===== src/Tests/Clients.antt =====
-- Two clients at the same time, each asking for its own file.
use imonitor.Base.{
  suc, ◌*◌, ℕ, ◌≡◌, ◌⊎◌, inl, inr, refl, sym, ◌∙◌, Bool, true, false, some, none, List, [], ◌∷◌,
  ◌++◌, codes, pos, arith, length, replicate, Bool-cases, ◌==◌,
}
use mathlib.Core.Option.{some-injective}
use imonitor.Sys.{Server, Connection, Reply, io_setup, update, Returns}
use imonitor.Utils.{header200}
use imonitor.Aio.{submitted}
use imonitor.Transfer.Defs.{delivered}
use imonitor.Transfer.Rounds.{out_event, in_event}
use imonitor.Transfer.Apart.{dispatch_all}
use imonitor.Transfer.Complete.{Finished, blocks}
use imonitor.Transfer.Serve.{Asked, answer_events}
use imonitor.Transfer.Together.{events_for, Customer, answer-all}
use imonitor.Safety.Frame.{alive}
use imonitor.Safety.Valid.{Sound, Valid}
use imonitor.Tests.{asking, one_connection, plain}
use imonitor.Tests.Requests.{request}
use imonitor.Tests.Shop.{shop_env, shop_env-Honest, shop_env-Stored, shop_env-System}

-- The first client has the socket 7, the address 5 and the context 2, the second the socket 10, the
-- address 1 and the context 3.
abbrev first_client : Connection
first_client = record (asking 0) {
  recv_buffer = request ++ replicate 493 0;
  send_buffer = replicate 512 0;
  request_path = codes "/a" ++ replicate 510 0;
}

abbrev second_client : Connection
second_client = record first_client {
  sockfd = pos 10;
  request_path = codes "/b" ++ replicate 510 0;
  ctx = 3;
}

abbrev shop : Server
shop = record (one_connection first_client) {
  request_path = codes "/b" ++ replicate 510 0;
  heap = update (update (λ _. none) 5 (some first_client)) 1 (some second_client);
  trace = (io_setup, plain (pos 0) [] 3) ∷ (io_setup, plain (pos 0) [] 2) ∷ [];
}

first_client-Asked : Asked shop_env 5 first_client (codes "a") shop
unfolding delivered
first_client-Asked = record {
  ordinary = record { not_listener = refl; not_inotify = refl };
  live = refl;
  state = refl;
  named = refl;
  fits = refl;
  fresh = refl;
  silent = refl;
}

second_client-Asked : Asked shop_env 1 second_client (codes "b") shop
unfolding delivered
second_client-Asked = record {
  ordinary = record { not_listener = refl; not_inotify = refl };
  live = refl;
  state = refl;
  named = refl;
  fits = refl;
  fresh = refl;
  silent = refl;
}

first_client-Sound : Sound shop_env 5 first_client shop.trace
unfolding submitted alive
first_client-Sound = record {
  recv_size = omega arith;
  send_size = omega arith;
  cleared = λ e. absurd (ground arith);
  named = λ e. (codes "a", refl);
  own = tt;
  open_context = refl;
}

second_client-Sound : Sound shop_env 1 second_client shop.trace
unfolding submitted alive
second_client-Sound = record {
  recv_size = omega arith;
  send_size = omega arith;
  cleared = λ e. absurd (ground arith);
  named = λ e. (codes "b", refl);
  own = tt;
  open_context = refl;
}

either :
    (p : ℕ) (c : Connection)
    → shop.heap p ≡ some c
    → ((p ≡ 1) × (c ≡ second_client)) ⊎ ((p ≡ 5) × (c ≡ first_client))
either p c h = elim (Bool-cases (p == 1)) [
  | inl e ↦ inl (ground arith, some-injective c second_client (sym (rw e at h)))
  | inr e ↦ elim (Bool-cases (p == 5)) [
    | inl f ↦ inr (ground arith, some-injective c first_client (sym (rw (e, f) at h)))
    | inr f ↦ absurd (ground arith)
  ]
]

shop-Valid : Valid shop_env shop
shop-Valid = record {
  path_size = omega arith;
  sound = λ p c h. elim (either p c h) [
    | inl (at, same) ↦ rw (at, same) second_client-Sound
    | inr (at, same) ↦ rw (at, same) first_client-Sound
  ];
  apart = λ p q c d h i e. elim (either p c h) [
    | inl (at, same) ↦ elim (either q d i) [
      | inl (at2, same2) ↦ at ∙ sym at2
      | inr (at2, same2) ↦ absurd (ground arith)
    ]
    | inr (at, same) ↦ elim (either q d i) [
      | inl (at2, same2) ↦ absurd (ground arith)
      | inr (at2, same2) ↦ at ∙ sym at2
    ]
  ];
}

abbrev customer : Bool → Customer shop_env shop
customer true = record {
  p = 5;
  c = first_client;
  path = codes "a";
  file = pos 9;
  content = codes "hello";
  asked = first_client-Asked;
  stored = shop_env-Stored (codes "a") refl;
  honest = shop_env-Honest (pos 9);
  small = omega arith;
}
customer false = record {
  p = 1;
  c = second_client;
  path = codes "b";
  file = pos 8;
  content = codes "bye";
  asked = second_client-Asked;
  stored = shop_env-Stored (codes "b") refl;
  honest = shop_env-Honest (pos 8);
  small = omega arith;
}

-- The two answers, event by event.
abbrev events : List Reply
events =
    out_event 5
    ∷ out_event 1
    ∷ out_event 1
    ∷ out_event 5
    ∷ in_event 1
    ∷ out_event 1
    ∷ in_event 1
    ∷ in_event 5
    ∷ out_event 5
    ∷ out_event 1
    ∷ in_event 5
    ∷ in_event 1
    ∷ out_event 5
    ∷ in_event 5
    ∷ []

own_events :
    (i : Bool)
    → events_for (customer i).p events
      ≡ answer_events (customer i).p (suc (2 * blocks shop_env (customer i).content))
unfolding events_for blocks
own_events true = refl
own_events false = refl

answer-all_example :
    Returns
      (λ _ s'.
        (i : Bool)
        → let content = (customer i).content in
          Finished
            (customer i).p
            (customer i).c.ctx
            (customer i).c.sockfd
            (header200 (pos (length content)) ++ content)
            s')
      (dispatch_all shop_env events shop)
answer-all_example =
    answer-all shop_env shop_env-System shop shop-Valid customer events
      (
        (true, refl),
        (
          (false, refl),
          (
            (false, refl),
            (
              (true, refl),
              (
                (false, refl),
                (
                  (false, refl),
                  (
                    (false, refl),
                    (
                      (true, refl),
                      (
                        (true, refl),
                        (
                          (false, refl),
                          ((true, refl), ((false, refl), ((true, refl), ((true, refl), tt)))),
                        ),
                      ),
                    ),
                  ),
                ),
              ),
            ),
          ),
        ),
      )
      own_events
