-- ===== src/Request/Receive.antt =====
-- The receiving loop of `receive_message`: what is in the buffer is what arrived, the loop stays
-- inside the buffer, and it ends.
use imonitor.Base.{
  append_assoc, ℕ, zero, suc, ◌+◌, ◌-◌, ◌<◌, ◌≤◌, ◌≡◌, ◌⊎◌, inl, inr, refl, ap, ◌∙◌, ◌++◌,
  append-nil, Bool, true, false, some, [], ◌∷◌, Bytes, ℤ, pos, negsuc, arith, ◌==◌, length,
  length-append, replicate, to_int_self, Bool-cases, Option-cases,
}
use imonitor.Sys.{
  Env, Server, Connection, Call, recv, Returns, Returns-bind, load-some, defined-some, die-false,
  called,
}
use imonitor.Safety.Frame.{Frame-trans, Frame-store, Frame-called, alive}
use imonitor.Aio.{submitted}
use imonitor.Logfile.Line.{written}
use imonitor.Transfer.Defs.{delivered}
use imonitor.Utils.{is_req_finished}
use imonitor.Utils.Ends.{is_req_finished-ne-none}
use imonitor.Request.{receive_once, receive_loop, Received}
use imonitor.Request.Arrival.{
  segment, Network, holding, memcpy_at-holding, Holds, arrived, arrived-recv,
}

-- What one round of the loop leaves: more text, or the same text and the end of the loop.
record Once (env : Env) (p : ℕ) (c : Connection) (s0 : Server) (text : Bytes) (end : Received)
    (total : ℕ) (more : Bool) (s : Server) : Type 0 where
  next : Bytes
  holds : Holds env p c s0 next s
  size : total ≡ length next
  grows : more ≡ true → length text < length next

ℤ-cases : (z : ℤ) → ((n : ℕ) × (z ≡ negsuc n)) ⊎ ((n : ℕ) × (z ≡ pos n))
ℤ-cases (negsuc n) = inl (n, refl)
ℤ-cases (pos n) = inr (n, refl)

length-zero : (bytes : Bytes) → length bytes ≡ 0 → bytes ≡ []
length-zero [] h = refl
length-zero (b ∷ bs) h = absurd (omega arith)

suc-eqb-zero : (n : ℕ) → (suc n == 0) ≡ false
suc-eqb-zero n = ground arith

module _ (env : Env) (network : Network env) (int_sized : env.bufsiz < 0x8000_0000) (p : ℕ)
    (c : Connection) (s0 : Server) where
  module _ (text : Bytes) (s : Server) (h : Holds env p c s0 text s) where
    -- The call of this round, its bytes, and the text with them.
    abbrev this_recv : Call
    this_recv = recv c.sockfd (env.bufsiz - length text)

    abbrev longer : Bytes
    longer = text ++ (env.reply s.trace this_recv).bytes

    -- Four bytes have arrived behind every segment.
    four_at_least :
        (n : ℕ) → (env.reply s.trace this_recv).rc ≡ pos (suc n) → 4 ≤ length text + suc n
    four_at_least n got = elim h.started [
      | inl nothing ↦
          let whole : env.bufsiz - length text ≡ env.bufsiz = rw nothing (omega arith) in
          let first = network.first s.trace c.sockfd n (rw whole at got) in omega arith
      | inr enough ↦ omega arith
    ]

    -- The test of the loop has a result behind every segment.
    test_defined :
        (n : ℕ)
        → (env.reply s.trace this_recv).rc ≡ pos (suc n)
        → (b : Bool) × (is_req_finished (holding env c longer).recv_buffer (length text + suc n)
            ≡ some b)
    test_defined n got =
        let bytes = (env.reply s.trace this_recv).bytes in
        let (count, fits) =
          network.counted s.trace c.sockfd (env.bufsiz - length text) (suc n) got in
        let inside = h.inside in
        let zeros : Bytes = replicate (env.bufsiz - length longer) 0 in
        let four = four_at_least n got in
        elim (Option-cases (is_req_finished (longer ++ zeros) (length text + suc n))) [
          | inl out ↦ absurd (
              is_req_finished-ne-none (longer ++ zeros) (length text + suc n) four
                (omega (arith, length-append longer zeros, length-append text bytes)) out)
          | inr found ↦ found
        ]

    receive_once-ended :
        (n : ℕ)
        → (env.reply s.trace this_recv).rc ≡ pos (suc n)
        → Returns
            (λ (end, total, more) s'. Once env p c s0 text end total more s')
            (receive_once env p (length text) s)
    unfolding receive_once submitted alive delivered written
    receive_once-ended n got =
        let bytes = (env.reply s.trace this_recv).bytes in
        let (count, fits) =
          network.counted s.trace c.sockfd (env.bufsiz - length text) (suc n) got in
        let inside = h.inside in
        let size = length-append text bytes in
        let (b, test) = test_defined n got in
        rw
          (
            load-some p s h.live,
            got,
            suc-eqb-zero n,
            defined-some _ _ (memcpy_at-holding env.bufsiz text bytes (omega arith)),
            to_int_self (pos (length text + suc n)) (omega arith),
            die-false,
            defined-some _ _ test,
          )
          record {
            next = longer;
            holds = record {
              live = ground arith;
              all =
                  (rw got at (arrived-recv c.sockfd (env.bufsiz - length text) env s))
                  ∙ ap (λ l. l ++ bytes) h.all
                  ∙ append_assoc (arrived c.sockfd s0.trace) text bytes;
              inside = omega arith;
              shorter = λ short room.
                  let less = short s.trace c.sockfd (env.bufsiz - length text) n got in omega arith;
              started = inr (omega (arith, four_at_least n got));
              frame = Frame-trans h.frame (
                  rw got at (
                    Frame-trans (Frame-called env this_recv s p c.ctx refl) (
                      Frame-store (called env this_recv s) p c.ctx (some (holding env c longer)))));
              same_op = h.same_op;
              same_context = h.same_context;
              same_path = h.same_path;
            };
            size = omega arith;
            grows = λ _. omega arith;
          }

    -- A call that stored nothing leaves what has arrived.
    receive_once-idle :
        (segment (env.reply s.trace this_recv).rc (env.reply s.trace this_recv).bytes ≡ [])
        → Holds env p c s0 text (called env this_recv s)
    unfolding submitted alive delivered written
    receive_once-idle empty = record {
      live = h.live;
      all =
          arrived-recv c.sockfd (env.bufsiz - length text) env s
          ∙ ap (λ l. arrived c.sockfd s.trace ++ l) empty
          ∙ append-nil _
          ∙ h.all;
      inside = h.inside;
      shorter = h.shorter;
      started = h.started;
      frame = Frame-trans h.frame (Frame-called env this_recv s p c.ctx refl);
      same_op = h.same_op;
      same_context = h.same_context;
      same_path = h.same_path;
    }

    idle_zero :
        (env.reply s.trace this_recv).rc ≡ pos 0
        → segment (env.reply s.trace this_recv).rc (env.reply s.trace this_recv).bytes ≡ []
    idle_zero got =
        let (count, fits) = network.counted s.trace c.sockfd (env.bufsiz - length text) 0 got in
        rw got (length-zero _ count)

    receive_once_lem :
        Returns
          (λ (end, total, more) s'. Once env p c s0 text end total more s')
          (receive_once env p (length text) s)
    unfolding receive_once submitted alive delivered written
    receive_once_lem = elim (ℤ-cases (env.reply s.trace this_recv).rc) [
      | inl (n, got) ↦
          rw (load-some p s h.live, got)
            record {
              next = text;
              holds = record {
                live = h.live;
                all = rw got at (receive_once-idle (rw got refl)).all;
                inside = h.inside;
                shorter = h.shorter;
                started = h.started;
                frame = rw got at (receive_once-idle (rw got refl)).frame;
                same_op = h.same_op;
                same_context = h.same_context;
                same_path = h.same_path;
              };
              size = refl;
              grows = λ e. ground arith;
            }
      | inr (zero, got) ↦
          rw (load-some p s h.live, got)
            record {
              next = text;
              holds = record {
                live = h.live;
                all = rw got at (receive_once-idle (idle_zero got)).all;
                inside = h.inside;
                shorter = h.shorter;
                started = h.started;
                frame = rw got at (receive_once-idle (idle_zero got)).frame;
                same_op = h.same_op;
                same_context = h.same_context;
                same_path = h.same_path;
              };
              size = refl;
              grows = λ e. ground arith;
            }
      | inr (suc n, got) ↦ receive_once-ended n got
    ]

  -- Where `recv` counts the bytes that it stores, and the first segment has four bytes at least, the
  -- receiving loop on a buffer below 2 GB that holds what has arrived returns, with fuel for one
  -- round more than there is room for bytes: it stays inside the buffer, which then holds what has
  -- arrived, and nothing else.
  pub receive_loop-Holds :
      (fuel : ℕ) (text : Bytes) (s : Server)
      → Holds env p c s0 text s
      → env.bufsiz < length text + fuel
      → Returns
          (λ _ s'. (next : Bytes) × Holds env p c s0 next s')
          (receive_loop env fuel p (length text) s)
  unfolding receive_loop
  receive_loop-Holds zero text s h room = absurd (omega (arith, h.inside))
  receive_loop-Holds (suc fuel) text s h room =
      Returns-bind (receive_once env p (length text) s) _ _ _ (receive_once_lem text s h)
        λ (end, total, more) s1 o. elim (Bool-cases more) [
          | inl again ↦
              rw (again, o.size)
                (receive_loop-Holds fuel o.next s1 o.holds (omega (arith, o.grows again)))
          | inr over ↦ rw over (o.next, o.holds)
        ]
