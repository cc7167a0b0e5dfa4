-- ===== src/Transfer/Step.antt =====
-- What one round does in each of the two states of a transfer.
use mathlib.Core.Path.{ap₂}
use imonitor.Base.{
  min, ◌-◌, ◌≢◌, ℕ, ◌+◌, ◌<◌, ◌≤◌, ◌≡◌, inl, inr, refl, [], ◌∙◌, ◌++◌, some, none, Bytes, ℤ, arith,
  if◌then◌else◌, ◌==◌, length, drop, take-append, length-take, length-append, length-drop, add_size,
}
use imonitor.Sys.{Env, Server, Connection, state_sending, state_reading, Returns-mono, eventfd}
use imonitor.Handlers.{handle_work, handle_work_done}
use imonitor.Transfer.Defs.{delivered, Honest, chunk}
use imonitor.Transfer.Work.{work_reading, work_sending, done_reading, done_sending}
use imonitor.Transfer.Apart.{Apart, Robust, Robust-bind, round_events}
use imonitor.Transfer.Rounds.{
  Runs, Ordinary, Reading, Sending, Ordinary-Kept, dispatch-out_event, dispatch-in_event,
}

add_size-small : (a b : ℕ) → a + b < 0x1_0000_0000_0000_0000 → add_size a b ≡ a + b
unfolding add_size
add_size-small a b h = omega arith

-- What is left of the buffer behind a shorter text keeps its length.
length-overwrite :
    (a text : Bytes) → length text ≤ length a → length (text ++ drop (length text) a) ≡ length a
length-overwrite a text h =
    omega (arith, length-append text (drop (length text) a), length-drop (length text) a)

-- A read takes a buffer full, or what is left of the file.
pub length-chunk :
    (env : Env) (content : Bytes) (n : ℕ)
    → length (chunk env content n) ≡ min env.bufsiz (length content - n)
length-chunk env content n =
    omega (arith, length-take env.bufsiz (drop n content), length-drop n content)

-- The states of a transfer do not depend on other connections.
Runs-Apart :
    {env : Env} {p : ℕ} {file : ℤ} {dimension : ℕ} {c : Connection} {n : ℕ} {out : Bytes}
    {s s' : Server}
    → Runs env p file dimension c n out s
    → Apart p c.ctx s s'
    → Runs env p file dimension c n out s'
Runs-Apart r a = record {
  ordinary = Ordinary-Kept r.ordinary a.kept;
  live = a.same_here ∙ r.live;
  file_open = r.file_open;
  goal = r.goal;
  so_far = r.so_far;
  fits = r.fits;
  sent = a.same_sent _ ∙ r.sent;
}

-- The connection behind a read, as the next round finds it.
Sending-read :
    (env : Env) (content : Bytes) {p ctx : ℕ} {sock file : ℤ} {dimension n : ℕ} {out : Bytes}
    {s s2 : Server} (e : ℤ)
    → (r : Reading env p ctx sock file dimension n out s)
    → n + length (chunk env content n) < 0x1_0000_0000_0000_0000
    → Ordinary p s2
    → let text = chunk env content r.c.send_len in
      s2.heap p
        ≡ some (record r.c {
          eventfd = e;
          send_buffer = text ++ drop (length text) r.c.send_buffer;
          send_len = add_size r.c.send_len (length text);
          read_data = length text;
          state = state_sending;
        })
      → delivered r.c.sockfd r.c.ctx s2.trace ≡ out
      → let chunk_n = chunk env content n in
        Sending env p ctx sock file dimension (n + length chunk_n) out chunk_n s2
Sending-read env content {s2} e r small o h del =
    let c = r.c in
    let text = chunk env content c.send_len in
    let fits : length text ≤ length c.send_buffer =
      rw r.runs.fits (omega (arith, length-chunk env content c.send_len)) in
    let same = r.runs.so_far in
    record {
      c = record c {
        eventfd = e;
        send_buffer = text ++ drop (length text) c.send_buffer;
        send_len = add_size c.send_len (length text);
        read_data = length text;
        state = state_sending;
      };
      runs = record {
        ordinary = o;
        live = h;
        file_open = r.runs.file_open;
        goal = r.runs.goal;
        so_far = simp same (add_size-small _ _ small);
        fits = length-overwrite c.send_buffer text fits ∙ r.runs.fits;
        sent = del;
      };
      context = r.context;
      socket = r.socket;
      state = refl;
      ready = rw (r.plain, ← same) (take-append text _ (length text) refl);
    }

-- The connection behind a write that is not the last.
abbrev resting : ℤ → Connection → Connection
resting e c = record c { eventfd = e; is_header = 0; state = state_reading }

module _ (env : Env) {file : ℤ} {content : Bytes} (honest : Honest env file content) (p ctx : ℕ)
    {sock : ℤ} {dimension n : ℕ} {out : Bytes} {s : Server} where
  -- A round in `STATE_READING` fetches the next bytes of the file.
  pub round-Reading :
      n + length (chunk env content n) < 0x1_0000_0000_0000_0000
      → Reading env p ctx sock file dimension n out s
      → let text = chunk env content n in
        Robust env p ctx
          (round_events p 1)
          (Sending env p ctx sock file dimension (n + length text) out text)
          s
  round-Reading small r = (
    (r.c, (r.runs.live, r.context)),
    λ s0 a0.
        let c = r.c in
        let r0 = Runs-Apart {c = c} r.runs (rw r.context a0) in
        let e : ℤ = (env.reply s0.trace eventfd).rc in
        let c1 : Connection = record c { eventfd = e } in
        rw (dispatch-out_event env p {s = s0} r0.ordinary) (
          Returns-mono (handle_work env p s0) _ _ (work_reading env honest p s0 c r0.live r.state)
            λ _ s1 (h1, sub, del, kept). (
              (c1, (h1, r.context)),
              λ s2 a2.
                  let a : Apart p c.ctx s1 s2 = rw r.context a2 in
                  let o1 : Ordinary p s1 = Ordinary-Kept r0.ordinary kept in
                  let o2 : Ordinary p s2 = Ordinary-Kept o1 a.kept in
                  rw (dispatch-in_event env p {s = s2} o2 c1 (a.same_here ∙ h1) (inl r.state)) (
                    Returns-mono (handle_work_done env p s2) _ _
                      (done_reading env honest p s2 c1 (a.same_here ∙ h1) r.state
                        (rw r.runs.file_open at (a.same_op ∙ sub)) r.runs.fits)
                      λ _ s3 (h3, del3, kept3).
                        Sending-read env content e r small (Ordinary-Kept o2 kept3) h3
                          (del3 ∙ a.same_sent _ ∙ del ∙ r0.sent)),
            )),
  )

  -- A round in `STATE_SENDING` delivers the text, and ends the connection or goes on reading.
  round_sent :
      {text : Bytes} (r : Sending env p ctx sock file dimension n out text s)
      → Robust env p ctx
          (round_events p 1)
          (λ s'.
            (e : ℤ) × ((s'.heap p ≡ (if n == dimension then none else some (resting e r.c)))
              × (delivered r.c.sockfd r.c.ctx s'.trace ≡ out ++ text)
              × Ordinary p s'))
          s
  round_sent r = (
    (r.c, (r.runs.live, r.context)),
    λ s0 a0.
        let c = r.c in
        let r0 = Runs-Apart {c = c} r.runs (rw r.context a0) in
        let e : ℤ = (env.reply s0.trace eventfd).rc in
        let c1 : Connection = record c { eventfd = e; is_header = 0 } in
        rw (dispatch-out_event env p {s = s0} r0.ordinary) (
          Returns-mono (handle_work env p s0) _ _ (work_sending env honest p s0 c r0.live r.state)
            λ _ s1 (h1, sub, del, kept). (
              (c1, (h1, r.context)),
              λ s2 a2.
                  let a : Apart p c.ctx s1 s2 = rw r.context a2 in
                  let o1 : Ordinary p s1 = Ordinary-Kept r0.ordinary kept in
                  let o2 : Ordinary p s2 = Ordinary-Kept o1 a.kept in
                  rw (dispatch-in_event env p {s = s2} o2 c1 (a.same_here ∙ h1) (inr r.state)) (
                    Returns-mono (handle_work_done env p s2) _ _
                      (done_sending env honest p s2 c1 _ _ (a.same_here ∙ h1) r.state
                        (a.same_op ∙ sub))
                      λ _ s3 (h3, del3, kept3). (
                        e,
                        (
                          h3 ∙ (rw (r.runs.so_far, r.runs.goal) refl),
                          del3 ∙ ap₂ ◌++◌ (a.same_sent _ ∙ del ∙ r0.sent) r.ready,
                          Ordinary-Kept o2 kept3,
                        ),
                      )),
            )),
  )

  -- At `dimension` bytes the text is delivered and the connection is freed.
  pub round-Sending_last :
      {text : Bytes}
      → n ≡ dimension
      → Sending env p ctx sock file dimension n out text s
      → Robust env p ctx
          (round_events p 1)
          (λ s'. (s'.heap p ≡ none) × (delivered sock ctx s'.trace ≡ out ++ text))
          s
  round-Sending_last e r =
      Robust-bind env p ctx _ (round_events p 1) [] _ s (round_sent r)
        λ s' (_, (h, del, o)). (h ∙ ground arith, rw (r.context, r.socket) at del)

  -- At any other number of bytes the next round reads.
  pub round-Sending_more :
      {text : Bytes}
      → n ≢ dimension
      → Sending env p ctx sock file dimension n out text s
      → Robust env p ctx
          (round_events p 1)
          (Reading env p ctx sock file dimension n (out ++ text))
          s
  round-Sending_more e r =
      Robust-bind env p ctx _ (round_events p 1) [] _ s (round_sent r) λ s' (event, (h, del, o)).
        record {
          c = resting event r.c;
          runs = record {
            ordinary = o;
            live = h ∙ ground arith;
            file_open = r.runs.file_open;
            goal = r.runs.goal;
            so_far = r.runs.so_far;
            fits = r.runs.fits;
            sent = del;
          };
          context = r.context;
          socket = r.socket;
          plain = refl;
          state = refl;
        }
