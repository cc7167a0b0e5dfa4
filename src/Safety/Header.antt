-- ===== src/Safety/Header.antt =====
-- The start of an answer: `start_header` writes inside the buffer, and leaves a string in it.
use imonitor.Base.{
  ℕ, suc, ◌≡◌, ◌<◌, ◌≤◌, refl, ap, Bool, true, false, some, ◌∷◌, [], ◌++◌, Bytes, ℤ, pos, negsuc,
  arith, is_neg, IsInt, to_int, length, length-append, length-drop, drop, ◌==ℤ◌, not, if◌then◌else◌,
}
use mathlib.Core.Option
use imonitor.Sys.{
  Env, Server, Connection, Ensures, Ensures-bind, Ensures-die, load-some, defined-some, c_string,
  strlen, called, access, open_file, o_rdwr, lseek, seek_set, seek_end, state_sending, sprintf_lem,
}
use imonitor.Utils.{write_http200_header, header200, header404}
use imonitor.Utils.Text.{c_string-nul}
use imonitor.Utils.Headers.{length-header200}
use imonitor.Handlers.{start_file, start_missing, start_header}
use imonitor.Safety.Frame.{Quiet, Quiet-called, Quiet-trans, Quiet-store}

-- The conversion to `int` yields an `int`.
pub to_int-IsInt : (z : ℤ) → IsInt (to_int z)
unfolding to_int
to_int-IsInt (pos n) = ground arith
to_int-IsInt (negsuc n) = ground arith

-- The connection with a header in its buffer.
pub record Headed (c c' : Connection) : Type 0 where
  pub same_ctx : c'.ctx ≡ c.ctx
  pub same_recv : c'.recv_buffer ≡ c.recv_buffer
  pub same_size : length c'.send_buffer ≡ length c.send_buffer
  pub string : (n : ℕ) × ((strlen c'.send_buffer ≡ some n) × (n ≤ length c'.send_buffer))

-- A text with its NUL at the start of an array.
written_size :
    (a text : Bytes)
    → length text < length a
    → length (text ++ 0 ∷ drop (suc (length text)) a) ≡ length a
written_size a text h =
    omega (
      arith,
      length-append text (0 ∷ drop (suc (length text)) a),
      length-drop (suc (length text)) a,
    )

written_string :
    (a text : Bytes)
    → let b = text ++ 0 ∷ drop (suc (length text)) a in
      (n : ℕ) × ((strlen b ≡ some n) × (n ≤ length b))
written_string a text =
    let (s, (e, h)) = c_string-nul text (drop (suc (length text)) a) in
    (
      length s,
      (
        ap (Option.map length) e,
        omega (arith, h, length-append text (0 ∷ drop (suc (length text)) a)),
      ),
    )

header200_short : (z : ℤ) → IsInt z → is_neg z ≡ false → length (header200 z) < 109
header200_short (pos n) h e = length-header200 n h
header200_short (negsuc n) h e = absurd (ground arith)

module _ (env : Env) (p : ℕ) (c : Connection) (room : 109 ≤ length c.send_buffer) where
  start_missing-Headed :
      (s : Server)
      → Ensures
          (λ c' s'. Headed c c' × (Quiet p c.ctx s s' × (s'.heap ≡ s.heap)))
          (start_missing env c s)
  unfolding start_missing
  start_missing-Headed s =
      rw (defined-some _ _ (sprintf_lem c.send_buffer header404 (omega arith))) (
        record {
          same_ctx = refl;
          same_recv = refl;
          same_size = written_size c.send_buffer header404 (omega arith);
          string = written_string c.send_buffer header404;
        },
        (Quiet-called env _ s p c.ctx refl, refl),
      )

  start_file-Headed :
      (s : Server) {name : Bytes}
      → c_string (drop 1 c.request_path) ≡ some name
      → Ensures
          (λ c' s'. Headed c c' × (Quiet p c.ctx s s' × (s'.heap ≡ s.heap)))
          (start_file env c s)
  unfolding start_file write_http200_header
  start_file-Headed s {name} named =
      let s1 : Server = called env (open_file name (o_rdwr ∷ [])) s in
      let fd = (env.reply s.trace (open_file name (o_rdwr ∷ []))).rc in
      let s2 : Server = called env (lseek fd (pos 0) seek_end) s1 in
      let size = to_int (env.reply s1.trace (lseek fd (pos 0) seek_end)).rc in
      let s3 : Server = called env (lseek fd (pos 0) seek_set) s2 in
      rw (defined-some _ _ named) (
        Ensures-die _ s1 _ _ λ _. Ensures-die _ s2 _ _ λ e. Ensures-die _ s3 _ _ λ _.
          let short = header200_short size (to_int-IsInt _) e in
          rw (defined-some _ _ (sprintf_lem c.send_buffer (header200 size) (omega arith))) (
            record {
              same_ctx = refl;
              same_recv = refl;
              same_size = written_size c.send_buffer (header200 size) (omega arith);
              string = written_string c.send_buffer (header200 size);
            },
            (
              Quiet-trans (Quiet-called env (open_file name (o_rdwr ∷ [])) s p c.ctx refl) (
                  Quiet-trans (Quiet-called env (lseek fd (pos 0) seek_end) s1 p c.ctx refl)
                    (Quiet-called env (lseek fd (pos 0) seek_set) s2 p c.ctx refl)),
              refl,
            ),
          ))

  header-Headed :
      (b : Bool) (s : Server) {name : Bytes}
      → c_string (drop 1 c.request_path) ≡ some name
      → Ensures
          (λ c' s'. Headed c c' × (Quiet p c.ctx s s' × (s'.heap ≡ s.heap)))
          ((if b then start_file env c else start_missing env c) s)
  header-Headed true s named = start_file-Headed s named
  header-Headed false s named = start_missing-Headed s

  -- Where the request's path is a string, the connection is about to send a header.
  pub start_header-Headed :
      (s : Server) {name : Bytes}
      → s.heap p ≡ some c
      → c_string (drop 1 c.request_path) ≡ some name
      → Ensures
          (λ _ s'.
            Quiet p c.ctx s s'
            × ((c' : Connection) × ((s'.heap p ≡ some c')
                  × ((c'.state ≡ state_sending)
                      × ((c'.ctx ≡ c.ctx)
                          × ((c'.recv_buffer ≡ c.recv_buffer)
                              × ((length c'.send_buffer ≡ length c.send_buffer)
                                  × ((c'.is_header ≡ 1)
                                      × (c'.header_size ≤ length c'.send_buffer)))))))))
          (start_header env p s)
  unfolding start_header
  start_header-Headed s {name} h named =
      let s1 : Server = called env (access name) s in
      let found = not ((env.reply s.trace (access name)).rc ==ℤ negsuc 0) in
      rw (load-some p s h, defined-some _ _ named)
        (Ensures-bind ((if found then start_file env c else start_missing env c) s1) _ _ _
          (header-Headed found s1 named)
          λ c' s2 (headed, (quiet, same)).
            let (n, (text, inside)) = headed.string in
            let c2 : Connection = record c' {
              state = state_sending;
              header_size = n;
              is_header = 1;
            } in
            rw (defined-some _ _ text) (
              Quiet-trans (Quiet-called env (access name) s p c.ctx refl)
                  (Quiet-trans quiet (Quiet-store s2 p c.ctx (some c2))),
              (
                c2,
                (
                  ground arith,
                  (refl, (headed.same_ctx, (headed.same_recv, (headed.same_size, (refl, inside))))),
                ),
              ),
            ))
