-- ===== src/Transfer/Start.antt =====
-- The answer to a request begins: `handle_work` in `STATE_DATA_RECEIVED` puts a header into the
-- buffer.
use imonitor.Base.{
  ◌≤◌, ℕ, suc, ◌<◌, ◌≡◌, ◌++◌, false, true, some, [], ◌∷◌, Bytes, ℤ, pos, negsuc, is_neg, arith,
  ◌==ℤ◌, length, drop, to_size, to_int_self,
}
use imonitor.Sys.{
  Env, Server, Connection, Trace, Returns, Returns-bind, load-some, die-pass, die-false,
  defined-some, c_string, called, sprintf_lem, state_sending, state_data_received, access,
  open_file, o_rdwr, lseek, seek_set, seek_end,
}
use imonitor.Utils.{header200, header404}
use imonitor.Utils.Text.{strlen-append}
use imonitor.Utils.Headers.{header200-HasNoNul, length-header200}
use imonitor.Handlers.{start_file, handle_work}
use imonitor.Transfer.Defs.{delivered, Kept}

-- The file at `path` is there, opens as the descriptor `file`, and holds `content`.
pub record Stored (env : Env) (path : Bytes) (file : ℤ) (content : Bytes) : Type 0 where
  pub found : (t : Trace) → ((env.reply t (access path)).rc ==ℤ negsuc 0) ≡ false
  pub opens : (t : Trace) → (env.reply t (open_file path (o_rdwr ∷ []))).rc ≡ file
  pub valid : is_neg file ≡ false
  pub ends : (t : Trace) → (env.reply t (lseek file (pos 0) seek_end)).rc ≡ pos (length content)
  pub rewinds : (t : Trace) → (env.reply t (lseek file (pos 0) seek_set)).rc ≡ pos 0

-- A connection whose header for a file of `size` bytes, or for a missing file, is in its buffer.
abbrev pub with_header : Connection → Bytes → Connection
with_header c header = record c {
  send_buffer = header ++ 0 ∷ drop (suc (length header)) c.send_buffer;
  header_size = length header;
  is_header = 1;
  state = state_sending;
}

-- Calls that neither write to the heap nor finish an operation.
abbrev Aside : Connection → Server → Server → Type 0
Aside c s s' =
    (s'.heap ≡ s.heap)
    × (delivered c.sockfd c.ctx s'.trace ≡ delivered c.sockfd c.ctx s.trace)
    × Kept s s'

module _ (env : Env) {path : Bytes} {file : ℤ} {content : Bytes}
    (stored : Stored env path file content) where
  opened : (t : Trace) → is_neg (env.reply t (open_file path (o_rdwr ∷ []))).rc ≡ false
  opened t = rw (stored.opens t) stored.valid

  start_file_lem :
      (s : Server) (c : Connection)
      → c_string (drop 1 c.request_path) ≡ some path
      → length c.send_buffer ≡ env.bufsiz
      → 109 ≤ env.bufsiz
      → length content < 0x8000_0000
      → let header = header200 (pos (length content)) in
        Returns
          (λ c' s'.
            (c' ≡ record c {
              send_buffer = header ++ 0 ∷ drop (suc (length header)) c.send_buffer;
              file_dimension = length content;
              data_size = c.header_size;
              fd = file;
            })
            × Aside c s s')
          (start_file env c s)
  unfolding start_file to_size delivered
  start_file_lem s c named fits room small =
      let n = length content in
      let header = header200 (pos n) in
      let short = length-header200 n small in
      rw
        (
          defined-some _ _ named,
          die-pass _ _ (opened _),
          stored.opens _,
          stored.ends _,
          to_int_self (pos n) small,
          die-false,
          stored.rewinds _,
          to_int_self (pos 0) (omega arith),
          die-false,
          defined-some _ _ (sprintf_lem c.send_buffer header (omega arith)),
        )
        (ground arith)

  -- `STATE_DATA_RECEIVED` with the requested file there: the 200 header is in the buffer.
  pub work_found :
      (p : ℕ) (s : Server) (c : Connection)
      → s.heap p ≡ some c
      → c.state ≡ state_data_received
      → c_string (drop 1 c.request_path) ≡ some path
      → length c.send_buffer ≡ env.bufsiz
      → 109 ≤ env.bufsiz
      → length content < 0x8000_0000
      → Returns
          (λ _ s'.
            (s'.heap p
              ≡ some (record (with_header c (header200 (pos (length content)))) {
                file_dimension = length content;
                data_size = c.header_size;
                fd = file;
              }))
            × (delivered c.sockfd c.ctx s'.trace ≡ delivered c.sockfd c.ctx s.trace)
            × Kept s s')
          (handle_work env p s)
  unfolding handle_work delivered
  work_found p s c h e named fits room small =
      let header = header200 (pos (length content)) in
      let s0 = called env (access path) s in
      rw (load-some p s h, e, load-some p s h, defined-some _ _ named, stored.found _)
        (Returns-bind (start_file env c s0) _ _ _ (start_file_lem s0 c named fits room small)
          λ c' s1 (same, aside).
            rw
              (
                same,
                defined-some _ _ (strlen-append header _ (header200-HasNoNul (length content))),
              )
              (ground arith))

-- The file at `path` is not there.
abbrev pub Missing : Env → Bytes → Type 0
Missing env path = (t : Trace) → ((env.reply t (access path)).rc ==ℤ negsuc 0) ≡ true

-- `STATE_DATA_RECEIVED` with the requested file not there: the 404 header is in the buffer, and
-- the fields that count the file are as they were.
pub work_absent :
    (env : Env) {path : Bytes}
    → Missing env path
    → (p : ℕ) (s : Server) (c : Connection) → s.heap p ≡ some c
    → c.state ≡ state_data_received
    → c_string (drop 1 c.request_path) ≡ some path
    → length c.send_buffer ≡ env.bufsiz
    → 109 ≤ env.bufsiz
    → Returns
        (λ _ s'.
          (s'.heap p ≡ some (with_header c header404))
          × (delivered c.sockfd c.ctx s'.trace ≡ delivered c.sockfd c.ctx s.trace)
          × Kept s s')
        (handle_work env p s)
unfolding handle_work delivered
work_absent env missing p s c h e named fits room =
    rw
      (
        load-some p s h,
        e,
        load-some p s h,
        defined-some _ _ named,
        missing _,
        defined-some _ _ (sprintf_lem c.send_buffer header404 (omega arith)),
        defined-some _ _ (strlen-append header404 _ (omega arith)),
      )
      (ground arith)
