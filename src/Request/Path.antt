-- ===== src/Request/Path.antt =====
-- The path of a request: which calls of the parser reach the server, and what the connection keeps.
use imonitor.Base.{
  refl, Option-cases, inl, inr, ℕ, zero, suc, ◌-◌, ◌<◌, ◌≤◌, ◌≡◌, ap, ◌∙◌, Option, none, some, List,
  [], ◌∷◌, ◌++◌, Bytes, arith, length, drop, replicate, length-replicate, sym, drop-replicate,
}
use mathlib.Core.Option
use imonitor.Sys.{
  Env, Server, Connection, Returns, done, load-some, defined, defined-some, c_string, memcpy,
  memcpy_lem, sprintf, sprintf_lem, strcpy, update, ParserCall, url, path, state_data_received,
}
use imonitor.Utils.Text.{HasNoNul, c_string-append}
use imonitor.Request.{callbacks, settings_on_path, callback, on_path_cb, parse_request}

-- The texts that the parser hands over as URLs.
abbrev pub urls : List ParserCall → List Bytes
urls [] = []
urls (url at ∷ calls) = at ∷ urls calls
urls (call ∷ calls) = urls calls

-- Copies to the start of an array, one over the other.
abbrev pub overlaid : Bytes → List Bytes → Option Bytes
overlaid a [] = some a
overlaid a (text ∷ texts) = elim (memcpy a text) [ none ↦ none | some b ↦ overlaid b texts ]

-- With the server's settings a parse whose URLs fit in the global path changes that path alone, and
-- by the URLs alone: each is copied to the start of the array, and every other call of the parser, a
-- `path` among them, does nothing.
pub callbacks-urls :
    (calls : List ParserCall) (s : Server) {a : Bytes}
    → overlaid s.request_path (urls calls) ≡ some a
    → callbacks settings_on_path calls s ≡ done tt (record s { request_path = a })
unfolding callbacks settings_on_path callback on_path_cb defined
callbacks-urls [] s h = ground arith
callbacks-urls (url at ∷ calls) s h = elim (Option-cases (memcpy s.request_path at)) [
  | inl out ↦ absurd (ground (arith, (rw (overlaid, out) at h)))
  | inr (b, copied) ↦
      rw copied (callbacks-urls calls (record s { request_path = b }) (rw (overlaid, copied) at h))
]
callbacks-urls (ParserCall.message_begin ∷ calls) s h = callbacks-urls calls s h
callbacks-urls (path at ∷ calls) s h = callbacks-urls calls s h
callbacks-urls (ParserCall.query_string at ∷ calls) s h = callbacks-urls calls s h
callbacks-urls (ParserCall.fragment at ∷ calls) s h = callbacks-urls calls s h
callbacks-urls (ParserCall.header_field at ∷ calls) s h = callbacks-urls calls s h
callbacks-urls (ParserCall.header_value at ∷ calls) s h = callbacks-urls calls s h
callbacks-urls (ParserCall.headers_complete ∷ calls) s h = callbacks-urls calls s h
callbacks-urls (ParserCall.body at ∷ calls) s h = callbacks-urls calls s h
callbacks-urls (ParserCall.message_complete ∷ calls) s h = callbacks-urls calls s h

-- A cleared buffer with a text in it.
abbrev padded : ℕ → Bytes → Bytes
padded size text = text ++ replicate (size - length text) 0

padded-drop :
    (size : ℕ) (text : Bytes) → text ++ drop (length text) (replicate size 0) ≡ padded size text
padded-drop size text = ap (λ l. text ++ l) (drop-replicate (length text) size 0)

pub padded_nul :
    (size : ℕ) (text : Bytes)
    → length text < size
    → padded size text ≡ text ++ 0 ∷ replicate (size - suc (length text)) 0
padded_nul size text h =
    ap (λ k. text ++ replicate k 0) {y = suc (size - suc (length text))} (omega arith)

strcpy-padded :
    (size : ℕ) (text : Bytes)
    → HasNoNul text
    → length text < size
    → strcpy (replicate size 0) (padded size text) ≡ some (padded size text)
unfolding strcpy sprintf Option.bind
strcpy-padded size text h fits =
    let length_zeros = length-replicate size (zero) in
    rw (ap c_string (padded_nul size text fits) ∙ c_string-append text _ h) (
      sprintf_lem (replicate size 0) text (omega arith)
      ∙ ap (λ l. some (text ++ 0 ∷ l)) (drop-replicate (suc (length text)) size 0)
      ∙ ap some (sym (padded_nul size text fits)))

overlaid_one :
    (size : ℕ) (text : Bytes)
    → length text ≤ size
    → overlaid (replicate size 0) (text ∷ []) ≡ some (padded size text)
overlaid_one size text h =
    let length_zeros = length-replicate size (zero) in
    rw (overlaid, memcpy_lem (replicate size 0) text (omega arith))
      (ap some (padded-drop size text))

-- The connection with the path and the count of the last segment.
abbrev pub parsed : Env → Connection → Bytes → ℕ → Connection
parsed env c name last = record c {
  request_path = padded env.bufsiz name;
  recv_len = last;
  state = state_data_received;
}

module _ (env : Env) (p last : ℕ) (c : Connection) (s : Server) {text name : Bytes} where
  -- A parse that finds one URL, in full.
  pub parse_request_lem :
      s.heap p ≡ some c
      → c_string c.recv_buffer ≡ some text
      → urls (env.parse text) ≡ name ∷ []
      → HasNoNul name
      → length name < env.bufsiz
      → parse_request env p last s
        ≡ done state_data_received (record s {
          request_path = padded env.bufsiz name;
          heap = update s.heap p (some (parsed env c name last));
        })
  unfolding parse_request
  parse_request_lem h held found proper fits =
      let zeros : Bytes = replicate env.bufsiz 0 in
      let start = overlaid_one env.bufsiz name (omega arith) in
      rw
        (
          load-some p s h,
          defined-some _ _ held,
          callbacks-urls (env.parse text) (record s { request_path = zeros })
              (ap (overlaid zeros) found ∙ start),
          defined-some _ _ (strcpy-padded env.bufsiz name proper fits),
        )
        refl

-- Where the buffer holds a string in which the parser finds one URL, a string that fits with its NUL:
-- the connection keeps the whole URL in a cleared array, and waits for its answer.
pub parse_request-url :
    (env : Env) (p last : ℕ) (c : Connection) (s : Server) {text name : Bytes}
    → s.heap p ≡ some c
    → c_string c.recv_buffer ≡ some text
    → urls (env.parse text) ≡ name ∷ []
    → HasNoNul name
    → length name < env.bufsiz
    → Returns
        (λ state s'.
          (state ≡ state_data_received)
          × (s'.heap p
              ≡ some (record c {
                request_path = name ++ replicate (env.bufsiz - length name) 0;
                recv_len = last;
                state = state_data_received;
              })))
        (parse_request env p last s)
parse_request-url env p last c s h held found proper fits =
    rw (parse_request_lem env p last c s h held found proper fits) (refl, ground arith)
