-- ===== src/SockUtil/Address.antt =====
-- `get_peer_address` of sock_util.c: the text of an address and the array that it is printed to.
use imonitor.Base.{
  ℕ, suc, ◌+◌, ◌-◌, sym, ap, ◌∙◌, drop-drop, drop-append, ◌≡◌, ◌<◌, ◌≤◌, refl, false, some, ◌++◌,
  codes, Bytes, ℤ, pos, arith, is_neg, length, length-append, drop, length-drop, ◌∷◌,
}
use imonitor.Sys.{Env, Server, Reply, Returns, getpeername, c_string, defined-some, sprintf_lem}
use imonitor.Utils.{decimal}
use imonitor.Utils.Text.{HasNoNul, HasNoNul-append, c_string-append, decimal-HasNoNul}
use imonitor.Utils.Headers.{length-decimal_below}
use imonitor.SockUtil.{peer_text, get_peer_address}

-- An IPv4 address as `inet_ntoa` prints it, a string of 15 bytes at most, and a port of 16 bits.
pub record IsAddress (r : Reply) : Type 0 where
  pub string : HasNoNul r.bytes
  pub digits : length r.bytes ≤ 15
  pub port : r.word < 0x1_0000

pub length-peer_text : (r : Reply) → IsAddress r → length (peer_text r) ≤ 21
unfolding peer_text
length-peer_text r h =
    let port = length-decimal_below 4 r.word (omega (arith, h.port)) in
    let address : Bytes = r.bytes ++ codes ":" in
    omega (
      arith,
      h.digits,
      port,
      length-append address (decimal r.word),
      length-append r.bytes (codes ":"),
    )

peer_text-HasNoNul : (r : Reply) → IsAddress r → HasNoNul (peer_text r)
unfolding peer_text
peer_text-HasNoNul r h =
    HasNoNul-append (r.bytes ++ codes ":") (decimal r.word)
      (HasNoNul-append r.bytes (codes ":") h.string (omega arith)) (decimal-HasNoNul r.word)

-- Behind a text and its NUL an array is as it was.
drop-written :
    (n : ℕ) (text buf : Bytes)
    → length text < n
    → drop n (text ++ 0 ∷ drop (suc (length text)) buf) ≡ drop n buf
drop-written n text buf h =
    let behind = drop (suc (length text)) buf in
    let k = n - suc (length text) in
    ap (λ j. drop j (text ++ 0 ∷ behind)) {x = n} {y = length text + suc k} (omega arith)
    ∙ sym (drop-drop (length text) (suc k) (text ++ 0 ∷ behind))
    ∙ ap (drop (suc k)) (drop-append text (0 ∷ behind))
    ∙ drop-drop (suc (length text)) k buf
    ∙ ap (λ j. drop j buf) {x = suc (length text) + k} {y = n} (omega arith)

-- Where `getpeername` does not fail and returns an IPv4 address, into an array of 22 bytes or more
-- `get_peer_address` returns 0: the array keeps its length and holds the address and the port as a
-- string, and what stands behind the first 22 bytes is as it was.
pub get_peer_address-text :
    (env : Env) (fd : ℤ) (buf : Bytes) (s : Server)
    → is_neg (env.reply s.trace (getpeername fd)).rc ≡ false
    → IsAddress (env.reply s.trace (getpeername fd))
    → 22 ≤ length buf
    → Returns
        (λ (rc, a) s'.
          (rc ≡ pos 0)
          × ((length a ≡ length buf)
              × ((c_string a ≡ some (peer_text (env.reply s.trace (getpeername fd))))
                  × (drop 22 a ≡ drop 22 buf))))
        (get_peer_address env fd buf s)
unfolding get_peer_address
get_peer_address-text env fd buf s fine h large =
    let r = env.reply s.trace (getpeername fd) in
    let text = peer_text r in
    let short = length-peer_text r h in
    let behind = drop (suc (length text)) buf in
    rw (fine, defined-some _ _ (sprintf_lem buf text (omega arith)))
      (
        refl,
        (
          omega (arith, length-append text (0 ∷ behind), length-drop (suc (length text)) buf),
          (
            c_string-append text behind (peer_text-HasNoNul r h),
            drop-written 22 text buf (omega arith),
          ),
        ),
      )
