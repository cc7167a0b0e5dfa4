-- ===== src/Safety/Peer.antt =====
-- The text of the peer's address: `get_peer_address` of sock_util.c, and the lines that print it.
use imonitor.Base.{
  zero, suc, ◌≡◌, ◌<◌, inl, inr, refl, some, [], ◌∷◌, ◌++◌, Bytes, codes, ℤ, arith, is_neg, length,
  length-replicate, drop, replicate, Bool-cases,
}
use Prim.Native.String.{String}
use imonitor.Sys.{Env, Server, Ensures, called, defined-some, sprintf_lem, getpeername}
use imonitor.SockUtil.{peer_text, get_peer_address}
use imonitor.Utils.Text.{c_string-nul}
use imonitor.Request.{peer_line}

-- The buffer holds a string, so that a line can name the peer.
abbrev pub Named : Bytes → Type 0
Named abuffer = (text : String) → (line : Bytes) × (peer_line text abuffer ≡ some line)

pub Named-nul : (xs ys : Bytes) → Named (xs ++ 0 ∷ ys)
unfolding peer_line
Named-nul xs ys text =
    let (s, (e, h)) = c_string-nul xs ys in (codes text ++ s ++ 10 ∷ [], rw e refl)

pub get_peer_address-Named :
    (env : Env) (fd : ℤ) (s : Server)
    → length (peer_text (env.reply s.trace (getpeername fd))) < 64
    → Ensures
        (λ (rc, abuffer) s'. Named abuffer × (s' ≡ called env (getpeername fd) s))
        (get_peer_address env fd (replicate 64 0) s)
unfolding get_peer_address
get_peer_address-Named env fd s fits =
    let text = peer_text (env.reply s.trace (getpeername fd)) in
    let zeros : Bytes = replicate 64 0 in
    elim (Bool-cases (is_neg (env.reply s.trace (getpeername fd)).rc)) [
      | inl failed ↦ rw failed (Named-nul [] (replicate 63 0), refl)
      | inr fine ↦
          rw
            (
              fine,
              defined-some _ _
                  (sprintf_lem zeros text (omega (arith, fits, length-replicate 64 (zero)))),
            )
            (Named-nul text (drop (suc (length text)) zeros), refl)
    ]
