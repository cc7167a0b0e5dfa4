-- ===== src/Safety/System.antt =====
-- What memory safety asks of the system, the network, the parser and the login database.
use imonitor.Base.{
  ℕ, ◌≡◌, ◌≤◌, ◌<◌, false, Option, none, some, Bytes, ℤ, is_neg, List, [], ◌∷◌, length,
}
use mathlib.Core.Option
use imonitor.Sys.{Env, Trace, IoOp, pread, pwrite, io_setup, io_getevents, getpeername, read}
use imonitor.Aio.{submitted}
use imonitor.SockUtil.Address.{IsAddress}
use imonitor.Utils.Text.{HasNoNul}
use imonitor.Request.Path.{urls}
use imonitor.Request.Arrival.{Network, Short}
use imonitor.Logfile.Columns.{IsEntry}
use imonitor.Main.{zero_utmpx}
use imonitor.Safety.Frame.{alive}

-- Texts that fit in an array with their NUL.
abbrev pub FitIn : ℕ → List Bytes → Type 0
FitIn size [] = Unit
FitIn size (text ∷ texts) = (HasNoNul text × (length text < size)) × FitIn size texts

-- The bytes that an operation asks for.
abbrev pub asked : Option IoOp → ℕ
asked (some (pread fd buf count offset)) = count
asked (some (pwrite fd text count offset)) = count
asked none = 0

-- Requests are shorter than the buffer and come in segments of four bytes or more, a peer has an
-- IPv4 address and a port, a read yields no more than was asked for,
-- no operation fails or counts more bytes than were asked for, a new context is none that
-- is open, the URLs of a request are strings that fit in the buffer, and the entries of the login
-- database have a NUL in their ids, users and hosts.
pub record System (env : Env) : Type 0 where
  pub large : 284 ≤ env.bufsiz
  pub int_sized : env.bufsiz < 0x8000_0000
  pub network : Network env
  pub short : Short env
  pub peer_address : (t : Trace) (fd : ℤ) → IsAddress (env.reply t (getpeername fd))
  pub read_fits :
      (t : Trace) (ctx : ℕ) (fd : ℤ) (buf count offset : ℕ)
      → submitted ctx t ≡ some (pread fd buf count offset)
      → length (env.reply t (io_getevents ctx)).bytes ≤ count
  pub result_fits :
      (t : Trace) (ctx : ℕ) → (env.reply t (io_getevents ctx)).word ≤ asked (submitted ctx t)
  pub fresh_context :
      (t : Trace)
      → is_neg (env.reply t io_setup).rc ≡ false
      → alive (env.reply t io_setup).word t ≡ false
  pub parsed : (text : Bytes) → FitIn env.bufsiz (urls (env.parse text))
  pub read_entry :
      (t : Trace) (fd : ℤ) (count : ℕ)
      → IsEntry env (Option.get_or (env.reply t (read fd count)).entry zero_utmpx)
