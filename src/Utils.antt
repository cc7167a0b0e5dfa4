-- ===== src/Utils.antt =====
-- utils.c: the test for the end of a request, the two response headers, and `is_file`.
pub mod Ends
pub mod Headers
pub mod Text
use imonitor.Base.{
  ℕ, zero, suc, ◌+◌, ◌-◌, ◌/◌, ◌%◌, Bool, true, false, not, Option, none, some, [], ◌∷◌, ◌++◌,
  Bytes, codes, crlf, ℤ, pos, negsuc, ◌==ℤ◌, ◌==◌, ltb, leb, if◌then◌else◌, get_elem?, drop,
}
use imonitor.Sys.{access, c_string, sprintf, Env, M, pure, ◌>>=◌, defined, sys}

-- `buffer[offset - back]`, `none` before the start of the array or past its end.
abbrev pub byte_back : Bytes → ℕ → ℕ → Option ℕ
byte_back buffer offset back = if leb back offset then get_elem? buffer (offset - back) else none

-- `buffer[offset - back] != c && rest`: the rest is read only if the bytes differ.
abbrev pub differs_and : Option ℕ → ℕ → Option Bool → Option Bool
differs_and none c rest = none
differs_and (some b) c rest = if b == c then some false else rest

-- `true` for the returned 1.
unfoldable pub is_req_finished : Bytes → ℕ → Option Bool
is_req_finished buffer offset = differs_and (byte_back buffer offset 1) b'\n' (
    differs_and (byte_back buffer offset 2) b'\r' (
      differs_and (byte_back buffer offset 3) b'\n'
        (differs_and (byte_back buffer offset 4) b'\r' (some true))))

-- The decimal digits of a number, which `printf` writes. The fuel bounds their count.
unfoldable pub digits_before : ℕ → ℕ → Bytes → Bytes
digits_before zero n rest = rest
digits_before (suc fuel) n rest =
    let more = digits_before fuel (n / 10) ((48 + n % 10) ∷ rest) in
    if ltb n 10 then (48 + n) ∷ rest else more

unfoldable pub decimal : ℕ → Bytes
unfolding digits_before
decimal n = digits_before (suc n) n []

-- `%d` and `%ld`
unfoldable pub decimal_ℤ : ℤ → Bytes
unfolding decimal
decimal_ℤ (pos n) = decimal n
decimal_ℤ (negsuc n) = b'-' ∷ decimal (suc n)

-- The format of the 200 header before and after its number. The line that ends in a backslash
-- leaves two tabs in the text.
abbrev pub header200_start : Bytes
header200_start = codes "HTTP/1.0 200 OK" ++ crlf ++ codes "Content-Length: "

abbrev pub header200_end : Bytes
header200_end =
    crlf
    ++ codes "Content-Type: "
    ++ (9 ∷ 9 ∷ codes "application/octet-stream")
    ++ crlf
    ++ codes "Connection: close"
    ++ crlf
    ++ crlf

abbrev pub header200 : ℤ → Bytes
header200 content_len = header200_start ++ decimal_ℤ content_len ++ header200_end

abbrev pub header404 : Bytes
header404 = codes "HTTP/1.1 404 Not Found" ++ crlf ++ crlf

-- The two functions return the buffer that they write, `none` if it is too short.
unfoldable pub write_http200_header : Bytes → ℤ → Option Bytes
write_http200_header buffer content_len = sprintf buffer (header200 content_len)

unfoldable pub write_http404_header : Bytes → Option Bytes
write_http404_header buffer = sprintf buffer header404

-- `access(buffer + 1, F_OK) != -1`
unfoldable pub is_file : Env → Bytes → M Bool
is_file env buffer = do
  path ← defined (c_string (drop 1 buffer))
  r ← sys env (access path)
  pure (not (r.rc ==ℤ negsuc 0))
