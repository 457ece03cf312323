-- ===== src/Grpc/Frames.antt =====
-- The gRPC-web framing of core/src/grpc.rs.
pub mod Laws
use nft_gate.Base.{
  ℕ, zero, suc, ◌+◌, ◌-◌, ◌*◌, ◌/◌, ◌%◌, ◌^◌, Bool, true, false, not, ◌&&◌, Option, none, some,
  List, [], ◌∷◌, ◌++◌, ltb, leb, ◌==◌, if◌then◌else◌, length, take, drop, all,
}
use nft_gate.Base.Options.{◌>>=◌}
use nft_gate.Base.Ints.{ℤ, pos, negsuc}
use nft_gate.Text.{
  Text, codes, is_nil, is_digit, len, utf8_width, eq_ignore_ascii_case, strip_prefix,
}
use nft_gate.Text.Split.{push_first, trim}
use nft_gate.Text.Utf8.{from_utf8_lossy}
use nft_gate.Forward.{decimal}
use nft_gate.Grpc.Wire.{Bytes}
use nft_gate.Ports.{Exit, stop, pass}

abbrev pub max_grpc_message_bytes : ℕ
max_grpc_message_bytes = 4 * 1024 * 1024

-- `(n as u32).to_be_bytes()`
unfoldable pub be_bytes : ℕ → Bytes
be_bytes n = n / 0x100_0000 % 256 ∷ n / 0x1_0000 % 256 ∷ n / 256 % 256 ∷ n % 256 ∷ []

unfoldable pub frame : Bytes → Bytes
frame msg = 0x00 ∷ (be_bytes (length msg) ++ msg)

-- Why a call ends without a message: a status other than 0, another error, or a panic, which no
-- caller catches.
pub data Fault : Type 0 where
  grpc_status : ℤ → Fault
  failed panicked : Fault

-- `parse::<i64>()`
abbrev magnitude : Text → Option ℕ
magnitude digits =
    let n = decimal 0 digits in if not (is_nil digits) && all is_digit digits then some n else none

abbrev negative : ℕ → ℤ
negative zero = pos 0
negative (suc n) = negsuc n

abbrev unsigned : Text → Text
unsigned s = elim (strip_prefix (codes "+") s) [ none ↦ s | some digits ↦ digits ]

unfoldable pub parse_i64 : Text → Option ℤ
parse_i64 s = elim (strip_prefix (codes "-") s) [
  | some digits ↦ magnitude digits >>= λ n. if leb n (2 ^ 63) then some (negative n) else none
  | none ↦ magnitude (unsigned s) >>= λ n. if ltb n (2 ^ 63) then some (pos n) else none
]

unfoldable pub parse_status : Text → Option ℤ
parse_status v = parse_i64 (trim v)

-- `split("\r\n")`
unfoldable pub split_crlf : Text → List Text
split_crlf [] = [] ∷ []
split_crlf (c ∷ []) = (c ∷ []) ∷ []
split_crlf (c ∷ d ∷ s) =
    let after = split_crlf s in
    let rest = split_crlf (d ∷ s) in if c == 13 && d == 10 then [] ∷ after else push_first c rest

-- `(&s[..n], &s[n..])`; `none` is the panic of an index within a character
unfoldable pub split_bytes : ℕ → Text → Option (Text × Text)
split_bytes zero s = some ([], s)
split_bytes (suc n) [] = none
split_bytes (suc n) (c ∷ s) =
    let rest = split_bytes (suc n - utf8_width c) s in
    if leb (utf8_width c) (suc n) then (rest >>= λ p. some (c ∷ p.0, p.1)) else none

-- The status after one line of a trailer; the outer `none` is the panic.
unfoldable pub status_of_line : Option ℤ → Text → Option (Option ℤ)
status_of_line status line =
    if ltb 12 (len line)
    then (split_bytes 12 line >>= λ p.
        some (if eq_ignore_ascii_case p.0 (codes "grpc-status:") then parse_status p.1 else status))
    else some status

unfoldable pub status_of_lines : Option ℤ → List Text → Option (Option ℤ)
status_of_lines status [] = some status
status_of_lines status (l ∷ ls) = status_of_line status (trim l) >>= λ s. status_of_lines s ls

unfoldable pub status_of_trailer : Option ℤ → Bytes → Option (Option ℤ)
status_of_trailer status frame = status_of_lines status (split_crlf (from_utf8_lossy frame))

-- What the loop carries: the status and the message.
abbrev pub Progress : Type 0
Progress = Option ℤ × Bytes

-- One whole frame.
unfoldable pub take_frame : ℕ → Bytes → Progress → Exit Fault Progress
take_frame flag payload (status, msg) =
    if leb 0x80 flag
    then elim (status_of_trailer status payload) [
      | none ↦ stop panicked
      | some status' ↦ pass (status', msg)
    ]
    else if not (flag == 0)
    then stop failed
    else if ltb max_grpc_message_bytes (length msg + length payload)
    then stop failed
    else pass (status, msg ++ payload)

-- `?`
abbrev pub and_then : Exit Fault Progress → (Progress → Exit Fault Progress) → Exit Fault Progress
and_then (stop e) k = stop e
and_then (pass p) k = k p

-- The loop. A round takes at least five bytes, so that the bytes' number is enough of rounds.
unfoldable pub take_frames : ℕ → Bytes → Progress → Exit Fault Progress
take_frames rounds [] p = pass p
take_frames (suc rounds) (flag ∷ a ∷ b ∷ c ∷ d ∷ s) p =
    let n = ((a * 256 + b) * 256 + c) * 256 + d in
    if leb n (length s)
    then and_then (take_frame flag (take n s) p) (λ p'. take_frames rounds (drop n s) p')
    else stop failed
take_frames rounds other p = stop failed

abbrev pub finished : Exit Fault Progress → Exit Fault Bytes
finished (stop e) = stop e
finished (pass (none, msg)) = stop failed
finished (pass (some (pos zero), msg)) = pass msg
finished (pass (some code, msg)) = stop (grpc_status code)

unfoldable pub unframe : Option Text → Bytes → Exit Fault Bytes
unframe header body = finished (take_frames (length body) body (header >>= parse_status, []))
