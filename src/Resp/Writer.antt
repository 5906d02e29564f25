-- ===== src/Resp/Writer.antt =====
-- internal/resp/writer.go over bufio. A Writer is the bytes that bufio took, the sticky error, the
-- dialect, and what bufio will answer to the next calls: a failure with an error's number and how many
-- of the bytes it took all the same or, as always once the list is used up, success. Each method returns the
-- new Writer; the error that the Go method returns is its `failure`.
pub mod Frames
pub mod Sticky
use cachemoney.Base.{
  ℕ, ◌*◌, Bool, true, false, ◌&&◌, Option, none, some, List, [], ◌∷◌, ◌++◌, ltb, leb, if◌then◌else◌,
  length, codes, take,
}
use cachemoney.Base.Int.{ℤ, pos, negsuc, ltb_ℤ}
use cachemoney.Resp.Decimal.{format_uint}

pub record Writer : Type 0 where
  pub out : List ℕ
  pub failure : Option ℕ
  pub answers : List (Option (ℕ × ℕ))
  pub proto : ℤ

-- A Writer over a connection that takes every byte.
unfoldable pub new_writer : List (Option (ℕ × ℕ)) → Writer
new_writer answers = record { out = []; failure = none; answers = answers; proto = pos 2 }

-- Values below 2 become 2 and values above 3 become 3.
unfoldable pub set_proto : ℤ → Writer → Writer
set_proto p w = record w {
  proto = if ltb_ℤ p (pos 2) then pos 2 else if ltb_ℤ (pos 3) p then pos 3 else p;
}

-- One call of bufio for the bytes `bs`, answered by the head of the list.
bufio_write : List ℕ → List (Option (ℕ × ℕ)) → Writer → Writer
bufio_write bs [] w = record w { out = w.out ++ bs }
bufio_write bs (none ∷ rest) w = record w { out = w.out ++ bs; answers = rest }
bufio_write bs (some (e, taken) ∷ rest) w = record w {
  out = w.out ++ take taken bs;
  failure = some e;
  answers = rest;
}

unless_failed : Option ℕ → Writer → Writer → Writer
unless_failed none old new = new
unless_failed (some e) old new = old

-- `writeString`, `writeByte` and `writeBytes`.
unfoldable pub write_bytes : List ℕ → Writer → Writer
unfolding bufio_write unless_failed
write_bytes bs w = unless_failed w.failure w (bufio_write bs w.answers w)

-- strconv.AppendInt in base 10.
unfoldable pub format_int : ℤ → List ℕ
format_int (pos n) = format_uint n
format_int (negsuc n) = b'-' ∷ format_uint (ℕ.suc n)

unfoldable pub write_number : ℤ → Writer → Writer
unfolding format_int
write_number n w = write_bytes (format_int n) w

abbrev pub crlf : List ℕ
crlf = 13 ∷ 10 ∷ []

-- A byte, a number and CRLF.
unfoldable pub write_header : ℕ → ℤ → Writer → Writer
unfolding write_number
write_header tag n w = write_bytes crlf (write_number n (write_bytes (tag ∷ []) w))

-- A byte, a text and CRLF.
unfoldable pub write_line : ℕ → List ℕ → Writer → Writer
write_line tag s w = write_bytes crlf (write_bytes s (write_bytes (tag ∷ []) w))

unfoldable pub write_len_prefixed : ℕ → List ℕ → Writer → Writer
unfolding write_header
write_len_prefixed tag body w =
    write_bytes crlf (write_bytes body (write_header tag (pos (length body)) w))

unfoldable pub write_simple_string : List ℕ → Writer → Writer
unfolding write_line
write_simple_string s w = write_line b'+' s w

unfoldable pub write_error : List ℕ → Writer → Writer
unfolding write_line
write_error s w = write_line b'-' s w

unfoldable pub write_int : ℤ → Writer → Writer
unfolding write_header
write_int n w = write_header b':' n w

-- `WriteBulk` and `WriteBulkString`.
unfoldable pub write_bulk : List ℕ → Writer → Writer
unfolding write_len_prefixed
write_bulk b w = write_len_prefixed b'$' b w

abbrev pub is_resp3 : Writer → Bool
is_resp3 w = ltb_ℤ (pos 2) w.proto

unfoldable pub write_null : Writer → Writer
write_null w =
    if is_resp3 w then write_bytes (b'_' ∷ crlf) w else write_bytes (codes "$-1" ++ crlf) w

unfoldable pub write_array_header : ℤ → Writer → Writer
unfolding write_header
write_array_header n w = write_header b'*' n w

-- The caller's `n` is a count, so that `2*n` does not wrap.
unfoldable pub write_map_header : ℕ → Writer → Writer
unfolding write_header
write_map_header n w =
    if is_resp3 w then write_header b'%' (pos n) w else write_header b'*' (pos (2 * n)) w

unfoldable pub write_bool : Bool → Writer → Writer
write_bool b w =
    if is_resp3 w && b
    then write_bytes (codes "#t" ++ crlf) w
    else if is_resp3 w
    then write_bytes (codes "#f" ++ crlf) w
    else if b
    then write_bytes (codes ":1" ++ crlf) w
    else write_bytes (codes ":0" ++ crlf) w

-- A finite float64 is known by the text that strconv.AppendFloat gives it.
pub data Double : Type 0 where
  inf minus_inf nan : Double
  finite : List ℕ → Double

unfoldable pub append_double : Double → List ℕ
append_double Double.inf = codes "inf"
append_double Double.minus_inf = codes "-inf"
append_double Double.nan = codes "nan"
append_double (Double.finite text) = text

-- A text as a RESP3 scalar, or as a bulk string under RESP2.
write_scalar : ℕ → List ℕ → Writer → Writer
unfolding write_len_prefixed write_line
write_scalar tag body w =
    if is_resp3 w then write_line tag body w else write_len_prefixed b'$' body w

unfoldable pub write_double : Double → Writer → Writer
unfolding write_scalar append_double
write_double f w = write_scalar b',' (append_double f) w

-- The decimal text of a big.Int is that of an integer.
unfoldable pub write_big_number : ℤ → Writer → Writer
unfolding write_scalar format_int
write_big_number x w = write_scalar b'(' (format_int x) w

-- A successful flush of bufio changes nothing that the Writer keeps; a failed one is recorded.
unfoldable pub flush : Writer → Writer
unfolding write_bytes
flush w = write_bytes [] w
