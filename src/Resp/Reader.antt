-- ===== src/Resp/Reader.antt =====
-- internal/resp/reader.go over bufio. A Reader is its limits, its buffer's size, the bytes that the
-- stream still delivers and how the stream ends. After an error the connection closes, so an error
-- carries no rest of the stream.
pub mod Lines
pub mod Commands
pub mod Accepted
use Prim.Native.Nat.{compare}
use cachemoney.Base.{
  ℕ, zero, suc, ◌+◌, ◌-◌, ◌*◌, ◌≤◌, ◌<◌, max, ◌≡◌, refl, Bool, true, false, not, ◌||◌, ◌&&◌, Option,
  none, some, List, [], ◌∷◌, ◌++◌, arith, ltb, leb, ◌==◌, if◌then◌else◌, length, take, drop,
}
use cachemoney.Base.Int.{ℤ, pos, ltb_ℤ, pos_part}
use cachemoney.Base.Results.{Result, ok, err, ◌>>=◌}
use cachemoney.Resp.Decimal.{parse_int}
use cachemoney.Resp.Errors.{
  ErrKind, ReadError, eof, unexpected_eof, protocol, transport, new_protocol_error,
}
use cachemoney.Resp.Limits
use cachemoney.Resp.Limits.{Limits, max_header_line, resolve_config}

abbrev pub cr : ℕ
cr = 13

abbrev pub lf : ℕ
lf = 10

-- How the underlying stream ends once its bytes are delivered: io.EOF or an error of its own.
pub data End : Type 0 where
  closed : End
  failed : ℕ → End

pub record Reader : Type 0 where
  pub input : List ℕ
  pub at_end : End
  pub room : ℕ
  pub limits : Limits

-- bufio raises a size below 16 to 16.
unfoldable pub new_reader : List ℕ → End → List Limits.Option → Reader
new_reader input at_end opts =
    let cfg = resolve_config opts in
    record {
      input = input;
      at_end = at_end;
      room = max (pos_part cfg.buffer_size) 16;
      limits = cfg.limits;
    }

abbrev pub Read : Type 0 → Type 0
Read A = Result ReadError A

abbrev pub fault : {A : Type 0} → ErrKind → Read A
fault k = err (protocol (new_protocol_error k))

-- `bufio.Reader.ReadSlice('\n')`: a line with its newline and what follows it, a buffer that
-- filled up with no newline, or the bytes before the end of the stream.
pub data Slice : Type 0 where
  line : List ℕ → List ℕ → Slice
  full : Slice
  ended : List ℕ → Slice

unfoldable pub keep_byte : ℕ → Slice → Slice
keep_byte b (line l rest) = line (b ∷ l) rest
keep_byte b full = full
keep_byte b (ended l) = ended (b ∷ l)

unfoldable pub read_slice : ℕ → List ℕ → Slice
unfolding keep_byte
read_slice zero bs = full
read_slice (suc room) [] = ended []
read_slice (suc room) (b ∷ bs) =
    let more = read_slice room bs in if b == lf then line (b ∷ []) bs else keep_byte b more

-- `io.ReadFull` of `n` bytes: with none to read it succeeds at once, at the end it returns the
-- end's error if nothing came, and io.ErrUnexpectedEOF for io.EOF if something did.
end_error : End → ReadError
end_error closed = eof
end_error (failed e) = transport e

short_error : List ℕ → End → ReadError
unfolding end_error
short_error [] e = end_error e
short_error (b ∷ bs) closed = unexpected_eof
short_error (b ∷ bs) (failed e) = transport e

unfoldable pub read_full : ℕ → Reader → Read (List ℕ × Reader)
unfolding short_error
read_full n r =
    if leb n (length r.input)
    then ok (take n r.input, record r { input = drop n r.input })
    else err (short_error r.input r.at_end)

unfoldable pub normalize_eof : ReadError → ReadError
normalize_eof eof = unexpected_eof
normalize_eof e = e

unfoldable pub or_normalize : {A : Type 0} → Read A → Read A
unfolding normalize_eof
or_normalize (ok a) = ok a
or_normalize (err e) = err (normalize_eof e)

-- The content of a line that ends in CRLF: `line[len(line)-2] != '\r'` and `line[:len(line)-2]`.
crlf_content : List ℕ → Option (List ℕ)
crlf_content [] = none
crlf_content (a ∷ []) = none
crlf_content (a ∷ b ∷ []) = if a == cr then some [] else none
crlf_content (a ∷ b ∷ c ∷ l) = elim (crlf_content (b ∷ c ∷ l)) [
  | none ↦ none
  | some t ↦ some (a ∷ t)
]

unfoldable pub or_fault : {A : Type 0} → ErrKind → Option A → Read A
or_fault k none = fault k
or_fault k (some a) = ok a

unfoldable pub trim_crlf : List ℕ → Read (List ℕ)
unfolding crlf_content or_fault
trim_crlf l =
    if ltb max_header_line (length l)
    then fault ErrKind.line_too_long
    else or_fault ErrKind.missing_crlf (crlf_content l)

-- The branches of `readHeaderLine` on what `ReadSlice` returned.
header_of : Bool → Reader → Slice → Read (List ℕ × Reader)
header_of at_boundary r (line l rest) = trim_crlf l >>= λ t. ok (t, record r { input = rest })
header_of at_boundary r full = fault ErrKind.line_too_long
header_of at_boundary r (ended l) = elim r.at_end [
  | closed ↦ if at_boundary && (length l == 0) then err eof else err unexpected_eof
  | failed e ↦ err (transport e)
]

unfoldable pub read_header_line : Bool → Reader → Read (List ℕ × Reader)
unfolding header_of
read_header_line at_boundary r = header_of at_boundary r (read_slice r.room r.input)

-- `len(header) == 0 || header[0] != tag`, then `parseInt(header[1:])`.
unfoldable pub header_int : ℕ → ErrKind → List ℕ → Read ℕ
unfolding or_fault
header_int tag k [] = fault k
header_int tag k (c ∷ cs) = if c == tag then or_fault ErrKind.bad_length (parse_int cs) else fault k

unfoldable pub check_crlf : List ℕ → Read (Unit {0})
check_crlf (a ∷ b ∷ []) = if (a == cr) && (b == lf) then ok tt else fault ErrKind.missing_crlf
check_crlf l = fault ErrKind.missing_crlf

-- `if n > limit { return nil, newProtocolError(kind) }`
unfoldable pub check_limit : ErrKind → ℤ → ℕ → Read (Unit {0})
check_limit k limit n = if ltb_ℤ limit (pos n) then fault k else ok tt

-- The payload of `n` bytes and its CRLF.
unfoldable pub read_payload : ℕ → Reader → Read (List ℕ × Reader)
unfolding or_normalize check_crlf
read_payload n r = do
  (buf, r₁) ← or_normalize (read_full n r)
  (crlf, r₂) ← or_normalize (read_full 2 r₁)
  _ ← check_crlf crlf
  ok (buf, r₂)

unfoldable pub read_bulk_arg : Reader → Read (List ℕ × Reader)
unfolding check_limit
read_bulk_arg r = do
  (header, r₁) ← read_header_line false r
  n ← header_int b'$' ErrKind.expected_bulk header
  _ ← check_limit ErrKind.bulk_too_long r.limits.max_bulk_len n
  read_payload n r₁

-- `for i := 0; i < n; i++`
unfoldable pub read_args : ℕ → Reader → Read (List (List ℕ) × Reader)
read_args zero r = ok ([], r)
read_args (suc n) r = do
  (arg, r₁) ← read_bulk_arg r
  (args, r₂) ← read_args n r₁
  ok (arg ∷ args, r₂)

unfoldable pub read_command : Reader → Read (List (List ℕ) × Reader)
unfolding check_limit
read_command r = do
  (header, r₁) ← read_header_line true r
  n ← header_int b'*' ErrKind.expected_array header
  _ ← check_limit ErrKind.multibulk_too_long r.limits.max_multibulk_len n
  read_args n r₁
