-- ===== src/Resp/Errors.antt =====
-- internal/resp/errors.go: the kinds of a framing fault and their texts.
use cachemoney.Base.{ℕ, List, ◌++◌, codes}

pub data ErrKind : Type 0 where
  expected_array expected_bulk bad_length missing_crlf bulk_too_long multibulk_too_long : ErrKind
  line_too_long : ErrKind

-- `kindMessages`. The type has no kind out of range, so `message`'s fallback text has no case.
unfoldable pub message : ErrKind → List ℕ
message ErrKind.expected_array = codes "expected '*' array header"
message ErrKind.expected_bulk = codes "expected '$' bulk-string header"
message ErrKind.bad_length = codes "invalid length"
message ErrKind.missing_crlf = codes "expected CRLF terminator"
message ErrKind.bulk_too_long = codes "bulk length exceeds configured limit"
message ErrKind.multibulk_too_long = codes "multibulk count exceeds configured limit"
message ErrKind.line_too_long = codes "header line exceeds limit"

-- The struct carries the kind's text beside the kind.
pub record ProtocolError : Type 0 where
  pub kind : ErrKind
  pub msg : List ℕ

unfoldable pub new_protocol_error : ErrKind → ProtocolError
new_protocol_error k = record { kind = k; msg = message k }

-- `Error()`
unfoldable pub error_text : ProtocolError → List ℕ
error_text e = codes "resp: Protocol error: " ++ e.msg

-- What `ReadCommand` can return for an error: the two ends of the stream that it tells apart, a
-- framing fault, or an error of the transport, known by a number.
pub data ReadError : Type 0 where
  eof unexpected_eof : ReadError
  protocol : ProtocolError → ReadError
  transport : ℕ → ReadError
