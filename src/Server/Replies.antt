-- ===== src/Server/Replies.antt =====
-- internal/server/reply.go and dispatch.go's asciiUpper: texts that come from the client, made safe
-- for a one-line reply, and the error lines.
use cachemoney.Base.{
  ℕ, ◌+◌, ◌-◌, ◌≤◌, ◌≡◌, ◌≢◌, refl, ◌||◌, ◌&&◌, List, [], ◌∷◌, ◌++◌, map, arith, ltb, leb, ◌==◌,
  if◌then◌else◌, length, take, length-take, All, codes, Bool-cases, inl, inr,
}
use cachemoney.Resp.Writer.{Writer, write_error}

abbrev pub max_err_echo_len : ℕ
max_err_echo_len = 128

-- The loop's body: a control byte becomes '?'.
unfoldable pub printable : ℕ → ℕ
printable ch = if ltb ch 0x20 || ch == 0x7f then b'?' else ch

unfoldable pub sanitize_text : List ℕ → List ℕ
unfolding printable
sanitize_text b =
    map printable (if ltb max_err_echo_len (length b) then take max_err_echo_len b else b)

-- One letter's fold, up (asciiUpper) and down (strings.ToLower on the ASCII names of the table).
unfoldable pub upper_byte : ℕ → ℕ
upper_byte ch = if leb b'a' ch && leb ch b'z' then ch - (b'a' - b'A') else ch

unfoldable pub ascii_upper : List ℕ → List ℕ
unfolding upper_byte
ascii_upper b = map upper_byte b

unfoldable pub lower_byte : ℕ → ℕ
lower_byte ch = if leb b'A' ch && leb ch b'Z' then ch + (b'a' - b'A') else ch

unfoldable pub to_lower : List ℕ → List ℕ
unfolding lower_byte
to_lower b = map lower_byte b

unfoldable pub reply_unknown_command : List ℕ → Writer → Writer
reply_unknown_command raw w =
    write_error
      (codes "ERR unknown command '" ++ sanitize_text raw ++ codes "', with args beginning with: ")
      w

unfoldable pub reply_wrong_arity : List ℕ → Writer → Writer
reply_wrong_arity name w =
    write_error (codes "ERR wrong number of arguments for '" ++ to_lower name ++ codes "'") w

unfoldable pub reply_engine_err : List ℕ → Writer → Writer
reply_engine_err text w = write_error (codes "ERR " ++ sanitize_text text) w

unfoldable pub write_oom : Writer → Writer
write_oom w = write_error (codes "OOM command not allowed when used memory > 'maxmemory'") w

-- A byte that cannot end a line or control a terminal.
abbrev pub IsPlain : ℕ → Type 0
IsPlain ch = (0x20 ≤ ch) × (ch ≢ 0x7f)

printable-IsPlain : (ch : ℕ) → IsPlain (printable ch)
unfolding printable
printable-IsPlain ch = ground arith

map-IsPlain : (b : List ℕ) → All IsPlain (map printable b) × (length (map printable b) ≡ length b)
map-IsPlain [] = (tt, refl)
map-IsPlain (ch ∷ b) =
    let (plain, same) = map-IsPlain b in ((printable-IsPlain ch, plain), omega arith)

-- Whatever bytes a client sent, what is echoed of them has at most 128 bytes, and none of them is a
-- control byte: it can neither end the reply's line nor start another.
pub sanitize_text-IsPlain :
    (b : List ℕ) → All IsPlain (sanitize_text b) × (length (sanitize_text b) ≤ max_err_echo_len)
unfolding sanitize_text
sanitize_text-IsPlain b = elim (Bool-cases (ltb max_err_echo_len (length b))) [
  | inl long ↦
      let (plain, same) = map-IsPlain (take max_err_echo_len b) in
      rw long (plain, omega (arith, same, length-take max_err_echo_len b))
  | inr short ↦
      let (plain, same) = map-IsPlain b in
      let few : length b ≤ max_err_echo_len = ground arith in rw short (plain, omega (arith, same))
]
