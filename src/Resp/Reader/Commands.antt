-- ===== src/Resp/Reader/Commands.antt =====
-- Whole commands: `ReadCommand` against the frames that a Writer makes of an argument vector.
use cachemoney.Base.{
  ℕ, ◌≤◌, ◌≡◌, refl, sym, ap, ◌∙◌, ◌≢◌, Bool, true, false, List, [], ◌∷◌, ◌++◌, arith, leb, length,
  All, Bool-cases, inl, inr, length-append, length-take, take-append-drop, take, drop, take-append,
  drop-append,
}
use cachemoney.Base.Int.{ℤ, pos, ◌≤ℤ◌}
use cachemoney.Base.Results.{ok}
use cachemoney.Resp.Decimal.{format_uint, max_int, format_uint_shape}
use cachemoney.Resp.Errors.{ErrKind}
use cachemoney.Resp.Limits.{Limits}
use cachemoney.Resp.Reader.{
  Reader, read_full, check_limit, read_payload, read_bulk_arg, read_args, read_command,
  read_header_line, cr, lf,
}
use cachemoney.Resp.Reader.Lines.{
  crlf, NoNewline, with_input, read_header_line-append, header_int_canonical,
}
use cachemoney.Resp.Writer.{Writer, write_array_header, write_bulk, new_writer, format_int}
use cachemoney.Resp.Writer.Frames.{
  header_frame, bulk_frame, clean, write_header-clean, write_bulk-clean,
}
use mathlib.Core.List.{append_assoc, append-nil}

-- The bytes of the bulk strings of `args`, and of the command.
unfoldable pub bulk_frames : List (List ℕ) → List ℕ
bulk_frames [] = []
bulk_frames (a ∷ rest) = bulk_frame a ++ bulk_frames rest

unfoldable pub command_frame : List (List ℕ) → List ℕ
command_frame args = header_frame b'*' (pos (length args)) ++ bulk_frames args

-- What a Reader accepts: each argument within the bulk limit, which is an int.
pub record FitsBulk (l : Limits) (a : List ℕ) : Type 0 where
  pub within : pos (length a) ≤ℤ l.max_bulk_len
  pub int : length a ≤ max_int

pub record FitsArray (l : Limits) (args : List (List ℕ)) : Type 0 where
  pub within : pos (length args) ≤ℤ l.max_multibulk_len
  pub int : length args ≤ max_int

header_line :
    (tag n : ℕ)
    → tag ≢ lf
    → n ≤ max_int
    → NoNewline (tag ∷ format_uint n) × (length (tag ∷ format_uint n) ≤ 20)
header_line tag n h bound =
    let (digits, short) = format_uint_shape n bound in
    ((h, digits_clean (format_uint n) digits), omega arith)
  where
    digits_clean : (l : List ℕ) → All (λ c. (b'0' ≤ c) × (c ≤ b'9')) l → NoNewline l
    digits_clean [] d = tt
    digits_clean (x ∷ xs) d = ((λ e. absurd (omega arith)), digits_clean xs d.1)

read_header :
    (at_boundary : Bool) (r : Reader) (tag n : ℕ) (rest : List ℕ)
    → tag ≢ lf
    → n ≤ max_int
    → 22 ≤ r.room
    → r.input ≡ (tag ∷ format_uint n) ++ (cr ∷ lf ∷ rest)
    → read_header_line at_boundary r ≡ ok (tag ∷ format_uint n, with_input r rest)
read_header at_boundary r tag n rest h bound room e =
    let (clean, short) = header_line tag n h bound in
    read_header_line-append at_boundary r (tag ∷ format_uint n) rest clean (omega arith)
      (omega arith) e

read_full-append :
    (r : Reader) (a rest : List ℕ)
    → r.input ≡ a ++ rest
    → read_full (length a) r ≡ ok (a, with_input r rest)
unfolding read_full
read_full-append r a rest e =
    let fits : leb (length a) (length (a ++ rest)) ≡ true = rw length-append (ground arith) in
    simp (e, fits, take-append, drop-append)

pub read_full_sound :
    (n : ℕ) (r : Reader) {a : List ℕ} {r' : Reader}
    → read_full n r ≡ ok (a, r')
    → (rest : List ℕ) × (r.input ≡ a ++ rest) × (length a ≡ n) × (r' ≡ with_input r rest)
unfolding read_full
read_full_sound n r {a} {r'} h = elim (Bool-cases (leb n (length r.input))) [
  | inl enough ↦
      let h' = rw enough at h in
      let same : take n r.input ≡ a = cc in
      (
        drop n r.input,
        rw (← same) (sym (take-append-drop n r.input)),
        rw (← same) (ground (arith, length-take n r.input)),
        cc,
      )
  | inr short ↦ absurd (cc (rw short at h))
]

read_payload-append :
    (r : Reader) (a rest : List ℕ)
    → r.input ≡ a ++ (cr ∷ lf ∷ rest)
    → read_payload (length a) r ≡ ok (a, with_input r rest)
unfolding read_payload
read_payload-append r a rest e = rw (
  read_full-append r a (cr ∷ lf ∷ rest) e,
  read_full-append (with_input r (cr ∷ lf ∷ rest)) crlf rest refl,
)

within_limit : (k : ErrKind) (limit : ℤ) (n : ℕ) → pos n ≤ℤ limit → check_limit k limit n ≡ ok tt
unfolding check_limit
within_limit k limit n h = ground arith

-- One bulk string within the limits is read back, and what follows it is left.
read_bulk_arg-frame :
    (r : Reader) (a rest : List ℕ)
    → FitsBulk r.limits a
    → 22 ≤ r.room
    → r.input ≡ bulk_frame a ++ rest
    → read_bulk_arg r ≡ ok (a, with_input r rest)
unfolding read_bulk_arg format_int
read_bulk_arg-frame r a rest fits room e =
    let line =
      read_header false r b'$' (length a) (a ++ (cr ∷ lf ∷ rest)) (omega arith) fits.int room
        (e ∙ simp append_assoc) in
    rw (
      line,
      (header_int_canonical b'$' ErrKind.expected_bulk _ (length a)).1 (refl, fits.int),
      within_limit ErrKind.bulk_too_long r.limits.max_bulk_len (length a) fits.within,
      read_payload-append (with_input r (a ++ (cr ∷ lf ∷ rest))) a rest refl,
    )

read_args-frames :
    (r : Reader) (args : List (List ℕ)) (rest : List ℕ)
    → All (FitsBulk r.limits) args
    → 22 ≤ r.room
    → r.input ≡ bulk_frames args ++ rest
    → read_args (length args) r ≡ ok (args, with_input r rest)
unfolding read_args bulk_frames
read_args-frames r [] rest fits room e = ap (λ b. ok ([], with_input r b)) e
read_args-frames r (a ∷ args) rest fits room e = rw (
  read_bulk_arg-frame r a (bulk_frames args ++ rest) fits.0 room
      (e ∙ append_assoc (bulk_frame a) (bulk_frames args) rest),
  read_args-frames (with_input r (bulk_frames args ++ rest)) args rest fits.1 room refl,
)

read_command-frame :
    (r : Reader) (args : List (List ℕ)) (rest : List ℕ)
    → FitsArray r.limits args
    → All (FitsBulk r.limits) args
    → 22 ≤ r.room
    → r.input ≡ command_frame args ++ rest
    → read_command r ≡ ok (args, with_input r rest)
unfolding read_command command_frame format_int
read_command-frame r args rest array bulks room e =
    let n = length args in
    let tail = bulk_frames args ++ rest in
    let line =
      read_header true r b'*' n tail (omega arith) array.int room (e ∙ simp append_assoc) in
    rw (
      line,
      (header_int_canonical b'*' ErrKind.expected_array _ n).1 (refl, array.int),
      within_limit ErrKind.multibulk_too_long r.limits.max_multibulk_len n array.within,
      read_args-frames (with_input r tail) args rest bulks room refl,
    )

-- The calls of a client's Writer that send a command: an array header, then each argument.
unfoldable pub send_bulks : List (List ℕ) → Writer → Writer
send_bulks [] w = w
send_bulks (a ∷ args) w = send_bulks args (write_bulk a w)

unfoldable pub send_command : List (List ℕ) → Writer → Writer
send_command args w = send_bulks args (write_array_header (pos (length args)) w)

send_bulks-clean :
    (args : List (List ℕ)) (out : List ℕ) (p : ℤ)
    → send_bulks args (clean out p) ≡ clean (out ++ bulk_frames args) p
unfolding send_bulks bulk_frames
send_bulks-clean [] out p = rw append-nil
send_bulks-clean (a ∷ args) out p =
    ap (send_bulks args) (write_bulk-clean out p a)
    ∙ send_bulks-clean args _ p
    ∙ ap (λ o. clean o p) (append_assoc out (bulk_frame a) (bulk_frames args))

send_command-frame :
    (args : List (List ℕ)) → (send_command args (new_writer [])).out ≡ command_frame args
unfolding send_command command_frame new_writer write_array_header
send_command-frame args =
    ap (λ (w : Writer). w.out)
      (ap (send_bulks args) (write_header-clean [] (pos 2) b'*' (pos (length args)))
        ∙ send_bulks-clean args _ (pos 2))

-- A Reader whose limits admit the arguments and whose buffer holds a header line reads back exactly
-- the argument vector that a Writer sent, and leaves the bytes that follow, so that pipelined
-- commands are read one by one.
pub read_command-send_command :
    (r : Reader) (args : List (List ℕ)) (rest : List ℕ)
    → FitsArray r.limits args
    → All (FitsBulk r.limits) args
    → 22 ≤ r.room
    → r.input ≡ (send_command args (new_writer [])).out ++ rest
    → read_command r ≡ ok (args, with_input r rest)
read_command-send_command r args rest array bulks room e =
    read_command-frame r args rest array bulks room
      (e ∙ ap (λ t. t ++ rest) (send_command-frame args))
