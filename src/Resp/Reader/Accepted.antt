-- ===== src/Resp/Reader/Accepted.antt =====
-- The converse: a stream from which `ReadCommand` takes a command starts with that command's frame.
use cachemoney.Base.{
  ℕ, zero, suc, ◌≡◌, refl, sym, ap, ◌∙◌, Bool, true, false, List, [], ◌∷◌, ◌++◌, arith, length, All,
}
use cachemoney.Base.Int.{ℤ, pos, ◌≤ℤ◌}
use cachemoney.Base.Results.{ok, err, >>=-eq-ok}
use cachemoney.Resp.Decimal.{format_uint}
use cachemoney.Resp.Errors.{ErrKind}
use cachemoney.Resp.Reader.{
  Reader, Read, read_full, or_normalize, check_crlf, check_limit, read_payload, read_bulk_arg,
  read_args, read_command, header_int, read_header_line,
}
use cachemoney.Resp.Reader.Lines.{crlf, with_input, read_header_line_sound, header_int_canonical}
use cachemoney.Resp.Reader.Commands.{
  FitsBulk, FitsArray, bulk_frames, command_frame, read_full_sound,
}
use cachemoney.Resp.Writer.{format_int}
use cachemoney.Resp.Writer.Frames.{bulk_frame, header_frame}
use mathlib.Core.List.{append_assoc}
use mathlib.Core.Path.{subst}

or_normalize-eq-ok : {A : Type 0} (m : Read A) {a : A} → or_normalize m ≡ ok a → m ≡ ok a
unfolding or_normalize
or_normalize-eq-ok (ok a) h = h
or_normalize-eq-ok (err e) h = absurd (cc)

check_crlf_sound : (l : List ℕ) → check_crlf l ≡ ok tt → l ≡ crlf
unfolding check_crlf
check_crlf_sound [] h = absurd (cc)
check_crlf_sound (a ∷ []) h = absurd (cc)
check_crlf_sound (a ∷ b ∷ []) h = ground arith
check_crlf_sound (a ∷ b ∷ c ∷ l) h = absurd (cc)

check_limit_sound :
    (k : ErrKind) (limit : ℤ) (n : ℕ) → check_limit k limit n ≡ ok tt → pos n ≤ℤ limit
unfolding check_limit
check_limit_sound k limit n h = ground arith

-- `r'` is the reader `r` after it took the bytes `bs`.
abbrev pub Took : Reader → List ℕ → Reader → Type 0
Took r bs r' = (r.input ≡ bs ++ r'.input) × (r' ≡ with_input r r'.input)

Took-trans : {r s t : Reader} (a b : List ℕ) → Took r a s → Took s b t → Took r (a ++ b) t
Took-trans {r} {s} {t} a b h k = (
  h.0 ∙ ap (λ x. a ++ x) k.0 ∙ sym (append_assoc a b t.input),
  k.1 ∙ ap (λ x. with_input x t.input) h.1,
)

read_full-Took :
    (n : ℕ) (r : Reader) {a : List ℕ} {r' : Reader}
    → read_full n r ≡ ok (a, r')
    → Took r a r' × (length a ≡ n)
read_full-Took n r {a} {r'} h =
    let (rest, split, len, same) = read_full_sound n r h in
    let input = ap (λ (x : Reader). x.input) same in
    ((split ∙ ap (λ x. a ++ x) (sym input), same ∙ ap (with_input r) (sym input)), len)

read_header-Took :
    (at_boundary : Bool) (r : Reader) {t : List ℕ} {r' : Reader}
    → read_header_line at_boundary r ≡ ok (t, r')
    → Took r (t ++ crlf) r'
read_header-Took at_boundary r {t} {r'} h =
    let (rest, split, same) = read_header_line_sound at_boundary r h in
    let input : r'.input ≡ rest = ap (λ (x : Reader). x.input) same in
    (rw (append_assoc, input) split, same ∙ ap (with_input r) (sym input))

read_payload_sound :
    (n : ℕ) (r : Reader) {a : List ℕ} {r' : Reader}
    → read_payload n r ≡ ok (a, r')
    → Took r (a ++ crlf) r' × (length a ≡ n)
unfolding read_payload
read_payload_sound n r {a} {r'} h =
    let ((buf, r₁), e₁, h₁) = >>=-eq-ok (or_normalize (read_full n r)) _ h in
    let ((ends, r₂), e₂, h₂) = >>=-eq-ok (or_normalize (read_full 2 r₁)) _ h₁ in
    let (_, e₃, h₃) = >>=-eq-ok (check_crlf ends) _ h₂ in
    let (took₁, len) = read_full-Took n r (or_normalize-eq-ok _ e₁) in
    let (took₂, _) = read_full-Took 2 r₁ (or_normalize-eq-ok _ e₂) in
    let shape : ends ≡ crlf = check_crlf_sound ends e₃ in
    let same_buf : buf ≡ a = cc in
    let same_reader : r₂ ≡ r' = cc in
    let took = Took-trans buf ends took₁ took₂ in
    (
      subst (λ x. Took r (a ++ x) r') shape
          (subst (λ x. Took r (x ++ ends) r') same_buf
            (subst (λ x. Took r (buf ++ ends) x) same_reader took)),
      rw (← same_buf) len,
    )

frame_eq :
    (tag : ℕ) (n : ℕ) (l body : List ℕ)
    → l ≡ tag ∷ format_uint n
    → (l ++ crlf) ++ body ≡ header_frame tag (pos n) ++ body
unfolding format_int
frame_eq tag n l body e = rw e

-- The bytes of an accepted argument are its bulk frame, and it is within the limit.
read_bulk_arg_sound :
    (r : Reader) {a : List ℕ} {r' : Reader}
    → read_bulk_arg r ≡ ok (a, r')
    → Took r (bulk_frame a) r' × FitsBulk r.limits a
unfolding read_bulk_arg
read_bulk_arg_sound r {a} {r'} h =
    let ((l, r₁), e₁, h₁) = >>=-eq-ok (read_header_line false r) _ h in
    let (n, e₂, h₂) = >>=-eq-ok (header_int b'$' ErrKind.expected_bulk l) _ h₁ in
    let (u, e₃, h₃) = >>=-eq-ok (check_limit ErrKind.bulk_too_long r.limits.max_bulk_len n) _ h₂ in
    let took₁ = read_header-Took false r e₁ in
    let (text, int) = (header_int_canonical b'$' ErrKind.expected_bulk l n).0 e₂ in
    let (took₂, len) = read_payload_sound n r₁ h₃ in
    let within = check_limit_sound ErrKind.bulk_too_long r.limits.max_bulk_len n e₃ in
    let framed : (l ++ crlf) ++ (a ++ crlf) ≡ bulk_frame a =
      frame_eq b'$' n l (a ++ crlf) text
      ∙ ap (λ k. header_frame b'$' (pos k) ++ (a ++ crlf)) (sym len) in
    (
      subst (λ x. Took r x r') framed (Took-trans (l ++ crlf) (a ++ crlf) took₁ took₂),
      record { within = rw len within; int = rw len int },
    )

-- The arguments that the loop returned: their number, their frames and their limits.
read_args_sound :
    (n : ℕ) (r : Reader) {args : List (List ℕ)} {r' : Reader}
    → read_args n r ≡ ok (args, r')
    → Took r (bulk_frames args) r' × All (FitsBulk r.limits) args × (length args ≡ n)
unfolding read_args bulk_frames
read_args_sound zero r {args} {r'} h =
    let same_args : [] ≡ args = cc in
    let same_reader : r ≡ r' = cc in
    (
      subst (λ x. Took r (bulk_frames x) r') same_args
          (subst (λ x. Took r [] x) same_reader (refl, refl)),
      subst (All (FitsBulk r.limits)) same_args tt,
      ap length (sym same_args),
    )
read_args_sound (suc n) r {args} {r'} h =
    let ((a, r₁), e₁, h₁) = >>=-eq-ok (read_bulk_arg r) _ h in
    let ((more, r₂), e₂, h₂) = >>=-eq-ok (read_args n r₁) _ h₁ in
    let (took₁, fits₁) = read_bulk_arg_sound r e₁ in
    let (took₂, fits₂, len) = read_args_sound n r₁ e₂ in
    let limits : r₁.limits ≡ r.limits = ap (λ (x : Reader). x.limits) took₁.1 in
    let same_args : a ∷ more ≡ args = cc in
    let same_reader : r₂ ≡ r' = cc in
    let took = Took-trans (bulk_frame a) (bulk_frames more) took₁ took₂ in
    (
      subst (λ x. Took r (bulk_frames x) r') same_args
          (subst (λ x. Took r (bulk_frames (a ∷ more)) x) same_reader took),
      subst (All (FitsBulk r.limits)) same_args (fits₁, rw limits at fits₂),
      ap length (sym same_args) ∙ ap suc len,
    )

-- Whatever bytes a Reader is given: if it returns a command, the stream began with exactly that
-- command's frame, the Reader took that frame and nothing more, and the number of arguments and the
-- length of each are within the limits.
pub read_command_sound :
    (r : Reader) {args : List (List ℕ)} {r' : Reader}
    → read_command r ≡ ok (args, r')
    → Took r (command_frame args) r' × FitsArray r.limits args × All (FitsBulk r.limits) args
unfolding read_command command_frame
read_command_sound r {args} {r'} h =
    let ((l, r₁), e₁, h₁) = >>=-eq-ok (read_header_line true r) _ h in
    let (n, e₂, h₂) = >>=-eq-ok (header_int b'*' ErrKind.expected_array l) _ h₁ in
    let (u, e₃, h₃) =
      >>=-eq-ok (check_limit ErrKind.multibulk_too_long r.limits.max_multibulk_len n) _ h₂ in
    let took₁ = read_header-Took true r e₁ in
    let (text, int) = (header_int_canonical b'*' ErrKind.expected_array l n).0 e₂ in
    let (took₂, fits, len) = read_args_sound n r₁ h₃ in
    let within = check_limit_sound ErrKind.multibulk_too_long r.limits.max_multibulk_len n e₃ in
    let limits : r₁.limits ≡ r.limits = ap (λ (x : Reader). x.limits) took₁.1 in
    let framed : (l ++ crlf) ++ bulk_frames args
        ≡ header_frame b'*' (pos (length args)) ++ bulk_frames args =
      frame_eq b'*' n l (bulk_frames args) text
      ∙ ap (λ k. header_frame b'*' (pos k) ++ bulk_frames args) (sym len) in
    (
      subst (λ x. Took r x r') framed (Took-trans (l ++ crlf) (bulk_frames args) took₁ took₂),
      record { within = rw len within; int = rw len int },
      rw limits at fits,
    )
