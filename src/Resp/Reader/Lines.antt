-- ===== src/Resp/Reader/Lines.antt =====
-- Header lines: what `readHeaderLine` makes of a stream, both ways.
use cachemoney.Base.{
  ℕ, zero, suc, ◌+◌, ◌≤◌, ◌<◌, ◌≡◌, refl, sym, ap, ◌∙◌, ◌≢◌, Bool, Option, none, some, List, [],
  ◌∷◌, ◌++◌, arith, ltb, ◌==◌, length, All, Bool-cases, inl, inr, length-append, Option-cases,
  All-append, le→ltb, ==_iff, ◌↔◌,
}
use cachemoney.Base.Results.{ok, >>=-eq-ok}
use cachemoney.Resp.Decimal.{format_uint, max_int, parse_int_canonical}
use cachemoney.Resp.Errors.{ErrKind}
use cachemoney.Resp.Limits.{max_header_line}
use cachemoney.Resp.Reader.{
  Reader, Slice, line, full, ended, keep_byte, read_slice, crlf_content, trim_crlf, or_fault,
  header_of, read_header_line, header_int, cr, lf,
}
use mathlib.Core.List.{append_assoc}

abbrev pub crlf : List ℕ
crlf = cr ∷ lf ∷ []

abbrev pub NoNewline : List ℕ → Type 0
NoNewline = All (λ c. c ≢ lf)

-- A line with no newline inside that fits the buffer is found whole.
read_slice-line :
    (room : ℕ) (l rest : List ℕ)
    → NoNewline l
    → length l < room
    → read_slice room (l ++ (lf ∷ rest)) ≡ line (l ++ (lf ∷ [])) rest
unfolding read_slice
read_slice-line zero l rest clean fits = absurd (omega arith)
read_slice-line (suc room) [] rest clean fits = refl
read_slice-line (suc room) (b ∷ l) rest clean fits =
    ground (arith, read_slice-line room l rest clean.1 (omega arith), clean.0)

read_slice_sound :
    (room : ℕ) (bs l rest : List ℕ)
    → read_slice room bs ≡ line l rest
    → (t : List ℕ) × (l ≡ t ++ (lf ∷ [])) × (bs ≡ l ++ rest)
unfolding read_slice
read_slice_sound zero bs l rest h = absurd (cc)
read_slice_sound (suc room) [] l rest h = absurd (cc)
read_slice_sound (suc room) (b ∷ bs) l rest h = elim (Bool-cases (b == lf)) [
  | inl is_lf ↦ ([], ground arith, ground arith)
  | inr other ↦
      kept b bs (read_slice room bs) l rest (λ k r e. read_slice_sound room bs k r e)
        (rw other at h) refl
]
  where
    kept :
        (b : ℕ) (bs : List ℕ) (s : Slice) (l rest : List ℕ)
        → ((k r : List ℕ)
            → read_slice room bs ≡ line k r
            → (t : List ℕ) × (k ≡ t ++ (lf ∷ [])) × (bs ≡ k ++ r))
        → keep_byte b s ≡ line l rest
        → read_slice room bs ≡ s
        → (t : List ℕ) × (l ≡ t ++ (lf ∷ [])) × (b ∷ bs ≡ l ++ rest)
    kept b bs (line k r) l rest ih h e =
        let (t, shape, split) = ih k r e in
        let head : b ∷ k ≡ l = unfold keep_byte in cc in
        let tail : r ≡ rest = unfold keep_byte in cc in
        (b ∷ t, cc, rw (← head, ← tail) (ap (λ x. b ∷ x) split))
    kept b bs full l rest ih h e = absurd (unfold keep_byte in cc)
    kept b bs (ended k) l rest ih h e = absurd (unfold keep_byte in cc)

crlf_content-append : (t : List ℕ) → crlf_content (t ++ crlf) ≡ some t
unfolding crlf_content
crlf_content-append [] = refl
crlf_content-append (a ∷ []) = refl
crlf_content-append (a ∷ b ∷ []) = refl
crlf_content-append (a ∷ b ∷ c ∷ t) = rw (crlf_content-append (b ∷ c ∷ t))

crlf_content_sound : (l t : List ℕ) → crlf_content l ≡ some t → (x : ℕ) × (l ≡ t ++ (cr ∷ x ∷ []))
unfolding crlf_content
crlf_content_sound [] t h = absurd (cc)
crlf_content_sound (a ∷ []) t h = absurd (cc)
crlf_content_sound (a ∷ b ∷ []) t h = (b, ground arith)
crlf_content_sound (a ∷ b ∷ c ∷ l) t h = elim (Option-cases (crlf_content (b ∷ c ∷ l))) [
  | inl e ↦ absurd (ground arith)
  | inr (u, e) ↦
      let (x, shape) = crlf_content_sound (b ∷ c ∷ l) u e in
      (x, let same : a ∷ u ≡ t = ground arith in rw (← same) (ap (λ s. a ∷ s) shape))
]

trim_crlf-append : (t : List ℕ) → length t ≤ 62 → trim_crlf (t ++ crlf) ≡ ok t
unfolding trim_crlf
trim_crlf-append t h = rw (
  le→ltb max_header_line (length (t ++ crlf)) (rw length-append (omega arith)),
  crlf_content-append t,
)

abbrev pub with_input : Reader → List ℕ → Reader
with_input r bs = record r { input = bs }

-- A header line with no newline inside, short enough for the buffer and the cap, is read whole.
pub read_header_line-append :
    (at_boundary : Bool) (r : Reader) (t rest : List ℕ)
    → NoNewline t
    → length t + 2 ≤ r.room
    → length t ≤ 62
    → r.input ≡ t ++ (cr ∷ lf ∷ rest)
    → read_header_line at_boundary r ≡ ok (t, with_input r rest)
unfolding read_header_line
read_header_line-append at_boundary r t rest clean fits short e =
    rw (e, found) (unfold header_of in rw (trim_crlf-append t short))
  where
    found : read_slice r.room (t ++ (cr ∷ lf ∷ rest)) ≡ line (t ++ crlf) rest
    found =
        let found' =
          read_slice-line r.room (t ++ (cr ∷ [])) rest
            (All-append _ t _ clean ((λ x. absurd (omega arith)), tt))
            (rw length-append (omega arith)) in
        rw (append_assoc, append_assoc) at found'

or_fault-eq-ok :
    {A : Type 0} (k : ErrKind) (o : Option A) {a : A} → or_fault k o ≡ ok a → o ≡ some a
unfolding or_fault
or_fault-eq-ok k none h = absurd (cc)
or_fault-eq-ok k (some b) h = cc

trim_crlf_sound : (l t : List ℕ) → trim_crlf l ≡ ok t → (x : ℕ) × (l ≡ t ++ (cr ∷ x ∷ []))
unfolding trim_crlf
trim_crlf_sound l t h = elim (Bool-cases (ltb max_header_line (length l))) [
  | inl long ↦ absurd (cc (rw long at h))
  | inr short ↦ crlf_content_sound l t (or_fault-eq-ok _ _ (rw short at h))
]

last_of : List ℕ → ℕ
last_of [] = 0
last_of (x ∷ []) = x
last_of (x ∷ y ∷ xs) = last_of (y ∷ xs)

last_of-append : (u : List ℕ) (x : ℕ) → last_of (u ++ (x ∷ [])) ≡ x
unfolding last_of
last_of-append [] x = refl
last_of-append (a ∷ []) x = refl
last_of-append (a ∷ b ∷ u) x = last_of-append (b ∷ u) x

last_eq : (u v : List ℕ) (a b c : ℕ) → u ++ (a ∷ []) ≡ v ++ (c ∷ b ∷ []) → b ≡ a
last_eq u v a b c e =
    sym (last_of-append (v ++ (c ∷ [])) b)
    ∙ ap last_of (append_assoc v (c ∷ []) (b ∷ []) ∙ sym e)
    ∙ last_of-append u a

-- The bytes that a header line took are its content and CRLF.
pub read_header_line_sound :
    (at_boundary : Bool) (r : Reader) {t : List ℕ} {r' : Reader}
    → read_header_line at_boundary r ≡ ok (t, r')
    → (rest : List ℕ) × (r.input ≡ t ++ (cr ∷ lf ∷ rest)) × (r' ≡ with_input r rest)
unfolding read_header_line
read_header_line_sound at_boundary r {t} {r'} h = by_slice (read_slice r.room r.input) refl h
  where
    by_slice :
        (s : Slice)
        → read_slice r.room r.input ≡ s
        → header_of at_boundary r s ≡ ok (t, r')
        → (rest : List ℕ) × (r.input ≡ t ++ (cr ∷ lf ∷ rest)) × (r' ≡ with_input r rest)
    by_slice (line l rest) e h =
        let (u, shape, split) = read_slice_sound r.room r.input l rest e in
        let (v, trimmed, out) = >>=-eq-ok (trim_crlf l) _ (unfold header_of in h) in
        let (x, ends) = trim_crlf_sound l v trimmed in
        let newline : x ≡ lf = last_eq u v lf x cr (sym shape ∙ ends) in
        let same : v ≡ t = cc in
        let framed : l ≡ t ++ crlf = rw (← same, ← newline) ends in
        (rest, split ∙ ap (λ s. s ++ rest) framed ∙ append_assoc t crlf rest, cc)
    by_slice full e h = absurd (unfold header_of in cc)
    by_slice (ended l) e h = absurd (unfold header_of in ground arith)

header_int-eq-ok :
    (tag : ℕ) (k : ErrKind) (h : List ℕ) (n : ℕ)
    → header_int tag k h ≡ ok n
    → (h ≡ tag ∷ format_uint n) × (n ≤ max_int)
unfolding header_int
header_int-eq-ok tag k [] n h = absurd (cc)
header_int-eq-ok tag k (c ∷ cs) n h = elim (Bool-cases (c == tag)) [
  | inl same ↦
      let (text, bound) = (parse_int_canonical cs n).0 (or_fault-eq-ok _ _ (rw same at h)) in
      (ground arith, bound)
  | inr other ↦ absurd (cc (rw other at h))
]

header_int-ok :
    (tag : ℕ) (k : ErrKind) (n : ℕ) → n ≤ max_int → header_int tag k (tag ∷ format_uint n) ≡ ok n
unfolding header_int or_fault
header_int-ok tag k n h =
    rw ((==_iff tag tag).1 refl, (parse_int_canonical (format_uint n) n).1 (refl, h))

-- A header carries a number exactly when it is the tag and the number's canonical text.
pub header_int_canonical :
    (tag : ℕ) (k : ErrKind) (h : List ℕ) (n : ℕ)
    → (header_int tag k h ≡ ok n) ↔ (h ≡ tag ∷ format_uint n) × (n ≤ max_int)
header_int_canonical tag k h n =
    (header_int-eq-ok tag k h n, λ (e, b). rw e (header_int-ok tag k n b))
