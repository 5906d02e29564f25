-- ===== src/Resp/Decimal.antt =====
-- Decimal numbers on the wire: `parseInt` of internal/resp/reader.go, and the decimal text that
-- strconv.AppendInt writes.
use cachemoney.Base.{
  ℕ, zero, suc, ◌+◌, ◌-◌, ◌*◌, ◌/◌, ◌%◌, ◌^◌, ◌≤◌, ◌<◌, ◌≡◌, refl, sym, ap, ◌∙◌, ◌↔◌, inl, inr,
  Bool, true, false, ◌&&◌, ◌||◌, not, Option, none, some, List, [], ◌∷◌, ◌++◌, arith, ltb, ◌==◌,
  if◌then◌else◌, length, Bool-cases, All, All-append, length-append,
}
use mathlib.Core.List.{append-nil, append_assoc}
use native.Mathlib.Nat.{pow-suc}

-- The largest int of a 64-bit platform.
abbrev pub max_int : ℕ
max_int = 2 ^ 63 - 1

-- A byte below '0' or above '9'.
abbrev pub not_digit : ℕ → Bool
not_digit c = ltb c b'0' || ltb b'9' c

-- `for _, c := range b`, from the sum so far.
unfoldable pub parse_digits : ℕ → List ℕ → Option ℕ
parse_digits n [] = some n
parse_digits n (c ∷ cs) =
    let d = c - b'0' in
    let rest = parse_digits (n * 10 + d) cs in
    if not_digit c then none else if ltb ((max_int - d) / 10) n then none else rest

-- The test of the leading byte: '1' to '9', or a lone '0'.
unfoldable pub bad_lead : ℕ → List ℕ → Bool
bad_lead c cs = (ltb c b'1' || ltb b'9' c) && (not (length (c ∷ cs) == 1) || not (c == b'0'))

unfoldable pub parse_int : List ℕ → Option ℕ
unfolding bad_lead parse_digits
parse_int [] = none
parse_int (c ∷ cs) = if bad_lead c cs then none else parse_digits 0 (c ∷ cs)

-- The decimal digits of `n`, given fuel above `n`.
format_fuel : ℕ → ℕ → List ℕ
format_fuel zero n = []
format_fuel (suc f) n =
    let front = format_fuel f (n / 10) in
    if ltb n 10 then (b'0' + n) ∷ [] else front ++ ((b'0' + n % 10) ∷ [])

unfoldable pub format_uint : ℕ → List ℕ
unfolding format_fuel
format_uint n = format_fuel (suc n) n

format_fuel-eq : (f g n : ℕ) → n < f → n < g → format_fuel f n ≡ format_fuel g n
unfolding format_fuel
format_fuel-eq zero g n p q = absurd (omega arith)
format_fuel-eq (suc f) zero n p q = absurd (omega arith)
format_fuel-eq (suc f) (suc g) n p q = ground (arith, format_fuel-eq f g (n / 10))

-- The digits of a number with a last digit `d` under a front that is not zero.
format_uint_digit :
    (n d : ℕ) → 0 < n → d < 10 → format_uint (n * 10 + d) ≡ format_uint n ++ ((b'0' + d) ∷ [])
unfolding format_uint
format_uint_digit n d hn hd =
    ground (arith, format_fuel-eq (n * 10 + d) (suc n) n (omega arith) (omega arith), split, low)
  where
    split : (n * 10 + d) / 10 ≡ n
    split = omega arith

    low : (n * 10 + d) % 10 ≡ d
    low = omega arith

format_uint_small : (n : ℕ) → n < 10 → format_uint n ≡ (b'0' + n) ∷ []
unfolding format_uint
format_uint_small n h = ground arith

-- Every digit string that the loop accepts is the tail of its value's decimal text.
parse_digits_sound :
    (acc : ℕ) (bs : List ℕ) (n : ℕ)
    → 0 < acc
    → acc ≤ max_int
    → parse_digits acc bs ≡ some n
    → (format_uint n ≡ format_uint acc ++ bs) × (n ≤ max_int)
unfolding parse_digits
parse_digits_sound acc [] n pos small h =
    let e : acc ≡ n = ground arith in (rw (← e) (sym (append-nil _)), omega arith)
parse_digits_sound acc (c ∷ cs) n pos small h =
    let d = c - b'0' in
    let digit : (c ≡ b'0' + d) × (d < 10) × (acc * 10 + d ≤ max_int) = ground arith in
    let more : parse_digits (acc * 10 + d) cs ≡ some n = ground arith in
    let (text, bound) = parse_digits_sound (acc * 10 + d) cs n (omega arith) (omega arith) more in
    let front = format_uint_digit acc d pos digit.1 in
    (
      text
          ∙ ap (λ t. t ++ cs) front
          ∙ append_assoc (format_uint acc) ((b'0' + d) ∷ []) cs
          ∙ ap (λ t. format_uint acc ++ (t ∷ cs)) (sym digit.0),
      bound,
    )

-- Reading a number's decimal text leaves the loop with that number.
parse_digits-format_fuel :
    (f n : ℕ) (cs : List ℕ)
    → n < f
    → n ≤ max_int
    → parse_digits 0 (format_fuel f n ++ cs) ≡ parse_digits n cs
unfolding parse_digits format_fuel
parse_digits-format_fuel zero n cs h hn = absurd (omega arith)
parse_digits-format_fuel (suc f) n cs h hn = elim (Bool-cases (ltb n 10)) [
  | inl small ↦ rw small (ground arith)
  | inr big ↦
      rw (big, append_assoc (format_fuel f (n / 10)))
        (parse_digits-format_fuel f (n / 10) ((b'0' + n % 10) ∷ cs) (ground arith) (ground arith)
          ∙ ground arith)
]

pub parse_digits-format :
    (n : ℕ) (cs : List ℕ) → n ≤ max_int → parse_digits 0 (format_uint n ++ cs) ≡ parse_digits n cs
unfolding format_uint
parse_digits-format n cs h = parse_digits-format_fuel (suc n) n cs (omega arith) h

-- The text of a positive number begins with a digit that is not '0'.
format_fuel_lead :
    (f n : ℕ)
    → n < f
    → 0 < n
    → (c : ℕ) × (cs : List ℕ) × (format_fuel f n ≡ c ∷ cs) × (b'1' ≤ c) × (c ≤ b'9')
unfolding format_fuel
format_fuel_lead zero n h pos = absurd (omega arith)
format_fuel_lead (suc f) n h pos = elim (Bool-cases (ltb n 10)) [
  | inl small ↦ (b'0' + n, [], rw small, omega arith, ground arith)
  | inr big ↦
      let (c, cs, e, lo, hi) = format_fuel_lead f (n / 10) (ground arith) (ground arith) in
      (c, cs ++ ((b'0' + n % 10) ∷ []), rw (big, e), lo, hi)
]

format_uint-ne-nil :
    (n : ℕ) → (c : ℕ) × (cs : List ℕ) × (format_uint n ≡ c ∷ cs) × (bad_lead c cs ≡ false)
unfolding format_uint bad_lead
format_uint-ne-nil zero = (b'0', [], unfold format_fuel in refl, refl)
format_uint-ne-nil (suc n) =
    let (c, cs, e, lo, hi) = format_fuel_lead (suc (suc n)) (suc n) (omega arith) (omega arith) in
    (c, cs, e, ground arith)

parse_int-format_uint : (n : ℕ) → n ≤ max_int → parse_int (format_uint n) ≡ some n
unfolding parse_int
parse_int-format_uint n h =
    let (c, cs, e, good) = format_uint-ne-nil n in
    let run = parse_digits-format n [] h in rw (e, good) (rw (append-nil, e) at run)

-- A field with a good leading byte is a lone '0', or starts with the digit of a positive number.
parse_digits_from_lead :
    (c : ℕ) (cs : List ℕ) (n : ℕ)
    → bad_lead c cs ≡ false
    → parse_digits 0 (c ∷ cs) ≡ some n
    → (c ∷ cs ≡ format_uint n) × (n ≤ max_int)
parse_digits_from_lead c cs n good h = elim (Bool-cases (ltb c b'1' || ltb b'9' c)) [
  | inl low ↦ lone_zero c cs n low good h
  | inr high ↦
      let d = c - b'0' in
      let digit : (c ≡ b'0' + d) × (0 < d) × (d < 10) = ground arith in
      let more : parse_digits d cs ≡ some n = unfold parse_digits in ground arith in
      let (text, bound) = parse_digits_sound d cs n digit.1 (omega arith) more in
      (
        ap (λ t. t ∷ cs) digit.0 ∙ sym (text ∙ ap (λ t. t ++ cs) (format_uint_small d digit.2)),
        bound,
      )
]
  where
    lone_zero :
        (c : ℕ) (cs : List ℕ) (n : ℕ)
        → (ltb c b'1' || ltb b'9' c) ≡ true
        → bad_lead c cs ≡ false
        → parse_digits 0 (c ∷ cs) ≡ some n
        → (c ∷ cs ≡ format_uint n) × (n ≤ max_int)
    lone_zero c [] n low good h =
        unfold bad_lead parse_digits in ground (arith, format_uint_small 0 (omega arith))
    lone_zero c (x ∷ xs) n low good h = absurd (unfold bad_lead in ground arith)

parse_int_sound : (b : List ℕ) (n : ℕ) → parse_int b ≡ some n → (b ≡ format_uint n) × (n ≤ max_int)
unfolding parse_int
parse_int_sound [] n h = cc
parse_int_sound (c ∷ cs) n h = elim (Bool-cases (bad_lead c cs)) [
  | inl bad ↦ cc (rw bad at h)
  | inr good ↦ parse_digits_from_lead c cs n good (rw good at h)
]

-- `parseInt` accepts a field exactly when it is the canonical decimal text of a number that fits
-- a 64-bit int, and returns that number: no sign, no leading zero, no stray byte, no overflow.
pub parse_int_canonical :
    (b : List ℕ) (n : ℕ) → (parse_int b ≡ some n) ↔ (b ≡ format_uint n) × (n ≤ max_int)
parse_int_canonical b n = (parse_int_sound b n, λ (e, h). rw e (parse_int-format_uint n h))

format_fuel_shape :
    (f n k : ℕ)
    → n < f
    → n < 10 ^ suc k
    → All (λ c. (b'0' ≤ c) × (c ≤ b'9')) (format_fuel f n) × (length (format_fuel f n) ≤ suc k)
unfolding format_fuel
format_fuel_shape zero n k h bound = absurd (omega arith)
format_fuel_shape (suc f) n zero h bound = ground arith
format_fuel_shape (suc f) n (suc k) h bound = elim (Bool-cases (ltb n 10)) [
  | inl small ↦ rw small (ground arith)
  | inr big ↦
      let (digits, short) =
        format_fuel_shape f (n / 10) k (ground arith) (ground (arith, pow-suc 10 (suc k))) in
      rw (big, length-append)
        (All-append _ (format_fuel f (n / 10)) _ digits (ground arith), omega arith)
]

-- The text of an int is at most 19 bytes, all of them digits.
pub format_uint_shape :
    (n : ℕ)
    → n ≤ max_int
    → All (λ c. (b'0' ≤ c) × (c ≤ b'9')) (format_uint n) × (length (format_uint n) ≤ 19)
unfolding format_uint
format_uint_shape n h = format_fuel_shape (suc n) n 18 (omega arith) (omega arith)
