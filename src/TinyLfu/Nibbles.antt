-- ===== src/TinyLfu/Nibbles.antt =====
-- Sixteen 4-bit counters in a word: `(word >> 4j) & 15`, raising one of them, and halving all.
use Prim.Native.Nat.{bit_and}
use cachemoney.Base.{
  ℕ, zero, suc, ◌+◌, ◌*◌, ◌/◌, ◌%◌, ◌^◌, ◌<◌, ◌≡◌, ◌≢◌, refl, sym, ap, ◌∙◌, arith,
}
use cachemoney.Base.Bits.{bit_and_even, bit_and_odd}
use native.Mathlib.Nat.{div-div-eq-div-mul}
use native.Mathlib.Numerals.{towards_suc}

-- The code's expression for counter `j` of a word.
abbrev pub nibble : ℕ → ℕ → ℕ
nibble w j = w / 2 ^ (j * 4) % 16

-- The same by recursion, and the weight of counter `j`.
digit : ℕ → ℕ → ℕ
digit w zero = w % 16
digit w (suc j) = digit (w / 16) j

weight : ℕ → ℕ
weight zero = 1
weight (suc j) = 16 * weight j

pow-weight : (j : ℕ) → 2 ^ (j * 4) ≡ weight j
unfolding weight
pow-weight zero = refl
pow-weight (suc j) = pow_step j ∙ ap (λ x. 16 * x) (pow-weight j)
  where
    pow_step : (j : ℕ) → 2 ^ (suc j * 4) ≡ 16 * 2 ^ (j * 4)
    pow_step j =
        let e : suc j * 4 ≡ j * 4 + 4 = omega arith in rw e (simp towards_suc (omega arith))

nibble-digit : (j w : ℕ) → nibble w j ≡ digit w j
unfolding digit weight
nibble-digit zero w = omega arith
nibble-digit (suc j) w =
    ap (λ x. w / x % 16) (pow-weight (suc j))
    ∙ ap (λ x. x % 16) (sym (div-div-eq-div-mul w 16 (weight j)))
    ∙ ap (λ x. w / 16 / x % 16) (sym (pow-weight j))
    ∙ nibble-digit j (w / 16)

digit-raise_self : (j w : ℕ) → digit w j < 15 → digit (w + weight j) j ≡ suc (digit w j)
unfolding digit weight
digit-raise_self zero w h = omega arith
digit-raise_self (suc j) w h =
    let e : (w + 16 * weight j) / 16 ≡ w / 16 + weight j = omega arith in
    rw e (digit-raise_self j (w / 16) h)

digit-raise_other : (j k w : ℕ) → j ≢ k → digit w j < 15 → digit (w + weight j) k ≡ digit w k
unfolding digit weight
digit-raise_other zero zero w ne h = absurd (ne refl)
digit-raise_other zero (suc k) w ne h = ap (λ x. digit x k) (omega arith)
digit-raise_other (suc j) zero w ne h = omega arith
digit-raise_other (suc j) (suc k) w ne h =
    let e : (w + 16 * weight j) / 16 ≡ w / 16 + weight j = omega arith in
    rw e (digit-raise_other j k (w / 16) (λ p. ne (ap suc p)) h)

raise_bound : (n j w : ℕ) → j < n → w < weight n → digit w j < 15 → w + weight j < weight n
unfolding digit weight
raise_bound zero j w h b d = absurd (omega arith)
raise_bound (suc n) zero w h b d = omega arith
raise_bound (suc n) (suc j) w h b d =
    omega (arith, raise_bound n j (w / 16) (omega arith) (omega arith) d)

-- Raising a counter below 15 adds one to it, carries into no other, and stays in the word.
pub nibble_raise :
    (w j : ℕ)
    → j < 16
    → w < 2 ^ 64
    → nibble w j < 15
    → (nibble (w + 2 ^ (j * 4)) j ≡ suc (nibble w j))
      × ((k : ℕ) → j ≢ k → nibble (w + 2 ^ (j * 4)) k ≡ nibble w k)
      × (w + 2 ^ (j * 4) < 2 ^ 64)
unfolding weight
nibble_raise w j h b d =
    let d' : digit w j < 15 = rw (nibble-digit j w) at d in
    (
      nibble-digit j _
          ∙ ap (λ x. digit (w + x) j) (pow-weight j)
          ∙ digit-raise_self j w d'
          ∙ ap suc (sym (nibble-digit j w)),
      λ k ne.
          nibble-digit k _
          ∙ ap (λ x. digit (w + x) k) (pow-weight j)
          ∙ digit-raise_other j k w ne d'
          ∙ sym (nibble-digit k w),
      rw (pow-weight j) (raise_bound 16 j w h b d'),
    )

-- `halfNibbles` over `n` counters.
sevens : ℕ → ℕ
sevens zero = 0
sevens (suc n) = 2 * (2 * (2 * (2 * sevens n) + 1) + 1) + 1

bit_and-sevens :
    (x m : ℕ) → bit_and x (2 * (2 * (2 * (2 * m) + 1) + 1) + 1) ≡ 16 * bit_and (x / 16) m + x % 8
bit_and-sevens x m =
    let e : x / 2 / 2 / 2 / 2 ≡ x / 16 = omega arith in
    omega (
      arith,
      bit_and_odd x (2 * (2 * (2 * m) + 1) + 1),
      bit_and_odd (x / 2) (2 * (2 * m) + 1),
      bit_and_odd (x / 2 / 2) (2 * m),
      bit_and_even (x / 2 / 2 / 2) m,
      ap (λ y. bit_and y m) e,
    )

digit-masked : (n j x : ℕ) → j < n → digit (bit_and x (sevens n)) j ≡ digit x j % 8
unfolding digit sevens
digit-masked zero j x h = absurd (omega arith)
digit-masked (suc n) zero x h = omega (arith, bit_and-sevens x (sevens n))
digit-masked (suc n) (suc j) x h =
    let e : bit_and x (sevens (suc n)) / 16 ≡ bit_and (x / 16) (sevens n) =
      omega (arith, bit_and-sevens x (sevens n)) in
    rw e (digit-masked n j (x / 16) (omega arith))

digit-half : (j w : ℕ) → digit (w / 2) j % 8 ≡ digit w j / 2
unfolding digit
digit-half zero w = omega arith
digit-half (suc j) w = let e : w / 2 / 16 ≡ w / 16 / 2 = omega arith in rw e (digit-half j (w / 16))

-- Shifting the word right by one under the mask halves each of the sixteen counters.
pub nibble_halve :
    (w j : ℕ) → j < 16 → nibble (bit_and (w / 2) 0x7777_7777_7777_7777) j ≡ nibble w j / 2
unfolding sevens
nibble_halve w j h =
    nibble-digit j _
    ∙ digit-masked 16 j (w / 2) h
    ∙ digit-half j w
    ∙ ap (λ x. x / 2) (sym (nibble-digit j w))
