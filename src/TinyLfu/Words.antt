-- ===== src/TinyLfu/Words.antt =====
-- The integer helpers of internal/tinylfu/doc.go, over 64-bit words.
use Prim.Native.Nat.{bit_xor}
use cachemoney.Base.{
  ℕ, zero, suc, ◌-◌, ◌*◌, ◌/◌, ◌%◌, ◌^◌, ◌≤◌, ◌<◌, ◌≡◌, arith, leb, ltb, if◌then◌else◌, refl, ap,
  Bool-cases, ltb→lt, inl, inr,
}
use native.Mathlib.Nat.{pow-suc}

abbrev pub u64 : ℕ
u64 = 2 ^ 64

-- bits.Len64: the number of bits of `n`, given fuel for them.
bit_len : ℕ → ℕ → ℕ
bit_len zero n = 0
bit_len (suc f) n = let more = bit_len f (n / 2) in if leb n 0 then 0 else suc more

-- `uint64(1) << bits.Len64(n-1)`; a shift by 64 gives 0.
unfoldable pub next_pow2 : ℕ → ℕ
unfolding bit_len
next_pow2 n = if leb n 1 then 1 else 2 ^ bit_len 64 (n - 1) % u64

unfoldable pub mix : ℕ → ℕ
mix x₀ =
    let x₁ = bit_xor x₀ (x₀ / 2 ^ 30) in
    let x₂ = x₁ * 0xbf58476d1ce4e5b9 % u64 in
    let x₃ = bit_xor x₂ (x₂ / 2 ^ 27) in
    let x₄ = x₃ * 0x94d049bb133111eb % u64 in bit_xor x₄ (x₄ / 2 ^ 31)

bit_len-zero : (f : ℕ) → bit_len f 0 ≡ 0
unfolding bit_len
bit_len-zero zero = refl
bit_len-zero (suc f) = refl

bit_len_bounds : (f n : ℕ) → n < 2 ^ f → (n < 2 ^ bit_len f n) × (0 < n → 2 ^ bit_len f n ≤ 2 * n)
unfolding bit_len
bit_len_bounds zero n h = (omega arith, λ p. absurd (omega arith))
bit_len_bounds (suc f) n h = elim (Bool-cases (leb n 0)) [
  | inl small ↦ rw small (ground arith, λ p. absurd (ground arith))
  | inr big ↦
      let half : n / 2 < 2 ^ f = omega (arith, pow-suc 2 f) in
      let (above, below) = bit_len_bounds f (n / 2) half in
      let double = pow-suc 2 (bit_len f (n / 2)) in
      rw big (omega (arith, double, above), λ p. doubled f n p double below)
]
  where
    doubled :
        (f n : ℕ)
        → 0 < n
        → 2 ^ suc (bit_len f (n / 2)) ≡ 2 ^ bit_len f (n / 2) * 2
        → (0 < n / 2 → 2 ^ bit_len f (n / 2) ≤ 2 * (n / 2))
        → 2 ^ suc (bit_len f (n / 2)) ≤ 2 * n
    doubled f n p double below = elim (Bool-cases (ltb 0 (n / 2))) [
      | inl more ↦ omega (arith, below (ltb→lt 0 (n / 2) more), double)
      | inr one ↦
          let z : n / 2 ≡ 0 = ground arith in
          omega (arith, double, ap (λ x. 2 ^ bit_len f x) z, ap (λ x. 2 ^ x) (bit_len-zero f))
    ]

next_pow2_lem : (n : ℕ) → 1 < n → next_pow2 n ≡ 2 ^ bit_len 64 (n - 1) % u64
unfolding next_pow2
next_pow2_lem n h = ground arith

-- From 2 up to 2^63 the result is a power of two that is at least `n` and less than twice `n`.
pub next_pow2_bounds :
    (n : ℕ)
    → 1 < n
    → n ≤ 2 ^ 63
    → (n ≤ next_pow2 n) × (next_pow2 n < 2 * n) × (k : ℕ) × (next_pow2 n ≡ 2 ^ k)
next_pow2_bounds n h k =
    let (above, below) = bit_len_bounds 64 (n - 1) (omega arith) in
    let low = below (omega arith) in
    let e : next_pow2 n ≡ 2 ^ bit_len 64 (n - 1) = omega (arith, next_pow2_lem n h) in
    (omega arith, omega arith, bit_len 64 (n - 1), e)
