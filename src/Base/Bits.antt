-- ===== src/Base/Bits.antt =====
-- Masks at variables: a mask of low ones is a remainder, and a mask acts digit by digit.
use Prim.Native.Nat.{bit_and, bit_or, digits, bitwise, bit_and-bitwise, bit_or-bitwise}
use native.Mathlib.Nat.{pow-suc, div-add-mod, mul-add-mod_self_left, mod-eq_of_lt}
use cachemoney.Base.{
  ℕ, zero, suc, ◌+◌, ◌*◌, ◌/◌, ◌%◌, ◌^◌, ◌≤◌, ◌<◌, ◌-◌, min, max, ◌≡◌, ◌≢◌, refl, sym, ap, ◌∙◌,
  arith,
}

-- What `&` and `|` share: with a first number of no digits left the result is `z` of the other, and
-- that agrees with one more step of zeros.
module _ (z : ℕ → ℕ) (f : ℕ → ℕ → ℕ) (step : (y : ℕ) → z y ≡ z (y / 2) * 2 + f 0 (y % 2)) where
  at_end : (fuel y : ℕ) → digits z f fuel 0 y ≡ z y
  at_end zero y = refl
  at_end (suc fuel) y = refl

  more_fuel :
      (fuel other x y : ℕ) → x ≤ fuel → x ≤ other → digits z f fuel x y ≡ digits z f other x y
  more_fuel e zero zero y p q = at_end e y
  more_fuel e (suc g) zero y p q = at_end e y
  more_fuel zero g (suc x) y p q = absurd (omega arith)
  more_fuel (suc e) zero (suc x) y p q = absurd (omega arith)
  more_fuel (suc e) (suc g) (suc x) y p q =
      ap (λ v. v * 2 + f (suc x % 2) (y % 2))
        (more_fuel e g (suc x / 2) (y / 2) (omega arith) (omega arith))

  bitwise-halves : (x y : ℕ) → bitwise z f x y ≡ bitwise z f (x / 2) (y / 2) * 2 + f (x % 2) (y % 2)
  bitwise-halves zero y = step y
  bitwise-halves (suc x) y =
      ap (λ v. v * 2 + f (suc x % 2) (y % 2))
        (more_fuel x (suc x / 2) (suc x / 2) (y / 2) (omega arith) (omega arith))

bit_and_step : (a b : ℕ) → bit_and a b ≡ bit_and (a / 2) (b / 2) * 2 + min (a % 2) (b % 2)
bit_and_step a b =
    bit_and-bitwise a b
    ∙ bitwise-halves (λ _. zero) min (λ y. omega arith) a b
    ∙ ap (λ v. v * 2 + min (a % 2) (b % 2)) (sym (bit_and-bitwise (a / 2) (b / 2)))

bit_or_step : (a b : ℕ) → bit_or a b ≡ bit_or (a / 2) (b / 2) * 2 + max (a % 2) (b % 2)
bit_or_step a b =
    bit_or-bitwise a b
    ∙ bitwise-halves (λ y. y) max (λ y. omega arith) a b
    ∙ ap (λ v. v * 2 + max (a % 2) (b % 2)) (sym (bit_or-bitwise (a / 2) (b / 2)))

no_mask : (bound x : ℕ) → x ≤ bound → bit_and x 0 ≡ 0
no_mask bound zero h = refl
no_mask zero (suc x) h = absurd (omega arith)
no_mask (suc bound) (suc x) h =
    let rest = no_mask bound (suc x / 2) (omega arith) in omega (arith, bit_and_step (suc x) 0)

bit_and-zero : (x : ℕ) → bit_and x 0 ≡ 0
bit_and-zero x = no_mask x x (omega arith)

-- A mask whose lowest bit is 0, and one whose lowest bit is 1.
pub bit_and_even : (a b : ℕ) → bit_and a (2 * b) ≡ bit_and (a / 2) b * 2
bit_and_even a b =
    let half : (2 * b) / 2 ≡ b = omega arith in
    omega (arith, bit_and_step a (2 * b), ap (bit_and (a / 2)) half)

pub bit_and_odd : (a b : ℕ) → bit_and a (2 * b + 1) ≡ bit_and (a / 2) b * 2 + a % 2
bit_and_odd a b =
    let half : (2 * b + 1) / 2 ≡ b = omega arith in
    omega (arith, bit_and_step a (2 * b + 1), ap (bit_and (a / 2)) half)

mask_bound : (n a m : ℕ) → m ≤ n → bit_and a m ≤ m
mask_bound n a zero h = omega (arith, bit_and-zero a)
mask_bound zero a (suc m) h = absurd (omega arith)
mask_bound (suc n) a (suc m) h =
    omega (arith, bit_and_step a (suc m), mask_bound n (a / 2) (suc m / 2) (omega arith))

-- A masked value is at most the mask.
pub bit_and-le : (a m : ℕ) → bit_and a m ≤ m
bit_and-le a m = mask_bound m a m (omega arith)

bit_and-pow_suc : (w k : ℕ) → bit_and w (2 ^ suc k) ≡ bit_and (w / 2) (2 ^ k) * 2
bit_and-pow_suc w k =
    let e : 2 ^ suc k ≡ 2 * 2 ^ k = omega (arith, pow-suc 2 k) in
    ap (bit_and w) e ∙ bit_and_even w (2 ^ k)

half_bit_or : (w m : ℕ) → bit_or w m / 2 ≡ bit_or (w / 2) (m / 2)
half_bit_or w m = omega (arith, bit_or_step w m)

-- A bit stays set under `|=`.
pub bit_or_keeps : (k w m : ℕ) → bit_and w (2 ^ k) ≢ 0 → bit_and (bit_or w m) (2 ^ k) ≢ 0
bit_or_keeps zero w m h e = h (
    omega (
      arith,
      bit_and_odd w 0,
      bit_and_odd (bit_or w m) 0,
      bit_and-zero (w / 2),
      bit_and-zero (bit_or w m / 2),
      bit_or_step w m,
    ))
bit_or_keeps (suc k) w m h e =
    bit_or_keeps k (w / 2) (m / 2) (λ z. h (omega (arith, bit_and-pow_suc w k)))
      (omega (arith, bit_and-pow_suc (bit_or w m) k, ap (λ x. bit_and x (2 ^ k)) (half_bit_or w m)))

-- The bit that `|=` sets is set.
pub bit_or_sets : (k w : ℕ) → bit_and (bit_or w (2 ^ k)) (2 ^ k) ≢ 0
bit_or_sets zero w e =
    absurd
      (omega (arith, bit_and_odd (bit_or w 1) 0, bit_and-zero (bit_or w 1 / 2), bit_or_step w 1))
bit_or_sets (suc k) w e =
    let half : 2 ^ suc k / 2 ≡ 2 ^ k = omega (arith, pow-suc 2 k) in
    bit_or_sets k (w / 2) (
      omega (
        arith,
        bit_and-pow_suc (bit_or w (2 ^ suc k)) k,
        ap (λ x. bit_and x (2 ^ k)) (half_bit_or w (2 ^ suc k)),
        ap (λ x. bit_and (bit_or (w / 2) x) (2 ^ k)) half,
      ))

double_mod : (a m : ℕ) → 0 < m → (a / 2) % m * 2 + a % 2 ≡ a % (m * 2)
double_mod a m h =
    let q : ℕ = a / 2 / m in
    let r : ℕ = (a / 2) % m in
    let parts : m * q + r ≡ a / 2 = div-add-mod (a / 2) m in
    let below : r < m = grind arith in
    let whole : a ≡ m * 2 * q + (r * 2 + a % 2) = grind arith in
    sym (
      ap (λ t. t % (m * 2)) whole
      ∙ mul-add-mod_self_left (m * 2) q (r * 2 + a % 2)
      ∙ mod-eq_of_lt (omega arith))

pub pow-positive : (k : ℕ) → 0 < 2 ^ k
pow-positive zero = omega arith
pow-positive (suc k) = omega (arith, pow-suc 2 k, pow-positive k)

-- `x & (2^k - 1)` at a variable `k`.
pub bit_and-low_ones : (k a : ℕ) → bit_and a (2 ^ k - 1) ≡ a % 2 ^ k
bit_and-low_ones zero a = omega (arith, bit_and-zero a)
bit_and-low_ones (suc k) a =
    let m : ℕ = 2 ^ k - 1 in
    let some_mask : 2 ^ suc k - 1 ≡ 2 * m + 1 = omega (arith, pow-suc 2 k, pow-positive k) in
    let rest = bit_and-low_ones k (a / 2) in
    ap (bit_and a) some_mask
    ∙ bit_and_odd a m
    ∙ ap (λ t. t * 2 + a % 2) rest
    ∙ double_mod a (2 ^ k) (pow-positive k)
    ∙ ap (λ t. a % t) (sym (pow-suc 2 k))

no_flags : (bound x : ℕ) → x ≤ bound → bit_or x 0 ≡ x
no_flags bound zero h = refl
no_flags zero (suc x) h = absurd (omega arith)
no_flags (suc bound) (suc x) h =
    let rest = no_flags bound (suc x / 2) (omega arith) in omega (arith, bit_or_step (suc x) 0)

-- `a << k | b` where `b` has at most `k` bits.
pub bit_or-disjoint : (k a b : ℕ) → b < 2 ^ k → bit_or (a * 2 ^ k) b ≡ a * 2 ^ k + b
bit_or-disjoint zero a b h =
    let none_left : b ≡ 0 = omega arith in
    rw none_left (no_flags (a * 1) (a * 1) (omega arith) ∙ omega arith)
bit_or-disjoint (suc k) a b h =
    let x : ℕ = a * 2 ^ k in
    let shifted : a * 2 ^ suc k ≡ x * 2 = ap (λ t. a * t) (pow-suc 2 k) ∙ grind arith in
    let rest : bit_or x (b / 2) ≡ x + b / 2 =
      bit_or-disjoint k a (b / 2) (omega (arith, pow-suc 2 k)) in
    let half : x * 2 / 2 ≡ x = omega arith in
    rw shifted (omega (arith, bit_or_step (x * 2) b, ap (λ t. bit_or t (b / 2)) half))
