-- ===== src/Shardmap/Options.antt =====
-- internal/shardmap/options.go: the options of New, and the powers of two it computes. A seed is a
-- value of any type. The loops run on fuel; `none` is a loop that does not end.
use cachemoney.Base.{
  ℕ, zero, suc, ◌+◌, ◌*◌, ◌^◌, ◌≤◌, ◌<◌, ◌≡◌, refl, ap, ◌∙◌, true, false, Option, none, some, List,
  [], ◌∷◌, arith, ltb, if◌then◌else◌, Bool-cases, inl, inr,
}
use cachemoney.Base.Int.{ℤ, pos, ltb_ℤ, pos_part}
use native.Mathlib.Nat.{pow-suc, pow-le-pow_right}
use cachemoney.Base.Bits.{pow-positive}

-- `seed` and `seedSet`: the seed if it was set.
pub record Config (S : Type 0) : Type 0 where
  pub num_shards : ℤ
  pub seed : Option S
  pub initial_cap : ℤ

abbrev pub Setting : Type 0 → Type 0
Setting S = Config S → Config S

module _ {S : Type 0} where
  abbrev pub with_shards : ℤ → Setting S
  with_shards n c =
      if ltb_ℤ n (pos 1) then record c { num_shards = pos 1 } else record c { num_shards = n }

  abbrev pub with_seed : S → Setting S
  with_seed seed c = record c { seed = some seed }

  abbrev pub with_initial_capacity : ℤ → Setting S
  with_initial_capacity n c = if ltb_ℤ (pos 0) n then record c { initial_cap = n } else c

  -- `for _, opt := range opts { opt(&cfg) }`
  abbrev pub apply_all : List (Setting S) → Config S → Config S
  apply_all [] c = c
  apply_all (opt ∷ opts) c = apply_all opts (opt c)

-- Fuel 63: `p` is an int, and 2 ^ 62 is its last power of two.
unfoldable pub pow_loop : ℕ → ℕ → ℕ → Option ℕ
pow_loop zero n p = none
pow_loop (suc f) n p = let more = pow_loop f n (p * 2) in if ltb p n then more else some p

unfoldable pub next_pow2 : ℤ → Option ℕ
next_pow2 n = if ltb_ℤ (pos 1) n then pow_loop 63 (pos_part n) 1 else some 1

unfoldable pub log2_loop : ℕ → ℕ → ℕ → Option ℕ
log2_loop zero n k = none
log2_loop (suc f) n k = let more = log2_loop f n (suc k) in if ltb (2 ^ k) n then more else some k

unfoldable pub log2_power_of_2 : ℕ → Option ℕ
log2_power_of_2 n = log2_loop 63 n 0

pow_loop_lem :
    (f p n : ℕ)
    → n ≤ 2 ^ (p + f)
    → (q : ℕ) × (pow_loop (suc f) n (2 ^ p) ≡ some (2 ^ q))
      × (p ≤ q)
      × (q ≤ p + f)
      × (n ≤ 2 ^ q)
      × ((r : ℕ) → p ≤ r → n ≤ 2 ^ r → q ≤ r)
unfolding pow_loop
pow_loop_lem zero p n h =
    let e : p + 0 ≡ p = omega arith in
    let same = ap (λ k. 2 ^ k) e in
    let enough : ltb (2 ^ p) n ≡ false = ground (arith, same) in
    (p, rw enough refl, omega arith, omega arith, omega (arith, same), λ r le fit. le)
pow_loop_lem (suc f) p n h = elim (Bool-cases (ltb (2 ^ p) n)) [
  | inl short ↦
      let e : p + suc f ≡ suc p + f = omega arith in
      let same = ap (λ k. 2 ^ k) e in
      let double = pow-suc 2 p in
      let (q, found, low, high, fits, least) = pow_loop_lem f (suc p) n (omega (arith, same)) in
      (
        q,
        rw short (ap (pow_loop (suc f) n) (omega (arith, double)) ∙ found),
        omega arith,
        omega arith,
        fits,
        λ r le fit. elim (Bool-cases (ltb p r)) [
          | inl above ↦ least r (ground arith) fit
          | inr at_p ↦
              let here : r ≡ p = ground arith in
              let pow_same = ap (λ k. 2 ^ k) here in absurd (ground (arith, pow_same))
        ],
      )
  | inr enough ↦ (p, rw enough refl, omega arith, omega arith, ground arith, λ r le fit. le)
]

log2_loop_lem : (f k q : ℕ) → k ≤ q → q < k + f → log2_loop f (2 ^ q) k ≡ some q
unfolding log2_loop
log2_loop_lem zero k q h g = absurd (omega arith)
log2_loop_lem (suc f) k q h g = elim (Bool-cases (ltb (2 ^ k) (2 ^ q))) [
  | inl less ↦ rw less (log2_loop_lem f (suc k) q (below k q h less) (omega arith))
  | inr reached ↦
      let le : 2 ^ q ≤ 2 ^ k = ground arith in
      let same : k ≡ q = equal k q h le in rw (reached, same) refl
]
  where
    below : (k q : ℕ) → k ≤ q → ltb (2 ^ k) (2 ^ q) ≡ true → suc k ≤ q
    below k q h less = elim (Bool-cases (ltb k q)) [
      | inl before ↦ ground arith
      | inr same_or_past ↦
          let e : q ≡ k = ground arith in
          let same = ap (λ n. 2 ^ n) e in absurd (ground (arith, same))
    ]

    equal : (k q : ℕ) → k ≤ q → 2 ^ q ≤ 2 ^ k → k ≡ q
    equal k q h le = elim (Bool-cases (ltb k q)) [
      | inl before ↦
          let double = pow-suc 2 k in
          let more = pow-le-pow_right {n = 2} (omega arith) {i = suc k} {j = q} (ground arith) in
          let positive = pow-positive k in absurd (omega (arith, double, more, positive))
      | inr same_or_past ↦ ground arith
    ]

-- For a shard count up to 2 ^ 62, `nextPow2` returns the least power of two that is at least the
-- count and at least 1, and `log2PowerOf2` returns its exponent.
pub next_pow2_lem :
    (n : ℤ)
    → pos_part n ≤ 2 ^ 62
    → (q : ℕ) × (next_pow2 n ≡ some (2 ^ q))
      × (log2_power_of_2 (2 ^ q) ≡ some q)
      × (q ≤ 62)
      × (pos_part n ≤ 2 ^ q)
      × ((r : ℕ) → pos_part n ≤ 2 ^ r → q ≤ r)
unfolding next_pow2 log2_power_of_2
next_pow2_lem n h = elim (Bool-cases (ltb_ℤ (pos 1) n)) [
  | inl many ↦
      let (q, found, low, high, fits, least) = pow_loop_lem 62 0 (pos_part n) h in
      (
        q,
        rw many found,
        log2_loop_lem 63 0 q (omega arith) (omega arith),
        high,
        fits,
        λ r fit. least r (omega arith) fit,
      )
  | inr one ↦ (
    0,
    rw one refl,
    log2_loop_lem 63 0 0 (omega arith) (omega arith),
    omega arith,
    ground arith,
    λ r fit. omega arith,
  )
]
