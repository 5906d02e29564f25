-- ===== src/TinyLfu/Policy/Start.antt =====
-- What `New`, `newSketch` and `newDoorkeeper` build.
use cachemoney.Base.{
  ℕ, zero, suc, ◌+◌, ◌*◌, ◌/◌, ◌%◌, ◌^◌, ◌≤◌, ◌<◌, ◌≡◌, refl, sym, ◌∙◌, ap, arith, ltb,
  if◌then◌else◌, Bool-cases, inl, inr, length, length-replicate, get_or-replicate, get_or,
  replicate, List, [], All,
}
use cachemoney.Base.Int.{ℤ, pos, pos_part, ltb_ℤ}
use cachemoney.TinyLfu.Words.{next_pow2, next_pow2_bounds, u64}
use cachemoney.TinyLfu.Sketch.{new_sketch, min_width, depth, width}
use cachemoney.TinyLfu.Sketch.Cells
use cachemoney.TinyLfu.Doorkeeper.{new_doorkeeper, bits_per_entry}
use cachemoney.TinyLfu.Doorkeeper.Sightings
use cachemoney.TinyLfu.Buffer.{IsBounded, new_access_buffer}
use cachemoney.TinyLfu.Policy.{Config, new, default_ring_depth}
use cachemoney.TinyLfu.Policy.Aging.{IsValid}
use native.Mathlib.Nat.{pow-suc}

pow-positive : (k : ℕ) → 0 < 2 ^ k
pow-positive zero = omega arith
pow-positive (suc k) = omega (arith, pow-suc 2 k, pow-positive k)

shuffle : (q x : ℕ) → q * x * 2 ≡ q * (x * 2)
shuffle q x = grind arith

pow_multiple : (m k : ℕ) → 2 ^ m ≤ 2 ^ k → (q : ℕ) × (2 ^ k ≡ q * 2 ^ m)
pow_multiple zero k h = (2 ^ k, omega arith)
pow_multiple (suc m) zero h = absurd (omega (arith, pow-suc 2 m, pow-positive m))
pow_multiple (suc m) (suc k) h =
    let a = pow-suc 2 m in
    let b = pow-suc 2 k in
    let (q, e) = pow_multiple m k (omega arith) in
    (q, b ∙ ap (λ x. x * 2) e ∙ shuffle q (2 ^ m) ∙ ap (λ x. q * x) (sym a))

next_pow2-multiple :
    (m n : ℕ) → 1 < n → n ≤ 2 ^ 63 → 2 ^ m ≤ next_pow2 n → (q : ℕ) × (next_pow2 n ≡ q * 2 ^ m)
next_pow2-multiple m n h k low =
    let (_, _, e, is) = next_pow2_bounds n h k in
    let (q, multiple) = pow_multiple m e (omega (arith, is, low)) in (q, is ∙ multiple)

zeros : ℕ → List ℕ
zeros words = replicate words 0

get_or-replicate_in : (n i : ℕ) (row d : List ℕ) → i < n → get_or (replicate n row) i d ≡ row
get_or-replicate_in zero i row d h = absurd (omega arith)
get_or-replicate_in (suc n) zero row d h = refl
get_or-replicate_in (suc n) (suc i) row d h = get_or-replicate_in n i row d (omega arith)

no_count : (n words i j : ℕ) → get_or (get_or (replicate n (zeros words)) i []) j 0 ≡ 0
unfolding zeros
no_count zero words i j = refl
no_count (suc n) words zero j = get_or-replicate words j 0
no_count (suc n) words (suc i) j = no_count n words i j

new_sketch-IsValid :
    (counters : ℤ) (seed : ℕ)
    → pos_part counters ≤ 2 ^ 63
    → Cells.IsValid (new_sketch counters seed)
unfolding new_sketch zeros
new_sketch-IsValid counters seed h =
    let n = if ltb_ℤ counters (pos min_width) then min_width else pos_part counters in
    let low : min_width ≤ n = ground arith in
    let high : n ≤ 2 ^ 63 = ground arith in
    let (above, _, _, _) = next_pow2_bounds n (omega arith) high in
    let (q, multiple) = next_pow2-multiple 4 n (omega arith) high (omega arith) in
    let words = next_pow2 n / 16 in
    record {
      words = words;
      rows = refl;
      row = λ i h.
          ap length (get_or-replicate_in depth i (zeros words) [] h)
          ∙ length-replicate {A = ℕ} words 0;
      word = λ i j. omega (arith, no_count depth words i j);
      width = omega arith;
    }

above_one : (n : ℕ) → 64 ≤ next_pow2 n → 1 < n
unfolding next_pow2
above_one n h = ground arith

new_doorkeeper-IsValid :
    (entries : ℤ) (seed : ℕ)
    → bits_per_entry * pos_part entries ≤ 2 ^ 63
    → Sightings.IsValid (new_doorkeeper entries seed)
unfolding new_doorkeeper
new_doorkeeper-IsValid entries seed h =
    let n = bits_per_entry * pos_part entries % u64 in
    elim (Bool-cases (ltb (next_pow2 n) 64)) [
      | inl few ↦ rw few (omega arith)
      | inr many ↦
          let big : 64 ≤ next_pow2 n = ground arith in
          let two : 1 < n = above_one n big in
          let (q, multiple) = next_pow2-multiple 6 n two (omega arith) big in
          rw (many, length-replicate {A = ℕ} (next_pow2 n / 64) 0) (omega arith)
    ]

new_sketch-width :
    (counters : ℤ) (seed : ℕ) → pos_part counters ≤ 2 ^ 63 → 0 < (new_sketch counters seed).wd
unfolding new_sketch
new_sketch-width counters seed h =
    let n = if ltb_ℤ counters (pos min_width) then min_width else pos_part counters in
    let low : min_width ≤ n = ground arith in
    let high : n ≤ 2 ^ 63 = ground arith in
    let (above, _, _, _) = next_pow2_bounds n (omega arith) high in omega arith

empty_bounded : (n d : ℕ) → All (λ (buf : List ℕ). length buf ≤ d) (replicate n [])
empty_bounded zero d = tt
empty_bounded (suc n) d = (omega arith, empty_bounded n d)

next_pow2-positive : (n : ℕ) → n ≤ 2 ^ 63 → 0 < next_pow2 n
next_pow2-positive zero h = unfold next_pow2 in omega arith
next_pow2-positive (suc zero) h = unfold next_pow2 in omega arith
next_pow2-positive (suc (suc n)) h =
    let (above, _, _, _) = next_pow2_bounds (suc (suc n)) (omega arith) h in omega arith

new_access_buffer-mask :
    (n : ℕ) (depth : ℤ)
    → n ≤ 2 ^ 63
    → (new_access_buffer n depth).mask + 1 ≡ length (new_access_buffer n depth).stripes
unfolding new_access_buffer
new_access_buffer-mask n depth h =
    let some_stripe = next_pow2-positive n h in
    let len = length-replicate {A = List ℕ} (next_pow2 n) [] in omega (arith, len, some_stripe)

-- A new policy is well formed, for every configuration up to 2^60 counters and 2^62 stripes on a
-- machine of at most 2^62 threads: its stripes are within their depth, and its mask is one less than
-- their number.
pub new-IsValid :
    (max_procs : ℕ) (cfg : Config)
    → pos_part cfg.counters ≤ 2 ^ 60
    → max_procs ≤ 2 ^ 62
    → pos_part cfg.stripes ≤ 2 ^ 62
    → IsValid (width (new max_procs cfg).sk) (new max_procs cfg)
      × IsBounded (new max_procs cfg).buf
      × ((new max_procs cfg).buf.mask + 1 ≡ length (new max_procs cfg).buf.stripes)
unfolding new width new_sketch new_access_buffer
new-IsValid max_procs cfg h procs some_stripes = (
  record {
    sketch = new_sketch-IsValid cfg.counters cfg.seed (omega arith);
    doorkeeper = new_doorkeeper-IsValid cfg.counters cfg.seed (omega arith);
    window = refl;
    fresh = new_sketch-width cfg.counters cfg.seed (omega arith);
  },
  empty_bounded _ _,
  new_access_buffer-mask (if ltb_ℤ (pos 0) cfg.stripes then pos_part cfg.stripes else max_procs)
      (if ltb_ℤ (pos 0) cfg.ring_depth then cfg.ring_depth else pos default_ring_depth)
      (ground arith),
)
