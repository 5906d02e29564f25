-- ===== src/Shardmap/Table/Cyclic.antt =====
-- Slots read around the end of the table: `slot_at slots x` is the slot at `x` modulo the capacity.
use Prim.Native.Nat.{bit_and}
use cachemoney.Base.{
  ◌≤◌, ltb, ltb→lt, ℕ, suc, ◌+◌, ◌-◌, ◌%◌, ◌^◌, ◌<◌, ◌≡◌, ◌≢◌, sym, ap, ◌∙◌, List, arith, ◌==◌,
  ==_iff, length, get_or, set, length-set, get_or-set_self, get_or-set_ne, Bool-cases, ◌⊎◌, inl,
  inr,
}
use cachemoney.Base.Bits.{bit_and-low_ones}
use native.Mathlib.Nat.{mod-add-mod, mod-eq_of_lt, add-mod_right, mod_self}

pub mod-lt_lem : (a n : ℕ) → 0 < n → a % n < n
mod-lt_lem a n h = grind arith

-- Two indices of one slot: so are the next ones, and the ones before.
pub next_slot : (a b n : ℕ) → a % n ≡ b % n → suc a % n ≡ suc b % n
next_slot a b n e =
    let x = mod-add-mod a n 1 in
    let y = mod-add-mod b n 1 in
    ap (λ t. t % n) (one a) ∙ sym x ∙ ap (λ t. (t + 1) % n) e ∙ y ∙ ap (λ t. t % n) (sym (one b))
  where
    one : (c : ℕ) → suc c ≡ c + 1
    one c = omega arith

pub shift_slot : (a b n k : ℕ) → a % n ≡ b % n → (a + k) % n ≡ (b + k) % n
shift_slot a b n k e = sym (mod-add-mod a n k) ∙ ap (λ t. (t + k) % n) e ∙ mod-add-mod b n k

pub previous_slot : (a b n : ℕ) → 0 < n → suc a % n ≡ suc b % n → a % n ≡ b % n
previous_slot a b n h e =
    let around = shift_slot (suc a) (suc b) n (n - 1) e in
    sym (add-mod_right a n)
    ∙ ap (λ t. t % n) (full a)
    ∙ around
    ∙ ap (λ t. t % n) (sym (full b))
    ∙ add-mod_right b n
  where
    full : (c : ℕ) → c + n ≡ suc c + (n - 1)
    full c = omega arith

-- `(i + 1) & capm1` where the capacity is a power of two.
pub masked_next : (cap' p x : ℕ) → cap' ≡ 2 ^ p → bit_and (x % cap' + 1) (cap' - 1) ≡ suc x % cap'
masked_next cap' p x e =
    rw e (bit_and-low_ones p (x % 2 ^ p + 1))
    ∙ mod-add-mod x cap' 1
    ∙ ap (λ t. t % cap') (omega arith)

pub two_slots : (n x : ℕ) → 2 ≤ n → suc x % n ≢ x % n
two_slots n x h e =
    let low = mod-lt_lem x n (omega arith) in
    let one : (x % n + 1) % n ≡ x % n = mod-add-mod x n 1 ∙ ap (λ t. t % n) (omega arith) ∙ e in
    elim (Bool-cases (ltb (x % n + 1) n)) [
      | inl inside ↦ let same = mod-eq_of_lt (ltb→lt _ _ inside) in omega (arith, same, one)
      | inr around ↦
          let full : x % n + 1 ≡ n = ground arith in
          let wrapped : (x % n + 1) % n ≡ 0 = ap (λ t. t % n) full ∙ mod_self n in
          omega (arith, wrapped, one, full)
    ]

module _ {A : Type 0} (d : A) where
  abbrev pub slot_at : List A → ℕ → A
  slot_at xs x = get_or xs (x % length xs) d

  pub slot_at-mod :
      (xs : List A) (x y : ℕ) → x % length xs ≡ y % length xs → slot_at xs x ≡ slot_at xs y
  slot_at-mod xs x y e = ap (λ i. get_or xs i d) e

  pub slot_at-lt : (xs : List A) (i : ℕ) → i < length xs → slot_at xs i ≡ get_or xs i d
  slot_at-lt xs i h = ap (λ t. get_or xs t d) (mod-eq_of_lt h)

  pub slot_at-set_self :
      (xs : List A) (x y : ℕ) (v : A)
      → 0 < length xs
      → y % length xs ≡ x % length xs
      → slot_at (set xs (x % length xs) v) y ≡ v
  slot_at-set_self xs x y v h e =
      ap (λ n. get_or (set xs (x % length xs) v) (y % n) d) (length-set xs (x % length xs) v)
      ∙ ap (λ t. get_or (set xs (x % length xs) v) t d) e
      ∙ get_or-set_self xs (x % length xs) v d (mod-lt_lem x (length xs) h)

  pub slot_at-set_ne :
      (xs : List A) (x y : ℕ) (v : A)
      → y % length xs ≢ x % length xs
      → slot_at (set xs (x % length xs) v) y ≡ slot_at xs y
  slot_at-set_ne xs x y v ne =
      ap (λ n. get_or (set xs (x % length xs) v) (y % n) d) (length-set xs (x % length xs) v)
      ∙ get_or-set_ne xs v d (λ e. ne (sym e))

  -- What is read after a write.
  pub slot_at-set-cases :
      (xs : List A) (x y : ℕ) (v : A)
      → 0 < length xs
      → ((y % length xs ≡ x % length xs) × (slot_at (set xs (x % length xs) v) y ≡ v))
        ⊎ ((y % length xs ≢ x % length xs) × (slot_at (set xs (x % length xs) v) y ≡ slot_at xs y))
  slot_at-set-cases xs x y v h = elim (Bool-cases (y % length xs == x % length xs)) [
    | inl same ↦
        let e = (==_iff (y % length xs) (x % length xs)).0 same in
        inl (e, slot_at-set_self xs x y v h e)
    | inr apart ↦
        let ne : y % length xs ≢ x % length xs = ground arith in
        inr (ne, slot_at-set_ne xs x y v ne)
  ]
