-- ===== src/Shardmap/Table/Answers.antt =====
-- A table with room answers: neither `set` nor `resize` runs out of fuel, the growths that overflows
-- force included.
use cachemoney.Base.{
  ℕ, suc, ◌+◌, ◌*◌, ◌/◌, ◌^◌, ◌≤◌, ◌≡◌, refl, ap, ◌∙◌, false, Option, some, List, arith, leb,
  length, Bool-cases, inl, inr,
}
use mathlib.Core.Path.{subst}
use cachemoney.Shardmap.Table.{
  Keys, Slot, Item, Table, Placed, added, replaced, overflowed, resize, finish, set_item, shrink,
  min_cap,
}
use cachemoney.Shardmap.Table.Mass.{mass}
use cachemoney.Shardmap.Table.Valid.{IsValid}
use cachemoney.Shardmap.Table.{shrink_num, shrink_den}
use cachemoney.Shardmap.Table.Grow.{at_least_8}
use cachemoney.Shardmap.Table.Remove.{halved_power, leb-gt}
use native.Mathlib.Nat.{pow-suc, mul-le-mul_right, pow-le-pow_right}
use cachemoney.Base.{true, ◌≤◌, ◌<◌, zero, ◌*◌, leb, ◌/◌, ap, ◌∙◌}
use cachemoney.Base.Results.{bind}
use cachemoney.Shardmap.Table.Window.{near, crowding, Sparse, Spread, Sparse-power}
use cachemoney.Shardmap.Table.Grow.{place-Outcome, set_item-Setter, resize-Resizes}
use cachemoney.Shardmap.Table.Place.{Outcome, Spilled}
use cachemoney.Shardmap.Table.Refill.{Setter}
use cachemoney.Shardmap.Table.Regrow.{
  place_ends, place-Fits, finish_answers, Reaches, Answering, no_fewer, resize_answers,
}

module _ {K V : Type 0} (keys : Keys K V) (hf : K → ℕ) where
  -- A probe that ends by growing the table, where the doubled table answers.
  Spilled-answers :
      (put : Table K V → Item K V → Option (Table K V)) (q f : ℕ)
      → Setter keys hf put
      → Answering keys hf put q f
      → (t : Table K V) (c : Item K V) (b : List (Slot K V)) (e : Item K V) → IsValid keys hf t
      → t.count < t.grow_at
      → c.hash ≡ hf c.key
      → Sparse keys hf q t.slots c.hash
      → Reaches keys hf q (suc f) t
      → Spilled keys hf t.slots c b e
      → (t' : Table K V) × (finish keys put t (overflowed b e) ≡ some t')
  unfolding finish Sparse Spread Setter Answering
  Spilled-answers put q f law able t c b e v room hashed sparse reach h =
      let t₁ : Table K V = record t { slots = b } in
      let double = pow-suc 2 v.power in
      let size = v.size in
      let limit = v.limit in
      let counted = v.counted in
      let k = v.least in
      let more : length t.slots * 2 ≡ 2 ^ suc v.power = omega (arith, double, size) in
      let ones_moved = h.sum (λ k v. 1) in
      let moved = λ (x : ℕ). h.sum (crowding keys hf (2 ^ q) x) in
      let same = λ (x : ℕ). ap (near (2 ^ q) x) hashed in
      let fit : mass keys (λ k v. 1) b ≤ 2 ^ suc v.power * 3 / 4 =
        omega (arith, more, limit, counted, ones_moved, room) in
      let reach' : 2 ^ q ≤ 2 ^ suc v.power * 2 ^ f = onward (length t.slots) f more reach in
      let (t₂, e₁) =
        resize_answers keys hf put q f law able t₁ (suc v.power) h.sound (omega (arith, k)) fit
          (λ x. let all = sparse x in let m = moved x in let s = same x in omega (arith, all, m, s))
          reach' in
      let size₂ =
        resize-Resizes keys hf put law t₁ t₂ (suc v.power) h.sound (omega (arith, k)) fit e₁ in
      let x₅ = size₂.alike.sum (λ k v. 1) in
      let x₆ = size₂.no_smaller in
      let x₇ = size₂.valid.counted in
      let longer =
        no_fewer keys hf {t' = t₂} (2 ^ suc v.power) size₂.valid (suc v.power) (omega (arith, k))
          refl x₆ in
      let wide = mul-le-mul_right (2 ^ f) longer in
      let (t', e₂) =
        able t₂ e size₂.valid (omega (arith, x₅, x₆, x₇, ones_moved, counted, limit, room, more))
          h.hashed
          (λ x.
            let all = sparse x in
            let m = moved x in
            let s = same x in
            let here = ap (near (2 ^ q) x) h.hashed in
            let alike = size₂.alike.sum (crowding keys hf (2 ^ q) x) in
            omega (arith, all, m, s, here, alike))
          (omega (arith, wide, reach')) in
      (
        t',
        ap (λ n. bind (resize keys put t₁ n) (λ t'. put t' e)) more
            ∙ ap (λ o. bind o (λ t'. put t' e)) e₁
            ∙ e₂,
      )
    where
      onward : (n f : ℕ) {m q : ℕ} → n * 2 ≡ m → q ≤ n * 2 ^ suc f → q ≤ m * 2 ^ f
      onward n f e h =
          let double = pow-suc 2 f in
          let x₁ = ap (λ k. n * k) double in
          let x₂ = ap (λ k. k * 2 ^ f) e in let x₃ = turn n (2 ^ f) in omega (arith, x₁, x₂, x₃, h)
        where
          turn : (x y : ℕ) → x * (y * 2) ≡ x * 2 * y
          turn x y = grind arith

  leb-le : (a b : ℕ) → leb a b ≡ true → a ≤ b
  leb-le a b h = ground arith

  -- At its own capacity the table is sparse enough: nothing grows.
  wide_answers :
      (f q : ℕ) {t : Table K V} (v : IsValid keys hf t) (c : Item K V)
      → c.hash ≡ hf c.key
      → Sparse keys hf q t.slots c.hash
      → q ≤ v.power
      → (t' : Table K V) × (set_item keys (suc f) t c ≡ some t')
  unfolding set_item
  wide_answers f q {t} v c hashed sparse wide =
      let (r, e, fits) =
        place-Fits keys hf v c hashed (Sparse-power keys hf q v.power t.slots c.hash wide sparse) in
      let (t', done) = finish_answers keys hf (set_item keys f) t r fits in
      (t', ap (λ o. bind o (finish keys (set_item keys f) t)) e ∙ done)

  ended_answers :
      (put : Table K V → Item K V → Option (Table K V)) (q f : ℕ)
      → Setter keys hf put
      → Answering keys hf put q f
      → (t : Table K V) (c : Item K V) (r : Placed K V) → IsValid keys hf t
      → t.count < t.grow_at
      → c.hash ≡ hf c.key
      → Sparse keys hf q t.slots c.hash
      → Reaches keys hf q (suc f) t
      → Outcome keys hf t.slots c false (some r)
      → (t' : Table K V) × (finish keys put t r ≡ some t')
  unfolding finish Outcome
  ended_answers put q f law able t c (added b) v room hashed sparse reach h =
      (record t { slots = b; count = t.count + 1 }, refl)
  ended_answers put q f law able t c (replaced b) v room hashed sparse reach h =
      (record t { slots = b }, refl)
  ended_answers put q f law able t c (overflowed b e) v room hashed sparse reach h =
      Spilled-answers put q f law able t c b e v room hashed sparse reach h

  -- `set` answers where its fuel lets the table grow to a capacity at which its entries and the item
  -- are sparse: each overflow of the metadata doubles the table, and at that capacity none comes.
  pub set_item-Answering : (f q : ℕ) → Answering keys hf (set_item keys (suc f)) q f
  unfolding set_item Answering
  set_item-Answering zero q t c v room hashed sparse reach = elim (Bool-cases (leb q v.power)) [
    | inl wide ↦ wide_answers zero q v c hashed sparse (leb-le q v.power wide)
    | inr narrow ↦
        let more =
          pow-le-pow_right {n = 2} (omega arith) {i = suc v.power} {j = q}
            (leb-gt keys hf q v.power narrow) in
        let double = pow-suc 2 v.power in
        let size = v.size in
        let positive = at_least_8 keys hf v.power v.least in
        absurd (omega (arith, more, double, size, positive, reach))
  ]
  set_item-Answering (suc f) q t c v room hashed sparse reach = elim (Bool-cases (leb q v.power)) [
    | inl wide ↦ wide_answers (suc f) q v c hashed sparse (leb-le q v.power wide)
    | inr narrow ↦
        let (r, e) = place_ends keys hf v c hashed in
        let (t', done) =
          ended_answers (set_item keys (suc f)) q f (set_item-Setter keys hf (suc f))
            (set_item-Answering f q) t c r v room hashed sparse reach
            (subst (Outcome keys hf t.slots c false) e (place-Outcome keys hf v c hashed)) in
        (t', ap (λ o. bind o (finish keys (set_item keys (suc f)) t)) e ∙ done)
  ]

  -- `shrink` answers where the entries are sparse at a capacity that half the table can grow to.
  pub shrink_answers :
      (f q : ℕ) {t : Table K V} (v : IsValid keys hf t)
      → Spread keys hf q t.slots
      → Reaches keys hf q f t
      → (t' : Table K V) × (shrink keys (suc (suc f)) t ≡ some t')
  unfolding shrink
  shrink_answers f q {t} v spread reach = elim (Bool-cases (leb (length t.slots) min_cap)) [
    | inl small ↦ (t, rw small refl)
    | inr large ↦ elim (Bool-cases (leb (length t.slots * shrink_num / shrink_den) t.count)) [
      | inl full ↦ (t, rw (large, full) refl)
      | inr sparse ↦
          let size = v.size in
          let counted = v.counted in
          let (k, e₁, e₂) =
            halved_power keys hf v.power v.least (omega (arith, leb-gt keys hf _ _ large, size)) in
          let half : length t.slots / 2 ≡ 2 ^ k = omega (arith, size, e₂) in
          let (t', e) =
            resize_answers keys hf (set_item keys (suc (suc f))) q (suc f)
              (set_item-Setter keys hf (suc (suc f))) (set_item-Answering (suc f) q) t k v.sound e₁
              (omega (arith, leb-gt keys hf _ _ sparse, size, counted, e₂)) spread
              (reach_half (2 ^ k) f (length t.slots) (omega (arith, size, e₂)) reach) in
          (t', rw (large, sparse) (ap (resize keys (set_item keys (suc (suc f))) t) half ∙ e))
    ]
  ]
    where
      reach_half : (n f m : ℕ) → m ≡ 2 * n → {q : ℕ} → q ≤ m * 2 ^ f → q ≤ n * 2 ^ suc f
      reach_half n f m e h =
          let x₁ = ap (λ k. n * k) (pow-suc 2 f) in
          let x₂ = ap (λ k. k * 2 ^ f) e in let x₃ = turn n (2 ^ f) in omega (arith, x₁, x₂, x₃, h)
        where
          turn : (x y : ℕ) → 2 * x * y ≡ x * (y * 2)
          turn x y = grind arith
