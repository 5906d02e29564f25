-- ===== src/Shardmap/Table/Remove.antt =====
-- A key found is taken out: what `delete` leaves, its backward shift and the shrinking included.
use cachemoney.Base.{
  ℕ, zero, suc, ◌*◌, ◌/◌, ◌%◌, ◌^◌, ◌≤◌, ◌<◌, ◌≡◌, ◌≢◌, refl, sym, ap, ◌∙◌, false, some, List,
  arith, leb, ◌==◌, ==_iff, length, Bool-cases, inl, inr,
}
use mathlib.Core.Path.{subst}
use mathlib.Core.Option.{some-injective}
use cachemoney.Shardmap.Table.{
  Keys, Slot, Table, rounds, resize, set_item, shift_loop, shrink, min_cap,
}
use cachemoney.Shardmap.Table.Mass.{at, mass, weigh}
use cachemoney.Shardmap.Table.Sound.{IsSound, one_slot}
use cachemoney.Shardmap.Table.Ends.{free_ahead}
use cachemoney.Shardmap.Table.Shift.{Yields, Vacated}
use cachemoney.Shardmap.Table.Shift.Loop.{shift_loop-Vacated}
use cachemoney.Shardmap.Table.Valid.{IsValid, Decides-Describes}
use cachemoney.Shardmap.Table.Effect.{Dropped, Alike}
use native.Mathlib.Nat.{pow-suc}
use cachemoney.Shardmap.Table.{shrink_num, shrink_den}
use cachemoney.Shardmap.Table.Grow.{set_item-Setter, resize-Resizes, ones, at_least_8}

module _ {K V : Type 0} (keys : Keys K V) (hf : K → ℕ) where
  -- The table gives up the slot at `x`.
  pub vacate :
      {t : Table K V} (v : IsValid keys hf t) (x : ℕ)
      → (at keys t.slots x).meta ≢ 0
      → (b : List (Slot K V)) × (shift_loop keys
            (rounds keys t)
            t.capm1
            t.slots
            (x % length t.slots)
          ≡ some b)
        × Vacated keys hf t.slots x b
  vacate {t} v x taken =
      let big = at_least_8 keys hf v.power v.least in
      let size = v.size in
      let limit = v.limit in
      let fits = v.fits in
      let counted = v.counted in
      let (g, less, free) = free_ahead keys t.slots x (omega arith) in
      let y : Yields keys hf t.slots x = record {
        room = omega arith;
        housed = v.sound.housed;
        chain = v.sound.chain;
        unique = λ q. let most = v.sound.unique q in omega (arith, most);
      } in
      let (b, e, done) =
        shift_loop-Vacated keys hf v.power (rounds keys t) t.slots x g y v.size taken free
          (omega arith) in
      (b, ap (λ m. shift_loop keys (rounds keys t) m t.slots (x % length t.slots)) v.mask ∙ e, done)

  pub Vacated-Dropped :
      {a b : List (Slot K V)} (v : IsSound keys hf a) (q : K) (x : ℕ)
      → (at keys a x).meta ≢ 0
      → (at keys a x).key ≡ q
      → Vacated keys hf a x b
      → Dropped keys hf a q (at keys a x).val b
  Vacated-Dropped {a} v q x taken same h = record {
    before = Decides-Describes keys hf v q x taken same;
    sum = λ w.
        let x₁ = h.sum w in
        let x₂ : weigh keys w (at keys a x) ≡ w (at keys a x).key (at keys a x).val =
          ground arith in
        let x₃ = ap (λ k. w k (at keys a x).val) same in omega (arith, x₁, x₂, x₃);
    every = λ P all. h.every P (λ y apart there.
        all y there (λ e. apart (one_slot keys hf v x y taken there (e ∙ sym same))));
  }

  pub Dropped-Alike :
      {a b z : List (Slot K V)} (q : K) (old : V)
      → Dropped keys hf a q old b
      → Alike keys hf b z
      → Dropped keys hf a q old z
  Dropped-Alike q old h g = record {
    before = h.before;
    sum = λ w. let x₁ = h.sum w in let x₂ = g.sum w in omega (arith, x₁, x₂);
    every = λ P all. g.every P (h.every P all);
  }

  pub leb-gt : (m n : ℕ) → leb m n ≡ false → n < m
  leb-gt m n h = ground arith

  pub halved_power : (p : ℕ) → 3 ≤ p → 8 < 2 ^ p → (k : ℕ) × (3 ≤ k) × (2 ^ p ≡ 2 * 2 ^ k)
  halved_power zero h g = absurd (omega arith)
  halved_power (suc k) h g = elim (Bool-cases (k == 2)) [
    | inl two ↦ let e = (==_iff k 2).0 two in let g' = rw e at g in absurd (omega arith)
    | inr more ↦ (k, ground arith, omega (arith, pow-suc 2 k))
  ]

  -- Shrinking keeps what is stored.
  pub shrink-Alike :
      (f : ℕ) (t t' : Table K V)
      → IsValid keys hf t
      → shrink keys f t ≡ some t'
      → IsValid keys hf t' × Alike keys hf t.slots t'.slots
  unfolding shrink
  shrink-Alike f t t' v e = elim (Bool-cases (leb (length t.slots) min_cap)) [
    | inl small ↦ kept (some-injective _ _ (rw small at e))
    | inr large ↦ elim (Bool-cases (leb (length t.slots * shrink_num / shrink_den) t.count)) [
      | inl full ↦ kept (some-injective _ _ (rw (large, full) at e))
      | inr sparse ↦
          let size = v.size in
          let counted = v.counted in
          let (k, e₁, e₂) = halved_power v.power v.least (omega (arith, leb-gt _ _ large, size)) in
          let halved : length t.slots / 2 ≡ 2 ^ k = omega (arith, size, e₂) in
          let fits : mass keys (ones keys hf) t.slots ≤ 2 ^ k * 3 / 4 =
            omega (arith, leb-gt _ _ sparse, size, counted, e₂) in
          let done =
            resize-Resizes keys hf (set_item keys f) (set_item-Setter keys hf f) t t' k v.sound e₁
              fits (ap (resize keys (set_item keys f) t) (sym halved) ∙ rw (large, sparse) at e) in
          (done.valid, done.alike)
    ]
  ]
    where
      kept : t ≡ t' → IsValid keys hf t' × Alike keys hf t.slots t'.slots
      kept same =
          subst (λ z. IsValid keys hf z × Alike keys hf t.slots z.slots) same
            (v, record { sum = λ w. refl; every = λ P all. all })
