-- ===== src/Shardmap/Sample/Drawn.antt =====
-- What Sample draws: stored entries with distinct keys, whatever the random source.
use Prim.Native.Nat.{bit_and}
use native.Mathlib.Nat.{mod-add-mod, mod-eq_of_lt, add-mod_right}
use cachemoney.Base.{
  ℕ, zero, suc, ◌+◌, ◌-◌, ◌%◌, ◌<◌, ◌≡◌, ◌≢◌, refl, sym, ap, ◌∙◌, Option, none, some, arith, leb,
  ◌==◌, ==_iff, length, Bool-cases, inl, inr,
}
use cachemoney.Base.Bits.{bit_and-low_ones}
use cachemoney.Shardmap.Table.{Keys, Table, vacant}
use cachemoney.Shardmap.Table.Cyclic.{mod-lt_lem, masked_next, slot_at-mod}
use cachemoney.Shardmap.Table.Mass.{at, search_mass}
use cachemoney.Shardmap.Table.Valid.{IsValid}
use cachemoney.Shardmap.Sample.{
  SampleEntry, scan_slots, sample_slot, sample_shard, sample_slot_tries,
}

module _ {K V : Type 0} (keys : Keys K V) (rand : ℕ → ℕ) (hf : K → ℕ) where
  -- An index is that of a taken slot.
  pub Taken : Table K V → ℕ → Type 0
  Taken t i = (y : ℕ) × (i ≡ y % length t.slots) × ((at keys t.slots y).meta ≢ 0)

  module _ {t : Table K V} (v : IsValid keys hf t) where
    masked : (r : ℕ) → bit_and r t.capm1 ≡ r % length t.slots
    masked r = ap (bit_and r) v.mask ∙ bit_and-low_ones v.power r ∙ ap (λ n. r % n) (sym v.size)

    next_index : (x : ℕ) → bit_and (x % length t.slots + 1) t.capm1 ≡ suc x % length t.slots
    next_index x =
        ap (bit_and (x % length t.slots + 1)) (v.mask ∙ ap (λ n. n - 1) (sym v.size))
        ∙ masked_next (length t.slots) v.power x v.size

    -- The scan comes to a taken slot that is `g` steps ahead.
    scan_finds :
        (f x g : ℕ)
        → (at keys t.slots (x + g)).meta ≢ 0
        → g < f
        → (i : ℕ) × (scan_slots keys rand f t (x % length t.slots) ≡ some i) × Taken t i
    unfolding scan_slots Taken
    scan_finds zero x g taken h = absurd (omega arith)
    scan_finds (suc f) x g taken h = elim (Bool-cases ((at keys t.slots x).meta == 0)) [
      | inr here ↦ (x % length t.slots, rw here refl, (x, refl, λ z. ground arith))
      | inl free ↦
          let z = (==_iff (at keys t.slots x).meta 0).0 free in
          let next = next_index x in
          let (less, there) = onward g taken h z in
          let (i, e, found) = scan_finds f (suc x) (g - 1) there less in
          (i, rw (free, next) e, found)
    ]
      where
        onward :
            (g : ℕ)
            → (at keys t.slots (x + g)).meta ≢ 0
            → g < suc f
            → (at keys t.slots x).meta ≡ 0
            → (g - 1 < f) × ((at keys t.slots (suc x + (g - 1))).meta ≢ 0)
        onward zero taken h z =
            let e : x + 0 ≡ x = omega arith in
            absurd (taken (ap (λ n. (at keys t.slots n).meta) e ∙ z))
        onward (suc g) taken h z =
            let e : x + suc g ≡ suc x + (suc g - 1) = omega arith in
            (omega arith, λ w. taken (ap (λ n. (at keys t.slots n).meta) e ∙ w))

    -- A slot is less than a whole round ahead of another.
    steps_ahead : (n s y : ℕ) → 0 < n → (g : ℕ) × (g < n) × ((s + g) % n ≡ y % n)
    steps_ahead n s y room =
        let low = mod-lt_lem s n room in
        let low' = mod-lt_lem y n room in
        elim (Bool-cases (leb (s % n) (y % n))) [
          | inl before ↦
              let up : s % n + (y % n - s % n) ≡ y % n = ground arith in
              (
                y % n - s % n,
                omega arith,
                sym (mod-add-mod s n (y % n - s % n)) ∙ ap (λ k. k % n) up ∙ mod-eq_of_lt low',
              )
          | inr after ↦
              let past : y % n < s % n = ground arith in
              let around : s % n + (n - s % n + y % n) ≡ y % n + n = omega arith in
              (
                n - s % n + y % n,
                omega arith,
                sym (mod-add-mod s n (n - s % n + y % n))
                    ∙ ap (λ k. k % n) around
                    ∙ add-mod_right (y % n) n
                    ∙ mod-eq_of_lt low',
              )
        ]

    -- A table that counts an entry gives a taken slot, whatever is drawn.
    sample_slot_finds :
        (tries j : ℕ)
        → t.count ≢ 0
        → (i : ℕ) × (j' : ℕ) × (sample_slot keys rand tries t j ≡ some (i, j')) × Taken t i
    unfolding sample_slot Taken
    sample_slot_finds zero j some_entry =
        let counted = v.counted in
        let (y, taken, _) =
          search_mass keys (λ k u. 1) t.slots (λ z. some_entry (omega (arith, counted, z))) in
        let (g, less, reached) = steps_ahead (length t.slots) (rand j) y v.sound.room in
        let same = slot_at-mod (vacant keys) t.slots (rand j + g) y reached in
        let (i, e, found) =
          scan_finds (length t.slots) (rand j) g (λ z. taken (ap (λ s. s.meta) (sym same) ∙ z))
            less in
        let start = masked (rand j) in (i, suc j, rw (start, e) refl, found)
    sample_slot_finds (suc tries) j some_entry =
        elim (Bool-cases ((at keys t.slots (rand j)).meta == 0)) [
          | inl free ↦
              let start = masked (rand j) in
              let (i, j', e, found) = sample_slot_finds tries (suc j) some_entry in
              (i, j', rw (start, free) e, found)
          | inr here ↦
              let start = masked (rand j) in
              (
                rand j % length t.slots,
                suc j,
                rw (start, here) refl,
                (rand j, refl, λ z. ground arith),
              )
        ]

    -- A shard gives nothing, or an entry that it shows.
    unfoldable pub Shows : Option (SampleEntry K V) → Type 0
    Shows none = Unit
    Shows (some e) =
        (y : ℕ) × ((at keys t.slots y).meta ≢ 0)
        × ((at keys t.slots y).key ≡ e.key)
        × ((at keys t.slots y).val ≡ e.val)

    pub sample_shard_finds :
        (j : ℕ)
        → (o : Option (SampleEntry K V)) × (j' : ℕ) × (sample_shard keys rand t j ≡ some (o, j'))
          × Shows o
    unfolding sample_shard Shows Taken
    sample_shard_finds j = elim (Bool-cases (t.count == 0)) [
      | inl empty ↦ (none, j, rw empty refl, tt)
      | inr some_entry ↦
          let (i, j', e, (y, here, taken)) =
            sample_slot_finds sample_slot_tries j (λ z. ground arith) in
          (
            some (record { key = (at keys t.slots y).key; val = (at keys t.slots y).val }),
            j',
            rw (some_entry, e, here) refl,
            (y, taken, refl, refl),
          )
    ]
