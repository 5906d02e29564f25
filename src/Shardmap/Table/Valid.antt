-- ===== src/Shardmap/Table/Valid.antt =====
-- The invariant of a table between its operations, and what `lookup` answers in such a table.
use cachemoney.Base.{
  ℕ, ◌+◌, ◌-◌, ◌*◌, ◌/◌, ◌%◌, ◌^◌, ◌≤◌, ◌≡◌, ◌≢◌, refl, sym, ap, ◌∙◌, Option, none, some, List,
  arith, length,
}
use cachemoney.Base.Bits.{bit_and-low_ones}
use Prim.Native.Nat.{bit_and}
use cachemoney.Shardmap.Meta.{frag_of}
use cachemoney.Shardmap.Table.{
  Keys, Slot, Table, vacant, probe_rounds, find, lookup, value_of, probe,
}
use cachemoney.Shardmap.Table.Cyclic.{slot_at-mod}
use cachemoney.Shardmap.Table.Mass.{Every, at, mass, occurs, is_key, is_key_sound, search_mass}
use cachemoney.Shardmap.Table.Sound.{IsSound, one_slot, occurs_of}
use cachemoney.Shardmap.Table.Probe.{Decides, probe-Decides}

module _ {K V : Type 0} (keys : Keys K V) (hf : K → ℕ) where
  pub record IsValid (t : Table K V) : Type 0 where
    pub power : ℕ
    pub least : 3 ≤ power
    pub size : length t.slots ≡ 2 ^ power
    pub mask : t.capm1 ≡ 2 ^ power - 1
    pub sound : IsSound keys hf t.slots
    pub counted : t.count ≡ mass keys (λ k v. 1) t.slots
    pub limit : t.grow_at ≡ length t.slots * 3 / 4
    pub fits : t.count ≤ t.grow_at

  -- What a table says of a key: it is absent, or it is there and its value is the one named.
  unfoldable pub Describes : List (Slot K V) → K → Option V → Type 0
  Describes a q none = occurs keys q a ≡ 0
  Describes a q (some v) = (occurs keys q a ≢ 0) × Every keys (λ k u. k ≡ q → u ≡ v) a

  pub Decides-Describes :
      {a : List (Slot K V)} (v : IsSound keys hf a) (q : K) (x : ℕ)
      → (at keys a x).meta ≢ 0
      → (at keys a x).key ≡ q
      → Describes a q (some (at keys a x).val)
  unfolding Describes
  Decides-Describes {a} v q x taken same = (
    occurs_of keys hf v x q taken same,
    λ y there e.
        ap (λ s. s.val)
          (slot_at-mod (vacant keys) a y x (one_slot keys hf v x y taken there (e ∙ sym same))),
  )

  -- A key has one description.
  pub described_once :
      (a : List (Slot K V)) (q : K) (o u : Option V) → Describes a q o → Describes a q u → o ≡ u
  unfolding Describes
  described_once a q none none h g = refl
  described_once a q none (some u) h (there, _) = absurd (there h)
  described_once a q (some o) none (there, _) g = absurd (there g)
  described_once a q (some o) (some u) (there, one) (_, two) =
      let (x, taken, heavy) = search_mass keys (is_key keys q) a there in
      let same = is_key_sound keys q (at keys a x).key (at keys a x).val heavy in
      ap some (sym (one x taken same) ∙ two x taken same)

  module _ {t : Table K V} (v : IsValid t) where
    find_start :
        (q : K)
        → find keys t (hf q) q
          ≡ probe keys
              (probe_rounds keys)
              (2 ^ v.power - 1)
              t.slots
              (frag_of (hf q))
              q
              ((hf q + 0) % length t.slots)
              0
    unfolding find
    find_start q =
        let home : bit_and (hf q) t.capm1 ≡ (hf q + 0) % length t.slots =
          ap (bit_and (hf q)) v.mask
          ∙ bit_and-low_ones v.power (hf q)
          ∙ ap (λ n. hf q % n) (sym v.size)
          ∙ ap (λ h. h % length t.slots) (omega arith) in
        ap (λ i. probe keys (probe_rounds keys) t.capm1 t.slots (frag_of (hf q)) q i 0) home
        ∙ ap
            (λ m.
              probe keys (probe_rounds keys) m t.slots (frag_of (hf q)) q
                ((hf q + 0) % length t.slots) 0)
            v.mask

    pub found_in :
        (q : K) → (r : Option ℕ) × (find keys t (hf q) q ≡ some r) × Decides keys hf t.slots q r
    found_in q =
        let (r, e, dec) =
          probe-Decides keys hf v.sound q v.power (probe_rounds keys) 0 v.size (omega arith)
            (omega arith) (λ e near. absurd (omega arith)) in
        (r, find_start q ∙ e, dec)

    answer :
        (q : K) (r : Option ℕ)
        → find keys t (hf q) q ≡ some r
        → Decides keys hf t.slots q r
        → (o : Option V) × (lookup keys t (hf q) q ≡ some o) × Describes t.slots q o
    unfolding lookup Decides Describes value_of
    answer q none e dec = (none, ap (value_of keys t) e, dec)
    answer q (some i) e (x, here, taken, same) = (
      some (at keys t.slots x).val,
      ap (value_of keys t) (e ∙ ap (λ j. some (some j)) here),
      Decides-Describes v.sound q x taken same,
    )

    -- A lookup in a valid table returns, with the description of the key.
    pub lookup_total :
        (q : K) → (o : Option V) × (lookup keys t (hf q) q ≡ some o) × Describes t.slots q o
    lookup_total q = let (r, e, dec) = found_in q in answer q r e dec

    pub lookup_is : (q : K) (o : Option V) → Describes t.slots q o → lookup keys t (hf q) q ≡ some o
    lookup_is q o h =
        let (u, e, g) = lookup_total q in e ∙ ap some (described_once t.slots q u o g h)
