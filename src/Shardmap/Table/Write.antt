-- ===== src/Shardmap/Table/Write.antt =====
-- One write of a probe: the carried item takes a slot whose rank is no larger than its distance.
use cachemoney.Base.{
  ℕ, suc, ◌+◌, ◌%◌, ◌≤◌, ◌<◌, ◌≡◌, ◌≢◌, sym, ap, ◌∙◌, List, arith, length, set, Bool-cases, ◌⊎◌,
  inl, inr, length-set,
}
use cachemoney.Shardmap.Meta.{frag_of, rank, frag_of-eq, pack_meta_parts, u16, max_dib}
use cachemoney.Shardmap.Table.{Keys, Slot, Item, vacant, slot_with}
use cachemoney.Shardmap.Table.Cyclic.{slot_at-set-cases, next_slot, slot_at-mod}
use cachemoney.Shardmap.Table.Mass.{at, mass, occurs, is_key, weigh, mass-set}
use cachemoney.Shardmap.Table.Sound.{IsSound, IsHoused, IsHoused-length}

module _ {K V : Type 0} (keys : Keys K V) (hf : K → ℕ) where
  -- What a probe knows when it stands at distance `d` from the home of the item it carries.
  pub record Carries (slots : List (Slot K V)) (c : Item K V) (d : ℕ) : Type 0 where
    pub hashed : c.hash ≡ hf c.key
    pub behind :
        (y : ℕ)
        → suc y % length slots ≡ (c.hash + d) % length slots
        → d ≤ rank (at keys slots y).meta

  module _ {slots : List (Slot K V)} (v : IsSound keys hf slots) (c : Item K V) (d : ℕ)
      (carried : Carries slots c d) (small : d ≤ max_dib) where
    abbrev pub written : List (Slot K V)
    written = set slots ((c.hash + d) % length slots) (slot_with keys d c)

    pub parts :
        (rank (slot_with keys d c).meta ≡ suc d)
        × ((slot_with keys d c).meta % 256 ≡ frag_of c.hash)
        × (256 ≤ (slot_with keys d c).meta)
        × ((slot_with keys d c).meta < u16)
    parts = pack_meta_parts d (frag_of c.hash) small (omega (arith, frag_of-eq c.hash))

    pub weigh-slot_with : (w : K → V → ℕ) → weigh keys w (slot_with keys d c) ≡ w c.key c.val
    weigh-slot_with w = let (_, _, low, _) = parts in ground arith

    pub mass-written :
        (w : K → V → ℕ)
        → mass keys w written + weigh keys w (at keys slots (c.hash + d))
          ≡ mass keys w slots + w c.key c.val
    mass-written w =
        mass-set keys w slots (c.hash + d) (slot_with keys d c) v.room
        ∙ ap (λ t. mass keys w slots + t) (weigh-slot_with w)

    pub read_written :
        (y : ℕ)
        → ((y % length slots ≡ (c.hash + d) % length slots)
            × (at keys written y ≡ slot_with keys d c))
          ⊎ ((y % length slots ≢ (c.hash + d) % length slots)
              × (at keys written y ≡ at keys slots y))
    read_written y =
        slot_at-set-cases (vacant keys) slots (c.hash + d) y (slot_with keys d c) v.room

    module _ (low : rank (at keys slots (c.hash + d)).meta ≤ d) where
      chain_written :
          (y : ℕ) → rank (at keys written (suc y)).meta ≤ suc (rank (at keys written y).meta)
      chain_written y =
          let (r, _, _, _) = parts in
          elim (read_written (suc y)) [
            | inl (next_here, new) ↦ elim (read_written y) [
              | inl (here, old) ↦ rw (new, old) (omega (arith, r))
              | inr (_, old) ↦ rw (new, old) (omega (arith, r, carried.behind y next_here))
            ]
            | inr (_, new) ↦ elim (read_written y) [
              | inl (here, old) ↦
                  let after : rank (at keys slots (suc y)).meta
                      ≤ suc (rank (at keys slots y).meta) =
                    v.chain y in
                  let at_here =
                    ap (λ s. rank s.meta) (slot_at-mod (vacant keys) slots y (c.hash + d) here) in
                  rw (new, old) (omega (arith, r, after, at_here))
              | inr (_, old) ↦ rw (new, old) (v.chain y)
            ]
          ]

      same_length : length slots ≡ length written
      same_length = sym (length-set slots ((c.hash + d) % length slots) (slot_with keys d c))

      fresh_house :
          (y : ℕ)
          → y % length slots ≡ (c.hash + d) % length slots
          → IsHoused keys hf slots y (slot_with keys d c)
      fresh_house y here =
          let (r, f, l, h) = parts in
          let ahead : c.hash + rank (slot_with keys d c).meta ≡ suc (c.hash + d) =
            omega (arith, r) in
          record {
            low = l;
            high = h;
            frag = f ∙ frag_of-eq c.hash;
            hashed = carried.hashed;
            home =
                ap (λ t. t % length slots) ahead
                ∙ sym (next_slot y (c.hash + d) (length slots) here);
          }

      unique_written : occurs keys c.key slots ≡ 0 → (q : K) → occurs keys q written ≤ 1
      unique_written fresh q =
          let moved = mass-written (is_key keys q) in
          let before = v.unique q in
          elim (Bool-cases (keys.beq c.key q)) [
            | inl same ↦
                let e = (keys.beq_iff c.key q).0 same in
                let none_yet : occurs keys q slots ≡ 0 =
                  ap (λ k. occurs keys k slots) (sym e) ∙ fresh in
                let one : is_key keys q c.key c.val ≡ 1 = rw same in
                omega (arith, moved, none_yet, one)
            | inr apart ↦
                let none_new : is_key keys q c.key c.val ≡ 0 = rw apart in
                omega (arith, moved, before, none_new)
          ]

      IsHoused-written :
          (y : ℕ) → (at keys written y).meta ≢ 0 → IsHoused keys hf written y (at keys written y)
      IsHoused-written y = elim (read_written y) [
        | inl (here, new) ↦ rw new (λ taken.
            IsHoused-length keys hf slots written y (slot_with keys d c) same_length
              (fresh_house y here))
        | inr (_, old) ↦ rw old (λ taken.
            IsHoused-length keys hf slots written y (at keys slots y) same_length
              (v.housed y taken))
      ]

      pub written-IsSound : occurs keys c.key slots ≡ 0 → IsSound keys hf written
      written-IsSound fresh = record {
        room =
            omega
              (arith, v.room, length-set slots ((c.hash + d) % length slots) (slot_with keys d c));
        housed = IsHoused-written;
        chain = chain_written;
        unique = unique_written fresh;
      }
