-- ===== src/Shardmap/Table/Shift.antt =====
-- The backward shift of `delete`: one slot is given up, and every entry behind it on its chain moves
-- one slot closer to its home.
pub mod Loop
use cachemoney.Base.{
  ℕ, zero, suc, ◌+◌, ◌-◌, ◌%◌, ◌^◌, ◌≤◌, ◌<◌, ◌≡◌, ◌≢◌, sym, ap, ◌∙◌, true, false, some, List,
  arith, ltb, ◌==◌, ==_iff, length, set, Bool-cases, inl, inr, length-set,
}
use mathlib.Core.Path.{subst}
use cachemoney.Shardmap.Meta.{meta_frag, dib_of, rank, meta_frag-eq, pack_meta}
use cachemoney.Shardmap.Table.{Keys, Slot, vacant}
use cachemoney.Shardmap.Table.Cyclic.{
  two_slots, slot_at-set-cases, slot_at-set_ne, next_slot, previous_slot, slot_at-mod, mod-lt_lem,
}
use cachemoney.Shardmap.Table.Mass.{Every, at, mass, occurs, is_key, weigh, mass-set}
use cachemoney.Shardmap.Table.Sound.{IsSound, IsHoused, IsHoused-length}
use native.Mathlib.Nat.{mod-add-mod, mod-eq_of_lt, mod_self}
use cachemoney.Shardmap.Meta.{pack_meta_parts, dib_of-eq, u16}
use cachemoney.Shardmap.Table.{shift_loop}
use cachemoney.Shardmap.Table.Ends.{next_at, FreeAhead, FreeAhead-step, FreeAhead-set}

module _ {K V : Type 0} (keys : Keys K V) (hf : K → ℕ) where
  -- The table while slot `x` is being given up: its entry counts no more.
  pub record Yields (a : List (Slot K V)) (x : ℕ) : Type 0 where
    pub room : 2 ≤ length a
    pub housed : (y : ℕ) → (at keys a y).meta ≢ 0 → IsHoused keys hf a y (at keys a y)
    pub chain : (y : ℕ) → rank (at keys a (suc y)).meta ≤ suc (rank (at keys a y).meta)
    pub unique : (q : K) → occurs keys q a ≤ suc (weigh keys (is_key keys q) (at keys a x))

  -- What is left is every entry but that of slot `x`.
  pub record Vacated (a : List (Slot K V)) (x : ℕ) (b : List (Slot K V)) : Type 1 where
    pub sound : IsSound keys hf b
    pub same_length : length b ≡ length a
    pub sum : (w : K → V → ℕ) → mass keys w b + weigh keys w (at keys a x) ≡ mass keys w a
    pub every :
        (P : K → V → Type 0)
        → ((y : ℕ)
            → y % length a ≢ x % length a
            → (at keys a y).meta ≢ 0
            → P (at keys a y).key (at keys a y).val)
        → Every keys P b

  module _ {a : List (Slot K V)} (x : ℕ) (v : Yields a x) where
    positive : 0 < length a
    positive = omega (arith, v.room)

    pub sized : (s : Slot K V) → length (set a (x % length a) s) ≡ length a
    sized s = length-set a (x % length a) s

    -- The end: the slot after is free, or an entry at home.
    pub end-Vacated :
        rank (at keys a (suc x)).meta ≤ 1 → Vacated a x (set a (x % length a) (vacant keys))
    end-Vacated low = record {
      sound = record {
        room = omega (arith, sized (vacant keys), positive);
        housed = λ y t. elim (slot_at-set-cases (vacant keys) a x y (vacant keys) positive) [
          | inl (_, new) ↦ absurd (t (ap (λ s. s.meta) new))
          | inr (_, new) ↦
              let t' : (at keys a y).meta ≢ 0 = λ z. t (ap (λ s. s.meta) new ∙ z) in
              subst (λ s. IsHoused keys hf (set a (x % length a) (vacant keys)) y s) (sym new)
                (IsHoused-length keys hf a _ y (at keys a y) (sym (sized (vacant keys)))
                  (v.housed y t'))
        ];
        chain = λ y.
            let was = v.chain y in
            elim (slot_at-set-cases (vacant keys) a x (suc y) (vacant keys) positive) [
              | inl (_, new) ↦ omega (arith, ap (λ s. rank s.meta) new)
              | inr (_, new) ↦ elim (slot_at-set-cases (vacant keys) a x y (vacant keys) positive) [
                | inl (here, old) ↦
                    let same =
                      slot_at-mod (vacant keys) a (suc y) (suc x) (next_slot y x (length a) here) in
                    omega (arith, ap (λ s. rank s.meta) new, ap (λ s. rank s.meta) same)
                | inr (_, old) ↦
                    omega (arith, was, ap (λ s. rank s.meta) new, ap (λ s. rank s.meta) old)
              ]
            ];
        unique = λ q.
            let moved = mass-set keys (is_key keys q) a x (vacant keys) positive in
            let most = v.unique q in omega (arith, moved, most);
      };
      same_length = sized (vacant keys);
      sum = λ w. let moved = mass-set keys w a x (vacant keys) positive in omega (arith, moved);
      every = λ P all y t. elim (slot_at-set-cases (vacant keys) a x y (vacant keys) positive) [
        | inl (_, new) ↦ absurd (t (ap (λ s. s.meta) new))
        | inr (apart, new) ↦
            subst (λ s. P s.key s.val) (sym new) (all y apart (λ z. t (ap (λ s. s.meta) new ∙ z)))
      ];
    }

    module _ (taken : (at keys a (suc x)).meta ≢ 0)
        (away : 0 < dib_of (at keys a (suc x)).meta) where
      abbrev pub moved_back : Slot K V
      moved_back = record (at keys a (suc x)) {
        meta = pack_meta (dib_of (at keys a (suc x)).meta - 1) (meta_frag (at keys a (suc x)).meta);
      }

      abbrev pub shifted : List (Slot K V)
      shifted = set a (x % length a) moved_back

      -- The rank of the moved entry is one less.
      back_parts :
          (suc (rank moved_back.meta) ≡ rank (at keys a (suc x)).meta)
          × (moved_back.meta % 256 ≡ (at keys a (suc x)).meta % 256)
          × (256 ≤ moved_back.meta)
          × (moved_back.meta < u16)
      back_parts =
          let s = v.housed (suc x) taken in
          let m : ℕ = (at keys a (suc x)).meta in
          let r = dib_of-eq m s.low s.high in
          let f = meta_frag-eq m in
          let (rank', frag', low, high) =
            pack_meta_parts (dib_of m - 1) (meta_frag m) (omega (arith, r, s.high))
              (omega (arith, f)) in
          (omega (arith, r, rank', away), frag' ∙ f, low, high)

      back_here : (y : ℕ) → y % length a ≡ x % length a → IsHoused keys hf a y moved_back
      back_here y here =
          let s = v.housed (suc x) taken in
          let (r, f, low, high) = back_parts in
          let ahead : suc ((at keys a (suc x)).hash + rank moved_back.meta)
              ≡ (at keys a (suc x)).hash + rank (at keys a (suc x)).meta =
            omega (arith, r) in
          record {
            low = low;
            high = high;
            frag = f ∙ s.frag;
            hashed = s.hashed;
            home =
                previous_slot ((at keys a (suc x)).hash + rank moved_back.meta) (suc x) (length a)
                  positive (ap (λ t. t % length a) ahead ∙ s.home)
                ∙ sym (next_slot y x (length a) here);
          }

      pub weigh_back : (w : K → V → ℕ) → weigh keys w moved_back ≡ weigh keys w (at keys a (suc x))
      weigh_back w =
          let (_, _, low, _) = back_parts in
          let one : weigh keys w moved_back ≡ w (at keys a (suc x)).key (at keys a (suc x)).val =
            ground arith in
          let two : weigh keys w (at keys a (suc x))
              ≡ w (at keys a (suc x)).key (at keys a (suc x)).val =
            ground arith in
          one ∙ sym two

      pub next_still : at keys shifted (suc x) ≡ at keys a (suc x)
      next_still =
          slot_at-set_ne (vacant keys) a x (suc x) moved_back (two_slots (length a) x v.room)

      pub shifted_sum :
          (w : K → V → ℕ)
          → mass keys w shifted + weigh keys w (at keys a x)
            ≡ mass keys w a + weigh keys w (at keys shifted (suc x))
      shifted_sum w =
          mass-set keys w a x moved_back positive
          ∙ ap (λ t. mass keys w a + t) (weigh_back w ∙ ap (weigh keys w) (sym next_still))

      pub shifted-Yields : Yields shifted (suc x)
      shifted-Yields = record {
        room = omega (arith, sized moved_back, v.room);
        housed = λ y t. elim (slot_at-set-cases (vacant keys) a x y moved_back positive) [
          | inl (here, new) ↦
              subst (λ s. IsHoused keys hf shifted y s) (sym new)
                (IsHoused-length keys hf a _ y moved_back (sym (sized moved_back))
                  (back_here y here))
          | inr (_, new) ↦
              let t' : (at keys a y).meta ≢ 0 = λ z. t (ap (λ s. s.meta) new ∙ z) in
              subst (λ s. IsHoused keys hf shifted y s) (sym new)
                (IsHoused-length keys hf a _ y (at keys a y) (sym (sized moved_back))
                  (v.housed y t'))
        ];
        chain = λ y.
            let was = v.chain y in
            let over = v.chain x in
            let (r, _, _, _) = back_parts in
            elim (slot_at-set-cases (vacant keys) a x (suc y) moved_back positive) [
              | inl (ahead, new) ↦
                  elim (slot_at-set-cases (vacant keys) a x y moved_back positive) [
                    | inl (_, old) ↦
                        omega (arith, ap (λ s. rank s.meta) new, ap (λ s. rank s.meta) old)
                    | inr (_, old) ↦
                        let same = slot_at-mod (vacant keys) a (suc y) x ahead in
                        omega (
                          arith,
                          was,
                          over,
                          r,
                          ap (λ s. rank s.meta) new,
                          ap (λ s. rank s.meta) old,
                          ap (λ s. rank s.meta) same,
                        )
                  ]
              | inr (_, new) ↦ elim (slot_at-set-cases (vacant keys) a x y moved_back positive) [
                | inl (here, old) ↦
                    let same =
                      slot_at-mod (vacant keys) a (suc y) (suc x) (next_slot y x (length a) here) in
                    omega (
                      arith,
                      r,
                      ap (λ s. rank s.meta) new,
                      ap (λ s. rank s.meta) old,
                      ap (λ s. rank s.meta) same,
                    )
                | inr (_, old) ↦
                    omega (arith, was, ap (λ s. rank s.meta) new, ap (λ s. rank s.meta) old)
              ]
            ];
        unique = λ q.
            let m = shifted_sum (is_key keys q) in let most = v.unique q in omega (arith, m, most);
      }

      pub after_shift : (b : List (Slot K V)) → Vacated shifted (suc x) b → Vacated a x b
      after_shift b h = record {
        sound = h.sound;
        same_length = h.same_length ∙ sized moved_back;
        sum = λ w. let x₁ = h.sum w in let x₂ = shifted_sum w in omega (arith, x₁, x₂);
        every = λ P all. h.every P (λ y apart t.
            elim (slot_at-set-cases (vacant keys) a x y moved_back positive) [
              | inl (_, new) ↦
                  subst (λ s. P s.key s.val) (sym new)
                    (all (suc x) (two_slots (length a) x v.room) taken)
              | inr (there, new) ↦
                  subst (λ s. P s.key s.val) (sym new)
                    (all y there (λ z. t (ap (λ s. s.meta) new ∙ z)))
            ]);
      }
