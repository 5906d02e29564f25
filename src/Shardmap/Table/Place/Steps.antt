-- ===== src/Shardmap/Table/Place/Steps.antt =====
-- A probe of `set` that ends in a free slot, and one that robs a slot and goes on.
use cachemoney.Base.{
  ℕ, suc, ◌+◌, ◌%◌, ◌≤◌, ◌<◌, ◌≡◌, ◌≢◌, refl, sym, ap, ◌∙◌, Bool, true, Option, none, some, List,
  arith, length, set, Bool-cases, inl, inr, length-set,
}
use cachemoney.Shardmap.Meta.{dib_of, rank, max_dib}
use cachemoney.Shardmap.Table.{
  Keys, Slot, Item, Placed, added, replaced, overflowed, vacant, slot_with, item_of,
}
use cachemoney.Shardmap.Table.Cyclic.{slot_at-set_self, previous_slot}
use cachemoney.Shardmap.Table.Mass.{Every, at, mass, occurs, is_key, is_key_self, weigh, Every-set}
use cachemoney.Shardmap.Table.Sound.{IsSound, rank-eq-dib, occurs_of}
use cachemoney.Shardmap.Table.Write.{Carries, written-IsSound, mass-written, parts}
use cachemoney.Shardmap.Table.Place.{Added, Outcome}

module _ {K V : Type 0} (keys : Keys K V) (hf : K → ℕ) where
  module _ {a : List (Slot K V)} (v : IsSound keys hf a) (c : Item K V) (d : ℕ)
      (carried : Carries keys hf a c d) (small : d ≤ max_dib)
      (fresh : occurs keys c.key a ≡ 0) where
    abbrev taken_over : List (Slot K V)
    taken_over = set a ((c.hash + d) % length a) (slot_with keys d c)

    pub sized : length taken_over ≡ length a
    sized = length-set a ((c.hash + d) % length a) (slot_with keys d c)

    Every-written : (P : K → V → Type 0) → Every keys P a → P c.key c.val → Every keys P taken_over
    Every-written P all mine =
        Every-set keys P a (c.hash + d) (slot_with keys d c) v.room all (λ _. mine)

    pub free-Added : (at keys a (c.hash + d)).meta ≡ 0 → Added keys hf a c taken_over
    free-Added free = record {
      sound = written-IsSound keys hf v c d carried small (omega (arith, free)) fresh;
      same_length = length-set a ((c.hash + d) % length a) (slot_with keys d c);
      fresh = fresh;
      sum = λ w.
          let moved = mass-written keys hf v c d carried small w in
          let light : weigh keys w (at keys a (c.hash + d)) ≡ 0 = rw free refl in
          omega (arith, moved, light);
      every = Every-written;
    }

    module _ (taken : (at keys a (c.hash + d)).meta ≢ 0)
        (richer : dib_of (at keys a (c.hash + d)).meta < d) where
      abbrev robbed : Item K V
      robbed = item_of keys (at keys a (c.hash + d))

      low : rank (at keys a (c.hash + d)).meta ≤ d
      low = let r = rank-eq-dib keys hf v (c.hash + d) taken in omega (arith, r)

      pub robbed-IsSound : IsSound keys hf taken_over
      robbed-IsSound = written-IsSound keys hf v c d carried small low fresh

      -- The robbed item's next slot is the one after its own.
      pub robbed_next :
          (robbed.hash + suc (dib_of (at keys a (c.hash + d)).meta)) % length a
          ≡ suc (c.hash + d) % length a
      robbed_next =
          let r = rank-eq-dib keys hf v (c.hash + d) taken in
          ap (λ t. (robbed.hash + t) % length a) r ∙ (v.housed (c.hash + d) taken).home

      swap_sum :
          (w : K → V → ℕ)
          → mass keys w taken_over + w robbed.key robbed.val ≡ mass keys w a + w c.key c.val
      swap_sum w =
          let moved = mass-written keys hf v c d carried small w in
          let heavy : weigh keys w (at keys a (c.hash + d)) ≡ w robbed.key robbed.val =
            ground arith in
          omega (arith, moved, heavy)

      pub robbed_fresh : occurs keys robbed.key taken_over ≡ 0
      robbed_fresh =
          let q : K = robbed.key in
          let moved = swap_sum (is_key keys q) in
          let one = is_key_self keys q robbed.val in
          let most = v.unique q in
          elim (Bool-cases (keys.beq c.key q)) [
            | inl same ↦
                let e = (keys.beq_iff c.key q).0 same in
                absurd (occurs_of keys hf v (c.hash + d) c.key taken (sym e) fresh)
            | inr apart ↦
                let none_new : is_key keys q c.key c.val ≡ 0 = rw apart in
                omega (arith, moved, one, most, none_new)
          ]

      pub robbed-Carries :
          Carries keys hf taken_over robbed (suc (dib_of (at keys a (c.hash + d)).meta))
      robbed-Carries = record {
        hashed = (v.housed (c.hash + d) taken).hashed;
        behind = λ y e.
            let here = previous_slot y (c.hash + d) (length a) v.room (
              ap (λ n. suc y % n) (sym sized)
              ∙ e
              ∙ ap (λ n. (robbed.hash + suc (dib_of (at keys a (c.hash + d)).meta)) % n) sized
              ∙ robbed_next) in
            let now =
              slot_at-set_self (vacant keys) a (c.hash + d) y (slot_with keys d c) v.room here in
            let (r, _, _, _) = parts keys hf v c d carried small in
            omega (arith, r, ap (λ s. rank s.meta) now);
      }

      pub after_rob :
          (o : Option (Placed K V)) (b : Bool)
          → Outcome keys hf taken_over robbed true o
          → Outcome keys hf a c b o
      unfolding Outcome
      after_rob none b h = h
      after_rob (some (added s)) b h = record {
        sound = h.sound;
        same_length = h.same_length ∙ sized;
        fresh = fresh;
        sum = λ w. let x = h.sum w in let y = swap_sum w in omega (arith, x, y);
        every = λ P all mine. h.every P (Every-written P all mine) (all (c.hash + d) taken);
      }
      after_rob (some (replaced s)) b h = absurd (h tt)
      after_rob (some (overflowed s e)) b h = record {
        sound = h.sound;
        same_length = h.same_length ∙ sized;
        fresh = fresh;
        carried_fresh = h.carried_fresh;
        hashed = h.hashed;
        sum = λ w. let x = h.sum w in let y = swap_sum w in omega (arith, x, y);
        every = λ P all mine. h.every P (Every-written P all mine) (all (c.hash + d) taken);
      }
