-- ===== src/Shardmap/Table/Ends.antt =====
-- The loops of `set` and `delete` end: a free slot lies ahead.
use Prim.Native.Nat.{bit_and}
use cachemoney.Base.{
  ℕ, zero, suc, ◌+◌, ◌-◌, ◌*◌, ◌%◌, ◌^◌, ◌≤◌, ◌<◌, ◌≡◌, ◌≢◌, refl, sym, ap, ◌∙◌, Bool, true, not,
  ◌&&◌, some, List, arith, ltb, ◌==◌, length, get_or, set, Bool-cases, inl, inr, length-set,
}
use cachemoney.Shardmap.Meta.{frag_of, dib_of, max_dib}
use cachemoney.Shardmap.Table.{
  Keys, Slot, Item, Placed, added, replaced, overflowed, vacant, slot_with, item_of, same_key,
  place_loop,
}
use cachemoney.Shardmap.Table.Cyclic.{slot_at-set_ne, slot_at-mod, masked_next, mod-lt_lem}
use cachemoney.Shardmap.Table.Mass.{at, mass}
use cachemoney.Shardmap.Table.Mass.{free_slot}
use native.Mathlib.Nat.{mod-add-mod, add-mod_right, mod-eq_of_lt}

module _ {K V : Type 0} (keys : Keys K V) where
  -- A free slot `g` steps ahead of `x`.
  pub record FreeAhead (a : List (Slot K V)) (x g : ℕ) : Type 0 where
    pub room : 0 < length a
    pub free : (at keys a (x + g)).meta ≡ 0

  pub FreeAhead-step :
      (a : List (Slot K V)) (x g : ℕ)
      → FreeAhead a x g
      → (at keys a x).meta ≢ 0
      → (g' : ℕ) × (g ≡ suc g') × FreeAhead a (suc x) g'
  FreeAhead-step a x zero h taken =
      let here : x + 0 ≡ x = omega arith in
      absurd (taken (ap (λ t. (at keys a t).meta) (sym here) ∙ h.free))
  FreeAhead-step a x (suc g) h taken =
      let ahead : suc x + g ≡ x + suc g = omega arith in
      (g, refl, record { room = h.room; free = ap (λ t. (at keys a t).meta) ahead ∙ h.free })

  -- A write at a slot that was taken leaves the free slot ahead.
  pub FreeAhead-set :
      (a : List (Slot K V)) (x g : ℕ) (s : Slot K V)
      → FreeAhead a (suc x) g
      → (at keys a x).meta ≢ 0
      → FreeAhead (set a (x % length a) s) (suc x) g
  FreeAhead-set a x g s h taken = record {
    room = omega (arith, h.room, length-set a (x % length a) s);
    free =
        let apart : (suc x + g) % length a ≢ x % length a = λ e.
          taken (ap (λ t. t.meta) (sym (slot_at-mod (vacant keys) a (suc x + g) x e)) ∙ h.free) in
        ap (λ t. t.meta) (slot_at-set_ne (vacant keys) a x (suc x + g) s apart) ∙ h.free;
  }

  pub free_ahead :
      (a : List (Slot K V)) (x : ℕ)
      → mass keys (λ k v. 1) a < length a
      → (g : ℕ) × (g < suc (2 * length a)) × FreeAhead a x g
  free_ahead a x few =
      let (i, below, free) = free_slot keys a few in
      let n : ℕ = length a in
      let g : ℕ = n - x % n + i in
      let low = mod-lt_lem x n (omega arith) in
      let around : (x + g) % n ≡ i =
        sym (mod-add-mod x n g)
        ∙ ap (λ t. t % n) (wrap (x % n) n i (omega arith))
        ∙ add-mod_right i n
        ∙ mod-eq_of_lt below in
      (
        g,
        omega arith,
        record {
          room = omega arith;
          free = ap (λ t. (get_or a t (vacant keys)).meta) around ∙ free;
        },
      )
    where
      wrap : (r n i : ℕ) → r ≤ n → r + (n - r + i) ≡ i + n
      wrap r n i h = omega arith

  module _ (p : ℕ) where
    pub next_at :
        (a : List (Slot K V)) (x : ℕ)
        → length a ≡ 2 ^ p
        → bit_and (x % length a + 1) (2 ^ p - 1) ≡ suc x % length a
    next_at a x size =
        ap (λ m. bit_and (x % length a + 1) (m - 1)) (sym size) ∙ masked_next (length a) p x size

    pub place_loop_ends :
        (f : ℕ) (a : List (Slot K V)) (c : Item K V) (d : ℕ) (b : Bool) (x g : ℕ)
        → length a ≡ 2 ^ p
        → FreeAhead a x g
        → g < f
        → (r : Placed K V) × (place_loop keys f (2 ^ p - 1) a c d b (x % length a) ≡ some r)
    unfolding place_loop
    place_loop_ends zero a c d b x g size free h = absurd (omega arith)
    place_loop_ends (suc f) a c d b x g size free h = elim (Bool-cases (ltb max_dib d)) [
      | inl big ↦ (overflowed a c, rw big)
      | inr small ↦ elim (Bool-cases ((at keys a x).meta == 0)) [
        | inl here ↦ (added (set a (x % length a) (slot_with keys d c)), rw (small, here))
        | inr taken ↦
            let there : (at keys a x).meta ≢ 0 = λ z. ground arith in
            let (g', less, after) = FreeAhead-step a x g free there in
            let next = next_at a x size in
            elim (Bool-cases (not b && same_key keys (at keys a x) (frag_of c.hash) c.key)) [
              | inl match ↦ (
                replaced (set a (x % length a) (record (at keys a x) { val = c.val })),
                rw (small, taken, match),
              )
              | inr miss ↦ elim (Bool-cases (ltb (dib_of (at keys a x).meta) d)) [
                | inl richer ↦
                    let a' : List (Slot K V) = set a (x % length a) (slot_with keys d c) in
                    let same = length-set a (x % length a) (slot_with keys d c) in
                    let (r, e) =
                      place_loop_ends f a' (item_of keys (at keys a x))
                        (dib_of (at keys a x).meta + 1) true (suc x) g' (same ∙ size)
                        (FreeAhead-set a x g' (slot_with keys d c) after there) (omega arith) in
                    (r, rw (small, taken, miss, richer, next, ap (λ n. suc x % n) (sym same)) e)
                | inr poorer ↦
                    let (r, e) =
                      place_loop_ends f a c (d + 1) b (suc x) g' size after (omega arith) in
                    (r, rw (small, taken, miss, poorer, next) e)
              ]
            ]
      ]
    ]
