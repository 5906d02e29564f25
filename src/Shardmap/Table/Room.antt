-- ===== src/Shardmap/Table/Room.antt =====
-- In a table that is sparse at its capacity no distance outgrows the metadata: the slots that a probe
-- has passed are all taken, by entries that crowd the home of its item.
use cachemoney.Base.{
  ℕ, zero, suc, ◌+◌, ◌-◌, ◌%◌, ◌^◌, ◌≤◌, ◌<◌, ◌≡◌, ◌≢◌, sym, ap, ◌∙◌, Bool, true, false, not, ◌&&◌,
  Option, none, some, List, arith, ltb, ◌==◌, ==_iff, length, set, Bool-cases, inl, inr, length-set,
}
use mathlib.Core.Path.{subst}
use cachemoney.Shardmap.Meta.{frag_of, dib_of, max_dib}
use cachemoney.Shardmap.Table.{
  Keys, Slot, Item, Placed, added, replaced, overflowed, vacant, slot_with, item_of, same_key,
  place_loop,
}
use cachemoney.Shardmap.Table.Cyclic.{slot_at-set-cases}
use cachemoney.Shardmap.Table.Mass.{at, mass, weigh, mass-set}
use cachemoney.Shardmap.Table.Sound.{IsSound, rank-eq-dib, rank_on_probe}
use cachemoney.Shardmap.Table.Place.{Clear, Clear-absent}
use cachemoney.Shardmap.Table.Ends.{next_at}
use Prim.Native.Nat.{bit_and}
use cachemoney.Shardmap.Meta.{pack_meta_parts, frag_of-eq}
use cachemoney.Shardmap.Table.Write.{Carries}
use cachemoney.Shardmap.Table.Place.Steps.{
  robbed-IsSound, robbed_next, robbed_fresh, robbed-Carries, sized,
}
use cachemoney.Shardmap.Table.Place.Loop.{onward-Carries, onward-Clear, fresh-Clear}
use cachemoney.Shardmap.Table.Window.{near, crowding, row-mass, sparse_fits}

module _ {K V : Type 0} (keys : Keys K V) (hf : K → ℕ) where
  -- `d` taken slots in a row from `x`.
  unfoldable pub Run : List (Slot K V) → ℕ → ℕ → Type 0
  Run a x d = (j : ℕ) → j < d → (at keys a (x + j)).meta ≢ 0

  pub Run-mass :
      (d : ℕ) (a : List (Slot K V)) (x : ℕ)
      → 0 < length a
      → Run a x d
      → d ≤ length a
      → d ≤ mass keys (λ k v. 1) a
  unfolding Run
  Run-mass d a x room run fits =
      row-mass keys hf (λ k v. 1) d a x room (λ j less. weigh_one (at keys a (x + j)) (run j less))
        fits
    where
      weigh_one : (s : Slot K V) → s.meta ≢ 0 → weigh keys (λ k v. 1) s ≡ 1
      weigh_one s taken = ground arith

  -- The slots from the home of an entry to it are taken.
  pub Run-home :
      {a : List (Slot K V)} (v : IsSound keys hf a) (x : ℕ)
      → (at keys a x).meta ≢ 0
      → Run a (hf (at keys a x).key) (suc (dib_of (at keys a x).meta))
  unfolding Run
  Run-home {a} v x taken j near z =
      let big = rank_on_probe keys hf v x j taken (omega arith) in omega (arith, big, z)

  -- A write of a taken slot keeps the run.
  pub Run-set :
      (a : List (Slot K V)) (x y d : ℕ) (s : Slot K V)
      → 0 < length a
      → s.meta ≢ 0
      → Run a y d
      → Run (set a (x % length a) s) y d
  unfolding Run
  Run-set a x y d s room taken run j near z =
      elim (slot_at-set-cases (vacant keys) a x (y + j) s room) [
        | inl (_, new) ↦ taken (ap (λ s. s.meta) (sym new) ∙ z)
        | inr (_, old) ↦ run j near (ap (λ s. s.meta) (sym old) ∙ z)
      ]

  unfoldable pub Fits : Option (Placed K V) → Type 0
  Fits none = Unit
  Fits (some (added b)) = Unit
  Fits (some (replaced b)) = Unit
  Fits (some (overflowed b e)) = (x : Unit {0}) → ⊥

  -- What the probe of an item has seen, in a table that is sparse at its capacity.
  pub record Few (a : List (Slot K V)) (c : Item K V) (d : ℕ) : Type 0 where
    pub sparse :
        (x : ℕ) → mass keys (crowding keys hf (length a) x) a + near (length a) x c.hash ≤ 255
    pub gap : mass keys (λ k v. 1) a < length a
    pub run : Run a c.hash d
    pub below : d < length a

  near_enough :
      {a : List (Slot K V)} {c : Item K V} {d : ℕ}
      → IsSound keys hf a
      → Carries keys hf a c d
      → Few a c d
      → d ≤ max_dib
  near_enough {a} {c} {d} v carried h = sparse_fits keys hf v c d carried h.sparse h.below

  Few-onward :
      {a : List (Slot K V)} {c : Item K V} {d : ℕ}
      → Few a c d
      → (at keys a (c.hash + d)).meta ≢ 0
      → Few a c (d + 1)
  unfolding Run
  Few-onward {a} {c} {d} h taken =
      let longer : Run a c.hash (d + 1) = λ j near. elim (Bool-cases (j == d)) [
        | inl here ↦
            let e = (==_iff j d).0 here in
            λ z. taken (ap (λ t. (at keys a (c.hash + t)).meta) (sym e) ∙ z)
        | inr before ↦ h.run j (ground arith)
      ] in
      let b = h.below in
      let most = Run-mass (d + 1) a c.hash (omega arith) longer (omega arith) in
      let gap = h.gap in
      record { sparse = h.sparse; gap = h.gap; run = longer; below = omega arith }

  slot_taken : (d : ℕ) (c : Item K V) → d ≤ max_dib → (slot_with keys d c).meta ≢ 0
  slot_taken d c small z =
      let (_, _, low, _) =
        pack_meta_parts d (frag_of c.hash) small (omega (arith, frag_of-eq c.hash)) in
      omega (arith, z)

  ap-le : {n' : ℕ} (n : ℕ) → n' ≡ n → (f : ℕ → ℕ) → f n ≤ 255 → f n' ≤ 255
  ap-le n e f h = let same = ap f e in omega (arith, same, h)

  Few-robbed :
      {a : List (Slot K V)} (v : IsSound keys hf a) (c : Item K V) (d : ℕ)
      → c.hash ≡ hf c.key
      → d ≤ max_dib
      → Few a c d
      → (at keys a (c.hash + d)).meta ≢ 0
      → dib_of (at keys a (c.hash + d)).meta < d
      → Few
          (set a ((c.hash + d) % length a) (slot_with keys d c))
          (item_of keys (at keys a (c.hash + d)))
          (suc (dib_of (at keys a (c.hash + d)).meta))
  Few-robbed {a} v c d hashed small h taken richer =
      let one = slot_taken d c small in
      let moved = mass-set keys (λ k v. 1) a (c.hash + d) (slot_with keys d c) v.room in
      let x₁ : weigh keys (λ k v. 1) (at keys a (c.hash + d)) ≡ 1 = ground arith in
      let x₂ : weigh keys (λ k v. 1) (slot_with keys d c) ≡ 1 = ground arith in
      let len = length-set a ((c.hash + d) % length a) (slot_with keys d c) in
      let gap = h.gap in
      let below = h.below in
      record {
        sparse = λ x.
            let w : K → V → ℕ = crowding keys hf (length a) x in
            let s = v.housed (c.hash + d) taken in
            let y₁ = mass-set keys w a (c.hash + d) (slot_with keys d c) v.room in
            let y₂ : weigh keys w (at keys a (c.hash + d))
                ≡ near (length a) x (hf (at keys a (c.hash + d)).key) =
              ground arith in
            let y₃ : weigh keys w (slot_with keys d c) ≡ near (length a) x (hf c.key) =
              ground arith in
            let y₄ = ap (near (length a) x) s.hashed in
            let y₅ = ap (near (length a) x) hashed in
            let was = h.sparse x in
            ap-le (length a) len
              (λ n.
                mass keys (crowding keys hf n x)
                  (set a ((c.hash + d) % length a) (slot_with keys d c))
                + near n x (at keys a (c.hash + d)).hash)
              (omega (arith, y₁, y₂, y₃, y₄, y₅, was));
        gap = omega (arith, moved, x₁, x₂, len);
        run = Run-set a (c.hash + d) _ _ (slot_with keys d c) v.room one (
            subst (λ y. Run a y (suc (dib_of (at keys a (c.hash + d)).meta)))
              (sym (v.housed (c.hash + d) taken).hashed) (Run-home v (c.hash + d) taken));
        below = omega (arith, len);
      }

  module _ (p : ℕ) where
    pub place_loop-Fits :
        (f : ℕ) {a : List (Slot K V)} (v : IsSound keys hf a) (c : Item K V) (d : ℕ) (b : Bool)
        (i : ℕ)
        → Few a c d
        → Carries keys hf a c d
        → Clear keys hf a c d b
        → length a ≡ 2 ^ p
        → i ≡ (c.hash + d) % length a
        → Fits (place_loop keys f (2 ^ p - 1) a c d b i)
    unfolding place_loop Fits
    place_loop-Fits zero v c d b i few carried clear size e = tt
    place_loop-Fits (suc f) {a} v c d b i few carried clear size e =
        let x : ℕ = c.hash + d in
        let next = next_at keys p a x size in
        let fits = near_enough v carried few in
        let small : ltb max_dib d ≡ false = over_test d fits in
        rw (e, small)
          (elim (Bool-cases ((at keys a x).meta == 0)) [
            | inl free ↦ rw free tt
            | inr taken ↦
                let there = unequal (at keys a x).meta 0 taken in
                elim (Bool-cases (not b && same_key keys (at keys a x) (frag_of c.hash) c.key)) [
                  | inl match ↦ rw (taken, match) tt
                  | inr miss ↦ elim (Bool-cases (ltb (dib_of (at keys a x).meta) d)) [
                    | inl richer ↦
                        let less = ltb-lt (dib_of (at keys a x).meta) d richer in
                        let r = rank-eq-dib keys hf v x there in
                        let fresh =
                          Clear-absent keys hf v c d b carried.hashed clear (omega (arith, r)) in
                        let len = sized keys hf v c d carried fits fresh in
                        let one_more : suc (dib_of (at keys a x).meta)
                            ≡ dib_of (at keys a x).meta + 1 =
                          omega arith in
                        let index : bit_and (x % length a + 1) (2 ^ p - 1)
                            ≡ ((at keys a x).hash + (dib_of (at keys a x).meta + 1))
                              % length (set a (x % length a) (slot_with keys d c)) =
                          next
                          ∙ sym (robbed_next keys hf v c d carried fits fresh there less)
                          ∙ ap (λ t. ((at keys a x).hash + t) % length a) one_more
                          ∙ ap (λ n. ((at keys a x).hash + (dib_of (at keys a x).meta + 1)) % n)
                              (sym len) in
                        rw (taken, miss, richer)
                          (place_loop-Fits f
                            (robbed-IsSound keys hf v c d carried fits fresh there less)
                            (item_of keys (at keys a x)) (dib_of (at keys a x).meta + 1) true
                            (bit_and (x % length a + 1) (2 ^ p - 1))
                            (subst
                              (Few (set a (x % length a) (slot_with keys d c))
                                (item_of keys (at keys a x)))
                              one_more (Few-robbed v c d carried.hashed fits few there less))
                            (subst
                              (Carries keys hf (set a (x % length a) (slot_with keys d c))
                                (item_of keys (at keys a x)))
                              one_more (robbed-Carries keys hf v c d carried fits fresh there less))
                            (fresh-Clear keys hf _ _ _
                              (robbed_fresh keys hf v c d carried fits fresh there less))
                            (len ∙ size) index)
                    | inr poorer ↦
                        let more : d ≤ dib_of (at keys a x).meta = not_less _ _ poorer in
                        rw (taken, miss, poorer)
                          (place_loop-Fits f v c (d + 1) b (bit_and (x % length a + 1) (2 ^ p - 1))
                            (Few-onward few there) (onward-Carries keys hf v c d carried there more)
                            (onward-Clear keys hf v c d carried there more b clear miss) size
                            (next ∙ ap (λ t. t % length a) (ahead c.hash d)))
                  ]
                ]
          ])
      where
        over_test : (d : ℕ) → d ≤ max_dib → ltb max_dib d ≡ false
        over_test d h = ground arith

        ahead : (h d : ℕ) → suc (h + d) ≡ h + (d + 1)
        ahead h d = omega arith

        not_less : (m n : ℕ) → ltb m n ≡ false → n ≤ m
        not_less m n h = ground arith

        unequal : (m n : ℕ) → (m == n) ≡ false → m ≢ n
        unequal m n h e = ground arith

        ltb-lt : (m n : ℕ) → ltb m n ≡ true → m < n
        ltb-lt m n h = ground arith
