-- ===== src/Shardmap/Table/Place/Loop.antt =====
-- The loop of `set`: every end of it, and that it ends when there is a free slot ahead.
use Prim.Native.Nat.{bit_and}
use cachemoney.Base.{
  ℕ, zero, suc, ◌+◌, ◌-◌, ◌%◌, ◌^◌, ◌≤◌, ◌<◌, ◌≡◌, ◌≢◌, refl, sym, ap, ◌∙◌, Bool, true, false, not,
  ◌&&◌, none, some, List, arith, ltb, ◌==◌, ==_iff, length, set, Bool-cases, inl, inr,
}
use mathlib.Core.Path.{subst}
use cachemoney.Shardmap.Meta.{frag_of, meta_frag, dib_of, rank, max_dib, frag_of-eq, meta_frag-eq}
use cachemoney.Shardmap.Table.{
  Keys, Slot, Item, added, replaced, overflowed, vacant, slot_with, item_of, same_key, place_loop,
}
use cachemoney.Shardmap.Table.Cyclic.{previous_slot, slot_at-mod, masked_next}
use cachemoney.Shardmap.Table.Mass.{at, occurs}
use cachemoney.Shardmap.Table.Sound.{IsSound, rank_bound, rank-eq-dib}
use cachemoney.Shardmap.Table.Write.{Carries}
use cachemoney.Shardmap.Table.Place.{Outcome, Added, Clear, Clear-absent, Spilled}
use cachemoney.Shardmap.Table.Place.Steps.{
  free-Added, after_rob, robbed-IsSound, robbed-Carries, robbed_fresh, robbed_next, sized,
}
use cachemoney.Shardmap.Table.Place.Overwrite.{overwritten-Replaced}

module _ {K V : Type 0} (keys : Keys K V) (hf : K → ℕ) where
  module _ {a : List (Slot K V)} (v : IsSound keys hf a) (c : Item K V) (d : ℕ)
      (carried : Carries keys hf a c d) where
    full-Spilled : (b : Bool) → Clear keys hf a c d b → max_dib < d → Spilled keys hf a c a c
    full-Spilled b clear big =
        let bound = rank_bound keys hf v (c.hash + d) in
        let fresh = Clear-absent keys hf v c d b carried.hashed clear (omega (arith, bound)) in
        record {
          sound = v;
          same_length = refl;
          fresh = fresh;
          carried_fresh = fresh;
          hashed = carried.hashed;
          sum = λ w. refl;
          every = λ P all mine. (all, mine);
        }

    match_test :
        (at keys a (c.hash + d)).meta ≢ 0
        → (at keys a (c.hash + d)).key ≡ c.key
        → same_key keys (at keys a (c.hash + d)) (frag_of c.hash) c.key ≡ true
    match_test taken same =
        let s = v.housed (c.hash + d) taken in
        let frags : meta_frag (at keys a (c.hash + d)).meta ≡ frag_of c.hash =
          meta_frag-eq (at keys a (c.hash + d)).meta
          ∙ s.frag
          ∙ ap (λ h. h % 256) (s.hashed ∙ ap hf same ∙ sym carried.hashed)
          ∙ sym (frag_of-eq c.hash) in
        let one = (keys.beq_iff (at keys a (c.hash + d)).key c.key).1 same in
        let two = (==_iff (meta_frag (at keys a (c.hash + d)).meta) (frag_of c.hash)).1 frags in
        rw (two, one)

    module _ (taken : (at keys a (c.hash + d)).meta ≢ 0)
        (poorer : d ≤ dib_of (at keys a (c.hash + d)).meta) where
      pub onward-Carries : Carries keys hf a c (d + 1)
      onward-Carries = record {
        hashed = carried.hashed;
        behind = λ y e.
            let ahead : c.hash + (d + 1) ≡ suc (c.hash + d) = omega arith in
            let here =
              previous_slot y (c.hash + d) (length a) v.room (e ∙ ap (λ t. t % length a) ahead) in
            let same = slot_at-mod (vacant keys) a y (c.hash + d) here in
            let r = rank-eq-dib keys hf v (c.hash + d) taken in
            omega (arith, r, ap (λ s. rank s.meta) same);
      }

      pub onward-Clear :
          (b : Bool)
          → Clear keys hf a c d b
          → not b && same_key keys (at keys a (c.hash + d)) (frag_of c.hash) c.key ≡ false
          → Clear keys hf a c (d + 1) b
      unfolding Clear
      onward-Clear true clear miss = clear
      onward-Clear false clear miss = λ e near t same. elim (Bool-cases (e == d)) [
        | inl here ↦
            let at_d : e ≡ d = (==_iff e d).0 here in
            let hit = match_test taken (ap (λ z. (at keys a (c.hash + z)).key) (sym at_d) ∙ same) in
            absurd (ground (arith, hit, miss))
        | inr before ↦ clear e (ground arith) t same
      ]

  unfinished-Outcome : (a : List (Slot K V)) (c : Item K V) (b : Bool) → Outcome keys hf a c b none
  unfolding Outcome
  unfinished-Outcome a c true = tt
  unfinished-Outcome a c false = tt

  pub fresh-Clear :
      (a : List (Slot K V)) (c : Item K V) (d : ℕ)
      → occurs keys c.key a ≡ 0
      → Clear keys hf a c d true
  unfolding Clear
  fresh-Clear a c d h = h

  added-Outcome :
      {a s : List (Slot K V)} {c : Item K V} (b : Bool)
      → Added keys hf a c s
      → Outcome keys hf a c b (some (added s))
  unfolding Outcome
  added-Outcome true h = h
  added-Outcome false h = h

  Spilled-Outcome :
      {a s : List (Slot K V)} {c e : Item K V} (b : Bool)
      → Spilled keys hf a c s e
      → Outcome keys hf a c b (some (overflowed s e))
  unfolding Outcome
  Spilled-Outcome true h = h
  Spilled-Outcome false h = h

  matched :
      {a : List (Slot K V)} (v : IsSound keys hf a) (c : Item K V) (x : ℕ) (b : Bool)
      → (at keys a x).meta ≢ 0
      → not b && same_key keys (at keys a x) (frag_of c.hash) c.key ≡ true
      → Outcome keys hf a c b
          (some (replaced (set a (x % length a) (record (at keys a x) { val = c.val }))))
  unfolding Outcome
  matched v c x true taken match = cc
  matched {a} v c x false taken match =
      overwritten-Replaced keys hf v c x taken
        ((keys.beq_iff (at keys a x).key c.key).0 (and_right _ _ match))
    where
      and_right : (p q : Bool) → p && q ≡ true → q ≡ true
      and_right true q h = h
      and_right false q h = cc

  module _ (p : ℕ) where
    next_index :
        (a : List (Slot K V)) (x i : ℕ)
        → length a ≡ 2 ^ p
        → i ≡ x % length a
        → bit_and (i + 1) (2 ^ p - 1) ≡ suc x % length a
    next_index a x i size e =
        rw e (
          ap (λ m. bit_and (x % length a + 1) (m - 1)) (sym size) ∙ masked_next (length a) p x size)

    pub place_loop-Outcome :
        (f : ℕ) {a : List (Slot K V)} (v : IsSound keys hf a) (c : Item K V) (d : ℕ) (b : Bool)
        (i : ℕ)
        → Carries keys hf a c d
        → Clear keys hf a c d b
        → length a ≡ 2 ^ p
        → i ≡ (c.hash + d) % length a
        → Outcome keys hf a c b (place_loop keys f (2 ^ p - 1) a c d b i)
    unfolding place_loop
    place_loop-Outcome zero v c d b i carried clear size e = unfinished-Outcome _ c b
    place_loop-Outcome (suc f) {a} v c d b i carried clear size e =
        let x : ℕ = c.hash + d in
        let next : bit_and (x % length a + 1) (2 ^ p - 1) ≡ suc x % length a =
          next_index a x (x % length a) size refl in
        rw e (elim (Bool-cases (ltb max_dib d)) [
          | inl big ↦ rw big (Spilled-Outcome b (full-Spilled v c d carried b clear (ground arith)))
          | inr small ↦ elim (Bool-cases ((at keys a x).meta == 0)) [
            | inl free ↦
                let meta_free = (==_iff (at keys a x).meta 0).0 free in
                let fresh =
                  Clear-absent keys hf v c d b carried.hashed clear (omega (arith, meta_free)) in
                rw (small, free)
                  (added-Outcome b
                    (free-Added keys hf v c d carried (ground arith) fresh meta_free))
            | inr taken ↦
                let there : (at keys a x).meta ≢ 0 = λ z. ground arith in
                elim (Bool-cases (not b && same_key keys (at keys a x) (frag_of c.hash) c.key)) [
                  | inl match ↦ rw (small, taken, match) (matched v c x b there match)
                  | inr miss ↦ elim (Bool-cases (ltb (dib_of (at keys a x).meta) d)) [
                    | inl richer ↦
                        let less : dib_of (at keys a x).meta < d = ground arith in
                        let r = rank-eq-dib keys hf v x there in
                        let fresh =
                          Clear-absent keys hf v c d b carried.hashed clear (omega (arith, r)) in
                        let fits : d ≤ max_dib = ground arith in
                        let len = sized keys hf v c d carried fits fresh in
                        let one_more : suc (dib_of (at keys a x).meta)
                            ≡ dib_of (at keys a x).meta + 1 =
                          omega arith in
                        let index : bit_and (x % length a + 1) (2 ^ p - 1)
                            ≡ ((at keys a x).hash + (dib_of (at keys a x).meta + 1))
                              % length (set a (x % length a) (slot_with keys d c)) =
                          next
                          ∙ sym (robbed_next keys hf v c d carried fits fresh there less)
                          ∙ ap (λ t. ((at keys a x).hash + t) % length a) one_more
                          ∙ ap (λ n. ((at keys a x).hash + (dib_of (at keys a x).meta + 1)) % n)
                              (sym len) in
                        rw (small, taken, miss, richer)
                          (after_rob keys hf v c d carried fits fresh there less _ b (
                            place_loop-Outcome f
                              (robbed-IsSound keys hf v c d carried fits fresh there less)
                              (item_of keys (at keys a x)) (dib_of (at keys a x).meta + 1) true
                              (bit_and (x % length a + 1) (2 ^ p - 1))
                              (subst
                                (λ t.
                                  Carries keys hf (set a (x % length a) (slot_with keys d c))
                                    (item_of keys (at keys a x)) t)
                                one_more
                                (robbed-Carries keys hf v c d carried fits fresh there less))
                              (fresh-Clear _ _ _
                                (robbed_fresh keys hf v c d carried fits fresh there less))
                              (len ∙ size) index))
                    | inr poorer ↦
                        let more : d ≤ dib_of (at keys a x).meta = ground arith in
                        rw (small, taken, miss, poorer)
                          (place_loop-Outcome f v c (d + 1) b
                            (bit_and (x % length a + 1) (2 ^ p - 1))
                            (onward-Carries v c d carried there more)
                            (onward-Clear v c d carried there more b clear miss) size
                            (next ∙ ap (λ t. t % length a) (ahead c.hash d)))
                  ]
                ]
          ]
        ])
      where
        ahead : (h d : ℕ) → suc (h + d) ≡ h + (d + 1)
        ahead h d = omega arith
