-- ===== src/Shardmap/Table/Sound.antt =====
-- The Robin Hood invariant, and what a probe may conclude from it.
use cachemoney.Base.{
  ℕ, zero, suc, ◌+◌, ◌-◌, ◌%◌, ◌≤◌, ◌<◌, ◌≡◌, ◌≢◌, refl, sym, ap, ◌∙◌, List, arith, ltb, ◌==◌,
  ==_iff, length, set, replicate, Bool-cases, inl, inr, length-set, length-replicate,
  get_or-replicate,
}
use cachemoney.Shardmap.Meta.{dib_of, rank, dib_of-eq, u16}
use cachemoney.Shardmap.Table.{Keys, Slot, vacant}
use cachemoney.Shardmap.Table.Cyclic.{slot_at-mod, slot_at-set-cases, previous_slot}
use cachemoney.Shardmap.Table.Mass.{
  at, occurs, is_key, weigh, weigh-le, mass-set, search_mass, mass-replicate, is_key_self,
  is_key_sound,
}

-- `hf` is the hash of a key, which the callers pass with it.
module _ {K V : Type 0} (keys : Keys K V) (hf : K → ℕ) where
  -- An occupied slot at `x`: its distance leads from its home here.
  pub record IsHoused (slots : List (Slot K V)) (x : ℕ) (s : Slot K V) : Type 0 where
    pub low : 256 ≤ s.meta
    pub high : s.meta < u16
    pub frag : s.meta % 256 ≡ s.hash % 256
    pub hashed : s.hash ≡ hf s.key
    pub home : (s.hash + rank s.meta) % length slots ≡ suc x % length slots

  pub record IsSound (slots : List (Slot K V)) : Type 0 where
    pub room : 0 < length slots
    pub housed : (x : ℕ) → (at keys slots x).meta ≢ 0 → IsHoused slots x (at keys slots x)
    pub chain : (x : ℕ) → rank (at keys slots (suc x)).meta ≤ suc (rank (at keys slots x).meta)
    pub unique : (q : K) → occurs keys q slots ≤ 1

  pub IsHoused-length :
      (a b : List (Slot K V)) (x : ℕ) (s : Slot K V)
      → length a ≡ length b
      → IsHoused a x s
      → IsHoused b x s
  IsHoused-length a b x s e h = record {
    low = h.low;
    high = h.high;
    frag = h.frag;
    hashed = h.hashed;
    home = ap (λ n. (s.hash + rank s.meta) % n) (sym e) ∙ h.home ∙ ap (λ n. suc x % n) e;
  }

  module _ {slots : List (Slot K V)} (v : IsSound slots) where
    -- A rank falls by at most one for each step back.
    pub chain_back : (x n : ℕ) → rank (at keys slots (x + n)).meta ≤ rank (at keys slots x).meta + n
    chain_back x zero = let e : x + 0 ≡ x = omega arith in rw e (omega arith)
    chain_back x (suc n) =
        let e : x + suc n ≡ suc (x + n) = omega arith in
        let before = chain_back x n in let step = v.chain (x + n) in rw e (omega arith)

    pub rank-eq-dib :
        (x : ℕ)
        → (at keys slots x).meta ≢ 0
        → suc (dib_of (at keys slots x).meta) ≡ rank (at keys slots x).meta
    rank-eq-dib x h = let s = v.housed x h in dib_of-eq (at keys slots x).meta s.low s.high

    -- A slot with key `q` is the one at its distance from home.
    pub at_distance :
        (x : ℕ)
        → (at keys slots x).meta ≢ 0
        → let d = dib_of (at keys slots x).meta in
          (at keys slots (hf (at keys slots x).key + d) ≡ at keys slots x) × (d ≤ 254)
    at_distance x h =
        let s = v.housed x h in
        let e = rank-eq-dib x h in
        let d : ℕ = dib_of (at keys slots x).meta in
        let stepped : suc (hf (at keys slots x).key + d) % length slots ≡ suc x % length slots =
          ap (λ t. t % length slots)
            (sum_of (hf (at keys slots x).key) d (rank (at keys slots x).meta) e)
          ∙ ap (λ t. (t + rank (at keys slots x).meta) % length slots) (sym s.hashed)
          ∙ s.home in
        (
          slot_at-mod _ slots (hf (at keys slots x).key + d) x
              (previous_slot (hf (at keys slots x).key + d) x (length slots) v.room stepped),
          omega (arith, s.high),
        )
      where
        sum_of : (a d r : ℕ) → suc d ≡ r → suc (a + d) ≡ a + r
        sum_of a d r e = omega arith

    -- If the key at `x` is at distance `e`, the slots before it on its probe have larger ranks than
    -- their distance.
    pub rank_on_probe :
        (x : ℕ) (d : ℕ)
        → (at keys slots x).meta ≢ 0
        → d ≤ dib_of (at keys slots x).meta
        → d < rank (at keys slots (hf (at keys slots x).key + d)).meta
    rank_on_probe x d h near =
        let e : ℕ = dib_of (at keys slots x).meta in
        let (here, _) = at_distance x h in
        let back = chain_back (hf (at keys slots x).key + d) (e - d) in
        let same : hf (at keys slots x).key + d + (e - d) ≡ hf (at keys slots x).key + e =
          omega arith in
        let r = rank-eq-dib x h in
        omega
          (arith, back, r, ap (λ t. rank (at keys slots t).meta) same, ap (λ s. rank s.meta) here)

    -- A probe for `q` that has passed `d` slots without it and meets a slot of rank at most `d` may stop.
    pub absent_at :
        (q : K) (d : ℕ)
        → ((e : ℕ)
            → e < d
            → (at keys slots (hf q + e)).meta ≢ 0
            → (at keys slots (hf q + e)).key ≢ q)
        → rank (at keys slots (hf q + d)).meta ≤ d
        → (x : ℕ) → (at keys slots x).meta ≢ 0
        → (at keys slots x).key ≢ q
    absent_at q d passed low x h same = elim (Bool-cases (ltb (dib_of (at keys slots x).meta) d)) [
      | inl before ↦
          let (here, _) = at_distance x h in
          let there : at keys slots (hf q + dib_of (at keys slots x).meta) ≡ at keys slots x =
            ap (λ k. at keys slots (hf k + dib_of (at keys slots x).meta)) (sym same) ∙ here in
          passed (dib_of (at keys slots x).meta) (ground arith)
            (λ z. h (ap (λ s. s.meta) (sym there) ∙ z)) (ap (λ s. s.key) there ∙ same)
      | inr later ↦
          let big = rank_on_probe x d h (ground arith) in
          let at_q : rank (at keys slots (hf (at keys slots x).key + d)).meta
              ≡ rank (at keys slots (hf q + d)).meta =
            ap (λ k. rank (at keys slots (hf k + d)).meta) same in
          omega arith
    ]

    pub occurs_of :
        (x : ℕ) (q : K)
        → (at keys slots x).meta ≢ 0
        → (at keys slots x).key ≡ q
        → occurs keys q slots ≢ 0
    occurs_of x q h same z =
        let light = weigh-le keys (is_key keys q) slots x v.room in
        let one : is_key keys q (at keys slots x).key (at keys slots x).val ≡ 1 =
          ap (λ k. is_key keys q k (at keys slots x).val) same
          ∙ is_key_self keys q (at keys slots x).val in
        ground arith

    pub rank_bound : (x : ℕ) → rank (at keys slots x).meta ≤ 255
    rank_bound x = elim (Bool-cases ((at keys slots x).meta == 0)) [
      | inl free ↦ ground arith
      | inr taken ↦ let s = v.housed x (λ e. ground arith) in omega (arith, s.high)
    ]

    -- Two slots with one key are one slot.
    pub one_slot :
        (x y : ℕ)
        → (at keys slots x).meta ≢ 0
        → (at keys slots y).meta ≢ 0
        → (at keys slots y).key ≡ (at keys slots x).key
        → y % length slots ≡ x % length slots
    one_slot x y tx ty same =
        elim (slot_at-set-cases (vacant keys) slots x y (vacant keys) v.room) [
          | inl (here, _) ↦ here
          | inr (_, there) ↦
              let q : K = (at keys slots x).key in
              let cleared : List (Slot K V) = set slots (x % length slots) (vacant keys) in
              let moved = mass-set keys (is_key keys q) slots x (vacant keys) v.room in
              let one = is_key_self keys q (at keys slots x).val in
              let left =
                weigh-le keys (is_key keys q) cleared y
                  (omega (arith, v.room, length-set slots (x % length slots) (vacant keys))) in
              let other : weigh keys (is_key keys q) (at keys cleared y) ≡ 1 =
                ap (weigh keys (is_key keys q)) there ∙ weigh_one y q ty same in
              let mine = weigh_one x q tx refl in
              let most = v.unique q in absurd (omega (arith, moved, left, other, mine, most))
        ]
      where
        weigh_one :
            (z : ℕ) (q : K)
            → (at keys slots z).meta ≢ 0
            → (at keys slots z).key ≡ q
            → weigh keys (is_key keys q) (at keys slots z) ≡ 1
        weigh_one z q t e =
            let one : is_key keys q (at keys slots z).key (at keys slots z).val ≡ 1 =
              ap (λ k. is_key keys q k (at keys slots z).val) e
              ∙ is_key_self keys q (at keys slots z).val in
            ground arith

  pub absent-occurs :
      (q : K) (slots : List (Slot K V))
      → ((x : ℕ) → (at keys slots x).meta ≢ 0 → (at keys slots x).key ≢ q)
      → occurs keys q slots ≡ 0
  absent-occurs q slots h = elim (Bool-cases (occurs keys q slots == 0)) [
    | inl z ↦ (==_iff (occurs keys q slots) 0).0 z
    | inr some_slot ↦
        let (x, taken, heavy) = search_mass keys (is_key keys q) slots (λ e. ground arith) in
        absurd (h x taken (is_key_sound keys q (at keys slots x).key (at keys slots x).val heavy))
  ]

  pub replicate-IsSound : (n : ℕ) → 0 < n → IsSound (replicate n (vacant keys))
  replicate-IsSound n h =
      let all_free =
        λ (x : ℕ). get_or-replicate n (x % length (replicate n (vacant keys))) (vacant keys) in
      record {
        room = omega (arith, length-replicate n (vacant keys));
        housed = λ x taken. absurd (taken (ap (λ s. s.meta) (all_free x)));
        chain = λ x. omega (arith, ap (λ s. rank s.meta) (all_free (suc x)));
        unique = λ q. omega (arith, mass-replicate keys (is_key keys q) n);
      }
