-- ===== src/Shardmap/Table/Window.antt =====
-- Which entries can crowd a slot: those whose home is at most 254 slots before it. A distance can
-- only outgrow the metadata where 256 of them meet.
use native.Mathlib.Nat.{
  mod-add-mod, mod-eq_of_lt, add-mod_right, mod-mod_of_dvd, mod-le, pow-suc, dvd-mul_right,
}
use cachemoney.Base.{
  ℕ, zero, suc, ◌+◌, ◌-◌, ◌*◌, ◌%◌, ◌^◌, ◌≤◌, ◌<◌, ◌≡◌, ◌≢◌, refl, sym, ap, ◌∙◌, true, List, [],
  ◌∷◌, arith, ltb, leb, ◌==◌, ==_iff, if◌then◌else◌, length, set, Bool-cases, inl, inr, length-set,
  ltb→lt,
}
use cachemoney.Base.Bits.{pow-positive}
use cachemoney.Shardmap.Meta.{rank}
use cachemoney.Shardmap.Table.{Keys, Slot, Item, vacant}
use cachemoney.Shardmap.Table.Cyclic.{mod-lt_lem, shift_slot, previous_slot, slot_at-set_ne}
use cachemoney.Shardmap.Table.Mass.{at, mass, weigh, mass-set}
use cachemoney.Shardmap.Table.Sound.{IsSound, chain_back}
use cachemoney.Shardmap.Table.Write.{Carries}

-- 1 if the home of hash `h` in `n` slots is the slot of `x` or one of the 254 before it.
unfoldable pub near : ℕ → ℕ → ℕ → ℕ
near n x h = if ltb ((x % n + (n - h % n)) % n) 255 then 1 else 0

way_around : (n x h e : ℕ) → 0 < n → (h + e) % n ≡ x % n → (x % n + (n - h % n)) % n ≡ e % n
way_around n x h e room same =
    let low = mod-lt_lem h n room in
    mod-add-mod x n (n - h % n)
    ∙ sym (shift_slot (h + e) x n (n - h % n) same)
    ∙ ap (λ t. t % n) (first h e (n - h % n))
    ∙ sym (mod-add-mod h n (e + (n - h % n)))
    ∙ ap (λ t. t % n) (second (h % n) e n low)
    ∙ add-mod_right e n
  where
    first : (a b c : ℕ) → a + b + c ≡ a + (b + c)
    first a b c = omega arith

    second : (r e n : ℕ) → r < n → r + (e + (n - r)) ≡ e + n
    second r e n h = omega arith

pub near_of : (n x h e : ℕ) → 0 < n → e ≤ 254 → (h + e) % n ≡ x % n → near n x h ≡ 1
unfolding near
near_of n x h e room few same =
    let way = way_around n x h e room same in
    let small = mod-le e n in
    let test : ltb ((x % n + (n - h % n)) % n) 255 ≡ true = ground (arith, way, small) in
    rw test refl

of_near : (n x h : ℕ) → 0 < n → near n x h ≢ 0 → (e : ℕ) × (e ≤ 254) × ((h + e) % n ≡ x % n)
unfolding near
of_near n x h room some_near = elim (Bool-cases (ltb ((x % n + (n - h % n)) % n) 255)) [
  | inr far ↦ absurd (some_near (rw far refl))
  | inl close ↦
      let e : ℕ = (x % n + (n - h % n)) % n in
      let low = mod-lt_lem h n room in
      let low' = mod-lt_lem x n room in
      let less = ltb→lt e 255 close in
      (e, omega arith, sym (mod-add-mod h n e) ∙ back (h % n) (x % n) low low')
]
  where
    back : (r s : ℕ) → r < n → s < n → (r + (s + (n - r)) % n) % n ≡ s
    back r s low low' = elim (Bool-cases (ltb (s + (n - r)) n)) [
      | inl inside ↦
          let same = mod-eq_of_lt (ltb→lt _ _ inside) in
          ap (λ t. t % n) (plus r (s + (n - r)) same (once r s low))
          ∙ add-mod_right s n
          ∙ mod-eq_of_lt low'
      | inr around ↦
          let split : s + (n - r) ≡ (s - r) + n = ground arith in
          let same : (s + (n - r)) % n ≡ s - r =
            ap (λ t. t % n) split ∙ add-mod_right (s - r) n ∙ mod-eq_of_lt (omega arith) in
          ap (λ t. t % n) (plus' r same split) ∙ mod-eq_of_lt low'
    ]
      where
        once : (r s : ℕ) → r < n → r + (s + (n - r)) ≡ s + n
        once r s h = omega arith

        plus : (r k : ℕ) → k % n ≡ k → r + k ≡ s + n → r + k % n ≡ s + n
        plus r k e f = omega arith

        plus' :
            (r : ℕ)
            → (s + (n - r)) % n ≡ s - r
            → s + (n - r) ≡ (s - r) + n
            → r + (s + (n - r)) % n ≡ s
        plus' r e f = omega arith

pub near-le_one : (n x h : ℕ) → near n x h ≤ 1
unfolding near
near-le_one n x h = ground arith

-- In a finer division of the hashes fewer homes are near.
near_finer : (n m x h : ℕ) → 0 < n → 0 < n * m → near (n * m) x h ≤ near n x h
near_finer n m x h room room' = elim (Bool-cases (near (n * m) x h == 0)) [
  | inl far ↦ let z = (==_iff (near (n * m) x h) 0).0 far in omega arith
  | inr close ↦
      let (e, few, same) = of_near (n * m) x h room' (λ z. ground arith) in
      let coarse : (h + e) % n ≡ x % n =
        sym (mod-mod_of_dvd n (h + e) (dvd-mul_right n m))
        ∙ ap (λ t. t % n) same
        ∙ mod-mod_of_dvd n x (dvd-mul_right n m) in
      let one = near_of n x h e room few coarse in let most = near-le_one (n * m) x h in omega arith
]

pow_split : (q r : ℕ) → 2 ^ (q + r) ≡ 2 ^ q * 2 ^ r
pow_split q zero = let e : q + 0 ≡ q = omega arith in ap (λ n. 2 ^ n) e ∙ omega arith
pow_split q (suc r) =
    let e : q + suc r ≡ suc (q + r) = omega arith in
    let rest = pow_split q r in
    ap (λ n. 2 ^ n) e
    ∙ pow-suc 2 (q + r)
    ∙ ap (λ n. n * 2) rest
    ∙ turn (2 ^ q) (2 ^ r)
    ∙ ap (λ n. 2 ^ q * n) (sym (pow-suc 2 r))
  where
    turn : (x y : ℕ) → x * y * 2 ≡ x * (y * 2)
    turn x y = grind arith

near_power : (q p x h : ℕ) → q ≤ p → near (2 ^ p) x h ≤ near (2 ^ q) x h
near_power q p x h le =
    let e : q + (p - q) ≡ p = omega arith in
    let split : 2 ^ p ≡ 2 ^ q * 2 ^ (p - q) = ap (λ n. 2 ^ n) (sym e) ∙ pow_split q (p - q) in
    let room = pow-positive p in
    let finer =
      near_finer (2 ^ q) (2 ^ (p - q)) x h (pow-positive q) (omega (arith, split, room)) in
    let same = ap (λ n. near n x h) split in omega (arith, finer, same)

module _ {K V : Type 0} (keys : Keys K V) (hf : K → ℕ) where
  -- Counts the entries that can crowd slot `x` of `n`.
  abbrev pub crowding : ℕ → ℕ → K → V → ℕ
  crowding n x k u = near n x (hf k)

  mass-le :
      (w w' : K → V → ℕ)
      → ((k : K) (u : V) → w k u ≤ w' k u)
      → (a : List (Slot K V)) → mass keys w a ≤ mass keys w' a
  unfolding mass
  mass-le w w' le [] = omega arith
  mass-le w w' le (s ∷ a) =
      let rest = mass-le w w' le a in let here = le s.key s.val in ground (arith, rest, here)

  -- At 2 ^ q slots no slot is crowded by more than 255 of the entries and `h`, which is counted as one
  -- entry more.
  unfoldable pub Sparse : ℕ → List (Slot K V) → ℕ → Type 0
  Sparse q a h = (x : ℕ) → mass keys (crowding (2 ^ q) x) a + near (2 ^ q) x h ≤ 255

  -- At 2 ^ q slots no slot is crowded by more than 255 of the entries.
  unfoldable pub Spread : ℕ → List (Slot K V) → Type 0
  Spread q a = (x : ℕ) → mass keys (crowding (2 ^ q) x) a ≤ 255

  pub crowding_power :
      (q p x : ℕ) (a : List (Slot K V))
      → q ≤ p
      → mass keys (crowding (2 ^ p) x) a ≤ mass keys (crowding (2 ^ q) x) a
  crowding_power q p x a le = mass-le _ _ (λ k u. near_power q p x (hf k) le) a

  pub Sparse-power : (q p : ℕ) (a : List (Slot K V)) (h : ℕ) → q ≤ p → Sparse q a h → Sparse p a h
  unfolding Sparse
  Sparse-power q p a h le sparse x =
      let x₁ = sparse x in
      let x₂ = crowding_power q p x a le in
      let x₃ = near_power q p x h le in omega (arith, x₁, x₂, x₃)

  apart_slots : (n y k : ℕ) → 0 < k → k < n → (y + k) % n ≢ y % n
  apart_slots n y k positive below e =
      let low = mod-lt_lem y n (omega arith) in
      let one : (y % n + k) % n ≡ y % n = mod-add-mod y n k ∙ e in
      elim (Bool-cases (ltb (y % n + k) n)) [
        | inl inside ↦ let same = mod-eq_of_lt (less _ _ inside) in omega (arith, same, one)
        | inr around ↦
            let split : y % n + k ≡ (y % n + k - n) + n = ground arith in
            let wrapped : (y % n + k) % n ≡ y % n + k - n =
              ap (λ t. t % n) split
              ∙ add-mod_right (y % n + k - n) n
              ∙ mod-eq_of_lt (omega arith) in
            omega (arith, wrapped, one, split)
      ]
    where
      less : (a b : ℕ) → ltb a b ≡ true → a < b
      less a b h = ground arith

  -- Taken slots in a row add up.
  pub row-mass :
      (w : K → V → ℕ) (d : ℕ) (a : List (Slot K V)) (x : ℕ)
      → 0 < length a
      → ((j : ℕ) → j < d → weigh keys w (at keys a (x + j)) ≡ 1)
      → d ≤ length a
      → d ≤ mass keys w a
  row-mass w zero a x room run fits = omega arith
  row-mass w (suc d) a x room run fits =
      let cleared : List (Slot K V) = set a ((x + d) % length a) (vacant keys) in
      let len = length-set a ((x + d) % length a) (vacant keys) in
      let moved = mass-set keys w a (x + d) (vacant keys) room in
      let one = run d (omega arith) in
      let rest =
        row-mass w d cleared x (omega (arith, len))
          (λ j close.
            let back : x + j + (d - j) ≡ x + d = omega arith in
            let other : (x + j) % length a ≢ (x + d) % length a = λ e.
              apart_slots (length a) (x + j) (d - j) (omega arith) (omega arith)
                (ap (λ t. t % length a) back ∙ sym e) in
            ap (weigh keys w) (slot_at-set_ne (vacant keys) a (x + d) (x + j) (vacant keys) other)
            ∙ run j (omega arith))
          (omega (arith, len)) in
      omega (arith, moved, one, rest)

  -- What the carried item has passed has larger ranks than their place in the probe.
  passed_rank :
      {a : List (Slot K V)} (v : IsSound keys hf a) (c : Item K V) (d j : ℕ)
      → Carries keys hf a c d
      → j < d
      → j < rank (at keys a (c.hash + j)).meta
  passed_rank {a} v c zero j carried less = absurd (omega arith)
  passed_rank {a} v c (suc d) j carried less =
      let e : suc (c.hash + d) ≡ c.hash + suc d = omega arith in
      let last = carried.behind (c.hash + d) (ap (λ t. t % length a) e) in
      let back = chain_back keys hf v (c.hash + j) (d - j) in
      let to : c.hash + j + (d - j) ≡ c.hash + d = omega arith in
      omega (arith, last, back, ap (λ t. rank (at keys a t).meta) to)

  -- Each of them crowds the item's home.
  passed_near :
      {a : List (Slot K V)} (v : IsSound keys hf a) (c : Item K V) (d j : ℕ)
      → Carries keys hf a c d
      → j < d
      → weigh keys (crowding (length a) c.hash) (at keys a (c.hash + j)) ≡ 1
  passed_near {a} v c d j carried less =
      let big = passed_rank v c d j carried less in
      let taken : (at keys a (c.hash + j)).meta ≢ 0 = λ z. omega (arith, big, ap rank z) in
      let s = v.housed (c.hash + j) taken in
      let r : ℕ = rank (at keys a (c.hash + j)).meta in
      let k : K = (at keys a (c.hash + j)).key in
      let split : (at keys a (c.hash + j)).hash + r ≡ hf k + (r - 1 - j) + suc j =
        omega (arith, big, s.hashed) in
      let whole : suc (c.hash + j) ≡ c.hash + suc j = omega arith in
      let home : (hf k + (r - 1 - j)) % length a ≡ c.hash % length a =
        step_back (length a) (suc j) (hf k + (r - 1 - j)) c.hash v.room
          (ap (λ t. t % length a) (sym split) ∙ s.home ∙ ap (λ t. t % length a) whole) in
      let one = near_of (length a) c.hash (hf k) (r - 1 - j) v.room (omega (arith, s.high)) home in
      ground (arith, one)
    where
      step_back : (n k a b : ℕ) → 0 < n → (a + k) % n ≡ (b + k) % n → a % n ≡ b % n
      step_back n zero a b h e =
          let x₁ : a + 0 ≡ a = omega arith in
          let x₂ : b + 0 ≡ b = omega arith in ap (λ t. t % n) (sym x₁) ∙ e ∙ ap (λ t. t % n) x₂
      step_back n (suc k) a b h e =
          let x₁ : suc (a + k) ≡ a + suc k = omega arith in
          let x₂ : suc (b + k) ≡ b + suc k = omega arith in
          step_back n k a b h
            (previous_slot (a + k) (b + k) n h (ap (λ t. t % n) x₁ ∙ e ∙ ap (λ t. t % n) (sym x₂)))

  -- So the distance of an item fits the metadata.
  pub sparse_fits :
      {a : List (Slot K V)} (v : IsSound keys hf a) (c : Item K V) (d : ℕ)
      → Carries keys hf a c d
      → ((x : ℕ) → mass keys (crowding (length a) x) a + near (length a) x c.hash ≤ 255)
      → d < length a
      → d ≤ 254
  sparse_fits {a} v c d carried sparse below = elim (Bool-cases (leb d 254)) [
    | inl small ↦ ground arith
    | inr large ↦
        let many : 255 ≤ d = ground arith in
        let row =
          row-mass (crowding (length a) c.hash) 255 a c.hash v.room
            (λ j less. passed_near v c d j carried (omega arith)) (omega arith) in
        let most = sparse c.hash in
        let e : c.hash + 0 ≡ c.hash = omega arith in
        let mine =
          near_of (length a) c.hash c.hash 0 v.room (omega arith) (ap (λ t. t % length a) e) in
        absurd (omega (arith, row, most, mine))
  ]

  -- Few entries are sparse at every capacity.
  pub few-Sparse :
      (q : ℕ) (a : List (Slot K V)) (h : ℕ) → mass keys (λ k u. 1) a ≤ 254 → Sparse q a h
  unfolding Sparse
  few-Sparse q a h few x =
      let x₁ = mass-le (crowding (2 ^ q) x) (λ k u. 1) (λ k u. near-le_one (2 ^ q) x (hf k)) a in
      let x₂ = near-le_one (2 ^ q) x h in omega (arith, x₁, x₂, few)

  pub few-Spread : (q : ℕ) (a : List (Slot K V)) → mass keys (λ k u. 1) a ≤ 255 → Spread q a
  unfolding Spread
  few-Spread q a few x =
      let x₁ = mass-le (crowding (2 ^ q) x) (λ k u. 1) (λ k u. near-le_one (2 ^ q) x (hf k)) a in
      omega (arith, x₁, few)
