-- ===== src/Shardmap/Table/Mass.antt =====
-- What a table holds, whatever the order of its slots: the sum of a weight over the occupied slots,
-- and what every occupied slot satisfies.
use cachemoney.Base.{
  ℕ, zero, suc, ◌+◌, ◌%◌, ◌≤◌, ◌<◌, ◌≡◌, ◌≢◌, refl, List, [], ◌∷◌, arith, ◌==◌, ==_iff,
  if◌then◌else◌, length, get_or, set, replicate, Bool-cases, inl, inr,
}
use cachemoney.Shardmap.Table.{Keys, Slot, vacant}
use cachemoney.Shardmap.Table.Cyclic.{slot_at, slot_at-lt, slot_at-set-cases, mod-lt_lem}

module _ {K V : Type 0} (keys : Keys K V) where
  abbrev pub weigh : (K → V → ℕ) → Slot K V → ℕ
  weigh w s = if s.meta == 0 then 0 else w s.key s.val

  unfoldable pub mass : (K → V → ℕ) → List (Slot K V) → ℕ
  mass w [] = 0
  mass w (s ∷ slots) = weigh w s + mass w slots

  abbrev pub is_key : K → K → V → ℕ
  is_key q k v = if keys.beq k q then 1 else 0

  abbrev pub occurs : K → List (Slot K V) → ℕ
  occurs q slots = mass (is_key q) slots

  pub is_key_self : (k : K) (v : V) → is_key k k v ≡ 1
  is_key_self k v = rw ((keys.beq_iff k k).1 refl)

  pub is_key_sound : (q k : K) (v : V) → is_key q k v ≢ 0 → k ≡ q
  is_key_sound q k v h = elim (Bool-cases (keys.beq k q)) [
    | inl same ↦ (keys.beq_iff k q).0 same
    | inr apart ↦ absurd (h (rw apart))
  ]

  abbrev pub at : List (Slot K V) → ℕ → Slot K V
  at slots x = slot_at (vacant keys) slots x

  -- Every occupied slot has an entry that satisfies `P`.
  abbrev pub Every : (K → V → Type 0) → List (Slot K V) → Type 0
  Every P slots = (x : ℕ) → (at slots x).meta ≢ 0 → P (at slots x).key (at slots x).val

  pub mass-set_in :
      (w : K → V → ℕ) (slots : List (Slot K V)) (i : ℕ) (s : Slot K V)
      → i < length slots
      → mass w (set slots i s) + weigh w (get_or slots i (vacant keys)) ≡ mass w slots + weigh w s
  unfolding mass
  mass-set_in w [] i s h = absurd (omega arith)
  mass-set_in w (x ∷ slots) zero s h = omega arith
  mass-set_in w (x ∷ slots) (suc i) s h =
      let rest = mass-set_in w slots i s (omega arith) in omega arith

  -- A write moves the sum by the difference.
  pub mass-set :
      (w : K → V → ℕ) (slots : List (Slot K V)) (x : ℕ) (s : Slot K V)
      → 0 < length slots
      → mass w (set slots (x % length slots) s) + weigh w (at slots x) ≡ mass w slots + weigh w s
  mass-set w slots x s h = mass-set_in w slots (x % length slots) s (mod-lt_lem x (length slots) h)

  weigh-le_in :
      (w : K → V → ℕ) (slots : List (Slot K V)) (i : ℕ)
      → i < length slots
      → weigh w (get_or slots i (vacant keys)) ≤ mass w slots
  unfolding mass
  weigh-le_in w [] i h = absurd (omega arith)
  weigh-le_in w (x ∷ slots) zero h = omega arith
  weigh-le_in w (x ∷ slots) (suc i) h =
      let rest = weigh-le_in w slots i (omega arith) in omega arith

  pub weigh-le :
      (w : K → V → ℕ) (slots : List (Slot K V)) (x : ℕ)
      → 0 < length slots
      → weigh w (at slots x) ≤ mass w slots
  weigh-le w slots x h = weigh-le_in w slots (x % length slots) (mod-lt_lem x (length slots) h)

  pub Found : (K → V → ℕ) → List (Slot K V) → Type 0
  Found w slots = (i : ℕ) × (i < length slots) × (weigh w (get_or slots i (vacant keys)) ≢ 0)

  search_in : (w : K → V → ℕ) (slots : List (Slot K V)) → mass w slots ≢ 0 → Found w slots
  unfolding mass Found
  search_in w [] h = absurd (h refl)
  search_in w (s ∷ slots) h = elim (Bool-cases (weigh w s == 0)) [
    | inl light ↦
        let none_here : weigh w s ≡ 0 = (==_iff (weigh w s) 0).0 light in
        let (i, below, heavy) = search_in w slots (λ e. h (omega arith)) in
        (suc i, omega arith, heavy)
    | inr heavy ↦ (0, omega arith, λ e. ground arith)
  ]

  -- A positive sum has a slot that contributes to it.
  pub search_mass :
      (w : K → V → ℕ) (slots : List (Slot K V))
      → mass w slots ≢ 0
      → (x : ℕ) × ((at slots x).meta ≢ 0) × (w (at slots x).key (at slots x).val ≢ 0)
  unfolding Found
  search_mass w slots h =
      let (i, below, heavy) = search_in w slots h in
      let here = slot_at-lt (vacant keys) slots i below in
      (i, rw here (λ e. ground arith), rw here (λ e. ground arith))

  -- A table that holds fewer entries than it has slots has a free one.
  pub free_slot :
      (slots : List (Slot K V))
      → mass (λ k v. 1) slots < length slots
      → (i : ℕ) × (i < length slots) × ((get_or slots i (vacant keys)).meta ≡ 0)
  unfolding mass
  free_slot [] h = absurd (omega arith)
  free_slot (s ∷ slots) h = elim (Bool-cases (s.meta == 0)) [
    | inl free ↦ (0, omega arith, (==_iff s.meta 0).0 free)
    | inr taken ↦
        let h' = rw taken at h in
        let (i, below, e) = free_slot slots (omega arith) in (suc i, omega arith, e)
  ]

  -- What held of every entry, and of the one that is written, holds of every entry after the write.
  pub Every-set :
      (P : K → V → Type 0) (slots : List (Slot K V)) (x : ℕ) (s : Slot K V)
      → 0 < length slots
      → Every P slots
      → (s.meta ≢ 0 → P s.key s.val)
      → Every P (set slots (x % length slots) s)
  Every-set P slots x s h all new y = elim (slot_at-set-cases (vacant keys) slots x y s h) [
    | inl (_, here) ↦ rw here new
    | inr (_, there) ↦ rw there (all y)
  ]

  pub mass-replicate : (w : K → V → ℕ) (n : ℕ) → mass w (replicate n (vacant keys)) ≡ 0
  unfolding mass
  mass-replicate w zero = refl
  mass-replicate w (suc n) = let rest = mass-replicate w n in omega arith
