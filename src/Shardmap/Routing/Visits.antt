-- ===== src/Shardmap/Routing/Visits.antt =====
-- What Range calls its function on.
use cachemoney.Base.{
  ℕ, zero, suc, ◌+◌, ◌%◌, ◌<◌, ◌≡◌, ◌≢◌, refl, sym, ap, ◌∙◌, Bool, true, Option, none, some, List,
  [], ◌∷◌, arith, ◌==◌, ==_iff, if◌then◌else◌, length, get_elem?, set, length-set, Bool-cases, inl,
  inr,
}
use mathlib.Core.Option.{some-injective}
use cachemoney.Shardmap.Table.{Keys, Slot, Table, vacant}
use cachemoney.Shardmap.Table.Mass.{
  at, mass, occurs, is_key, is_key_sound, weigh, weigh-le, mass-set, search_mass,
}
use cachemoney.Shardmap.Table.Sound.{IsSound, absent-occurs}
use cachemoney.Shardmap.Table.Valid.{Describes}
use cachemoney.Shardmap.Table.View.{view, view-Describes}
use cachemoney.Shardmap.Routing.{Map, hash_of, route_of, range_slots, range_shards, range_map}
use cachemoney.Shardmap.Routing.Refine.{mass_all}
use cachemoney.Shardmap.Routing.Valid.{IsValidMap, view_map, view_in, shard_of}

-- A function for Range that adds up a weight and never stops.
abbrev pub adding : {K V : Type 0} → (K → V → ℕ) → ℕ → K → V → ℕ × Bool
adding w n k u = (n + w k u, true)

module _ {K V : Type 0} (keys : Keys K V) where
  -- The weight of the entries of one key.
  abbrev pub only : K → (V → ℕ) → K → V → ℕ
  only q w k u = if keys.beq k q then w u else 0

  -- The weight of a value that may be there.
  abbrev pub weight_if : (V → ℕ) → Option V → ℕ
  weight_if w none = 0
  weight_if w (some u) = w u

  range_slots-mass :
      (w : K → V → ℕ) (slots : List (Slot K V)) (n : ℕ)
      → range_slots (adding w) slots n ≡ (n + mass keys w slots, true)
  unfolding range_slots mass
  range_slots-mass w [] n = ap (λ m. (m, true)) (omega arith)
  range_slots-mass w (s ∷ slots) n = elim (Bool-cases (s.meta == 0)) [
    | inl free ↦ rw free (range_slots-mass w slots n ∙ ap (λ m. (m, true)) (omega arith))
    | inr taken ↦
        rw taken (range_slots-mass w slots (n + w s.key s.val) ∙ ap (λ m. (m, true)) (omega arith))
  ]

  range_shards-mass :
      (w : K → V → ℕ) (shards : List (Table K V)) (n : ℕ)
      → range_shards (adding w) shards n ≡ n + mass_all keys w shards
  unfolding range_shards mass_all
  range_shards-mass w [] n = omega arith
  range_shards-mass w (t ∷ shards) n =
      let first = range_slots-mass w t.slots n in
      let rest = range_shards-mass w shards (n + mass keys w t.slots) in
      rw first (rest ∙ omega arith)

  none_there :
      (q : K) (w : V → ℕ) (slots : List (Slot K V))
      → 0 < length slots
      → occurs keys q slots ≡ 0
      → mass keys (only q w) slots ≡ 0
  none_there q w slots room gone = elim (Bool-cases (mass keys (only q w) slots == 0)) [
    | inl z ↦ (==_iff (mass keys (only q w) slots) 0).0 z
    | inr heavy ↦
        let (x, taken, counts) = search_mass keys (only q w) slots (λ e. ground arith) in
        let light = weigh-le keys (is_key keys q) slots x room in absurd (ground arith)
  ]

  -- The one entry of a key that is there.
  one_there :
      (hf : K → ℕ) (q : K) (w : V → ℕ) {slots : List (Slot K V)} (v : IsSound keys hf slots)
      (o : Option V)
      → Describes keys hf slots q o
      → mass keys (only q w) slots ≡ weight_if w o
  unfolding Describes
  one_there hf q w {slots} v none gone = none_there q w slots v.room gone
  one_there hf q w {slots} v (some u) (there, same) =
      let (x, taken, counts) = search_mass keys (is_key keys q) slots there in
      let cleared : List (Slot K V) = set slots (x % length slots) (vacant keys) in
      let len = length-set slots (x % length slots) (vacant keys) in
      let x₁ = mass-set keys (is_key keys q) slots x (vacant keys) v.room in
      let x₂ = mass-set keys (only q w) slots x (vacant keys) v.room in
      let most = v.unique q in
      let key_q = is_key_sound keys q (at keys slots x).key (at keys slots x).val counts in
      let mine : keys.beq (at keys slots x).key q ≡ true =
        (keys.beq_iff (at keys slots x).key q).1 key_q in
      let val = same x taken key_q in
      let one : weigh keys (is_key keys q) (at keys slots x) ≡ 1 = ground arith in
      let weight : weigh keys (only q w) (at keys slots x) ≡ w (at keys slots x).val =
        ground arith in
      let rest =
        none_there q w cleared (let room = v.room in omega (arith, len))
          (omega (arith, x₁, one, most)) in
      omega (arith, x₂, weight, rest, ap w val)

  mass_all-zero :
      (w : K → V → ℕ) (shards : List (Table K V))
      → ((j : ℕ) (t : Table K V) → get_elem? shards j ≡ some t → mass keys w t.slots ≡ 0)
      → mass_all keys w shards ≡ 0
  unfolding mass_all
  mass_all-zero w [] light = refl
  mass_all-zero w (t ∷ shards) light =
      let here = light 0 t refl in
      let rest = mass_all-zero w shards (λ j s e. light (suc j) s e) in omega arith

  -- A weight of one shard only.
  mass_all-at :
      (w : K → V → ℕ) (shards : List (Table K V)) (i : ℕ) (t : Table K V)
      → get_elem? shards i ≡ some t
      → ((j : ℕ) (s : Table K V) → get_elem? shards j ≡ some s → j ≢ i → mass keys w s.slots ≡ 0)
      → mass_all keys w shards ≡ mass keys w t.slots
  unfolding mass_all
  mass_all-at w [] i t e light = cc
  mass_all-at w (s ∷ shards) zero t e light =
      let same = ap (λ z. mass keys w z.slots) (some-injective _ _ e) in
      let rest = mass_all-zero w shards (λ j z f. light (suc j) z f (λ p. absurd (omega arith))) in
      omega (arith, same, rest)
  mass_all-at w (s ∷ shards) (suc i) t e light =
      let here = light 0 s refl (λ p. absurd (omega arith)) in
      let rest =
        mass_all-at w shards i t e (λ j z f apart. light (suc j) z f (λ p. apart (omega arith))) in
      omega (arith, here, rest)

module _ {S K V : Type 0} (keys : Keys K V) where
  -- On a valid map, Range calls its function once on each key that is stored, with the value that
  -- `Get` answers, and on no other key: whatever the weight of values, what a function that never
  -- stops adds up for a key is the weight of the value stored under it, or 0.
  pub range_map_visits :
      (m : Map S K V) (q : K) (w : V → ℕ)
      → IsValidMap keys m
      → range_map (adding (only keys q w)) m 0 ≡ weight_if keys w (view_map keys m q)
  range_map_visits m q w v =
      let (t, at_q) = shard_of keys v q in
      let valid = v.tables (route_of keys m q) t at_q in
      let here =
        one_there keys (hash_of keys m) q w valid.sound (view keys (hash_of keys m) t q)
          (view-Describes keys (hash_of keys m) valid q) in
      let all = mass_all-at keys (only keys q w) m.shards (route_of keys m q) t at_q (λ j s e apart.
        let other = v.tables j s e in
        none_there keys q w s.slots other.sound.room (
          absent-occurs keys (hash_of keys m) q s.slots
            (λ x taken same. apart (sym (v.own j s e x taken) ∙ ap (route_of keys m) same)))) in
      range_shards-mass keys (only keys q w) m.shards 0
      ∙ plain (mass_all keys (only keys q w) m.shards)
      ∙ all
      ∙ here
      ∙ ap (weight_if keys w) (sym (view_in keys v q t at_q))
    where
      plain : (n : ℕ) → 0 + n ≡ n
      plain n = omega arith
