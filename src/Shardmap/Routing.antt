-- ===== src/Shardmap/Routing.antt =====
-- internal/shardmap/map.go for one caller at a time: the shards, and the operations that route a key to
-- one of them. `none` is a panic or a table operation that does not end.
pub mod Valid
pub mod Refine
pub mod Promise
pub mod Opening
pub mod Visits
use cachemoney.Base.{
  ℕ, zero, suc, ◌+◌, ◌-◌, ◌*◌, ◌/◌, ◌^◌, ◌≡◌, Bool, true, false, Option, none, some, List, [], ◌∷◌,
  get_elem?, set, replicate, ◌==◌, if◌then◌else◌,
}
use cachemoney.Base.Int.{ℤ, pos, ltb_ℤ, pos_part}
use cachemoney.Base.Results.{bind}
use cachemoney.Shardmap.Table.{Keys, Slot, Table, insert, lookup, delete, new_table}
use cachemoney.Shardmap.Options.{Config, Setting, apply_all, next_pow2, log2_power_of_2}

pub record Map (S K V : Type 0) : Type 0 where
  pub shards : List (Table K V)
  pub seed : S
  pub hasher : S → K → ℕ
  pub shard_shift : ℕ

-- A shift of a 64-bit word by 64 gives 0.
abbrev pub shard_index : ℕ → ℕ → ℕ
shard_index h shift = h / 2 ^ shift

abbrev pub default_shard_count : ℕ → Option ℕ
default_shard_count procs = next_pow2 (pos (procs * 4))

abbrev pub per_shard_cap : ℤ → ℕ → ℕ
per_shard_cap cap' num = if ltb_ℤ (pos 0) cap' then (pos_part cap' + num - 1) / num else 0

module _ {K V : Type 0} where
  unfoldable pub count_shards : List (Table K V) → ℕ
  count_shards [] = 0
  count_shards (t ∷ shards) = t.count + count_shards shards

-- Range's `fn` may keep a state; its Boolean says whether to go on.
module _ {K V A : Type 0} (fn : A → K → V → A × Bool) where
  unfoldable pub range_slots : List (Slot K V) → A → A × Bool
  range_slots [] a = (a, true)
  range_slots (s ∷ slots) a =
      let skip = range_slots slots a in
      let (a', more) = fn a s.key s.val in
      let rest = range_slots slots a' in
      if s.meta == 0 then skip else if more then rest else (a', false)

  unfoldable pub range_shards : List (Table K V) → A → A
  range_shards [] a = a
  range_shards (t ∷ shards) a =
      let (a', more) = range_slots t.slots a in
      let rest = range_shards shards a' in if more then rest else a'

-- The config that the options leave.
abbrev pub resolve : {S : Type 0} → List (Setting S) → Config S
resolve opts = apply_all opts (record { num_shards = pos 0; seed = none; initial_cap = pos 0 })

abbrev pub wanted_shards : {S : Type 0} → ℕ → Config S → Option ℕ
wanted_shards procs c =
    if ltb_ℤ c.num_shards (pos 1) then default_shard_count procs else some (pos_part c.num_shards)

-- Fuel for the growths of a table that overflows force: from 8 slots to more than 2 ^ 64.
abbrev pub growths : ℕ
growths = 63

module _ {S K V : Type 0} (keys : Keys K V) where
  -- `procs` is GOMAXPROCS, `fresh` what MakeSeed returns.
  unfoldable pub new : ℕ → S → Option (S → K → ℕ) → List (Setting S) → Option (Map S K V)
  new procs fresh none opts = none
  new procs fresh (some hasher) opts =
      let c = resolve opts in
      bind (wanted_shards procs c) (λ wanted. bind (next_pow2 (pos wanted)) (λ num.
        bind (new_table keys (per_shard_cap c.initial_cap num)) (λ t.
          bind (log2_power_of_2 num) (λ k. some (record {
            shards = replicate num t;
            seed = elim c.seed [ none ↦ fresh | some s ↦ s ];
            hasher = hasher;
            shard_shift = 64 - k;
          })))))

  abbrev pub hash_of : Map S K V → K → ℕ
  hash_of m key = m.hasher m.seed key

  abbrev pub route_of : Map S K V → K → ℕ
  route_of m key = shard_index (hash_of m key) m.shard_shift

  unfoldable pub get_value : Map S K V → K → Option (Option V)
  get_value m key =
      bind (get_elem? m.shards (route_of m key)) (λ t. lookup keys t (hash_of m key) key)

  unfoldable pub set_value : ℕ → Map S K V → K → V → Option (Map S K V)
  set_value f m key value = bind (get_elem? m.shards (route_of m key)) (λ t.
      bind (insert keys f t (hash_of m key) key value)
        (λ t'. some (record m { shards = set m.shards (route_of m key) t' })))

  unfoldable pub swap_value : ℕ → Map S K V → K → V → Option (Map S K V × Option V)
  swap_value f m key value = bind (get_elem? m.shards (route_of m key)) (λ t.
      bind (lookup keys t (hash_of m key) key) (λ old.
        bind (insert keys f t (hash_of m key) key value)
          (λ t'. some (record m { shards = set m.shards (route_of m key) t' }, old))))

  unfoldable pub delete_key : ℕ → Map S K V → K → Option (Map S K V × Option V)
  delete_key f m key = bind (get_elem? m.shards (route_of m key)) (λ t.
      bind (delete keys f t (hash_of m key) key)
        (λ (t', old). some (record m { shards = set m.shards (route_of m key) t' }, old)))

abbrev pub len_of : {S K V : Type 0} → Map S K V → ℕ
len_of m = count_shards m.shards

abbrev pub range_map : {S K V A : Type 0} → (A → K → V → A × Bool) → Map S K V → A → A
range_map fn m a = range_shards fn m.shards a
