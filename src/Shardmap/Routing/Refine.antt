-- ===== src/Shardmap/Routing/Refine.antt =====
-- What the operations of a sharded map do to the map it stands for.
use mathlib.Core.Path.{subst}
use mathlib.Core.Option.{some-injective}
use cachemoney.Base.{
  ℕ, zero, suc, ◌+◌, ◌≡◌, ◌≢◌, sym, ap, ◌∙◌, false, some, List, [], ◌∷◌, arith, ◌==◌, ==_iff,
  get_elem?, set, length-set, Bool-cases, ◌⊎◌, inl, inr,
}
use native.Mathlib.Nat.{pow-le-pow_right, mul-le-mul}
use cachemoney.Base.{◌≤◌, ◌^◌, length, zero}
use cachemoney.Shardmap.Table.Mass.{mass}
use cachemoney.Shardmap.Table.Window.{Sparse, Spread}
use cachemoney.Shardmap.Table.Regrow.{Reaches}
use cachemoney.Shardmap.Table.Grow.{at_least_8}
use cachemoney.Shardmap.Table.{Keys, Table}
use cachemoney.Shardmap.Table.Mass.{Every}
use cachemoney.Shardmap.Table.Valid.{IsValid}
use cachemoney.Shardmap.Table.View.{view}
use cachemoney.Shardmap.Routing.{Map, hash_of, route_of, count_shards}
use cachemoney.Shardmap.Routing.Valid.{
  IsValidMap, view_map, route_below, shard_of, view_in, get_elem?-set_self, get_elem?-set_ne,
}

pub count-set :
    {K V : Type 0} (shards : List (Table K V)) (i : ℕ) (t t' : Table K V)
    → get_elem? shards i ≡ some t
    → count_shards (set shards i t') + t.count ≡ count_shards shards + t'.count
unfolding count_shards
count-set [] i t t' e = cc
count-set (s ∷ shards) zero t t' e =
    let same = ap (λ z. z.count) (some-injective _ _ e) in omega (arith, same)
count-set (s ∷ shards) (suc i) t t' e = let rest = count-set shards i t t' e in omega (arith, rest)

module _ {K V : Type 0} (keys : Keys K V) where
  -- The sum over the shards.
  unfoldable pub mass_all : (K → V → ℕ) → List (Table K V) → ℕ
  mass_all w [] = 0
  mass_all w (t ∷ shards) = mass keys w t.slots + mass_all w shards

  pub mass_all-set :
      (w : K → V → ℕ) (shards : List (Table K V)) (i : ℕ) (t t' : Table K V)
      → get_elem? shards i ≡ some t
      → mass_all w (set shards i t') + mass keys w t.slots
        ≡ mass_all w shards + mass keys w t'.slots
  unfolding mass_all
  mass_all-set w [] i t t' e = cc
  mass_all-set w (s ∷ shards) zero t t' e =
      let same = ap (λ z. mass keys w z.slots) (some-injective _ _ e) in omega (arith, same)
  mass_all-set w (s ∷ shards) (suc i) t t' e =
      let rest = mass_all-set w shards i t t' e in omega (arith, rest)

  -- 63 growths take any table past 2 ^ 64 slots.
  pub growths-reach :
      {t : Table K V} (hf : K → ℕ) (v : IsValid keys hf t) (f : ℕ) → 61 ≤ f → Reaches keys hf 64 f t
  growths-reach {t} hf v f h =
      let eight = at_least_8 keys hf v.power v.least in
      let size = v.size in
      let more = pow-le-pow_right {n = 2} (omega arith) {i = 61} {j = f} h in
      let wide =
        mul-le-mul {n₁ = 8} {m₁ = 2 ^ 61} {n₂ = length t.slots} {m₂ = 2 ^ f} (omega arith) more in
      omega (arith, wide)

module _ {S K V : Type 0} (keys : Keys K V) where
  abbrev pub put_shard : Map S K V → K → Table K V → Map S K V
  put_shard m k t = record m { shards = set m.shards (route_of keys m k) t }

  -- One shard replaced by a valid table of keys that are routed to it.
  pub put_shard-IsValidMap :
      {m : Map S K V} (v : IsValidMap keys m) (k : K) (t : Table K V)
      → IsValid keys (hash_of keys m) t
      → Every keys (λ q u. route_of keys m q ≡ route_of keys m k) t.slots
      → IsValidMap keys (put_shard m k t)
  put_shard-IsValidMap {m} v k t valid mine = record {
    bits = v.bits;
    few = v.few;
    size = length-set m.shards (route_of keys m k) t ∙ v.size;
    shift = v.shift;
    words = v.words;
    tables = λ i s e. elim (Bool-cases (route_of keys m k == i)) [
      | inl here ↦
          subst (IsValid keys (hash_of keys m))
            (read_here i s ((==_iff (route_of keys m k) i).0 here) e) valid
      | inr apart ↦ v.tables i s (read_there i s apart e)
    ];
    own = λ i s e. elim (Bool-cases (route_of keys m k == i)) [
      | inl here ↦
          let at_i = (==_iff (route_of keys m k) i).0 here in
          subst (λ z. Every keys (λ q u. route_of keys m q ≡ i) z.slots) (read_here i s at_i e)
            (λ x taken. mine x taken ∙ at_i)
      | inr apart ↦ v.own i s (read_there i s apart e)
    ];
  }
    where
      read_here :
          (i : ℕ) (s : Table K V)
          → route_of keys m k ≡ i
          → get_elem? (set m.shards (route_of keys m k) t) i ≡ some s
          → t ≡ s
      read_here i s here e = some-injective _ _ (
          sym (get_elem?-set_self m.shards (route_of keys m k) t (route_below keys v k))
          ∙ ap (get_elem? (set m.shards (route_of keys m k) t)) here
          ∙ e)

      read_there :
          (i : ℕ) (s : Table K V)
          → (route_of keys m k == i) ≡ false
          → get_elem? (set m.shards (route_of keys m k) t) i ≡ some s
          → get_elem? m.shards i ≡ some s
      read_there i s apart e =
          sym (get_elem?-set_ne m.shards (route_of keys m k) i t (λ z. ground arith)) ∙ e

  -- What shows of a key after its shard is replaced.
  pub view-put_shard :
      {m : Map S K V} (v : IsValidMap keys m) (k q : K) (t t' : Table K V)
      → get_elem? m.shards (route_of keys m k) ≡ some t
      → IsValidMap keys (put_shard m k t')
      → ((route_of keys m k ≡ route_of keys m q)
          × (view_map keys (put_shard m k t') q ≡ view keys (hash_of keys m) t' q)
          × (view_map keys m q ≡ view keys (hash_of keys m) t q))
        ⊎ ((route_of keys m k ≢ route_of keys m q)
            × (view_map keys (put_shard m k t') q ≡ view_map keys m q))
  view-put_shard {m} v k q t t' at_k v' =
      elim (Bool-cases (route_of keys m k == route_of keys m q)) [
        | inl same ↦
            let e = (==_iff (route_of keys m k) (route_of keys m q)).0 same in
            inl (
              e,
              view_in keys v' q t' (
                  ap (get_elem? (set m.shards (route_of keys m k) t')) (sym e)
                  ∙ get_elem?-set_self m.shards (route_of keys m k) t' (route_below keys v k)),
              view_in keys v q t (ap (get_elem? m.shards) (sym e) ∙ at_k),
            )
        | inr apart ↦
            let ne : route_of keys m k ≢ route_of keys m q = λ z. ground arith in
            let (s, e) = shard_of keys v q in
            inr (
              ne,
              view_in keys v' q s
                    (get_elem?-set_ne m.shards (route_of keys m k) (route_of keys m q) t' ne ∙ e)
                  ∙ sym (view_in keys v q s e),
            )
      ]

  -- No slot of a shard, were it grown to 2 ^ 64 slots, would be crowded by more than 255 of its entries.
  unfoldable pub IsSpread : Map S K V → Type 0
  IsSpread m =
      (i : ℕ) (t : Table K V)
      → get_elem? m.shards i ≡ some t
      → Spread keys (hash_of keys m) 64 t.slots

  -- The same of the shard of `k` with that key as one entry more.
  unfoldable pub HasRoom : Map S K V → K → Type 0
  HasRoom m k =
      (t : Table K V)
      → get_elem? m.shards (route_of keys m k) ≡ some t
      → Sparse keys (hash_of keys m) 64 t.slots (hash_of keys m k)

  pub put_shard-IsSpread :
      {m : Map S K V} (v : IsValidMap keys m) (k : K) (t : Table K V)
      → Spread keys (hash_of keys m) 64 t.slots
      → IsSpread m
      → IsSpread (put_shard m k t)
  unfolding IsSpread
  put_shard-IsSpread {m} v k t mine all i s e = elim (Bool-cases (route_of keys m k == i)) [
    | inl here ↦
        subst (λ z. Spread keys (hash_of keys m) 64 z.slots)
          (some-injective _ _ (
            sym (get_elem?-set_self m.shards (route_of keys m k) t (route_below keys v k))
            ∙ ap (get_elem? (set m.shards (route_of keys m k) t))
                ((==_iff (route_of keys m k) i).0 here)
            ∙ e))
          mine
    | inr apart ↦
        all i s (sym (get_elem?-set_ne m.shards (route_of keys m k) i t (λ z. ground arith)) ∙ e)
  ]
