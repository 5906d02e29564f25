-- ===== src/Shardmap/Routing/Valid.antt =====
-- The invariant of a sharded map, and the shard that a key is routed to.
use mathlib.Core.Option.{some-injective}
use native.Mathlib.Nat.{div-lt_iff_lt-mul, pow-suc}
use cachemoney.Base.{
  ℕ, zero, suc, ◌+◌, ◌-◌, ◌*◌, ◌/◌, ◌^◌, ◌≤◌, ◌<◌, ◌≡◌, ◌≢◌, refl, sym, ap, ◌∙◌, Option, some, List,
  [], ◌∷◌, arith, length, get_elem?, set, replicate,
}
use cachemoney.Base.Bits.{pow-positive}
use cachemoney.Base.Results.{bind}
use cachemoney.Shardmap.Table.{Keys, Table, lookup}
use cachemoney.Shardmap.Table.Mass.{Every}
use cachemoney.Shardmap.Table.Valid.{IsValid}
use cachemoney.Shardmap.Table.View.{view, shown}
use cachemoney.Shardmap.Routing.{Map, hash_of, route_of, get_value}

module _ {ℓ} {A : Type ℓ} where
  pub get_elem?-some : (xs : List A) (i : ℕ) → i < length xs → (a : A) × (get_elem? xs i ≡ some a)
  get_elem?-some [] i h = absurd (omega arith)
  get_elem?-some (x ∷ xs) zero h = (x, refl)
  get_elem?-some (x ∷ xs) (suc i) h = get_elem?-some xs i (omega arith)

  pub get_elem?-lt : (xs : List A) (i : ℕ) (a : A) → get_elem? xs i ≡ some a → i < length xs
  get_elem?-lt [] i a e = cc
  get_elem?-lt (x ∷ xs) zero a e = omega arith
  get_elem?-lt (x ∷ xs) (suc i) a e = let rest = get_elem?-lt xs i a e in omega arith

  pub get_elem?-set_self :
      (xs : List A) (i : ℕ) (a : A) → i < length xs → get_elem? (set xs i a) i ≡ some a
  get_elem?-set_self [] i a h = absurd (omega arith)
  get_elem?-set_self (x ∷ xs) zero a h = refl
  get_elem?-set_self (x ∷ xs) (suc i) a h = get_elem?-set_self xs i a (omega arith)

  pub get_elem?-set_ne :
      (xs : List A) (i j : ℕ) (a : A) → i ≢ j → get_elem? (set xs i a) j ≡ get_elem? xs j
  get_elem?-set_ne [] i j a h = refl
  get_elem?-set_ne (x ∷ xs) zero zero a h = absurd (h refl)
  get_elem?-set_ne (x ∷ xs) zero (suc j) a h = refl
  get_elem?-set_ne (x ∷ xs) (suc i) zero a h = refl
  get_elem?-set_ne (x ∷ xs) (suc i) (suc j) a h = get_elem?-set_ne xs i j a (λ e. h (ap suc e))

  pub get_elem?-replicate : (n i : ℕ) (a b : A) → get_elem? (replicate n a) i ≡ some b → a ≡ b
  get_elem?-replicate zero i a b e = cc
  get_elem?-replicate (suc n) zero a b e = some-injective _ _ e
  get_elem?-replicate (suc n) (suc i) a b e = get_elem?-replicate n i a b e

pow_split : (a b : ℕ) → 2 ^ (a + b) ≡ 2 ^ a * 2 ^ b
pow_split zero b = let e : 0 + b ≡ b = omega arith in ap (λ n. 2 ^ n) e ∙ omega arith
pow_split (suc a) b =
    let e : suc a + b ≡ suc (a + b) = omega arith in
    let rest = pow_split a b in
    let x₁ = pow-suc 2 (a + b) in
    let x₂ = pow-suc 2 a in
    ap (λ n. 2 ^ n) e
    ∙ x₁
    ∙ ap (λ n. n * 2) rest
    ∙ turn (2 ^ a) (2 ^ b)
    ∙ sym (ap (λ n. n * 2 ^ b) x₂)
  where
    turn : (x y : ℕ) → x * y * 2 ≡ x * 2 * y
    turn x y = grind arith

module _ {S K V : Type 0} (keys : Keys K V) where
  -- The shards are a power of two, the shift leaves their bits of a 64-bit hash, and each shard is a
  -- valid table of keys that are routed to it.
  pub record IsValidMap (m : Map S K V) : Type 0 where
    pub bits : ℕ
    pub few : bits ≤ 64
    pub size : length m.shards ≡ 2 ^ bits
    pub shift : m.shard_shift ≡ 64 - bits
    pub words : (k : K) → hash_of keys m k < 2 ^ 64
    pub tables :
        (i : ℕ) (t : Table K V) → get_elem? m.shards i ≡ some t → IsValid keys (hash_of keys m) t
    pub own :
        (i : ℕ) (t : Table K V)
        → get_elem? m.shards i ≡ some t
        → Every keys (λ q u. route_of keys m q ≡ i) t.slots

  -- The map that a sharded map stands for, as its lookups show it.
  abbrev pub view_map : Map S K V → K → Option V
  view_map m k = shown keys (hash_of keys m) (get_value keys m k)

  module _ {m : Map S K V} (v : IsValidMap m) where
    pub route_below : (k : K) → route_of keys m k < length m.shards
    route_below k =
        let whole : 2 ^ v.bits * 2 ^ m.shard_shift ≡ 2 ^ 64 =
          ap (λ s. 2 ^ v.bits * 2 ^ s) v.shift
          ∙ sym (pow_split v.bits (64 - v.bits))
          ∙ ap (λ n. 2 ^ n) (full v.bits v.few) in
        let word = v.words k in
        let below : hash_of keys m k / 2 ^ m.shard_shift < 2 ^ v.bits =
          (div-lt_iff_lt-mul (pow-positive m.shard_shift)).1 (omega (arith, whole, word)) in
        omega (arith, below, v.size)
      where
        full : (b : ℕ) → b ≤ 64 → b + (64 - b) ≡ 64
        full b h = omega arith

    -- The shard of a key.
    pub shard_of : (k : K) → (t : Table K V) × (get_elem? m.shards (route_of keys m k) ≡ some t)
    shard_of k = get_elem?-some m.shards (route_of keys m k) (route_below k)

    pub view_in :
        (k : K) (t : Table K V)
        → get_elem? m.shards (route_of keys m k) ≡ some t
        → view_map m k ≡ view keys (hash_of keys m) t k
    unfolding get_value
    view_in k t e =
        ap (λ o. shown keys (hash_of keys m) (bind o (λ t. lookup keys t (hash_of keys m k) k))) e
