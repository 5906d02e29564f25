-- ===== src/Cache/Backing.antt =====
-- internal/shardmap as the engine's backing map: the operations of `Map` over byte strings and entries
-- keep what `Store` promises. A call that does not return is given the map as it was, and no law says
-- anything of it.
use cachemoney.Base.{
  ℕ, ◌+◌, ◌≡◌, refl, sym, ap, ◌∙◌, Bool, true, Option, none, some, List, [], ◌∷◌, ◌++◌, arith, ◌==◌,
  if◌then◌else◌, All, Bool-cases, inl, inr, bytes_eq, bytes_eq_iff,
}
use cachemoney.Base.Int.{pos}
use mathlib.Core.Path.{subst}
use cachemoney.Cache.Entry.{Bytes, Entry}
use cachemoney.Cache.Store.{Store, total, weight_of}
use cachemoney.Shardmap.Table.{Keys, Slot, Table}
use cachemoney.Shardmap.Table.Mass.{mass, weigh}
use cachemoney.Shardmap.Table.View.{with_key, without_key}
use cachemoney.Shardmap.Table.Effect.{forgets}
use cachemoney.Shardmap.Routing.{
  Map, hash_of, swap_value, delete_key, growths, range_slots, range_shards, range_map,
}
use cachemoney.Shardmap.Routing.Valid.{IsValidMap, view_map}
use cachemoney.Shardmap.Routing.Refine.{IsSpread, HasRoom, mass_all}
use cachemoney.Shardmap.Routing.Promise.{Puts, Drops, swap_refines, delete_key_refines}
use cachemoney.Shardmap.Sample.{SampleEntry, sample}
use cachemoney.Shardmap.Sample.Distinct.{IsStored, sample-IsSample}

abbrev pub byte_keys : Keys Bytes Entry
byte_keys = record {
  beq = bytes_eq;
  beq_iff = bytes_eq_iff;
  zero_key = [];
  zero_val = record { value = []; expires_at = none };
}

-- The function that `Len` and the tests hand to Range, which keeps what it is called on.
abbrev pub keeping : List (Bytes × Entry) → Bytes → Entry → List (Bytes × Entry) × Bool
keeping out k e = (out ++ ((k, e) ∷ []), true)

pub total-append :
    (w : Bytes → Entry → ℕ) (xs ys : List (Bytes × Entry))
    → total w (xs ++ ys) ≡ total w xs + total w ys
total-append w [] ys = omega arith
total-append w ((k, e) ∷ xs) ys = let rest = total-append w xs ys in omega arith

abbrev pub pairs : List (SampleEntry Bytes Entry) → List (Bytes × Entry)
pairs [] = []
pairs (e ∷ rest) = (e.key, e.val) ∷ pairs rest

abbrev pub drawn : Option (List (SampleEntry Bytes Entry)) → List (Bytes × Entry)
drawn none = []
drawn (some out) = pairs out

kept_slots :
    (w : Bytes → Entry → ℕ) (slots : List (Slot Bytes Entry)) (out : List (Bytes × Entry))
    → (r : List (Bytes × Entry)) × (range_slots keeping slots out ≡ (r, true))
      × (total w r ≡ total w out + mass byte_keys w slots)
unfolding range_slots mass
kept_slots w [] out = (out, refl, omega arith)
kept_slots w (s ∷ slots) out = elim (Bool-cases (s.meta == 0)) [
  | inl free ↦
      let (r, e, sum) = kept_slots w slots out in
      let light : weigh byte_keys w s ≡ 0 = rw free refl in
      (r, rw free e, omega (arith, sum, light))
  | inr taken ↦
      let (r, e, sum) = kept_slots w slots (out ++ ((s.key, s.val) ∷ [])) in
      let heavy : weigh byte_keys w s ≡ w s.key s.val = rw taken refl in
      let more = total-append w out ((s.key, s.val) ∷ []) in
      (r, rw taken e, omega (arith, sum, heavy, more))
]

kept_shards :
    (w : Bytes → Entry → ℕ) (shards : List (Table Bytes Entry)) (out : List (Bytes × Entry))
    → total w (range_shards keeping shards out) ≡ total w out + mass_all byte_keys w shards
unfolding range_shards mass_all
kept_shards w [] out = omega arith
kept_shards w (t ∷ shards) out =
    let (r, e, sum) = kept_slots w t.slots out in
    let rest = kept_shards w shards r in rw e (omega (arith, rest, sum))

pub forgets-weight :
    (hf : Bytes → ℕ) (w : Bytes → Entry → ℕ) (k : Bytes) (o : Option Entry)
    → forgets byte_keys hf w k o ≡ weight_of w k o
forgets-weight hf w k none = refl
forgets-weight hf w k (some e) = refl

module _ {S : Type 0} where
  abbrev pub returned :
      Map S Bytes Entry
      → Option (Map S Bytes Entry × Option Entry)
      → Map S Bytes Entry × Option Entry
  returned m none = (m, none)
  returned m (some r) = r

  abbrev pub kept : Map S Bytes Entry → List (Bytes × Entry)
  kept m = range_map keeping m []

  abbrev pub IsReady : Map S Bytes Entry → Type 0
  IsReady m = IsValidMap byte_keys m × IsSpread byte_keys m

  pub total-kept :
      (w : Bytes → Entry → ℕ) (m : Map S Bytes Entry)
      → total w (kept m) ≡ mass_all byte_keys w m.shards
  total-kept w m = let all = kept_shards w m.shards [] in omega (arith, all)

  -- `Swap` of a key with room.
  pub record Swaps (m : Map S Bytes Entry) (k : Bytes) (e : Entry) : Type 0 where
    pub runs :
        swap_value byte_keys growths m k e ≡ some (returned m (swap_value byte_keys growths m k e))
    pub old : (returned m (swap_value byte_keys growths m k e)).1 ≡ view_map byte_keys m k
    pub puts : Puts byte_keys m k e (returned m (swap_value byte_keys growths m k e)).0

  pub swap-Swaps :
      (m : Map S Bytes Entry) (k : Bytes) (e : Entry)
      → IsReady m
      → HasRoom byte_keys m k
      → Swaps m k e
  swap-Swaps m k e (v, _) room =
      let (m', run, puts) = swap_refines byte_keys m k e v room in
      let same = ap (returned m) run in
      record {
        runs = run ∙ sym (ap some same);
        old = ap (λ r. r.1) same;
        puts = subst (Puts byte_keys m k e) (sym (ap (λ r. r.0) same)) puts;
      }

  pub record Removes (m : Map S Bytes Entry) (k : Bytes) : Type 0 where
    pub runs :
        delete_key byte_keys growths m k ≡ some (returned m (delete_key byte_keys growths m k))
    pub old : (returned m (delete_key byte_keys growths m k)).1 ≡ view_map byte_keys m k
    pub drops : Drops byte_keys m k (returned m (delete_key byte_keys growths m k)).0

  pub delete-Removes : (m : Map S Bytes Entry) (k : Bytes) → IsReady m → Removes m k
  delete-Removes m k (v, spread) =
      let (m', run, drops) = delete_key_refines byte_keys m k v spread in
      let same = ap (returned m) run in
      record {
        runs = run ∙ sym (ap some same);
        old = ap (λ r. r.1) same;
        drops = subst (Drops byte_keys m k) (sym (ap (λ r. r.0) same)) drops;
      }

  pub shown_puts :
      (m m' : Map S Bytes Entry) (k j : Bytes) (e : Entry)
      → view_map byte_keys m' ≡ with_key byte_keys (hash_of byte_keys m) k e (view_map byte_keys m)
      → view_map byte_keys m' j ≡ (if bytes_eq k j then some e else view_map byte_keys m j)
  unfolding with_key
  shown_puts m m' k j e shows = ap (λ f. f j) shows

  pub shown_drops :
      (m m' : Map S Bytes Entry) (k j : Bytes)
      → view_map byte_keys m' ≡ without_key byte_keys (hash_of byte_keys m) k (view_map byte_keys m)
      → view_map byte_keys m' j ≡ (if bytes_eq k j then none else view_map byte_keys m j)
  unfolding without_key
  shown_drops m m' k j shows = ap (λ f. f j) shows

  pub drawn_live :
      (m : Map S Bytes Entry) (draws : ℕ → ℕ) (out : List (SampleEntry Bytes Entry))
      → All (IsStored byte_keys draws m) out
      → All (λ c. view_map byte_keys m c.0 ≡ some c.1) (pairs out)
  drawn_live m draws [] live = tt
  drawn_live m draws (e ∷ out) (here, live) = (here, drawn_live m draws out live)

-- The map of internal/shardmap, with any hasher, keeps the laws that the engine relies on. Its `Swap`
-- has room for a key as long as no 256 hashes of a shard crowd together.
abbrev pub shard_store : Type 0 → Store
shard_store S = record {
  State = Map S Bytes Entry;
  get = view_map byte_keys;
  swap = λ m k e. returned m (swap_value byte_keys growths m k e);
  delete = λ m k. returned m (delete_key byte_keys growths m k);
  sample = λ m n draws. drawn (sample byte_keys draws m (pos n));
  entries = kept;
  IsValid = IsReady;
  HasRoom = HasRoom byte_keys;
  swap-IsValid =
      λ m k e v room. let s = swap-Swaps m k e v room in (s.puts.valid, s.puts.spread v.1);
  delete-IsValid = λ m k v. let s = delete-Removes m k v in (s.drops.valid, s.drops.spread v.1);
  swap_old = λ m k e v room. (swap-Swaps m k e v room).old;
  delete_old = λ m k v. (delete-Removes m k v).old;
  get-swap = λ m k e j v room. shown_puts m _ k j e (swap-Swaps m k e v room).puts.shows;
  get-delete = λ m k j v. shown_drops m _ k j (delete-Removes m k v).drops.shows;
  total-swap = λ w m k e v room.
      let s = (swap-Swaps m k e v room).puts.sum w in
      let x₁ = total-kept w (returned m (swap_value byte_keys growths m k e)).0 in
      let x₂ = total-kept w m in
      let x₃ = forgets-weight (hash_of byte_keys m) w k (view_map byte_keys m k) in
      omega (arith, s, x₁, x₂, x₃);
  total-delete = λ w m k v.
      let s = (delete-Removes m k v).drops.sum w in
      let x₁ = total-kept w (returned m (delete_key byte_keys growths m k)).0 in
      let x₂ = total-kept w m in
      let x₃ = forgets-weight (hash_of byte_keys m) w k (view_map byte_keys m k) in
      omega (arith, s, x₁, x₂, x₃);
  sample_live = λ m n draws v.
      let (out, e, h) = sample-IsSample byte_keys draws m v.0 (pos n) in
      subst (λ o. All (λ c. view_map byte_keys m c.0 ≡ some c.1) (drawn o)) (sym e)
        (drawn_live m draws out h.stored);
}
