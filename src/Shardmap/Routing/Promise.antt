-- ===== src/Shardmap/Routing/Promise.antt =====
-- A sharded map as a finite map: what Set, Swap and Delete do to it, and what Len says.
use cachemoney.Base.{
  ℕ, ◌+◌, ◌<◌, ◌≡◌, ◌≢◌, refl, sym, ap, ◌∙◌, false, Option, none, some, arith, if◌then◌else◌,
  get_elem?, Bool-cases, inl, inr,
}
use cachemoney.Base.Results.{bind}
use cachemoney.Base.{◌^◌}
use cachemoney.Shardmap.Table.Effect.{forgets}
use cachemoney.Shardmap.Table.Window.{Sparse, Spread, crowding}
use cachemoney.Shardmap.Routing.{growths}
use cachemoney.Shardmap.Routing.Refine.{
  mass_all, mass_all-set, IsSpread, HasRoom, put_shard-IsSpread, growths-reach,
}
use cachemoney.Shardmap.Table.{Keys, Table, insert, lookup, delete}
use cachemoney.Shardmap.Table.Valid.{lookup_total}
use cachemoney.Shardmap.Table.View.{view, shown, with_key, without_key, count_with, count_without}
use cachemoney.Shardmap.Routing.{Map, hash_of, route_of, len_of}
use cachemoney.Shardmap.Table.Contract.{Inserts, Deletes}
use cachemoney.Shardmap.Table.Promise.{insert_refines, delete_refines}
use cachemoney.Shardmap.Routing.{set_value, swap_value, delete_key}
use cachemoney.Shardmap.Routing.Valid.{IsValidMap, view_map, shard_of, view_in}
use cachemoney.Shardmap.Table.View.{shown_positive}
use cachemoney.Shardmap.Routing.Refine.{put_shard, put_shard-IsValidMap, view-put_shard, count-set}

module _ {S K V : Type 0} (keys : Keys K V) where
  -- `m'` is `m` with the value `u` for the key `k`, and no other change.
  pub record Puts (m : Map S K V) (k : K) (u : V) (m' : Map S K V) : Type 0 where
    pub valid : IsValidMap keys m'
    pub shows : view_map keys m' ≡ with_key keys (hash_of keys m) k u (view_map keys m)
    pub counts : len_of m' ≡ count_with keys (hash_of keys m) (view_map keys m k) (len_of m)
    pub spread : IsSpread keys m → IsSpread keys m'
    pub sum :
        (w : K → V → ℕ)
        → mass_all keys w m'.shards + forgets keys (hash_of keys m) w k (view_map keys m k)
          ≡ mass_all keys w m.shards + w k u

  -- `m'` is `m` without the key `k`, and no other change.
  pub record Drops (m : Map S K V) (k : K) (m' : Map S K V) : Type 0 where
    pub valid : IsValidMap keys m'
    pub shows : view_map keys m' ≡ without_key keys (hash_of keys m) k (view_map keys m)
    pub counts : len_of m' ≡ count_without keys (hash_of keys m) (view_map keys m k) (len_of m)
    pub spread : IsSpread keys m → IsSpread keys m'
    pub sum :
        (w : K → V → ℕ)
        → mass_all keys w m'.shards + forgets keys (hash_of keys m) w k (view_map keys m k)
          ≡ mass_all keys w m.shards

  routed_apart :
      (m : Map S K V) (k q : K) → route_of keys m k ≢ route_of keys m q → keys.beq k q ≡ false
  routed_apart m k q apart = elim (Bool-cases (keys.beq k q)) [
    | inl same ↦ absurd (apart (ap (route_of keys m) ((keys.beq_iff k q).0 same)))
    | inr differ ↦ differ
  ]

  put_shard-Puts :
      {m : Map S K V} (v : IsValidMap keys m) (k : K) (u : V) (t t' : Table K V)
      → get_elem? m.shards (route_of keys m k) ≡ some t
      → Sparse keys (hash_of keys m) 64 t.slots (hash_of keys m k)
      → Inserts keys (hash_of keys m) t k u t'
      → Puts m k u (put_shard keys m k t')
  unfolding with_key Sparse Spread
  put_shard-Puts {m} v k u t t' at_k sparse done =
      let own = v.own (route_of keys m k) t at_k in
      let valid = put_shard-IsValidMap keys v k t' done.valid (
        done.every (λ q z. route_of keys m q ≡ route_of keys m k) (λ x taken apart. own x taken)
          refl) in
      record {
        valid = valid;
        shows = λ i q. pointwise valid q i;
        counts =
            by_old (view keys (hash_of keys m) t k) done.counts
              (count-set m.shards (route_of keys m k) t t' at_k)
            ∙ ap (λ o. count_with keys (hash_of keys m) o (len_of m))
                (sym (view_in keys v k t at_k));
        spread = put_shard-IsSpread keys v k t' (λ x.
            let all = sparse x in
            let moved = done.sum (crowding keys (hash_of keys m) (2 ^ 64) x) in
            omega (arith, all, moved));
        sum = λ w.
            let moved = mass_all-set keys w m.shards (route_of keys m k) t t' at_k in
            let shard = done.sum w in
            let old = ap (forgets keys (hash_of keys m) w k) (view_in keys v k t at_k) in
            omega (arith, moved, shard, old);
      }
    where
      pointwise :
          IsValidMap keys (put_shard keys m k t')
          → (q : K)
          → view_map keys (put_shard keys m k t') q
            ≡ (if keys.beq k q then some u else view_map keys m q)
      pointwise valid q = elim (view-put_shard keys v k q t t' at_k valid) [
        | inl (same, after, before) ↦
            after
            ∙ ap (λ f. f q) done.shows
            ∙ ap (λ o. if keys.beq k q then some u else o) (sym before)
        | inr (apart, after) ↦
            after
            ∙ sym (ap (λ b. if b then some u else view_map keys m q) (routed_apart m k q apart))
      ]

      by_old :
          (o : Option V)
          → t'.count ≡ count_with keys (hash_of keys m) o t.count
          → len_of (put_shard keys m k t') + t.count ≡ len_of m + t'.count
          → len_of (put_shard keys m k t') ≡ count_with keys (hash_of keys m) o (len_of m)
      by_old none e sum = omega arith
      by_old (some old) e sum = omega arith

  put_shard-Drops :
      {m : Map S K V} (v : IsValidMap keys m) (k : K) (t : Table K V) (r : Table K V × Option V)
      → get_elem? m.shards (route_of keys m k) ≡ some t
      → Deletes keys (hash_of keys m) t k r
      → Drops m k (put_shard keys m k r.0)
  unfolding without_key Spread IsSpread
  put_shard-Drops {m} v k t r at_k done =
      let valid = put_shard-IsValidMap keys v k r.0 done.valid (
        done.every (λ q z. route_of keys m q ≡ route_of keys m k)
          (v.own (route_of keys m k) t at_k)) in
      record {
        valid = valid;
        shows = λ i q. pointwise valid q i;
        counts =
            by_old (view keys (hash_of keys m) t k)
              (shown_positive keys (hash_of keys m) (v.tables (route_of keys m k) t at_k) k)
              done.counts (count-set m.shards (route_of keys m k) t r.0 at_k)
            ∙ ap (λ o. count_without keys (hash_of keys m) o (len_of m))
                (sym (view_in keys v k t at_k));
        spread = λ all.
            put_shard-IsSpread keys v k r.0
              (λ x.
                let mine = all (route_of keys m k) t at_k x in
                let moved = done.sum (crowding keys (hash_of keys m) (2 ^ 64) x) in
                omega (arith, mine, moved))
              all;
        sum = λ w.
            let moved = mass_all-set keys w m.shards (route_of keys m k) t r.0 at_k in
            let shard = done.sum w in
            let old = ap (forgets keys (hash_of keys m) w k) (view_in keys v k t at_k) in
            omega (arith, moved, shard, old);
      }
    where
      pointwise :
          IsValidMap keys (put_shard keys m k r.0)
          → (q : K)
          → view_map keys (put_shard keys m k r.0) q
            ≡ (if keys.beq k q then none else view_map keys m q)
      pointwise valid q = elim (view-put_shard keys v k q t r.0 at_k valid) [
        | inl (same, after, before) ↦
            after
            ∙ ap (λ f. f q) done.shows
            ∙ ap (λ o. if keys.beq k q then none else o) (sym before)
        | inr (apart, after) ↦
            after ∙ sym (ap (λ b. if b then none else view_map keys m q) (routed_apart m k q apart))
      ]

      by_old :
          (o : Option V)
          → ((u : V) → o ≡ some u → 0 < t.count)
          → r.0.count ≡ count_without keys (hash_of keys m) o t.count
          → len_of (put_shard keys m k r.0) + t.count ≡ len_of m + r.0.count
          → len_of (put_shard keys m k r.0) ≡ count_without keys (hash_of keys m) o (len_of m)
      by_old none h e sum = omega arith
      by_old (some old) h e sum = let some_there = h old refl in omega arith

  -- On a valid map with room for the key in its shard, `Swap` returns the value that the key had, if
  -- any, and a valid map. It shows the new value for that key and no other change, and `Len` is one
  -- more exactly if the key was not there. There is room if no 256 of the shard's entries and the key
  -- have hashes within 255 of one another, in a row that may pass 2 ^ 64.
  pub swap_refines :
      (m : Map S K V) (k : K) (u : V)
      → IsValidMap keys m
      → HasRoom keys m k
      → (m' : Map S K V) × (swap_value keys growths m k u ≡ some (m', view_map keys m k))
        × Puts m k u m'
  unfolding swap_value HasRoom
  swap_refines m k u v few =
      let (t, at_k) = shard_of keys v k in
      let h : ℕ = hash_of keys m k in
      let valid = v.tables (route_of keys m k) t at_k in
      let (o, looked, _) = lookup_total keys (hash_of keys m) valid k in
      let (t', e, done) =
        insert_refines keys (hash_of keys m) 62 64 t k u valid (few t at_k)
          (growths-reach keys (hash_of keys m) valid 62 (omega arith)) in
      let shows : o ≡ view_map keys m k =
        sym (view_in keys v k t at_k ∙ ap (shown keys (hash_of keys m)) looked) in
      (
        put_shard keys m k t',
        ap
              (λ z. bind z (λ t. bind (lookup keys t h k) (λ old.
                bind (insert keys growths t h k u) (λ t'. some (put_shard keys m k t', old)))))
              at_k
            ∙ ap
                (λ z. bind z (λ old.
                  bind (insert keys growths t h k u) (λ t'. some (put_shard keys m k t', old))))
                looked
            ∙ ap (λ z. bind z (λ t'. some (put_shard keys m k t', o))) e
            ∙ ap (λ z. some (put_shard keys m k t', z)) shows,
        put_shard-Puts v k u t t' at_k (few t at_k) done,
      )

  -- Under the same conditions `Set` returns a valid map that shows the new value for the key and no
  -- other change.
  pub set_value_refines :
      (m : Map S K V) (k : K) (u : V)
      → IsValidMap keys m
      → HasRoom keys m k
      → (m' : Map S K V) × (set_value keys growths m k u ≡ some m') × Puts m k u m'
  unfolding set_value HasRoom
  set_value_refines m k u v few =
      let (t, at_k) = shard_of keys v k in
      let h : ℕ = hash_of keys m k in
      let valid = v.tables (route_of keys m k) t at_k in
      let (t', e, done) =
        insert_refines keys (hash_of keys m) 62 64 t k u valid (few t at_k)
          (growths-reach keys (hash_of keys m) valid 62 (omega arith)) in
      (
        put_shard keys m k t',
        ap
              (λ z.
                bind z
                  (λ t. bind (insert keys growths t h k u) (λ t'. some (put_shard keys m k t'))))
              at_k
            ∙ ap (λ z. bind z (λ t'. some (put_shard keys m k t'))) e,
        put_shard-Puts v k u t t' at_k (few t at_k) done,
      )

  -- On a valid map in which no 256 entries of a shard have hashes within 255 of one another, `Delete`
  -- returns the value that the key had, if any, and a valid map. It shows no value for that key and no
  -- other change, and `Len` is one less exactly if the key was there.
  pub delete_key_refines :
      (m : Map S K V) (k : K)
      → IsValidMap keys m
      → IsSpread keys m
      → (m' : Map S K V) × (delete_key keys growths m k ≡ some (m', view_map keys m k))
        × Drops m k m'
  unfolding delete_key IsSpread
  delete_key_refines m k v few =
      let (t, at_k) = shard_of keys v k in
      let h : ℕ = hash_of keys m k in
      let valid = v.tables (route_of keys m k) t at_k in
      let (r, e, done) =
        delete_refines keys (hash_of keys m) 61 64 t k valid (few (route_of keys m k) t at_k)
          (growths-reach keys (hash_of keys m) valid 61 (omega arith)) in
      (
        put_shard keys m k r.0,
        ap
              (λ z. bind z (λ t.
                bind (delete keys growths t h k) (λ (t', old). some (put_shard keys m k t', old))))
              at_k
            ∙ ap (λ z. bind z (λ (t', old). some (put_shard keys m k t', old))) e
            ∙ ap (λ z. some (put_shard keys m k r.0, z))
                (done.removed ∙ sym (view_in keys v k t at_k)),
        put_shard-Drops v k t r at_k done,
      )
