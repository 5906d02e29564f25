-- ===== src/Tests/ShardmapRuns.antt =====
-- internal/shardmap on small tables, with the identity for a hash.
use mathlib.Core.Path.{subst}
use mathlib.Core.Option.{some-injective}
use cachemoney.Shardmap.Routing.{range_map, range_shards, range_slots}
use cachemoney.Shardmap.Routing.Visits.{adding, only, weight_if, range_map_visits}
use cachemoney.Base.Int.{pos}
use cachemoney.Shardmap.Options.{
  with_shards, with_seed, next_pow2, pow_loop, log2_power_of_2, log2_loop,
}
use cachemoney.Shardmap.Routing.{Map, new, route_of, swap_value, set_value, delete_key}
use cachemoney.Shardmap.Routing.Valid.{IsValidMap, view_map, get_elem?-replicate}
use cachemoney.Shardmap.Routing.Promise.{
  Puts, Drops, swap_refines, set_value_refines, delete_key_refines,
}
use cachemoney.Shardmap.Routing.Opening.{Opens, new-Opens}
use cachemoney.Shardmap.Sample.{
  SampleEntry, sample, sample_loop, sample_shard, sample_slot, scan_slots, keep_entry, seen,
}
use cachemoney.Shardmap.Sample.Distinct.{IsSample, sample-IsSample}
use cachemoney.Shardmap.Table.Cyclic.{mod-lt_lem}
use cachemoney.Shardmap.Table.{cap_for, too_small}
use cachemoney.Shardmap.Table.Mass.{mass}
use cachemoney.Shardmap.Table.Window.{few-Sparse, few-Spread}
use cachemoney.Shardmap.Routing.{growths}
use cachemoney.Shardmap.Routing.Refine.{HasRoom, IsSpread}
use cachemoney.Base.{List, replicate, ◌*◌, ◌^◌, ◌%◌, ◌<◌, length}
use cachemoney.Base.{
  ◌≤◌, none, zero, suc, ap, false, if◌then◌else◌, ℕ, sym, ◌∙◌, ◌≡◌, refl, Option, some, [], ◌∷◌,
  arith, ◌==◌, ==_iff,
}
use cachemoney.Shardmap.Meta.{frag_of, pack_meta, dib_of, meta_frag}
use cachemoney.Shardmap.Table.{
  Keys, Slot, Table, vacant, alloc, insert, delete, lookup, new_table, find, grow, resize, set_item,
  place, place_loop, finish, probe, remove_at, shift_loop, shrink,
}
use cachemoney.Shardmap.Table.Valid.{IsValid, Describes, lookup_total}
use cachemoney.Shardmap.Table.Grow.{alloc-IsValid}
use cachemoney.Shardmap.Table.Contract.{Inserts, Deletes}
use cachemoney.Shardmap.Table.View.{view, with_key, count_with}
use cachemoney.Shardmap.Table.Crowd.{insert_never}
use cachemoney.Shardmap.Table.Promise.{new_table-Starts, insert_refines, delete_refines}

abbrev nats : Keys ℕ ℕ
nats = record { beq = λ a b. a == b; beq_iff = ==_iff; zero_key = 0; zero_val = 0 }

abbrev same : ℕ → ℕ
same k = k

abbrev empty_table : Table ℕ ℕ
empty_table = alloc nats 8

empty_valid : IsValid nats same empty_table
empty_valid = alloc-IsValid nats same 3 (omega arith)

-- The table of one entry, key 5 with value 70.
first :
    (t : Table ℕ ℕ) × (insert nats 1 empty_table 5 5 70 ≡ some t)
    × Inserts nats same empty_table 5 70 t
unfolding alloc mass
first =
    insert_refines nats same 0 3 empty_table 5 70 empty_valid
      (few-Sparse nats same 3 empty_table.slots 5 (omega arith)) (omega arith)

abbrev gap : Slot ℕ ℕ
gap = vacant nats

abbrev slot_of : ℕ → ℕ → ℕ → Slot ℕ ℕ
slot_of meta k v = record { meta = meta; key = k; val = v; hash = k }

abbrev one_entry : Table ℕ ℕ
one_entry = record {
  slots = gap ∷ gap ∷ gap ∷ gap ∷ gap ∷ slot_of 261 5 70 ∷ gap ∷ gap ∷ [];
  count = 1;
  capm1 = 7;
  grow_at = 6;
}

first_run : insert nats 1 empty_table 5 5 70 ≡ some one_entry
unfolding insert grow resize set_item place place_loop finish alloc frag_of pack_meta
first_run = refl

one_valid : IsValid nats same one_entry
one_valid =
    let (t, e, h) = first in
    subst (IsValid nats same) (some-injective _ _ (sym e ∙ first_run)) h.valid

-- Key 13 has the home of key 5, and goes one slot further.
abbrev two_entries : Table ℕ ℕ
two_entries = record {
  slots = gap ∷ gap ∷ gap ∷ gap ∷ gap ∷ slot_of 261 5 70 ∷ slot_of 525 13 80 ∷ gap ∷ [];
  count = 2;
  capm1 = 7;
  grow_at = 6;
}

second_run : insert nats 1 one_entry 13 13 80 ≡ some two_entries
unfolding insert grow resize set_item place place_loop finish alloc frag_of pack_meta dib_of
    meta_frag
second_run = refl

insert_refines_example :
    (t : Table ℕ ℕ) × (insert nats 1 one_entry 13 13 80 ≡ some t)
    × Inserts nats same one_entry 13 80 t
insert_refines_example =
    insert_refines nats same 0 3 one_entry 13 80 one_valid
      (few-Sparse nats same 3 one_entry.slots 13 (omega (arith, one_valid.counted))) (omega arith)

two_valid : IsValid nats same two_entries
two_valid =
    let (t, e, h) = insert_refines_run in
    subst (IsValid nats same) (some-injective _ _ (sym e ∙ second_run)) h.valid
  where
    insert_refines_run :
        (t : Table ℕ ℕ) × (insert nats 1 one_entry 13 13 80 ≡ some t)
        × Inserts nats same one_entry 13 80 t
    insert_refines_run =
        insert_refines nats same 0 3 one_entry 13 80 one_valid
          (few-Sparse nats same 3 one_entry.slots 13 (omega (arith, one_valid.counted)))
          (omega arith)

-- Deleting key 5 moves key 13 home.
delete_run :
    delete nats 2 two_entries 5 5
    ≡ some (
      record {
        slots = gap ∷ gap ∷ gap ∷ gap ∷ gap ∷ slot_of 269 13 80 ∷ gap ∷ gap ∷ [];
        count = 1;
        capm1 = 7;
        grow_at = 6;
      },
      some 70,
    )
unfolding delete find probe remove_at shift_loop shrink frag_of pack_meta dib_of meta_frag
delete_run = refl

delete_refines_example :
    (r : Table ℕ ℕ × Option ℕ) × (delete nats 2 two_entries 5 5 ≡ some r)
    × Deletes nats same two_entries 5 r
delete_refines_example =
    delete_refines nats same 0 3 two_entries 5 two_valid
      (few-Spread nats same 3 two_entries.slots (omega (arith, two_valid.counted))) (omega arith)

lookup_total_example :
    (o : Option ℕ) × (lookup nats two_entries 13 13 ≡ some o)
    × Describes nats same two_entries.slots 13 o
lookup_total_example = lookup_total nats same two_valid 13

-- Every key has the hash 0.
abbrev zero_hash : ℕ → ℕ
zero_hash k = 0

-- A table of the keys below `n`, all of one hash.
abbrev Crowded : ℕ → Type 0
Crowded n =
    (t : Table ℕ ℕ) × IsValid nats zero_hash t
    × (t.count ≡ n)
    × ((q : ℕ) → n ≤ q → view nats zero_hash t q ≡ none)

crowd_more : (n : ℕ) → n ≤ 254 → Crowded n → Crowded (suc n)
unfolding with_key
crowd_more n h (t, v, counted, fresh) =
    let size = v.size in
    let (t', e, done) =
      insert_refines nats zero_hash 0 v.power t n 1 v
        (few-Sparse nats zero_hash v.power t.slots 0 (omega (arith, v.counted, counted, h)))
        (omega arith) in
    let shows = done.shows in
    let counts = done.counts in
    (
      t',
      done.valid,
      counts
          ∙ ap (λ o. count_with nats zero_hash o t.count) (fresh n (omega arith))
          ∙ ap suc counted,
      λ q far.
          let apart : (n == q) ≡ false = ground arith in
          ap (λ m. m q) shows
          ∙ ap (λ b. if b then some 1 else view nats zero_hash t q) apart
          ∙ fresh q (omega arith),
    )

crowd_of : (n : ℕ) → n ≤ 255 → Crowded n
crowd_of zero h =
    let (t, e, s) = new_table-Starts nats zero_hash 0 (omega arith) in
    (t, s.valid, s.counts, λ q far. ap (λ m. m q) s.shows)
crowd_of (suc n) h = crowd_more n (omega arith) (crowd_of n (omega arith))

insert_never_example : insert nats 7 ((crowd_of 255 (omega arith)).0) 0 255 1 ≡ none
insert_never_example =
    insert_never nats zero_hash 7 ((crowd_of 255 (omega arith)).0) 255 1
      ((crowd_of 255 (omega arith)).1)
      (sym (crowd_of 255 (omega arith)).1.counted ∙ (crowd_of 255 (omega arith)).2)
      ((crowd_of 255 (omega arith)).3 255 (omega arith))

-- Every home is slot 0, and the last two bits of the key choose the shard.
abbrev spread : ℕ → ℕ → ℕ
spread seed k = k * 2 ^ 62 % 2 ^ 64

spread_words : (s k : ℕ) → spread s k < 2 ^ 64
spread_words s k = mod-lt_lem (k * 2 ^ 62) (2 ^ 64) (omega arith)

abbrev four_shards : Map ℕ ℕ ℕ
four_shards = record {
  shards = replicate 4 empty_table;
  seed = 9;
  hasher = spread;
  shard_shift = 62;
}

new_run : new nats 2 1 (some spread) (with_shards (pos 3) ∷ with_seed 9 ∷ []) ≡ some four_shards
unfolding new next_pow2 pow_loop log2_power_of_2 log2_loop new_table cap_for too_small alloc
new_run = refl

new-Opens_example :
    (m : Map ℕ ℕ ℕ) × (new nats 2 1 (some spread) (with_shards (pos 3) ∷ with_seed 9 ∷ []) ≡ some m)
    × Opens nats m
    × (3 ≤ length m.shards)
new-Opens_example =
    new-Opens nats 2 1 spread (with_shards (pos 3) ∷ with_seed 9 ∷ []) (omega arith) spread_words
      (omega arith) (omega arith)

four_valid : IsValidMap nats four_shards
four_valid =
    let (m, e, h, _) =
      new-Opens nats 2 1 spread (with_shards (pos 3) ∷ with_seed 9 ∷ []) (omega arith) spread_words
        (omega arith) (omega arith) in
    subst (IsValidMap nats) (some-injective _ _ (sym e ∙ new_run)) h.valid

four_empty : (k : ℕ) → HasRoom nats four_shards k
unfolding HasRoom alloc mass
four_empty k t e =
    let same =
      ap (λ z. mass nats (λ q u. 1) z.slots)
        (get_elem?-replicate 4 (route_of nats four_shards k) empty_table t e) in
    few-Sparse nats (spread 9) 64 t.slots (spread 9 k) (omega (arith, same))

swap_refines_example :
    (m : Map ℕ ℕ ℕ) × (swap_value nats growths four_shards 6 70
      ≡ some (m, view_map nats four_shards 6))
    × Puts nats four_shards 6 70 m
swap_refines_example = swap_refines nats four_shards 6 70 four_valid (four_empty 6)

-- Key 6 lies in shard 2.
abbrev six_table : Table ℕ ℕ
six_table = record {
  slots = record { meta = 256; key = 6; val = 70; hash = 2 ^ 63 } ∷ replicate 7 gap;
  count = 1;
  capm1 = 7;
  grow_at = 6;
}

abbrev six_shards : Map ℕ ℕ ℕ
six_shards = record four_shards {
  shards = empty_table ∷ empty_table ∷ six_table ∷ empty_table ∷ [];
}

set_run : set_value nats growths four_shards 6 70 ≡ some six_shards
unfolding set_value insert grow resize set_item place place_loop finish alloc frag_of pack_meta
    dib_of meta_frag
set_run = refl

six_valid : IsValidMap nats six_shards
six_valid =
    let (m, e, h) = set_value_refines nats four_shards 6 70 four_valid (four_empty 6) in
    subst (IsValidMap nats) (some-injective _ _ (sym e ∙ set_run)) h.valid

four_spread : IsSpread nats four_shards
unfolding IsSpread alloc mass
four_spread i t e =
    let same = ap (λ z. mass nats (λ q u. 1) z.slots) (get_elem?-replicate 4 i empty_table t e) in
    few-Spread nats (spread 9) 64 t.slots (omega (arith, same))

six_few : IsSpread nats six_shards
six_few =
    let (m, e, h) = set_value_refines nats four_shards 6 70 four_valid (four_empty 6) in
    subst (IsSpread nats) (some-injective _ _ (sym e ∙ set_run)) (h.spread four_spread)

delete_key_refines_example :
    (m : Map ℕ ℕ ℕ) × (delete_key nats growths six_shards 6 ≡ some (m, view_map nats six_shards 6))
    × Drops nats six_shards 6 m
delete_key_refines_example = delete_key_refines nats six_shards 6 six_valid six_few

-- A source that always draws 2 finds the one entry, by the forward scan, once.
sample-IsSample_example :
    (r : List (SampleEntry ℕ ℕ)) × (sample nats (λ j. 2) six_shards (pos 3) ≡ some r)
    × IsSample nats (λ j. 2) six_shards 3 r
sample-IsSample_example = sample-IsSample nats (λ j. 2) six_shards six_valid (pos 3)

sample_run : sample nats (λ j. 2) six_shards (pos 3) ≡ some (record { key = 6; val = 70 } ∷ [])
unfolding sample sample_loop sample_shard sample_slot scan_slots keep_entry seen
sample_run = refl

range_map_visits_example :
    range_map (adding (only nats 6 (λ u. u))) six_shards 0
    ≡ weight_if nats (λ u. u) (view_map nats six_shards 6)
range_map_visits_example = range_map_visits nats six_shards 6 (λ u. u) six_valid

range_run : range_map (adding (only nats 6 (λ u. u))) six_shards 0 ≡ 70
unfolding range_shards range_slots alloc
range_run = refl
