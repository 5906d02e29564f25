-- ===== src/Tests/CacheRuns.antt =====
-- internal/cache over an association list: a cache with two entries, at its ceiling.
use cachemoney.Base.{
  ℕ, ◌+◌, ◌≤◌, ◌≡◌, refl, ◌⊎◌, inl, inr, ◌↔◌, true, false, not, ◌&&◌, none, some, [], ◌∷◌, All,
  arith, if◌then◌else◌, codes, bytes_eq, length,
}
use cachemoney.Base.Int.{pos, ltb_ℤ, ◌+ℤ◌, ◌-ℤ◌, ◌≤ℤ◌}
use cachemoney.Cache.Entry.{Bytes, Entry, new_entry, expired, cost_of}
use cachemoney.Cache.Policies.{
  EvictionPolicy, is_policy, parse_policy, policy_name, parse_policy_name,
}
use cachemoney.Cache.Store.{total}
use cachemoney.Cache.Engine.{
  Cache, oom, get_value, set_value, del, pick_victim, pick_loop, rejects, excluded, store_entry,
  old_cost,
}
use cachemoney.Cache.Engine.Victims.{IsAccounted, entry_cost}
use cachemoney.Cache.Engine.Guards.{del_lem, set_value_noeviction}
use cachemoney.Cache.Engine.Reads.{Offered, get_value-set_value, pick_victim_least}
use cachemoney.Cache.Accounting.{
  Shared, here, next, swapped, deleted, added, IsBalanced, sum, usage_exact,
}
use cachemoney.Tests.ListStore.{Bindings, list_store, get, delete, IsDistinct}
use cachemoney.TinyLfu.Policy

abbrev forever : Entry
forever = record { value = codes "one"; expires_at = none }

abbrev limited : Entry
limited = record { value = codes "two"; expires_at = some (pos 100) }

abbrev two_entries : Bindings
two_entries = (codes "a", forever) ∷ (codes "b", limited) ∷ []

-- A hash under the fingerprint seed.
abbrev by_length : Bytes → ℕ
by_length k = length k

abbrev lfu : Policy.Policy
lfu = Policy.new 1 (record { counters = pos 16; stripes = pos 1; ring_depth = pos 4; seed = 3 })

-- Two entries of 68 bytes each, under a ceiling of 150.
abbrev cache_with : EvictionPolicy → Cache Bindings
cache_with pol = record {
  m = two_entries;
  policy = lfu;
  policy_seed = 3;
  usage = pos 136;
  maxmemory = pos 150;
  evict_pol = pol;
  policy_counters = pos 1024;
  hits = 0;
  misses = 0;
  evictions = 0;
}

abbrev under_lfu : Cache Bindings
under_lfu = cache_with EvictionPolicy.all_keys_lfu

abbrev under_noeviction : Cache Bindings
under_noeviction = cache_with EvictionPolicy.no_eviction

accounted : (pol : EvictionPolicy) → IsAccounted list_store by_length (cache_with pol)
unfolding IsDistinct get cost_of bytes_eq
accounted pol = record { valid = (refl, (refl, tt)); exact = refl }

abbrev draws : ℕ → ℕ → ℕ
draws i j = i + j

del_lem_example :
    let (c', a) = del list_store by_length under_lfu none (codes "b") (pos 200) in
    IsAccounted list_store by_length c'
    × ((j : Bytes) → get c'.m j ≡ (if bytes_eq (codes "b") j then none else get two_entries j))
    × ((get two_entries (codes "b") ≡ none) × (a ≡ inr false)
        ⊎ ((e : Entry) × (get two_entries (codes "b") ≡ some e)
            × (a ≡ inr (not (expired e (pos 200))))))
del_lem_example =
    del_lem list_store by_length under_lfu (codes "b") (pos 200)
      (accounted EvictionPolicy.all_keys_lfu)

rejected :
    set_value list_store by_length draws under_noeviction none
      (codes "c")
      (codes "three")
      (pos 0)
      (pos 5)
    ≡ some (under_noeviction, inl oom)
unfolding set_value rejects get cost_of bytes_eq new_entry is_policy ◌-ℤ◌
rejected = refl

set_value_noeviction_example : under_noeviction.usage ≤ℤ under_noeviction.maxmemory
unfolding is_policy
set_value_noeviction_example =
    set_value_noeviction list_store by_length draws under_noeviction under_noeviction (codes "c")
      (codes "three") (pos 0) (pos 5) (inl oom) (accounted EvictionPolicy.no_eviction) tt refl
      (omega arith) (omega arith) rejected

-- The cache after a shorter value for "a", which needs no room.
abbrev rewritten : Cache Bindings
rewritten =
    store_entry list_store by_length under_lfu (codes "a") (new_entry (codes "x") (pos 10) (pos 5))

stored :
    set_value list_store by_length draws under_lfu none (codes "a") (codes "x") (pos 10) (pos 5)
    ≡ some (rewritten, inr tt)
unfolding set_value rejects store_entry get delete cost_of bytes_eq new_entry is_policy ◌-ℤ◌
stored = refl

get_value-set_value_example :
    (get_value list_store by_length rewritten none (codes "a") (pos 20) false).1
    ≡ inr (
        if ltb_ℤ (pos 0) (pos 10) && not (ltb_ℤ (pos 20) (pos 5 +ℤ pos 10))
        then none
        else some (codes "x"))
get_value-set_value_example =
    get_value-set_value list_store by_length draws under_lfu rewritten (codes "a") (codes "x")
      (pos 10) (pos 5) (pos 20) false (accounted EvictionPolicy.all_keys_lfu) tt stored

only_b :
    pick_victim list_store by_length lfu EvictionPolicy.all_keys_lfu (some (codes "a")) two_entries
    ≡ some (codes "b")
unfolding pick_victim pick_loop is_policy excluded bytes_eq
only_b = refl

pick_victim_least_example :
    Offered list_store by_length (some (codes "a")) (codes "b") two_entries
    × All
        (λ x.
          (excluded (some (codes "a")) x.0 ≡ true)
          ⊎ (Policy.estimate lfu (by_length (codes "b")) ≤ Policy.estimate lfu (by_length x.0)))
        two_entries
unfolding is_policy
pick_victim_least_example =
    pick_victim_least list_store by_length lfu EvictionPolicy.all_keys_lfu (some (codes "a"))
      two_entries refl only_b

parse_policy_name_example :
    (parse_policy (codes "noeviction") ≡ some EvictionPolicy.no_eviction)
    ↔ (codes "noeviction" ≡ policy_name EvictionPolicy.no_eviction)
parse_policy_name_example = parse_policy_name (codes "noeviction") EvictionPolicy.no_eviction

-- One writer stores "c", another deletes "b", and then the first adds its delta.
abbrev start : Shared list_store by_length
start = record { m = two_entries; usage = pos 136; pending = [] }

start-IsBalanced : IsBalanced list_store by_length start
unfolding IsDistinct get cost_of bytes_eq ◌+ℤ◌ sum
start-IsBalanced = record { valid = (refl, (refl, tt)); balance = refl }

abbrev three : Entry
three = record { value = codes "three"; expires_at = none }

abbrev c_stored : Shared list_store by_length
c_stored = record start {
  m = (list_store.swap start.m (codes "c") three).0;
  pending =
      (pos (cost_of (codes "c") three.value)
        -ℤ pos (
            old_cost list_store by_length (codes "c")
              (list_store.swap start.m (codes "c") three).1))
      ∷ start.pending;
}

abbrev b_deleted : Shared list_store by_length
b_deleted = record c_stored {
  m = (list_store.delete c_stored.m (codes "b")).0;
  pending =
      (pos 0
        -ℤ pos (
            old_cost list_store by_length (codes "b") (list_store.delete c_stored.m (codes "b")).1))
      ∷ c_stored.pending;
}

abbrev c_added : Shared list_store by_length
c_added = record b_deleted {
  usage =
      b_deleted.usage
      +ℤ (pos (cost_of (codes "c") three.value)
          -ℤ pos (
              old_cost list_store by_length (codes "c")
                (list_store.swap start.m (codes "c") three).1));
  pending =
      (pos 0
        -ℤ pos (
            old_cost list_store by_length (codes "b") (list_store.delete c_stored.m (codes "b")).1))
      ∷ [];
}

usage_exact_example :
    IsBalanced list_store by_length c_added
    × (c_added.pending ≡ [] → c_added.usage ≡ pos (total entry_cost (list_store.entries c_added.m)))
usage_exact_example = usage_exact list_store by_length start-IsBalanced (
    next (next (next here (swapped start (codes "c") three tt)) (deleted c_stored (codes "b"))) (
      added b_deleted
        ((pos 0
            -ℤ pos (
                old_cost list_store by_length (codes "b")
                  (list_store.delete c_stored.m (codes "b")).1))
          ∷ [])
        []
        (pos (cost_of (codes "c") three.value)
          -ℤ pos (
              old_cost list_store by_length (codes "c")
                (list_store.swap start.m (codes "c") three).1))
        refl))
