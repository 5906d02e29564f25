-- ===== src/Cache/Engine/Guards.antt =====
-- Deletion, cancelled contexts, the noeviction guard and the live settings.
use cachemoney.Base.{
  ℕ, ◌≤◌, ◌≡◌, refl, ap, ◌∙◌, ◌⊎◌, inl, inr, Bool, true, false, not, none, some, arith,
  if◌then◌else◌, Bool-cases, Option-cases, bytes_eq,
}
use cachemoney.Base.Int.{ℤ, pos, ◌-ℤ◌, ◌≤ℤ◌, int_laws, eq_of_parts, +ℤ_parts}
use cachemoney.Cache.Entry.{Bytes, Entry, expired, new_entry, cost_of}
use cachemoney.Cache.Policies.{EvictionPolicy, is_policy}
use cachemoney.Cache.Store.{Store}
use cachemoney.Cache.Engine.{
  Cache, cancelled, Answer, store_entry, rejects, old_cost, set_value, del, get_value, ttl, len,
  counters_for, policy_counters_min, policy_counters_max,
}
use cachemoney.Cache.Engine.Victims.{IsAccounted, entry_cost}

-- The sketch is sized between 1024 and 2^22 counters for every ceiling.
pub counters_for_bounds :
    (mm : ℤ) → (policy_counters_min ≤ counters_for mm) × (counters_for mm ≤ policy_counters_max)
unfolding counters_for
counters_for_bounds mm = ground arith

module _ (S : Store) (fingerprint : Bytes → ℕ) where
  open S use {State, get, entries, swap, delete}

  -- `Del` of any key, present or not: the answer is whether a live entry was there, the key is gone,
  -- every other key keeps its value, and the accounting stays exact.
  pub del_lem :
      (c : Cache State) (key : Bytes) (now : ℤ)
      → IsAccounted S fingerprint c
      → let (c', a) = del S fingerprint c none key now in
        IsAccounted S fingerprint c'
        × ((j : Bytes) → get c'.m j ≡ (if bytes_eq key j then none else get c.m j))
        × ((get c.m key ≡ none) × (a ≡ inr false)
            ⊎ ((e : Entry) × (get c.m key ≡ some e) × (a ≡ inr (not (expired e now)))))
  unfolding del
  del_lem c key now v = elim (Option-cases (get c.m key)) [
    | inl absent ↦
        let old : (delete c.m key).1 ≡ none = S.delete_old c.m key v.valid ∙ absent in
        let sums = rw absent at (S.total-delete entry_cost c.m key v.valid) in
        rw (old, del)
          (
            record {
              valid = S.delete-IsValid c.m key v.valid;
              exact = rw v.exact (ap pos (omega arith));
            },
            (λ j. S.get-delete c.m key j v.valid),
            inl (absent, refl),
          )
    | inr (e, present) ↦
        let old : (delete c.m key).1 ≡ some e = S.delete_old c.m key v.valid ∙ present in
        let sums = rw present at (S.total-delete entry_cost c.m key v.valid) in
        rw (old, del)
          (
            record {
              valid = S.delete-IsValid c.m key v.valid;
              exact = rw v.exact (eq_of_parts _ _ (omega int_laws));
            },
            (λ j. S.get-delete c.m key j v.valid),
            inr (e, present, refl),
          )
  ]

  -- A cancelled context changes nothing and is returned, whatever the operation.
  pub cancelled_lem :
      (draws : ℕ → ℕ → ℕ) (c : Cache State) (e : ℕ) (key value : Bytes) (d now later : ℤ)
      (clock : ℕ → ℤ) (contended : Bool)
      → (get_value S fingerprint c (some e) key now contended ≡ (c, inl (cancelled e)))
        × (set_value S fingerprint draws c (some e) key value d now ≡ some (c, inl (cancelled e)))
        × (del S fingerprint c (some e) key now ≡ (c, inl (cancelled e)))
        × (ttl S fingerprint c (some e) key now later ≡ inl (cancelled e))
        × (len S fingerprint c (some e) clock ≡ inl (cancelled e))
  unfolding get_value set_value del ttl len
  cancelled_lem draws c e key value d now later clock contended = (refl, refl, refl, refl, refl)

  -- What the guard lets through does not take usage over the ceiling.
  accepted-within :
      (c : Cache State) (key : Bytes) (e : Entry)
      → IsAccounted S fingerprint c
      → S.HasRoom c.m key
      → is_policy c.evict_pol EvictionPolicy.no_eviction ≡ true
      → pos 1 ≤ℤ c.maxmemory
      → c.usage ≤ℤ c.maxmemory
      → rejects S fingerprint c key (cost_of key e.value) ≡ false
      → (store_entry S fingerprint c key e).usage ≤ℤ c.maxmemory
  unfolding store_entry rejects
  accepted-within c key e v room pol positive within fine =
      let delta = pos (cost_of key e.value) -ℤ pos (old_cost S fingerprint key (get c.m key)) in
      let sum = +ℤ_parts c.usage delta in
      let test = rw pol at fine in rw (S.swap_old c.m key e v.valid room) (ground arith)

  -- Under noeviction with a positive ceiling, a map with room for the key and exact accounting, a
  -- `Set` never takes usage over the ceiling: if usage was
  -- within it, it is within it afterwards, rejected or not.
  pub set_value_noeviction :
      (draws : ℕ → ℕ → ℕ) (c c' : Cache State) (key value : Bytes) (d now : ℤ)
      (a : Answer (Unit {0}))
      → IsAccounted S fingerprint c
      → S.HasRoom c.m key
      → is_policy c.evict_pol EvictionPolicy.no_eviction ≡ true
      → pos 1 ≤ℤ c.maxmemory
      → c.usage ≤ℤ c.maxmemory
      → set_value S fingerprint draws c none key value d now ≡ some (c', a)
      → c'.usage ≤ℤ c.maxmemory
  unfolding set_value
  set_value_noeviction draws c c' key value d now a v room pol positive within h =
      let e = new_entry value d now in
      let s = store_entry S fingerprint c key e in
      elim (Bool-cases (rejects S fingerprint c key (cost_of key e.value))) [
        | inl bad ↦ let same : c ≡ c' = cc (rw bad at h) in rw (← same) within
        | inr fine ↦
            let kept : s.evict_pol ≡ c.evict_pol = unfold store_entry in refl in
            let never : is_policy s.evict_pol EvictionPolicy.no_eviction ≡ true = rw kept pol in
            let same : s ≡ c' = ground arith in
            rw (← same) (accepted-within c key e v room pol positive within fine)
      ]
