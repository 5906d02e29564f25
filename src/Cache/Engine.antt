-- ===== src/Cache/Engine.antt =====
-- internal/cache/cache.go and evict.go: the engine over its backing map and the frequency policy.
-- A method takes the context's error, if the context is cancelled, and each reading of the clock; it
-- returns the new cache with its result. Methods are modelled as they run alone; the interleaving of
-- the accounting steps of several writers is in `Accounting`. Stored and returned slices are copies,
-- so a value is its bytes.
pub mod Victims
pub mod Evict
pub mod Writes
pub mod Guards
pub mod Reads
use cachemoney.Base.{
  ℕ, zero, suc, ◌+◌, ◌*◌, ◌/◌, ◌^◌, Bool, true, false, not, ◌&&◌, ◌||◌, Option, none, some, List,
  [], ◌∷◌, ltb, leb, if◌then◌else◌, bytes_eq, length, ◌==◌, ◌⊎◌, inl, inr,
}
use mathlib.Core.Option
use cachemoney.Base.Int.{ℤ, pos, negsuc, pos_part, ltb_ℤ, ◌+ℤ◌, ◌-ℤ◌}
use cachemoney.Cache.Entry.{Bytes, Entry, expired, new_entry, cost_of}
use cachemoney.Cache.Policies.{
  EvictionPolicy, all_keys_lfu, all_keys_random, no_eviction, is_policy,
}
use cachemoney.Cache.Store.{Store}
use cachemoney.TinyLfu.Policy
use cachemoney.TinyLfu.Policy.{Config}

-- `M` is the backing map's state.
pub record Cache (M : Type 0) : Type 0 where
  pub m : M
  pub policy : Policy.Policy
  pub policy_seed : ℕ
  pub usage : ℤ
  pub maxmemory : ℤ
  pub evict_pol : EvictionPolicy
  pub policy_counters : ℤ
  pub hits : ℕ
  pub misses : ℕ
  pub evictions : ℕ

abbrev pub assumed_avg_entry_cost : ℕ
assumed_avg_entry_cost = 256

abbrev pub policy_counters_min : ℕ
policy_counters_min = 1024

abbrev pub policy_counters_max : ℕ
policy_counters_max = 2 ^ 22

-- The counters of `policyConfig`.
unfoldable pub counters_for : ℤ → ℕ
counters_for mm =
    if ltb_ℤ (pos 0) mm
    then (let c = pos_part mm / assumed_avg_entry_cost in
        let floored = if ltb c policy_counters_min then policy_counters_min else c in
        if ltb policy_counters_max floored then policy_counters_max else floored)
    else policy_counters_min

unfoldable pub policy_config : {M : Type 0} → Cache M → Config
unfolding counters_for
policy_config c = record {
  counters = pos (counters_for c.maxmemory);
  stripes = pos 0;
  ring_depth = pos 0;
  seed = c.policy_seed;
}

unfoldable pub refresh_active : {M : Type 0} → Cache M → Cache M
refresh_active c = record c {
  policy =
      Policy.set_active c.policy
        (is_policy c.evict_pol EvictionPolicy.all_keys_lfu && ltb_ℤ (pos 0) c.maxmemory);
}

-- `New` after its options: the map, the clock's source and the seeds come from outside.
unfoldable pub new : {M : Type 0} → M → ℕ → ℕ → ℤ → EvictionPolicy → Cache M
unfolding refresh_active counters_for
new m max_procs seed maxmemory pol =
    let counters = pos (counters_for maxmemory) in
    refresh_active (record {
      m = m;
      policy =
          Policy.new max_procs
            (record { counters = counters; stripes = pos 0; ring_depth = pos 0; seed = seed });
      policy_seed = seed;
      usage = pos 0;
      maxmemory = maxmemory;
      evict_pol = pol;
      policy_counters = counters;
      hits = 0;
      misses = 0;
      evictions = 0;
    })

-- The error of a cancelled context, or of a write rejected under noeviction.
pub data EngineError : Type 0 where
  cancelled : ℕ → EngineError
  oom : EngineError

abbrev pub Answer : Type 0 → Type 0
Answer A = EngineError ⊎ A

abbrev pub sample_n : ℕ
sample_n = 5

abbrev pub max_evict_misses : ℕ
max_evict_misses = 100

-- Whether a key is the excluded newcomer, and the candidate kept after one more is looked at.
unfoldable pub excluded : Option Bytes → Bytes → Bool
excluded none key = false
excluded (some x) key = bytes_eq key x

unfoldable pub better : ℕ → Bytes → Option (Bytes × ℕ) → Option (Bytes × ℕ)
better f key none = some (key, f)
better f key (some (b, g)) = if ltb f g then some (key, f) else some (b, g)

-- The operations take the backing map and the hash of a key under the fingerprint seed.
module _ (S : Store) (fingerprint : Bytes → ℕ) where
  open S use {State, get, swap, delete, sample, entries}

  -- `contended` is whether the policy's stripe is locked by another reader.
  unfoldable pub get_value :
      Cache State → Option ℕ → Bytes → ℤ → Bool → Cache State × Answer (Option Bytes)
  get_value c (some e) key now contended = (c, inl (cancelled e))
  get_value c none key now contended = elim (get c.m key) [
    | none ↦ (record c { misses = suc c.misses }, inr none)
    | some e ↦ if expired e now then (record c { misses = suc c.misses }, inr none) else (
      record c {
        hits = suc c.hits;
        policy = (Policy.record_access c.policy (fingerprint key) contended).0;
      },
      inr (some e.value),
    )
  ]

  -- `pickVictim`: the excluded key is `none` where `hasExclude` is false, and the last argument is
  -- `best` with its frequency, once one is found.
  unfoldable pub pick_loop :
      Policy.Policy
      → EvictionPolicy
      → Option Bytes
      → List (Bytes × Entry)
      → Option (Bytes × ℕ)
      → Option Bytes
  unfolding better
  pick_loop policy pol exclude [] best = Option.map (λ b. b.0) best
  pick_loop policy pol exclude ((key, e) ∷ rest) best =
      let f = Policy.estimate policy (fingerprint key) in
      let others =
        pick_loop policy pol exclude rest
          (if excluded exclude key then best else better f key best) in
      if not (excluded exclude key) && is_policy pol EvictionPolicy.all_keys_random
      then some key
      else others

  unfoldable pub pick_victim :
      Policy.Policy → EvictionPolicy → Option Bytes → List (Bytes × Entry) → Option Bytes
  pick_victim policy pol exclude cands = pick_loop policy pol exclude cands none

  -- `e, existed := c.m.Delete(victim)` and its accounting.
  unfoldable pub evict_one : Cache State → Bytes → Cache State
  evict_one c victim =
      let (m, removed) = delete c.m victim in
      elim removed [
        | none ↦ record c { m = m }
        | some e ↦ record c {
          m = m;
          usage = c.usage -ℤ pos (cost_of victim e.value);
          evictions = suc c.evictions;
        }
      ]

  -- The loop of `evictUntilUnder` on fuel, `none` when it runs out: round `i` samples with the draws
  -- `draws i`.
  unfoldable pub evict_loop :
      ℕ
      → (ℕ → ℕ → ℕ)
      → ℕ
      → ℤ
      → EvictionPolicy
      → Option Bytes
      → ℕ
      → Cache State
      → Option (Cache State)
  evict_loop zero draws i ceiling pol exclude misses c = none
  evict_loop (suc fuel) draws i ceiling pol exclude misses c =
      let gave_up = ltb max_evict_misses (suc misses) in
      let again = evict_loop fuel draws (suc i) ceiling pol exclude (suc misses) c in
      let round : Option (Cache State) =
        elim (pick_victim c.policy pol exclude (sample c.m sample_n (draws i))) [
          | none ↦ if gave_up then some c else again
          | some victim ↦
              evict_loop fuel draws (suc i) ceiling pol exclude misses (evict_one c victim)
        ] in
      if ltb_ℤ ceiling c.usage then round else some c

  -- Rounds enough for every miss that is allowed and every stored entry.
  abbrev pub enough : Cache State → ℕ
  enough c = 2 + max_evict_misses + length (entries c.m)

  unfoldable pub evict_until_under :
      (ℕ → ℕ → ℕ) → ℤ → EvictionPolicy → Option Bytes → Cache State → Option (Cache State)
  evict_until_under draws ceiling pol exclude c =
      evict_loop (enough c) draws 0 ceiling pol exclude 0 c

  -- The cost of what is stored under a key, 0 if nothing is.
  abbrev pub old_cost : Bytes → Option Entry → ℕ
  old_cost key none = 0
  old_cost key (some e) = cost_of key e.value

  -- The noeviction guard: a write that grows usage past the ceiling.
  unfoldable pub rejects : Cache State → Bytes → ℕ → Bool
  rejects c key new_cost =
      let delta = pos new_cost -ℤ pos (old_cost key (get c.m key)) in
      ltb_ℤ (pos 0) c.maxmemory
      && is_policy c.evict_pol EvictionPolicy.no_eviction
      && (ltb_ℤ (pos 0) delta && ltb_ℤ c.maxmemory (c.usage +ℤ delta))

  -- The store and its accounting, before any eviction.
  unfoldable pub store_entry : Cache State → Bytes → Entry → Cache State
  store_entry c key e =
      let (m, old) = swap c.m key e in
      record c { m = m; usage = c.usage +ℤ (pos (cost_of key e.value) -ℤ pos (old_cost key old)) }

  -- Whether a write that was stored makes room afterwards.
  abbrev pub over : Cache State → Bool
  over c =
      ltb_ℤ (pos 0) c.maxmemory
      && not (is_policy c.evict_pol EvictionPolicy.no_eviction)
      && ltb_ℤ c.maxmemory c.usage

  unfoldable pub answer_stored : Option (Cache State) → Option (Cache State × Answer (Unit {0}))
  answer_stored none = none
  answer_stored (some c) = some (c, inr tt)

  -- `Set`; `none` if the eviction loop ran out of fuel.
  unfoldable pub set_value :
      (ℕ → ℕ → ℕ)
      → Cache State
      → Option ℕ
      → Bytes
      → Bytes
      → ℤ
      → ℤ
      → Option (Cache State × Answer (Unit {0}))
  unfolding answer_stored
  set_value draws c (some e) key value ttl now = some (c, inl (cancelled e))
  set_value draws c none key value ttl now =
      let e = new_entry value ttl now in
      let stored = store_entry c key e in
      if rejects c key (cost_of key e.value)
      then some (c, inl oom)
      else if over stored
      then answer_stored
          (evict_until_under draws stored.maxmemory stored.evict_pol (some key) stored)
      else some (stored, inr tt)

  unfoldable pub del : Cache State → Option ℕ → Bytes → ℤ → Cache State × Answer Bool
  del c (some e) key now = (c, inl (cancelled e))
  del c none key now =
      let (m, removed) = delete c.m key in
      elim removed [
        | none ↦ (record c { m = m }, inr false)
        | some e ↦ (
          record c { m = m; usage = c.usage -ℤ pos (cost_of key e.value) },
          inr (not (expired e now)),
        )
      ]

  -- The remaining lifetime by a second reading of the clock; -1 where the entry never expires.
  remaining_of : Option ℤ → ℤ → ℤ
  remaining_of none later = negsuc 0
  remaining_of (some t) later = t -ℤ later

  -- `TTL` reads the clock twice, in `expired` and in `Sub`. It changes nothing.
  unfoldable pub ttl : Cache State → Option ℕ → Bytes → ℤ → ℤ → Answer (Option ℤ)
  unfolding remaining_of
  ttl c (some e) key now later = inl (cancelled e)
  ttl c none key now later = elim (get c.m key) [
    | none ↦ inr none
    | some e ↦ if expired e now then inr none else inr (some (remaining_of e.expires_at later))
  ]

  -- The callback of `Len` over the entries that Range visits; `clock i` is the reading of the clock
  -- at entry `i`.
  count_live : (ℕ → ℤ) → ℕ → List (Bytes × Entry) → ℕ
  count_live clock i [] = 0
  count_live clock i ((k, e) ∷ rest) =
      let others = count_live clock (suc i) rest in
      if expired e (clock i) then others else suc others

  unfoldable pub len : Cache State → Option ℕ → (ℕ → ℤ) → Answer ℕ
  unfolding count_live
  len c (some e) clock = inl (cancelled e)
  len c none clock = inr (count_live clock 0 (entries c.m))

  -- `if pcfg.Counters != policyCounters.Swap(pcfg.Counters) { policy.Resize(pcfg) }`
  unfoldable pub resize_policy : Cache State → Cache State
  resize_policy c =
      let cfg = policy_config c in
      if pos_part cfg.counters == pos_part c.policy_counters
      then record c { policy_counters = cfg.counters }
      else record c { policy_counters = cfg.counters; policy = Policy.resize c.policy cfg }

  unfoldable pub set_max_memory : (ℕ → ℕ → ℕ) → Cache State → ℤ → Option (Cache State)
  unfolding resize_policy refresh_active
  set_max_memory draws c bytes =
      let sized = refresh_active (resize_policy (record c { maxmemory = bytes })) in
      if over sized then evict_until_under draws bytes sized.evict_pol none sized else some sized

  unfoldable pub set_eviction_policy : Cache State → EvictionPolicy → Cache State
  unfolding refresh_active
  set_eviction_policy c p = refresh_active (record c { evict_pol = p })

-- internal/cache/stats.go
pub record Stats : Type 0 where
  pub hits : ℕ
  pub misses : ℕ
  pub evictions : ℕ
  pub usage : ℤ
  pub maxmemory : ℤ

unfoldable pub stats : {M : Type 0} → Cache M → Stats
stats c = record {
  hits = c.hits;
  misses = c.misses;
  evictions = c.evictions;
  usage = c.usage;
  maxmemory = c.maxmemory;
}
