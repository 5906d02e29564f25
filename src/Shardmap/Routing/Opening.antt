-- ===== src/Shardmap/Routing/Opening.antt =====
-- What `New` builds.
use mathlib.Core.Path.{subst}
use cachemoney.Base.{
  ℕ, zero, suc, ◌+◌, ◌-◌, ◌*◌, ◌^◌, ◌≤◌, ◌<◌, ◌≡◌, refl, sym, ap, ◌∙◌, none, some, List, arith,
  if◌then◌else◌, length, replicate, Bool-cases, inl, inr,
}
use cachemoney.Base.Bits.{pow-positive}
use cachemoney.Shardmap.Table.{Keys, Table}
use cachemoney.Shardmap.Table.Mass.{Every}
use cachemoney.Shardmap.Table.Valid.{IsValid}
use cachemoney.Shardmap.Table.View.{view}
use cachemoney.Shardmap.Routing.{Map, route_of, count_shards, len_of}
use cachemoney.Shardmap.Routing.Valid.{IsValidMap, view_map, shard_of, view_in}
use native.Mathlib.Nat.{div-le_of_le-mul, pow-le-pow_right}
use cachemoney.Shardmap.Table.Mass.{weigh, weigh-le, at}
use cachemoney.Base.{length-replicate}
use cachemoney.Base.Int.{ℤ, pos, ltb_ℤ, pos_part}
use cachemoney.Shardmap.Options.{Config, Setting, next_pow2, next_pow2_lem, log2_power_of_2}
use cachemoney.Shardmap.Table.{new_table}
use cachemoney.Shardmap.Table.Promise.{Starts, new_table-Starts}
use cachemoney.Shardmap.Routing.{new, resolve, wanted_shards, per_shard_cap, default_shard_count}
use cachemoney.Shardmap.Routing.Valid.{get_elem?-replicate}

count-replicate :
    {K V : Type 0} (n : ℕ) (t : Table K V) → t.count ≡ 0 → count_shards (replicate n t) ≡ 0
unfolding count_shards
count-replicate zero t e = refl
count-replicate (suc n) t e = let rest = count-replicate n t e in omega (arith, rest)

empty-Every :
    {K V : Type 0} (keys : Keys K V) (hf : K → ℕ) (P : K → V → Type 0) {t : Table K V}
    (v : IsValid keys hf t)
    → t.count ≡ 0
    → Every keys P t.slots
empty-Every keys hf P {t} v e x taken =
    let heavy = weigh-le keys (λ k u. 1) t.slots x v.sound.room in
    let one : weigh keys (λ k u. 1) (at keys t.slots x) ≡ 1 = ground arith in
    let counted = v.counted in absurd (omega (arith, heavy, one))

wide : (c n : ℕ) → 1 ≤ c → 0 < n → c + n - 1 ≤ n * c
wide (suc c) (suc n) h k =
    let e : suc n * suc c ≡ n * c + n + c + 1 = grind arith in omega (arith, e)
wide zero n h k = absurd (omega arith)
wide (suc c) zero h k = absurd (omega arith)

cap_bound : (c : ℤ) (num : ℕ) → pos_part c ≤ 3 * 2 ^ 59 → 0 < num → per_shard_cap c num ≤ 3 * 2 ^ 59
cap_bound c num h some_shards = elim (Bool-cases (ltb_ℤ (pos 0) c)) [
  | inl hinted ↦
      let least : 1 ≤ pos_part c = ground arith in
      let less = div-le_of_le-mul num (wide (pos_part c) num least some_shards) in
      rw hinted (omega (arith, less, h))
  | inr free ↦ rw free (omega arith)
]

module _ {S K V : Type 0} (keys : Keys K V) where
  -- A map that holds nothing, with at least one shard.
  pub record Opens (m : Map S K V) : Type 0 where
    pub valid : IsValidMap keys m
    pub shows : view_map keys m ≡ (λ k. none)
    pub counts : len_of m ≡ 0

  pub wanted_fits :
      (procs : ℕ) (c : Config S)
      → procs * 4 ≤ 2 ^ 62
      → pos_part c.num_shards ≤ 2 ^ 62
      → (n : ℕ) × (wanted_shards procs c ≡ some n) × (n ≤ 2 ^ 62) × (pos_part c.num_shards ≤ n)
  wanted_fits procs c some_procs some_shards = elim (Bool-cases (ltb_ℤ c.num_shards (pos 1))) [
    | inl by_default ↦
        let (q, e, _, high, _, _) = next_pow2_lem (pos (procs * 4)) some_procs in
        (
          2 ^ q,
          ap (λ b. if b then default_shard_count procs else some (pos_part c.num_shards)) by_default
              ∙ e,
          pow-le-pow_right (omega arith) high,
          ground arith,
        )
    | inr asked ↦ (
      pos_part c.num_shards,
      ap (λ b. if b then default_shard_count procs else some (pos_part c.num_shards)) asked,
      some_shards,
      omega arith,
    )
  ]

  empty-Opens :
      (q : ℕ) (t : Table K V) (seed : S) (hasher : S → K → ℕ) (hint : ℕ)
      → q ≤ 62
      → ((s : S) (k : K) → hasher s k < 2 ^ 64)
      → Starts keys (hasher seed) hint t
      → Opens (record {
        shards = replicate (2 ^ q) t;
        seed = seed;
        hasher = hasher;
        shard_shift = 64 - q;
      })
  empty-Opens q t seed hasher hint high words starts =
      let m : Map S K V = record {
        shards = replicate (2 ^ q) t;
        seed = seed;
        hasher = hasher;
        shard_shift = 64 - q;
      } in
      let v : IsValidMap keys m = record {
        bits = q;
        few = omega arith;
        size = length-replicate (2 ^ q) t;
        shift = refl;
        words = words seed;
        tables = λ i s e.
            subst (IsValid keys (hasher seed)) (get_elem?-replicate (2 ^ q) i t s e) starts.valid;
        own = λ i s e.
            subst (λ z. Every keys (λ q u. route_of keys m q ≡ i) z.slots)
              (get_elem?-replicate (2 ^ q) i t s e)
              (empty-Every keys (hasher seed) (λ q u. route_of keys m q ≡ i) starts.valid
                starts.counts);
      } in
      record {
        valid = v;
        shows = λ i k.
            (let (s, e) = shard_of keys v k in
                view_in keys v k s e
                ∙ ap (λ z. view keys (hasher seed) z k)
                    (sym (get_elem?-replicate (2 ^ q) (route_of keys m k) t s e))
                ∙ ap (λ f. f k) starts.shows)
              i;
        counts = count-replicate (2 ^ q) t starts.counts;
      }

  new_run :
      (procs : ℕ) (fresh : S) (hasher : S → K → ℕ) (opts : List (Setting S)) (n num k : ℕ)
      (t : Table K V)
      → wanted_shards procs (resolve opts) ≡ some n
      → next_pow2 (pos n) ≡ some num
      → new_table keys (per_shard_cap (resolve opts).initial_cap num) ≡ some t
      → log2_power_of_2 num ≡ some k
      → new keys procs fresh (some hasher) opts
        ≡ some (record {
          shards = replicate num t;
          seed = elim (resolve opts).seed [ none ↦ fresh | some s ↦ s ];
          hasher = hasher;
          shard_shift = 64 - k;
        })
  unfolding new
  new_run procs fresh hasher opts n num k t asked found made logged =
      rw (asked, found, made, logged) refl

  -- `New` with a hasher of 64-bit words, on a machine of at most 2 ^ 60 threads, with options that ask
  -- for at most 2 ^ 62 shards and hint at most 3 * 2 ^ 59 entries, returns a valid map: it holds nothing,
  -- its `Len` is 0, and its shards are a power of two and at least as many as the options ask for.
  pub new-Opens :
      (procs : ℕ) (fresh : S) (hasher : S → K → ℕ) (opts : List (Setting S))
      → procs * 4 ≤ 2 ^ 62
      → ((s : S) (k : K) → hasher s k < 2 ^ 64)
      → pos_part (resolve opts).num_shards ≤ 2 ^ 62
      → pos_part (resolve opts).initial_cap ≤ 3 * 2 ^ 59
      → (m : Map S K V) × (new keys procs fresh (some hasher) opts ≡ some m)
        × Opens m
        × (pos_part (resolve opts).num_shards ≤ length m.shards)
  new-Opens procs fresh hasher opts few_procs words few_shards few_entries =
      let c : Config S = resolve opts in
      let (n, asked, fits, covers) = wanted_fits procs c few_procs few_shards in
      let (q, found, logged, high, enough, _) = next_pow2_lem (pos n) fits in
      let num : ℕ = 2 ^ q in
      let seed : S = elim c.seed [ none ↦ fresh | some s ↦ s ] in
      let (t, made, starts) =
        new_table-Starts keys (hasher seed) (per_shard_cap c.initial_cap num)
          (cap_bound c.initial_cap num few_entries (pow-positive q)) in
      (
        record { shards = replicate num t; seed = seed; hasher = hasher; shard_shift = 64 - q },
        new_run procs fresh hasher opts n num q t asked found made logged,
        empty-Opens q t seed hasher _ high words starts,
        omega (arith, covers, enough, length-replicate num t),
      )
