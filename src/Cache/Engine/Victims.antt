-- ===== src/Cache/Engine/Victims.antt =====
-- Victims: `pickVictim` and the removal of one entry.
use cachemoney.Base.{
  ℕ, suc, ◌+◌, ◌≡◌, refl, ap, ◌∙◌, ◌⊎◌, inl, inr, true, false, Option, none, some, List, [], ◌∷◌,
  arith, ltb, length, All, Bool-cases, bytes_eq, bytes_eq_iff,
}
use cachemoney.Base.Int.{pos, ◌-ℤ◌, ◌≤ℤ◌, int_laws, eq_of_parts}
use cachemoney.Cache.Entry.{Bytes, Entry, cost_of}
use cachemoney.Cache.Policies.{EvictionPolicy, is_policy}
use cachemoney.Cache.Store.{Store, total}
use cachemoney.Cache.Engine.{Cache, excluded, better, pick_loop, pick_victim, evict_one, sample_n}

-- What the accounting counts.
abbrev pub entry_cost : Bytes → Entry → ℕ
entry_cost k e = cost_of k e.value

abbrev pub one : Bytes → Entry → ℕ
one k e = 1

total-one : (es : List (Bytes × Entry)) → total one es ≡ length es
total-one [] = refl
total-one ((k, e) ∷ es) = omega (arith, total-one es)

module _ (S : Store) (fingerprint : Bytes → ℕ) where
  open S use {State, get, sample, entries, delete}

  -- The map is well formed, and usage is the sum of the costs of what it holds.
  pub record IsAccounted (c : Cache State) : Type 0 where
    pub valid : S.IsValid c.m
    pub exact : c.usage ≡ pos (total entry_cost (entries c.m))

  abbrev pub IsLive : Cache State → Bytes → Type 0
  IsLive c k = (e : Entry) × (get c.m k ≡ some e)

  -- A victim may be removed: it is stored, and it is not the excluded key.
  abbrev pub Eligible : Cache State → Option Bytes → Bytes → Type 0
  Eligible c exclude k = IsLive c k × (excluded exclude k ≡ false)

  abbrev pub BestIs : (Bytes → Type 0) → Option (Bytes × ℕ) → Type 0
  BestIs P none = Unit {0}
  BestIs P (some (b, f)) = P b

  better-BestIs :
      (P : Bytes → Type 0) (f : ℕ) (k : Bytes) (best : Option (Bytes × ℕ))
      → P k
      → BestIs P best
      → BestIs P (better f k best)
  unfolding better
  better-BestIs P f k none p h = p
  better-BestIs P f k (some (b, g)) p h = elim (Bool-cases (ltb f g)) [
    | inl less ↦ rw less p
    | inr more ↦ rw more h
  ]

  pick_loop-Eligible :
      (c : Cache State) (pol : EvictionPolicy) (exclude : Option Bytes)
      (cands : List (Bytes × Entry)) (best : Option (Bytes × ℕ)) {victim : Bytes}
      → All (λ x. get c.m x.0 ≡ some x.1) cands
      → BestIs (Eligible c exclude) best
      → pick_loop S fingerprint c.policy pol exclude cands best ≡ some victim
      → Eligible c exclude victim
  unfolding pick_loop
  pick_loop-Eligible c pol exclude [] none live ok h = absurd (cc)
  pick_loop-Eligible c pol exclude [] (some (b, f)) {victim} live ok h =
      let e : b ≡ victim = ground arith in rw (← e) ok
  pick_loop-Eligible c pol exclude ((key, e) ∷ rest) best {victim} live ok h =
      elim (Bool-cases (excluded exclude key)) [
        | inl out ↦ pick_loop-Eligible c pol exclude rest best live.1 ok (rw (out, pick_loop) at h)
        | inr in_play ↦ elim (Bool-cases (is_policy pol EvictionPolicy.all_keys_random)) [
          | inl random ↦
              let picked : some key ≡ some victim = rw (in_play, random) at h in
              let same : key ≡ victim = cc in rw (← same) ((e, live.0), in_play)
          | inr lfu ↦
              pick_loop-Eligible c pol exclude rest _ live.1
                (better-BestIs (Eligible c exclude) _ key best ((e, live.0), in_play) ok)
                (rw (in_play, lfu, pick_loop) at h)
        ]
      ]

  pub pick_victim-Eligible :
      (c : Cache State) (pol : EvictionPolicy) (exclude : Option Bytes) (draws : ℕ → ℕ)
      {victim : Bytes}
      → IsAccounted c
      → pick_victim S fingerprint c.policy pol exclude (sample c.m sample_n draws) ≡ some victim
      → Eligible c exclude victim
  unfolding pick_victim
  pick_victim-Eligible c pol exclude draws v h =
      pick_loop-Eligible c pol exclude _ none (S.sample_live c.m sample_n draws v.valid) tt h

  evict_one_live :
      (c : Cache State) {k : Bytes} {e : Entry}
      → IsAccounted c
      → get c.m k ≡ some e
      → evict_one S fingerprint c k ≡ record c {
        m = (delete c.m k).0;
        usage = c.usage -ℤ pos (cost_of k e.value);
        evictions = suc c.evictions;
      }
  unfolding evict_one
  evict_one_live c {k} {e} v h =
      let old : (delete c.m k).1 ≡ some e = S.delete_old c.m k v.valid ∙ h in rw (old, evict_one)

  -- What an eviction pass leaves: the accounting is exact, the settings and the excluded key stay, no
  -- key gets another value, and usage does not grow.
  pub record Evicted (exclude : Option Bytes) (c c' : Cache State) : Type 0 where
    pub accounted : IsAccounted c'
    pub ceiling : c'.maxmemory ≡ c.maxmemory
    pub policy : c'.policy ≡ c.policy
    pub pol : c'.evict_pol ≡ c.evict_pol
    pub spared : (k : Bytes) → excluded exclude k ≡ true → get c'.m k ≡ get c.m k
    pub others : (k : Bytes) → (get c'.m k ≡ get c.m k) ⊎ (get c'.m k ≡ none)
    pub shrinks : c'.usage ≤ℤ c.usage

  pub Evicted-refl :
      (exclude : Option Bytes) {c : Cache State} → IsAccounted c → Evicted exclude c c
  Evicted-refl exclude v = record {
    accounted = v;
    ceiling = refl;
    policy = refl;
    pol = refl;
    spared = λ k h. refl;
    others = λ k. inl refl;
    shrinks = omega arith;
  }

  pub Evicted-trans :
      {exclude : Option Bytes} {a b c : Cache State}
      → Evicted exclude a b
      → Evicted exclude b c
      → Evicted exclude a c
  Evicted-trans {a = a} {b = b} {c = c} p q = record {
    accounted = q.accounted;
    ceiling = q.ceiling ∙ p.ceiling;
    policy = q.policy ∙ p.policy;
    pol = q.pol ∙ p.pol;
    spared = λ k h. q.spared k h ∙ p.spared k h;
    others = λ k. elim (q.others k) [
      | inr gone ↦ inr gone
      | inl same ↦ elim (p.others k) [
        | inr gone ↦ inr (same ∙ gone)
        | inl same' ↦ inl (same ∙ same')
      ]
    ];
    shrinks = omega (arith, p.shrinks, q.shrinks);
  }

  pub evict_one-Evicted :
      (exclude : Option Bytes) (c : Cache State) {k : Bytes}
      → IsAccounted c
      → Eligible c exclude k
      → Evicted exclude c (evict_one S fingerprint c k)
        × (length (entries (evict_one S fingerprint c k).m) + 1 ≡ length (entries c.m))
  evict_one-Evicted exclude c {k} v ((e, live), out) =
      let costs = rw live at (S.total-delete entry_cost c.m k v.valid) in
      let counts = rw live at (S.total-delete one c.m k v.valid) in
      rw (evict_one_live c v live) (
        record {
          accounted = record {
            valid = S.delete-IsValid c.m k v.valid;
            exact = rw (v.exact) (eq_of_parts _ _ (omega (int_laws)));
          };
          ceiling = refl;
          policy = refl;
          pol = refl;
          spared = λ j h. elim (Bool-cases (bytes_eq k j)) [
            | inl same ↦
                let e' : k ≡ j = (bytes_eq_iff k j).0 same in absurd (cc (ap (excluded exclude) e'))
            | inr other ↦ S.get-delete c.m k j v.valid ∙ rw other
          ];
          others = λ j. elim (Bool-cases (bytes_eq k j)) [
            | inl same ↦ inr (S.get-delete c.m k j v.valid ∙ rw same)
            | inr other ↦ inl (S.get-delete c.m k j v.valid ∙ rw other)
          ];
          shrinks = omega int_laws;
        },
        omega (arith, total-one (entries c.m), total-one (entries (delete c.m k).0)),
      )
