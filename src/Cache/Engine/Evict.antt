-- ===== src/Cache/Engine/Evict.antt =====
-- The eviction loop.
use cachemoney.Base.{
  ℕ, zero, suc, ◌+◌, ◌-◌, ◌≤◌, ◌<◌, ◌≡◌, refl, ap, ◌⊎◌, inl, inr, Option, none, some, List, [], ◌∷◌,
  arith, ltb, length, All, Bool-cases, Option-cases,
}
use mathlib.Core.Path.{subst}
use cachemoney.Base.{ltb→lt}
use cachemoney.Base.Int.{ℤ, ltb_ℤ, ◌≤ℤ◌}
use cachemoney.Cache.Entry.{Bytes}
use cachemoney.Cache.Policies.{EvictionPolicy}
use cachemoney.Cache.Store.{Store}
use cachemoney.Cache.Engine.{
  Cache, pick_victim, evict_one, evict_loop, evict_until_under, enough, max_evict_misses, sample_n,
}
use cachemoney.Cache.Engine.Victims.{
  IsAccounted, pick_victim-Eligible, Evicted, Evicted-refl, Evicted-trans, evict_one-Evicted,
}

module _ (S : Store) (fingerprint : Bytes → ℕ) where
  open S use {State, get, sample, entries, delete}

  -- Rounds before round `i`, the latest first and each once.
  unfoldable pub Falls : ℕ → List ℕ → Type 0
  Falls i [] = Unit
  Falls i (j ∷ js) = (j < i) × Falls j js

  Falls-suc : (i : ℕ) (js : List ℕ) → Falls i js → Falls (suc i) js
  unfolding Falls
  Falls-suc i [] h = tt
  Falls-suc i (j ∷ js) (less, h) = (omega arith, h)

  -- Round `j` of the pass found no victim: so it was for the map of that round, from which the pass
  -- went on to `c`.
  abbrev pub Missed : (ℕ → ℕ → ℕ) → EvictionPolicy → Option Bytes → Cache State → ℕ → Type 0
  Missed draws pol exclude c j =
      (d : Cache State) × Evicted S fingerprint exclude d c
      × (pick_victim S fingerprint d.policy pol exclude (sample d.m sample_n (draws j)) ≡ none)

  -- `n` rounds before round `i` found no victim.
  pub record Misses (draws : ℕ → ℕ → ℕ) (pol : EvictionPolicy) (exclude : Option Bytes) (i n : ℕ)
      (c : Cache State) : Type 0 where
    pub rounds : List ℕ
    pub count : length rounds ≡ n
    pub falls : Falls i rounds
    pub missed : All (Missed draws pol exclude c) rounds

  Missed-later :
      (draws : ℕ → ℕ → ℕ) (pol : EvictionPolicy) {exclude : Option Bytes} {c c' : Cache State}
      (js : List ℕ)
      → Evicted S fingerprint exclude c c'
      → All (Missed draws pol exclude c) js
      → All (Missed draws pol exclude c') js
  Missed-later draws pol [] out h = tt
  Missed-later draws pol (j ∷ js) out ((d, before, nobody), h) =
      ((d, Evicted-trans S fingerprint before out, nobody), Missed-later draws pol js out h)

  Misses-later :
      {draws : ℕ → ℕ → ℕ} {pol : EvictionPolicy} {exclude : Option Bytes} {i n : ℕ}
      {c c' : Cache State}
      → Evicted S fingerprint exclude c c'
      → Misses draws pol exclude i n c
      → Misses draws pol exclude (suc i) n c'
  Misses-later {draws = draws} {pol = pol} {i = i} out h = record {
    rounds = h.rounds;
    count = h.count;
    falls = Falls-suc i h.rounds h.falls;
    missed = Missed-later draws pol h.rounds out h.missed;
  }

  Misses-more :
      {draws : ℕ → ℕ → ℕ} {pol : EvictionPolicy} {exclude : Option Bytes} {i n : ℕ}
      {c : Cache State}
      → IsAccounted S fingerprint c
      → pick_victim S fingerprint c.policy pol exclude (sample c.m sample_n (draws i)) ≡ none
      → Misses draws pol exclude i n c
      → Misses draws pol exclude (suc i) (suc n) c
  unfolding Falls
  Misses-more {exclude = exclude} {i = i} {c = c} v nobody h = record {
    rounds = i ∷ h.rounds;
    count = ap suc h.count;
    falls = (omega arith, h.falls);
    missed = ((c, Evicted-refl S fingerprint exclude v, nobody), h.missed);
  }

  -- How a pass ends: at or under the ceiling, or after more misses than are allowed.
  abbrev pub Ends : (ℕ → ℕ → ℕ) → ℤ → EvictionPolicy → Option Bytes → Cache State → Type 0
  Ends draws ceiling pol exclude c =
      (c.usage ≤ℤ ceiling) ⊎ ((i : ℕ) × Misses draws pol exclude i (suc max_evict_misses) c)

  evict_loop-Ends :
      (fuel : ℕ) (draws : ℕ → ℕ → ℕ) (i : ℕ) (ceiling : ℤ) (pol : EvictionPolicy)
      (exclude : Option Bytes) (misses : ℕ) (c : Cache State)
      → IsAccounted S fingerprint c
      → misses ≤ max_evict_misses
      → Misses draws pol exclude i misses c
      → suc max_evict_misses - misses + length (entries c.m) < fuel
      → (c' : Cache State) × (evict_loop S fingerprint fuel draws i ceiling pol exclude misses c
          ≡ some c')
        × Evicted S fingerprint exclude c c'
        × Ends draws ceiling pol exclude c'
  unfolding evict_loop
  evict_loop-Ends zero draws i ceiling pol exclude misses c v few so_far h = absurd (omega arith)
  evict_loop-Ends (suc fuel) draws i ceiling pol exclude misses c v few so_far h =
      elim (Bool-cases (ltb_ℤ ceiling c.usage)) [
        | inr fits ↦ (c, rw fits, Evicted-refl S fingerprint exclude v, inl (ground arith))
        | inl over ↦
            elim (Option-cases
              (pick_victim S fingerprint c.policy pol exclude (sample c.m sample_n (draws i)))) [
                | inl nobody ↦ elim (Bool-cases (ltb max_evict_misses (suc misses))) [
                  | inl gave_up ↦ (
                    c,
                    rw (over, nobody, gave_up, evict_loop),
                    Evicted-refl S fingerprint exclude v,
                    inr (
                      suc i,
                      subst (λ n. Misses draws pol exclude (suc i) n c)
                          (let gone = ltb→lt _ _ gave_up in omega arith)
                          (Misses-more v nobody so_far),
                    ),
                  )
                  | inr retry ↦
                      let (c', run, out, ends) =
                        evict_loop-Ends fuel draws (suc i) ceiling pol exclude (suc misses) c v
                          (ground arith) (Misses-more v nobody so_far) (omega arith) in
                      (c', rw (over, nobody, retry, evict_loop) run, out, ends)
                ]
                | inr (victim, picked) ↦
                    let good =
                      pick_victim-Eligible S fingerprint c pol exclude (draws i) v picked in
                    let (first, fewer) = evict_one-Evicted S fingerprint exclude c v good in
                    let (c', run, out, ends) =
                      evict_loop-Ends fuel draws (suc i) ceiling pol exclude misses
                        (evict_one S fingerprint c victim) first.accounted few
                        (Misses-later first so_far) (omega arith) in
                    (
                      c',
                      rw (over, picked, evict_loop) run,
                      Evicted-trans S fingerprint first out,
                      ends,
                    )
              ]
      ]

  pub evict_until_under-Ends :
      (draws : ℕ → ℕ → ℕ) (ceiling : ℤ) (pol : EvictionPolicy) (exclude : Option Bytes)
      (c : Cache State)
      → IsAccounted S fingerprint c
      → (c' : Cache State) × (evict_until_under S fingerprint draws ceiling pol exclude c ≡ some c')
        × Evicted S fingerprint exclude c c'
        × Ends draws ceiling pol exclude c'
  unfolding evict_until_under Falls
  evict_until_under-Ends draws ceiling pol exclude c v =
      evict_loop-Ends (enough S fingerprint c) draws 0 ceiling pol exclude 0 c v (omega arith)
        (record { rounds = []; count = refl; falls = tt; missed = tt }) (omega arith)
