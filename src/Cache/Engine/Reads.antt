-- ===== src/Cache/Engine/Reads.antt =====
-- `Get` and `TTL`: what a read sees of a write, and the two readings of the clock in `TTL`.
use cachemoney.Base.{
  ℕ, ◌≤◌, ◌≡◌, refl, ap, ◌∙◌, ◌⊎◌, inl, inr, Bool, true, false, not, ◌&&◌, Option, none, some, List,
  [], ◌∷◌, arith, ltb, if◌then◌else◌, Bool-cases, All,
}
use cachemoney.Base.Int.{ℤ, pos, ltb_ℤ, ◌+ℤ◌}
use cachemoney.Cache.Entry.{Bytes, Entry, expired, new_entry}
use cachemoney.Cache.Policies.{EvictionPolicy, is_policy}
use cachemoney.Cache.Store.{Store}
use cachemoney.Cache.Engine.{Cache, set_value, get_value, pick_loop, pick_victim, excluded, better}
use cachemoney.Cache.Engine.Victims.{IsAccounted}
use cachemoney.Cache.Engine.Writes.{set_value-Stored}
use cachemoney.TinyLfu.Policy

expiry :
    (value : Bytes) (d now later : ℤ)
    → expired (new_entry value d now) later ≡ (ltb_ℤ (pos 0) d && not (ltb_ℤ later (now +ℤ d)))
unfolding expired new_entry
expiry value d now later = elim (Bool-cases (ltb_ℤ (pos 0) d)) [
  | inl limited ↦ rw limited
  | inr forever ↦ rw forever
]

module _ (S : Store) (fingerprint : Bytes → ℕ) where
  open S use {State, get}

  get_found :
      (c : Cache State) (key : Bytes) (e : Entry) (now : ℤ) (contended : Bool)
      → get c.m key ≡ some e
      → (get_value S fingerprint c none key now contended).1
        ≡ inr (if expired e now then none else some e.value)
  unfolding get_value
  get_found c key e now contended h = elim (Bool-cases (expired e now)) [
    | inl late ↦ rw (h, get_value, late)
    | inr live ↦ rw (h, get_value, live)
  ]

  -- After a successful `Set` on a map with room for the key, also one that evicted other keys, a `Get` of the key answers the value
  -- that was written, unless a positive ttl has passed since the write.
  pub get_value-set_value :
      (draws : ℕ → ℕ → ℕ) (c c' : Cache State) (key value : Bytes) (d now later : ℤ)
      (contended : Bool)
      → IsAccounted S fingerprint c
      → S.HasRoom c.m key
      → set_value S fingerprint draws c none key value d now ≡ some (c', inr tt)
      → (get_value S fingerprint c' none key later contended).1
        ≡ inr (if ltb_ℤ (pos 0) d && not (ltb_ℤ later (now +ℤ d)) then none else some value)
  unfolding new_entry
  get_value-set_value draws c c' key value d now later contended v room h =
      let e = new_entry value d now in
      let stored = set_value-Stored S fingerprint draws c c' key value d now v room h in
      get_found c' key e later contended stored.found
      ∙ ap (λ b. inr (if b then none else some value)) (expiry value d now later)

  -- The frequency that the policy estimates for a key.
  abbrev freq : Policy.Policy → Bytes → ℕ
  freq p key = Policy.estimate p (fingerprint key)

  -- The best candidate so far is known with its own frequency.
  abbrev Known : Policy.Policy → Option (Bytes × ℕ) → Type 0
  Known p none = Unit {0}
  Known p (some (b, f)) = f ≡ freq p b

  abbrev Below : ℕ → Option (Bytes × ℕ) → Type 0
  Below n none = Unit {0}
  Below n (some (b, g)) = n ≤ g

  better-Known :
      (p : Policy.Policy) (key : Bytes) (best : Option (Bytes × ℕ))
      → Known p best
      → Known p (better (freq p key) key best)
  unfolding better
  better-Known p key none h = refl
  better-Known p key (some (b, g)) h = elim (Bool-cases (ltb (freq p key) g)) [
    | inl less ↦ rw less
    | inr more ↦ rw more h
  ]

  better-Below :
      (n f : ℕ) (key : Bytes) (best : Option (Bytes × ℕ))
      → Below n (better f key best)
      → (n ≤ f) × Below n best
  unfolding better
  better-Below n f key none h = (h, tt)
  better-Below n f key (some (b, g)) h = elim (Bool-cases (ltb f g)) [
    | inl less ↦ let h' : n ≤ f = rw less at h in (h', ground arith)
    | inr more ↦ let h' : n ≤ g = rw more at h in (ground arith, h')
  ]

  pick_loop_least :
      (p : Policy.Policy) (pol : EvictionPolicy) (exclude : Option Bytes)
      (cands : List (Bytes × Entry)) (best : Option (Bytes × ℕ)) {victim : Bytes}
      → is_policy pol EvictionPolicy.all_keys_random ≡ false
      → Known p best
      → pick_loop S fingerprint p pol exclude cands best ≡ some victim
      → All (λ x. (excluded exclude x.0 ≡ true) ⊎ (freq p victim ≤ freq p x.0)) cands
        × Below (freq p victim) best
  unfolding pick_loop
  pick_loop_least p pol exclude [] none lfu known h = absurd (cc)
  pick_loop_least p pol exclude [] (some (b, f)) {victim} lfu known h =
      let same : b ≡ victim = ground arith in (tt, rw (known, same) (omega arith))
  pick_loop_least p pol exclude ((key, e) ∷ rest) best {victim} lfu known h =
      elim (Bool-cases (excluded exclude key)) [
        | inl out ↦
            let (all, low) =
              pick_loop_least p pol exclude rest best lfu known (rw (out, pick_loop) at h) in
            ((inl out, all), low)
        | inr in_play ↦
            let (all, low) =
              pick_loop_least p pol exclude rest (better (freq p key) key best) lfu
                (better-Known p key best known) (rw (in_play, lfu, pick_loop) at h) in
            let (here, before) = better-Below (freq p victim) (freq p key) key best low in
            ((inr here, all), before)
      ]

  -- A key of the sample that may be removed.
  unfoldable pub Offered : Option Bytes → Bytes → List (Bytes × Entry) → Type 0
  Offered exclude k [] = ⊥
  Offered exclude k ((key, e) ∷ rest) =
      ((key ≡ k) × (excluded exclude key ≡ false)) ⊎ Offered exclude k rest

  abbrev Chosen : Bytes → Option (Bytes × ℕ) → Type 0
  Chosen k none = ⊥
  Chosen k (some (b, f)) = b ≡ k

  better-Chosen :
      (k : Bytes) (f : ℕ) (key : Bytes) (best : Option (Bytes × ℕ))
      → Chosen k (better f key best)
      → (key ≡ k) ⊎ Chosen k best
  unfolding better
  better-Chosen k f key none h = inl h
  better-Chosen k f key (some (b, g)) h = elim (Bool-cases (ltb f g)) [
    | inl less ↦ inl (rw less at h)
    | inr more ↦ inr (rw more at h)
  ]

  pick_loop-Offered :
      (p : Policy.Policy) (pol : EvictionPolicy) (exclude : Option Bytes)
      (cands : List (Bytes × Entry)) (best : Option (Bytes × ℕ)) {victim : Bytes}
      → is_policy pol EvictionPolicy.all_keys_random ≡ false
      → pick_loop S fingerprint p pol exclude cands best ≡ some victim
      → Offered exclude victim cands ⊎ Chosen victim best
  unfolding pick_loop Offered
  pick_loop-Offered p pol exclude [] none lfu h = absurd (cc)
  pick_loop-Offered p pol exclude [] (some (b, f)) lfu h = inr (ground arith)
  pick_loop-Offered p pol exclude ((key, e) ∷ rest) best {victim} lfu h =
      elim (Bool-cases (excluded exclude key)) [
        | inl out ↦
            elim (pick_loop-Offered p pol exclude rest best lfu (rw (out, pick_loop) at h)) [
              | inl later ↦ inl (inr later)
              | inr before ↦ inr before
            ]
        | inr in_play ↦
            elim (pick_loop-Offered p pol exclude rest (better (freq p key) key best) lfu
              (rw (in_play, lfu, pick_loop) at h)) [
                | inl later ↦ inl (inr later)
                | inr chosen ↦ elim (better-Chosen victim (freq p key) key best chosen) [
                  | inl same ↦ inl (inl (same, in_play))
                  | inr before ↦ inr before
                ]
              ]
      ]

  -- Under a policy other than allkeys-random the victim is one of the sampled keys that are not
  -- excluded and, by the frequency that the sketch estimates, the least used of them.
  pub pick_victim_least :
      (p : Policy.Policy) (pol : EvictionPolicy) (exclude : Option Bytes)
      (cands : List (Bytes × Entry)) {victim : Bytes}
      → is_policy pol EvictionPolicy.all_keys_random ≡ false
      → pick_victim S fingerprint p pol exclude cands ≡ some victim
      → Offered exclude victim cands
        × All
            (λ x.
              (excluded exclude x.0 ≡ true)
              ⊎ (Policy.estimate p (fingerprint victim) ≤ Policy.estimate p (fingerprint x.0)))
            cands
  unfolding pick_victim
  pick_victim_least p pol exclude cands lfu h = (
    elim (pick_loop-Offered p pol exclude cands none lfu h) [
      | inl offered ↦ offered
      | inr nobody ↦ absurd nobody
    ],
    (pick_loop_least p pol exclude cands none lfu tt h).0,
  )
