-- ===== src/Cache/Engine/Writes.antt =====
-- `Set` and `Del`, alone: what they store, what they remove, the accounting and the ceiling.
use cachemoney.Base.{
  ℕ, ◌≡◌, ◌≢◌, refl, ap, ◌∙◌, ◌⊎◌, inl, inr, true, false, Option, none, some, Bool-cases, bytes_eq,
  bytes_eq_iff, bytes_eq_refl,
}
use cachemoney.Base.Int.{ℤ, int_laws, eq_of_parts}
use cachemoney.Cache.Entry.{Bytes, Entry, new_entry, cost_of}
use cachemoney.Cache.Store.{Store, weight_of}
use cachemoney.Cache.Engine.{
  Cache, oom, Answer, store_entry, rejects, over, old_cost, set_value, excluded,
}
use cachemoney.Cache.Engine.Victims.{IsAccounted, entry_cost}
use cachemoney.Cache.Engine.Evict.{Ends, evict_until_under-Ends}
use mathlib.Core.Path.{subst}

module _ (S : Store) (fingerprint : Bytes → ℕ) where
  open S use {State, get, entries, swap, delete}

  old_cost-weight :
      (key : Bytes) (o : Option Entry) → old_cost S fingerprint key o ≡ weight_of entry_cost key o
  old_cost-weight key none = refl
  old_cost-weight key (some e) = refl

  store_entry-IsAccounted :
      (c : Cache State) (key : Bytes) (e : Entry)
      → IsAccounted S fingerprint c
      → S.HasRoom c.m key
      → IsAccounted S fingerprint (store_entry S fingerprint c key e)
  unfolding store_entry
  store_entry-IsAccounted c key e v room = record {
    valid = S.swap-IsValid c.m key e v.valid room;
    exact =
        let sums = S.total-swap entry_cost c.m key e v.valid room in
        let old =
          ap (old_cost S fingerprint key) (S.swap_old c.m key e v.valid room)
          ∙ old_cost-weight key (get c.m key) in
        rw (v.exact, old) (eq_of_parts _ _ (omega int_laws));
  }

  -- What a `Set` that was accepted leaves.
  pub record Stored (draws : ℕ → ℕ → ℕ) (key : Bytes) (e : Entry) (c c' : Cache State)
      : Type 0 where
    pub accounted : IsAccounted S fingerprint c'
    pub found : get c'.m key ≡ some e
    pub others : (j : Bytes) → key ≢ j → (get c'.m j ≡ get c.m j) ⊎ (get c'.m j ≡ none)
    pub bounded :
        over S fingerprint (store_entry S fingerprint c key e) ≡ true
        → Ends S fingerprint draws c.maxmemory c.evict_pol (some key) c'
    pub untouched :
        over S fingerprint (store_entry S fingerprint c key e) ≡ false
        → c' ≡ store_entry S fingerprint c key e

  stored_others :
      (c : Cache State) (key : Bytes) (e : Entry) (j : Bytes)
      → IsAccounted S fingerprint c
      → S.HasRoom c.m key
      → key ≢ j
      → get (store_entry S fingerprint c key e).m j ≡ get c.m j
  unfolding store_entry
  stored_others c key e j v room ne = elim (Bool-cases (bytes_eq key j)) [
    | inl same ↦ absurd (ne ((bytes_eq_iff key j).0 same))
    | inr other ↦ S.get-swap c.m key e j v.valid room ∙ rw other
  ]

  stored_found :
      (c : Cache State) (key : Bytes) (e : Entry)
      → IsAccounted S fingerprint c
      → S.HasRoom c.m key
      → get (store_entry S fingerprint c key e).m key ≡ some e
  unfolding store_entry
  stored_found c key e v room = S.get-swap c.m key e key v.valid room ∙ rw (bytes_eq_refl key)

  excluded_self : (key : Bytes) → excluded (some key) key ≡ true
  unfolding excluded
  excluded_self key = bytes_eq_refl key

  pub set_value_lem :
      (draws : ℕ → ℕ → ℕ) (c : Cache State) (key value : Bytes) (ttl now : ℤ)
      → IsAccounted S fingerprint c
      → S.HasRoom c.m key
      → (c' : Cache State) × (a : Answer (Unit {0})) × (set_value S fingerprint draws c none key
            value ttl now
          ≡ some (c', a))
        × (((a ≡ inl oom)
              × (c' ≡ c)
              × (rejects S fingerprint c key (cost_of key (new_entry value ttl now).value) ≡ true))
            ⊎ ((a ≡ inr tt)
                × Stored draws key (new_entry value ttl now) c c'
                × (rejects S fingerprint c key (cost_of key (new_entry value ttl now).value)
                    ≡ false)))
  unfolding set_value
  set_value_lem draws c key value ttl now v room =
      let e = new_entry value ttl now in
      let s = store_entry S fingerprint c key e in
      let sv = store_entry-IsAccounted c key e v room in
      elim (Bool-cases (rejects S fingerprint c key (cost_of key e.value))) [
        | inl bad ↦ (c, inl oom, rw bad, inl (refl, refl, bad))
        | inr fine ↦ elim (Bool-cases (over S fingerprint s)) [
          | inr under ↦ (
            s,
            inr tt,
            rw (fine, under),
            inr (
              refl,
              record {
                accounted = sv;
                found = stored_found c key e v room;
                others = λ j ne. inl (stored_others c key e j v room ne);
                bounded = λ h. absurd (cc);
                untouched = λ h. refl;
              },
              fine,
            ),
          )
          | inl full ↦
              let (c', run, out, ends) =
                evict_until_under-Ends S fingerprint draws s.maxmemory s.evict_pol (some key) s
                  sv in
              (
                c',
                inr tt,
                rw (fine, full, run),
                inr (
                  refl,
                  record {
                    accounted = out.accounted;
                    found = out.spared key (excluded_self key) ∙ stored_found c key e v room;
                    others =
                        λ j ne. after_eviction j (out.others j) (stored_others c key e j v room ne);
                    bounded = λ h. unfold store_entry in ends;
                    untouched = λ h. absurd (cc);
                  },
                  fine,
                ),
              )
        ]
      ]
    where
      after_eviction :
          {a b d : Option Entry} (j : Bytes) → (a ≡ b) ⊎ (a ≡ none) → b ≡ d → (a ≡ d) ⊎ (a ≡ none)
      after_eviction j (inl same) h = inl (same ∙ h)
      after_eviction j (inr gone) h = inr gone

  -- The outcome of a `Set` that answered success.
  pub set_value-Stored :
      (draws : ℕ → ℕ → ℕ) (c c' : Cache State) (key value : Bytes) (ttl now : ℤ)
      → IsAccounted S fingerprint c
      → S.HasRoom c.m key
      → set_value S fingerprint draws c none key value ttl now ≡ some (c', inr tt)
      → Stored draws key (new_entry value ttl now) c c'
  set_value-Stored draws c c' key value ttl now v room h =
      let (c₁, a, run, outcome) = set_value_lem draws c key value ttl now v room in
      let same : c₁ ≡ c' = cc in
      let answer : a ≡ inr tt = cc in
      elim outcome [
        | inl (bad, _, _) ↦ absurd (cc)
        | inr (good, stored, _) ↦ subst (Stored draws key (new_entry value ttl now) c) same stored
      ]
