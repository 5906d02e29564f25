-- ===== src/Shardmap/Table/Probe.antt =====
-- The probe of `lookup` and `delete` decides whether a key is stored, within its fuel.
use cachemoney.Base.{
  ℕ, zero, suc, ◌+◌, ◌-◌, ◌%◌, ◌^◌, ◌≤◌, ◌<◌, ◌≡◌, ◌≢◌, refl, sym, ap, ◌∙◌, Bool, true, false, ◌&&◌,
  Option, none, some, List, arith, ltb, ◌==◌, ==_iff, length, Bool-cases, inl, inr,
}
use cachemoney.Shardmap.Meta.{frag_of, meta_frag, dib_of, rank, frag_of-eq, meta_frag-eq}
use cachemoney.Shardmap.Table.{Keys, Slot, same_key}
use cachemoney.Shardmap.Table.Mass.{at, occurs}
use cachemoney.Shardmap.Table.Sound.{IsSound, absent_at, absent-occurs, rank_bound, rank-eq-dib}
use cachemoney.Shardmap.Table.{probe}
use cachemoney.Shardmap.Table.Ends.{next_at}

module _ {K V : Type 0} (keys : Keys K V) (hf : K → ℕ) where
  -- What the probe for `q` answers.
  unfoldable pub Decides : List (Slot K V) → K → Option ℕ → Type 0
  Decides a q none = occurs keys q a ≡ 0
  Decides a q (some i) =
      (x : ℕ) × (i ≡ x % length a) × ((at keys a x).meta ≢ 0) × ((at keys a x).key ≡ q)

  module _ {a : List (Slot K V)} (v : IsSound keys hf a) (q : K) where
    abbrev Passed : ℕ → Type 0
    Passed d = (e : ℕ) → e < d → (at keys a (hf q + e)).meta ≢ 0 → (at keys a (hf q + e)).key ≢ q

    stop_early : (d : ℕ) → Passed d → rank (at keys a (hf q + d)).meta ≤ d → occurs keys q a ≡ 0
    stop_early d passed low = absent-occurs keys hf q a (absent_at keys hf v q d passed low)

    pass_one :
        (d : ℕ)
        → Passed d
        → (at keys a (hf q + d)).meta ≢ 0
        → same_key keys (at keys a (hf q + d)) (frag_of (hf q)) q ≡ false
        → Passed (d + 1)
    pass_one d passed taken miss e near t same = elim (Bool-cases (e == d)) [
      | inl here ↦
          let at_d : e ≡ d = (==_iff e d).0 here in
          let key_d : (at keys a (hf q + d)).key ≡ q =
            ap (λ z. (at keys a (hf q + z)).key) (sym at_d) ∙ same in
          let s = v.housed (hf q + d) taken in
          let frags : meta_frag (at keys a (hf q + d)).meta ≡ frag_of (hf q) =
            meta_frag-eq (at keys a (hf q + d)).meta
            ∙ s.frag
            ∙ ap (λ h. h % 256) (s.hashed ∙ ap hf key_d)
            ∙ sym (frag_of-eq (hf q)) in
          let one = (keys.beq_iff (at keys a (hf q + d)).key q).1 key_d in
          let two = (==_iff (meta_frag (at keys a (hf q + d)).meta) (frag_of (hf q))).1 frags in
          absurd (ground (arith, one, two, miss))
      | inr before ↦ passed e (ground arith) t same
    ]

    pub probe-Decides :
        (p f d : ℕ)
        → length a ≡ 2 ^ p
        → d ≤ 255
        → d + f ≡ 256
        → Passed d
        → (r : Option ℕ) × (probe keys f (2 ^ p - 1) a (frag_of (hf q)) q ((hf q + d) % length a) d
            ≡ some r)
          × Decides a q r
    unfolding probe Decides
    probe-Decides p zero d size low full passed = absurd (omega arith)
    probe-Decides p (suc f) d size low full passed =
        let x : ℕ = hf q + d in
        elim (Bool-cases ((at keys a x).meta == 0)) [
          | inl free ↦
              let z = (==_iff (at keys a x).meta 0).0 free in
              (none, rw free, stop_early d passed (omega (arith, z)))
          | inr taken ↦
              let there : (at keys a x).meta ≢ 0 = λ z. ground arith in
              let r = rank-eq-dib keys hf v x there in
              let most = rank_bound keys hf v x in
              elim (Bool-cases (ltb (dib_of (at keys a x).meta) d)) [
                | inl richer ↦ (none, rw (taken, richer), stop_early d passed (ground (arith, r)))
                | inr poorer ↦ elim (Bool-cases (same_key keys (at keys a x) (frag_of (hf q)) q)) [
                  | inl match ↦ (
                    some (x % length a),
                    rw (taken, poorer, match),
                    (x, refl, there, (keys.beq_iff (at keys a x).key q).0 (and_right _ _ match)),
                  )
                  | inr miss ↦
                      let onward : suc x % length a ≡ (hf q + (d + 1)) % length a =
                        ap (λ t. t % length a) (omega arith) in
                      let next = next_at keys p a x size ∙ onward in
                      let (o, e, dec) =
                        probe-Decides p f (d + 1) size (ground (arith, r, most)) (omega arith)
                          (pass_one d passed there miss) in
                      (o, rw (taken, poorer, miss, next) e, dec)
                ]
              ]
        ]
      where
        and_right : (p q : Bool) → p && q ≡ true → q ≡ true
        and_right true q h = h
        and_right false q h = cc
