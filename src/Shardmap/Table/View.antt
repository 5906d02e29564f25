-- ===== src/Shardmap/Table/View.antt =====
-- What a table promises: it is a finite map from keys to values, whatever its slots.
use cachemoney.Base.{
  ℕ, suc, ◌+◌, ◌-◌, ◌≡◌, ◌≢◌, sym, ap, ◌∙◌, true, false, Option, none, some, List, arith,
  if◌then◌else◌, Bool-cases, inl, inr,
}
use mathlib.Core.Path.{subst}
use cachemoney.Shardmap.Table.Mass.{search_mass, weigh, weigh-le, at, is_key}
use cachemoney.Base.{◌≢◌, ◌<◌}
use cachemoney.Shardmap.Table.{Keys, Slot, Item, Table, lookup}
use cachemoney.Shardmap.Table.Mass.{mass}
use cachemoney.Shardmap.Table.Valid.{IsValid, Describes, described_once, lookup_total, lookup_is}
use cachemoney.Shardmap.Table.Effect.{
  Stored, Dropped, Alike, forgets, Stored-Describes_self, Stored-Describes_other,
  Dropped-Describes_self, Dropped-Describes_other, Alike-Describes,
}

module _ {K V : Type 0} (keys : Keys K V) (hf : K → ℕ) where
  -- The map that a table stands for, as its lookups show it.
  abbrev pub shown : Option (Option V) → Option V
  shown none = none
  shown (some o) = o

  abbrev pub view : Table K V → K → Option V
  view t q = shown (lookup keys t (hf q) q)

  unfoldable pub with_key : K → V → (K → Option V) → K → Option V
  with_key k v m q = if keys.beq k q then some v else m q

  unfoldable pub without_key : K → (K → Option V) → K → Option V
  without_key k m q = if keys.beq k q then none else m q

  pub view-Describes :
      {t : Table K V} (v : IsValid keys hf t) (q : K) → Describes keys hf t.slots q (view t q)
  view-Describes {t} v q =
      let (o, e, d) = lookup_total keys hf v q in
      subst (λ z. Describes keys hf t.slots q (shown z)) (sym e) d

  pub view_is :
      {t : Table K V} (v : IsValid keys hf t) (q : K) (o : Option V)
      → Describes keys hf t.slots q o
      → view t q ≡ o
  view_is v q o d = ap shown (lookup_is keys hf v q o d)

  pub Alike-Stored :
      {a b z : List (Slot K V)} (c : Item K V) (o : Option V)
      → Describes keys hf a c.key o
      → Alike keys hf a b
      → Stored keys hf b c z
      → Stored keys hf a c z
  Alike-Stored {a} {b} c o d h s = record {
    old = o;
    before = d;
    sum = λ w.
        let x₁ = s.sum w in
        let x₂ = h.sum w in
        let x₃ =
          ap (forgets keys hf w c.key) (
            described_once keys hf b c.key o s.old (Alike-Describes keys hf c.key o h d)
              s.before) in
        omega (arith, x₁, x₂, x₃);
    every = λ P all here. s.every P (h.every (λ k u. k ≢ c.key → P k u) all) here;
  }

  yes_no : true ≡ false → ⊥
  yes_no e = cc

  -- A stored item shows in the map, and nothing else changes there.
  pub Stored-view :
      {t t' : Table K V} (v : IsValid keys hf t) (v' : IsValid keys hf t') (c : Item K V)
      → Stored keys hf t.slots c t'.slots
      → view t' ≡ with_key c.key c.val (view t)
  unfolding with_key
  Stored-view {t} {t'} v v' c s = λ i q. pointwise q i
    where
      pointwise : (q : K) → view t' q ≡ (if keys.beq c.key q then some c.val else view t q)
      pointwise q = elim (Bool-cases (keys.beq c.key q)) [
        | inl same ↦
            let e = (keys.beq_iff c.key q).0 same in
            ap (view t') (sym e)
            ∙ view_is v' c.key (some c.val) (Stored-Describes_self keys hf c s)
            ∙ sym (ap (λ b. if b then some c.val else view t q) same)
        | inr apart ↦
            let differ : c.key ≢ q = λ e. yes_no (sym ((keys.beq_iff c.key q).1 e) ∙ apart) in
            view_is v' q (view t q)
              (Stored-Describes_other keys hf c q (view t q) s differ (view-Describes v q))
            ∙ sym (ap (λ b. if b then some c.val else view t q) apart)
      ]

  pub Dropped-view :
      {t t' : Table K V} (v : IsValid keys hf t) (v' : IsValid keys hf t') (k : K) (old : V)
      → Dropped keys hf t.slots k old t'.slots
      → view t' ≡ without_key k (view t)
  unfolding without_key
  Dropped-view {t} {t'} v v' k old s = λ i q. pointwise q i
    where
      pointwise : (q : K) → view t' q ≡ (if keys.beq k q then none else view t q)
      pointwise q = elim (Bool-cases (keys.beq k q)) [
        | inl same ↦
            let e = (keys.beq_iff k q).0 same in
            ap (view t') (sym e)
            ∙ view_is v' k none (Dropped-Describes_self keys hf k old s (v.sound.unique k))
            ∙ sym (ap (λ b. if b then none else view t q) same)
        | inr apart ↦
            let differ : k ≢ q = λ e. yes_no (sym ((keys.beq_iff k q).1 e) ∙ apart) in
            view_is v' q (view t q)
              (Dropped-Describes_other keys hf k old q (view t q) s differ (view-Describes v q))
            ∙ sym (ap (λ b. if b then none else view t q) apart)
      ]

  -- Entries after an insertion and a deletion, by what was there.
  abbrev pub count_with : Option V → ℕ → ℕ
  count_with none n = suc n
  count_with (some v) n = n

  abbrev pub count_without : Option V → ℕ → ℕ
  count_without none n = n
  count_without (some v) n = n - 1

  pub Stored-count :
      {t t' : Table K V} (v : IsValid keys hf t) (v' : IsValid keys hf t') (c : Item K V)
      → Stored keys hf t.slots c t'.slots
      → t'.count ≡ count_with (view t c.key) t.count
  Stored-count {t} {t'} v v' c s =
      by_old s.old (s.sum (λ k u. 1))
      ∙ ap (λ o. count_with o t.count) (sym (view_is v c.key s.old s.before))
    where
      by_old :
          (o : Option V)
          → mass keys (λ k u. 1) t'.slots + forgets keys hf (λ k u. 1) c.key o
            ≡ mass keys (λ k u. 1) t.slots + 1
          → t'.count ≡ count_with o t.count
      by_old none e = let x₁ = v.counted in let x₂ = v'.counted in omega arith
      by_old (some u) e = let x₁ = v.counted in let x₂ = v'.counted in omega arith

  pub Dropped-count :
      {t t' : Table K V} (v : IsValid keys hf t) (v' : IsValid keys hf t') (k : K) (old : V)
      → Dropped keys hf t.slots k old t'.slots
      → t'.count ≡ t.count - 1
  Dropped-count v v' k old s =
      let x₁ = s.sum (λ k u. 1) in
      let x₂ = v.counted in let x₃ = v'.counted in omega (arith, x₁, x₂, x₃)

  -- A table that shows a value has an entry.
  pub shown_positive :
      {t : Table K V} (v : IsValid keys hf t) (k : K) (u : V) → view t k ≡ some u → 0 < t.count
  unfolding Describes
  shown_positive {t} v k u e =
      let (there, _) = subst (Describes keys hf t.slots k) e (view-Describes v k) in
      let (x, taken, _) = search_mass keys (is_key keys k) t.slots there in
      let heavy = weigh-le keys (λ k u. 1) t.slots x v.sound.room in
      let one : weigh keys (λ k u. 1) (at keys t.slots x) ≡ 1 = ground arith in
      let counted = v.counted in omega (arith, heavy, one)
