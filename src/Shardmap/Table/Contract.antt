-- ===== src/Shardmap/Table/Contract.antt =====
-- What the operations of a table do to the map it stands for.
use cachemoney.Base.{
  ◌+◌, ◌≢◌, ℕ, suc, ◌*◌, ◌^◌, ◌≤◌, ◌<◌, ◌≡◌, refl, sym, ap, ◌∙◌, Option, some, arith, leb,
  if◌then◌else◌, length, Bool-cases, inl, inr,
}
use cachemoney.Base.Results.{bind, bind-eq-some}
use mathlib.Core.Path.{subst}
use mathlib.Core.Option.{some-injective}
use native.Mathlib.Nat.{mul-le-mul_right}
use cachemoney.Shardmap.Table.Window.{crowding, Sparse, Spread}
use cachemoney.Shardmap.Table.Mass.{mass}
use cachemoney.Shardmap.Table.Effect.{forgets}
use cachemoney.Shardmap.Table.Regrow.{Answering, Reaches, no_fewer, Reaches-le}
use cachemoney.Shardmap.Table.Mass.{Every}
use cachemoney.Shardmap.Table.{Keys, Item, Table, resize, set_item, grow, insert}
use cachemoney.Shardmap.Table.Valid.{IsValid}
use cachemoney.Shardmap.Table.Effect.{Alike}
use native.Mathlib.Nat.{pow-suc}
use cachemoney.Shardmap.Table.Grow.{set_item-Sets, set_item-Setter, resize-Resizes, at_least_8}
use cachemoney.Shardmap.Table.Regrow.{resize_answers}
use cachemoney.Shardmap.Table.Answers.{set_item-Answering}
use cachemoney.Shardmap.Table.View.{
  view_is, view, view-Describes, with_key, without_key, Alike-Stored, Stored-view, Stored-count,
  count_with, count_without,
}

module _ {K V : Type 0} (keys : Keys K V) (hf : K → ℕ) where
  -- `t'` is `t` with the value `v` for the key `k`.
  pub record Inserts (t : Table K V) (k : K) (v : V) (t' : Table K V) : Type 1 where
    pub valid : IsValid keys hf t'
    pub shows : view keys hf t' ≡ with_key keys hf k v (view keys hf t)
    pub counts : t'.count ≡ count_with keys hf (view keys hf t k) t.count
    pub sum :
        (w : K → V → ℕ)
        → mass keys w t'.slots + forgets keys hf w k (view keys hf t k)
          ≡ mass keys w t.slots + w k v
    -- What holds of the other entries and of the new one holds of every entry.
    pub every :
        (P : K → V → Type 0)
        → Every keys (λ q u. q ≢ k → P q u) t.slots
        → P k v
        → Every keys P t'.slots

  pub record Deletes (t : Table K V) (k : K) (r : Table K V × Option V) : Type 1 where
    pub valid : IsValid keys hf r.0
    pub removed : r.1 ≡ view keys hf t k
    pub shows : view keys hf r.0 ≡ without_key keys hf k (view keys hf t)
    pub counts : r.0.count ≡ count_without keys hf (view keys hf t k) t.count
    pub sum :
        (w : K → V → ℕ)
        → mass keys w r.0.slots + forgets keys hf w k (view keys hf t k) ≡ mass keys w t.slots
    pub every : (P : K → V → Type 0) → Every keys P t.slots → Every keys P r.0.slots

  -- The table before the item is set: grown if it was full.
  pub record Roomy (t t₁ : Table K V) : Type 1 where
    pub valid : IsValid keys hf t₁
    pub room : t₁.count < t₁.grow_at
    pub same_count : t₁.count ≡ t.count
    pub alike : Alike keys hf t.slots t₁.slots
    pub longer : length t.slots ≤ length t₁.slots

  abbrev pub roomy : ℕ → Table K V → Option (Table K V)
  roomy f t = if leb t.grow_at t.count then grow keys f t else some t

  grown_power : {t : Table K V} (v : IsValid keys hf t) → length t.slots * 2 ≡ 2 ^ suc v.power
  grown_power v = let double = pow-suc 2 v.power in let size = v.size in omega (arith, double, size)

  pub roomy-Roomy :
      (f : ℕ) {t t₁ : Table K V} (v : IsValid keys hf t) → roomy f t ≡ some t₁ → Roomy t t₁
  unfolding grow
  roomy-Roomy f {t} {t₁} v e = elim (Bool-cases (leb t.grow_at t.count)) [
    | inl full ↦
        let more = grown_power v in
        let big = at_least_8 keys hf v.power v.least in
        let size = v.size in
        let limit = v.limit in
        let fits = v.fits in
        let counted = v.counted in
        let k = v.least in
        let grown = rw full at e in
        let done =
          resize-Resizes keys hf (set_item keys f) (set_item-Setter keys hf f) t t₁ (suc v.power)
            v.sound (omega (arith, k)) (omega (arith, more, size, limit, fits, counted))
            (ap (resize keys (set_item keys f) t) (sym more) ∙ grown) in
        let x₁ = done.no_smaller in
        let x₂ = done.alike.sum (λ k v. 1) in
        let x₃ = done.valid.counted in
        record {
          valid = done.valid;
          room = omega (arith, x₁, x₂, x₃, more, size, limit, fits, counted, big);
          same_count = omega (arith, x₂, x₃, counted);
          alike = done.alike;
          longer =
              let wide =
                no_fewer keys hf (2 ^ suc v.power) done.valid (suc v.power) (omega (arith, k)) refl
                  x₁ in
              omega (arith, wide, more);
        }
    | inr space ↦ subst (Roomy t) (some-injective _ _ (rw space at e)) (record {
      valid = v;
      room = ground arith;
      same_count = refl;
      alike = record { sum = λ w. refl; every = λ P all. all };
      longer = omega arith;
    })
  ]

  -- An insertion that returns.
  pub insert-Inserts :
      (f : ℕ) {t t' : Table K V} (v : IsValid keys hf t) (k : K) (u : V)
      → insert keys f t (hf k) k u ≡ some t'
      → Inserts t k u t'
  unfolding insert
  insert-Inserts f {t} {t'} v k u e =
      let c : Item K V = record { hash = hf k; key = k; val = u } in
      let (t₁, first, next) = bind-eq-some (roomy f t) (λ t₁. set_item keys f t₁ c) e in
      let r = roomy-Roomy f v first in
      let done = set_item-Sets keys hf f t₁ c t' r.valid r.room refl next in
      let stored =
        Alike-Stored keys hf c (view keys hf t k) (view-Describes keys hf v k) r.alike
          done.stored in
      record {
        valid = done.valid;
        shows = Stored-view keys hf v done.valid c stored;
        counts = Stored-count keys hf v done.valid c stored;
        every = λ P all here. stored.every P all here;
        sum = λ w.
            ap (λ o. mass keys w t'.slots + forgets keys hf w k o)
              (view_is keys hf v k stored.old stored.before)
            ∙ stored.sum w;
      }

  wider : (n f : ℕ) {m r : ℕ} → n * 2 ≡ m → r ≤ n * 2 ^ f → r ≤ m * 2 ^ f
  wider n f e h =
      let le : n ≤ n * 2 = omega arith in
      let x₁ = mul-le-mul_right (2 ^ f) le in
      let x₂ = ap (λ k. k * 2 ^ f) e in omega (arith, x₁, x₂, h)

  -- An insertion returns where its fuel lets the table grow to a capacity at which its entries and the
  -- key are sparse.
  pub insert_answers :
      (f q : ℕ) {t : Table K V} (v : IsValid keys hf t) (k : K) (u : V)
      → Sparse keys hf q t.slots (hf k)
      → Reaches keys hf q f t
      → (t' : Table K V) × (insert keys (suc f) t (hf k) k u ≡ some t')
  unfolding insert grow Sparse Spread Answering
  insert_answers f q {t} v k u sparse reach =
      let c : Item K V = record { hash = hf k; key = k; val = u } in
      let (t₁, e) = first in
      let r = roomy-Roomy (suc f) v e in
      let moved = λ (x : ℕ). r.alike.sum (crowding keys hf (2 ^ q) x) in
      let (t', done) =
        set_item-Answering keys hf f q t₁ c r.valid r.room refl
          (λ x. let all = sparse x in let m = moved x in omega (arith, all, m))
          (Reaches-le keys hf q f t t₁ r.longer reach) in
      (t', ap (λ o. bind o (λ t₁. set_item keys (suc f) t₁ c)) e ∙ done)
    where
      first : (t₁ : Table K V) × (roomy (suc f) t ≡ some t₁)
      first = elim (Bool-cases (leb t.grow_at t.count)) [
        | inl full ↦
            let more = grown_power v in
            let size = v.size in
            let limit = v.limit in
            let fits = v.fits in
            let counted = v.counted in
            let k = v.least in
            let (t₁, e) =
              resize_answers keys hf (set_item keys (suc f)) q f (set_item-Setter keys hf (suc f))
                (set_item-Answering keys hf f q) t (suc v.power) v.sound (omega (arith, k))
                (omega (arith, more, size, limit, fits, counted))
                (λ x. let all = sparse x in omega (arith, all))
                (wider (length t.slots) f more reach) in
            (
              t₁,
              ap (λ b. if b then grow keys (suc f) t else some t) full
                  ∙ ap (resize keys (set_item keys (suc f)) t) more
                  ∙ e,
            )
        | inr space ↦ (t, ap (λ b. if b then grow keys (suc f) t else some t) space)
      ]
