-- ===== src/Shardmap/Table/Promise.antt =====
-- A table as a finite map: what `newTable`, `insert` and `delete` do to it.
use cachemoney.Base.{
  ℕ, zero, suc, ◌+◌, ◌-◌, ◌*◌, ◌/◌, ◌^◌, ◌≤◌, ◌≡◌, refl, sym, ap, ◌∙◌, Option, none, some, arith,
  ltb, if◌then◌else◌, Bool-cases, inl, inr,
}
use cachemoney.Base.Results.{bind, bind-eq-some}
use mathlib.Core.Path.{subst}
use mathlib.Core.Option.{some-injective}
use cachemoney.Shardmap.Table.Window.{crowding, Sparse, Spread}
use cachemoney.Shardmap.Table.Effect.{forgets}
use cachemoney.Shardmap.Table.Regrow.{Reaches, Reaches-le}
use cachemoney.Shardmap.Table.{
  Keys, Table, alloc, rounds, insert, val_at, remove_at, shift_loop, shrink, delete, cap_for,
  too_small, new_table,
}
use cachemoney.Shardmap.Table.Mass.{at, is_key, weigh, mass-replicate}
use cachemoney.Shardmap.Table.Probe.{Decides}
use cachemoney.Shardmap.Table.Valid.{IsValid, Describes, found_in}
use native.Mathlib.Nat.{pow-suc, pow-le-pow_right, mod-eq_of_lt}
use cachemoney.Base.{◌%◌, true}
use cachemoney.Shardmap.Table.Grow.{same_size-IsValid, alloc-IsValid}
use cachemoney.Shardmap.Table.Remove.{vacate, Vacated-Dropped, Dropped-Alike, shrink-Alike}
use cachemoney.Shardmap.Table.Answers.{shrink_answers}
use cachemoney.Shardmap.Table.View.{
  view, view_is, without_key, Dropped-view, Dropped-count, count_without,
}
use cachemoney.Shardmap.Table.Contract.{Inserts, Deletes, insert-Inserts, insert_answers}

module _ {K V : Type 0} (keys : Keys K V) (hf : K → ℕ) where
  -- Once the slot of the key is found.
  remove_at-Deletes :
      (f : ℕ) {t : Table K V} {r : Table K V × Option V} (v : IsValid keys hf t) (k : K)
      (i : Option ℕ)
      → Decides keys hf t.slots k i
      → remove_at keys f t i ≡ some r
      → Deletes keys hf t k r
  unfolding Decides remove_at Describes without_key
  remove_at-Deletes f {t} v k none gone e =
      let absent = view_is keys hf v k none gone in
      subst (Deletes keys hf t k) (some-injective _ _ e) (record {
        valid = v;
        removed = sym absent;
        shows = λ i q. unchanged absent q i;
        counts = ap (λ o. count_without keys hf o t.count) (sym absent);
        every = λ P all. all;
        sum = λ w. let x = ap (forgets keys hf w k) absent in omega (arith, x);
      })
    where
      unchanged :
          view keys hf t k ≡ none
          → (q : K) → view keys hf t q ≡ (if keys.beq k q then none else view keys hf t q)
      unchanged absent q = elim (Bool-cases (keys.beq k q)) [
        | inl same ↦
            ap (view keys hf t) (sym ((keys.beq_iff k q).0 same))
            ∙ absent
            ∙ sym (ap (λ b. if b then none else view keys hf t q) same)
        | inr apart ↦ sym (ap (λ b. if b then none else view keys hf t q) apart)
      ]
  remove_at-Deletes f {t} {r} v k (some i) (x, here, taken, same) e =
      let (b, shifted, vac) = vacate keys hf v x taken in
      let drop = Vacated-Dropped keys hf v.sound k x taken same vac in
      let (b', e₁, more) = bind-eq-some (shift_loop keys (rounds keys t) t.capm1 t.slots i) _ e in
      let b_same : b ≡ b' =
        some-injective _ _
          (sym shifted ∙ ap (shift_loop keys (rounds keys t) t.capm1 t.slots) (sym here) ∙ e₁) in
      let (t', e₂, last) =
        bind-eq-some (shrink keys f (record t { slots = b'; count = t.count - 1 })) _ more in
      let x₁ = vac.sum (λ k u. 1) in
      let x₂ : weigh keys (λ k u. 1) (at keys t.slots x) ≡ 1 = ground arith in
      let counted = v.counted in
      let fits = v.fits in
      let v₁ : IsValid keys hf (record t { slots = b; count = t.count - 1 }) =
        same_size-IsValid keys hf v b (t.count - 1) vac.sound vac.same_length
          (omega (arith, x₁, x₂, counted)) (omega (arith, fits)) in
      let (v₂, alike) =
        shrink-Alike keys hf f (record t { slots = b; count = t.count - 1 }) t' v₁
          (ap (λ s. shrink keys f (record t { slots = s; count = t.count - 1 })) b_same ∙ e₂) in
      let all = Dropped-Alike keys hf k (at keys t.slots x).val drop alike in
      let there = view_is keys hf v k (some (at keys t.slots x).val) drop.before in
      subst (Deletes keys hf t k) (some-injective _ _ last) (record {
        valid = v₂;
        removed = ap (λ j. some (val_at keys t j)) here ∙ sym there;
        shows = Dropped-view keys hf v v₂ k (at keys t.slots x).val all;
        counts =
            Dropped-count keys hf v v₂ k (at keys t.slots x).val all
            ∙ ap (λ o. count_without keys hf o t.count) (sym there);
        every = λ P same. all.every P (λ x t apart. same x t);
        sum =
            λ w. let x = all.sum w in let y = ap (forgets keys hf w k) there in omega (arith, x, y);
      })

  -- A deletion that returns.
  pub delete-Deletes :
      (f : ℕ) {t : Table K V} {r : Table K V × Option V} (v : IsValid keys hf t) (k : K)
      → delete keys f t (hf k) k ≡ some r
      → Deletes keys hf t k r
  unfolding delete
  delete-Deletes f {t} v k e =
      let (i, found, dec) = found_in keys hf v k in
      remove_at-Deletes f v k i dec (sym (ap (λ o. bind o (remove_at keys f t)) found) ∙ e)

  remove_at_answers :
      (f q : ℕ) {t : Table K V} (v : IsValid keys hf t) (k : K) (i : Option ℕ)
      → Spread keys hf q t.slots
      → Reaches keys hf q f t
      → Decides keys hf t.slots k i
      → (r : Table K V × Option V) × (remove_at keys (suc (suc f)) t i ≡ some r)
  unfolding Decides remove_at Spread
  remove_at_answers f q {t} v k none spread reach dec = ((t, none), refl)
  remove_at_answers f q {t} v k (some i) spread reach (x, here, taken, same) =
      let (b, shifted, vac) = vacate keys hf v x taken in
      let x₁ = vac.sum (λ k u. 1) in
      let x₂ : weigh keys (λ k u. 1) (at keys t.slots x) ≡ 1 = ground arith in
      let counted = v.counted in
      let fits = v.fits in
      let v₁ : IsValid keys hf (record t { slots = b; count = t.count - 1 }) =
        same_size-IsValid keys hf v b (t.count - 1) vac.sound vac.same_length
          (omega (arith, x₁, x₂, counted)) (omega (arith, fits)) in
      let (t', done) =
        shrink_answers keys hf f q v₁
          (λ y.
            let all = spread y in
            let gone = vac.sum (crowding keys hf (2 ^ q) y) in omega (arith, all, gone))
          (Reaches-le keys hf q f t (record t { slots = b; count = t.count - 1 })
            (let len = vac.same_length in omega (arith, len)) reach) in
      (
        (t', some (val_at keys t i)),
        ap
              (λ o. bind o (λ s.
                bind (shrink keys (suc (suc f)) (record t { slots = s; count = t.count - 1 }))
                  (λ t'. some (t', some (val_at keys t i)))))
              (ap (shift_loop keys (rounds keys t) t.capm1 t.slots) here ∙ shifted)
            ∙ ap (λ o. bind o (λ t'. some (t', some (val_at keys t i)))) done,
      )

  pub delete_answers :
      (f q : ℕ) {t : Table K V} (v : IsValid keys hf t) (k : K)
      → Spread keys hf q t.slots
      → Reaches keys hf q f t
      → (r : Table K V × Option V) × (delete keys (suc (suc f)) t (hf k) k ≡ some r)
  unfolding delete
  delete_answers f q {t} v k spread reach =
      let (i, found, dec) = found_in keys hf v k in
      let (r, e) = remove_at_answers f q v k i spread reach dec in
      (r, ap (λ o. bind o (remove_at keys (suc (suc f)) t)) found ∙ e)

  -- Up to 2 ^ 61 nothing wraps.
  too_small_lem : (p hint : ℕ) → p ≤ 61 → too_small keys (2 ^ p) hint ≡ ltb (2 ^ p * 3 / 4) hint
  unfolding too_small
  too_small_lem p hint high =
      let most = pow-le-pow_right {n = 2} (omega arith) {i = p} {j = 61} high in
      let plain : 2 ^ p * 3 % 2 ^ 64 ≡ 2 ^ p * 3 = mod-eq_of_lt (omega (arith, most)) in
      let positive : ltb (2 ^ p * 3) (2 ^ 63) ≡ true = ground (arith, most) in
      rw (plain, positive) refl

  cap_for_fits :
      (f p hint : ℕ)
      → p + f ≡ 61
      → hint ≤ 3 * 2 ^ 59
      → (q : ℕ) × (cap_for keys (suc f) hint (2 ^ p) ≡ some (2 ^ q))
        × (p ≤ q)
        × (hint ≤ 2 ^ q * 3 / 4)
  unfolding cap_for
  cap_for_fits zero p hint last h = elim (Bool-cases (ltb (2 ^ p * 3 / 4) hint)) [
    | inr enough ↦
        (p, rw (too_small_lem p hint (omega arith), enough) refl, omega arith, ground arith)
    | inl short ↦
        let top : p ≡ 61 = omega arith in
        let same = ap (λ n. 2 ^ n) top in absurd (ground (arith, same, short))
  ]
  cap_for_fits (suc f) p hint last h = elim (Bool-cases (ltb (2 ^ p * 3 / 4) hint)) [
    | inr enough ↦
        (p, rw (too_small_lem p hint (omega arith), enough) refl, omega arith, ground arith)
    | inl short ↦
        let most = pow-le-pow_right {n = 2} (omega arith) {i = p} {j = 61} (omega arith) in
        let double = pow-suc 2 p in
        let plain : 2 ^ p * 2 % 2 ^ 64 ≡ 2 ^ suc p =
          mod-eq_of_lt (omega (arith, most)) ∙ omega (arith, double) in
        let (q, found, more, enough) = cap_for_fits f (suc p) hint (omega arith) h in
        (q, rw (too_small_lem p hint (omega arith), short, plain) found, omega arith, enough)
  ]

  -- A new table.
  pub record Starts (hint : ℕ) (t : Table K V) : Type 0 where
    pub valid : IsValid keys hf t
    pub shows : view keys hf t ≡ (λ q. none)
    pub counts : t.count ≡ 0
    pub room : hint ≤ t.grow_at

  pub new_table-Starts :
      (hint : ℕ)
      → hint ≤ 3 * 2 ^ 59
      → (t : Table K V) × (new_table keys hint ≡ some t) × Starts hint t
  unfolding new_table alloc Describes
  new_table-Starts hint h =
      let (q, found, least, enough) = cap_for_fits 58 3 hint refl h in
      let v = alloc-IsValid keys hf q least in
      (
        alloc keys (2 ^ q),
        ap (λ o. bind o (λ c. some (alloc keys c))) found,
        record {
          valid = v;
          shows = λ i k. view_is keys hf v k none (mass-replicate keys (is_key keys k) (2 ^ q)) i;
          counts = refl;
          room = enough;
        },
      )

  -- Inserting a key into a valid table, with its own hash, returns a valid table if its fuel lets the
  -- table grow to 2 ^ q slots, at which no slot has more than 255 of the entries and the key with
  -- their homes there or in the 254 slots before it. The result stands for the map with the new value
  -- for that key and no other change, and the count goes up by one exactly if the key was not there.
  pub insert_refines :
      (f q : ℕ) (t : Table K V) (k : K) (u : V)
      → IsValid keys hf t
      → Sparse keys hf q t.slots (hf k)
      → Reaches keys hf q f t
      → (t' : Table K V) × (insert keys (suc f) t (hf k) k u ≡ some t') × Inserts keys hf t k u t'
  insert_refines f q t k u v sparse reach =
      let (t', e) = insert_answers keys hf f q v k u sparse reach in
      (t', e, insert-Inserts keys hf (suc f) v k u e)

  -- Deleting a key from a valid table, with its own hash, returns if its fuel lets half the table grow
  -- to 2 ^ q slots, at which no slot has more than 255 of the entries with their homes there or in the
  -- 254 slots before it. It returns the value the key had, if any, and a valid table, shrunk or not,
  -- which stands for the map without the key and with no other change; the count goes down by one
  -- exactly if the key was there.
  pub delete_refines :
      (f q : ℕ) (t : Table K V) (k : K)
      → IsValid keys hf t
      → Spread keys hf q t.slots
      → Reaches keys hf q f t
      → (r : Table K V × Option V) × (delete keys (suc (suc f)) t (hf k) k ≡ some r)
        × Deletes keys hf t k r
  delete_refines f q t k v spread reach =
      let (r, e) = delete_answers f q v k spread reach in (r, e, delete-Deletes (suc (suc f)) v k e)
