-- ===== src/Shardmap/Table/Grow.antt =====
-- `set` with the growths that an overflow of the metadata forces.
use cachemoney.Base.{
  ℕ, zero, suc, ◌+◌, ◌*◌, ◌/◌, ◌%◌, ◌^◌, ◌≤◌, ◌<◌, ◌≡◌, ◌≢◌, refl, sym, ap, ◌∙◌, false, Option,
  some, List, arith, length, replicate, length-replicate,
}
use cachemoney.Base.Bits.{bit_and-low_ones}
use cachemoney.Base.Results.{bind-eq-some}
use mathlib.Core.Path.{subst}
use mathlib.Core.Option.{some-injective}
use cachemoney.Shardmap.Table.{
  Keys, Slot, Item, Table, Placed, added, replaced, overflowed, vacant, place_loop, alloc, rounds,
  place, resize, finish, set_item,
}
use cachemoney.Shardmap.Table.Cyclic.{slot_at-lt}
use cachemoney.Shardmap.Table.Mass.{at, mass, is_key, mass-replicate}
use cachemoney.Shardmap.Table.Sound.{IsSound, replicate-IsSound}
use cachemoney.Shardmap.Table.Place.{Outcome, Clear}
use cachemoney.Shardmap.Table.Place.Loop.{place_loop-Outcome}
use cachemoney.Shardmap.Table.Valid.{IsValid}
use cachemoney.Shardmap.Table.Effect.{Added-Stored, Replaced-Stored, Spilled-Stored}
use Prim.Native.Nat.{bit_and}
use cachemoney.Base.{get_or-replicate}
use native.Mathlib.Nat.{pow-le-pow_right, pow-suc}
use cachemoney.Shardmap.Table.Refill.{
  Sets, Setter, Resizes, EachIn, each_in, Waiting, reinsert-Refilled,
}

module _ {K V : Type 0} (keys : Keys K V) (hf : K → ℕ) where
  pub at_least_8 : (p : ℕ) → 3 ≤ p → 8 ≤ 2 ^ p
  at_least_8 p h = pow-le-pow_right (omega arith) h

  pub alloc-IsValid : (p : ℕ) → 3 ≤ p → IsValid keys hf (alloc keys (2 ^ p))
  unfolding alloc
  alloc-IsValid p h =
      let big = at_least_8 p h in
      let len = length-replicate (2 ^ p) (vacant keys) in
      record {
        power = p;
        least = h;
        size = len;
        mask = refl;
        sound = replicate-IsSound keys hf (2 ^ p) (omega arith);
        counted = sym (mass-replicate keys (λ k v. 1) (2 ^ p));
        limit = ap (λ n. n * 3 / 4) (sym len);
        fits = omega arith;
      }

  pub each_of_Every :
      (a : List (Slot K V)) (P : Slot K V → Type 0)
      → ((x : ℕ) → (at keys a x).meta ≢ 0 → P (at keys a x))
      → EachIn keys hf P a
  each_of_Every a P h =
      each_in keys hf P a
        (λ i below. subst (λ s. s.meta ≢ 0 → P s) (slot_at-lt (vacant keys) a i below) (h i))

  -- The slots of a table wait to be put into an empty one.
  pub all_Waiting :
      (a : List (Slot K V)) (p : ℕ)
      → IsSound keys hf a
      → mass keys (λ k v. 1) a ≤ 2 ^ p * 3 / 4
      → Waiting keys hf a (alloc keys (2 ^ p))
  unfolding alloc
  all_Waiting a p sound fit = record {
    hashed = each_of_Every a (λ s. s.hash ≡ hf s.key) (λ x taken. (sound.housed x taken).hashed);
    apart = λ q.
        let x₁ = sound.unique q in
        let x₂ = mass-replicate keys (is_key keys q) (2 ^ p) in omega (arith, x₁, x₂);
    fit = omega (arith, fit);
  }

  pub resize-Resizes :
      (put : Table K V → Item K V → Option (Table K V))
      → Setter keys hf put
      → (t t' : Table K V) (p : ℕ) → IsSound keys hf t.slots
      → 3 ≤ p
      → mass keys (λ k v. 1) t.slots ≤ 2 ^ p * 3 / 4
      → resize keys put t (2 ^ p) ≡ some t'
      → Resizes keys hf t.slots (2 ^ p * 3 / 4) t'
  unfolding resize alloc
  resize-Resizes put law t t' p sound h fit e =
      let empty = alloc-IsValid p h in
      let nothing = λ (w : K → V → ℕ). mass-replicate keys w (2 ^ p) in
      let w = all_Waiting t.slots p sound fit in
      let done = reinsert-Refilled keys hf put law t.slots (alloc keys (2 ^ p)) t' empty w e in
      record {
        valid = done.valid;
        no_smaller = done.no_smaller;
        alike = record {
          sum = λ w. let x₁ = done.sum w in let x₂ = nothing w in omega (arith, x₁, x₂);
          every = λ P all.
              done.every P
                (λ x taken. absurd (
                  taken (
                    ap (λ s. s.meta)
                      (get_or-replicate (2 ^ p) (x % length (replicate (2 ^ p) (vacant keys)))
                        (vacant keys)))))
                (each_of_Every t.slots (λ s. P s.key s.val) all);
        };
      }

  -- The whole of the probe of `set`.
  pub place-Outcome :
      {t : Table K V} (v : IsValid keys hf t) (c : Item K V)
      → c.hash ≡ hf c.key
      → Outcome keys hf t.slots c false (place keys t c)
  unfolding place Clear
  place-Outcome {t} v c hashed =
      let home : bit_and c.hash t.capm1 ≡ (c.hash + 0) % length t.slots =
        ap (bit_and c.hash) v.mask
        ∙ bit_and-low_ones v.power c.hash
        ∙ ap (λ n. c.hash % n) (sym v.size)
        ∙ ap (λ h. h % length t.slots) (omega arith) in
      subst
        (λ m.
          Outcome keys hf t.slots c false
            (place_loop keys (rounds keys t) m t.slots c 0 false (bit_and c.hash t.capm1)))
        (sym v.mask)
        (place_loop-Outcome keys hf v.power (rounds keys t) v.sound c 0 false
          (bit_and c.hash t.capm1) (record { hashed = hashed; behind = λ y e. omega arith })
          (λ e near. absurd (omega arith)) v.size home)

  abbrev pub ones : K → V → ℕ
  ones k v = 1

  -- The fields of a table over other slots of the same length.
  pub same_size-IsValid :
      {t : Table K V} (v : IsValid keys hf t) (b : List (Slot K V)) (n : ℕ)
      → IsSound keys hf b
      → length b ≡ length t.slots
      → n ≡ mass keys ones b
      → n ≤ t.grow_at
      → IsValid keys hf (record t { slots = b; count = n })
  same_size-IsValid {t} v b n sound len counted fits = record {
    power = v.power;
    least = v.least;
    size = len ∙ v.size;
    mask = v.mask;
    sound = sound;
    counted = counted;
    limit = v.limit ∙ ap (λ m. m * 3 / 4) (sym len);
    fits = fits;
  }

  finish-Sets :
      (put : Table K V → Item K V → Option (Table K V))
      → Setter keys hf put
      → (t : Table K V) (c : Item K V) (t' : Table K V) (r : Placed K V) → IsValid keys hf t
      → t.count < t.grow_at
      → Outcome keys hf t.slots c false (some r)
      → finish keys put t r ≡ some t'
      → Sets keys hf t c t'
  unfolding finish Outcome Setter
  finish-Sets put law t c t' (added b) v room h e =
      subst (Sets keys hf t c) (some-injective _ _ e) (record {
        valid =
            let x₁ = h.sum ones in
            let x₂ = v.counted in
            same_size-IsValid v b (t.count + 1) h.sound h.same_length (omega (arith, x₁, x₂))
              (omega arith);
        no_smaller = omega arith;
        stored = Added-Stored keys hf v.sound c h;
      })
  finish-Sets put law t c t' (replaced b) v room h e =
      subst (Sets keys hf t c) (some-injective _ _ e) (record {
        valid =
            let x₁ = h.sum ones in
            let x₂ = v.counted in
            same_size-IsValid v b t.count h.sound h.same_length (omega (arith, x₁, x₂)) v.fits;
        no_smaller = omega arith;
        stored = Replaced-Stored keys hf v.sound c h;
      })
  finish-Sets put law t c t' (overflowed b carried) v room h e =
      let t₁ : Table K V = record t { slots = b } in
      let (t₂, grown, last) =
        bind-eq-some (resize keys put t₁ (length t.slots * 2)) (λ t'. put t' carried) e in
      let x₁ = h.sum ones in
      let x₂ = v.counted in
      let x₃ = v.limit in
      let x₄ = v.size in
      let double = pow-suc 2 v.power in
      let more : length t.slots * 2 ≡ 2 ^ suc v.power = omega (arith, double, x₄) in
      let size =
        resize-Resizes put law t₁ t₂ (suc v.power) h.sound (let k = v.least in omega (arith, k))
          (omega (arith, x₁, x₂, x₃, more)) (ap (λ n. resize keys put t₁ n) (sym more) ∙ grown) in
      let x₅ = size.alike.sum ones in
      let x₆ = size.no_smaller in
      let x₇ = size.valid.counted in
      let done =
        law t₂ carried t' size.valid (omega (arith, x₁, x₂, x₃, x₅, x₆, x₇, more)) h.hashed last in
      record {
        valid = done.valid;
        no_smaller = let x₈ = done.no_smaller in omega (arith, x₃, x₆, x₈, more);
        stored = Spilled-Stored keys hf v.sound c carried h size.alike done.stored;
      }

  -- `set` keeps a table valid and stores the item, whatever grows on the way.
  pub set_item-Setter : (f : ℕ) → Setter keys hf (set_item keys f)
  unfolding set_item Setter
  set_item-Setter zero t c t' v room hashed e = cc
  set_item-Setter (suc f) t c t' v room hashed e =
      let (r, placed, next) = bind-eq-some (place keys t c) (finish keys (set_item keys f) t) e in
      finish-Sets (set_item keys f) (set_item-Setter f) t c t' r v room
        (subst (Outcome keys hf t.slots c false) placed (place-Outcome v c hashed)) next

  -- The same, written out.
  pub set_item-Sets :
      (f : ℕ) (t : Table K V) (c : Item K V) (t' : Table K V)
      → IsValid keys hf t
      → t.count < t.grow_at
      → c.hash ≡ hf c.key
      → set_item keys f t c ≡ some t'
      → Sets keys hf t c t'
  unfolding Setter
  set_item-Sets f = set_item-Setter f
