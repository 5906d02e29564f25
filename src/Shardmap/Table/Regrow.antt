-- ===== src/Shardmap/Table/Regrow.antt =====
-- Refilling a table of another size: `resize` returns if what it puts the entries with does.
use cachemoney.Base.{
  ℕ, suc, ◌+◌, ◌-◌, ◌*◌, ◌/◌, ◌%◌, ◌^◌, ◌≤◌, ◌≡◌, ◌≢◌, refl, sym, ap, ◌∙◌, false, Option, some,
  List, [], ◌∷◌, arith, ◌==◌, ==_iff, length, Bool-cases, inl, inr,
}
use cachemoney.Base.Bits.{bit_and-low_ones}
use mathlib.Core.Path.{subst}
use cachemoney.Shardmap.Table.{
  Keys, Slot, Item, Table, Placed, added, replaced, overflowed, item_of, place_loop, alloc, rounds,
  place, reinsert, resize, finish,
}
use cachemoney.Shardmap.Table.Mass.{mass}
use cachemoney.Shardmap.Table.Sound.{IsSound}
use cachemoney.Shardmap.Table.Place.{Clear}
use cachemoney.Shardmap.Table.Ends.{free_ahead, place_loop_ends}
use cachemoney.Shardmap.Table.Valid.{IsValid}
use Prim.Native.Nat.{bit_and}
use cachemoney.Shardmap.Table.Refill.{EachIn, Waiting, still-Waiting, Waiting-after, weigh_taken}
use cachemoney.Shardmap.Table.Grow.{alloc-IsValid, at_least_8, all_Waiting}
use cachemoney.Shardmap.Table.Room.{Fits, Few, Run, place_loop-Fits}
use native.Mathlib.Nat.{pow-suc, mul-le-mul_right}
use cachemoney.Shardmap.Table.{vacant}
use cachemoney.Base.{◌≤◌, ◌<◌, zero, length-replicate, ◌*◌, ◌/◌, ap, sym, ◌∙◌}
use cachemoney.Shardmap.Table.Window.{near, crowding, Sparse, Spread}
use cachemoney.Shardmap.Table.Mass.{mass-replicate}
use cachemoney.Shardmap.Table.Refill.{Setter}

module _ {K V : Type 0} (keys : Keys K V) (hf : K → ℕ) where
  pub place_ends :
      {t : Table K V} (v : IsValid keys hf t) (c : Item K V)
      → c.hash ≡ hf c.key
      → (r : Placed K V) × (place keys t c ≡ some r)
  unfolding place
  place_ends {t} v c hashed =
      let big = at_least_8 keys hf v.power v.least in
      let size = v.size in
      let limit = v.limit in
      let fits = v.fits in
      let counted = v.counted in
      let home : bit_and c.hash t.capm1 ≡ (c.hash + 0) % length t.slots =
        ap (bit_and c.hash) v.mask
        ∙ bit_and-low_ones v.power c.hash
        ∙ ap (λ n. c.hash % n) (sym v.size)
        ∙ ap (λ h. h % length t.slots) (omega arith) in
      let start : place keys t c
          ≡ place_loop keys (rounds keys t) (2 ^ v.power - 1) t.slots c 0 false
              ((c.hash + 0) % length t.slots) =
        ap (place_loop keys (rounds keys t) t.capm1 t.slots c 0 false) home
        ∙ ap
            (λ m.
              place_loop keys (rounds keys t) m t.slots c 0 false ((c.hash + 0) % length t.slots))
            v.mask in
      let (g, less, free) = free_ahead keys t.slots (c.hash + 0) (omega arith) in
      let (r, e) =
        place_loop_ends keys v.power (rounds keys t) t.slots c 0 false (c.hash + 0) g v.size free
          less in
      (r, start ∙ e)

  pub place-Fits :
      {t : Table K V} (v : IsValid keys hf t) (c : Item K V)
      → c.hash ≡ hf c.key
      → Sparse keys hf v.power t.slots c.hash
      → (r : Placed K V) × (place keys t c ≡ some r) × Fits keys hf (some r)
  unfolding place Clear Run Sparse
  place-Fits {t} v c hashed sparse =
      let big = at_least_8 keys hf v.power v.least in
      let size = v.size in
      let limit = v.limit in
      let fits = v.fits in
      let counted = v.counted in
      let home : bit_and c.hash t.capm1 ≡ (c.hash + 0) % length t.slots =
        ap (bit_and c.hash) v.mask
        ∙ bit_and-low_ones v.power c.hash
        ∙ ap (λ n. c.hash % n) (sym v.size)
        ∙ ap (λ h. h % length t.slots) (omega arith) in
      let start : place keys t c
          ≡ place_loop keys (rounds keys t) (2 ^ v.power - 1) t.slots c 0 false
              ((c.hash + 0) % length t.slots) =
        ap (place_loop keys (rounds keys t) t.capm1 t.slots c 0 false) home
        ∙ ap
            (λ m.
              place_loop keys (rounds keys t) m t.slots c 0 false ((c.hash + 0) % length t.slots))
            v.mask in
      let (g, less, free) = free_ahead keys t.slots (c.hash + 0) (omega arith) in
      let (r, e) =
        place_loop_ends keys v.power (rounds keys t) t.slots c 0 false (c.hash + 0) g v.size free
          less in
      let small : Few keys hf t.slots c 0 = record {
        sparse = λ x.
            subst (λ n. mass keys (crowding keys hf n x) t.slots + near n x c.hash ≤ 255) (sym size)
              (sparse x);
        gap = omega arith;
        run = λ j near. absurd (omega arith);
        below = omega arith;
      } in
      let good =
        place_loop-Fits keys hf v.power (rounds keys t) v.sound c 0 false
          ((c.hash + 0) % length t.slots) small
          (record { hashed = hashed; behind = λ y e. omega arith }) (λ e near. absurd (omega arith))
          v.size refl in
      (r, start ∙ e, subst (Fits keys hf) e good)

  pub finish_answers :
      (put : Table K V → Item K V → Option (Table K V)) (t : Table K V) (r : Placed K V)
      → Fits keys hf (some r)
      → (t' : Table K V) × (finish keys put t r ≡ some t')
  unfolding finish Fits
  finish_answers put t (added b) fits = (record t { slots = b; count = t.count + 1 }, refl)
  finish_answers put t (replaced b) fits = (record t { slots = b }, refl)
  finish_answers put t (overflowed b e) fits = absurd (fits tt)

  reinsert_next :
      (put : Table K V → Item K V → Option (Table K V)) (s : Slot K V) (rest : List (Slot K V))
      (t t₁ : Table K V)
      → (s.meta == 0) ≡ false
      → put t (item_of keys s) ≡ some t₁
      → reinsert keys put (s ∷ rest) t ≡ reinsert keys put rest t₁
  unfolding reinsert
  reinsert_next put s rest t t₁ taken first = rw (taken, first) refl

  -- Fuel `f` lets a table grow to 2 ^ q slots.
  abbrev pub Reaches : ℕ → ℕ → Table K V → Type 0
  Reaches q f t = 2 ^ q ≤ length t.slots * 2 ^ f

  -- A setter that answers on tables that are sparse at 2 ^ q slots.
  unfoldable pub Answering : (Table K V → Item K V → Option (Table K V)) → ℕ → ℕ → Type 0
  Answering put q f =
      (t : Table K V) (c : Item K V)
      → IsValid keys hf t
      → t.count < t.grow_at
      → c.hash ≡ hf c.key
      → Sparse keys hf q t.slots c.hash
      → Reaches q f t
      → (t' : Table K V) × (put t c ≡ some t')

  eighths : (p : ℕ) → 3 ≤ p → (k : ℕ) × (2 ^ p ≡ 8 * k)
  eighths zero h = absurd (omega arith)
  eighths (suc p) h = elim (Bool-cases (p == 2)) [
    | inl two ↦ let e = (==_iff p 2).0 two in (1, ap (λ n. 2 ^ suc n) e)
    | inr more ↦
        let (k, e) = eighths p (ground arith) in
        let double = pow-suc 2 p in (2 * k, omega (arith, e, double))
  ]

  -- A table with a larger limit has no fewer slots.
  pub no_fewer :
      {t' : Table K V} (n : ℕ)
      → IsValid keys hf t'
      → (p : ℕ) → 3 ≤ p
      → n ≡ 2 ^ p
      → n * 3 / 4 ≤ t'.grow_at
      → n ≤ length t'.slots
  no_fewer n v' p h e le =
      let (k, e₁) = eighths p h in
      let (k', e₂) = eighths v'.power v'.least in
      let size = v'.size in let limit = v'.limit in omega (arith, e, e₁, e₂, size, limit, le)

  pub Reaches-le :
      (q f : ℕ) (t t' : Table K V)
      → length t.slots ≤ length t'.slots
      → Reaches q f t
      → Reaches q f t'
  Reaches-le q f t t' le h = let more = mul-le-mul_right (2 ^ f) le in omega (arith, more, h)

  pub reinsert_answers :
      (put : Table K V → Item K V → Option (Table K V)) (q f : ℕ)
      → Setter keys hf put
      → Answering put q f
      → (rest : List (Slot K V)) (t : Table K V) → IsValid keys hf t
      → Waiting keys hf rest t
      → ((x : ℕ)
          → mass keys (crowding keys hf (2 ^ q) x) rest
              + mass keys (crowding keys hf (2 ^ q) x) t.slots
            ≤ 255)
      → Reaches q f t
      → (t' : Table K V) × (reinsert keys put rest t ≡ some t')
  unfolding reinsert mass EachIn Setter Answering Sparse
  reinsert_answers put q f law able [] t v w spread reach = (t, refl)
  reinsert_answers put q f law able (s ∷ rest) t v w spread reach =
      elim (Bool-cases (s.meta == 0)) [
        | inl free ↦
            let z = (==_iff s.meta 0).0 free in
            let (t', e) =
              reinsert_answers put q f law able rest t v (still-Waiting keys hf s rest t z w)
                (λ x. let all = spread x in omega (arith, all)) reach in
            (t', rw free e)
        | inr there ↦
            let taken : s.meta ≢ 0 = λ z. ground arith in
            let hashed = w.hashed.0 taken in
            let one = weigh_taken keys hf (λ k v. 1) s taken in
            let fit = w.fit in
            let crowd = λ (x : ℕ). weigh_taken keys hf (crowding keys hf (2 ^ q) x) s taken in
            let (t₁, e₁) =
              able t (item_of keys s) v (omega (arith, one, fit)) hashed
                (λ x.
                  let all = spread x in
                  let here = crowd x in
                  let same = ap (near (2 ^ q) x) hashed in omega (arith, all, here, same))
                reach in
            let done = law t (item_of keys s) t₁ v (omega (arith, one, fit)) hashed e₁ in
            let size = v.size in
            let limit = v.limit in
            let longer =
              no_fewer {t' = t₁} (length t.slots) done.valid v.power v.least size
                (let x = done.no_smaller in omega (arith, x, limit)) in
            let (t', e₂) =
              reinsert_answers put q f law able rest t₁ done.valid
                (Waiting-after keys hf s rest t t₁ taken v w done)
                (λ x.
                  let all = spread x in
                  let here = crowd x in
                  let moved = done.stored.sum (crowding keys hf (2 ^ q) x) in
                  omega (arith, all, here, moved))
                (Reaches-le q f t t₁ longer reach) in
            (t', reinsert_next put s rest t t₁ there e₁ ∙ e₂)
      ]

  pub resize_answers :
      (put : Table K V → Item K V → Option (Table K V)) (q f : ℕ)
      → Setter keys hf put
      → Answering put q f
      → (t : Table K V) (p : ℕ) → IsSound keys hf t.slots
      → 3 ≤ p
      → mass keys (λ k v. 1) t.slots ≤ 2 ^ p * 3 / 4
      → Spread keys hf q t.slots
      → 2 ^ q ≤ 2 ^ p * 2 ^ f
      → (t' : Table K V) × (resize keys put t (2 ^ p) ≡ some t')
  unfolding resize alloc Spread
  resize_answers put q f law able t p sound h fit spread reach =
      let len = length-replicate (2 ^ p) (vacant keys) in
      reinsert_answers put q f law able t.slots (alloc keys (2 ^ p)) (alloc-IsValid keys hf p h)
        (all_Waiting keys hf t.slots p sound fit)
        (λ x.
          let all = spread x in
          let nothing = mass-replicate keys (crowding keys hf (2 ^ q) x) (2 ^ p) in
          omega (arith, all, nothing))
        (let same = ap (λ n. n * 2 ^ f) len in omega (arith, same, reach))
