-- ===== src/TinyLfu/Doorkeeper/Sightings.antt =====
-- What `putOrHas` remembers.
use Prim.Native.Nat.{bit_and, bit_or, bit_and-bitwise}
use cachemoney.Base.{
  ℕ, zero, suc, ◌*◌, ◌/◌, ◌%◌, ◌^◌, ◌<◌, ◌≡◌, ◌≢◌, refl, ap, ◌∙◌, inl, inr, Bool, true, false,
  Bool-cases, List, [], ◌∷◌, map, arith, ◌==◌, ==_iff, if◌then◌else◌, get_or, length, All,
  length-set, get_or-set_self, get_or-set_ne,
}
use cachemoney.Base.Bits.{bit_and-le, bit_or_keeps, bit_or_sets}
use cachemoney.TinyLfu.Doorkeeper.{
  Doorkeeper, position, is_clear, set_bit, put_loop, put_or_has, reset, rounds,
}

-- The mask keeps every position inside the words.
abbrev pub IsValid : Doorkeeper → Type 0
IsValid d = d.mask < 64 * length d.bits

abbrev word : Doorkeeper → ℕ → ℕ
word d bit = get_or d.bits (bit / 64) 0

is_clear-false :
    (d : Doorkeeper) (bit : ℕ) → bit_and (word d bit) (2 ^ (bit % 64)) ≢ 0 → is_clear d bit ≡ false
unfolding is_clear
is_clear-false d bit h = ground arith

is_clear-ne :
    (d : Doorkeeper) (bit : ℕ) → is_clear d bit ≡ false → bit_and (word d bit) (2 ^ (bit % 64)) ≢ 0
unfolding is_clear
is_clear-ne d bit h = ground arith

set_bit_self : (d : Doorkeeper) (b : ℕ) → b / 64 < length d.bits → is_clear (set_bit d b) b ≡ false
set_bit_self d b h = is_clear-false (set_bit d b) b (
    unfold set_bit in
    rw (get_or-set_self d.bits (b / 64) (bit_or (word d b) (2 ^ (b % 64))) 0 h)
      (bit_or_sets (b % 64) (word d b)))

set_bit_keeps :
    (d : Doorkeeper) (b c : ℕ)
    → b / 64 < length d.bits
    → is_clear d c ≡ false
    → is_clear (set_bit d b) c ≡ false
set_bit_keeps d b c h k = is_clear-false (set_bit d b) c (elim (Bool-cases (b / 64 == c / 64)) [
  | inl same ↦
      let e : b / 64 ≡ c / 64 = (==_iff _ _).0 same in
      let kept = bit_or_keeps (c % 64) (word d c) (2 ^ (b % 64)) (is_clear-ne d c k) in
      unfold set_bit in
      rw (e, get_or-set_self d.bits (c / 64) (bit_or (word d c) (2 ^ (b % 64))) 0 (rw e at h)) kept
  | inr other ↦
      unfold set_bit in
      rw
        (get_or-set_ne d.bits {i = b / 64} {j = c / 64} (bit_or (word d b) (2 ^ (b % 64))) 0
          (ground arith))
        (is_clear-ne d c k)
])

-- One round of the loop.
abbrev mark : Doorkeeper → ℕ → Doorkeeper
mark d b = if is_clear d b then set_bit d b else d

-- A later state of the filter: the same positions, and no bit lost.
record Later (d e : Doorkeeper) : Type 0 where
  positions : (fp i : ℕ) → position e fp i ≡ position d fp i
  valid : IsValid d → IsValid e
  kept : IsValid d → (c : ℕ) → is_clear d c ≡ false → is_clear e c ≡ false

Later-trans : {d e f : Doorkeeper} → Later d e → Later e f → Later d f
Later-trans a b = record {
  positions = λ fp i. b.positions fp i ∙ a.positions fp i;
  valid = λ v. b.valid (a.valid v);
  kept = λ v c h. b.kept (a.valid v) c (a.kept v c h);
}

Later-refl : (d : Doorkeeper) → Later d d
Later-refl d = record { positions = λ fp i. refl; valid = λ v. v; kept = λ v c h. h }

position-lt : (d : Doorkeeper) (fp i : ℕ) → IsValid d → position d fp i / 64 < length d.bits
unfolding position
position-lt d fp i v = omega (arith, bit_and-le _ d.mask)

set_bit-Later : (d : Doorkeeper) (fp i : ℕ) → Later d (set_bit d (position d fp i))
set_bit-Later d fp i = record {
  positions = λ fp' i'. unfold set_bit position in refl;
  valid = λ v. unfold set_bit in rw (length-set d.bits _ _) v;
  kept = λ v c h. set_bit_keeps d (position d fp i) c (position-lt d fp i v) h;
}

mark-Later : (d : Doorkeeper) (fp i : ℕ) → Later d (mark d (position d fp i))
mark-Later d fp i = elim (Bool-cases (is_clear d (position d fp i))) [
  | inl clear ↦ rw clear (set_bit-Later d fp i)
  | inr seen ↦ rw seen (Later-refl d)
]

mark_set :
    (d : Doorkeeper) (fp i : ℕ)
    → IsValid d
    → is_clear (mark d (position d fp i)) (position d fp i) ≡ false
mark_set d fp i v = elim (Bool-cases (is_clear d (position d fp i))) [
  | inl clear ↦ rw clear (set_bit_self d (position d fp i) (position-lt d fp i v))
  | inr seen ↦ rw seen seen
]

put_loop-Later :
    (is : List ℕ) (fp : ℕ) (d : Doorkeeper) (seen : Bool) → Later d (put_loop is fp d seen).0
unfolding put_loop
put_loop-Later [] fp d seen = Later-refl d
put_loop-Later (i ∷ is) fp d seen =
    Later-trans (mark-Later d fp i) (put_loop-Later is fp (mark d (position d fp i)) _)

-- All positions of a fingerprint among the rounds `is` are set.
abbrev Has : List ℕ → Doorkeeper → ℕ → Type 0
Has is d fp = All (λ i. is_clear d (position d fp i) ≡ false) is

Has-Later :
    (is : List ℕ) {d e : Doorkeeper} (fp : ℕ) → Later d e → IsValid d → Has is d fp → Has is e fp
Has-Later [] fp l v h = tt
Has-Later (i ∷ is) {d} {e} fp l v h =
    (rw (l.positions fp i) (l.kept v (position d fp i) h.0), Has-Later is fp l v h.1)

put_loop-Has :
    (is : List ℕ) (fp : ℕ) (d : Doorkeeper) (seen : Bool)
    → IsValid d
    → Has is (put_loop is fp d seen).0 fp
unfolding put_loop
put_loop-Has [] fp d seen v = tt
put_loop-Has (i ∷ is) fp d seen v =
    let first = mark-Later d fp i in
    let later =
      put_loop-Later is fp (mark d (position d fp i))
        (if is_clear d (position d fp i) then false else seen) in
    let all = Later-trans first later in
    (
      rw (all.positions fp i) (later.kept (first.valid v) (position d fp i) (mark_set d fp i v)),
      put_loop-Has is fp (mark d (position d fp i)) _ (first.valid v),
    )

put_loop_seen :
    (is : List ℕ) (fp : ℕ) (d : Doorkeeper) (seen : Bool)
    → Has is d fp
    → put_loop is fp d seen ≡ (d, seen)
unfolding put_loop
put_loop_seen [] fp d seen h = refl
put_loop_seen (i ∷ is) fp d seen h = rw h.0 (put_loop_seen is fp d seen h.1)

put_loop-false : (is : List ℕ) (fp : ℕ) (d : Doorkeeper) → (put_loop is fp d false).1 ≡ false
unfolding put_loop
put_loop-false [] fp d = refl
put_loop-false (i ∷ is) fp d = elim (Bool-cases (is_clear d (position d fp i))) [
  | inl clear ↦ rw (clear, put_loop) (put_loop-false is fp (set_bit d (position d fp i)))
  | inr seen ↦ rw (seen, put_loop) (put_loop-false is fp d)
]

seen-Has : (is : List ℕ) (fp : ℕ) (d : Doorkeeper) → (put_loop is fp d true).1 ≡ true → Has is d fp
unfolding put_loop
seen-Has [] fp d h = tt
seen-Has (i ∷ is) fp d h = elim (Bool-cases (is_clear d (position d fp i))) [
  | inl clear ↦
      absurd (cc (rw (clear, put_loop) at h, put_loop-false is fp (set_bit d (position d fp i))))
  | inr seen ↦ (seen, seen-Has is fp d (rw (seen, put_loop) at h))
]

-- A second sighting of a fingerprint answers true and changes nothing, and a fingerprint that would
-- have been answered true still is after any other is recorded: the filter forgets nothing before
-- its reset.
pub put_or_has_remembers :
    (d : Doorkeeper) (fp x : ℕ)
    → IsValid d
    → let d' = (put_or_has d fp).0 in
      (put_or_has d' fp ≡ (d', true))
      × ((put_or_has d x).1 ≡ true → put_or_has d' x ≡ (d', true))
      × IsValid d'
unfolding put_or_has
put_or_has_remembers d fp x v =
    let later = put_loop-Later rounds fp d true in
    (
      put_loop_seen rounds fp _ true (put_loop-Has rounds fp d true v),
      (λ h. put_loop_seen rounds x _ true (Has-Later rounds x later v (seen-Has rounds x d h))),
      later.valid v,
    )

get_or-zeros : (bs : List ℕ) (i : ℕ) → get_or (map (λ (x : ℕ). zero) bs) i 0 ≡ 0
get_or-zeros [] i = refl
get_or-zeros (x ∷ xs) zero = refl
get_or-zeros (x ∷ xs) (suc i) = get_or-zeros xs i

-- After a reset every fingerprint is new again.
pub put_or_has-reset : (d : Doorkeeper) (fp : ℕ) → (put_or_has (reset d) fp).1 ≡ false
put_or_has-reset d fp = elim (Bool-cases (put_or_has (reset d) fp).1) [
  | inr new ↦ new
  | inl old ↦ absurd (all_clear (unfold put_or_has in (seen-Has rounds fp (reset d) old).0))
]
  where
    no_bits : (b : ℕ) → bit_and (word (reset d) b) (2 ^ (b % 64)) ≡ 0
    no_bits b =
        let zeros : word (reset d) b ≡ 0 = unfold reset in get_or-zeros d.bits (b / 64) in
        ap (λ w. bit_and w (2 ^ (b % 64))) zeros ∙ bit_and-bitwise 0 (2 ^ (b % 64))

    all_clear : is_clear (reset d) (position (reset d) fp 0) ≡ false → ⊥
    all_clear h =
        is_clear-ne (reset d) (position (reset d) fp 0) h (no_bits (position (reset d) fp 0))
