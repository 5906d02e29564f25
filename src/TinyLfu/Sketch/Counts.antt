-- ===== src/TinyLfu/Sketch/Counts.antt =====
-- What `increment`, `estimate` and `halve` promise together: the estimate never undercounts.
use cachemoney.Base.{
  ℕ, suc, ◌+◌, ◌*◌, ◌/◌, ◌≤◌, ◌<◌, min, ◌≡◌, refl, ap, ◌∙◌, ◌⊎◌, List, [], ◌∷◌, arith, ◌==◌, ◌&&◌,
  if◌then◌else◌, true, Bool-cases, ==_iff, inl, inr,
}
use cachemoney.TinyLfu.Sketch.{
  Sketch, read, raise, halve, counter_index, depth, lowest, estimate, raise_if, raise_rows,
  increment, all_rows,
}
use cachemoney.TinyLfu.Sketch.Cells.{
  IsValid, counter_index-lt, read-le, read-raise_self, read-raise_other, read-raise_row,
  raise-IsValid, read-halve,
}

-- Counter `j` of row `r` after the update: one more if it is the fingerprint's and at the minimum.
abbrev bumped : Sketch → ℕ → ℕ → ℕ → ℕ → ℕ
bumped s fp lo r j =
    if (read s r (counter_index s fp r) == lo) && (j == counter_index s fp r)
    then suc (read s r j)
    else read s r j

-- The second loop of `increment` after the rows below `i`.
record Progress (s₀ : Sketch) (fp lo i : ℕ) (s : Sketch) : Type 0 where
  valid : IsValid s
  index : (x r : ℕ) → counter_index s x r ≡ counter_index s₀ x r
  done : (r j : ℕ) → r < i → read s r j ≡ bumped s₀ fp lo r j
  ahead : (r j : ℕ) → i ≤ r → read s r j ≡ read s₀ r j

raise_if-Progress :
    {s₀ s : Sketch} (fp lo i : ℕ)
    → i < depth
    → lo < 15
    → Progress s₀ fp lo i s
    → Progress s₀ fp lo (suc i) (raise_if s₀ fp lo i s)
unfolding raise_if
raise_if-Progress {s₀} {s} fp lo i hi hlo p =
    elim (Bool-cases (read s₀ i (counter_index s₀ fp i) == lo)) [
      | inr other ↦ rw other (record {
        valid = p.valid;
        index = p.index;
        done = λ r j h. elim (Bool-cases (r == i)) [
          | inl same ↦
              let e : r ≡ i = (==_iff r i).0 same in rw (e, other) (p.ahead i j (omega arith))
          | inr less ↦ p.done r j (ground arith)
        ];
        ahead = λ r j h. p.ahead r j (omega arith);
      })
      | inl low ↦ rw low (raised_row low)
    ]
  where
    idx : ℕ
    idx = counter_index s₀ fp i

    in_range : idx < 16 * p.valid.words
    in_range = rw (p.index fp i) at (counter_index-lt p.valid fp i)

    raised_row :
        (read s₀ i (counter_index s₀ fp i) == lo) ≡ true
        → Progress s₀ fp lo (suc i) (raise s i (counter_index s₀ fp i))
    raised_row low =
        let at_lo : read s i idx ≡ lo = p.ahead i idx (omega arith) ∙ (==_iff _ lo).0 low in
        let below : read s i idx < 15 = rw at_lo hlo in
        record {
          valid = raise-IsValid p.valid i idx hi in_range below;
          index = λ x r. unfold raise counter_index in p.index x r;
          done = λ r j h. elim (Bool-cases (r == i)) [
            | inl same ↦ elim (Bool-cases (j == idx)) [
              | inl here ↦
                  let e : r ≡ i = (==_iff r i).0 same in
                  let k : j ≡ idx = (==_iff j idx).0 here in
                  rw (e, low, here, k)
                    (read-raise_self p.valid i idx hi in_range below
                      ∙ ap suc (p.ahead i idx (omega arith)))
              | inr there ↦
                  let e : r ≡ i = (==_iff r i).0 same in
                  rw (e, low, there)
                    (read-raise_other p.valid i idx hi in_range below j (ground arith)
                      ∙ p.ahead i j (omega arith))
            ]
            | inr less ↦
                read-raise_row p.valid i idx hi in_range below r j (ground arith)
                ∙ p.done r j (ground arith)
          ];
          ahead = λ r j h.
              read-raise_row p.valid i idx hi in_range below r j (omega arith)
              ∙ p.ahead r j (omega arith);
        }

raise_rows-Progress :
    (s : Sketch) (fp lo : ℕ)
    → lo < 15
    → IsValid s
    → Progress s fp lo 4 (raise_rows s fp lo all_rows s)
unfolding raise_rows
raise_rows-Progress s fp lo h v = raise_if-Progress fp lo 3 (omega arith) h (
    raise_if-Progress fp lo 2 (omega arith) h (
      raise_if-Progress fp lo 1 (omega arith) h (
        raise_if-Progress fp lo 0 (omega arith) h (record {
          valid = v;
          index = λ x r. refl;
          done = λ r j lt. absurd (omega arith);
          ahead = λ r j le. refl;
        }))))

-- The counter of a fingerprint in a row.
abbrev cell : Sketch → ℕ → ℕ → ℕ
cell s fp r = read s r (counter_index s fp r)

estimate-min :
    (s : Sketch) (fp : ℕ)
    → estimate s fp
      ≡ min (min (min (min 15 (cell s fp 0)) (cell s fp 1)) (cell s fp 2)) (cell s fp 3)
unfolding estimate lowest
estimate-min s fp = ground arith

increment_saturated : (s : Sketch) (fp : ℕ) → 15 ≤ estimate s fp → increment s fp ≡ s
unfolding increment estimate
increment_saturated s fp h = ground arith

increment_below :
    (s : Sketch) (fp : ℕ)
    → estimate s fp < 15
    → increment s fp ≡ raise_rows s fp (estimate s fp) all_rows s
unfolding increment estimate
increment_below s fp h = ground arith

cell_after :
    {s s' : Sketch} (fp lo : ℕ)
    → Progress s fp lo 4 s'
    → (x r : ℕ) → r < 4
    → cell s' x r ≡ bumped s fp lo r (counter_index s x r)
cell_after {s} {s'} fp lo p x r h = p.done r _ h ∙ ap (bumped s fp lo r) (p.index x r)

estimate_grows :
    {s s' : Sketch} (fp x : ℕ)
    → Progress s fp (estimate s fp) 4 s'
    → (estimate s x ≤ estimate s' x) × (estimate s' x ≤ suc (estimate s x))
estimate_grows {s} {s'} fp x p =
    let at = λ (r : ℕ) (h : r < 4). cell_after fp (estimate s fp) p x r h in
    let a = at 0 (omega arith) in
    let b = at 1 (omega arith) in
    let c = at 2 (omega arith) in
    let d = at 3 (omega arith) in ground (arith, estimate-min s x, estimate-min s' x)

-- A row of the fingerprint itself ends above the old minimum, and just above it if it was there.
own_row :
    {s s' : Sketch} (fp r : ℕ)
    → r < 4
    → estimate s fp ≤ cell s fp r
    → Progress s fp (estimate s fp) 4 s'
    → (suc (estimate s fp) ≤ cell s' fp r)
      × ((cell s' fp r ≡ suc (estimate s fp)) ⊎ (suc (estimate s fp) ≤ cell s fp r))
own_row {s} {s'} fp r h low p =
    let own = (==_iff (counter_index s fp r) (counter_index s fp r)).1 refl in
    let after = rw own at (cell_after fp (estimate s fp) p fp r h) in
    elim (Bool-cases (cell s fp r == estimate s fp)) [
      | inl low ↦ let e = rw low at after in (ground arith, inl (ground arith))
      | inr high ↦ let e = rw high at after in (ground arith, inr (ground arith))
    ]

estimate_bumped :
    {s s' : Sketch} (fp : ℕ)
    → estimate s fp < 15
    → Progress s fp (estimate s fp) 4 s'
    → estimate s' fp ≡ suc (estimate s fp)
estimate_bumped {s} {s'} fp h p =
    let before = estimate-min s fp in
    let a = own_row fp 0 (omega arith) (omega arith) p in
    let b = own_row fp 1 (omega arith) (omega arith) p in
    let c = own_row fp 2 (omega arith) (omega arith) p in
    let d = own_row fp 3 (omega arith) (omega arith) p in omega (arith, estimate-min s' fp)

Saturates-cases : (s : Sketch) (fp : ℕ) → (15 ≤ estimate s fp) ⊎ (estimate s fp < 15)
Saturates-cases s fp = omega arith

-- On a well-formed sketch, recording a fingerprint raises its own estimate by exactly one, up to
-- the cap of 15; no other estimate falls, and none rises by more than one; and the sketch stays
-- well formed.
pub estimate-increment :
    {s : Sketch} (fp x : ℕ)
    → IsValid s
    → (estimate (increment s fp) fp ≡ min 15 (suc (estimate s fp)))
      × (estimate s x ≤ estimate (increment s fp) x)
      × (estimate (increment s fp) x ≤ suc (estimate s x))
      × IsValid (increment s fp)
estimate-increment {s} fp x v = elim (Saturates-cases s fp) [
  | inl full ↦
      rw (increment_saturated s fp full)
        (omega (arith, estimate-min s fp), omega arith, omega arith, v)
  | inr below ↦
      let p = raise_rows-Progress s fp (estimate s fp) below v in
      let (up, near) = estimate_grows fp x p in
      rw (increment_below s fp below) (omega (arith, estimate_bumped fp below p), up, near, p.valid)
]

-- A run of increments, in order.
unfoldable pub increment_all : Sketch → List ℕ → Sketch
increment_all s [] = s
increment_all s (fp ∷ fps) = increment_all (increment s fp) fps

-- How often a fingerprint occurs.
unfoldable pub count : ℕ → List ℕ → ℕ
count x [] = 0
count x (y ∷ ys) = if x == y then suc (count x ys) else count x ys

-- The Count-Min bound: after any run of increments, with no aging between them, the estimate of a
-- fingerprint is at least its old estimate plus the number of times it was recorded, up to 15.
pub estimate-increment_all :
    {s : Sketch} (fps : List ℕ) (x : ℕ)
    → IsValid s
    → min 15 (estimate s x + count x fps) ≤ estimate (increment_all s fps) x
unfolding increment_all count
estimate-increment_all {s} [] x v = omega (arith, estimate-min s x)
estimate-increment_all {s} (fp ∷ fps) x v =
    let (own, up, near, v') = estimate-increment fp x v in
    let rest = estimate-increment_all {s = increment s fp} fps x v' in
    elim (Bool-cases (x == fp)) [
      | inl same ↦
          let e : x ≡ fp = (==_iff x fp).0 same in
          let own' : estimate (increment s fp) x ≡ min 15 (suc (estimate s x)) = rw e own in
          rw same (omega arith)
      | inr other ↦ rw other (omega arith)
    ]

-- Aging halves the estimate of every fingerprint.
pub estimate-halve : (s : Sketch) (fp : ℕ) → estimate (halve s) fp ≡ estimate s fp / 2
estimate-halve s fp =
    let at = λ (r : ℕ). read-halve s r (counter_index s fp r) in
    let same = λ (r : ℕ). index_halve r in
    let low = λ (r : ℕ). read-le s r (counter_index s fp r) in
    omega (
      arith,
      estimate-min s fp,
      estimate-min (halve s) fp,
      at 0,
      at 1,
      at 2,
      at 3,
      same 0,
      same 1,
      same 2,
      same 3,
      low 0,
      low 1,
      low 2,
      low 3,
    )
  where
    index_halve : (r : ℕ) → cell (halve s) fp r ≡ read (halve s) r (counter_index s fp r)
    index_halve r = unfold halve counter_index in refl

raise_rows-wd :
    (s₀ : Sketch) (fp lo : ℕ) (is : List ℕ) (s : Sketch) → (raise_rows s₀ fp lo is s).wd ≡ s.wd
unfolding raise_rows
raise_rows-wd s₀ fp lo [] s = refl
raise_rows-wd s₀ fp lo (i ∷ is) s = raise_rows-wd s₀ fp lo is (raise_if s₀ fp lo i s) ∙ one
  where
    one : (raise_if s₀ fp lo i s).wd ≡ s.wd
    one = unfold raise_if raise in ground arith

pub wd-increment : (s : Sketch) (fp : ℕ) → (increment s fp).wd ≡ s.wd
unfolding increment
wd-increment s fp = ground (arith, raise_rows-wd s fp (lowest s fp all_rows 15) all_rows s)
