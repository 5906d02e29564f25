-- ===== src/TinyLfu/Policy/Aging.antt =====
-- The policy through drains: what stays well formed, when the sketch ages, and what a first sighting
-- does.
use cachemoney.Base.{
  ℕ, zero, suc, ◌*◌, ◌<◌, min, ◌/◌, ◌≡◌, refl, ap, ◌∙◌, Bool-cases, inl, inr, List, [], ◌∷◌, arith,
  leb, if◌then◌else◌, map, length,
}
use cachemoney.TinyLfu.Buffer.{AccessBuffer, each, drain_into_all}
use cachemoney.TinyLfu.Doorkeeper.{Doorkeeper, put_or_has, reset}
use cachemoney.TinyLfu.Doorkeeper.Sightings
use cachemoney.TinyLfu.Doorkeeper.Sightings.{put_or_has_remembers, put_or_has-reset}
use cachemoney.Base.{true, false}
use cachemoney.TinyLfu.Sketch
use cachemoney.TinyLfu.Sketch.{increment, halve, width}
use cachemoney.TinyLfu.Sketch.Cells
use cachemoney.TinyLfu.Sketch.Cells.{halve-IsValid}
use cachemoney.TinyLfu.Sketch.Counts.{estimate-increment, estimate-halve, wd-increment}
use cachemoney.TinyLfu.Policy.{
  Policy, fold_access, drain_once, estimate, count_increment, aging_factor,
}
use mathlib.Core.List.{flatten}

-- Sketch and doorkeeper are well formed, the window is the sketch's width, and fewer increments than
-- the window have happened since the last aging.
pub record IsValid (aging_n : ℕ) (p : Policy) : Type 0 where
  pub sketch : Cells.IsValid p.sk
  pub doorkeeper : Sightings.IsValid p.dk
  pub window : p.sk.wd ≡ aging_n
  pub fresh : p.incrs < aging_n

length-map : (bs : List ℕ) → length (map (λ (x : ℕ). zero) bs) ≡ length bs
length-map [] = refl
length-map (b ∷ bs) = ap suc (length-map bs)

reset-IsValid : (d : Doorkeeper) → Sightings.IsValid d → Sightings.IsValid (reset d)
unfolding reset
reset-IsValid d v = rw (length-map d.bits) v

count_increment-IsValid :
    (aging_n : ℕ) {p : Policy} → IsValid aging_n p → IsValid aging_n (count_increment aging_n p)
unfolding count_increment
count_increment-IsValid aging_n {p} v = elim (Bool-cases (leb aging_n (suc p.incrs))) [
  | inl due ↦ rw due (record {
    sketch = halve-IsValid v.sketch;
    doorkeeper = reset-IsValid p.dk v.doorkeeper;
    window = unfold halve in v.window;
    fresh = omega arith;
  })
  | inr early ↦ rw early (record {
    sketch = v.sketch;
    doorkeeper = v.doorkeeper;
    window = v.window;
    fresh = ground arith;
  })
]

fold_access-IsValid :
    (aging_n : ℕ) {p : Policy} (fp : ℕ)
    → IsValid aging_n p
    → IsValid aging_n (fold_access aging_n p fp)
unfolding fold_access
fold_access-IsValid aging_n {p} fp v =
    let kept = (put_or_has_remembers p.dk fp fp v.doorkeeper).2 in
    elim (Bool-cases (put_or_has p.dk fp).1) [
      | inr first ↦
          rw first
            (record { sketch = v.sketch; doorkeeper = kept; window = v.window; fresh = v.fresh })
      | inl again ↦ rw again (
          count_increment-IsValid aging_n (record {
            sketch = (estimate-increment fp fp v.sketch).3;
            doorkeeper = kept;
            window = wd-increment p.sk fp ∙ v.window;
            fresh = v.fresh;
          }))
    ]

-- A first sighting leaves the sketch, and so the estimate, alone; a later one that does not fill
-- the window raises the fingerprint's estimate by one up to 15; and one that fills the window halves
-- what it had become.
pub estimate-fold_access :
    (aging_n : ℕ) {p : Policy} (fp : ℕ)
    → IsValid aging_n p
    → estimate (fold_access aging_n p fp) fp ≡ (
        if (put_or_has p.dk fp).1
        then if leb aging_n (suc p.incrs)
          then min 15 (suc (estimate p fp)) / 2
          else min 15 (suc (estimate p fp))
        else estimate p fp)
unfolding estimate fold_access
estimate-fold_access aging_n {p} fp v =
    let raised = (estimate-increment fp fp v.sketch).0 in
    elim (Bool-cases (put_or_has p.dk fp).1) [
      | inr first ↦ rw first
      | inl again ↦ elim (Bool-cases (leb aging_n (suc p.incrs))) [
        | inl due ↦ rw (again, due) (estimate-halve (increment p.sk fp) fp ∙ ap (λ x. x / 2) raised)
        | inr early ↦ rw (again, early) raised
      ]
    ]

each-IsValid :
    (aging_n : ℕ) (fps : List ℕ) {p : Policy}
    → IsValid aging_n p
    → IsValid aging_n (each (fold_access aging_n) fps p)
unfolding each
each-IsValid aging_n [] v = v
each-IsValid aging_n (fp ∷ fps) v = each-IsValid aging_n fps (fold_access-IsValid aging_n fp v)

-- Accesses through sketch and doorkeeper, as the policy means to age: a first sighting only goes to
-- the doorkeeper, a later one is counted in the sketch, and the one that fills the window also halves
-- every counter and makes the doorkeeper forget. The number is that of the agings.
pub data Drains (n : ℕ) : Policy → List ℕ → ℕ → Policy → Type 0 where
  done : (p : Policy) → Drains n p [] 0 p
  sighted :
      {p q r : Policy} {fp : ℕ} {fps : List ℕ} {agings : ℕ}
      → (put_or_has p.dk fp).1 ≡ false
      → q.sk ≡ p.sk
      → q.dk ≡ (put_or_has p.dk fp).0
      → q.incrs ≡ p.incrs
      → Drains n q fps agings r
      → Drains n p (fp ∷ fps) agings r
  counted :
      {p q r : Policy} {fp : ℕ} {fps : List ℕ} {agings : ℕ}
      → (put_or_has p.dk fp).1 ≡ true
      → suc p.incrs < n
      → q.sk ≡ increment p.sk fp
      → q.dk ≡ (put_or_has p.dk fp).0
      → q.incrs ≡ suc p.incrs
      → Drains n q fps agings r
      → Drains n p (fp ∷ fps) agings r
  aged :
      {p q r : Policy} {fp : ℕ} {fps : List ℕ} {agings : ℕ}
      → (put_or_has p.dk fp).1 ≡ true
      → suc p.incrs ≡ n
      → ((x : ℕ) → estimate q x ≡ Sketch.estimate (increment p.sk fp) x / 2)
      → ((x : ℕ) → (put_or_has q.dk x).1 ≡ false)
      → q.incrs ≡ 0
      → Drains n q fps agings r
      → Drains n p (fp ∷ fps) (suc agings) r

-- One access, before the rest of the drain.
fold_access-Drains :
    (aging_n : ℕ) {p r : Policy} (fp : ℕ) (fps : List ℕ) (agings : ℕ)
    → IsValid aging_n p
    → Drains aging_n (fold_access aging_n p fp) fps agings r
    → (a : ℕ) × Drains aging_n p (fp ∷ fps) a r
unfolding fold_access estimate
fold_access-Drains aging_n {p} {r} fp fps agings v rest = elim (Bool-cases (put_or_has p.dk fp).1) [
  | inr first ↦ (agings, sighted first (rw first refl) (rw first refl) (rw first refl) rest)
  | inl again ↦ elim (Bool-cases (leb aging_n (suc p.incrs))) [
    | inr early ↦ (
      agings,
      counted again (ground arith) (rw (again, early) refl) (rw (again, early) refl)
          (rw (again, early) refl) rest,
    )
    | inl due ↦ (
      suc agings,
      aged again (let low = v.fresh in ground arith)
          (λ x. rw (again, due) (estimate-halve (increment p.sk fp) x))
          (λ x. rw (again, due) (put_or_has-reset (put_or_has p.dk fp).0 x)) (rw (again, due) refl)
          rest,
    )
  ]
]

each-Drains :
    (aging_n : ℕ) (fps : List ℕ) {p : Policy}
    → IsValid aging_n p
    → (a : ℕ) × Drains aging_n p fps a (each (fold_access aging_n) fps p)
unfolding each
each-Drains aging_n [] {p} v = (0, done p)
each-Drains aging_n (fp ∷ fps) {p} v =
    let (a, rest) = each-Drains aging_n fps (fold_access-IsValid aging_n fp v) in
    fold_access-Drains aging_n fp fps a v rest

-- A drain empties every stripe and folds all that was buffered through sketch and doorkeeper, stripe by
-- stripe and oldest first. An access that the doorkeeper knows is counted, and the one that fills the
-- window of increments ages the policy: then every estimate is halved, no fingerprint is remembered and
-- the window starts again. Sketch and doorkeeper stay well formed and the increments below the window.
pub drain_once-IsValid :
    (scratch : List ℕ) {p : Policy}
    → IsValid (width p.sk) p
    → IsValid (width p.sk) (drain_once scratch p).1
      × ((drain_once scratch p).1.buf.stripes ≡ map (λ _. []) p.buf.stripes)
      × ((q : Policy) × (agings : ℕ) × Drains (width p.sk) p (flatten p.buf.stripes) agings q
          × ((drain_once scratch p).1.sk ≡ q.sk)
          × ((drain_once scratch p).1.dk ≡ q.dk)
          × ((drain_once scratch p).1.incrs ≡ q.incrs))
unfolding drain_once width
drain_once-IsValid scratch {p} v =
    let one : aging_factor * p.sk.wd ≡ p.sk.wd = omega arith in
    let (last, e) = drain_into_all (fold_access (aging_factor * p.sk.wd)) p.buf scratch p in
    let (agings, run) = each-Drains p.sk.wd (flatten p.buf.stripes) v in
    rw (e, one)
      (
        buffered (each-IsValid p.sk.wd (flatten p.buf.stripes) v),
        refl,
        (each (fold_access p.sk.wd) (flatten p.buf.stripes) p, agings, run, refl, refl, refl),
      )
  where
    buffered :
        {n : ℕ} {q : Policy} {b : AccessBuffer} → IsValid n q → IsValid n (record q { buf = b })
    buffered v = record {
      sketch = v.sketch;
      doorkeeper = v.doorkeeper;
      window = v.window;
      fresh = v.fresh;
    }
