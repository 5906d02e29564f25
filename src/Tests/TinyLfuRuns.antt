-- ===== src/Tests/TinyLfuRuns.antt =====
-- internal/tinylfu on a small policy.
use cachemoney.Base.{
  ℕ, suc, ◌+◌, ◌*◌, ◌/◌, ◌^◌, ◌≤◌, ◌<◌, ◌≡◌, min, true, false, List, [], ◌∷◌, map, arith, leb,
  if◌then◌else◌, get_or, length,
}
use cachemoney.Base.Int.{pos}
use cachemoney.TinyLfu.Words.{next_pow2, next_pow2_bounds}
use cachemoney.TinyLfu.Sketch.{Sketch, estimate, increment, halve, width}
use cachemoney.TinyLfu.Sketch.Cells
use cachemoney.TinyLfu.Sketch.Counts.{
  estimate-increment, increment_all, count, estimate-increment_all, estimate-halve,
}
use cachemoney.TinyLfu.Doorkeeper.{put_or_has, reset}
use cachemoney.TinyLfu.Doorkeeper.Sightings
use cachemoney.TinyLfu.Doorkeeper.Sightings.{put_or_has_remembers, put_or_has-reset}
use cachemoney.TinyLfu.Buffer.{
  AccessBuffer, stripe_of, push, each, drain_into, IsBounded, push-IsBounded, drain_into_all,
}
use cachemoney.TinyLfu.Policy
use cachemoney.TinyLfu.Policy.{Policy, Config, fold_access, drain_once}
use cachemoney.TinyLfu.Policy.Aging
use cachemoney.TinyLfu.Policy.Aging.{Drains, estimate-fold_access, drain_once-IsValid}
use cachemoney.TinyLfu.Policy.Start.{new-IsValid}
use mathlib.Core.List.{flatten}

abbrev small : Config
small = record { counters = pos 16; stripes = pos 2; ring_depth = pos 2; seed = 7 }

abbrev fresh : Policy
fresh = Policy.new 4 small

abbrev sketch : Sketch
sketch = fresh.sk

fresh-IsValid : Aging.IsValid (width fresh.sk) fresh
fresh-IsValid = (new-IsValid 4 small (omega arith) (omega arith) (omega arith)).0

new-IsValid_example :
    Aging.IsValid (width fresh.sk) fresh
    × IsBounded fresh.buf
    × (fresh.buf.mask + 1 ≡ length fresh.buf.stripes)
new-IsValid_example = new-IsValid 4 small (omega arith) (omega arith) (omega arith)

estimate-increment_example :
    (estimate (increment sketch 5) 5 ≡ min 15 (suc (estimate sketch 5)))
    × (estimate sketch 9 ≤ estimate (increment sketch 5) 9)
    × (estimate (increment sketch 5) 9 ≤ suc (estimate sketch 9))
    × Cells.IsValid (increment sketch 5)
estimate-increment_example = estimate-increment 5 9 fresh-IsValid.sketch

abbrev recorded : List ℕ
recorded = 5 ∷ 9 ∷ 5 ∷ 3 ∷ 5 ∷ []

estimate-increment_all_example :
    min 15 (estimate sketch 5 + count 5 recorded) ≤ estimate (increment_all sketch recorded) 5
estimate-increment_all_example = estimate-increment_all recorded 5 fresh-IsValid.sketch

estimate-halve_example :
    estimate (halve (increment_all sketch recorded)) 5
    ≡ estimate (increment_all sketch recorded) 5 / 2
estimate-halve_example = estimate-halve (increment_all sketch recorded) 5

put_or_has_remembers_example :
    let d' = (put_or_has fresh.dk 5).0 in
    (put_or_has d' 5 ≡ (d', true))
    × ((put_or_has fresh.dk 9).1 ≡ true → put_or_has d' 9 ≡ (d', true))
    × Sightings.IsValid d'
put_or_has_remembers_example = put_or_has_remembers fresh.dk 5 9 fresh-IsValid.doorkeeper

put_or_has-reset_example : (put_or_has (reset (put_or_has fresh.dk 5).0) 5).1 ≡ false
put_or_has-reset_example = put_or_has-reset (put_or_has fresh.dk 5).0 5

-- Two stripes of two, one of them full.
abbrev half_full : AccessBuffer
half_full = record { stripes = (4 ∷ []) ∷ (5 ∷ 3 ∷ []) ∷ []; mask = 1; depth = 2 }

push-IsBounded_example :
    IsBounded (push half_full 7 false).0
    × (false ≡ true → push half_full 7 false ≡ (half_full, false))
    × (half_full.depth ≤ length (get_or half_full.stripes (stripe_of half_full 7) [])
        → push half_full 7 false ≡ (half_full, false))
push-IsBounded_example = push-IsBounded half_full 7 false (omega arith, (omega arith, tt))

-- The scratch still holds the 8 of an earlier drain.
drain_into_all_example :
    (last : List ℕ) × (drain_into increment half_full (8 ∷ []) sketch ≡ (
      record half_full { stripes = map (λ _. []) half_full.stripes },
      last,
      each increment (flatten half_full.stripes) sketch,
    ))
drain_into_all_example = drain_into_all increment half_full (8 ∷ []) sketch

estimate-fold_access_example : Policy.estimate (fold_access (width fresh.sk) fresh 5) 5 ≡ (
    if (put_or_has fresh.dk 5).1
    then if leb (width fresh.sk) (suc fresh.incrs)
      then min 15 (suc (Policy.estimate fresh 5)) / 2
      else min 15 (suc (Policy.estimate fresh 5))
    else Policy.estimate fresh 5)
estimate-fold_access_example = estimate-fold_access (width fresh.sk) 5 fresh-IsValid

-- The policy with accesses in its buffer.
abbrev accessed : Policy
accessed = record fresh { buf = half_full }

accessed-IsValid : Aging.IsValid (width accessed.sk) accessed
accessed-IsValid = record {
  sketch = fresh-IsValid.sketch;
  doorkeeper = fresh-IsValid.doorkeeper;
  window = fresh-IsValid.window;
  fresh = fresh-IsValid.fresh;
}

drain_once-IsValid_example :
    Aging.IsValid (width accessed.sk) (drain_once [] accessed).1
    × ((drain_once [] accessed).1.buf.stripes ≡ map (λ _. []) accessed.buf.stripes)
    × ((q : Policy) × (agings : ℕ) × Drains
          (width accessed.sk)
          accessed
          (flatten accessed.buf.stripes)
          agings
          q
        × ((drain_once [] accessed).1.sk ≡ q.sk)
        × ((drain_once [] accessed).1.dk ≡ q.dk)
        × ((drain_once [] accessed).1.incrs ≡ q.incrs))
drain_once-IsValid_example = drain_once-IsValid [] accessed-IsValid

next_pow2_bounds_example :
    (1000 ≤ next_pow2 1000) × (next_pow2 1000 < 2 * 1000) × (k : ℕ) × (next_pow2 1000 ≡ 2 ^ k)
next_pow2_bounds_example = next_pow2_bounds 1000 (omega arith) (omega arith)
