-- ===== src/TinyLfu/Policy.antt =====
-- internal/tinylfu/policy.go: the facade over sketch, doorkeeper and buffer. The drainer goroutine
-- is the one writer of sketch and doorkeeper; what it does when it wakes is `drain_once`. The wake
-- and done channels, the ticker and the join are scheduling, which is not modelled.
pub mod Aging
pub mod Start
use cachemoney.Base.{
  ℕ, zero, suc, ◌+◌, ◌*◌, Bool, true, false, not, List, [], ◌∷◌, ltb, leb, if◌then◌else◌,
}
use cachemoney.Base.Int.{ℤ, pos, pos_part, ltb_ℤ}
use cachemoney.TinyLfu.Buffer.{AccessBuffer, new_access_buffer, push, drain_into}
use cachemoney.TinyLfu.Doorkeeper.{Doorkeeper, new_doorkeeper, put_or_has, reset}
use cachemoney.TinyLfu.Sketch.{Sketch, new_sketch, width, increment, halve}
use cachemoney.TinyLfu.Sketch

abbrev pub default_ring_depth : ℕ
default_ring_depth = 128

abbrev pub aging_factor : ℕ
aging_factor = 1

pub record Config : Type 0 where
  pub counters : ℤ
  pub stripes : ℤ
  pub ring_depth : ℤ
  pub seed : ℕ

pub record Policy : Type 0 where
  pub buf : AccessBuffer
  pub active : Bool
  pub sk : Sketch
  pub dk : Doorkeeper
  pub seed : ℕ
  pub incrs : ℕ

-- `max_procs` is what runtime.GOMAXPROCS(0) returns.
unfoldable pub new : ℕ → Config → Policy
new max_procs cfg =
    let stripes = if ltb_ℤ (pos 0) cfg.stripes then pos_part cfg.stripes else max_procs in
    let depth_ring =
      if ltb_ℤ (pos 0) cfg.ring_depth then cfg.ring_depth else pos default_ring_depth in
    record {
      buf = new_access_buffer stripes depth_ring;
      active = false;
      sk = new_sketch cfg.counters cfg.seed;
      dk = new_doorkeeper cfg.counters cfg.seed;
      seed = cfg.seed;
      incrs = 0;
    }

unfoldable pub set_active : Policy → Bool → Policy
set_active p on = record p { active = on }

-- The second part says whether the drainer is signalled.
unfoldable pub record_access : Policy → ℕ → Bool → Policy × Bool
record_access p fp contended =
    if not p.active
    then (p, false)
    else (let (b, full) = push p.buf fp contended in (record p { buf = b }, full))

unfoldable pub estimate : Policy → ℕ → ℕ
estimate p fp = Sketch.estimate p.sk fp

unfoldable pub resize : Policy → Config → Policy
resize p cfg = record p {
  sk = new_sketch cfg.counters cfg.seed;
  dk = new_doorkeeper cfg.counters cfg.seed;
}

-- `p.incrs++` and, when the window is full, the aging.
unfoldable pub count_increment : ℕ → Policy → Policy
count_increment aging_n p =
    if leb aging_n (suc p.incrs)
    then record p { sk = halve p.sk; dk = reset p.dk; incrs = 0 }
    else record p { incrs = suc p.incrs }

-- The function that `drainOnce` folds the fingerprints through.
unfoldable pub fold_access : ℕ → Policy → ℕ → Policy
unfolding count_increment
fold_access aging_n p fp =
    let (dk, seen) = put_or_has p.dk fp in
    let p' = record p { dk = dk } in
    if seen then count_increment aging_n (record p' { sk = increment p.sk fp }) else p'

-- `scratch` is the drainer's, and comes back for the next drain.
unfoldable pub drain_once : List ℕ → Policy → List ℕ × Policy
drain_once scratch p =
    let aging_n = aging_factor * width p.sk in
    let (b, last, p') = drain_into (fold_access aging_n) p.buf scratch p in
    (last, record p' { buf = b })
