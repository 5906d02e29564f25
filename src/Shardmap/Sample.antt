-- ===== src/Shardmap/Sample.antt =====
-- internal/shardmap/sample.go. `rand` is the random source, call by call, and a position in it is what
-- has been drawn so far. `none` is a loop that does not end, or a panic.
pub mod Drawn
pub mod Distinct
use Prim.Native.Nat.{bit_and}
use cachemoney.Base.{
  ℕ, zero, suc, ◌+◌, ◌-◌, ◌*◌, ◌≡◌, Bool, true, false, Option, none, some, List, [], ◌∷◌, ◌++◌,
  length, get_elem?, get_or, leb, ◌==◌, if◌then◌else◌,
}
use cachemoney.Base.Int.{ℤ, pos, ltb_ℤ, pos_part}
use cachemoney.Base.Results.{bind}
use cachemoney.Shardmap.Table.{Keys, Slot, Table, vacant}
use cachemoney.Shardmap.Routing.{Map}

abbrev pub sample_draw_factor : ℕ
sample_draw_factor = 8

abbrev pub sample_draw_floor : ℕ
sample_draw_floor = 16

abbrev pub sample_slot_tries : ℕ
sample_slot_tries = 8

pub record SampleEntry (K V : Type 0) : Type 0 where
  pub key : K
  pub val : V

-- `out` of Sample, and the keys that its map `seen` records.
pub record Collected (K V : Type 0) : Type 0 where
  pub out : List (SampleEntry K V)
  pub recorded : List K

module _ {K V : Type 0} (keys : Keys K V) (rand : ℕ → ℕ) where
  -- The forward scan from slot `start`.
  unfoldable pub scan_slots : ℕ → Table K V → ℕ → Option ℕ
  scan_slots zero t start = none
  scan_slots (suc f) t start =
      let next = scan_slots f t (bit_and (start + 1) t.capm1) in
      if (get_or t.slots start (vacant keys)).meta == 0 then next else some start

  -- A slot, and the position after the draws.
  unfoldable pub sample_slot : ℕ → Table K V → ℕ → Option (ℕ × ℕ)
  sample_slot zero t j =
      bind (scan_slots (length t.slots) t (bit_and (rand j) t.capm1)) (λ i. some (i, suc j))
  sample_slot (suc tries) t j =
      let i = bit_and (rand j) t.capm1 in
      let again = sample_slot tries t (suc j) in
      if (get_or t.slots i (vacant keys)).meta == 0 then again else some (i, suc j)

  unfoldable pub sample_shard : Table K V → ℕ → Option (Option (SampleEntry K V) × ℕ)
  sample_shard t j =
      if t.count == 0
      then some (none, j)
      else bind (sample_slot sample_slot_tries t j) (λ (i, j').
        let s = get_or t.slots i (vacant keys) in
        some (some (record { key = s.key; val = s.val }), j'))

  -- `_, dup := seen[k]`, for the keys that have been recorded.
  unfoldable pub seen : List K → K → Bool
  seen [] k = false
  seen (q ∷ recorded) k = if keys.beq q k then true else seen recorded k

  unfoldable pub keep_entry : Collected K V → Option (SampleEntry K V) → Collected K V
  keep_entry c none = c
  keep_entry c (some e) =
      if seen c.recorded e.key
      then c
      else record { recorded = e.key ∷ c.recorded; out = c.out ++ (e ∷ []) }

  -- The loop of `Sample`, with its budget.
  unfoldable pub sample_loop :
      ℕ → ℕ → List (Table K V) → Collected K V → ℕ → Option (List (SampleEntry K V))
  sample_loop zero n shards c j = some c.out
  sample_loop (suc budget) n shards c j =
      if leb n (length c.out)
      then some c.out
      else bind (get_elem? shards (bit_and (rand j) (length shards - 1))) (λ t.
        bind (sample_shard t (suc j))
          (λ (drawn, j'). sample_loop budget n shards (keep_entry c drawn) j'))

  unfoldable pub sample : {S : Type 0} → Map S K V → ℤ → Option (List (SampleEntry K V))
  sample m n =
      if ltb_ℤ (pos 0) n
      then sample_loop (pos_part n * sample_draw_factor + sample_draw_floor) (pos_part n) m.shards
          (record { out = []; recorded = [] }) 0
      else some []
