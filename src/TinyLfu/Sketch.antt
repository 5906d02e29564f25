-- ===== src/TinyLfu/Sketch.antt =====
-- internal/tinylfu/sketch.go: the 4-bit Count-Min sketch. A row is the list of its words. `x >> k`
-- and `x & (2^k - 1)` at a constant `k` are written `x / 2 ^ k` and `x % 2 ^ k`. The drainer is the
-- one writer, so a method is a function from the sketch to the sketch.
pub mod Cells
pub mod Counts
use Prim.Native.Nat.{bit_and, bit_xor}
use cachemoney.Base.{
  ℕ, zero, suc, ◌+◌, ◌-◌, ◌*◌, ◌/◌, ◌%◌, ◌^◌, min, Bool, List, [], ◌∷◌, map, ltb, leb, ◌==◌,
  if◌then◌else◌, get_or, set, replicate,
}
use cachemoney.Base.Int.{ℤ, pos, pos_part, ltb_ℤ}
use cachemoney.TinyLfu.Words.{u64, next_pow2, mix}

pub record Sketch : Type 0 where
  pub rows : List (List ℕ)
  pub mask : ℕ
  pub wd : ℕ
  pub seed : ℕ

abbrev pub depth : ℕ
depth = 4

abbrev pub nibble_max : ℕ
nibble_max = 15

abbrev pub min_width : ℕ
min_width = 16

abbrev pub half_nibbles : ℕ
half_nibbles = 0x7777_7777_7777_7777

abbrev pub row_seeds : List ℕ
row_seeds = 0x9e3779b97f4a7c15 ∷ 0xbf58476d1ce4e5b9 ∷ 0x94d049bb133111eb ∷ 0xd6e8feb86659fd93 ∷ []

unfoldable pub new_sketch : ℤ → ℕ → Sketch
new_sketch width seed =
    let floored = if ltb_ℤ width (pos min_width) then min_width else pos_part width in
    let w = next_pow2 floored in
    record { rows = replicate depth (replicate (w / 16) 0); mask = w - 1; wd = w; seed = seed }

unfoldable pub width : Sketch → ℕ
width s = s.wd

unfoldable pub counter_index : Sketch → ℕ → ℕ → ℕ
counter_index s fp row = bit_and (mix (bit_xor (bit_xor fp s.seed) (get_or row_seeds row 0))) s.mask

-- The word of a row that holds counter `idx`.
abbrev pub word_at : Sketch → ℕ → ℕ → ℕ
word_at s row idx = get_or (get_or s.rows row []) (idx / 2 ^ 4) 0

unfoldable pub read : Sketch → ℕ → ℕ → ℕ
read s row idx = word_at s row idx / 2 ^ (idx % 16 * 4) % 16

unfoldable pub raise : Sketch → ℕ → ℕ → Sketch
raise s row idx = record s {
  rows =
      set s.rows row
        (set (get_or s.rows row []) (idx / 2 ^ 4) ((word_at s row idx + 2 ^ (idx % 16 * 4)) % u64));
}

-- The loop `for i := 0; i < depth; i++` goes through these rows.
abbrev pub all_rows : List ℕ
all_rows = 0 ∷ 1 ∷ 2 ∷ 3 ∷ []

-- `if v < lo { lo = v }` over the rows, from `lo`.
unfoldable pub lowest : Sketch → ℕ → List ℕ → ℕ → ℕ
lowest s fp [] lo = lo
lowest s fp (i ∷ is) lo =
    let v = read s i (counter_index s fp i) in lowest s fp is (if ltb v lo then v else lo)

unfoldable pub estimate : Sketch → ℕ → ℕ
estimate s fp = lowest s fp all_rows nibble_max

-- `if val[i] == lo { s.raise(i, idx[i]) }`; the values and indices are those of the sketch `s₀`
-- that the first loop read.
unfoldable pub raise_if : Sketch → ℕ → ℕ → ℕ → Sketch → Sketch
raise_if s₀ fp lo i s =
    let idx = counter_index s₀ fp i in if read s₀ i idx == lo then raise s i idx else s

unfoldable pub raise_rows : Sketch → ℕ → ℕ → List ℕ → Sketch → Sketch
raise_rows s₀ fp lo [] s = s
raise_rows s₀ fp lo (i ∷ is) s = raise_rows s₀ fp lo is (raise_if s₀ fp lo i s)

unfoldable pub increment : Sketch → ℕ → Sketch
increment s fp =
    let lo = lowest s fp all_rows nibble_max in
    if leb nibble_max lo then s else raise_rows s fp lo all_rows s

unfoldable pub halve : Sketch → Sketch
halve s = record s { rows = map (map (λ w. bit_and (w / 2) half_nibbles)) s.rows }
