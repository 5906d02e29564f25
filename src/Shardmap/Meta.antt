-- ===== src/Shardmap/Meta.antt =====
-- The metadata word of a slot, from internal/shardmap/table.go: 0 for an empty slot, else the
-- distance from home plus one above eight bits of the hash. A uint16 wraps by `% u16`.
use Prim.Native.Nat.{bit_and, bit_or}
use cachemoney.Base.{ℕ, suc, ◌+◌, ◌-◌, ◌*◌, ◌/◌, ◌%◌, ◌^◌, ◌≤◌, ◌<◌, ◌≡◌, arith, ◌∙◌, ap}
use cachemoney.Base.Bits.{bit_and-low_ones, bit_or-disjoint}

abbrev pub u16 : ℕ
u16 = 2 ^ 16

abbrev pub frag_bits : ℕ
frag_bits = 8

abbrev pub frag_mask : ℕ
frag_mask = 2 ^ frag_bits - 1

abbrev pub max_dib : ℕ
max_dib = 2 ^ (16 - frag_bits) - 2

unfoldable pub frag_of : ℕ → ℕ
frag_of hash = bit_and hash frag_mask

-- The fragment in a metadata word, `m & fragMask`.
unfoldable pub meta_frag : ℕ → ℕ
meta_frag m = bit_and m frag_mask

-- Called on occupied slots only: 0 wraps around.
unfoldable pub dib_of : ℕ → ℕ
dib_of m = (m / 2 ^ frag_bits + (u16 - 1)) % u16

unfoldable pub pack_meta : ℕ → ℕ → ℕ
pack_meta dib frag = bit_or ((dib + 1) % u16 * 2 ^ frag_bits % u16) frag

-- What a probe compares: the distance plus one, 0 for an empty slot.
abbrev pub rank : ℕ → ℕ
rank m = m / 256

pub frag_of-eq : (hash : ℕ) → frag_of hash ≡ hash % 256
unfolding frag_of
frag_of-eq hash = bit_and-low_ones 8 hash

pub meta_frag-eq : (m : ℕ) → meta_frag m ≡ m % 256
unfolding meta_frag
meta_frag-eq m = bit_and-low_ones 8 m

pub dib_of-eq : (m : ℕ) → 256 ≤ m → m < u16 → suc (dib_of m) ≡ rank m
unfolding dib_of
dib_of-eq m low high = omega arith

-- A packed word gives its parts back, and is not that of an empty slot.
pub pack_meta_parts :
    (dib frag : ℕ)
    → dib ≤ max_dib
    → frag < 256
    → (rank (pack_meta dib frag) ≡ suc dib)
      × (pack_meta dib frag % 256 ≡ frag)
      × (256 ≤ pack_meta dib frag)
      × (pack_meta dib frag < u16)
unfolding pack_meta
pack_meta_parts dib frag h k =
    let fits : (dib + 1) % u16 * 2 ^ frag_bits % u16 ≡ (dib + 1) * 2 ^ 8 = omega arith in
    let e : pack_meta dib frag ≡ (dib + 1) * 256 + frag =
      ap (λ t. bit_or t frag) fits ∙ bit_or-disjoint 8 (dib + 1) frag k in
    omega arith
