-- ===== src/TinyLfu/Doorkeeper.antt =====
-- internal/tinylfu/doorkeeper.go: the bloom filter of first sightings. `x & 63` is `x % 64`.
pub mod Sightings
use Prim.Native.Nat.{bit_and, bit_or, bit_xor}
use cachemoney.Base.{
  ℕ, zero, suc, ◌+◌, ◌-◌, ◌*◌, ◌/◌, ◌%◌, ◌^◌, Bool, true, false, List, [], ◌∷◌, map, ltb, ◌==◌,
  if◌then◌else◌, get_or, set, replicate,
}
use cachemoney.Base.Int.{ℤ, pos_part}
use cachemoney.TinyLfu.Words.{u64, next_pow2, mix}

pub record Doorkeeper : Type 0 where
  pub bits : List ℕ
  pub mask : ℕ
  pub seed : ℕ

abbrev pub bits_per_entry : ℕ
bits_per_entry = 6

-- A negative count of entries is raised to 0, and fewer than 64 bits to 64.
unfoldable pub new_doorkeeper : ℤ → ℕ → Doorkeeper
new_doorkeeper entries seed =
    let asked = next_pow2 (bits_per_entry * pos_part entries % u64) in
    let num_bits = if ltb asked 64 then 64 else asked in
    record { bits = replicate (num_bits / 64) 0; mask = num_bits - 1; seed = seed }

-- Position `i` of the double hashing.
unfoldable pub position : Doorkeeper → ℕ → ℕ → ℕ
position d fp i = bit_and ((bit_xor fp d.seed + i * bit_or (mix fp) 1) % u64) d.mask

-- `d.bits[word]&b == 0` and `d.bits[word] |= b`.
unfoldable pub is_clear : Doorkeeper → ℕ → Bool
is_clear d bit = bit_and (get_or d.bits (bit / 64) 0) (2 ^ (bit % 64)) == 0

unfoldable pub set_bit : Doorkeeper → ℕ → Doorkeeper
set_bit d bit = record d {
  bits = set d.bits (bit / 64) (bit_or (get_or d.bits (bit / 64) 0) (2 ^ (bit % 64)));
}

-- The loop `for i := 0; i < doorkeeperK; i++`, over the rounds left.
unfoldable pub put_loop : List ℕ → ℕ → Doorkeeper → Bool → Doorkeeper × Bool
put_loop [] fp d seen = (d, seen)
put_loop (i ∷ is) fp d seen =
    let bit = position d fp i in
    let clear = is_clear d bit in
    put_loop is fp (if clear then set_bit d bit else d) (if clear then false else seen)

abbrev pub rounds : List ℕ
rounds = 0 ∷ 1 ∷ 2 ∷ 3 ∷ []

unfoldable pub put_or_has : Doorkeeper → ℕ → Doorkeeper × Bool
put_or_has d fp = put_loop rounds fp d true

unfoldable pub reset : Doorkeeper → Doorkeeper
reset d = record d { bits = map (λ _. 0) d.bits }
