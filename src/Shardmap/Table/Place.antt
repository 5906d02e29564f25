-- ===== src/Shardmap/Table/Place.antt =====
-- The probe of `set`: what each of its three ends leaves in the table.
pub mod Steps
pub mod Overwrite
pub mod Loop
use Prim.Native.Nat.{bit_and}
use cachemoney.Base.{
  ℕ, zero, suc, ◌+◌, ◌-◌, ◌*◌, ◌/◌, ◌%◌, ◌^◌, ◌≤◌, ◌<◌, ◌≡◌, ◌≢◌, refl, sym, ap, ◌∙◌, Bool, true,
  false, not, ◌&&◌, Option, none, some, List, [], ◌∷◌, arith, ltb, ◌==◌, ==_iff, if◌then◌else◌,
  length, get_or, set, Bool-cases, ◌⊎◌, inl, inr, length-set,
}
use cachemoney.Shardmap.Meta.{frag_of, meta_frag, dib_of, rank, max_dib}
use mathlib.Core.Path.{subst}
use cachemoney.Shardmap.Table.{
  Keys, Slot, Item, Placed, added, replaced, overflowed, vacant, slot_with, item_of, same_key,
  place_loop,
}
use cachemoney.Shardmap.Table.Cyclic.{
  slot_at, slot_at-set-cases, slot_at-set_self, slot_at-set_ne, next_slot, previous_slot,
  slot_at-mod, masked_next,
}
use cachemoney.Shardmap.Table.Mass.{
  Every, at, mass, occurs, is_key, is_key_self, is_key_sound, weigh, mass-set, Every-set,
}
use cachemoney.Shardmap.Table.Sound.{
  IsSound, IsHoused, IsHoused-length, absent_at, absent-occurs, one_slot, rank_bound, rank-eq-dib,
  occurs_of,
}
use cachemoney.Shardmap.Table.Write.{
  Carries, written, written-IsSound, mass-written, read_written, weigh-slot_with,
}

module _ {K V : Type 0} (keys : Keys K V) (hf : K → ℕ) where
  -- The item took a free slot at the end: it was not there, and nothing else came or went.
  pub record Added (a : List (Slot K V)) (c : Item K V) (b : List (Slot K V)) : Type 1 where
    pub sound : IsSound keys hf b
    pub same_length : length b ≡ length a
    pub fresh : occurs keys c.key a ≡ 0
    pub sum : (w : K → V → ℕ) → mass keys w b ≡ mass keys w a + w c.key c.val
    pub every : (P : K → V → Type 0) → Every keys P a → P c.key c.val → Every keys P b

  -- The key was there, with the value `old`, and only that value changed.
  pub record Replaced (a : List (Slot K V)) (c : Item K V) (b : List (Slot K V)) : Type 1 where
    pub sound : IsSound keys hf b
    pub same_length : length b ≡ length a
    pub where_is : ℕ
    pub taken : (at keys a where_is).meta ≢ 0
    pub is_there : (at keys a where_is).key ≡ c.key
    pub sum :
        (w : K → V → ℕ)
        → mass keys w b + w c.key (at keys a where_is).val ≡ mass keys w a + w c.key c.val
    pub every :
        (P : K → V → Type 0)
        → Every keys (λ k u. k ≢ c.key → P k u) a
        → P c.key c.val
        → Every keys P b

  -- The item's key was not there; the table and what is carried at the end hold what was there and it.
  pub record Spilled (a : List (Slot K V)) (c : Item K V) (b : List (Slot K V)) (e : Item K V)
      : Type 1 where
    pub sound : IsSound keys hf b
    pub same_length : length b ≡ length a
    pub fresh : occurs keys c.key a ≡ 0
    pub carried_fresh : occurs keys e.key b ≡ 0
    pub hashed : e.hash ≡ hf e.key
    pub sum : (w : K → V → ℕ) → mass keys w b + w e.key e.val ≡ mass keys w a + w c.key c.val
    pub every :
        (P : K → V → Type 0) → Every keys P a → P c.key c.val → Every keys P b × P e.key e.val

  unfoldable pub Outcome : List (Slot K V) → Item K V → Bool → Option (Placed K V) → Type 1
  Outcome a c swapped none = Unit
  Outcome a c swapped (some (added b)) = Added a c b
  Outcome a c true (some (replaced b)) = (x : Unit {1}) → ⊥
  Outcome a c false (some (replaced b)) = Replaced a c b
  Outcome a c swapped (some (overflowed b e)) = Spilled a c b e

  -- Before the first swap the slots passed do not hold the key; after it the table does not.
  unfoldable pub Clear : List (Slot K V) → Item K V → ℕ → Bool → Type 0
  Clear a c d true = occurs keys c.key a ≡ 0
  Clear a c d false =
      (e : ℕ) → e < d → (at keys a (c.hash + e)).meta ≢ 0 → (at keys a (c.hash + e)).key ≢ c.key

  pub Clear-absent :
      {a : List (Slot K V)} (v : IsSound keys hf a) (c : Item K V) (d : ℕ) (swapped : Bool)
      → c.hash ≡ hf c.key
      → Clear a c d swapped
      → rank (at keys a (c.hash + d)).meta ≤ d
      → occurs keys c.key a ≡ 0
  unfolding Clear
  Clear-absent v c d true hashed clear low = clear
  Clear-absent {a} v c d false hashed clear low = absent-occurs keys hf c.key a (
      absent_at keys hf v c.key d
        (λ e.
          subst (λ h. e < d → (at keys a (h + e)).meta ≢ 0 → (at keys a (h + e)).key ≢ c.key) hashed
            (clear e))
        (omega (arith, ap (λ h. rank (at keys a (h + d)).meta) hashed)))
