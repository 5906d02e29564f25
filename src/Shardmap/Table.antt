-- ===== src/Shardmap/Table.antt =====
-- internal/shardmap/table.go: one open-addressing Robin Hood table. The four parallel arrays, which
-- are always indexed together, are one list of slots; `Keys` is what Go's `comparable` and zero
-- values give of the type parameters. A loop runs on fuel and returns `none` when that is used up.
pub mod Cyclic
pub mod Mass
pub mod Sound
pub mod Write
pub mod Place
pub mod Ends
pub mod Probe
pub mod Shift
pub mod Valid
pub mod Effect
pub mod Refill
pub mod Grow
pub mod Remove
pub mod Window
pub mod Room
pub mod Regrow
pub mod Answers
pub mod View
pub mod Contract
pub mod Promise
pub mod Crowd
use Prim.Native.Nat.{bit_and}
use cachemoney.Base.{◌^◌, ◌%◌, ◌||◌, ltb, leb}
use cachemoney.Base.{
  ℕ, zero, suc, ◌+◌, ◌-◌, ◌*◌, ◌/◌, ◌%◌, ◌≡◌, ◌↔◌, Bool, true, false, not, ◌&&◌, ◌||◌, Option, none,
  some, List, [], ◌∷◌, ltb, leb, ◌==◌, if◌then◌else◌, length, get_or, set, replicate,
}
use cachemoney.Base.Results.{bind}
use cachemoney.Shardmap.Meta.{frag_of, meta_frag, dib_of, pack_meta, max_dib}

abbrev pub min_cap : ℕ
min_cap = 8

abbrev pub load_num : ℕ
load_num = 3

abbrev pub load_den : ℕ
load_den = 4

abbrev pub shrink_num : ℕ
shrink_num = 1

abbrev pub shrink_den : ℕ
shrink_den = 4

pub record Keys (K V : Type 0) : Type 0 where
  pub beq : K → K → Bool
  pub beq_iff : (a b : K) → (beq a b ≡ true) ↔ (a ≡ b)
  pub zero_key : K
  pub zero_val : V

pub record Slot (K V : Type 0) : Type 0 where
  pub meta : ℕ
  pub key : K
  pub val : V
  pub hash : ℕ

pub record Table (K V : Type 0) : Type 0 where
  pub slots : List (Slot K V)
  pub count : ℕ
  pub capm1 : ℕ
  pub grow_at : ℕ

-- What `set` carries: `curHash`, `curKey` and `curVal`.
pub record Item (K V : Type 0) : Type 0 where
  pub hash : ℕ
  pub key : K
  pub val : V

-- How a probe of `set` ends: in a free slot, by overwriting, or with a distance too large for the
-- metadata while an item is still carried.
pub data Placed (K V : Type 0) : Type 0 where
  added : List (Slot K V) → Placed K V
  replaced : List (Slot K V) → Placed K V
  overflowed : List (Slot K V) → Item K V → Placed K V

module _ {K V : Type 0} (keys : Keys K V) where
  abbrev pub vacant : Slot K V
  vacant = record { meta = 0; key = keys.zero_key; val = keys.zero_val; hash = 0 }

  abbrev pub item_of : Slot K V → Item K V
  item_of s = record { hash = s.hash; key = s.key; val = s.val }

  abbrev pub slot_with : ℕ → Item K V → Slot K V
  slot_with dib c = record {
    meta = pack_meta dib (frag_of c.hash);
    key = c.key;
    val = c.val;
    hash = c.hash;
  }

  unfoldable pub alloc : ℕ → Table K V
  alloc capacity = record {
    slots = replicate capacity vacant;
    count = 0;
    capm1 = capacity - 1;
    grow_at = capacity * load_num / load_den;
  }

  -- `c*loadNum/loadDen < capacityHint`, for the word of the int `c`. A product past 2 ^ 63 is negative,
  -- and the division rounds towards 0.
  unfoldable pub too_small : ℕ → ℕ → Bool
  too_small c hint =
      let p = c * load_num % 2 ^ 64 in
      if ltb p (2 ^ 63) then ltb (p / load_den) hint else leb load_den (2 ^ 64 - p) || ltb 0 hint

  -- `for c*loadNum/loadDen < capacityHint { c <<= 1 }`
  unfoldable pub cap_for : ℕ → ℕ → ℕ → Option ℕ
  unfolding too_small
  cap_for zero hint c = none
  cap_for (suc f) hint c =
      let more = cap_for f hint (c * 2 % 2 ^ 64) in if too_small c hint then more else some c

  -- `meta[i]&fragMask == frag && keys[i] == key`
  abbrev pub same_key : Slot K V → ℕ → K → Bool
  same_key s frag key = (meta_frag s.meta == frag) && keys.beq s.key key

  -- The loop of `set` at slot `i`.
  unfoldable pub place_loop :
      ℕ → ℕ → List (Slot K V) → Item K V → ℕ → Bool → ℕ → Option (Placed K V)
  place_loop zero capm1 slots cur dib swapped i = none
  place_loop (suc f) capm1 slots cur dib swapped i =
      let s = get_or slots i vacant in
      let next = bit_and (i + 1) capm1 in
      let rob =
        place_loop f capm1 (set slots i (slot_with dib cur)) (item_of s) (dib_of s.meta + 1) true
          next in
      let on = place_loop f capm1 slots cur (dib + 1) swapped next in
      if ltb max_dib dib
      then some (overflowed slots cur)
      else if s.meta == 0
      then some (added (set slots i (slot_with dib cur)))
      else if not swapped && same_key s (frag_of cur.hash) cur.key
      then some (replaced (set slots i (record s { val = cur.val })))
      else if ltb (dib_of s.meta) dib
      then rob
      else on

  -- Rounds enough to come to a free slot from anywhere.
  abbrev pub rounds : Table K V → ℕ
  rounds t = suc (2 * length t.slots)

  unfoldable pub place : Table K V → Item K V → Option (Placed K V)
  place t c = place_loop (rounds t) t.capm1 t.slots c 0 false (bit_and c.hash t.capm1)

  -- The reinsert loop of `resize`, over the old slots.
  unfoldable pub reinsert :
      (Table K V → Item K V → Option (Table K V)) → List (Slot K V) → Table K V → Option (Table K V)
  reinsert put [] t = some t
  reinsert put (s ∷ rest) t =
      if s.meta == 0
      then reinsert put rest t
      else bind (put t (item_of s)) (λ t'. reinsert put rest t')

  unfoldable pub resize :
      (Table K V → Item K V → Option (Table K V)) → Table K V → ℕ → Option (Table K V)
  resize put t new_cap = reinsert put t.slots (alloc new_cap)

  -- What follows a probe: the fields that change, or the growth and the item carried again.
  unfoldable pub finish :
      (Table K V → Item K V → Option (Table K V)) → Table K V → Placed K V → Option (Table K V)
  finish put t (added slots) = some (record t { slots = slots; count = t.count + 1 })
  finish put t (replaced slots) = some (record t { slots = slots })
  finish put t (overflowed slots cur) =
      bind (resize put (record t { slots = slots }) (length t.slots * 2)) (λ t'. put t' cur)

  -- `set`, on fuel for the growths that overflows force.
  unfoldable pub set_item : ℕ → Table K V → Item K V → Option (Table K V)
  set_item zero t c = none
  set_item (suc f) t c = bind (place t c) (finish (set_item f) t)

  unfoldable pub grow : ℕ → Table K V → Option (Table K V)
  grow f t = resize (set_item f) t (length t.slots * 2)

  unfoldable pub insert : ℕ → Table K V → ℕ → K → V → Option (Table K V)
  insert f t hash key value =
      let c : Item K V = record { hash = hash; key = key; val = value } in
      bind (if leb t.grow_at t.count then grow f t else some t) (λ t'. set_item f t' c)

  -- The probe that `lookup` and `delete` share: the key's slot, or none.
  unfoldable pub probe : ℕ → ℕ → List (Slot K V) → ℕ → K → ℕ → ℕ → Option (Option ℕ)
  probe zero capm1 slots frag key i dib = none
  probe (suc f) capm1 slots frag key i dib =
      let s = get_or slots i vacant in
      let on = probe f capm1 slots frag key (bit_and (i + 1) capm1) (dib + 1) in
      if s.meta == 0
      then some none
      else if ltb (dib_of s.meta) dib
      then some none
      else if same_key s frag key
      then some (some i)
      else on

  -- A distance is below 256, so a probe stops by then.
  abbrev pub probe_rounds : ℕ
  probe_rounds = 256

  unfoldable pub find : Table K V → ℕ → K → Option (Option ℕ)
  find t hash key = probe probe_rounds t.capm1 t.slots (frag_of hash) key (bit_and hash t.capm1) 0

  abbrev pub val_at : Table K V → ℕ → V
  val_at t i = (get_or t.slots i vacant).val

  -- What `lookup` answers of the slot found.
  unfoldable pub value_of : Table K V → Option (Option ℕ) → Option (Option V)
  value_of t none = none
  value_of t (some none) = some none
  value_of t (some (some i)) = some (some (val_at t i))

  unfoldable pub lookup : Table K V → ℕ → K → Option (Option V)
  lookup t hash key = value_of t (find t hash key)

  -- The backward shift from slot `i`, and the slot vacated at its end.
  unfoldable pub shift_loop : ℕ → ℕ → List (Slot K V) → ℕ → Option (List (Slot K V))
  shift_loop zero capm1 slots i = none
  shift_loop (suc f) capm1 slots i =
      let j = bit_and (i + 1) capm1 in
      let s = get_or slots j vacant in
      let back = record s { meta = pack_meta (dib_of s.meta - 1) (meta_frag s.meta) } in
      let rest = shift_loop f capm1 (set slots i back) j in
      if not (s.meta == 0) && ltb 0 (dib_of s.meta) then rest else some (set slots i vacant)

  unfoldable pub shrink : ℕ → Table K V → Option (Table K V)
  shrink f t =
      let cap' = length t.slots in
      if leb cap' min_cap
      then some t
      else if leb (cap' * shrink_num / shrink_den) t.count
      then some t
      else resize (set_item f) t (cap' / 2)

  -- `delete` once the slot is found: the table and the value removed.
  unfoldable pub remove_at : ℕ → Table K V → Option ℕ → Option (Table K V × Option V)
  remove_at f t none = some (t, none)
  remove_at f t (some i) = bind (shift_loop (rounds t) t.capm1 t.slots i) (λ slots.
      bind (shrink f (record t { slots = slots; count = t.count - 1 }))
        (λ t'. some (t', some (val_at t i))))

  unfoldable pub delete : ℕ → Table K V → ℕ → K → Option (Table K V × Option V)
  delete f t hash key = bind (find t hash key) (remove_at f t)

-- `newTable`: fuel for the capacities from 8 to 2 ^ 61. The loop goes on for ever if none of them is enough,
-- since the greater ones wrap to nothing.
unfoldable pub new_table : {K V : Type 0} → Keys K V → ℕ → Option (Table K V)
new_table keys hint = bind (cap_for keys 59 hint min_cap) (λ c. some (alloc keys c))
