-- ===== src/TinyLfu/Sketch/Cells.antt =====
-- One counter of a sketch under `raise` and `halve`.
use Prim.Native.Nat.{bit_and}
use cachemoney.Base.{
  ℕ, zero, suc, ◌+◌, ◌*◌, ◌/◌, ◌%◌, ◌^◌, ◌≤◌, ◌<◌, ◌≡◌, ◌≢◌, refl, sym, ap, ◌∙◌, List, [], ◌∷◌, map,
  arith, get_or, set, length, length-set, get_or-set_self, get_or-set_ne, true, false, Bool-cases,
  ==_iff, ◌==◌, ◌⊎◌, inl, inr,
}
use cachemoney.Base.Bits.{bit_and-le}
use cachemoney.TinyLfu.Nibbles.{nibble, nibble_raise, nibble_halve}
use cachemoney.TinyLfu.Sketch.{
  Sketch, read, raise, halve, counter_index, depth, word_at, half_nibbles,
}
use native.Mathlib.Nat.{mod-eq_of_lt}

-- Four rows of `words` 64-bit words; the mask keeps every index inside a row.
pub record IsValid (s : Sketch) : Type 0 where
  pub words : ℕ
  pub rows : length s.rows ≡ depth
  pub row : (i : ℕ) → i < depth → length (get_or s.rows i []) ≡ words
  pub word : (i j : ℕ) → get_or (get_or s.rows i []) j 0 < 2 ^ 64
  pub width : s.mask < 16 * words

pub counter_index-lt :
    {s : Sketch} (v : IsValid s) (fp row : ℕ) → counter_index s fp row < 16 * v.words
unfolding counter_index
counter_index-lt {s} v fp row = omega (arith, bit_and-le _ s.mask, v.width)

pub read-le : (s : Sketch) (row idx : ℕ) → read s row idx ≤ 15
unfolding read
read-le s row idx = omega arith

module _ {s : Sketch} (v : IsValid s) (row idx : ℕ) (in_row : row < depth)
    (in_range : idx < 16 * v.words) (below : read s row idx < 15) where
  new_word : ℕ
  new_word = word_at s row idx + 2 ^ (idx % 16 * 4)

  raised :
      (nibble new_word (idx % 16) ≡ suc (nibble (word_at s row idx) (idx % 16)))
      × ((k : ℕ) → idx % 16 ≢ k → nibble new_word k ≡ nibble (word_at s row idx) k)
      × (new_word < 2 ^ 64)
  unfolding read new_word
  raised = nibble_raise (word_at s row idx) (idx % 16) (omega arith) (v.word row _) below

  raise-rows :
      (raise s row idx).rows ≡ set s.rows row (set (get_or s.rows row []) (idx / 2 ^ 4) new_word)
  unfolding raise new_word
  raise-rows = rw (mod-eq_of_lt raised.2)

  row_self :
      get_or (raise s row idx).rows row [] ≡ set (get_or s.rows row []) (idx / 2 ^ 4) new_word
  row_self =
      ap (λ x. get_or x row []) raise-rows ∙ get_or-set_self s.rows row _ [] (rw v.rows in_row)

  row_other : (r : ℕ) → row ≢ r → get_or (raise s row idx).rows r [] ≡ get_or s.rows r []
  row_other r ne = ap (λ x. get_or x r []) raise-rows ∙ get_or-set_ne s.rows _ [] ne

  slot_in : idx / 2 ^ 4 < length (get_or s.rows row [])
  slot_in = omega (arith, v.row row in_row)

  -- The counter itself goes up by one.
  pub read-raise_self : read (raise s row idx) row idx ≡ suc (read s row idx)
  unfolding read new_word
  read-raise_self =
      ap (λ x. nibble (get_or x (idx / 2 ^ 4) 0) (idx % 16)) row_self
      ∙ ap (λ x. nibble x (idx % 16)) (get_or-set_self _ (idx / 2 ^ 4) new_word 0 slot_in)
      ∙ raised.0

  -- Every other counter of the row stays.
  pub read-raise_other : (j : ℕ) → idx ≢ j → read (raise s row idx) row j ≡ read s row j
  unfolding read new_word
  read-raise_other j ne = elim (Bool-cases (idx / 2 ^ 4 == j / 2 ^ 4)) [
    | inl same ↦
        let e : idx / 2 ^ 4 ≡ j / 2 ^ 4 = (==_iff _ _).0 same in
        let apart : idx % 16 ≢ j % 16 = λ p. ne (omega arith) in
        ap (λ x. nibble (get_or x (j / 2 ^ 4) 0) (j % 16)) row_self
        ∙ ap (λ k. nibble (get_or (set (get_or s.rows row []) k new_word) (j / 2 ^ 4) 0) (j % 16)) e
        ∙ ap (λ x. nibble x (j % 16))
            (get_or-set_self (get_or s.rows row []) (j / 2 ^ 4) new_word 0 (rw e at slot_in))
        ∙ raised.1 (j % 16) apart
        ∙ ap (λ k. nibble (get_or (get_or s.rows row []) k 0) (j % 16)) e
    | inr other ↦
        let apart : idx / 2 ^ 4 ≢ j / 2 ^ 4 = ground arith in
        ap (λ x. nibble (get_or x (j / 2 ^ 4) 0) (j % 16)) row_self
        ∙ ap (λ x. nibble x (j % 16)) (get_or-set_ne (get_or s.rows row []) new_word 0 apart)
  ]

  -- The other rows stay.
  pub read-raise_row : (r j : ℕ) → row ≢ r → read (raise s row idx) r j ≡ read s r j
  unfolding read
  read-raise_row r j ne = ap (λ x. nibble (get_or x (j / 2 ^ 4) 0) (j % 16)) (row_other r ne)

  row_length :
      (i : ℕ)
      → i < depth
      → ((row == i) ≡ true) ⊎ ((row == i) ≡ false)
      → length (get_or (raise s row idx).rows i []) ≡ v.words
  row_length i h (inl same) =
      let e : row ≡ i = (==_iff row i).0 same in
      ap (λ k. length (get_or (raise s row idx).rows k [])) (sym e)
      ∙ ap length row_self
      ∙ length-set (get_or s.rows row []) _ new_word
      ∙ v.row row in_row
  row_length i h (inr other) = ap length (row_other i (ground arith)) ∙ v.row i h

  word_bound :
      (i j : ℕ)
      → ((row == i) ≡ true) ⊎ ((row == i) ≡ false)
      → ((idx / 2 ^ 4 == j) ≡ true) ⊎ ((idx / 2 ^ 4 == j) ≡ false)
      → get_or (get_or (raise s row idx).rows i []) j 0 < 2 ^ 64
  word_bound i j (inl same) (inl here) =
      let e : row ≡ i = (==_iff row i).0 same in
      let k : idx / 2 ^ 4 ≡ j = (==_iff _ j).0 here in
      rw
        (
          ← e,
          row_self,
          ← k,
          get_or-set_self (get_or s.rows row []) (idx / 2 ^ 4) new_word 0 slot_in,
        )
        raised.2
  word_bound i j (inl same) (inr there) =
      let e : row ≡ i = (==_iff row i).0 same in
      rw
        (
          ← e,
          row_self,
          get_or-set_ne (get_or s.rows row []) {i = idx / 2 ^ 4} {j = j} new_word 0 (ground arith),
        )
        (v.word row j)
  word_bound i j (inr other) there = rw (row_other i (ground arith)) (v.word i j)

  pub raise-IsValid : IsValid (raise s row idx)
  raise-IsValid = record {
    words = v.words;
    rows = ap length raise-rows ∙ length-set s.rows row _ ∙ v.rows;
    row = λ i h. row_length i h (Bool-cases (row == i));
    word = λ i j. word_bound i j (Bool-cases (row == i)) (Bool-cases (idx / 2 ^ 4 == j));
    width = unfold raise in v.width;
  }

halved : ℕ → ℕ
halved w = bit_and (w / 2) half_nibbles

get_or-map :
    {A B : Type 0} (f : A → B) (xs : List A) (i : ℕ) (d : A)
    → get_or (map f xs) i (f d) ≡ f (get_or xs i d)
get_or-map f [] i d = refl
get_or-map f (x ∷ xs) zero d = refl
get_or-map f (x ∷ xs) (suc i) d = get_or-map f xs i d

length-map : {A B : Type 0} (f : A → B) (xs : List A) → length (map f xs) ≡ length xs
length-map f [] = refl
length-map f (x ∷ xs) = ap suc (length-map f xs)

halve_row : (s : Sketch) (i : ℕ) → get_or (halve s).rows i [] ≡ map halved (get_or s.rows i [])
unfolding halve halved
halve_row s i = get_or-map (map halved) s.rows i []

halve_word :
    (s : Sketch) (i j : ℕ)
    → get_or (get_or (halve s).rows i []) j 0 ≡ halved (get_or (get_or s.rows i []) j 0)
unfolding halved
halve_word s i j =
    ap (λ r. get_or r j 0) (halve_row s i) ∙ get_or-map halved (get_or s.rows i []) j 0

-- `halve` halves every counter.
pub read-halve : (s : Sketch) (row idx : ℕ) → read (halve s) row idx ≡ read s row idx / 2
unfolding read halved
read-halve s row idx =
    ap (λ w. nibble w (idx % 16)) (halve_word s row (idx / 2 ^ 4))
    ∙ nibble_halve (word_at s row idx) (idx % 16) (omega arith)

pub halve-IsValid : {s : Sketch} → IsValid s → IsValid (halve s)
halve-IsValid {s} v = record {
  words = v.words;
  rows = unfold halve in (length-map _ s.rows ∙ v.rows);
  row = λ i h. ap length (halve_row s i) ∙ length-map halved (get_or s.rows i []) ∙ v.row i h;
  word = λ i j. rw (halve_word s i j) (
      unfold halved in
      omega (arith, bit_and-le (get_or (get_or s.rows i []) j 0 / 2) half_nibbles));
  width = unfold halve in v.width;
}
