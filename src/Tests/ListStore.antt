-- ===== src/Tests/ListStore.antt =====
-- A backing map as an association list with distinct keys: the map on which the tests of
-- internal/cache run.
use cachemoney.Base.{
  ℕ, zero, suc, ◌+◌, ◌≡◌, refl, sym, ◌∙◌, false, Option, none, some, List, [], ◌∷◌, All,
  if◌then◌else◌, bytes_eq, bytes_eq_iff, bytes_eq_refl, Bool-cases, inl, inr, take, arith,
}
use cachemoney.Cache.Entry.{Bytes, Entry}
use cachemoney.Cache.Store.{Store, total, weight_of}

abbrev pub Bindings : Type 0
Bindings = List (Bytes × Entry)

unfoldable pub get : Bindings → Bytes → Option Entry
get [] k = none
get ((j, e) ∷ rest) k = let others = get rest k in if bytes_eq j k then some e else others

unfoldable pub delete : Bindings → Bytes → Bindings × Option Entry
delete [] k = ([], none)
delete ((j, e) ∷ rest) k =
    let (m, old) = delete rest k in if bytes_eq j k then (rest, some e) else ((j, e) ∷ m, old)

unfoldable pub IsDistinct : Bindings → Type 0
IsDistinct [] = Unit
IsDistinct ((k, e) ∷ rest) = (get rest k ≡ none) × IsDistinct rest

bytes_eq_sym : (a b : Bytes) → bytes_eq a b ≡ bytes_eq b a
bytes_eq_sym a b = elim (Bool-cases (bytes_eq a b)) [
  | inl e ↦ let same = (bytes_eq_iff a b).0 e in rw (same, bytes_eq_refl b)
  | inr e ↦ elim (Bool-cases (bytes_eq b a)) [
    | inl f ↦ let same = (bytes_eq_iff b a).0 f in rw (same, bytes_eq_refl a)
    | inr f ↦ e ∙ sym f
  ]
]

pub get-delete :
    (m : Bindings) (k j : Bytes)
    → IsDistinct m
    → get (delete m k).0 j ≡ (if bytes_eq k j then none else get m j)
unfolding get delete IsDistinct
get-delete [] k j d = elim (Bool-cases (bytes_eq k j)) [ inl e ↦ rw e | inr e ↦ rw e ]
get-delete ((i, x) ∷ rest) k j (fresh, d) =
    let before = get-delete rest k j d in
    elim (Bool-cases (bytes_eq i k)) [
      | inl here ↦
          let same = (bytes_eq_iff i k).0 here in
          elim (Bool-cases (bytes_eq k j)) [
            | inl asked ↦
                let one = (bytes_eq_iff k j).0 asked in
                rw (here, asked) (rw (sym one, sym same) fresh)
            | inr other ↦ rw (here, same, other)
          ]
      | inr there ↦ elim (Bool-cases (bytes_eq i j)) [
        | inl asked ↦
            let apart : bytes_eq k j ≡ false =
              rw (sym ((bytes_eq_iff i j).0 asked), bytes_eq_sym k i) there in
            rw (there, asked, apart)
        | inr other ↦ rw (there, other) before
      ]
    ]

pub delete-IsDistinct : (m : Bindings) (k : Bytes) → IsDistinct m → IsDistinct (delete m k).0
unfolding delete IsDistinct get
delete-IsDistinct [] k d = d
delete-IsDistinct ((i, x) ∷ rest) k (fresh, d) = elim (Bool-cases (bytes_eq i k)) [
  | inl here ↦ rw here d
  | inr there ↦
      let gone : get (delete rest k).0 i ≡ none =
        get-delete rest k i d ∙ rw (bytes_eq_sym k i, there) fresh in
      rw there (gone, delete-IsDistinct rest k d)
]

pub delete_old : (m : Bindings) (k : Bytes) → (delete m k).1 ≡ get m k
unfolding delete get
delete_old [] k = refl
delete_old ((i, x) ∷ rest) k = elim (Bool-cases (bytes_eq i k)) [
  | inl here ↦ rw here
  | inr there ↦ rw there (delete_old rest k)
]

pub total-delete :
    (w : Bytes → Entry → ℕ) (m : Bindings) (k : Bytes)
    → total w (delete m k).0 + weight_of w k (get m k) ≡ total w m
unfolding delete get
total-delete w [] k = refl
total-delete w ((i, x) ∷ rest) k =
    let before = total-delete w rest k in
    elim (Bool-cases (bytes_eq i k)) [
      | inl here ↦ let same = (bytes_eq_iff i k).0 here in rw (here, same) (omega arith)
      | inr there ↦ rw there (omega arith)
    ]

pub swap_total :
    (w : Bytes → Entry → ℕ) (m : Bindings) (k : Bytes) (e : Entry)
    → w k e + total w (delete m k).0 + weight_of w k (get m k) ≡ total w m + w k e
swap_total w m k e = let removed = total-delete w m k in omega arith

still_live :
    (k : Bytes) (e : Entry) (m : Bindings)
    → get m k ≡ none
    → (xs : Bindings) → All (λ c. get m c.0 ≡ some c.1) xs
    → All (λ c. get ((k, e) ∷ m) c.0 ≡ some c.1) xs
unfolding get
still_live k e m fresh [] live = tt
still_live k e m fresh ((j, x) ∷ xs) (here, live) = elim (Bool-cases (bytes_eq k j)) [
  | inl same ↦
      let one = (bytes_eq_iff k j).0 same in
      (let clash : none ≡ some x = sym fresh ∙ rw one here in cc)
  | inr apart ↦ (rw apart here, still_live k e m fresh xs live)
]

pub sample_live : (n : ℕ) (m : Bindings) → IsDistinct m → All (λ c. get m c.0 ≡ some c.1) (take n m)
unfolding IsDistinct get
sample_live zero m d = tt
sample_live (suc n) [] d = tt
sample_live (suc n) ((k, e) ∷ rest) (fresh, d) =
    (rw (bytes_eq_refl k), still_live k e rest fresh (take n rest) (sample_live n rest d))

pub get-swap :
    (m : Bindings) (k : Bytes) (e : Entry) (j : Bytes)
    → IsDistinct m
    → get ((k, e) ∷ (delete m k).0) j ≡ (if bytes_eq k j then some e else get m j)
unfolding get
get-swap m k e j d = elim (Bool-cases (bytes_eq k j)) [
  | inl h ↦ rw h
  | inr h ↦ let removed = get-delete m k j d in rw (removed, h)
]

pub swap-IsDistinct :
    (m : Bindings) (k : Bytes) (e : Entry) → IsDistinct m → IsDistinct ((k, e) ∷ (delete m k).0)
unfolding IsDistinct
swap-IsDistinct m k e d = (get-delete m k k d ∙ rw (bytes_eq_refl k), delete-IsDistinct m k d)

-- The entries in order of insertion; a sample is the first of them.
abbrev pub list_store : Store
list_store = record {
  State = Bindings;
  get = get;
  swap = λ m k e. ((k, e) ∷ (delete m k).0, (delete m k).1);
  delete = delete;
  sample = λ m n draws. take n m;
  entries = λ m. m;
  IsValid = IsDistinct;
  HasRoom = λ m k. Unit;
  swap-IsValid = λ m k e d room. swap-IsDistinct m k e d;
  delete-IsValid = delete-IsDistinct;
  swap_old = λ m k e d room. delete_old m k;
  delete_old = λ m k d. delete_old m k;
  get-swap = λ m k e j d room. get-swap m k e j d;
  get-delete = get-delete;
  total-swap = λ w m k e d room. swap_total w m k e;
  total-delete = λ w m k d. total-delete w m k;
  sample_live = λ m n draws d. sample_live n m d;
}
