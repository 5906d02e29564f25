-- ===== src/Shardmap/Table/Refill.antt =====
-- `set`, and `resize`, which empties a table into a new one through `set`.
use cachemoney.Base.{
  ℕ, suc, ◌+◌, ◌≤◌, ◌<◌, ◌≡◌, ◌≢◌, ap, Option, none, some, List, [], ◌∷◌, arith, ◌==◌, ==_iff,
  length, get_or, Bool-cases, inl, inr,
}
use cachemoney.Base.Results.{bind-eq-some}
use mathlib.Core.Path.{subst}
use mathlib.Core.Option.{some-injective}
use cachemoney.Shardmap.Table.{Keys, Slot, Item, Table, vacant, item_of, reinsert}
use cachemoney.Shardmap.Table.Mass.{Every, mass, occurs, is_key, is_key_self, weigh}
use cachemoney.Shardmap.Table.Valid.{IsValid, Describes, described_once}
use cachemoney.Shardmap.Table.Effect.{Stored, Alike, forgets}

module _ {K V : Type 0} (keys : Keys K V) (hf : K → ℕ) where
  -- A result of `set`: the table is valid, no smaller, and holds the item.
  pub record Sets (t : Table K V) (c : Item K V) (t' : Table K V) : Type 1 where
    pub valid : IsValid keys hf t'
    pub no_smaller : t.grow_at ≤ t'.grow_at
    pub stored : Stored keys hf t.slots c t'.slots

  -- A way of storing items that leaves such results, when it answers.
  unfoldable pub Setter : (Table K V → Item K V → Option (Table K V)) → Type 1
  Setter put =
      (t : Table K V) (c : Item K V) (t' : Table K V)
      → IsValid keys hf t
      → t.count < t.grow_at
      → c.hash ≡ hf c.key
      → put t c ≡ some t'
      → Sets t c t'

  -- A result of `resize`.
  pub record Resizes (a : List (Slot K V)) (least : ℕ) (t' : Table K V) : Type 1 where
    pub valid : IsValid keys hf t'
    pub no_smaller : least ≤ t'.grow_at
    pub alike : Alike keys hf a t'.slots

  unfoldable pub EachIn : (Slot K V → Type 0) → List (Slot K V) → Type 0
  EachIn P [] = Unit
  EachIn P (s ∷ rest) = (s.meta ≢ 0 → P s) × EachIn P rest

  pub each_in :
      (P : Slot K V → Type 0) (rest : List (Slot K V))
      → ((i : ℕ)
          → i < length rest
          → (get_or rest i (vacant keys)).meta ≢ 0
          → P (get_or rest i (vacant keys)))
      → EachIn P rest
  unfolding EachIn
  each_in P [] h = tt
  each_in P (s ∷ rest) h = (h 0 (omega arith), each_in P rest (λ i below. h (suc i) (omega arith)))

  -- What the slots that are still to be reinserted need.
  pub record Waiting (rest : List (Slot K V)) (t : Table K V) : Type 0 where
    pub hashed : EachIn (λ s. s.hash ≡ hf s.key) rest
    pub apart : (q : K) → occurs keys q rest + occurs keys q t.slots ≤ 1
    pub fit : mass keys (λ k v. 1) rest + t.count ≤ t.grow_at

  pub record Refilled (rest : List (Slot K V)) (t t' : Table K V) : Type 1 where
    pub valid : IsValid keys hf t'
    pub no_smaller : t.grow_at ≤ t'.grow_at
    pub sum : (w : K → V → ℕ) → mass keys w t'.slots ≡ mass keys w t.slots + mass keys w rest
    pub every :
        (P : K → V → Type 0)
        → Every keys P t.slots
        → EachIn (λ s. P s.key s.val) rest
        → Every keys P t'.slots

  fresh_item :
      (a : List (Slot K V)) (q : K) (o : Option V)
      → Describes keys hf a q o
      → occurs keys q a ≡ 0
      → o ≡ none
  unfolding Describes
  fresh_item a q o d gone = described_once keys hf a q o none d gone

  Refilled-one :
      (s : Slot K V) (rest : List (Slot K V)) (t t₁ t' : Table K V)
      → s.meta ≢ 0
      → occurs keys s.key t.slots ≡ 0
      → Sets t (item_of keys s) t₁
      → Refilled rest t₁ t'
      → Refilled (s ∷ rest) t t'
  unfolding EachIn mass
  Refilled-one s rest t t₁ t' taken gone one more = record {
    valid = more.valid;
    no_smaller = let x₁ = one.no_smaller in let x₂ = more.no_smaller in omega arith;
    sum = λ w.
        let x₁ = more.sum w in
        let x₂ = one.stored.sum w in
        let x₃ =
          ap (forgets keys hf w s.key)
            (fresh_item t.slots s.key one.stored.old one.stored.before gone) in
        let x₄ : weigh keys w s ≡ w s.key s.val = ground arith in omega (arith, x₁, x₂, x₃, x₄);
    every = λ P all (h, each).
        more.every P (one.stored.every P (λ x there apart. all x there) (h taken)) each;
  }

  skip_one :
      (s : Slot K V) (rest : List (Slot K V)) (t t' : Table K V)
      → s.meta ≡ 0
      → Refilled rest t t'
      → Refilled (s ∷ rest) t t'
  unfolding EachIn mass
  skip_one s rest t t' free more = record {
    valid = more.valid;
    no_smaller = more.no_smaller;
    sum = λ w.
        let x₁ = more.sum w in let x₂ : weigh keys w s ≡ 0 = ground arith in omega (arith, x₁, x₂);
    every = λ P all (_, each). more.every P all each;
  }

  pub still-Waiting :
      (s : Slot K V) (rest : List (Slot K V)) (t : Table K V)
      → s.meta ≡ 0
      → Waiting (s ∷ rest) t
      → Waiting rest t
  unfolding EachIn mass
  still-Waiting s rest t free w = record {
    hashed = w.hashed.1;
    apart = λ q.
        let x₁ = w.apart q in
        let x₂ : weigh keys (is_key keys q) s ≡ 0 = ground arith in omega (arith, x₁, x₂);
    fit =
        let x₁ = w.fit in
        let x₂ : weigh keys (λ k v. 1) s ≡ 0 = ground arith in omega (arith, x₁, x₂);
  }

  pub weigh_taken : (w : K → V → ℕ) (s : Slot K V) → s.meta ≢ 0 → weigh keys w s ≡ w s.key s.val
  weigh_taken w s taken = ground arith

  not_there_yet :
      (s : Slot K V) (rest : List (Slot K V)) (t : Table K V)
      → s.meta ≢ 0
      → Waiting (s ∷ rest) t
      → occurs keys s.key t.slots ≡ 0
  unfolding mass
  not_there_yet s rest t taken w =
      let x₁ = w.apart s.key in
      let x₂ = weigh_taken (is_key keys s.key) s taken in
      let x₃ = is_key_self keys s.key s.val in omega (arith, x₁, x₂, x₃)

  pub Waiting-after :
      (s : Slot K V) (rest : List (Slot K V)) (t t₁ : Table K V)
      → s.meta ≢ 0
      → IsValid keys hf t
      → Waiting (s ∷ rest) t
      → Sets t (item_of keys s) t₁
      → Waiting rest t₁
  unfolding EachIn mass
  Waiting-after s rest t t₁ taken v w one = record {
    hashed = w.hashed.1;
    apart = λ q.
        let x₁ = w.apart q in
        let x₂ = weigh_taken (is_key keys q) s taken in
        let x₃ = one.stored.sum (is_key keys q) in omega (arith, x₁, x₂, x₃);
    fit =
        let x₁ = w.fit in
        let x₂ = weigh_taken (λ k v. 1) s taken in
        let x₃ = one.stored.sum (λ k v. 1) in
        let x₄ = one.valid.counted in
        let x₅ = v.counted in let x₆ = one.no_smaller in omega (arith, x₁, x₂, x₃, x₄, x₅, x₆);
  }

  pub reinsert-Refilled :
      (put : Table K V → Item K V → Option (Table K V))
      → Setter put
      → (rest : List (Slot K V)) (t t' : Table K V) → IsValid keys hf t
      → Waiting rest t
      → reinsert keys put rest t ≡ some t'
      → Refilled rest t t'
  unfolding reinsert EachIn mass Setter
  reinsert-Refilled put law [] t t' v w e = subst (Refilled [] t) (some-injective _ _ e) (record {
    valid = v;
    no_smaller = omega arith;
    sum = λ w. omega arith;
    every = λ P all each. all;
  })
  reinsert-Refilled put law (s ∷ rest) t t' v w e = elim (Bool-cases (s.meta == 0)) [
    | inl free ↦
        let z = (==_iff s.meta 0).0 free in
        skip_one s rest t t' z
          (reinsert-Refilled put law rest t t' v (still-Waiting s rest t z w) (rw free at e))
    | inr there ↦
        let taken : s.meta ≢ 0 = λ z. ground arith in
        let (t₁, first, next) =
          bind-eq-some (put t (item_of keys s)) (reinsert keys put rest) (rw there at e) in
        let fit = w.fit in
        let one_more = weigh_taken (λ k v. 1) s taken in
        let one =
          law t (item_of keys s) t₁ v (omega (arith, fit, one_more)) (w.hashed.0 taken) first in
        let more =
          reinsert-Refilled put law rest t₁ t' one.valid (Waiting-after s rest t t₁ taken v w one)
            next in
        Refilled-one s rest t t₁ t' taken (not_there_yet s rest t taken w) one more
  ]
