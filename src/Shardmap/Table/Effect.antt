-- ===== src/Shardmap/Table/Effect.antt =====
-- The effect of storing an item on what a table says of the keys, whatever slots it moves.
use cachemoney.Base.{
  ℕ, ◌+◌, ◌≤◌, ◌≡◌, ◌≢◌, refl, sym, ap, ◌∙◌, Option, none, some, List, arith, Bool-cases, inl, inr,
}
use cachemoney.Shardmap.Table.{Keys, Slot, Item}
use cachemoney.Shardmap.Table.Mass.{Every, at, mass, occurs, is_key, is_key_self}
use cachemoney.Shardmap.Table.Sound.{IsSound, occurs_of}
use cachemoney.Shardmap.Table.Place.{Added, Replaced, Spilled}
use cachemoney.Shardmap.Table.Valid.{Describes, Decides-Describes, described_once}

module _ {K V : Type 0} (keys : Keys K V) (hf : K → ℕ) where
  -- What a weight loses with the value that was there.
  abbrev pub forgets : (K → V → ℕ) → K → Option V → ℕ
  forgets w k none = 0
  forgets w k (some v) = w k v

  -- The slots `b` hold what `a` held, and the item's value for its key in place of `old`.
  pub record Stored (a : List (Slot K V)) (c : Item K V) (b : List (Slot K V)) : Type 1 where
    pub old : Option V
    pub before : Describes keys hf a c.key old
    pub sum : (w : K → V → ℕ) → mass keys w b + forgets w c.key old ≡ mass keys w a + w c.key c.val
    pub every :
        (P : K → V → Type 0)
        → Every keys (λ k u. k ≢ c.key → P k u) a
        → P c.key c.val
        → Every keys P b

  -- The slots `b` hold what `a` held without key `q`, whose value was `old`.
  pub record Dropped (a : List (Slot K V)) (q : K) (old : V) (b : List (Slot K V)) : Type 1 where
    pub before : Describes keys hf a q (some old)
    pub sum : (w : K → V → ℕ) → mass keys w b + w q old ≡ mass keys w a
    pub every : (P : K → V → Type 0) → Every keys (λ k u. k ≢ q → P k u) a → Every keys P b

  -- The slots `b` hold what `a` holds.
  pub record Alike (a : List (Slot K V)) (b : List (Slot K V)) : Type 1 where
    pub sum : (w : K → V → ℕ) → mass keys w b ≡ mass keys w a
    pub every : (P : K → V → Type 0) → Every keys P a → Every keys P b

  is_key_other : (q k : K) (v : V) → k ≢ q → is_key keys q k v ≡ 0
  is_key_other q k v apart = elim (Bool-cases (keys.beq k q)) [
    | inl same ↦ absurd (apart ((keys.beq_iff k q).0 same))
    | inr differ ↦ rw differ
  ]

  still_there :
      (a : List (Slot K V)) (k : K) (old : Option V) (after : ℕ)
      → Describes keys hf a k old
      → after + forgets (is_key keys k) k old ≡ occurs keys k a + 1
      → after ≢ 0
  unfolding Describes
  still_there a k none after gone sum z = omega arith
  still_there a k (some v) after (there, _) sum z =
      let one = is_key_self keys k v in absurd (there (omega (arith, one)))

  forgets_other : (q k : K) (old : Option V) → k ≢ q → forgets (is_key keys q) k old ≡ 0
  forgets_other q k none apart = refl
  forgets_other q k (some v) apart = is_key_other q k v apart

  -- A description passes to slots with as many entries of the key, which satisfy what those did.
  Describes-on :
      (a b : List (Slot K V)) (q : K) (o : Option V)
      → occurs keys q b ≡ occurs keys q a
      → ((v : V) → Every keys (λ k u. k ≡ q → u ≡ v) a → Every keys (λ k u. k ≡ q → u ≡ v) b)
      → Describes keys hf a q o
      → Describes keys hf b q o
  unfolding Describes
  Describes-on a b q none same carry d = same ∙ d
  Describes-on a b q (some v) same carry (there, one) = (λ z. there (sym same ∙ z), carry v one)

  -- The item's key has the item's value afterwards.
  pub Stored-Describes_self :
      {a b : List (Slot K V)} (c : Item K V) → Stored a c b → Describes keys hf b c.key (some c.val)
  unfolding Describes
  Stored-Describes_self {a} {b} c h = (
    still_there a c.key h.old (occurs keys c.key b) h.before (
        h.sum (is_key keys c.key)
        ∙ ap (λ n. occurs keys c.key a + n) (is_key_self keys c.key c.val)),
    h.every (λ k u. k ≡ c.key → u ≡ c.val) (λ x t apart same. absurd (apart same)) (λ e. refl),
  )

  -- Every other key has what it had.
  pub Stored-Describes_other :
      {a b : List (Slot K V)} (c : Item K V) (q : K) (o : Option V)
      → Stored a c b
      → c.key ≢ q
      → Describes keys hf a q o
      → Describes keys hf b q o
  Stored-Describes_other c q o h apart d =
      let m = h.sum (is_key keys q) in
      let x₁ = forgets_other q c.key h.old apart in
      let x₂ = is_key_other q c.key c.val apart in
      Describes-on _ _ q o (omega (arith, m, x₁, x₂))
        (λ v all. h.every (λ k u. k ≡ q → u ≡ v) (λ x t k_apart. all x t) (λ e. absurd (apart e))) d

  pub Dropped-Describes_self :
      {a b : List (Slot K V)} (q : K) (old : V)
      → Dropped a q old b
      → occurs keys q a ≤ 1
      → Describes keys hf b q none
  unfolding Describes
  Dropped-Describes_self q old h few =
      let m = h.sum (is_key keys q) in let one = is_key_self keys q old in omega (arith, m, one)

  pub Dropped-Describes_other :
      {a b : List (Slot K V)} (p : K) (old : V) (q : K) (o : Option V)
      → Dropped a p old b
      → p ≢ q
      → Describes keys hf a q o
      → Describes keys hf b q o
  Dropped-Describes_other p old q o h apart d =
      let m = h.sum (is_key keys q) in
      let none_lost = is_key_other q p old apart in
      Describes-on _ _ q o (omega (arith, m, none_lost))
        (λ v all. h.every (λ k u. k ≡ q → u ≡ v) (λ x t k_apart. all x t)) d

  pub Alike-Describes :
      {a b : List (Slot K V)} (q : K) (o : Option V)
      → Alike a b
      → Describes keys hf a q o
      → Describes keys hf b q o
  Alike-Describes q o h =
      Describes-on _ _ q o (h.sum (is_key keys q)) (λ v. h.every (λ k u. k ≡ q → u ≡ v))

  -- A key that is not there leaves nothing to except.
  pub Every-absent :
      {a : List (Slot K V)} (v : IsSound keys hf a) (q : K) (P : K → V → Type 0)
      → occurs keys q a ≡ 0
      → Every keys (λ k u. k ≢ q → P k u) a
      → Every keys P a
  Every-absent v q P gone all x taken =
      all x taken (λ same. occurs_of keys hf v x q taken same gone)

  pub Added-Stored :
      {a b : List (Slot K V)} (v : IsSound keys hf a) (c : Item K V)
      → Added keys hf a c b
      → Stored a c b
  unfolding Describes
  Added-Stored {a} {b} v c h = record {
    old = none;
    before = h.fresh;
    sum = λ w. let m = h.sum w in omega (arith, m);
    every = λ P all here. h.every P (Every-absent v c.key P h.fresh all) here;
  }

  pub Replaced-Stored :
      {a b : List (Slot K V)} (v : IsSound keys hf a) (c : Item K V)
      → Replaced keys hf a c b
      → Stored a c b
  Replaced-Stored {a} {b} v c h = record {
    old = some (at keys a h.where_is).val;
    before = Decides-Describes keys hf v c.key h.where_is h.taken h.is_there;
    sum = λ w. h.sum w;
    every = λ P all here. h.every P all here;
  }

  -- A spill, a rebuilding of the table and the storing of what was carried store the item.
  pub Spilled-Stored :
      {a b b' z : List (Slot K V)} (v : IsSound keys hf a) (c e : Item K V)
      → Spilled keys hf a c b e
      → Alike b b'
      → Stored b' e z
      → Stored a c z
  unfolding Describes
  Spilled-Stored {a} {b} {b'} v c e h same s = record {
    old = none;
    before = h.fresh;
    sum = λ w.
        let x₁ = h.sum w in
        let x₂ = same.sum w in
        let x₃ = s.sum w in
        let x₄ = ap (forgets w e.key) (was_absent s.old s.before) in omega (arith, x₁, x₂, x₃, x₄);
    every = λ P all here.
        let (there, carried) = h.every P (Every-absent v c.key P h.fresh all) here in
        s.every P (λ x t apart. same.every P there x t) carried;
  }
    where
      was_absent : (o : Option V) → Describes keys hf b' e.key o → o ≡ none
      was_absent o d =
          described_once keys hf b' e.key o none d (same.sum (is_key keys e.key) ∙ h.carried_fresh)
