-- ===== src/Shardmap/Sample/Distinct.antt =====
-- The result of Sample: stored entries, at most as many as asked for, and no key twice.
use Prim.Native.Nat.{bit_and}
use cachemoney.Base.{
  ℕ, zero, suc, ◌+◌, ◌-◌, ◌*◌, ◌%◌, ◌≤◌, ◌<◌, ◌≡◌, ◌≢◌, refl, sym, ap, ◌∙◌, true, false, Option,
  none, some, List, [], ◌∷◌, ◌++◌, arith, leb, length, get_elem?, All, All-append, length-append,
  Bool-cases, inl, inr,
}
use cachemoney.Base.Int.{ℤ, pos, ltb_ℤ, pos_part}
use cachemoney.Base.Bits.{bit_and-low_ones, pow-positive}
use cachemoney.Shardmap.Table.{Keys, Table}
use cachemoney.Shardmap.Table.Cyclic.{mod-lt_lem}
use cachemoney.Shardmap.Table.Mass.{at}
use cachemoney.Shardmap.Table.Valid.{Decides-Describes}
use cachemoney.Shardmap.Table.View.{view_is}
use cachemoney.Shardmap.Routing.{Map, hash_of, route_of}
use cachemoney.Shardmap.Routing.Valid.{IsValidMap, view_map, view_in, get_elem?-some}
use cachemoney.Shardmap.Sample.{
  SampleEntry, Collected, sample_shard, sample_draw_factor, sample_draw_floor, seen, keep_entry,
  sample_loop, sample,
}
use cachemoney.Shardmap.Sample.Drawn.{Shows, sample_shard_finds}

module _ {S K V : Type 0} (keys : Keys K V) (rand : ℕ → ℕ) (m : Map S K V) where
  abbrev pub IsStored : SampleEntry K V → Type 0
  IsStored e = view_map keys m e.key ≡ some e.val

  -- No entry of `out` has the key `k`.
  abbrev pub IsFresh : K → List (SampleEntry K V) → Type 0
  IsFresh k out = All (λ d. d.key ≢ k) out

  -- No key twice.
  unfoldable pub AllApart : List (SampleEntry K V) → Type 0
  AllApart [] = Unit
  AllApart (e ∷ out) = IsFresh e.key out × AllApart out

  -- What the loop keeps of its result.
  pub record IsSample (n : ℕ) (out : List (SampleEntry K V)) : Type 0 where
    pub stored : All IsStored out
    pub apart : AllApart out
    pub short : length out ≤ n

  -- A key that is not recorded has no entry.
  Covers : Collected K V → Type 0
  Covers c = (k : K) → seen keys rand c.recorded k ≡ false → IsFresh k c.out

  append-AllApart :
      (out : List (SampleEntry K V)) (e : SampleEntry K V)
      → AllApart out
      → IsFresh e.key out
      → AllApart (out ++ (e ∷ []))
  unfolding AllApart
  append-AllApart [] e apart new = (tt, tt)
  append-AllApart (d ∷ out) e (first, apart) (other, new) = (
    All-append (λ z. z.key ≢ d.key) out (e ∷ []) first ((λ same. other (sym same)), tt),
    append-AllApart out e apart new,
  )

  append-Covers :
      (c : Collected K V) (e : SampleEntry K V)
      → Covers c
      → Covers (record { out = c.out ++ (e ∷ []); recorded = e.key ∷ c.recorded })
  unfolding Covers seen
  append-Covers c e covers k new = elim (Bool-cases (keys.beq e.key k)) [
    | inl same ↦ absurd (ground (arith, same, new))
    | inr differ ↦
        let old : seen keys rand c.recorded k ≡ false = rw differ at new in
        All-append (λ z. z.key ≢ k) c.out (e ∷ []) (covers k old)
          ((λ same. yes_no (sym ((keys.beq_iff e.key k).1 same) ∙ differ)), tt)
  ]
    where
      yes_no : true ≡ false → ⊥
      yes_no z = cc

  sample_loop_next :
      (budget n : ℕ) (c : Collected K V) (j : ℕ) (t : Table K V) (o : Option (SampleEntry K V))
      (j' : ℕ)
      → leb n (length c.out) ≡ false
      → get_elem? m.shards (bit_and (rand j) (length m.shards - 1)) ≡ some t
      → sample_shard keys rand t (suc j) ≡ some (o, j')
      → sample_loop keys rand (suc budget) n m.shards c j
        ≡ sample_loop keys rand budget n m.shards (keep_entry keys rand c o) j'
  unfolding sample_loop
  sample_loop_next budget n c j t o j' fewer at_i drawn = rw (fewer, at_i, drawn) refl

  module _ (v : IsValidMap keys m) where
    Shows-IsStored :
        (i : ℕ) (t : Table K V) (e : SampleEntry K V) (at_i : get_elem? m.shards i ≡ some t)
        → Shows keys rand (hash_of keys m) (v.tables i t at_i) (some e)
        → IsStored e
    unfolding Shows
    Shows-IsStored i t e at_i (y, taken, key, val) =
        let valid = v.tables i t at_i in
        let routed : route_of keys m e.key ≡ i =
          ap (route_of keys m) (sym key) ∙ v.own i t at_i y taken in
        view_in keys v e.key t (ap (get_elem? m.shards) routed ∙ at_i)
        ∙ view_is keys (hash_of keys m) valid e.key (some (at keys t.slots y).val)
            (Decides-Describes keys (hash_of keys m) valid.sound e.key y taken key)
        ∙ ap some val

    keep_entry-IsSample :
        (n i : ℕ) (t : Table K V) (at_i : get_elem? m.shards i ≡ some t) (c : Collected K V)
        (o : Option (SampleEntry K V))
        → Shows keys rand (hash_of keys m) (v.tables i t at_i) o
        → length c.out < n
        → IsSample n c.out
        → Covers c
        → IsSample n (keep_entry keys rand c o).out × Covers (keep_entry keys rand c o)
    unfolding keep_entry Covers
    keep_entry-IsSample n i t at_i c none shows room h covers = (h, covers)
    keep_entry-IsSample n i t at_i c (some e) shows room h covers =
        elim (Bool-cases (seen keys rand c.recorded e.key)) [
          | inl dup ↦ rw dup (h, covers)
          | inr new ↦ rw new (
            record {
              stored =
                  All-append IsStored c.out (e ∷ []) h.stored (Shows-IsStored i t e at_i shows, tt);
              apart = append-AllApart c.out e h.apart (covers e.key new);
              short = let len = length-append c.out (e ∷ []) in omega (arith, len, room);
            },
            append-Covers c e covers,
          )
        ]

    some_shard :
        (r : ℕ) → (t : Table K V) × (get_elem? m.shards (bit_and r (length m.shards - 1)) ≡ some t)
    some_shard r =
        let size = v.size in
        let index : bit_and r (length m.shards - 1) ≡ r % length m.shards =
          ap (λ n. bit_and r (n - 1)) size
          ∙ bit_and-low_ones v.bits r
          ∙ ap (λ n. r % n) (sym size) in
        let room = pow-positive v.bits in
        let (t, e) =
          get_elem?-some m.shards (r % length m.shards)
            (mod-lt_lem r (length m.shards) (omega arith)) in
        (t, ap (get_elem? m.shards) index ∙ e)

    sample_loop-IsSample :
        (budget n : ℕ) (c : Collected K V) (j : ℕ)
        → IsSample n c.out
        → Covers c
        → (r : List (SampleEntry K V)) × (sample_loop keys rand budget n m.shards c j ≡ some r)
          × IsSample n r
    unfolding sample_loop
    sample_loop-IsSample zero n c j h covers = (c.out, refl, h)
    sample_loop-IsSample (suc budget) n c j h covers = elim (Bool-cases (leb n (length c.out))) [
      | inl enough ↦ (c.out, rw enough refl, h)
      | inr fewer ↦
          let (t, at_i) = some_shard (rand j) in
          let i : ℕ = bit_and (rand j) (length m.shards - 1) in
          let (o, j', drawn, shows) =
            sample_shard_finds keys rand (hash_of keys m) (v.tables i t at_i) (suc j) in
          let (h', covers') = keep_entry-IsSample n i t at_i c o shows (ground arith) h covers in
          let (r, e, done) =
            sample_loop-IsSample budget n (keep_entry keys rand c o) j' h' covers' in
          (r, sample_loop_next budget n c j t o j' fewer at_i drawn ∙ e, done)
    ]

    -- On a valid map and for every random source, `Sample` returns at most as many entries as are
    -- asked for. Each is an entry of the map with the value that `Get` answers, and no key comes twice.
    pub sample-IsSample :
        (n : ℤ)
        → (r : List (SampleEntry K V)) × (sample keys rand m n ≡ some r) × IsSample (pos_part n) r
    unfolding sample AllApart Covers
    sample-IsSample n =
        let nothing : IsSample (pos_part n) [] = record {
          stored = tt;
          apart = tt;
          short = omega arith;
        } in
        elim (Bool-cases (ltb_ℤ (pos 0) n)) [
          | inl asked ↦
              let (r, e, h) =
                sample_loop-IsSample (pos_part n * sample_draw_factor + sample_draw_floor)
                  (pos_part n) (record { out = []; recorded = [] }) 0 nothing (λ k new. tt) in
              (r, rw asked e, h)
          | inr no_entries ↦ ([], rw no_entries refl, nothing)
        ]
