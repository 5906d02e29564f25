-- ===== src/Shardmap/Table/Crowd.antt =====
-- Keys that share one hash: a table holds at most 255 of them, whatever its capacity, and storing one
-- more grows it for ever.
use cachemoney.Base.{
  ℕ, zero, suc, ◌+◌, ◌%◌, ◌≤◌, ◌<◌, ◌≡◌, ◌≢◌, refl, sym, ap, ◌∙◌, none, List, arith, ◌==◌, ==_iff,
  if◌then◌else◌, length, set, Bool-cases, Option-cases, inl, inr, length-set,
}
use cachemoney.Base.Results.{bind-eq-some}
use mathlib.Core.Path.{subst}
use cachemoney.Shardmap.Meta.{dib_of, rank}
use cachemoney.Shardmap.Table.{Keys, Slot, Item, Table, vacant, set_item, insert}
use cachemoney.Shardmap.Table.Cyclic.{slot_at-set-cases}
use cachemoney.Shardmap.Table.Mass.{at, mass, weigh, mass-set, search_mass}
use cachemoney.Shardmap.Table.Sound.{IsSound, rank-eq-dib}
use cachemoney.Shardmap.Table.Valid.{IsValid, Describes, described_once}
use cachemoney.Shardmap.Table.Effect.{forgets}
use cachemoney.Shardmap.Table.Cyclic.{previous_slot}
use cachemoney.Shardmap.Table.Grow.{set_item-Sets}
use cachemoney.Shardmap.Table.View.{view, view-Describes, Alike-Stored}
use cachemoney.Shardmap.Table.Contract.{roomy, roomy-Roomy}

module _ {K V : Type 0} (keys : Keys K V) (hf : K → ℕ) where
  -- Counts the entries whose key has the hash `h`.
  abbrev pub crowd : ℕ → K → V → ℕ
  crowd h k u = if hf k == h then 1 else 0

  of_crowd : (h : ℕ) (k : K) (u : V) → crowd h k u ≢ 0 → hf k ≡ h
  of_crowd h k u e = ground arith

  -- If the crowd lies within `m` slots from its home, it is no more than `m`.
  crowd_within :
      (h m : ℕ) (a : List (Slot K V))
      → 0 < length a
      → ((x : ℕ)
          → (at keys a x).meta ≢ 0
          → hf (at keys a x).key ≡ h
          → (d : ℕ) × (d < m) × (x % length a ≡ (h + d) % length a))
      → mass keys (crowd h) a ≤ m
  crowd_within h zero a room near = elim (Bool-cases (mass keys (crowd h) a == 0)) [
    | inl z ↦ let e = (==_iff (mass keys (crowd h) a) 0).0 z in omega arith
    | inr heavy ↦
        let (x, taken, counts) = search_mass keys (crowd h) a (λ e. ground arith) in
        let (d, less, _) = near x taken (of_crowd h (at keys a x).key (at keys a x).val counts) in
        absurd (omega arith)
  ]
  crowd_within h (suc m) a room near =
      let cleared : List (Slot K V) = set a ((h + m) % length a) (vacant keys) in
      let len = length-set a ((h + m) % length a) (vacant keys) in
      let moved = mass-set keys (crowd h) a (h + m) (vacant keys) room in
      let one : weigh keys (crowd h) (at keys a (h + m)) ≤ 1 = ground arith in
      let rest = crowd_within h m cleared (omega (arith, len)) (λ x taken same.
        elim (slot_at-set-cases (vacant keys) a (h + m) x (vacant keys) room) [
          | inl (_, new) ↦ absurd (taken (ap (λ s. s.meta) new))
          | inr (apart, old) ↦
              let (d, less, e) =
                near x (λ z. taken (ap (λ s. s.meta) old ∙ z))
                  (ap (λ s. hf s.key) (sym old) ∙ same) in
              elim (Bool-cases (d == m)) [
                | inl last ↦ absurd (apart (e ∙ ap (λ t. (h + t) % length a) ((==_iff d m).0 last)))
                | inr before ↦
                    (d, ground arith, ap (λ n. x % n) len ∙ e ∙ ap (λ n. (h + d) % n) (sym len))
              ]
        ]) in
      omega (arith, moved, one, rest)

  -- A sound table holds at most 255 keys of one hash.
  pub crowd_bound :
      {a : List (Slot K V)} (v : IsSound keys hf a) (h : ℕ) → mass keys (crowd h) a ≤ 255
  crowd_bound {a} v h = crowd_within h 255 a v.room (λ x taken same.
      let s = v.housed x taken in
      let r = rank-eq-dib keys hf v x taken in
      let d : ℕ = dib_of (at keys a x).meta in
      let ahead : suc (h + d) ≡ (at keys a x).hash + rank (at keys a x).meta =
        omega (arith, r, s.hashed, same) in
      (
        d,
        omega (arith, r, s.high),
        sym (previous_slot (h + d) x (length a) v.room (ap (λ t. t % length a) ahead ∙ s.home)),
      ))

  -- In a valid table that holds 255 keys of one hash, the insertion of another key of that hash
  -- returns for no number of growths.
  pub insert_never :
      (f : ℕ) (t : Table K V) (k : K) (u : V)
      → IsValid keys hf t
      → mass keys (crowd (hf k)) t.slots ≡ 255
      → view keys hf t k ≡ none
      → insert keys f t (hf k) k u ≡ none
  unfolding insert
  insert_never f t k u v full new = elim (Option-cases (insert keys f t (hf k) k u)) [
    | inl e ↦ e
    | inr (t', e) ↦
        let c : Item K V = record { hash = hf k; key = k; val = u } in
        let (t₁, first, next) = bind-eq-some (roomy keys hf f t) (λ t₁. set_item keys f t₁ c) e in
        let r = roomy-Roomy keys hf f v first in
        let done = set_item-Sets keys hf f t₁ c t' r.valid r.room refl next in
        let absent = subst (Describes keys hf t.slots k) new (view-Describes keys hf v k) in
        let stored = Alike-Stored keys hf c none absent r.alike done.stored in
        let lost =
          ap (forgets keys hf (crowd (hf k)) k)
            (described_once keys hf t.slots k stored.old none stored.before absent) in
        let m = stored.sum (crowd (hf k)) in
        let bound = crowd_bound done.valid.sound (hf k) in
        let one : crowd (hf k) k u ≡ 1 = ground arith in
        absurd (omega (arith, m, full, bound, one, lost))
  ]
