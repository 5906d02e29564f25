-- ===== src/Shardmap/Table/Place/Overwrite.antt =====
-- A probe of `set` that finds the key.
use cachemoney.Base.{
  ℕ, suc, ◌+◌, ◌%◌, ◌≡◌, ◌≢◌, refl, sym, ap, ◌∙◌, List, arith, length, set, inl, inr, length-set,
}
use mathlib.Core.Path.{subst}
use cachemoney.Shardmap.Meta.{rank}
use cachemoney.Shardmap.Table.{Keys, Slot, Item, vacant}
use cachemoney.Shardmap.Table.Cyclic.{slot_at-set-cases, slot_at-mod}
use cachemoney.Shardmap.Table.Mass.{Every, at, mass, is_key, weigh, mass-set}
use cachemoney.Shardmap.Table.Sound.{IsSound, IsHoused, one_slot}
use cachemoney.Shardmap.Table.Place.{Replaced}

module _ {K V : Type 0} (keys : Keys K V) (hf : K → ℕ) where
  module _ {a : List (Slot K V)} (v : IsSound keys hf a) (c : Item K V) (x : ℕ)
      (taken : (at keys a x).meta ≢ 0) (found : (at keys a x).key ≡ c.key) where
    abbrev pub renewed : Slot K V
    renewed = record (at keys a x) { val = c.val }

    abbrev pub overwritten : List (Slot K V)
    overwritten = set a (x % length a) renewed

    sized : length overwritten ≡ length a
    sized = length-set a (x % length a) renewed

    -- Each slot differs in its value at most.
    same_slot :
        (y : ℕ)
        → ((at keys overwritten y).meta ≡ (at keys a y).meta)
          × ((at keys overwritten y).key ≡ (at keys a y).key)
          × ((at keys overwritten y).hash ≡ (at keys a y).hash)
    same_slot y = elim (slot_at-set-cases (vacant keys) a x y renewed v.room) [
      | inl (here, new) ↦
          let old = slot_at-mod (vacant keys) a y x here in
          (
            ap (λ s. s.meta) new ∙ sym (ap (λ s. s.meta) old),
            ap (λ s. s.key) new ∙ sym (ap (λ s. s.key) old),
            ap (λ s. s.hash) new ∙ sym (ap (λ s. s.hash) old),
          )
      | inr (_, new) ↦ (ap (λ s. s.meta) new, ap (λ s. s.key) new, ap (λ s. s.hash) new)
    ]

    IsHoused-still :
        (y : ℕ)
        → (at keys overwritten y).meta ≢ 0
        → IsHoused keys hf overwritten y (at keys overwritten y)
    IsHoused-still y t =
        let (m, k, h) = same_slot y in
        let was = v.housed y (λ z. t (m ∙ z)) in
        record {
          low = omega (arith, m, was.low);
          high = omega (arith, m, was.high);
          frag = ap (λ z. z % 256) m ∙ was.frag ∙ sym (ap (λ z. z % 256) h);
          hashed = h ∙ was.hashed ∙ ap hf (sym k);
          home =
              ap (λ n. ((at keys overwritten y).hash + rank (at keys overwritten y).meta) % n) sized
              ∙ ap (λ z. (z + rank (at keys overwritten y).meta) % length a) h
              ∙ ap (λ z. ((at keys a y).hash + rank z) % length a) m
              ∙ was.home
              ∙ ap (λ n. suc y % n) (sym sized);
        }

    sum_overwritten :
        (w : K → V → ℕ)
        → mass keys w overwritten + w c.key (at keys a x).val ≡ mass keys w a + w c.key c.val
    sum_overwritten w =
        let moved = mass-set keys w a x renewed v.room in
        let old : weigh keys w (at keys a x) ≡ w c.key (at keys a x).val =
          weighed (at keys a x) c.key (at keys a x).val taken found refl in
        let new : weigh keys w renewed ≡ w c.key c.val =
          weighed renewed c.key c.val taken found refl in
        omega (arith, moved, old, new)
      where
        weighed :
            (s : Slot K V) (k : K) (u : V)
            → s.meta ≢ 0
            → s.key ≡ k
            → s.val ≡ u
            → weigh keys w s ≡ w k u
        weighed s k u t e f =
            let heavy : weigh keys w s ≡ w s.key s.val = ground arith in
            heavy ∙ ap (λ z. w z s.val) e ∙ ap (λ z. w k z) f

    Every-overwritten :
        (P : K → V → Type 0)
        → Every keys (λ k u. k ≢ c.key → P k u) a
        → P c.key c.val
        → Every keys P overwritten
    Every-overwritten P all mine y t = elim (slot_at-set-cases (vacant keys) a x y renewed v.room) [
      | inl (here, new) ↦
          subst (λ s. P s.key s.val) (sym new) (subst (λ k. P k c.val) (sym found) mine)
      | inr (apart, new) ↦
          let t' : (at keys a y).meta ≢ 0 = λ z. t (ap (λ s. s.meta) new ∙ z) in
          subst (λ s. P s.key s.val) (sym new)
            (all y t' (λ e. apart (one_slot keys hf v x y taken t' (e ∙ sym found))))
    ]

    pub overwritten-Replaced : Replaced keys hf a c overwritten
    overwritten-Replaced = record {
      sound = record {
        room = omega (arith, sized, v.room);
        housed = IsHoused-still;
        chain = λ y.
            let (m, _, _) = same_slot y in
            let (m', _, _) = same_slot (suc y) in
            let was = v.chain y in omega (arith, ap rank m, ap rank m', was);
        unique = λ q.
            let moved = sum_overwritten (is_key keys q) in
            let most = v.unique q in omega (arith, moved, most);
      };
      same_length = sized;
      where_is = x;
      taken = taken;
      is_there = found;
      sum = sum_overwritten;
      every = Every-overwritten;
    }
