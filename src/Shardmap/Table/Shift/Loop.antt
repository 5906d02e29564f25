-- ===== src/Shardmap/Table/Shift/Loop.antt =====
-- The loop of the backward shift, to its end.
use cachemoney.Base.{
  ℕ, zero, suc, ◌-◌, ◌%◌, ◌^◌, ◌<◌, ◌≡◌, ◌≢◌, sym, ap, ◌∙◌, true, false, some, List, arith, ltb,
  ◌==◌, ==_iff, length, set, Bool-cases, inl, inr,
}
use cachemoney.Shardmap.Meta.{meta_frag, dib_of, pack_meta}
use cachemoney.Shardmap.Table.{Keys, Slot, vacant}
use cachemoney.Shardmap.Table.Mass.{at}
use cachemoney.Shardmap.Meta.{dib_of-eq}
use cachemoney.Shardmap.Table.{shift_loop}
use cachemoney.Shardmap.Table.Ends.{next_at, FreeAhead, FreeAhead-step, FreeAhead-set}
use cachemoney.Base.{ltb→lt}
use cachemoney.Shardmap.Table.Shift.{
  Yields, Vacated, end-Vacated, moved_back, shifted, shifted-Yields, next_still, after_shift, sized,
}

module _ {K V : Type 0} (keys : Keys K V) (hf : K → ℕ) where
  unequal : (m n : ℕ) → (m == n) ≡ false → m ≢ n
  unequal m n h e = ground arith

  shift_step :
      (p f : ℕ) (a : List (Slot K V)) (x : ℕ)
      → length a ≡ 2 ^ p
      → ((at keys a (suc x)).meta == 0) ≡ false
      → ltb 0 (dib_of (at keys a (suc x)).meta) ≡ true
      → let s = at keys a (suc x) in
        let back = record s { meta = pack_meta (dib_of s.meta - 1) (meta_frag s.meta) } in
        shift_loop keys (suc f) (2 ^ p - 1) a (x % length a)
        ≡ shift_loop keys f (2 ^ p - 1) (set a (x % length a) back) (suc x % length a)
  unfolding shift_loop
  shift_step p f a x size taken off = let next = next_at keys p a x size in rw (next, taken, off)

  -- The loop gives slot `x` up, in a table with a free slot.
  pub shift_loop-Vacated :
      (p f : ℕ) (a : List (Slot K V)) (x g : ℕ)
      → Yields keys hf a x
      → length a ≡ 2 ^ p
      → (at keys a x).meta ≢ 0
      → FreeAhead keys a x g
      → g < f
      → (b : List (Slot K V)) × (shift_loop keys f (2 ^ p - 1) a (x % length a) ≡ some b)
        × Vacated keys hf a x b
  unfolding shift_loop
  shift_loop-Vacated p zero a x g v size t free h = absurd (omega arith)
  shift_loop-Vacated p (suc f) a x g v size t free h =
      let next = next_at keys p a x size in
      let (g', less, ahead) = FreeAhead-step keys a x g free t in
      elim (Bool-cases ((at keys a (suc x)).meta == 0)) [
        | inl gap ↦
            let z = (==_iff (at keys a (suc x)).meta 0).0 gap in
            (
              set a (x % length a) (vacant keys),
              rw (next, gap),
              end-Vacated keys hf x v (omega (arith, z)),
            )
        | inr taken ↦
            let there = unequal (at keys a (suc x)).meta 0 taken in
            let s = v.housed (suc x) there in
            let r = dib_of-eq (at keys a (suc x)).meta s.low s.high in
            elim (Bool-cases (ltb 0 (dib_of (at keys a (suc x)).meta))) [
              | inr home ↦ (
                set a (x % length a) (vacant keys),
                rw (next, taken, home),
                end-Vacated keys hf x v (ground (arith, r)),
              )
              | inl off ↦
                  let away = ltb→lt 0 (dib_of (at keys a (suc x)).meta) off in
                  let same = sized keys hf x v (moved_back keys hf x v there away) in
                  let still = next_still keys hf x v there away in
                  let (b, e, done) =
                    shift_loop-Vacated p f (shifted keys hf x v there away) (suc x) g'
                      (shifted-Yields keys hf x v there away) (same ∙ size)
                      (λ z. there (ap (λ s. s.meta) (sym still) ∙ z))
                      (FreeAhead-set keys a x g' (moved_back keys hf x v there away) ahead t)
                      (omega arith) in
                  (
                    b,
                    shift_step p f a x size taken off
                        ∙ ap
                            (λ n.
                              shift_loop keys f (2 ^ p - 1) (shifted keys hf x v there away)
                                (suc x % n))
                            (sym same)
                        ∙ e,
                    after_shift keys hf x v there away b done,
                  )
            ]
      ]
