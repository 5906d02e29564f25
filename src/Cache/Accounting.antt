-- ===== src/Cache/Accounting.antt =====
-- The byte accounting of internal/cache under concurrent writers. A `Set` takes effect on the map by
-- one Swap under the shard's lock and adds the delta to `usage` by a later atomic add; a `Del` and an
-- eviction do so with Delete. Between the two another goroutine may run: the deltas that are still to
-- be added are a list, and any of them may be added next.
use cachemoney.Base.{ℕ, ◌≡◌, refl, ap, ◌∙◌, Option, none, some, List, [], ◌∷◌, ◌++◌}
use cachemoney.Base.Int.{ℤ, pos, pos_part, neg_part, ◌+ℤ◌, ◌-ℤ◌, int_laws, eq_of_parts}
use cachemoney.Cache.Entry.{Bytes, Entry, cost_of}
use cachemoney.Cache.Engine.{old_cost}
use cachemoney.Cache.Engine.Victims.{entry_cost}
use cachemoney.Cache.Store.{Store, total, weight_of}

unfoldable pub sum : List ℤ → ℤ
sum [] = pos 0
sum (d ∷ ds) = d +ℤ sum ds

sum-append : (ds es : List ℤ) → sum (ds ++ es) ≡ sum ds +ℤ sum es
unfolding sum
sum-append [] es = eq_of_parts _ _ (omega int_laws)
sum-append (d ∷ ds) es = ap (λ x. d +ℤ x) (sum-append ds es) ∙ eq_of_parts _ _ (omega int_laws)

module _ (S : Store) (fingerprint : Bytes → ℕ) where
  open S use {State, get, swap, delete, entries}

  -- The shared map, the shared counter, and the deltas not added yet.
  pub record Shared : Type 0 where
    pub m : State
    pub usage : ℤ
    pub pending : List ℤ

  -- One atomic step of some goroutine.
  pub data Step : Shared → Shared → Type 0 where
    swapped :
        (s : Shared) (k : Bytes) (e : Entry)
        → S.HasRoom s.m k
        → Step s (record s {
          m = (swap s.m k e).0;
          pending =
              (pos (cost_of k e.value) -ℤ pos (old_cost S fingerprint k (swap s.m k e).1))
              ∷ s.pending;
        })
    deleted :
        (s : Shared) (k : Bytes)
        → Step s (record s {
          m = (delete s.m k).0;
          pending = (pos 0 -ℤ pos (old_cost S fingerprint k (delete s.m k).1)) ∷ s.pending;
        })
    added :
        (s : Shared) (before after : List ℤ) (d : ℤ)
        → s.pending ≡ before ++ (d ∷ after)
        → Step s (record s { usage = s.usage +ℤ d; pending = before ++ after })

  pub data Steps (s : Shared) : Shared → Type 0 where
    here : Steps s s
    next : {t u : Shared} → Steps s t → Step t u → Steps s u

  -- The counter and what is still to be added make up the cost of what is stored.
  pub record IsBalanced (s : Shared) : Type 0 where
    pub valid : S.IsValid s.m
    pub balance : s.usage +ℤ sum s.pending ≡ pos (total entry_cost (entries s.m))

  old_cost-weight :
      (k : Bytes) (o : Option Entry) → old_cost S fingerprint k o ≡ weight_of entry_cost k o
  old_cost-weight k none = refl
  old_cost-weight k (some e) = refl

  Step-IsBalanced : {s t : Shared} → Step s t → IsBalanced s → IsBalanced t
  unfolding sum
  Step-IsBalanced (swapped s k e room) b = record {
    valid = S.swap-IsValid s.m k e b.valid room;
    balance =
        let sums = S.total-swap entry_cost s.m k e b.valid room in
        let old =
          ap (old_cost S fingerprint k) (S.swap_old s.m k e b.valid room)
          ∙ old_cost-weight k (get s.m k) in
        rw old (eq_of_parts _ _ (omega (int_laws, ap pos_part b.balance, ap neg_part b.balance)));
  }
  Step-IsBalanced (deleted s k) b = record {
    valid = S.delete-IsValid s.m k b.valid;
    balance =
        let sums = S.total-delete entry_cost s.m k b.valid in
        let old =
          ap (old_cost S fingerprint k) (S.delete_old s.m k b.valid)
          ∙ old_cost-weight k (get s.m k) in
        rw old (eq_of_parts _ _ (omega (int_laws, ap pos_part b.balance, ap neg_part b.balance)));
  }
  Step-IsBalanced (added s before after d h) b = record {
    valid = b.valid;
    balance =
        let whole = ap sum h ∙ sum-append before (d ∷ after) in
        let rest = sum-append before after in
        eq_of_parts _ _ (
          omega (
            int_laws,
            ap pos_part b.balance,
            ap neg_part b.balance,
            ap pos_part whole,
            ap neg_part whole,
            ap pos_part rest,
            ap neg_part rest,
          ));
  }

  Steps-IsBalanced : {s t : Shared} → Steps s t → IsBalanced s → IsBalanced t
  Steps-IsBalanced here b = b
  Steps-IsBalanced (next r st) b = Step-IsBalanced st (Steps-IsBalanced r b)

  -- In whatever order the goroutines' map operations and counter updates interleave, the counter and
  -- the updates still to come add up to the cost of what is stored; once none is pending, the counter
  -- is that cost exactly.
  pub usage_exact :
      {s t : Shared}
      → IsBalanced s
      → Steps s t
      → IsBalanced t × (t.pending ≡ [] → t.usage ≡ pos (total entry_cost (entries t.m)))
  unfolding sum
  usage_exact {s} {t} b steps =
      let b' = Steps-IsBalanced steps b in
      (
        b',
        λ h. eq_of_parts _ _ (
            omega (
              int_laws,
              ap pos_part b'.balance,
              ap neg_part b'.balance,
              ap pos_part (ap sum h),
              ap neg_part (ap sum h),
            )),
      )
