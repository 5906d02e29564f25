-- ===== src/TinyLfu/Buffer.antt =====
-- internal/tinylfu/buffer.go: the striped lossy buffer. A stripe is the list of its fingerprints,
-- oldest first; whether a push finds the stripe's lock taken is decided by the environment.
use Prim.Native.Nat.{bit_and}
use cachemoney.Base.{
  ℕ, zero, suc, ◌-◌, ◌≤◌, ◌≡◌, refl, sym, ap, ◌∙◌, Bool, true, false, List, [], ◌∷◌, ◌++◌, map, leb,
  if◌then◌else◌, length, length-append, take, get_or, set, replicate, All, arith, Bool-cases, inl,
  inr,
}
use cachemoney.Base.Int.{ℤ, pos, pos_part, ltb_ℤ}
use cachemoney.TinyLfu.Words.{next_pow2}
use mathlib.Core.List.{flatten}

pub record AccessBuffer : Type 0 where
  pub stripes : List (List ℕ)
  pub mask : ℕ
  pub depth : ℕ

-- The stripe count is positive where the code calls this; a depth below 1 is raised to 1.
unfoldable pub new_access_buffer : ℕ → ℤ → AccessBuffer
new_access_buffer stripes depth =
    let count = next_pow2 stripes in
    record {
      stripes = replicate count [];
      mask = count - 1;
      depth = if ltb_ℤ depth (pos 1) then 1 else pos_part depth;
    }

abbrev pub stripe_of : AccessBuffer → ℕ → ℕ
stripe_of b fp = bit_and fp b.mask

unfoldable pub push : AccessBuffer → ℕ → Bool → AccessBuffer × Bool
push b fp contended =
    let i = stripe_of b fp in
    let buf = get_or b.stripes i [] in
    if contended then (b, false) else if leb b.depth (length buf) then (b, false) else (
      record b { stripes = set b.stripes i (buf ++ (fp ∷ [])) },
      leb b.depth (length (buf ++ (fp ∷ []))),
    )

-- `for _, fp := range scratch { fn(fp) }`
unfoldable pub each {ℓ} : {S : Type ℓ} → (S → ℕ → S) → List ℕ → S → S
each fn [] s = s
each fn (fp ∷ fps) s = each fn fps (fn s fp)

-- The loop over the stripes: an empty one is skipped, and the contents of another go to `scratch` in
-- place of what that held, and from there through `fn`.
drain_stripes {ℓ} :
    {S : Type ℓ} → (S → ℕ → S) → List (List ℕ) → List ℕ → S → List (List ℕ) × List ℕ × S
unfolding each
drain_stripes fn [] scratch s = ([], scratch, s)
drain_stripes fn ([] ∷ bufs) scratch s =
    let (rest, last, s') = drain_stripes fn bufs scratch s in ([] ∷ rest, last, s')
drain_stripes fn ((fp ∷ fps) ∷ bufs) scratch s =
    let copied = take 0 scratch ++ (fp ∷ fps) in
    let (rest, last, s') = drain_stripes fn bufs copied (each fn copied s) in
    (take 0 (fp ∷ fps) ∷ rest, last, s')

-- The second part is the scratch for the next call.
unfoldable pub drain_into {ℓ} :
    {S : Type ℓ} → (S → ℕ → S) → AccessBuffer → List ℕ → S → AccessBuffer × List ℕ × S
unfolding drain_stripes
drain_into fn b scratch s =
    let (stripes, last, s') = drain_stripes fn b.stripes scratch s in
    (record b { stripes = stripes }, last, s')

-- Every stripe holds at most `depth` fingerprints.
abbrev pub IsBounded : AccessBuffer → Type 0
IsBounded b = All (λ buf. length buf ≤ b.depth) b.stripes

All-set :
    {A : Type 0} (P : A → Type 0) (xs : List A) (i : ℕ) (v : A)
    → All P xs
    → P v
    → All P (set xs i v)
All-set P [] i v h p = tt
All-set P (x ∷ xs) zero v h p = (p, h.1)
All-set P (x ∷ xs) (suc i) v h p = (h.0, All-set P xs i v h.1 p)

-- A push never grows a stripe beyond its depth, whether it is contended or not; a push that is
-- contended, or that finds its stripe full, changes nothing and does not wake the drainer.
pub push-IsBounded :
    (b : AccessBuffer) (fp : ℕ) (contended : Bool)
    → IsBounded b
    → IsBounded (push b fp contended).0
      × (contended ≡ true → push b fp contended ≡ (b, false))
      × (b.depth ≤ length (get_or b.stripes (stripe_of b fp) []) → push b fp contended ≡ (b, false))
unfolding push
push-IsBounded b fp true v = (v, λ _. refl, λ _. refl)
push-IsBounded b fp false v =
    let buf = get_or b.stripes (stripe_of b fp) [] in
    elim (Bool-cases (leb b.depth (length buf))) [
      | inl full ↦ rw full (v, (λ e. refl), (λ e. refl))
      | inr room ↦ rw room (
        All-set _ b.stripes (stripe_of b fp) _ v (rw length-append (ground arith)),
        (λ e. absurd (cc)),
        (λ e. absurd (ground arith)),
      )
    ]

each-append {ℓ} :
    {S : Type ℓ} (fn : S → ℕ → S) (xs ys : List ℕ) (s : S)
    → each fn (xs ++ ys) s ≡ each fn ys (each fn xs s)
unfolding each
each-append fn [] ys s = refl
each-append fn (x ∷ xs) ys s = each-append fn xs ys (fn s x)

drain_stripes_lem {ℓ} :
    {S : Type ℓ} (fn : S → ℕ → S) (bufs : List (List ℕ)) (scratch : List ℕ) (s : S)
    → (last : List ℕ) × (drain_stripes fn bufs scratch s
        ≡ (map (λ _. []) bufs, last, each fn (flatten bufs) s))
unfolding drain_stripes flatten
drain_stripes_lem fn [] scratch s = (scratch, refl)
drain_stripes_lem fn ([] ∷ bufs) scratch s =
    let (last, e) = drain_stripes_lem fn bufs scratch s in
    (last, ap (λ (p : List (List ℕ) × List ℕ × _). ([] ∷ p.0, p.1, p.2)) e)
drain_stripes_lem fn ((fp ∷ fps) ∷ bufs) scratch s =
    let (last, e) = drain_stripes_lem fn bufs (fp ∷ fps) (each fn (fp ∷ fps) s) in
    (
      last,
      ap (λ (p : List (List ℕ) × List ℕ × _). ([] ∷ p.0, p.1, p.2)) e
          ∙ ap (λ x. ([] ∷ map (λ _. []) bufs, last, x))
              (sym (each-append fn (fp ∷ fps) (flatten bufs) s)),
    )

-- Whatever the scratch holds, a drain empties every stripe and hands each fingerprint that was buffered
-- to the function exactly once, stripe by stripe and oldest first within a stripe.
pub drain_into_all {ℓ} :
    {S : Type ℓ} (fn : S → ℕ → S) (b : AccessBuffer) (scratch : List ℕ) (s : S)
    → (last : List ℕ) × (drain_into fn b scratch s
        ≡ (record b { stripes = map (λ _. []) b.stripes }, last, each fn (flatten b.stripes) s))
unfolding drain_into
drain_into_all fn b scratch s =
    let (last, e) = drain_stripes_lem fn b.stripes scratch s in
    (last, ap (λ (p : List (List ℕ) × List ℕ × _). (record b { stripes = p.0 }, p.1, p.2)) e)
