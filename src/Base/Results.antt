-- ===== src/Base/Results.antt =====
-- Go's pair of a value and an error: a value, or an error of the caller's type.
use cachemoney.Base.{◌≡◌, refl, Option, none, some}

pub data Result {ℓ} (E A : Type ℓ) : Type ℓ where
  err : E → Result E A
  ok : A → Result E A

infixl 5 ◌>>=◌
abbrev pub ◌>>=◌ {ℓ} : {E A B : Type ℓ} → Result E A → (A → Result E B) → Result E B
err failure >>= next = err failure
ok value >>= next = next value

pub >>=-eq-ok {ℓ} :
    {E A B : Type ℓ} (m : Result E A) (next : A → Result E B) {b : B}
    → (m >>= next) ≡ ok b
    → (a : A) × (m ≡ ok a) × (next a ≡ ok b)
>>=-eq-ok (err failure) next h = cc
>>=-eq-ok (ok value) next h = (value, refl, h)

-- A loop on fuel that may run out, and what follows it.
abbrev pub bind {ℓ κ} : {A : Type ℓ} {B : Type κ} → Option A → (A → Option B) → Option B
bind none next = none
bind (some a) next = next a

pub bind-eq-some {ℓ κ} :
    {A : Type ℓ} {B : Type κ} (m : Option A) (next : A → Option B) {b : B}
    → bind m next ≡ some b
    → (a : A) × (m ≡ some a) × (next a ≡ some b)
bind-eq-some none next h = cc
bind-eq-some (some value) next h = (value, refl, h)
