-- ===== src/Server/Expiry/Accepted.antt =====
-- Which SET options are accepted, and for how long.
use cachemoney.Base.{
  ℕ, zero, suc, ◌*◌, ◌≤◌, ◌≡◌, ◌≢◌, refl, sym, ap, ◌∙◌, Bool, true, false, not, Option, none, some,
  List, [], ◌∷◌, arith, if◌then◌else◌, ◌==◌, codes, ◌⊎◌, inl, inr, Bool-cases, Option-cases, ltb→lt,
  ==_iff,
}
use mathlib.Core.Option
use mathlib.Core.Option.{some-injective}
use cachemoney.Base.{bytes_eq, bytes_eq_iff}
use cachemoney.Base.Int.{ℤ, pos, negsuc, pos_part, neg_part, ltb_ℤ, ◌-ℤ◌, ◌≤ℤ◌}
use cachemoney.Base.Results.{Result, ok, err}
use cachemoney.Resp.Decimal.{parse_int, max_int, format_uint, parse_int_canonical, bad_lead}
use cachemoney.Resp.Writer.{format_int}
use cachemoney.Server.Expiry.{
  Expiry, magnitude, negated, parse_expire_int, int64, scale, sub_time, too_far, relative,
  accept_ttl, with_number, with_option, option_of, parse_set_expiry, second, millisecond,
  max_expire_seconds, max_expire_millis, err_syntax, err_not_integer, ex, px, exat, pxat,
}
use cachemoney.Server.Replies.{ascii_upper}

magnitude-parse_int : (b : List ℕ) → magnitude b ≡ parse_int b
unfolding magnitude parse_int bad_lead
magnitude-parse_int [] = refl
magnitude-parse_int (c ∷ cs) = ground arith

some_of :
    (f : ℕ → ℤ) (o : Option ℕ) {n : ℤ}
    → Option.map f o ≡ some n
    → (m : ℕ) × (o ≡ some m) × (n ≡ f m)
some_of f none h = cc
some_of f (some m) h = (m, refl, cc)

negative :
    (c : ℕ) (cs : List ℕ) (m : ℕ) {n : ℤ}
    → c ≡ b'-'
    → cs ≡ format_uint m
    → m ≤ max_int
    → n ≡ negated m
    → ((c ∷ cs ≡ format_int n) ⊎ ((c ∷ cs ≡ codes "-0") × (n ≡ pos 0)))
      × (pos_part n ≤ max_int)
      × (neg_part n ≤ max_int)
unfolding negated format_int format_uint
negative c cs zero minus text bound value =
    rw value (inr (rw (minus, text), refl), omega arith, omega arith)
negative c cs (suc m) minus text bound value = rw value (inl (rw (minus, text)), omega arith, bound)

-- `parseExpireInt` reads an integer only from its canonical decimal text, with one exception, the
-- text "-0", which it reads as 0; and the integer's magnitude is at most the greatest int64.
pub parse_expire_int_sound :
    (b : List ℕ) {n : ℤ}
    → parse_expire_int b ≡ some n
    → ((b ≡ format_int n) ⊎ ((b ≡ codes "-0") × (n ≡ pos 0)))
      × (pos_part n ≤ max_int)
      × (neg_part n ≤ max_int)
unfolding parse_expire_int format_int negated
parse_expire_int_sound [] h = cc
parse_expire_int_sound (c ∷ cs) {n} h = elim (Bool-cases (c == b'-')) [
  | inl minus ↦
      let (m, read, value) = some_of negated (magnitude cs) (rw minus at h) in
      let (text, bound) = (parse_int_canonical cs m).0 (sym (magnitude-parse_int cs) ∙ read) in
      negative c cs m ((==_iff c b'-').0 minus) text bound value
  | inr plain ↦
      let (m, read, value) = some_of pos (magnitude (c ∷ cs)) (rw plain at h) in
      let (text, bound) =
        (parse_int_canonical (c ∷ cs) m).0 (sym (magnitude-parse_int (c ∷ cs)) ∙ read) in
      rw value (inl text, bound, omega arith)
]

-- What an option grants: EX and PX a duration without wrap-around, EXAT and PXAT the time that is
-- left until the instant.
pub Granted : Expiry → ℤ → ℤ → ℤ → Type 0
Granted ex n now ttl = ttl ≡ scale n second
Granted px n now ttl = ttl ≡ scale n millisecond
Granted exat n now ttl = ttl ≡ sub_time (scale n second) now
Granted pxat n now ttl = ttl ≡ sub_time (scale n millisecond) now

int64_small : (x : ℤ) → pos_part x ≤ max_int → neg_part x ≤ max_int → int64 x ≡ x
unfolding int64
int64_small (pos p) h k = ground arith
int64_small (negsuc p) h k = ground arith

second_fits :
    (n : ℤ)
    → too_far n max_expire_seconds ≡ false
    → (int64 (scale n second) ≡ scale n second) × (pos_part (scale n second) ≤ max_int)
unfolding too_far scale ◌-ℤ◌
second_fits n near =
    let above : pos_part n * second ≤ max_int = ground arith in
    let below : neg_part n * second ≤ max_int = ground arith in
    (int64_small (scale n second) (ground arith) (ground arith), ground arith)

milli_fits :
    (n : ℤ)
    → too_far n max_expire_millis ≡ false
    → (int64 (scale n millisecond) ≡ scale n millisecond)
      × (pos_part (scale n millisecond) ≤ max_int)
unfolding too_far scale ◌-ℤ◌
milli_fits n near =
    let above : pos_part n * millisecond ≤ max_int = ground arith in
    let below : neg_part n * millisecond ≤ max_int = ground arith in
    (int64_small (scale n millisecond) (ground arith) (ground arith), ground arith)

sub_time-le : (t now : ℤ) → pos_part (sub_time t now) ≤ max_int
unfolding sub_time
sub_time-le t now = ground arith

guarded :
    (b : Bool) (x : ℤ) {ttl : ℤ} → (if b then none else some x) ≡ some ttl → (b ≡ false) × (ttl ≡ x)
guarded true x h = cc
guarded false x h = (refl, cc)

relative_sound :
    (o : Expiry) (n now : ℤ) {ttl : ℤ}
    → relative o n now ≡ some ttl
    → Granted o n now ttl × (pos_part ttl ≤ max_int)
unfolding relative Granted
relative_sound ex n now h =
    let (near, e) = guarded (too_far n max_expire_seconds) _ h in
    let (exact, fits) = second_fits n near in
    (e ∙ exact, omega (arith, ap pos_part (e ∙ exact), fits))
relative_sound px n now h =
    let (near, e) = guarded (too_far n max_expire_millis) _ h in
    let (exact, fits) = milli_fits n near in
    (e ∙ exact, omega (arith, ap pos_part (e ∙ exact), fits))
relative_sound exat n now h =
    let (near, e) = guarded (too_far n max_expire_seconds) _ h in
    (e, omega (arith, ap pos_part e, sub_time-le (scale n second) now))
relative_sound pxat n now h =
    let (near, e) = guarded (too_far n max_expire_millis) _ h in
    (e, omega (arith, ap pos_part e, sub_time-le (scale n millisecond) now))

accepted : (t : Option ℤ) {ttl : ℤ} → accept_ttl t ≡ ok ttl → (t ≡ some ttl) × (pos 1 ≤ℤ ttl)
unfolding accept_ttl
accepted none h = cc
accepted (some t) {ttl} h = elim (Bool-cases (ltb_ℤ (pos 0) t)) [
  | inl positive ↦
      let same : t ≡ ttl = cc in
      (ap some same, omega (arith, ap pos_part same, ap neg_part same, ltb→lt _ _ positive))
  | inr not ↦ cc
]

-- The names of the options, as SET documents them.
abbrev pub option_name : Expiry → List ℕ
option_name ex = codes "EX"
option_name px = codes "PX"
option_name exat = codes "EXAT"
option_name pxat = codes "PXAT"

option_of_name : (unit : List ℕ) (o : Expiry) → option_of unit ≡ some o → unit ≡ option_name o
unfolding option_of
option_of_name unit o h = elim (Bool-cases (bytes_eq unit (codes "EX"))) [
  | inl it_is ↦
      let e : ex ≡ o = some-injective _ _ (sym (rw it_is refl) ∙ h) in
      (bytes_eq_iff unit (codes "EX")).0 it_is ∙ ap option_name e
  | inr no_ex ↦ elim (Bool-cases (bytes_eq unit (codes "PX"))) [
    | inl it_is ↦
        let e : px ≡ o = some-injective _ _ (sym (rw (no_ex, it_is) refl) ∙ h) in
        (bytes_eq_iff unit (codes "PX")).0 it_is ∙ ap option_name e
    | inr no_px ↦ elim (Bool-cases (bytes_eq unit (codes "EXAT"))) [
      | inl it_is ↦
          let e : exat ≡ o = some-injective _ _ (sym (rw (no_ex, no_px, it_is) refl) ∙ h) in
          (bytes_eq_iff unit (codes "EXAT")).0 it_is ∙ ap option_name e
      | inr no_exat ↦ elim (Bool-cases (bytes_eq unit (codes "PXAT"))) [
        | inl it_is ↦
            let e : pxat ≡ o =
              some-injective _ _ (sym (rw (no_ex, no_px, no_exat, it_is) refl) ∙ h) in
            (bytes_eq_iff unit (codes "PXAT")).0 it_is ∙ ap option_name e
        | inr no_pxat ↦ absurd (missing (sym (rw (no_ex, no_px, no_exat, no_pxat) refl) ∙ h))
      ]
    ]
  ]
]
  where
    missing : {o : Expiry} → ◌≢◌ {A = Option Expiry} none (some o)
    missing e = cc

-- An accepted option: its name, its number, and the positive int64 of nanoseconds that it grants.
pub record IsGranted (unit arg : List ℕ) (now ttl : ℤ) : Type 0 where
  pub option : Expiry
  pub number : ℤ
  pub named : ascii_upper unit ≡ option_name option
  pub read : parse_expire_int arg ≡ some number
  pub granted : Granted option number now ttl
  pub positive : pos 1 ≤ℤ ttl
  pub fits : pos_part ttl ≤ max_int

with_option_sound :
    (unit arg : List ℕ) (now : ℤ) {ttl : ℤ}
    → with_option (option_of (ascii_upper unit)) arg now ≡ ok ttl
    → IsGranted unit arg now ttl
unfolding with_option with_number
with_option_sound unit arg now {ttl} h = elim (Option-cases (option_of (ascii_upper unit))) [
  | inl unknown ↦
      absurd (no_answer {e = err_syntax} (sym h ∙ ap (λ o. with_option o arg now) unknown))
  | inr (o, named) ↦ elim (Option-cases (parse_expire_int arg)) [
    | inl bad ↦ absurd (no_answer {e = err_not_integer} (sym h ∙ rw (named, bad) refl))
    | inr (n, read) ↦
        let answered : accept_ttl (relative o n now) ≡ ok ttl = sym (rw (named, read) refl) ∙ h in
        let (computed, positive) = accepted (relative o n now) answered in
        let (granted, fits) = relative_sound o n now computed in
        record {
          option = o;
          number = n;
          named = option_of_name (ascii_upper unit) o named;
          read = read;
          granted = granted;
          positive = positive;
          fits = fits;
        }
  ]
]
  where
    no_answer : {ttl : ℤ} {e : List ℕ} → ◌≢◌ {A = Result (List ℕ) ℤ} (ok ttl) (err e)
    no_answer h = cc

-- If the options of a SET are accepted, there are none and the entry persists, or they are one of EX,
-- PX, EXAT and PXAT in any case with one integer; the ttl is then positive, fits an int64, and is the
-- duration asked for or the time until the instant, with no wrap-around.
pub parse_set_expiry_sound :
    (opts : List (List ℕ)) (now : ℤ) {ttl : ℤ}
    → parse_set_expiry opts now ≡ ok ttl
    → ((opts ≡ []) × (ttl ≡ pos 0))
      ⊎ ((unit : List ℕ) × (arg : List ℕ) × (opts ≡ unit ∷ arg ∷ []) × IsGranted unit arg now ttl)
unfolding parse_set_expiry
parse_set_expiry_sound [] now h = inl (refl, cc)
parse_set_expiry_sound (unit ∷ []) now h = cc
parse_set_expiry_sound (unit ∷ arg ∷ []) now h =
    inr (unit, arg, refl, with_option_sound unit arg now h)
parse_set_expiry_sound (unit ∷ arg ∷ x ∷ rest) now h = cc
