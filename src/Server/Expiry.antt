-- ===== src/Server/Expiry.antt =====
-- The SET options of internal/server/commands.go: parseExpireInt and parseSetExpiry. A duration and
-- an instant are numbers of nanoseconds.
pub mod Accepted
use cachemoney.Base.{
  ℕ, zero, suc, ◌+◌, ◌-◌, ◌*◌, ◌/◌, ◌^◌, ◌≤◌, ◌≡◌, refl, ◌∙◌, Bool, true, false, ◌||◌, ◌&&◌, not,
  Option, none, some, List, [], ◌∷◌, arith, ltb, if◌then◌else◌, ◌==◌, length, ◌%◌, codes, bytes_eq,
  ◌⊎◌, inl, inr, Bool-cases, Option-cases,
}
use cachemoney.Base.Int.{ℤ, pos, negsuc, pos_part, neg_part, sub_ℕ, ltb_ℤ, ◌-ℤ◌, ◌≤ℤ◌}
use cachemoney.Base.Results.{Result, ok, err}
use mathlib.Core.Option
use cachemoney.Resp.Decimal.{
  parse_int, max_int, not_digit, parse_digits, bad_lead, format_uint, parse_int_canonical,
}
use cachemoney.Server.Replies.{ascii_upper}

abbrev pub second : ℕ
second = 1000000000

abbrev pub millisecond : ℕ
millisecond = 1000000

abbrev pub max_expire_seconds : ℕ
max_expire_seconds = max_int / second

abbrev pub max_expire_millis : ℕ
max_expire_millis = max_int / millisecond

-- `if neg { n = -n }`
unfoldable pub negated : ℕ → ℤ
negated zero = pos 0
negated (suc n) = negsuc n

-- The digits after the sign; strconv.ParseInt on them has the bound of an int64 and takes no other
-- byte than digits.
unfoldable pub magnitude : List ℕ → Option ℕ
magnitude [] = none
magnitude (c ∷ cs) =
    if not_digit c
    then none
    else if not (length (c ∷ cs) == 1) && (c == b'0')
    then none
    else parse_digits 0 (c ∷ cs)

unfoldable pub parse_expire_int : List ℕ → Option ℤ
unfolding magnitude negated
parse_expire_int [] = none
parse_expire_int (c ∷ cs) =
    if c == b'-' then Option.map negated (magnitude cs) else Option.map pos (magnitude (c ∷ cs))

-- An int64 from an integer, as Go's multiplication wraps.
unfoldable pub int64 : ℤ → ℤ
int64 x =
    let u = (pos_part x + (2 ^ 64 - neg_part x % 2 ^ 64)) % 2 ^ 64 in
    if ltb u (2 ^ 63) then pos u else negsuc (2 ^ 64 - 1 - u)

unfoldable pub scale : ℤ → ℕ → ℤ
scale n unit = sub_ℕ (pos_part n * unit) (neg_part n * unit)

-- time.Time.Sub stops at the greatest and the least duration.
unfoldable pub sub_time : ℤ → ℤ → ℤ
sub_time t now =
    let d = t -ℤ now in
    if ltb_ℤ (pos max_int) d
    then pos max_int
    else if ltb_ℤ d (negsuc max_int)
    then negsuc max_int
    else d

pub data Expiry : Type 0 where
  ex px exat pxat : Expiry

-- `unit != "EX" && unit != "PX" && unit != "EXAT" && unit != "PXAT"`
unfoldable pub option_of : List ℕ → Option Expiry
option_of unit =
    if bytes_eq unit (codes "EX")
    then some ex
    else if bytes_eq unit (codes "PX")
    then some px
    else if bytes_eq unit (codes "EXAT")
    then some exat
    else if bytes_eq unit (codes "PXAT")
    then some pxat
    else none

-- `n > max || n < -max`
unfoldable pub too_far : ℤ → ℕ → Bool
too_far n limit = ltb_ℤ (pos limit) n || ltb_ℤ n (pos 0 -ℤ pos limit)

abbrev pub err_syntax : List ℕ
err_syntax = codes "ERR syntax error"

abbrev pub err_not_integer : List ℕ
err_not_integer = codes "ERR value is not an integer or out of range"

abbrev pub err_invalid_expire : List ℕ
err_invalid_expire = codes "ERR invalid expire time in 'set' command"

-- The switch on the option; `none` where the magnitude guard rejects.
unfoldable pub relative : Expiry → ℤ → ℤ → Option ℤ
unfolding int64 scale sub_time too_far
relative ex n now = if too_far n max_expire_seconds then none else some (int64 (scale n second))
relative px n now = if too_far n max_expire_millis then none else some (int64 (scale n millisecond))
relative exat n now =
    if too_far n max_expire_seconds then none else some (sub_time (scale n second) now)
relative pxat n now =
    if too_far n max_expire_millis then none else some (sub_time (scale n millisecond) now)

-- `if ttl <= 0`, and the guard's rejection.
unfoldable pub accept_ttl : Option ℤ → Result (List ℕ) ℤ
accept_ttl none = err err_invalid_expire
accept_ttl (some ttl) = if ltb_ℤ (pos 0) ttl then ok ttl else err err_invalid_expire

-- The option's number, once its name is known.
unfoldable pub with_number : Expiry → Option ℤ → ℤ → Result (List ℕ) ℤ
unfolding accept_ttl
with_number o none now = err err_not_integer
with_number o (some n) now = accept_ttl (relative o n now)

unfoldable pub with_option : Option Expiry → List ℕ → ℤ → Result (List ℕ) ℤ
unfolding with_number
with_option none arg now = err err_syntax
with_option (some o) arg now = with_number o (parse_expire_int arg) now

-- `now` is the reading of the server's clock.
unfoldable pub parse_set_expiry : List (List ℕ) → ℤ → Result (List ℕ) ℤ
unfolding with_option
parse_set_expiry [] now = ok (pos 0)
parse_set_expiry (unit ∷ arg ∷ []) now = with_option (option_of (ascii_upper unit)) arg now
parse_set_expiry _ now = err err_syntax
