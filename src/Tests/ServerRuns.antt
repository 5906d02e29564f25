-- ===== src/Tests/ServerRuns.antt =====
-- internal/server's replies, dispatch, SET options and settings on concrete texts.
use cachemoney.Base.{◌≢◌, ℕ, ◌≤◌, ◌≡◌, refl, ◌⊎◌, List, [], ◌∷◌, some, codes, length, All, bytes_eq}
use cachemoney.Base.Int.{◌≤ℤ◌, pos, negsuc, pos_part, neg_part, ◌-ℤ◌}
use cachemoney.Base.Results.{ok}
use cachemoney.Resp.Decimal.{max_int, parse_digits}
use cachemoney.Resp.Writer.{format_int}
use cachemoney.Server.Replies.{
  sanitize_text, IsPlain, max_err_echo_len, sanitize_text-IsPlain, ascii_upper,
}
use cachemoney.Server.Dispatch.{
  Command, IsAdmitted, route, route_sound, set_key, handled, wrong_arity, command_table,
  lookup_command, bad_arity,
}
use cachemoney.Server.Settings
use cachemoney.Base.{get_elem?, ℕ, none}
use cachemoney.Server.Settings.{defaults, defaults_lem}
use cachemoney.Server.Expiry.{parse_expire_int, parse_set_expiry, option_of, with_number, relative}
use cachemoney.Server.Expiry.Accepted.{IsGranted, parse_expire_int_sound, parse_set_expiry_sound}

-- A command name with a line break and a second reply inside it.
abbrev forged : List ℕ
forged = 71 ∷ 13 ∷ 10 ∷ codes "+OK"

sanitize_text-IsPlain_example :
    All IsPlain (sanitize_text forged) × (length (sanitize_text forged) ≤ max_err_echo_len)
sanitize_text-IsPlain_example = sanitize_text-IsPlain forged

minus_zero : parse_expire_int (codes "-0") ≡ some (pos 0)
unfolding parse_expire_int parse_digits
minus_zero = refl

minus_twelve : parse_expire_int (codes "-12") ≡ some (negsuc 11)
unfolding parse_expire_int parse_digits
minus_twelve = refl

parse_expire_int_sound_example :
    ((codes "-12" ≡ format_int (negsuc 11)) ⊎ ((codes "-12" ≡ codes "-0") × (negsuc 11 ≡ pos 0)))
    × (pos_part (negsuc 11) ≤ max_int)
    × (neg_part (negsuc 11) ≤ max_int)
parse_expire_int_sound_example = parse_expire_int_sound (codes "-12") minus_twelve

ten_seconds : parse_set_expiry (codes "ex" ∷ codes "10" ∷ []) (pos 5) ≡ ok (pos 10000000000)
unfolding parse_set_expiry option_of with_number relative bytes_eq ascii_upper parse_expire_int
    parse_digits ◌-ℤ◌
ten_seconds = refl

parse_set_expiry_sound_example :
    ((codes "ex" ∷ codes "10" ∷ [] ≡ []) × (pos 10000000000 ≡ pos 0))
    ⊎ ((unit : List ℕ) × (arg : List ℕ) × (codes "ex" ∷ codes "10" ∷ [] ≡ unit ∷ arg ∷ [])
        × IsGranted unit arg (pos 5) (pos 10000000000))
parse_set_expiry_sound_example =
    parse_set_expiry_sound (codes "ex" ∷ codes "10" ∷ []) (pos 5) ten_seconds

-- `Set` with a key, a value and no option.
abbrev set_frame : List (List ℕ)
set_frame = codes "Set" ∷ codes "k" ∷ codes "v" ∷ []

set_routed : route set_frame ≡ handled set_key
unfolding route command_table lookup_command ascii_upper bytes_eq bad_arity
set_routed = refl

get_short : route (codes "GET" ∷ []) ≡ wrong_arity (codes "GET")
unfolding route command_table lookup_command ascii_upper bytes_eq bad_arity
get_short = refl

route_sound_example :
    (i : ℕ) × (c : Command) × (raw : List ℕ) × (rest : List (List ℕ)) × (set_frame ≡ raw ∷ rest)
    × (get_elem? command_table i ≡ some c)
    × (c.name ≡ ascii_upper raw)
    × (c.handler ≡ set_key)
    × IsAdmitted c (length set_frame)
route_sound_example = route_sound set_frame set_routed

abbrev bare : Settings.Config
bare = record {
  addr = [];
  idle_timeout = pos 0;
  max_conns = negsuc 0;
  drain_timeout = pos 0;
  version = [];
  now = none;
}

defaults_lem_example :
    (pos 1 ≤ℤ (defaults (λ n. pos n) bare).max_conns)
    × (pos 1 ≤ℤ (defaults (λ n. pos n) bare).drain_timeout)
    × ((defaults (λ n. pos n) bare).addr ≢ [])
    × ((defaults (λ n. pos n) bare).version ≢ [])
    × ((defaults (λ n. pos n) bare).now ≢ none)
    × ((defaults (λ n. pos n) bare).idle_timeout ≡ bare.idle_timeout)
    × (defaults (λ n. pos n) (defaults (λ n. pos n) bare) ≡ defaults (λ n. pos n) bare)
defaults_lem_example = defaults_lem (λ n. pos n) bare
