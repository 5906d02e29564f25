-- ===== src/Resp/Limits.antt =====
-- internal/resp/limits.go: the ceilings of a Reader and how options resolve to them.
use cachemoney.Base.{ℕ, ◌*◌, List, [], ◌∷◌, arith, if◌then◌else◌}
use cachemoney.Base.Int.{ℤ, pos, ltb_ℤ, ◌≤ℤ◌}

abbrev pub default_max_bulk_len : ℕ
default_max_bulk_len = 512 * 1024 * 1024

abbrev pub default_max_multibulk_len : ℕ
default_max_multibulk_len = 1024 * 1024

abbrev pub default_buffer_size : ℕ
default_buffer_size = 16 * 1024

abbrev pub max_header_line : ℕ
max_header_line = 64

pub record Limits : Type 0 where
  pub max_bulk_len : ℤ
  pub max_multibulk_len : ℤ

pub record Config : Type 0 where
  pub limits : Limits
  pub buffer_size : ℤ

-- An option is the setting that it makes; `apply_option` is the closure's body.
pub data Option : Type 0 where
  with_max_bulk_len with_max_multibulk_len with_buffer_size : ℤ → Option

unfoldable pub apply_option : Config → Option → Config
apply_option c (Option.with_max_bulk_len n) = record c {
  limits = record { max_bulk_len = n; max_multibulk_len = c.limits.max_multibulk_len };
}
apply_option c (Option.with_max_multibulk_len n) = record c {
  limits = record { max_bulk_len = c.limits.max_bulk_len; max_multibulk_len = n };
}
apply_option c (Option.with_buffer_size n) = record c { buffer_size = n }

apply_options : Config → List Option → Config
apply_options c [] = c
apply_options c (o ∷ os) = apply_options (apply_option c o) os

-- `if x <= 0 { x = default }`
unfoldable pub or_default : ℤ → ℕ → ℤ
or_default x d = if ltb_ℤ (pos 0) x then x else pos d

unfoldable pub normalize : Config → Config
unfolding or_default
normalize c = record {
  limits = record {
    max_bulk_len = or_default c.limits.max_bulk_len default_max_bulk_len;
    max_multibulk_len = or_default c.limits.max_multibulk_len default_max_multibulk_len;
  };
  buffer_size = or_default c.buffer_size default_buffer_size;
}

abbrev pub default_config : Config
default_config = record {
  limits = record {
    max_bulk_len = pos default_max_bulk_len;
    max_multibulk_len = pos default_max_multibulk_len;
  };
  buffer_size = pos default_buffer_size;
}

unfoldable pub resolve_config : List Option → Config
unfolding apply_options apply_option normalize
resolve_config opts = normalize (apply_options default_config opts)

-- Whatever options are given, non-positive ones included, every resolved ceiling and the buffer
-- size are positive.
pub resolve_config_positive :
    (opts : List Option)
    → (pos 1 ≤ℤ (resolve_config opts).limits.max_bulk_len)
      × (pos 1 ≤ℤ (resolve_config opts).limits.max_multibulk_len)
      × (pos 1 ≤ℤ (resolve_config opts).buffer_size)
unfolding resolve_config
resolve_config_positive opts = ground arith
