-- ===== src/Server/Settings.antt =====
-- internal/server/config.go: the connection settings and how unset ones are filled in. A clock is a
-- function from the instant of a call to its reading; time.Now is an argument.
use cachemoney.Base.{
  ℕ, ◌*◌, ◌≡◌, ◌≢◌, refl, List, Option, none, some, [], ◌∷◌, if◌then◌else◌, codes, arith,
}
use cachemoney.Base.Int.{ℤ, pos, ltb_ℤ, ◌≤ℤ◌}
use cachemoney.Server.Expiry.{second}

abbrev pub default_addr : List ℕ
default_addr = codes ":6379"

abbrev pub default_max_conns : ℕ
default_max_conns = 10000

abbrev pub default_drain_timeout : ℕ
default_drain_timeout = 5 * second

abbrev pub default_version : List ℕ
default_version = codes "0.1.0"

pub record Config : Type 0 where
  pub addr : List ℕ
  pub idle_timeout : ℤ
  pub max_conns : ℤ
  pub drain_timeout : ℤ
  pub version : List ℕ
  pub now : Option (ℕ → ℤ)

-- `if c.Addr == "" { c.Addr = defaultAddr }`, and the test on a number.
unfoldable pub or_text : List ℕ → List ℕ → List ℕ
or_text [] default = default
or_text (c ∷ cs) default = c ∷ cs

unfoldable pub or_positive : ℤ → ℕ → ℤ
or_positive n default = if ltb_ℤ (pos 0) n then n else pos default

unfoldable pub or_clock : Option (ℕ → ℤ) → (ℕ → ℤ) → Option (ℕ → ℤ)
or_clock none time_now = some time_now
or_clock (some clock) time_now = some clock

unfoldable pub defaults : (ℕ → ℤ) → Config → Config
unfolding or_text or_positive or_clock
defaults time_now c = record {
  addr = or_text c.addr default_addr;
  idle_timeout = c.idle_timeout;
  max_conns = or_positive c.max_conns default_max_conns;
  drain_timeout = or_positive c.drain_timeout default_drain_timeout;
  version = or_text c.version default_version;
  now = or_clock c.now time_now;
}

or_positive-le : (n : ℤ) (d : ℕ) → d ≢ 0 → pos 1 ≤ℤ or_positive n d
unfolding or_positive
or_positive-le n d h = ground arith

or_text-set : (t d : List ℕ) → d ≢ [] → or_text t d ≢ []
unfolding or_text
or_text-set [] d h = h
or_text-set (c ∷ cs) d h = λ e. cc

or_text_same : (d : List ℕ) → or_text d d ≡ d
unfolding or_text
or_text_same [] = refl
or_text_same (c ∷ cs) = refl

or_text_again : (t d : List ℕ) → or_text (or_text t d) d ≡ or_text t d
unfolding or_text
or_text_again [] d = or_text_same d
or_text_again (c ∷ cs) d = refl

or_positive_again : (n : ℤ) (d : ℕ) → or_positive (or_positive n d) d ≡ or_positive n d
unfolding or_positive
or_positive_again n d = ground arith

or_clock_again : (o : Option (ℕ → ℤ)) (t : ℕ → ℤ) → or_clock (or_clock o t) t ≡ or_clock o t
unfolding or_clock
or_clock_again none t = refl
or_clock_again (some clock) t = refl

or_clock-set : (o : Option (ℕ → ℤ)) (t : ℕ → ℤ) → or_clock o t ≢ none
unfolding or_clock
or_clock-set none t = λ e. cc
or_clock-set (some clock) t = λ e. cc

-- Filled-in settings admit at least one connection and give a shutdown some time, they have an
-- address, a version and a clock, the idle timeout is as given, and filling in again changes nothing.
pub defaults_lem :
    (time_now : ℕ → ℤ) (c : Config)
    → (pos 1 ≤ℤ (defaults time_now c).max_conns)
      × (pos 1 ≤ℤ (defaults time_now c).drain_timeout)
      × ((defaults time_now c).addr ≢ [])
      × ((defaults time_now c).version ≢ [])
      × ((defaults time_now c).now ≢ none)
      × ((defaults time_now c).idle_timeout ≡ c.idle_timeout)
      × (defaults time_now (defaults time_now c) ≡ defaults time_now c)
unfolding defaults
defaults_lem time_now c = (
  or_positive-le c.max_conns default_max_conns (λ e. cc),
  or_positive-le c.drain_timeout default_drain_timeout (λ e. cc),
  or_text-set c.addr default_addr (λ e. cc),
  or_text-set c.version default_version (λ e. cc),
  or_clock-set c.now time_now,
  refl,
  rw
      (
        or_text_again c.addr default_addr,
        or_text_again c.version default_version,
        or_clock_again c.now time_now,
        or_positive_again c.max_conns default_max_conns,
        or_positive_again c.drain_timeout default_drain_timeout,
      )
      refl,
)
