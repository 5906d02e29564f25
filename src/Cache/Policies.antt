-- ===== src/Cache/Policies.antt =====
-- internal/cache/policy.go: the eviction policies and their Redis names.
use cachemoney.Base.{
  ℕ, ◌≡◌, refl, ◌↔◌, Bool, true, false, Option, none, some, List, codes, bytes_eq, bytes_eq_iff,
  arith, if◌then◌else◌,
}

pub data EvictionPolicy : Type 0 where
  all_keys_lfu all_keys_random no_eviction : EvictionPolicy

-- `String()`; the type has no value outside the three, so the text "unknown" has no case.
unfoldable pub policy_name : EvictionPolicy → List ℕ
policy_name EvictionPolicy.all_keys_lfu = codes "allkeys-lfu"
policy_name EvictionPolicy.all_keys_random = codes "allkeys-random"
policy_name EvictionPolicy.no_eviction = codes "noeviction"

unfoldable pub parse_policy : List ℕ → Option EvictionPolicy
parse_policy name =
    if bytes_eq name (codes "allkeys-lfu")
    then some EvictionPolicy.all_keys_lfu
    else if bytes_eq name (codes "allkeys-random")
    then some EvictionPolicy.all_keys_random
    else if bytes_eq name (codes "noeviction")
    then some EvictionPolicy.no_eviction
    else none

unfoldable pub is_policy : EvictionPolicy → EvictionPolicy → Bool
is_policy EvictionPolicy.all_keys_lfu EvictionPolicy.all_keys_lfu = true
is_policy EvictionPolicy.all_keys_random EvictionPolicy.all_keys_random = true
is_policy EvictionPolicy.no_eviction EvictionPolicy.no_eviction = true
is_policy _ _ = false

parse-name : (p : EvictionPolicy) → parse_policy (policy_name p) ≡ some p
unfolding parse_policy policy_name bytes_eq
parse-name EvictionPolicy.all_keys_lfu = refl
parse-name EvictionPolicy.all_keys_random = refl
parse-name EvictionPolicy.no_eviction = refl

parse_sound :
    (name : List ℕ) (p : EvictionPolicy) → parse_policy name ≡ some p → name ≡ policy_name p
unfolding parse_policy policy_name
parse_sound name p h =
    let lfu = (bytes_eq_iff name (codes "allkeys-lfu")).0 in
    let random = (bytes_eq_iff name (codes "allkeys-random")).0 in
    let never = (bytes_eq_iff name (codes "noeviction")).0 in ground arith

-- `ParsePolicy` accepts exactly the names that `String` gives the three policies, and returns the
-- policy that has the name.
pub parse_policy_name :
    (name : List ℕ) (p : EvictionPolicy) → (parse_policy name ≡ some p) ↔ (name ≡ policy_name p)
parse_policy_name name p = (parse_sound name p, λ e. rw e (parse-name p))
