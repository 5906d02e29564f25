-- ===== src/Cache/Entry.antt =====
-- The stored value of internal/cache/cache.go, its expiry and its cost. An instant is a number of
-- nanoseconds; the zero time.Time, which means that an entry never expires, is `none`.
use cachemoney.Base.{ℕ, ◌+◌, Bool, false, not, Option, none, some, List, length, if◌then◌else◌}
use cachemoney.Base.Int.{ℤ, pos, ltb_ℤ, ◌+ℤ◌}

abbrev pub Bytes : Type 0
Bytes = List ℕ

pub record Entry : Type 0 where
  pub value : Bytes
  pub expires_at : Option ℤ

-- `!e.expiresAt.IsZero() && !c.now().Before(e.expiresAt)`
expired_at : Option ℤ → ℤ → Bool
expired_at none now = false
expired_at (some t) now = not (ltb_ℤ now t)

unfoldable pub expired : Entry → ℤ → Bool
unfolding expired_at
expired e now = expired_at e.expires_at now

-- `if ttl > 0 { e.expiresAt = c.now().Add(ttl) }`
unfoldable pub new_entry : Bytes → ℤ → ℤ → Entry
unfolding ◌+ℤ◌
new_entry value ttl now = record {
  value = value;
  expires_at = if ltb_ℤ (pos 0) ttl then some (now +ℤ ttl) else none;
}

abbrev pub entry_overhead : ℕ
entry_overhead = 64

-- The lengths of slices in memory and their sum fit an int64.
unfoldable pub cost_of : Bytes → Bytes → ℕ
cost_of key value = length key + length value + entry_overhead
