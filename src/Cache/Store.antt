-- ===== src/Cache/Store.antt =====
-- What the engine asks of its backing map, internal/shardmap: the operations that it calls and what
-- they promise a caller that is alone. `entries` is what Range visits. A draw stream is what the
-- random source of Sample returns, call by call.
use cachemoney.Base.{ℕ, ◌+◌, ◌≡◌, Option, none, some, List, [], ◌∷◌, All, if◌then◌else◌, bytes_eq}
use cachemoney.Cache.Entry.{Bytes, Entry}

-- The sum of a weight over entries, and the weight of what was stored under a key.
abbrev pub total : (Bytes → Entry → ℕ) → List (Bytes × Entry) → ℕ
total w [] = 0
total w ((k, e) ∷ rest) = w k e + total w rest

abbrev pub weight_of : (Bytes → Entry → ℕ) → Bytes → Option Entry → ℕ
weight_of w k none = 0
weight_of w k (some e) = w k e

pub record Store : Type 1 where
  pub State : Type 0
  pub get : State → Bytes → Option Entry
  pub swap : State → Bytes → Entry → State × Option Entry
  pub delete : State → Bytes → State × Option Entry
  pub sample : State → ℕ → (ℕ → ℕ) → List (Bytes × Entry)
  pub entries : State → List (Bytes × Entry)
  pub IsValid : State → Type 0
  -- Where `Swap` of the key returns: elsewhere `swap` says nothing.
  pub HasRoom : State → Bytes → Type 0
  pub swap-IsValid :
      (m : State) (k : Bytes) (e : Entry) → IsValid m → HasRoom m k → IsValid (swap m k e).0
  pub delete-IsValid : (m : State) (k : Bytes) → IsValid m → IsValid (delete m k).0
  pub swap_old :
      (m : State) (k : Bytes) (e : Entry) → IsValid m → HasRoom m k → (swap m k e).1 ≡ get m k
  pub delete_old : (m : State) (k : Bytes) → IsValid m → (delete m k).1 ≡ get m k
  pub get-swap :
      (m : State) (k : Bytes) (e : Entry) (j : Bytes)
      → IsValid m
      → HasRoom m k
      → get (swap m k e).0 j ≡ (if bytes_eq k j then some e else get m j)
  pub get-delete :
      (m : State) (k j : Bytes)
      → IsValid m
      → get (delete m k).0 j ≡ (if bytes_eq k j then none else get m j)
  pub total-swap :
      (w : Bytes → Entry → ℕ) (m : State) (k : Bytes) (e : Entry)
      → IsValid m
      → HasRoom m k
      → total w (entries (swap m k e).0) + weight_of w k (get m k) ≡ total w (entries m) + w k e
  pub total-delete :
      (w : Bytes → Entry → ℕ) (m : State) (k : Bytes)
      → IsValid m
      → total w (entries (delete m k).0) + weight_of w k (get m k) ≡ total w (entries m)
  pub sample_live :
      (m : State) (n : ℕ) (draws : ℕ → ℕ)
      → IsValid m
      → All (λ c. get m c.0 ≡ some c.1) (sample m n draws)
