-- ===== src/Limits/Cache/Remembered.antt =====
-- An entry that stays in the cache while others come, as long as there is room for them.
use sjmb_slack.Prelude.{ℕ, suc, ◌+◌, ◌≤◌, ◌<◌, ◌≡◌, false, List, [], ◌∷◌, some, arith, length, Eq}
use sjmb_slack.Limits.Cache.{Entry, ExpiringCache, find, get, insert, remove, put, evict}
use sjmb_slack.Limits.Cache.Reads.{find-remove, find-put}

module _ {ℓ} {K V : Type ℓ} ⦃e : Eq K⦄ where
  length-remove : (k : K) (xs : List (Entry K V)) → length (remove k xs) ≤ length xs
  unfolding remove
  length-remove k [] = omega arith
  length-remove k (x ∷ xs) = ground (arith, length-remove k xs)

  length-put_le : (n : Entry K V) (xs : List (Entry K V)) → length (put n xs) ≤ length xs + 1
  unfolding put
  length-put_le n [] = omega arith
  length-put_le n (x ∷ xs) = ground (arith, length-put_le n xs)

  -- The cache has an entry of the key that lives until an instant, and room for so many others.
  pub record Remembers (k : K) (v : V) (until room : ℕ) (c : ExpiringCache K V) : Type ℓ where
    pub found : find k c.entries ≡ some (record { key = k; expires = until; value = v })
    pub free : length c.entries + room ≤ c.capacity

  module _ (k : K) (v : V) (until room : ℕ) (c : ExpiringCache K V) where
    pub get-Remembers :
        (j : K) (now : ℕ)
        → now < until
        → Remembers k v until room c
        → Remembers k v until room (get c j now).1
    unfolding get
    get-Remembers j now soon r = record {
      found = ground (arith, find-remove j k c.entries, e.beq_iff j k, r.found);
      free = ground (arith, length-remove j c.entries, r.free);
    }

    pub get-remembered :
        (now : ℕ) → now < until → Remembers k v until room c → (get c k now).0 ≡ some v
    unfolding get
    get-remembered now soon r = ground (arith, r.found)

  pub insert-Remembers :
      (k j : K) (v u : V) (until room now ttl : ℕ) (c : ExpiringCache K V)
      → e.beq j k ≡ false
      → Remembers k v until (suc room) c
      → Remembers k v until room (insert c j u now ttl)
  unfolding insert evict
  insert-Remembers k j v u until room now ttl c other r = record {
    found = ground (
      arith,
      find-put (record { key = j; expires = now + ttl; value = u }) k c.entries,
      r.found,
      r.free,
    );
    free = ground (
      arith,
      length-put_le (record { key = j; expires = now + ttl; value = u }) c.entries,
      r.free,
    );
  }
