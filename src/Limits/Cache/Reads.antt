-- ===== src/Limits/Cache/Reads.antt =====
-- What can be read from the cache after each operation.
use sjmb_slack.Prelude.{
  ℕ, ◌+◌, ◌≤◌, ◌≡◌, refl, List, [], ◌∷◌, Option, none, some, arith, ltb, if◌then◌else◌, Eq,
}
use sjmb_slack.Limits.Cache.{Entry, ExpiringCache, find, remove, put, get, evict, insert}

module _ {ℓ} {K V : Type ℓ} ⦃e : Eq K⦄ where
  pub find-remove :
      (k j : K) (xs : List (Entry K V))
      → find j (remove k xs) ≡ (if e.beq k j then none else find j xs)
  unfolding remove
  find-remove k j [] = ground arith
  find-remove k j (x ∷ xs) =
      ground (arith, e.beq_iff k j, e.beq_iff x.key k, e.beq_iff x.key j, find-remove k j xs)

  pub find-put :
      (n : Entry K V) (j : K) (xs : List (Entry K V))
      → find j (put n xs) ≡ (if e.beq n.key j then some n else find j xs)
  unfolding put
  find-put n j [] = refl
  find-put n j (x ∷ xs) =
      ground (arith, e.beq_iff n.key j, e.beq_iff x.key n.key, e.beq_iff x.key j, find-put n j xs)

  -- The entry of a key while it is alive, and nothing afterwards.
  abbrev pub live : ℕ → Option (Entry K V) → Option V
  live now none = none
  live now (some x) = if ltb now x.expires then some x.value else none

  pub get-live :
      (c : ExpiringCache K V) (k : K) (now : ℕ) → (get c k now).0 ≡ live now (find k c.entries)
  unfolding get
  get-live c k now = ground arith

  -- What `insert` wrote is read back until `now + ttl`, that instant excluded, and not after it.
  pub get-insert_self :
      (c : ExpiringCache K V) (k : K) (v : V) (now ttl later : ℕ)
      → (get (insert c k v now ttl) k later).0 ≡ (if ltb later (now + ttl) then some v else none)
  unfolding insert get
  get-insert_self c k v now ttl later = ground (
    arith,
    find-put (record { key = k; expires = now + ttl; value = v }) k (evict c k),
    e.beq_iff k k,
  )

  -- A read changes no later read: neither the value nor the lifetime of any key.
  pub get-get :
      (c : ExpiringCache K V) (k j : K) (now later : ℕ)
      → now ≤ later
      → (get (get c k now).1 j later).0 ≡ (get c j later).0
  unfolding get
  get-get c k j now later h = ground (arith, find-remove k j c.entries, e.beq_iff k j)
