-- ===== src/Limits/Cache/Eviction.antt =====
-- The bound of the cache, and which entry gives way to a new one.
use sjmb_slack.Prelude.{
  ℕ, suc, ◌+◌, ◌≤◌, ◌<◌, ◌≡◌, refl, ap, true, false, List, [], ◌∷◌, none, some, arith, ltb,
  if◌then◌else◌, length, Eq, Option-cases, inl, inr, ◌⊎◌, Bool-cases,
}
use sjmb_slack.Limits.Cache.{
  Entry, ExpiringCache, find, remove, put, oldest, get, contains_key, evict, insert,
}
use sjmb_slack.Limits.Cache.Reads.{find-remove, find-put}

module _ {ℓ} {K V : Type ℓ} ⦃e : Eq K⦄ where
  -- No key stands twice.
  abbrev pub Distinct : List (Entry K V) → Type ℓ
  Distinct [] = Unit
  Distinct (x ∷ xs) = (find x.key xs ≡ none) × Distinct xs

  pub record IsValid (c : ExpiringCache K V) : Type ℓ where
    pub positive : 0 < c.capacity
    pub bounded : length c.entries ≤ c.capacity
    pub distinct : Distinct c.entries

  remove-Distinct : (k : K) (xs : List (Entry K V)) → Distinct xs → Distinct (remove k xs)
  unfolding remove
  remove-Distinct k [] d = tt
  remove-Distinct k (x ∷ xs) d = ground (arith, remove-Distinct k xs d.1, find-remove k x.key xs)

  put-Distinct : (n : Entry K V) (xs : List (Entry K V)) → Distinct xs → Distinct (put n xs)
  unfolding put
  put-Distinct n [] d = (refl, tt)
  put-Distinct n (x ∷ xs) d = ground (
    arith,
    put-Distinct n xs d.1,
    find-put n x.key xs,
    e.beq_iff x.key n.key,
    e.beq_iff n.key x.key,
  )

  length-remove-le : (k : K) (xs : List (Entry K V)) → length (remove k xs) ≤ length xs
  unfolding remove
  length-remove-le k [] = ground arith
  length-remove-le k (x ∷ xs) = ground (arith, length-remove-le k xs)

  length-remove-lt :
      (k : K) (xs : List (Entry K V)) (y : Entry K V)
      → find k xs ≡ some y
      → length (remove k xs) < length xs
  unfolding remove
  length-remove-lt k [] y h = ground arith
  length-remove-lt k (x ∷ xs) y h = ground (arith, length-remove-lt k xs y, length-remove-le k xs)

  length-put :
      (n : Entry K V) (xs : List (Entry K V))
      → length (put n xs) ≡ (if contains_key n.key xs then length xs else suc (length xs))
  unfolding put contains_key
  length-put n [] = refl
  length-put n (x ∷ xs) = ground (arith, length-put n xs)

  oldest-none : (xs : List (Entry K V)) → oldest xs ≡ none → xs ≡ []
  unfolding oldest
  oldest-none [] h = refl
  oldest-none (x ∷ xs) h = ground arith

  pub find-oldest :
      (xs : List (Entry K V)) (x : Entry K V)
      → Distinct xs
      → oldest xs ≡ some x
      → find x.key xs ≡ some x
  unfolding oldest
  find-oldest [] x d h = ground arith
  find-oldest (y ∷ ys) x d h = elim (Option-cases (oldest ys)) [
    | inl n ↦ ground (arith, e.beq_iff y.key x.key)
    | inr (z, s) ↦
        ground (arith, find-oldest ys z d.1 s, e.beq_iff y.key x.key, e.beq_iff y.key z.key)
  ]

  pub oldest-le :
      (xs : List (Entry K V)) (x y : Entry K V) (j : K)
      → oldest xs ≡ some x
      → find j xs ≡ some y
      → x.expires ≤ y.expires
  unfolding oldest
  oldest-le [] x y j h g = ground arith
  oldest-le (w ∷ ws) x y j h g = elim (Option-cases (oldest ws)) [
    | inl n ↦ ground (arith, oldest-none ws n)
    | inr (z, s) ↦ ground (arith, oldest-le ws z y j s)
  ]

  evict-fits :
      (c : ExpiringCache K V) (k : K)
      → IsValid c
      → contains_key k c.entries ≡ false
      → length (evict c k) < c.capacity
  unfolding evict
  evict-fits c k v h = elim (Option-cases (oldest c.entries)) [
    | inl n ↦ ground (arith, oldest-none c.entries n)
    | inr (x, s) ↦
        ground (arith, find-oldest c.entries x v.distinct s, length-remove-lt x.key c.entries x)
  ]

  evict-Distinct : (c : ExpiringCache K V) (k : K) → Distinct c.entries → Distinct (evict c k)
  unfolding evict
  evict-Distinct c k d = elim (Option-cases (oldest c.entries)) [
    | inl n ↦ ground arith
    | inr (x, s) ↦ ground (arith, remove-Distinct x.key c.entries d)
  ]

  evict_present :
      (c : ExpiringCache K V) (k : K) → contains_key k c.entries ≡ true → evict c k ≡ c.entries
  unfolding evict
  evict_present c k h = ground arith

  -- Inserting keeps a valid cache valid: never more entries than the capacity, and never a key
  -- twice.
  pub insert-IsValid :
      (c : ExpiringCache K V) (k : K) (v : V) (now ttl : ℕ)
      → IsValid c
      → IsValid (insert c k v now ttl)
  unfolding insert
  insert-IsValid c k v now ttl w = record {
    positive = w.positive;
    bounded = elim (Bool-cases (contains_key k c.entries)) [
      | inl old ↦ ground (arith, length-put n (evict c k), evict_present c k old, w.bounded)
      | inr fresh ↦ ground (arith, length-put n (evict c k), evict-fits c k w fresh)
    ];
    distinct = put-Distinct n (evict c k) (evict-Distinct c k w.distinct);
  }
    where
      n : Entry K V
      n = record { key = k; expires = now + ttl; value = v }

  pub get-IsValid : (c : ExpiringCache K V) (k : K) (now : ℕ) → IsValid c → IsValid (get c k now).1
  unfolding get
  get-IsValid c k now w =
      ground (arith, remove-Distinct k c.entries w.distinct, length-remove-le k c.entries)

  -- A key that the full cache does not hold takes the place of an entry with the least expiry; no
  -- other key is touched.
  pub insert-evicts_oldest :
      (c : ExpiringCache K V) (k : K) (v : V) (now ttl : ℕ)
      → IsValid c
      → contains_key k c.entries ≡ false
      → length c.entries ≡ c.capacity
      → (x : Entry K V) × (find x.key c.entries ≡ some x)
        × ((j : K) (y : Entry K V) → find j c.entries ≡ some y → x.expires ≤ y.expires)
        × ((j : K) (later : ℕ)
            → (get (insert c k v now ttl) j later).0 ≡ (
                if e.beq k j
                then (if ltb later (now + ttl) then some v else none)
                else if e.beq x.key j
                then none
                else (get c j later).0))
  unfolding insert evict get
  insert-evicts_oldest c k v now ttl w absent full = elim (Option-cases (oldest c.entries)) [
    | inl n ↦ absurd (omega (arith, w.positive, full, ap length (oldest-none c.entries n)))
    | inr (x, s) ↦ (
      x,
      find-oldest c.entries x w.distinct s,
      λ j y. oldest-le c.entries x y j s,
      λ j later. ground (
        arith,
        find-put (record { key = k; expires = now + ttl; value = v }) j (evict c k),
        find-remove x.key j c.entries,
      ),
    )
  ]

  -- With room left, or for a key that is present, every other key reads as before.
  pub insert-keeps_others :
      (c : ExpiringCache K V) (k : K) (v : V) (now ttl : ℕ) (j : K) (later : ℕ)
      → (contains_key k c.entries ≡ true) ⊎ (length c.entries < c.capacity)
      → e.beq k j ≡ false
      → (get (insert c k v now ttl) j later).0 ≡ (get c j later).0
  unfolding insert evict get
  insert-keeps_others c k v now ttl j later room ne =
      ground (arith, find-put (record { key = k; expires = now + ttl; value = v }) j (evict c k))
