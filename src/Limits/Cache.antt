-- ===== src/Limits/Cache.antt =====
-- `ExpiringCache` of src/limits.rs. An instant is a number; the entries stand in the order in which
-- the hash map happens to visit them. A method returns the new state beside its result.
pub mod Reads
pub mod Eviction
pub mod Remembered
use sjmb_slack.Prelude.{
  ℕ, ◌+◌, ◌≡◌, Bool, true, false, not, ◌&&◌, List, [], ◌∷◌, Option, none, some, arith, ltb, leb,
  ◌==◌, if◌then◌else◌, length, Eq,
}

-- `(Instant, V)` of the map's entries, with its key.
pub record Entry {ℓ} (K V : Type ℓ) : Type ℓ where
  pub key : K
  pub expires : ℕ
  pub value : V

pub record ExpiringCache {ℓ} (K V : Type ℓ) : Type ℓ where
  pub entries : List (Entry K V)
  pub capacity : ℕ

-- `assert!(capacity > 0)` is the panic `none`.
unfoldable pub new {ℓ} : {K V : Type ℓ} → ℕ → Option (ExpiringCache K V)
new capacity = if ltb 0 capacity then some (record { entries = []; capacity = capacity }) else none

module _ {ℓ} {K V : Type ℓ} ⦃e : Eq K⦄ where
  -- `HashMap::get`.
  abbrev pub find : K → List (Entry K V) → Option (Entry K V)
  find k [] = none
  find k (x ∷ xs) = if e.beq x.key k then some x else find k xs

  -- `HashMap::remove`.
  unfoldable pub remove : K → List (Entry K V) → List (Entry K V)
  remove k [] = []
  remove k (x ∷ xs) = if e.beq x.key k then remove k xs else x ∷ remove k xs

  -- `HashMap::insert`: the value of a present key is replaced.
  unfoldable pub put : Entry K V → List (Entry K V) → List (Entry K V)
  put n [] = n ∷ []
  put n (x ∷ xs) = if e.beq x.key n.key then n ∷ xs else x ∷ put n xs

  -- `min_by_key` on the expiry: the first of the least.
  unfoldable pub oldest : List (Entry K V) → Option (Entry K V)
  oldest [] = none
  oldest (x ∷ xs) = elim (oldest xs) [
    | none ↦ some x
    | some y ↦ if leb x.expires y.expires then some x else some y
  ]

  unfoldable pub get : ExpiringCache K V → K → ℕ → Option V × ExpiringCache K V
  get c k now = elim (find k c.entries) [
    | none ↦ (none, record c { entries = remove k c.entries })
    | some x ↦
        if ltb now x.expires
        then (some x.value, c)
        else (none, record c { entries = remove k c.entries })
  ]

  unfoldable pub contains_key : K → List (Entry K V) → Bool
  contains_key k xs = elim (find k xs) [ none ↦ false | some x ↦ true ]

  -- The entries after the room-making part of `insert`.
  unfoldable pub evict : ExpiringCache K V → K → List (Entry K V)
  unfolding contains_key
  evict c k =
      if not (contains_key k c.entries) && length c.entries == c.capacity
      then elim (oldest c.entries) [ none ↦ c.entries | some x ↦ remove x.key c.entries ]
      else c.entries

  unfoldable pub insert : ExpiringCache K V → K → V → ℕ → ℕ → ExpiringCache K V
  insert c k v now ttl = record c {
    entries = put (record { key = k; expires = now + ttl; value = v }) (evict c k);
  }
