-- ===== src/Bot/Workspace/Short.antt =====
-- Names of at most 256 bytes, and caches of them.
use sjmb_slack.Prelude.{
  ℕ, ◌+◌, ◌≤◌, ◌≡◌, List, [], ◌∷◌, Option, none, some, arith, subst, sym, Bool-cases, Option-cases,
  inl, inr, All, length, ltb, ◌&&◌, ◌==◌, not,
}
use sjmb_slack.Prelude.Text.{Text, len, text_Eq, text_eq}
use sjmb_slack.Limits.Cache.{
  Entry, ExpiringCache, find, remove, put, oldest, get, evict, insert, contains_key,
}
use sjmb_slack.Limits.LogText.{log_text, log_text-Fits}

abbrev pub IsShort : Text → Type 0
IsShort t = len t ≤ 256

abbrev pub IsShortOption : Option Text → Type 0
IsShortOption none = Unit
IsShortOption (some t) = IsShort t

abbrev pub ShortNames : List (Entry Text Text) → Type 0
ShortNames xs = All (λ x. IsShort x.value) xs

pub log_text-IsShort : (t : Text) → IsShort (log_text t 256)
log_text-IsShort t =
    let ((kept, rest, split, shown, fits, stop), plain) = log_text-Fits t 256 in fits

ShortNames-find :
    (k : Text) (xs : List (Entry Text Text)) (x : Entry Text Text)
    → ShortNames xs
    → find k xs ≡ some x
    → IsShort x.value
ShortNames-find k [] x s h = absurd (ground arith)
ShortNames-find k (y ∷ ys) x (now, later) h = elim (Bool-cases (text_eq y.key k)) [
  | inl hit ↦ ground arith
  | inr miss ↦ ShortNames-find k ys x later (ground arith)
]

ShortNames-remove :
    (k : Text) (xs : List (Entry Text Text)) → ShortNames xs → ShortNames (remove k xs)
unfolding remove
ShortNames-remove k [] s = tt
ShortNames-remove k (y ∷ ys) (now, later) = elim (Bool-cases (text_eq y.key k)) [
  | inl hit ↦ rw hit (ShortNames-remove k ys later)
  | inr miss ↦ rw miss (now, ShortNames-remove k ys later)
]

ShortNames-put :
    (n : Entry Text Text) (xs : List (Entry Text Text))
    → IsShort n.value
    → ShortNames xs
    → ShortNames (put n xs)
unfolding put
ShortNames-put n [] h s = (h, tt)
ShortNames-put n (y ∷ ys) h (now, later) = elim (Bool-cases (text_eq y.key n.key)) [
  | inl hit ↦ rw hit (h, later)
  | inr miss ↦ rw miss (now, ShortNames-put n ys h later)
]

ShortNames-evict :
    (c : ExpiringCache Text Text) (k : Text) → ShortNames c.entries → ShortNames (evict c k)
unfolding evict
ShortNames-evict c k s =
    elim (Bool-cases (not (contains_key k c.entries) && length c.entries == c.capacity)) [
      | inr room ↦ rw room s
      | inl full ↦ elim (Option-cases (oldest c.entries)) [
        | inl e ↦ rw (full, e) s
        | inr (x, e) ↦ rw (full, e) (ShortNames-remove x.key c.entries s)
      ]
    ]

pub ShortNames-insert :
    (c : ExpiringCache Text Text) (k v : Text) (now ttl : ℕ)
    → IsShort v
    → ShortNames c.entries
    → ShortNames (insert c k v now ttl).entries
unfolding insert
ShortNames-insert c k v now ttl h s =
    ShortNames-put (record { key = k; expires = now + ttl; value = v }) (evict c k) h
      (ShortNames-evict c k s)

pub ShortNames-get :
    (c : ExpiringCache Text Text) (k : Text) (now : ℕ)
    → ShortNames c.entries
    → IsShortOption (get c k now).0 × ShortNames (get c k now).1.entries
unfolding get
ShortNames-get c k now s =
    let gone = record c { entries = remove k c.entries } in
    let removed = ShortNames-remove k c.entries s in
    elim (Option-cases (find k c.entries)) [
      | inl e ↦
          let read : get c k now ≡ (none, gone) = ground arith in
          subst (λ r. IsShortOption r.0 × ShortNames r.1.entries) (sym read) (tt, removed)
      | inr (x, e) ↦ elim (Bool-cases (ltb now x.expires)) [
        | inl alive ↦
            let read : get c k now ≡ (some x.value, c) = ground arith in
            subst (λ r. IsShortOption r.0 × ShortNames r.1.entries) (sym read)
              (ShortNames-find k c.entries x s e, s)
        | inr dead ↦
            let read : get c k now ≡ (none, gone) = ground arith in
            subst (λ r. IsShortOption r.0 × ShortNames r.1.entries) (sym read) (tt, removed)
      ]
    ]
