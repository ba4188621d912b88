-- ===== src/State/Prune/Order.antt =====
-- The order of the triples is a strict weak order, and `sort` puts a list in that order.
use mathlib.Core.List.Perm
use sjmb_slack.Prelude.{
  ◌≡◌, refl, true, false, List, [], ◌∷◌, arith, Bool-cases, inl, inr, All, Perm,
}
use sjmb_slack.Prelude.Text.{Text, text_eq, text_ltb, text_eq_iff}
use sjmb_slack.State.Prune.{Tracked, tracked_ltb, sort_insert, sort}

text_ltb_asymm : (a b : Text) → text_ltb a b ≡ true → text_ltb b a ≡ false
text_ltb_asymm [] [] h = ground arith
text_ltb_asymm [] (y ∷ ys) h = refl
text_ltb_asymm (x ∷ xs) [] h = ground arith
text_ltb_asymm (x ∷ xs) (y ∷ ys) h = ground (arith, text_ltb_asymm xs ys)

text_ltb_negtrans :
    (a b c : Text) → text_ltb b a ≡ false → text_ltb c b ≡ false → text_ltb c a ≡ false
text_ltb_negtrans [] [] [] h g = refl
text_ltb_negtrans [] [] (z ∷ zs) h g = ground arith
text_ltb_negtrans [] (y ∷ ys) [] h g = ground arith
text_ltb_negtrans [] (y ∷ ys) (z ∷ zs) h g = ground arith
text_ltb_negtrans (x ∷ xs) [] c h g = ground arith
text_ltb_negtrans (x ∷ xs) (y ∷ ys) [] h g = ground arith
text_ltb_negtrans (x ∷ xs) (y ∷ ys) (z ∷ zs) h g = ground (arith, text_ltb_negtrans xs ys zs)

-- Two texts that neither precedes the other are one.
text_ltb_total : (a b : Text) → text_ltb a b ≡ false → text_ltb b a ≡ false → text_eq a b ≡ true
text_ltb_total [] [] h g = refl
text_ltb_total [] (y ∷ ys) h g = ground arith
text_ltb_total (x ∷ xs) [] h g = ground arith
text_ltb_total (x ∷ xs) (y ∷ ys) h g = ground (arith, text_ltb_total xs ys)

tracked_ltb_asymm : (a b : Tracked) → tracked_ltb a b ≡ true → tracked_ltb b a ≡ false
unfolding tracked_ltb
tracked_ltb_asymm a b h = ground (
  arith,
  text_ltb_asymm a.id b.id,
  text_ltb_asymm a.ts b.ts,
  text_eq_iff a.id b.id,
  text_eq_iff b.id a.id,
)

tracked_ltb_negtrans :
    (a b c : Tracked) → tracked_ltb b a ≡ false → tracked_ltb c b ≡ false → tracked_ltb c a ≡ false
unfolding tracked_ltb
tracked_ltb_negtrans a b c h g = ground (
  arith,
  text_ltb_negtrans a.id b.id c.id,
  text_ltb_negtrans a.ts b.ts c.ts,
  text_ltb_total c.id b.id,
  text_ltb_total b.id a.id,
  text_eq_iff a.id b.id,
  text_eq_iff b.id a.id,
  text_eq_iff c.id b.id,
  text_eq_iff c.id a.id,
)

-- Nothing in the list precedes `x`.
abbrev pub NoneBefore : Tracked → List Tracked → Type 0
NoneBefore x = All (λ y. tracked_ltb y x ≡ false)

abbrev pub IsSorted : List Tracked → Type 0
IsSorted [] = Unit
IsSorted (x ∷ xs) = NoneBefore x xs × IsSorted xs

NoneBefore-insert :
    (x y : Tracked) (ys : List Tracked)
    → tracked_ltb x y ≡ false
    → NoneBefore y ys
    → NoneBefore y (sort_insert x ys)
unfolding sort_insert
NoneBefore-insert x y [] h n = (h, tt)
NoneBefore-insert x y (z ∷ zs) h n = ground (arith, NoneBefore-insert x y zs h n.1)

NoneBefore-trans :
    (x y : Tracked) (ys : List Tracked)
    → tracked_ltb y x ≡ false
    → NoneBefore y ys
    → NoneBefore x ys
NoneBefore-trans x y [] h n = tt
NoneBefore-trans x y (z ∷ zs) h n =
    (tracked_ltb_negtrans x y z h n.0, NoneBefore-trans x y zs h n.1)

sort_insert-IsSorted : (x : Tracked) (ys : List Tracked) → IsSorted ys → IsSorted (sort_insert x ys)
unfolding sort_insert
sort_insert-IsSorted x [] s = (tt, tt)
sort_insert-IsSorted x (y ∷ ys) s = elim (Bool-cases (tracked_ltb y x)) [
  | inl before ↦
      rw before
        (NoneBefore-insert x y ys (tracked_ltb_asymm y x before) s.0, sort_insert-IsSorted x ys s.1)
  | inr after ↦ rw after ((after, NoneBefore-trans x y ys after s.0), s)
]

pub sort-IsSorted : (xs : List Tracked) → IsSorted (sort xs)
unfolding sort
sort-IsSorted [] = tt
sort-IsSorted (x ∷ xs) = sort_insert-IsSorted x (sort xs) (sort-IsSorted xs)

sort_insert-perm : (x : Tracked) (ys : List Tracked) → Perm (sort_insert x ys) (x ∷ ys)
unfolding sort_insert
sort_insert-perm x [] = Perm.refl (x ∷ [])
sort_insert-perm x (y ∷ ys) = elim (Bool-cases (tracked_ltb y x)) [
  | inl before ↦ rw before (Perm.trans (Perm.cons y (sort_insert-perm x ys)) (Perm.swap x y ys))
  | inr after ↦ rw after (Perm.refl (x ∷ y ∷ ys))
]

pub sort-perm : (xs : List Tracked) → Perm (sort xs) xs
unfolding sort
sort-perm [] = Perm.refl []
sort-perm (x ∷ xs) = Perm.trans (sort_insert-perm x (sort xs)) (Perm.cons x (sort-perm xs))
