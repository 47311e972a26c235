-- ===== src/Prelude/Sorting.antt =====
-- Python's `sorted` and `list.sort`: stable, here by insertion. `le x y` is `not (y < x)`.
use mathlib.Core.Path.{◌≡◌, refl, ◌∙◌}
use mathlib.Core.Logic.{inl, inr}
use mathlib.Core.Bool.{Bool, true, false, ◌&&◌}
use mathlib.Core.List.{List, [], ◌∷◌}
use native.Mathlib.Omega.{arith}
use deep_orc.Prelude.Tests.{if◌then◌else◌, Bool-cases}
use deep_orc.Prelude.Lists.{length, all, select}

module _ {ℓ} {A : Type ℓ} (le : A → A → Bool) where
  -- Before the rows that are no less, which came later.
  abbrev pub insert_by : A → List A → List A
  insert_by x [] = x ∷ []
  insert_by x (y ∷ ys) = if le x y then x ∷ y ∷ ys else y ∷ insert_by x ys

  unfoldable pub sort_by : List A → List A
  sort_by [] = []
  sort_by (x ∷ xs) = insert_by x (sort_by xs)

  -- Each row stands before those that are no less.
  abbrev pub IsSorted : List A → Type 0
  IsSorted [] = Unit
  IsSorted (x ∷ xs) = (all (le x) xs ≡ true) × IsSorted xs

-- An order in which any two rows can be compared.
pub record IsOrder {ℓ} {A : Type ℓ} (le : A → A → Bool) : Type ℓ where
  pub total : (x y : A) → le x y ≡ false → le y x ≡ true
  pub transitive : (x y z : A) → le x y ≡ true → le y z ≡ true → le x z ≡ true

module _ {ℓ} {A : Type ℓ} (le : A → A → Bool) where
  all-insert_by :
      (p : A → Bool) (x : A) (xs : List A) → all p (insert_by le x xs) ≡ (p x && all p xs)
  all-insert_by p x [] = refl
  all-insert_by p x (y ∷ ys) = ground (arith, all-insert_by p x ys)

  -- Sorting asks nothing else of the rows: a test holds of all of them as before.
  pub all-sort_by : (p : A → Bool) (xs : List A) → all p (sort_by le xs) ≡ all p xs
  unfolding sort_by
  all-sort_by p [] = refl
  all-sort_by p (x ∷ xs) = all-insert_by p x (sort_by le xs) ∙ ground (arith, all-sort_by p xs)

  count-insert_by :
      (p : A → Bool) (x : A) (xs : List A)
      → length (select p (insert_by le x xs)) ≡ length (select p (x ∷ xs))
  count-insert_by p x [] = refl
  count-insert_by p x (y ∷ ys) = ground (arith, count-insert_by p x ys)

  -- The rows are the same, each as often: any test counts as many of them.
  pub count-sort_by :
      (p : A → Bool) (xs : List A) → length (select p (sort_by le xs)) ≡ length (select p xs)
  unfolding sort_by
  count-sort_by p [] = refl
  count-sort_by p (x ∷ xs) =
      count-insert_by p x (sort_by le xs) ∙ ground (arith, count-sort_by p xs)

  module _ (order : IsOrder le) where
    all_above :
        (a b : A) (xs : List A) → le a b ≡ true → all (le b) xs ≡ true → all (le a) xs ≡ true
    all_above a b [] h e = refl
    all_above a b (y ∷ ys) h e = ground (arith, all_above a b ys h, order.transitive a b y)

    insert_by-IsSorted : (x : A) (xs : List A) → IsSorted le xs → IsSorted le (insert_by le x xs)
    insert_by-IsSorted x [] h = (refl, tt)
    insert_by-IsSorted x (y ∷ ys) h = elim (Bool-cases (le x y)) [
      | inl low ↦ rw low (ground (arith, all_above x y ys low h.0), h)
      | inr high ↦ rw high (
        all-insert_by (le y) x ys ∙ ground (arith, order.total x y high, h.0),
        insert_by-IsSorted x ys h.1,
      )
    ]

    pub sort_by-IsSorted : (xs : List A) → IsSorted le (sort_by le xs)
    unfolding sort_by
    sort_by-IsSorted [] = tt
    sort_by-IsSorted (x ∷ xs) = insert_by-IsSorted x (sort_by le xs) (sort_by-IsSorted xs)
