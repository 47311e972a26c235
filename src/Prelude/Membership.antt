-- ===== src/Prelude/Membership.antt =====
-- What stands in a list, apart from the tests by which the code asks for it.
use mathlib.Core.Path.{◌≡◌, refl, sym, subst}
use mathlib.Core.Logic.{◌⊎◌, inl, inr}
use mathlib.Core.Bool.{Bool, true, false}
use mathlib.Core.List.{List, [], ◌∷◌}
use deep_orc.Prelude.Tests.{Comparable, ◌==◌, Bool-cases}
use deep_orc.Prelude.Lists.{any, select, contains}
use deep_orc.Prelude.Sorting.{insert_by, sort_by}

abbrev pub Among : {A : Type 0} → A → List A → Type 0
Among a [] = ⊥
Among a (x ∷ xs) = (x ≡ a) ⊎ Among a xs

module _ {A : Type 0} where
  pub Among-select :
      (p : A → Bool) (xs : List A) (a : A) → p a ≡ true → Among a xs → Among a (select p xs)
  Among-select p [] a h m = m
  Among-select p (x ∷ xs) a h (inl e) =
      let passes : p x ≡ true = subst (λ y. p y ≡ true) (sym e) h in rw passes (inl e)
  Among-select p (x ∷ xs) a h (inr m) = elim (Bool-cases (p x)) [
    | inl passes ↦ rw passes (inr (Among-select p xs a h m))
    | inr fails ↦ rw fails (Among-select p xs a h m)
  ]

  pub select-Among :
      (p : A → Bool) (xs : List A) (a : A) → Among a (select p xs) → Among a xs × (p a ≡ true)
  select-Among p [] a m = absurd m
  select-Among p (x ∷ xs) a m = elim (Bool-cases (p x)) [
    | inr fails ↦
        let (in_rest, passes) = select-Among p xs a (rw fails at m) in (inr in_rest, passes)
    | inl passes ↦
        let now : (x ≡ a) ⊎ Among a (select p xs) = rw passes at m in
        elim now [
          | inl e ↦ (inl e, subst (λ y. p y ≡ true) e passes)
          | inr later ↦ let (in_rest, h) = select-Among p xs a later in (inr in_rest, h)
        ]
  ]

  pub any-Among :
      (p : A → Bool) (xs : List A) → any p xs ≡ true → (a : A) × Among a xs × (p a ≡ true)
  any-Among p [] h = cc
  any-Among p (x ∷ xs) h = elim (Bool-cases (p x)) [
    | inl passes ↦ (x, inl refl, passes)
    | inr fails ↦ let (a, m, passes) = any-Among p xs (rw fails at h) in (a, inr m, passes)
  ]

  pub Among-any : (p : A → Bool) (xs : List A) (a : A) → Among a xs → p a ≡ true → any p xs ≡ true
  Among-any p [] a m h = absurd m
  Among-any p (x ∷ xs) a (inl e) h =
      let passes : p x ≡ true = subst (λ y. p y ≡ true) (sym e) h in rw passes refl
  Among-any p (x ∷ xs) a (inr m) h = elim (Bool-cases (p x)) [
    | inl passes ↦ rw passes refl
    | inr fails ↦ rw fails (Among-any p xs a m h)
  ]

module _ {A : Type 0} ⦃e : Comparable A⦄ where
  pub contains-Among : (xs : List A) (a : A) → contains xs a ≡ true → Among a xs
  contains-Among [] a h = cc
  contains-Among (x ∷ xs) a h = elim (Bool-cases (x == a)) [
    | inl same ↦ inl ((e.beq_iff x a).0 same)
    | inr other ↦ inr (contains-Among xs a (rw other at h))
  ]

  pub Among-contains : (xs : List A) (a : A) → Among a xs → contains xs a ≡ true
  Among-contains [] a m = absurd m
  Among-contains (x ∷ xs) a (inl same) = rw ((e.beq_iff x a).1 same) refl
  Among-contains (x ∷ xs) a (inr m) = elim (Bool-cases (x == a)) [
    | inl same ↦ rw same refl
    | inr other ↦ rw other (Among-contains xs a m)
  ]

  pub absent-contains : (xs : List A) (a : A) → (Among a xs → ⊥) → contains xs a ≡ false
  absent-contains xs a h = elim (Bool-cases (contains xs a)) [
    | inl there ↦ absurd (h (contains-Among xs a there))
    | inr absent ↦ absent
  ]

  pub contains-absent : (xs : List A) (a : A) → contains xs a ≡ false → Among a xs → ⊥
  contains-absent xs a h m = cc (Among-contains xs a m)

-- Sorting keeps what stands in the list, and adds nothing.
module _ {A : Type 0} (le : A → A → Bool) where
  Among-insert_by : (x : A) (xs : List A) (a : A) → Among a (x ∷ xs) → Among a (insert_by le x xs)
  Among-insert_by x [] a m = m
  Among-insert_by x (y ∷ ys) a m = elim (Bool-cases (le x y)) [
    | inl low ↦ rw low m
    | inr high ↦ rw high (elim m [
      | inl e ↦ inr (Among-insert_by x ys a (inl e))
      | inr (inl e) ↦ inl e
      | inr (inr later) ↦ inr (Among-insert_by x ys a (inr later))
    ])
  ]

  insert_by-Among : (x : A) (xs : List A) (a : A) → Among a (insert_by le x xs) → Among a (x ∷ xs)
  insert_by-Among x [] a m = m
  insert_by-Among x (y ∷ ys) a m = elim (Bool-cases (le x y)) [
    | inl low ↦ rw low at m
    | inr high ↦
        let now : (y ≡ a) ⊎ Among a (insert_by le x ys) = rw high at m in
        elim now [
          | inl e ↦ inr (inl e)
          | inr later ↦ elim (insert_by-Among x ys a later) [
            | inl e ↦ inl e
            | inr rest ↦ inr (inr rest)
          ]
        ]
  ]

  pub Among-sort_by : (xs : List A) (a : A) → Among a xs → Among a (sort_by le xs)
  unfolding sort_by
  Among-sort_by [] a m = m
  Among-sort_by (x ∷ xs) a (inl e) = Among-insert_by x (sort_by le xs) a (inl e)
  Among-sort_by (x ∷ xs) a (inr m) =
      Among-insert_by x (sort_by le xs) a (inr (Among-sort_by xs a m))

  pub sort_by-Among : (xs : List A) (a : A) → Among a (sort_by le xs) → Among a xs
  unfolding sort_by
  sort_by-Among [] a m = m
  sort_by-Among (x ∷ xs) a m = elim (insert_by-Among x (sort_by le xs) a m) [
    | inl e ↦ inl e
    | inr later ↦ inr (sort_by-Among xs a later)
  ]
