-- ===== src/Pools/Constraints.antt =====
-- Uniqueness of rows as the database checks it, for any two columns.
use deep_orc.Prelude.{
  Bool-cases, nat_eq, any, any-append, text_eq, ◌≡◌, refl, inl, inr, Bool, true, false, List, [],
  ◌∷◌, ◌++◌, arith,
}
use deep_orc.Pools.{remove_first}

module _ {ℓ} {A : Type ℓ} (same : A → A → Bool) where
  -- No row is the same as a later one.
  abbrev pub IsUnique : List A → Type 0
  IsUnique [] = Unit
  IsUnique (r ∷ rows) = (any (same r) rows ≡ false) × IsUnique rows

module _ {ℓ} {A : Type ℓ} (same : A → A → Bool) (same_comm : (a b : A) → same a b ≡ same b a) where
  any-snoc_other :
      (r a : A) (rows : List A)
      → any (same r) rows ≡ false
      → same r a ≡ false
      → any (same r) (rows ++ a ∷ []) ≡ false
  any-snoc_other r a rows h n = rw (any-append (same r) rows (a ∷ [])) (ground arith)

  pub IsUnique-snoc :
      (rows : List A) (a : A)
      → IsUnique same rows
      → any (same a) rows ≡ false
      → IsUnique same (rows ++ a ∷ [])
  IsUnique-snoc [] a h n = (refl, tt)
  IsUnique-snoc (r ∷ rows) a h n = (
    any-snoc_other r a rows h.0 (ground (arith, same_comm r a)),
    IsUnique-snoc rows a h.1 (ground arith),
  )

  any-remove_first :
      (p : A → Bool) (r : A) (rows : List A)
      → any (same r) rows ≡ false
      → any (same r) (remove_first p rows) ≡ false
  any-remove_first p r [] h = refl
  any-remove_first p r (a ∷ rows) h = ground (arith, any-remove_first p r rows)

  pub IsUnique-remove_first :
      (p : A → Bool) (rows : List A) → IsUnique same rows → IsUnique same (remove_first p rows)
  IsUnique-remove_first p [] h = tt
  IsUnique-remove_first p (r ∷ rows) h = elim (Bool-cases (p r)) [
    | inl hit ↦ rw hit h.1
    | inr miss ↦ rw miss (any-remove_first p r rows h.0, IsUnique-remove_first p rows h.1)
  ]

-- A row that was added last, and that no other row passes for, is the one that a release deletes.
pub remove_first-snoc {ℓ} :
    {A : Type ℓ} (p : A → Bool) (rows : List A) (a : A)
    → any p rows ≡ false
    → p a ≡ true
    → remove_first p (rows ++ a ∷ []) ≡ rows
remove_first-snoc p [] a n h = rw h
remove_first-snoc p (r ∷ rows) a n h = ground (arith, remove_first-snoc p rows a)
