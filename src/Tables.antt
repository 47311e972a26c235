-- ===== src/Tables.antt =====
-- A table as the list of its rows in the order of their insertion, and what the repositories'
-- queries ask of it: the row of a key, a change of one row, a deletion.
use deep_orc.Prelude.{
  if◌then◌else◌, nat_beq_iff, ◌==◌, nat_eq, all, first, first_holds, contains, text_eq, ℕ, ◌≡◌,
  refl, ◌≢◌, Bool, true, false, Option, none, some, List, [], ◌∷◌, ◌++◌, map, arith,
}

pub record Keyed {ℓ} (A : Type ℓ) : Type ℓ where
  pub key : A → ℕ

module _ {ℓ} {A : Type ℓ} ⦃t : Keyed A⦄ where
  -- `session.get(A, k)`
  abbrev pub get : ℕ → List A → Option A
  get k = first (λ r. t.key r == k)

  -- A change of the object of key `k`, as it is flushed.
  abbrev pub update : ℕ → (A → A) → List A → List A
  update k f [] = []
  update k f (r ∷ rows) = (if t.key r == k then f r else r) ∷ update k f rows

  -- `session.delete`
  abbrev pub delete : ℕ → List A → List A
  delete k [] = []
  delete k (r ∷ rows) = let rest = delete k rows in if t.key r == k then rest else r ∷ rest

  abbrev pub keys : List A → List ℕ
  keys = map (λ r. t.key r)

  -- Changes that leave the key alone.
  abbrev pub KeepsKey : (A → A) → Type ℓ
  KeepsKey f = (r : A) → t.key (f r) ≡ t.key r

  pub get-key : (k : ℕ) (rows : List A) (a : A) → get k rows ≡ some a → t.key a ≡ k
  get-key k rows a h = (nat_beq_iff (t.key a) k).0 (first_holds (λ r. t.key r == k) rows a h)

  pub get-update_self :
      (k : ℕ) (f : A → A) (rows : List A) (a : A)
      → KeepsKey f
      → get k rows ≡ some a
      → get k (update k f rows) ≡ some (f a)
  get-update_self k f [] a keeps h = cc
  get-update_self k f (r ∷ rows) a keeps h =
      ground (arith, keeps r, get-update_self k f rows a keeps)

  pub get-update_ne :
      (k j : ℕ) (f : A → A) (rows : List A)
      → KeepsKey f
      → j ≢ k
      → get j (update k f rows) ≡ get j rows
  get-update_ne k j f [] keeps n = refl
  get-update_ne k j f (r ∷ rows) keeps n = ground (arith, keeps r, get-update_ne k j f rows keeps)

  pub get-delete_self : (k : ℕ) (rows : List A) → get k (delete k rows) ≡ none
  get-delete_self k [] = refl
  get-delete_self k (r ∷ rows) = ground (arith, get-delete_self k rows)

  pub get-delete_ne : (k j : ℕ) (rows : List A) → j ≢ k → get j (delete k rows) ≡ get j rows
  get-delete_ne k j [] n = refl
  get-delete_ne k j (r ∷ rows) n = ground (arith, get-delete_ne k j rows)

  pub get-snoc :
      (k : ℕ) (rows : List A) (a : A)
      → get k (rows ++ a ∷ [])
        ≡ (elim (get k rows) [ some r ↦ some r | none ↦ if t.key a == k then some a else none ])
  get-snoc k [] a = refl
  get-snoc k (r ∷ rows) a = ground (arith, get-snoc k rows a)

  -- A key that is not in use finds nothing.
  pub get-fresh : (k : ℕ) (rows : List A) → contains (keys rows) k ≡ false → get k rows ≡ none
  get-fresh k [] h = refl
  get-fresh k (r ∷ rows) h = ground (arith, get-fresh k rows)

  pub get-none-keys : (k : ℕ) (rows : List A) → get k rows ≡ none → contains (keys rows) k ≡ false
  get-none-keys k [] h = refl
  get-none-keys k (r ∷ rows) h = ground (arith, get-none-keys k rows)

  pub keys-update :
      (k : ℕ) (f : A → A) (rows : List A) → KeepsKey f → keys (update k f rows) ≡ keys rows
  keys-update k f [] keeps = refl
  keys-update k f (r ∷ rows) keeps = ground (arith, keeps r, keys-update k f rows keeps)

  -- What every row has and the change keeps, every row has afterwards.
  pub all-update :
      (p : A → Bool) (k : ℕ) (f : A → A) (rows : List A)
      → ((r : A) → p r ≡ true → p (f r) ≡ true)
      → all p rows ≡ true
      → all p (update k f rows) ≡ true
  all-update p k f [] keeps h = refl
  all-update p k f (r ∷ rows) keeps h = ground (arith, keeps r, all-update p k f rows keeps)

  pub all-delete :
      (p : A → Bool) (k : ℕ) (rows : List A) → all p rows ≡ true → all p (delete k rows) ≡ true
  all-delete p k [] h = refl
  all-delete p k (r ∷ rows) h = ground (arith, all-delete p k rows)
