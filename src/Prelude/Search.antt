-- ===== src/Prelude/Search.antt =====
-- The loop that the allocators share: the first of `n` numbers from `i` on that is not taken.
use Prim.Native.Nat.{ℕ, zero, suc, ◌+◌, ◌≤◌, ◌<◌}
use mathlib.Core.Path.{◌≡◌}
use mathlib.Core.Logic.{inl, inr, ◌≢◌}
use mathlib.Core.Bool.{Bool, true, false}
use mathlib.Core.List.{List}
use mathlib.Core.Option.{Option, none, some}
use native.Mathlib.Omega.{arith}
use deep_orc.Prelude.Tests.{
  Comparable, nat_eq, nat_eq, ◌==◌, Bool-cases, Option-cases, if◌then◌else◌,
}
use deep_orc.Prelude.Lists.{length, contains, erase, length-erase, contains-erase_ne}

unfoldable pub find_from : (ℕ → Bool) → ℕ → ℕ → Option ℕ
find_from taken zero i = none
find_from taken (suc n) i = let rest = find_from taken n (i + 1) in if taken i then rest else some i

-- The number found is in range, is free, and is the least such.
pub record IsFirstFree (taken : ℕ → Bool) (n lo k : ℕ) : Type 0 where
  pub above : lo ≤ k
  pub below : k < lo + n
  pub free : taken k ≡ false
  pub least : (j : ℕ) → lo ≤ j → j < k → taken j ≡ true

module _ (taken : ℕ → Bool) where
  find_from_step :
      (n i k : ℕ) → taken i ≡ true → IsFirstFree taken n (i + 1) k → IsFirstFree taken (suc n) i k
  find_from_step n i k t f = record {
    above = omega arith;
    below = omega arith;
    free = f.free;
    least = λ j a b. ground (arith, f.least j);
  }

  pub find_from-IsFirstFree : (n i k : ℕ) → find_from taken n i ≡ some k → IsFirstFree taken n i k
  unfolding find_from
  find_from-IsFirstFree zero i k h = cc
  find_from-IsFirstFree (suc n) i k h = elim (Bool-cases (taken i)) [
    | inl t ↦ find_from_step n i k t (find_from-IsFirstFree n (i + 1) k (ground arith))
    | inr f ↦
        let e : i ≡ k = ground arith in
        record {
          above = omega arith;
          below = omega arith;
          free = ground arith;
          least = λ j a b. absurd (omega arith);
        }
  ]

  -- The search fails only when every number of the range is taken.
  pub find_from-none : (n i j : ℕ) → find_from taken n i ≡ none → i ≤ j → j < i + n → taken j ≡ true
  unfolding find_from
  find_from-none zero i j h a b = absurd (omega arith)
  find_from-none (suc n) i j h a b = elim (Bool-cases (taken i)) [
    | inr f ↦ ground arith
    | inl t ↦ elim (Bool-cases (i == j)) [
      | inl e ↦ ground arith
      | inr d ↦ find_from-none n (i + 1) j (ground arith) (ground arith) (omega arith)
    ]
  ]

-- Fewer entries than candidates cannot take them all.
module _ {ℓ} {A : Type ℓ} ⦃e : Comparable A⦄ (f : ℕ → A) where
  length_ge_of_covers :
      (n i : ℕ) (xs : List A)
      → ((j k : ℕ) → i ≤ j → j < k → k < i + n → f j ≢ f k)
      → ((j : ℕ) → i ≤ j → j < i + n → contains xs (f j) ≡ true)
      → n ≤ length xs
  length_ge_of_covers zero i xs d h = omega arith
  length_ge_of_covers (suc n) i xs d h =
      let ih =
        length_ge_of_covers n (i + 1) (erase xs (f i))
          (λ j k a b c. d j k (omega arith) b (omega arith))
          (λ j a b.
            contains-erase_ne xs (f i) (f j) (d i j (omega arith) (omega arith) (omega arith))
              (h j (omega arith) (omega arith))) in
      omega (arith, length-erase xs (f i) (h i (omega arith) (omega arith)), ih)

  -- More different candidates than there are entries: one of them is free.
  pub find_from_room :
      (xs : List A) (n i : ℕ)
      → ((j k : ℕ) → i ≤ j → j < k → k < i + n → f j ≢ f k)
      → length xs < n
      → (k : ℕ) × (find_from (λ j. contains xs (f j)) n i ≡ some k)
  find_from_room xs n i d h = elim (Option-cases (find_from (λ j. contains xs (f j)) n i)) [
    | inl none_free ↦ absurd (
        omega (
          arith,
          length_ge_of_covers n i xs d
              (λ j a b. find_from-none (λ j. contains xs (f j)) n i j none_free a b),
        ))
    | inr found ↦ found
  ]

pub covered_length :
    (xs : List ℕ) (n i : ℕ) → ((j : ℕ) → i ≤ j → j < i + n → contains xs j ≡ true) → n ≤ length xs
covered_length xs n i h =
    length_ge_of_covers (λ j. j) n i xs (λ j k a b c e. absurd (omega arith)) h
