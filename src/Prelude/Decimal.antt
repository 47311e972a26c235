-- ===== src/Prelude/Decimal.antt =====
-- Numbers as decimal text, as `str` and the format `0{width}d` write them.
use Prim.Native.Nat.{ℕ, zero, suc, ◌+◌, ◌-◌, ◌*◌, ◌/◌, ◌%◌, ◌^◌, ◌≤◌, ◌<◌}
use mathlib.Core.Path.{◌≡◌, refl, sym, ap, ◌∙◌}
use mathlib.Core.Logic.{inl, inr}
use mathlib.Core.Bool.{true, ◌&&◌}
use mathlib.Core.List.{[], ◌∷◌, ◌++◌, append_assoc}
use native.Mathlib.Omega.{arith}
use native.Mathlib.Nat.{pow-suc}
use deep_orc.Prelude.Tests.{ltb, leb, if◌then◌else◌, Bool-cases}
use deep_orc.Prelude.Lists.{replicate, length, length-append, all, all-append}
use deep_orc.Prelude.Strings.{Text}

-- The fuel is more than the number of digits.
decimal_fuel : ℕ → ℕ → Text
decimal_fuel zero n = []
decimal_fuel (suc f) n =
    let rest = decimal_fuel f (n / 10) in
    if ltb n 10 then (48 + n) ∷ [] else rest ++ (48 + n % 10) ∷ []

-- `str(n)`
unfoldable pub decimal : ℕ → Text
unfolding decimal_fuel
decimal n = decimal_fuel (suc n) n

-- `f"{n:0{width}d}"`
unfoldable pub zero_pad : ℕ → ℕ → Text
unfolding decimal
zero_pad width n = let ds = decimal n in replicate (width - length ds) b'0' ++ ds

decimal_fuel_enough : (f g n : ℕ) → n < f → n < g → decimal_fuel f n ≡ decimal_fuel g n
unfolding decimal_fuel
decimal_fuel_enough zero g n h k = absurd (omega arith)
decimal_fuel_enough (suc f) zero n h k = absurd (omega arith)
decimal_fuel_enough (suc f) (suc g) n h k = elim (Bool-cases (ltb n 10)) [
  | inl small ↦ rw small
  | inr big ↦ ground (arith, decimal_fuel_enough f g (n / 10))
]

decimal_small : (n : ℕ) → n < 10 → decimal n ≡ (48 + n) ∷ []
unfolding decimal
decimal_small n h = ground arith

decimal_big : (n : ℕ) → 10 ≤ n → decimal n ≡ decimal (n / 10) ++ (48 + n % 10) ∷ []
unfolding decimal
decimal_big n h = ground (arith, decimal_fuel_enough n (suc (n / 10)) (n / 10))

-- The last `w` decimal digits of `n`.
pub digits : ℕ → ℕ → Text
digits zero n = []
digits (suc w) n = digits w (n / 10) ++ (48 + n % 10) ∷ []

-- The number that a text of digits stands for, after `acc`.
value : ℕ → Text → ℕ
value acc [] = acc
value acc (c ∷ s) = value (acc * 10 + (c - 48)) s

value-snoc : (acc : ℕ) (s : Text) (c : ℕ) → value acc (s ++ c ∷ []) ≡ value acc s * 10 + (c - 48)
unfolding value
value-snoc acc [] c = refl
value-snoc acc (d ∷ s) c = value-snoc (acc * 10 + (d - 48)) s c

value-digits : (w n : ℕ) → n < 10 ^ w → value 0 (digits w n) ≡ n
unfolding digits
value-digits zero n h = unfold value in omega arith
value-digits (suc w) n h =
    rw value-snoc (omega (arith, value-digits w (n / 10) (omega (arith, pow-suc 10 w))))

-- Numbers below `10 ^ w` have different last `w` digits.
pub digits-injective : (w i j : ℕ) → i < 10 ^ w → j < 10 ^ w → digits w i ≡ digits w j → i ≡ j
digits-injective w i j h k e = sym (value-digits w i h) ∙ ap (value 0) e ∙ value-digits w j k

replicate-snoc : (n c : ℕ) → replicate n c ++ c ∷ [] ≡ c ∷ replicate n c
replicate-snoc zero c = refl
replicate-snoc (suc n) c = ap (◌∷◌ c) (replicate-snoc n c)

digits-zero : (w : ℕ) → digits w 0 ≡ replicate w 48
unfolding digits
digits-zero zero = refl
digits-zero (suc w) = rw (digits-zero w) (replicate-snoc w 48)

pad : ℕ → Text → Text
pad width ds = replicate (width - length ds) 48 ++ ds

pad-snoc : (w : ℕ) (s : Text) (c : ℕ) → pad (suc w) (s ++ c ∷ []) ≡ pad w s ++ c ∷ []
unfolding pad
pad-snoc w s c =
    let e : suc w - length (s ++ c ∷ []) ≡ w - length s = omega (arith, length-append s (c ∷ [])) in
    rw e (sym (append_assoc (replicate (w - length s) 48) s (c ∷ [])))

pad_one : (w c : ℕ) → pad (suc w) (c ∷ []) ≡ replicate w 48 ++ c ∷ []
unfolding pad
pad_one w c = let e : suc w - 1 ≡ w = omega arith in rw e

digits_small : (w n : ℕ) → n < 10 → digits (suc w) n ≡ replicate w 48 ++ (48 + n) ∷ []
unfolding digits
digits_small w n h =
    let q : n / 10 ≡ 0 = omega arith in let r : n % 10 ≡ n = omega arith in rw (q, r, digits-zero w)

digits-suc : (w n : ℕ) → digits (suc w) n ≡ digits w (n / 10) ++ (48 + n % 10) ∷ []
unfolding digits
digits-suc w n = refl

-- A number that fits is padded to its last `w` digits.
pad-decimal : (w n : ℕ) → n < 10 ^ suc w → pad (suc w) (decimal n) ≡ digits (suc w) n
pad-decimal zero n h =
    let small : n < 10 = omega (arith, pow-suc 10 0) in
    rw (decimal_small n small, pad_one, digits_small zero n small)
pad-decimal (suc w) n h = elim (Bool-cases (ltb n 10)) [
  | inl small ↦ rw (decimal_small n (ground arith), pad_one, digits_small (suc w) n (ground arith))
  | inr big ↦ rw (
    decimal_big n (ground arith),
    pad-snoc,
    pad-decimal w (n / 10) (omega (arith, pow-suc 10 (suc w))),
    digits-suc (suc w) n,
  )
]

pub zero_pad-digits : (w n : ℕ) → n < 10 ^ suc w → zero_pad (suc w) n ≡ digits (suc w) n
unfolding zero_pad pad
zero_pad-digits w n h = pad-decimal w n h

-- Each character is an ASCII digit, and there are `w`.
pub digits-ascii : (w n : ℕ) → all (λ c. leb b'0' c && leb c b'9') (digits w n) ≡ true
unfolding digits
digits-ascii zero n = refl
digits-ascii (suc w) n =
    rw (all-append (λ c. leb b'0' c && leb c b'9') (digits w (n / 10)) ((48 + n % 10) ∷ []))
      (ground (arith, digits-ascii w (n / 10)))

pub length-digits : (w n : ℕ) → length (digits w n) ≡ w
unfolding digits
length-digits zero n = refl
length-digits (suc w) n =
    omega (arith, length-digits w (n / 10), length-append (digits w (n / 10)) ((48 + n % 10) ∷ []))
