-- ===== src/Prelude/Strings.antt =====
-- Python's `str` as the list of its code points.
use Prim.Native.Nat.{ℕ}
use Prim.Native.Char.{code}
use Prim.Native.String.{String}
use mathlib.Core.Path.{◌≡◌, refl, subst}
use mathlib.Core.Logic.{◌↔◌}
use mathlib.Core.Bool.{Bool, true, false, ◌&&◌, ◌||◌}
use mathlib.Core.List.{List, [], ◌∷◌, ◌++◌, reverse}
use mathlib.Core.Option.{Option, none, some}
use native.Mathlib.Omega.{arith}
use deep_orc.Prelude.Tests.{Comparable, nat_eq, nat_beq_iff, ◌==◌, leb, if◌then◌else◌}

abbrev pub Text : Type 0
Text = List ℕ

-- A literal.
abbrev pub codes : String → Text
codes String.[] = []
codes (String.◌∷◌ c s) = code c ∷ codes s

abbrev pub text_beq : Text → Text → Bool
text_beq [] [] = true
text_beq [] (y ∷ ys) = false
text_beq (x ∷ xs) [] = false
text_beq (x ∷ xs) (y ∷ ys) = x == y && text_beq xs ys

text_beq_refl : (s : Text) → text_beq s s ≡ true
text_beq_refl [] = refl
text_beq_refl (x ∷ s) = ground (arith, nat_beq_iff x x, text_beq_refl s)

text_beq-eq : (s t : Text) → text_beq s t ≡ true → s ≡ t
text_beq-eq [] [] h = refl
text_beq-eq [] (y ∷ t) h = cc
text_beq-eq (x ∷ s) [] h = cc
text_beq-eq (x ∷ s) (y ∷ t) h = ground (arith, nat_beq_iff x y, text_beq-eq s t)

pub text_beq_iff : (s t : Text) → (text_beq s t ≡ true) ↔ (s ≡ t)
text_beq_iff s t = (text_beq-eq s t, λ e. subst (λ r. text_beq s r ≡ true) e (text_beq_refl s))

instance abbrev pub text_eq : Comparable Text
text_eq = record { beq = text_beq; beq_iff = text_beq_iff }

-- `if value` on a text
abbrev pub is_empty {ℓ} : {A : Type ℓ} → List A → Bool
is_empty [] = true
is_empty (x ∷ xs) = false

-- The code points that `str.strip()` removes.
abbrev pub is_space : ℕ → Bool
is_space c =
    (leb 9 c && leb c 13)
    || (leb 28 c && leb c 32)
    || c == 0x85
    || c == 0xa0
    || c == 0x1680
    || (leb 0x2000 c && leb c 0x200a)
    || c == 0x2028
    || c == 0x2029
    || c == 0x202f
    || c == 0x205f
    || c == 0x3000

unfoldable pub drop_spaces : Text → Text
drop_spaces [] = []
drop_spaces (c ∷ s) = if is_space c then drop_spaces s else c ∷ s

-- `str.strip()`
unfoldable pub strip : Text → Text
unfolding drop_spaces
strip s = reverse (drop_spaces (reverse (drop_spaces s)))

-- `s.startswith(prefix)`
abbrev pub starts_with : Text → Text → Bool
starts_with [] s = true
starts_with (p ∷ ps) [] = false
starts_with (p ∷ ps) (c ∷ cs) = c == p && starts_with ps cs

-- `part in s`
unfoldable pub contains_text : Text → Text → Bool
contains_text part [] = is_empty part
contains_text part (c ∷ s) = starts_with part (c ∷ s) || contains_text part s

words_from : Text → Text → List Text
words_from word [] = if is_empty word then [] else word ∷ []
words_from word (c ∷ s) = elim (is_space c) [
  | true ↦ let rest = words_from [] s in if is_empty word then rest else word ∷ rest
  | false ↦ words_from (word ++ c ∷ []) s
]

-- `s.split()`
unfoldable pub split_words : Text → List Text
unfolding words_from
split_words s = words_from [] s

abbrev is_line_end : ℕ → Bool
is_line_end c =
    (leb 10 c && leb c 13) || (leb 28 c && leb c 30) || c == 0x85 || c == 0x2028 || c == 0x2029

-- A line feed behind a carriage return ends no line of its own.
lines_from : Bool → Text → Text → List Text
lines_from returned line [] = if is_empty line then [] else line ∷ []
lines_from returned line (c ∷ s) = elim (returned && c == 10) [
  | true ↦ lines_from false line s
  | false ↦ elim (is_line_end c) [
    | true ↦ line ∷ lines_from (c == 13) [] s
    | false ↦ lines_from false (line ++ c ∷ []) s
  ]
]

-- `s.splitlines()`
unfoldable pub split_lines : Text → List Text
unfolding lines_from
split_lines s = lines_from false [] s

-- `words[-1]`
abbrev pub last_word : List Text → Option Text
last_word [] = none
last_word (s ∷ words) = elim words [ [] ↦ some s | t ∷ more ↦ last_word words ]

starts_with-append : (part s : Text) → starts_with part (part ++ s) ≡ true
starts_with-append [] s = refl
starts_with-append (c ∷ part) s = ground (arith, nat_beq_iff c c, starts_with-append part s)

pub contains_text-append :
    (before part after : Text) → contains_text part (before ++ (part ++ after)) ≡ true
unfolding contains_text
contains_text-append [] [] [] = refl
contains_text-append [] [] (c ∷ after) = refl
contains_text-append [] (c ∷ part) after = rw (starts_with-append (c ∷ part) after) refl
contains_text-append (b ∷ before) part after =
    ground (arith, contains_text-append before part after)
