-- ===== src/Naming/Display.antt =====
-- `validate_tailscale_display_name` against a description of a DNS label.
pub mod Laws
use deep_orc.Prelude.{
  nat_eq, length, all, Text, text_eq, ℕ, ◌+◌, ◌-◌, ◌≤◌, ◌≡◌, refl, ◌≢◌, true, [], ◌∷◌, arith,
}
use deep_orc.Naming.{is_alnum, is_label_char, matches_label_rest, matches_display_name}

-- The last character of a text that begins with `c`.
abbrev pub last : ℕ → Text → ℕ
last c [] = c
last c (d ∷ s) = last d s

-- A label of at most 63 letters, digits and hyphens, with no hyphen at either end.
abbrev pub IsLabel : Text → Type 0
IsLabel [] = ⊥
IsLabel (c ∷ s) =
    (length s ≤ 62)
    × (is_alnum c ≡ true)
    × (all is_label_char s ≡ true)
    × (is_alnum (last c s) ≡ true)

-- What the pattern accepts after the first character, if no newline stands last.
matches_label_rest_sound :
    (room d : ℕ) (s : Text)
    → matches_label_rest room (d ∷ s) ≡ true
    → last d s ≢ 10
    → (length s ≤ room) × (all is_label_char (d ∷ s) ≡ true) × (is_alnum (last d s) ≡ true)
unfolding matches_label_rest
matches_label_rest_sound room d [] h n = ground arith
matches_label_rest_sound room d (e ∷ []) h n = ground arith
matches_label_rest_sound room d (e ∷ f ∷ s) h n =
    ground (arith, matches_label_rest_sound (room - 1) e (f ∷ s))

matches_label_rest_complete :
    (room c : ℕ) (s : Text)
    → length s ≤ room + 1
    → all is_label_char s ≡ true
    → is_alnum (last c s) ≡ true
    → matches_label_rest room s ≡ true
unfolding matches_label_rest
matches_label_rest_complete room c [] l h a = refl
matches_label_rest_complete room c (d ∷ []) l h a = ground arith
matches_label_rest_complete room c (d ∷ e ∷ []) l h a = ground arith
matches_label_rest_complete room c (d ∷ e ∷ f ∷ s) l h a =
    ground (arith, matches_label_rest_complete (room - 1) d (e ∷ f ∷ s))

pub matches_display_name_sound :
    (c : ℕ) (s : Text) → matches_display_name (c ∷ s) ≡ true → last c s ≢ 10 → IsLabel (c ∷ s)
unfolding matches_display_name
matches_display_name_sound c [] h n = ground arith
matches_display_name_sound c (d ∷ s) h n = ground (arith, matches_label_rest_sound 61 d s)

pub matches_display_name_complete : (v : Text) → IsLabel v → matches_display_name v ≡ true
unfolding matches_display_name
matches_display_name_complete [] h = absurd h
matches_display_name_complete (c ∷ s) h = ground (arith, matches_label_rest_complete 61 c s)
