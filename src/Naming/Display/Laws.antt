-- ===== src/Naming/Display/Laws.antt =====
-- `str.strip` and `str.lower` in orchestrator/naming.py, and what a validated name is.
use mathlib.Core.List.{reverse, reverse-cons, reverse-reverse}
use deep_orc.Prelude.{
  ltb, Bool-cases, nat_eq, all, any, Text, text_eq, is_space, drop_spaces, strip, ℕ, ◌≡◌, refl, sym,
  ap, ◌∙◌, subst, ◌≢◌, ◌↔◌, inl, inr, true, false, [], ◌∷◌, ◌++◌, map, arith,
}
use deep_orc.Naming.{
  Unicode, is_upper, lower_ascii, lower, normalize_tailscale_display_name, valid, is_label_char,
  check_display_name, validate_tailscale_display_name,
}
use deep_orc.Naming.Display.{
  last, IsLabel, matches_display_name_sound, matches_display_name_complete,
}

-- What the documentation of `str.lower` says of a text that is not all ASCII: no character of the
-- result has a lower case, and a newline comes from a newline.
pub record LowerLaws (u : Unicode) : Type 0 where
  pub no_upper : (s : Text) → any is_upper (u.lower_text s) ≡ false
  pub last_newline :
      (s : Text) (c : ℕ) (t : Text)
      → u.lower_text s ≡ c ∷ t
      → last c t ≡ 10
      → (d : ℕ) × (r : Text) × (s ≡ d ∷ r) × (last d r ≡ 10)

snoc-last : (t : Text) (c : ℕ) → (d : ℕ) × (r : Text) × (t ++ c ∷ [] ≡ d ∷ r) × (last d r ≡ c)
snoc-last [] c = (c, [], refl, refl)
snoc-last (b ∷ t) c = let (d, r, e, l) = snoc-last t c in (b, t ++ c ∷ [], refl, rw e l)

last-reverse :
    (c : ℕ) (s : Text) → (d : ℕ) × (r : Text) × (reverse (c ∷ s) ≡ d ∷ r) × (last d r ≡ c)
last-reverse c s = let (d, r, e, l) = snoc-last (reverse s) c in (d, r, reverse-cons c s ∙ e, l)

reverse-last : (c : ℕ) (s : Text) → (r : Text) × (reverse (c ∷ s) ≡ last c s ∷ r)
reverse-last c [] = ([], refl)
reverse-last c (d ∷ s) =
    let (r, e) = reverse-last d s in
    (r ++ c ∷ [], reverse-cons c (d ∷ s) ∙ ap (λ (t : Text). t ++ c ∷ []) e)

drop_spaces_head : (s : Text) (c : ℕ) (t : Text) → drop_spaces s ≡ c ∷ t → is_space c ≡ false
unfolding drop_spaces
drop_spaces_head [] c t h = cc
drop_spaces_head (d ∷ s) c t h = elim (Bool-cases (is_space d)) [
  | inl space ↦ drop_spaces_head s c t (rw space at h)
  | inr visible ↦ ground arith
]

-- A stripped text does not end in white space.
strip-last : (s : Text) (c : ℕ) (t : Text) → strip s ≡ c ∷ t → is_space (last c t) ≡ false
unfolding strip
strip-last s c t h = by_head (drop_spaces (reverse (drop_spaces s))) refl h
  where
    by_head :
        (k : Text)
        → drop_spaces (reverse (drop_spaces s)) ≡ k
        → reverse k ≡ c ∷ t
        → is_space (last c t) ≡ false
    by_head [] e h = cc
    by_head (d ∷ k) e h =
        let (x, r, f, l) = last-reverse d k in
        let g : last c t ≡ d = ground (arith, f, l, h) in
        rw g (drop_spaces_head (reverse (drop_spaces s)) d k e)

drop_spaces-cons : (c : ℕ) (s : Text) → is_space c ≡ false → drop_spaces (c ∷ s) ≡ c ∷ s
unfolding drop_spaces
drop_spaces-cons c s h = rw h

strip_idle :
    (c : ℕ) (s : Text) → is_space c ≡ false → is_space (last c s) ≡ false → strip (c ∷ s) ≡ c ∷ s
unfolding strip
strip_idle c s h l =
    let (r, e) = reverse-last c s in
    rw (drop_spaces-cons c s h, e, drop_spaces-cons (last c s) r l, ← e) (reverse-reverse (c ∷ s))

last-map : (c : ℕ) (s : Text) → last (lower_ascii c) (map lower_ascii s) ≡ lower_ascii (last c s)
last-map c [] = refl
last-map c (d ∷ s) = last-map d s

pub lower_ascii_newline :
    (s : Text) (c : ℕ) (t : Text)
    → map lower_ascii s ≡ c ∷ t
    → last c t ≡ 10
    → (d : ℕ) × (r : Text) × (s ≡ d ∷ r) × (last d r ≡ 10)
lower_ascii_newline [] c t h l = cc
lower_ascii_newline (d ∷ s) c t h l = (d, s, refl, ground (arith, last-map d s))

pub lower_ascii_no_upper : (s : Text) → any is_upper (map lower_ascii s) ≡ false
lower_ascii_no_upper [] = refl
lower_ascii_no_upper (c ∷ s) = ground (arith, lower_ascii_no_upper s)

lower_ascii_idle : (s : Text) → any is_upper s ≡ false → map lower_ascii s ≡ s
lower_ascii_idle [] h = refl
lower_ascii_idle (c ∷ s) h = ground (arith, lower_ascii_idle s)

label_chars_ascii : (s : Text) → all is_label_char s ≡ true → all (λ c. ltb c 128) s ≡ true
label_chars_ascii [] h = refl
label_chars_ascii (c ∷ s) h = ground (arith, label_chars_ascii s)

newline_not_space : (c : ℕ) → c ≡ 10 → is_space c ≡ false → ⊥
newline_not_space c e h = cc (subst (λ (k : ℕ). is_space k ≡ false) e h)

module _ (u : Unicode) (laws : LowerLaws u) where
  lower-newline :
      (s : Text) (c : ℕ) (t : Text)
      → lower u s ≡ c ∷ t
      → last c t ≡ 10
      → (d : ℕ) × (r : Text) × (s ≡ d ∷ r) × (last d r ≡ 10)
  unfolding lower
  lower-newline s c t h l = elim (Bool-cases (all (λ c. ltb c 128) s)) [
    | inl ascii ↦ lower_ascii_newline s c t (rw ascii at h) l
    | inr other ↦ laws.last_newline s c t (rw other at h) l
  ]

  lower_no_upper : (s : Text) → any is_upper (lower u s) ≡ false
  unfolding lower
  lower_no_upper s = elim (Bool-cases (all (λ c. ltb c 128) s)) [
    | inl ascii ↦ rw ascii (lower_ascii_no_upper s)
    | inr other ↦ rw other (laws.no_upper s)
  ]

  normalized-last :
      (name : Text) (c : ℕ) (t : Text)
      → normalize_tailscale_display_name u name ≡ c ∷ t
      → last c t ≢ 10
  unfolding normalize_tailscale_display_name
  normalized-last name c t h n =
      let (d, r, e, l) = lower-newline (strip name) c t h n in
      newline_not_space (last d r) l (strip-last name d r e)

  -- A label passes the checks unchanged, and what passes them is a label.
  check-label : (v : Text) → IsLabel v → check_display_name v ≡ valid v
  unfolding check_display_name
  check-label [] h = absurd h
  check-label (c ∷ s) h = ground (arith, matches_display_name_complete (c ∷ s) h)

  check_display_name-IsLabel :
      (w v : Text)
      → ((c : ℕ) (t : Text) → w ≡ c ∷ t → last c t ≢ 10)
      → check_display_name w ≡ valid v
      → (v ≡ w) × IsLabel w
  unfolding check_display_name
  check_display_name-IsLabel [] v n h = ground arith
  check_display_name-IsLabel (c ∷ s) v n h =
      (ground arith, matches_display_name_sound c s (ground arith) (n c s refl))

  -- A name is accepted exactly when its normalized form is a label, and the answer is that form.
  pub validate_tailscale_display_name-valid_iff :
      (name v : Text)
      → (validate_tailscale_display_name u name ≡ valid v)
        ↔ ((v ≡ normalize_tailscale_display_name u name) × IsLabel v)
  unfolding validate_tailscale_display_name
  validate_tailscale_display_name-valid_iff name v = (
    λ h.
        let (e, l) =
          check_display_name-IsLabel (normalize_tailscale_display_name u name) v
            (normalized-last name) h in
        (e, subst IsLabel (sym e) l),
    λ p. rw (← p.0) (check-label v p.1),
  )

  lower_idle :
      (c : ℕ) (s : Text) → any is_upper (c ∷ s) ≡ false → IsLabel (c ∷ s) → lower u (c ∷ s) ≡ c ∷ s
  unfolding lower
  lower_idle c s n h =
      let a : all (λ c. ltb c 128) (c ∷ s) ≡ true = label_chars_ascii (c ∷ s) (ground arith) in
      rw a (lower_ascii_idle (c ∷ s) n)

  normalize-label :
      (v : Text) → any is_upper v ≡ false → IsLabel v → normalize_tailscale_display_name u v ≡ v
  unfolding normalize_tailscale_display_name
  normalize-label [] n h = absurd h
  normalize-label (c ∷ s) n h =
      rw (strip_idle c s (ground arith) (ground arith)) (lower_idle c s n h)

  normalize_no_upper :
      (name : Text) → any is_upper (normalize_tailscale_display_name u name) ≡ false
  unfolding normalize_tailscale_display_name
  normalize_no_upper name = lower_no_upper (strip name)

  -- An accepted name is a fixed point: validating it again gives it back.
  pub validate_tailscale_display_name_idem :
      (name v : Text)
      → validate_tailscale_display_name u name ≡ valid v
      → validate_tailscale_display_name u v ≡ valid v
  validate_tailscale_display_name_idem name v h =
      let (e, l) = (validate_tailscale_display_name-valid_iff name v).0 h in
      let n : any is_upper v ≡ false = rw e (normalize_no_upper name) in
      (validate_tailscale_display_name-valid_iff v v).1 (sym (normalize-label v n l), l)
