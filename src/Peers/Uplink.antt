-- ===== src/Peers/Uplink.antt =====
-- The line of `exit.env` that names the uplink.
use deep_orc.Prelude.{
  Bool-cases, ◌==◌, nat_eq, beq_refl, all, any, select, any-append, Text, text_eq, ◌≡◌, refl, ap,
  ◌∙◌, inl, inr, Bool, true, false, not, List, [], ◌∷◌, ◌++◌, arith,
}
use deep_orc.Database.{
  gateway_keyed, job_keyed, peer_keyed, group_keyed, worker_keyed, enrollment_keyed,
  registration_keyed,
}
use deep_orc.Peers.{
  uplink_prefix, starts_with, is_uplink, uplink_line, replace_uplink, set_uplink_lines,
}

starts_with-prefix : (prefix rest : Text) → starts_with prefix (prefix ++ rest) ≡ true
starts_with-prefix [] rest = refl
starts_with-prefix (c ∷ prefix) rest = ground (arith, starts_with-prefix prefix rest)

uplink_line-is_uplink : (key : Text) → is_uplink (uplink_line key) ≡ true
unfolding is_uplink uplink_line
uplink_line-is_uplink key = starts_with-prefix uplink_prefix key

-- The first line that names an uplink.
abbrev pub uplinks : List Text → List Text
uplinks lines = select is_uplink lines

abbrev pub others : List Text → List Text
others lines = select (λ line. not (is_uplink line)) lines

replace_uplink-found :
    (key : Text) (lines : List Text) → (replace_uplink key lines).1 ≡ any is_uplink lines
replace_uplink-found key [] = refl
replace_uplink-found key (line ∷ lines) = ground (arith, replace_uplink-found key lines)

replace_uplink-others :
    (key : Text) (lines : List Text) → others (replace_uplink key lines).0 ≡ others lines
replace_uplink-others key [] = refl
replace_uplink-others key (line ∷ lines) =
    ground (arith, replace_uplink-others key lines, uplink_line-is_uplink key)

replace_uplink-uplinks :
    (key : Text) (lines : List Text)
    → all (λ line. line == uplink_line key) (uplinks (replace_uplink key lines).0) ≡ true
replace_uplink-uplinks key [] = refl
replace_uplink-uplinks key (line ∷ lines) =
    ground (
      arith,
      replace_uplink-uplinks key lines,
      uplink_line-is_uplink key,
      beq_refl (uplink_line key),
    )

replace_uplink-any :
    (key : Text) (lines : List Text)
    → any is_uplink (replace_uplink key lines).0 ≡ any is_uplink lines
replace_uplink-any key [] = refl
replace_uplink-any key (line ∷ lines) =
    ground (arith, replace_uplink-any key lines, uplink_line-is_uplink key)

select-append :
    (q : Text → Bool) (xs ys : List Text) → select q (xs ++ ys) ≡ select q xs ++ select q ys
select-append q [] ys = refl
select-append q (x ∷ xs) ys = ground (arith, select-append q xs ys)

uplinks-none : (lines : List Text) → any is_uplink lines ≡ false → uplinks lines ≡ []
uplinks-none [] h = refl
uplinks-none (line ∷ lines) h = ground (arith, uplinks-none lines)

append-nil : (xs : List Text) → xs ++ [] ≡ xs
append-nil [] = refl
append-nil (x ∷ xs) = ap (λ ys. x ∷ ys) (append-nil xs)

replace_uplink-none :
    (key : Text) (lines : List Text)
    → any is_uplink lines ≡ false
    → (replace_uplink key lines).0 ≡ lines
replace_uplink-none key [] h = refl
replace_uplink-none key (line ∷ lines) h = ground (arith, replace_uplink-none key lines)

-- The file names one uplink at least, and no other than the key's; its other lines are what they
-- were, in their order.
pub set_uplink_lines-uplinks :
    (key : Text) (lines : List Text)
    → (any is_uplink (set_uplink_lines key lines) ≡ true)
      × (all (λ line. line == uplink_line key) (uplinks (set_uplink_lines key lines)) ≡ true)
      × (others (set_uplink_lines key lines) ≡ others lines)
unfolding set_uplink_lines
set_uplink_lines-uplinks key lines = elim (Bool-cases (any is_uplink lines)) [
  | inl found ↦
      rw (replace_uplink-found key lines, found)
        (
          replace_uplink-any key lines ∙ found,
          replace_uplink-uplinks key lines,
          replace_uplink-others key lines,
        )
  | inr missing ↦
      rw (replace_uplink-found key lines, missing)
        (rw
          (
            replace_uplink-none key lines missing,
            any-append is_uplink lines (uplink_line key ∷ []),
            select-append is_uplink lines (uplink_line key ∷ []),
            select-append (λ line. not (is_uplink line)) lines (uplink_line key ∷ []),
            uplinks-none lines missing,
            uplink_line-is_uplink key,
            missing,
            append-nil (others lines),
          )
          (ground (arith, beq_refl (uplink_line key))))
]
