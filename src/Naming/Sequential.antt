-- ===== src/Naming/Sequential.antt =====
-- The names that `next_sequential_name` hands out.
use deep_orc.Prelude.{
  leb, Option-cases, nat_eq, length, all, contains, find_from, find_from-IsFirstFree,
  find_from_room, Text, text_eq, digits, digits-injective, zero_pad-digits, digits-ascii,
  length-digits, ℕ, suc, ◌^◌, ◌<◌, ◌≡◌, inl, inr, Bool, true, false, ◌&&◌, some, List, [], ◌∷◌,
  ◌++◌, arith,
}
use deep_orc.Naming.{
  Unicode, gateway_prefix, exit_node_prefix, format_sequential_name, next_sequential_name,
  three_digits, is_gateway_name, is_exit_node_name,
}

-- What a name handed out is: the first of the sequence that is not taken.
pub record IsNextName (prefix : Text) (taken : List Text) (width : ℕ) (name : Text) : Type 0 where
  pub index : ℕ
  pub fits : index < 10 ^ width
  pub is_format : name ≡ format_sequential_name prefix index width
  pub is_free : contains taken name ≡ false
  pub is_least : (j : ℕ) → j < index → contains taken (format_sequential_name prefix j width) ≡ true

append_cancel : (p s t : Text) → p ++ s ≡ p ++ t → s ≡ t
append_cancel [] s t h = h
append_cancel (c ∷ p) s t h = append_cancel p s t (cc)

-- Two indexes that fit the width have different names.
pub format_sequential_name-injective :
    (prefix : Text) (w i j : ℕ)
    → i < 10 ^ suc w
    → j < 10 ^ suc w
    → format_sequential_name prefix i (suc w) ≡ format_sequential_name prefix j (suc w)
    → i ≡ j
unfolding format_sequential_name
format_sequential_name-injective prefix w i j hi hj h =
    digits-injective (suc w) i j hi hj
      (append_cancel prefix _ _ (rw (zero_pad-digits w i hi, zero_pad-digits w j hj) at h))

-- A name that is handed out is the first one of the sequence that is not taken.
pub next_sequential_name-IsNextName :
    (prefix : Text) (taken : List Text) (width : ℕ) (name : Text)
    → next_sequential_name prefix taken width ≡ some name
    → IsNextName prefix taken width name
unfolding next_sequential_name
next_sequential_name-IsNextName prefix taken width name h =
    elim (Option-cases (find_from (is_taken) (10 ^ width) 0)) [
      | inl e ↦ ground arith
      | inr (k, e) ↦
          let f = find_from-IsFirstFree is_taken (10 ^ width) 0 k e in
          let n : name ≡ format_sequential_name prefix k width = ground arith in
          record {
            index = k;
            fits = omega (arith, f.below);
            is_format = n;
            is_free = rw n f.free;
            is_least = λ j l. f.least j (omega arith) l;
          }
    ]
  where
    is_taken : ℕ → Bool
    is_taken index = contains taken (format_sequential_name prefix index width)

-- While fewer names are taken than the width has, a name is found.
pub next_sequential_name_total :
    (prefix : Text) (taken : List Text) (w : ℕ)
    → length taken < 10 ^ suc w
    → (name : Text) × (next_sequential_name prefix taken (suc w) ≡ some name)
unfolding next_sequential_name
next_sequential_name_total prefix taken w h =
    let (k, e) =
      find_from_room (λ i. format_sequential_name prefix i (suc w)) taken (10 ^ suc w) 0
        (λ i j a b c same. absurd (
          omega (
            arith,
            format_sequential_name-injective prefix w i j (omega arith) (omega arith) same,
          )))
        h in
    (format_sequential_name prefix k (suc w), rw (e, next_sequential_name))

-- While fewer names are taken than the width has numbers, a name is handed out, and it is the first
-- one of the sequence that is not taken.
pub next_sequential_name_first :
    (prefix : Text) (taken : List Text) (w : ℕ)
    → length taken < 10 ^ suc w
    → (name : Text) × (next_sequential_name prefix taken (suc w) ≡ some name)
      × IsNextName prefix taken (suc w) name
next_sequential_name_first prefix taken w h =
    let (name, found) = next_sequential_name_total prefix taken w h in
    (name, found, next_sequential_name-IsNextName prefix taken (suc w) name found)

three_ascii_digits :
    (u : Unicode) (s : Text)
    → length s ≡ 3
    → all (λ c. leb b'0' c && leb c b'9') s ≡ true
    → three_digits u s ≡ true
unfolding three_digits
three_ascii_digits u (a ∷ b ∷ c ∷ []) l h = ground arith
three_ascii_digits u [] l h = absurd (omega arith)
three_ascii_digits u (a ∷ []) l h = absurd (omega arith)
three_ascii_digits u (a ∷ b ∷ []) l h = absurd (omega arith)
three_ascii_digits u (a ∷ b ∷ c ∷ d ∷ s) l h = absurd (omega arith)

-- Every generated name of width 3 has the form that the recognisers test for.
pub generated_names_recognised :
    (u : Unicode) (i : ℕ)
    → i < 1000
    → (is_gateway_name u (format_sequential_name gateway_prefix i 3) ≡ true)
      × (is_exit_node_name u (format_sequential_name exit_node_prefix i 3) ≡ true)
unfolding is_gateway_name is_exit_node_name format_sequential_name
generated_names_recognised u i h =
    let d = three_ascii_digits u (digits 3 i) (length-digits 3 i) (digits-ascii 3 i) in
    rw (zero_pad-digits 2 i h) (d, d)
