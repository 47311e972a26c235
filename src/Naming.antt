-- ===== src/Naming.antt =====
-- orchestrator/naming.py: sequential gateway and exit-node names, and the names users choose.
-- An exception is `none`. What is known of characters outside ASCII is the parameter `Unicode`.
pub mod Sequential
pub mod Display
use mathlib.Core.List.{reverse}
use deep_orc.Prelude.{
  ltb, leb, if◌then◌else◌, ◌==◌, nat_eq, length, all, select, contains, find_from, Text, codes,
  text_eq, is_empty, strip, zero_pad, ℕ, ◌+◌, ◌-◌, ◌^◌, Bool, true, false, not, ◌&&◌, ◌||◌, Option,
  none, some, List, [], ◌∷◌, ◌++◌, map,
}

-- Unicode's tables, for what ASCII does not settle: which code points from 128 on are decimal
-- digits (`\d` of a `str` pattern), and `str.lower()` of a text that is not all ASCII.
pub record Unicode : Type 0 where
  pub decimal_digit : ℕ → Bool
  pub lower_text : Text → Text

abbrev pub gateway_prefix : Text
gateway_prefix = codes "gw-"

abbrev pub exit_node_prefix : Text
exit_node_prefix = codes "ex-"

abbrev pub sequential_width : ℕ
sequential_width = 3

unfoldable pub format_sequential_name : Text → ℕ → ℕ → Text
format_sequential_name prefix index width = prefix ++ zero_pad width index

-- The loop tries every index below `10**width`; the `ValueError` is `none`.
unfoldable pub next_sequential_name : Text → List Text → ℕ → Option Text
next_sequential_name prefix taken width =
    let limit = 10 ^ width in
    elim (find_from (λ index. contains taken (format_sequential_name prefix index width)) limit 0) [
      | none ↦ none
      | some index ↦ some (format_sequential_name prefix index width)
    ]

abbrev pub is_ascii_digit : ℕ → Bool
is_ascii_digit c = leb b'0' c && leb c b'9'

-- `\d`
abbrev pub is_digit : Unicode → ℕ → Bool
is_digit u c = if ltb c 128 then is_ascii_digit c else u.decimal_digit c

-- `\d{3}$`: the `$` of a pattern also stands before a newline at the end.
unfoldable pub three_digits : Unicode → Text → Bool
three_digits u (a ∷ b ∷ c ∷ []) = is_digit u a && is_digit u b && is_digit u c
three_digits u (a ∷ b ∷ c ∷ d ∷ []) = is_digit u a && is_digit u b && is_digit u c && d == 10
three_digits u _ = false

-- `^<prefix>\d{3}$`
unfoldable pub matches_name : Unicode → Text → Text → Bool
unfolding three_digits
matches_name u [] name = three_digits u name
matches_name u (p ∷ ps) [] = false
matches_name u (p ∷ ps) (c ∷ cs) = c == p && matches_name u ps cs

unfoldable pub is_gateway_name : Unicode → Text → Bool
unfolding matches_name
is_gateway_name u name = matches_name u gateway_prefix name

unfoldable pub is_exit_node_name : Unicode → Text → Bool
unfolding matches_name
is_exit_node_name u name = matches_name u exit_node_prefix name

abbrev pub is_upper : ℕ → Bool
is_upper c = leb b'A' c && leb c b'Z'

abbrev pub is_alnum : ℕ → Bool
is_alnum c = is_ascii_digit c || is_upper c || (leb b'a' c && leb c b'z')

abbrev pub lower_ascii : ℕ → ℕ
lower_ascii c = if is_upper c then c + 32 else c

-- `str.lower()`
unfoldable pub lower : Unicode → Text → Text
lower u s = if all (λ c. ltb c 128) s then map lower_ascii s else u.lower_text s

unfoldable pub normalize_tailscale_display_name : Unicode → Text → Text
normalize_tailscale_display_name u name = lower u (strip name)

pub data NameError : Type 0 where
  empty_name too_long bad_characters : NameError

pub data NameResult : Type 0 where
  valid : Text → NameResult
  invalid : NameError → NameResult

abbrev pub is_label_char : ℕ → Bool
is_label_char c = is_alnum c || c == b'-'

-- `(?:[a-zA-Z0-9-]{0,61}[a-zA-Z0-9])?$` after the first character, `room` of at most 61
-- characters before the last one; a newline may stand after the last one.
unfoldable pub matches_label_rest : ℕ → Text → Bool
matches_label_rest room [] = true
matches_label_rest room (c ∷ []) = is_alnum c || c == 10
matches_label_rest room (c ∷ d ∷ []) =
    (is_alnum c && d == 10) || (ltb 0 room && is_label_char c && is_alnum d)
matches_label_rest room (c ∷ d ∷ e ∷ s) =
    let rest = matches_label_rest (room - 1) (d ∷ e ∷ s) in ltb 0 room && is_label_char c && rest

-- `TAILSCALE_DISPLAY_NAME_RE.match(value)`
unfoldable pub matches_display_name : Text → Bool
unfolding matches_label_rest
matches_display_name [] = false
matches_display_name (c ∷ s) = is_alnum c && matches_label_rest 61 s

-- The tests on the normalized value.
unfoldable pub check_display_name : Text → NameResult
check_display_name value =
    if is_empty value
    then invalid empty_name
    else if ltb 63 (length value)
    then invalid too_long
    else if not (matches_display_name value)
    then invalid bad_characters
    else valid value

unfoldable pub validate_tailscale_display_name : Unicode → Text → NameResult
validate_tailscale_display_name u name =
    check_display_name (normalize_tailscale_display_name u name)

-- A node as Headscale's API gives it: its four names, as they are there.
pub record NodeNames : Type 0 where
  pub given_name : Option Text
  pub given_name_camel : Option Text
  pub name : Option Text
  pub hostname : Option Text

-- The first value that is there and not empty.
abbrev pub first_name : List (Option Text) → Text
first_name [] = []
first_name (none ∷ values) = first_name values
first_name (some value ∷ values) = if is_empty value then first_name values else value

unfoldable pub headscale_node_name : NodeNames → Text
headscale_node_name node =
    first_name (node.given_name ∷ node.given_name_camel ∷ node.name ∷ node.hostname ∷ [])

unfoldable pub collect_exit_node_names : Unicode → List NodeNames → List Text
collect_exit_node_names u nodes = select (is_exit_node_name u) (map headscale_node_name nodes)

-- A set is the list of its members.
unfoldable pub collect_gateway_names : Unicode → List NodeNames → List Text → List Text
collect_gateway_names u nodes extra =
    select (is_gateway_name u) (map headscale_node_name nodes) ++ extra
