-- ===== src/Agent/Reading.antt =====
-- How gateway_agent/tailscale_handler.py reads what `ip` prints.
use Prim.Native.String.{String}
use deep_orc.Prelude.{
  if◌then◌else◌, ◌==◌, nat_eq, Text, codes, text_eq, is_empty, is_space, starts_with, split_words,
  ℕ, true, false, Option, none, some, List, [], ◌∷◌, ◌++◌,
}
use deep_orc.Models.{bad_address, value_error}
use deep_orc.Effects.{Result, ok, err}
use deep_orc.Database.{
  gateway_keyed, job_keyed, peer_keyed, group_keyed, worker_keyed, enrollment_keyed,
  registration_keyed,
}

-- A command that is written in one line.
abbrev pub words : String → List Text
words s = split_words (codes s)

-- `\S+`
unfoldable pub word_at : Text → Text
word_at [] = []
word_at (c ∷ s) = if is_space c then [] else c ∷ word_at s

abbrev pub some_word : Text → Option Text
some_word s = if is_empty (word_at s) then none else some (word_at s)

unfoldable pub after_prefix : Text → Text → Option Text
after_prefix [] s = some s
after_prefix (p ∷ prefix) [] = none
after_prefix (p ∷ prefix) (c ∷ s) = if c == p then after_prefix prefix s else none

-- `re.search`: the leftmost place where the pattern matches, and its group.
unfoldable pub search_for : (Text → Option Text) → Text → Option Text
search_for pattern [] = pattern []
search_for pattern (c ∷ s) = elim (pattern (c ∷ s)) [
  | some word ↦ some word
  | none ↦ search_for pattern s
]

abbrev pub spaced_word : Text → Option Text
spaced_word [] = none
spaced_word (c ∷ s) = if is_space c then some_word s else none

-- `\sinet\s(\S+)`
abbrev pub inet_pattern : Text → Option Text
inet_pattern [] = none
inet_pattern (c ∷ s) =
    if is_space c
    then elim (after_prefix (codes "inet") s) [ none ↦ none | some rest ↦ spaced_word rest ]
    else none

-- `default via (\S+)`
abbrev pub default_pattern : Text → Option Text
default_pattern s = elim (after_prefix (codes "default via ") s) [
  | none ↦ none
  | some rest ↦ some_word rest
]

unfoldable pub inet_address : Text → Option Text
unfolding search_for after_prefix word_at
inet_address line = search_for inet_pattern line

-- `s.split("/")[0]`
unfoldable pub before_slash : Text → Text
before_slash [] = []
before_slash (c ∷ s) = if c == b'/' then [] else c ∷ before_slash s

-- The first line that has what is looked for.
unfoldable pub first_line : (Text → Option Text) → List Text → Option Text
first_line read [] = none
first_line read (line ∷ lines) = elim (read line) [
  | some word ↦ some word
  | none ↦ first_line read lines
]

abbrev pub lan_address : Text → Option Text
lan_address line = elim (inet_address line) [
  | none ↦ none
  | some a ↦ if starts_with (codes "10.10.") a then some (before_slash a) else none
]

abbrev pub plain_address : Text → Option Text
plain_address line = elim (inet_address line) [ none ↦ none | some a ↦ some (before_slash a) ]

-- The word behind the first one like this that has one behind it.
unfoldable pub word_after : Text → List Text → Option Text
word_after word [] = none
word_after word (part ∷ parts) =
    let rest = word_after word parts in
    if part == word then elim parts [ [] ↦ rest | next ∷ more ↦ some next ] else rest

unfoldable pub pieces : ℕ → Text → Text → List Text
pieces separator piece [] = piece ∷ []
pieces separator piece (c ∷ s) = elim (c == separator) [
  | true ↦ piece ∷ pieces separator [] s
  | false ↦ pieces separator (piece ++ c ∷ []) s
]

abbrev pub network_of : List Text → Text → Result Text
network_of (a ∷ b ∷ c ∷ octets) prefix =
    ok (a ++ codes "." ++ b ++ codes "." ++ c ++ codes ".0/" ++ prefix)
network_of _ prefix = err (value_error bad_address)

abbrev pub subnet_parts : List Text → Result Text
subnet_parts (ip ∷ prefix ∷ []) = network_of (pieces b'.' [] ip) prefix
subnet_parts _ = err (value_error bad_address)

abbrev pub subnet_or_default : Option Text → Result Text
subnet_or_default none = ok (codes "10.64.2.0/24")
subnet_or_default (some address) = subnet_parts (pieces b'/' [] address)
