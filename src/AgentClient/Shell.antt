-- ===== src/AgentClient/Shell.antt =====
-- How a POSIX shell reads the words of a simple command: a reference for the scripts, independent
-- of how they are made. Commands with any operator, expansion or double quote are refused.
use deep_orc.Prelude.{
  leb, if◌then◌else◌, ◌==◌, nat_eq, Text, text_eq, ℕ, Bool, ◌&&◌, ◌||◌, Option, none, some, List,
  [], ◌∷◌, ◌++◌,
}
use deep_orc.Database.{
  gateway_keyed, job_keyed, peer_keyed, group_keyed, worker_keyed, enrollment_keyed,
  registration_keyed,
}
use deep_orc.Session.Rules.{whole}
use deep_orc.Agent.RuleLog.{words_eq}

pub data Mode : Type 0 where
  between : Mode
  within : Mode
  in_quotes : Mode
  escaped : Mode

-- What a character does: it is refused, or goes on with a word, or ends one.
pub data Shift : Type 0 where
  refuse : Shift
  go : Mode → Text → Shift
  emit : Text → Shift

-- Letters, digits and the punctuation that means nothing to the shell.
abbrev pub is_plain : ℕ → Bool
is_plain c =
    (leb b'a' c && leb c b'z')
    || (leb b'A' c && leb c b'Z')
    || (leb b'-' c && leb c b'9')
    || c == b'='
    || c == b'_'
    || c == b':'

abbrev pub shift : Mode → Text → ℕ → Shift
shift in_quotes word c = if c == 39 then go within word else go in_quotes (word ++ c ∷ [])
shift escaped word c = go within (word ++ c ∷ [])
shift between word c =
    if c == 32
    then go between []
    else if c == 39
    then go in_quotes word
    else if c == 92
    then go escaped word
    else if is_plain c
    then go within (word ++ c ∷ [])
    else refuse
shift within word c =
    if c == 32
    then emit word
    else if c == 39
    then go in_quotes word
    else if c == 92
    then go escaped word
    else if is_plain c
    then go within (word ++ c ∷ [])
    else refuse

abbrev pub last_words : Mode → Text → Option (List Text)
last_words between word = some []
last_words within word = some (word ∷ [])
last_words in_quotes word = none
last_words escaped word = none

abbrev pub put_first : Text → Option (List Text) → Option (List Text)
put_first word none = none
put_first word (some rest) = some (word ∷ rest)

unfoldable pub read_words : Mode → Text → Text → Option (List Text)
read_words mode word [] = last_words mode word
read_words mode word (c ∷ s) = elim (shift mode word c) [
  | refuse ↦ none
  | go next more ↦ read_words next more s
  | emit whole ↦ put_first whole (read_words between [] s)
]

unfoldable pub shell_words : Text → Option (List Text)
unfolding read_words
shell_words s = read_words between [] s
