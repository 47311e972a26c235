-- ===== src/Agent/RuleLog.antt =====
-- The routing rules that a machine was asked to add: beside the machine, a record of every
-- `ip rule add` that was run, with the exit code it gave. What the kernel makes of a rule is not
-- said here.
use deep_orc.Prelude.{
  if◌then◌else◌, Comparable, ◌==◌, nat_eq, list_beq, list_beq_iff, Text, codes, text_eq, ℕ, ◌≡◌,
  Bool, true, false, ◌&&◌, Option, none, some, List, [], ◌∷◌, ◌++◌,
}
use deep_orc.Effects.{ok}
use deep_orc.Agent.{Completed}
use deep_orc.Database.{
  gateway_keyed, job_keyed, peer_keyed, group_keyed, worker_keyed, enrollment_keyed,
  registration_keyed,
}
use deep_orc.Agent.Reading.{words}
use deep_orc.Agent.Routing.{Machine, Rule}

instance abbrev pub words_eq : Comparable (List Text)
words_eq = record { beq = list_beq; beq_iff = list_beq_iff }

abbrev pub add_command : Rule → List Text
add_command rule = words "ip rule add pref" ++ rule

abbrev pub delete_command : Rule → List Text
delete_command rule = words "ip rule del pref" ++ rule

-- The rule that a command adds.
unfoldable pub addition : List Text → Option Rule
addition (a ∷ b ∷ c ∷ d ∷ rule) =
    if a == codes "ip" && b == codes "rule" && c == codes "add" && d == codes "pref"
    then some rule
    else none
addition _ = none

abbrev pub is_apart : List Text → Bool
is_apart command = elim (addition command) [ none ↦ true | some rule ↦ false ]

pub record RuleLog {W : Type 0} (m : Machine W) : Type 0 where
  pub added : W → List (Rule × ℕ)
  pub run_keeps :
      (command : List Text) (w : W)
      → is_apart command ≡ true
      → added (m.processes.run command w).1 ≡ added w
  pub append_keeps : (path text : Text) (w : W) → added (m.append_text path text w).1 ≡ added w
  pub run_adds :
      (rule : Rule) (w : W) (c : Completed)
      → (m.processes.run (add_command rule) w).0 ≡ ok c
      → added (m.processes.run (add_command rule) w).1 ≡ added w ++ (rule, c.returncode) ∷ []
