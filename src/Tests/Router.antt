-- ===== src/Tests/Router.antt =====
-- A machine that keeps the rules that it was asked to add, and carries out every command.
use deep_orc.Prelude.{
  Option-cases, nat_eq, Text, codes, text_eq, split_words, ℕ, ◌≡◌, refl, inl, inr, true, false,
  none, some, List, [], ◌∷◌, ◌++◌,
}
use deep_orc.Effects.{ok}
use deep_orc.Agent.{Completed}
use deep_orc.Database.{
  gateway_keyed, job_keyed, peer_keyed, group_keyed, worker_keyed, enrollment_keyed,
  registration_keyed,
}
use deep_orc.Agent.Routing.{Machine, Rule}
use deep_orc.Agent.RuleLog.{words_eq, addition, is_apart, RuleLog}

abbrev pub Kept : Type 0
Kept = List (Rule × ℕ)

abbrev pub printed : Completed
printed = record { returncode = 0; stdout = codes "4: wg0 inet 10.10.0.5/24 scope global" }

unfoldable pub kept : List Text → Kept → Kept
unfolding addition
kept command rules = elim (addition command) [ none ↦ rules | some rule ↦ rules ++ (rule, 0) ∷ [] ]

abbrev pub router : Machine Kept
router = record {
  processes = record { run = λ command rules. (ok printed, kept command rules) };
  is_file = λ path rules. false;
  append_text = λ path text rules. (ok tt, rules);
  write_text = λ path text rules. (ok tt, rules);
  unlink = λ path rules. (ok tt, rules);
  loads = λ s. none;
  is_digit = λ c. false;
}

kept-apart :
    (command : List Text) (rules : Kept) → is_apart command ≡ true → kept command rules ≡ rules
unfolding kept
kept-apart command rules h = elim (Option-cases (addition command)) [
  | inl nothing ↦ rw (nothing, kept) refl
  | inr (rule, adds) ↦ let apart : false ≡ true = rw (adds, is_apart) at h in cc
]

kept-adds :
    (rule : Rule) (rules : Kept) (c : Completed)
    → ok printed ≡ ok c
    → kept (codes "ip" ∷ codes "rule" ∷ codes "add" ∷ codes "pref" ∷ rule) rules
      ≡ rules ++ (rule, c.returncode) ∷ []
unfolding kept addition
kept-adds rule rules c h = let same : printed ≡ c = cc in rw (← same) refl

pub log : RuleLog router
unfolding split_words
log = record {
  added = λ rules. rules;
  run_keeps = λ command rules h. kept-apart command rules h;
  append_keeps = λ path text rules. refl;
  run_adds = λ rule rules c h. kept-adds rule rules c h;
}
