-- ===== src/Agent/Policy/Commands.antt =====
-- Which routing rules single commands add.
use deep_orc.Prelude.{
  nat_beq_iff, Bool-cases, ◌==◌, nat_eq, Text, text_eq, split_words, ◌≡◌, refl, sym, ap, ◌∙◌, inl,
  inr, Bool, true, ◌&&◌, List, [], ◌∷◌, ◌++◌, append-nil,
}
use deep_orc.Effects.{Result, ok, Exec, pure, gets, lift_result, err_ne_ok, bind-IsBound}
use deep_orc.Agent.{Completed, finished}
use deep_orc.Database.{
  gateway_keyed, job_keyed, peer_keyed, group_keyed, worker_keyed, enrollment_keyed,
  registration_keyed,
}
use deep_orc.Agent.Routing.{
  Machine, Rule, run_command, run_optional, read_output, succeeds_with, ensure_ip_rule,
}
use deep_orc.Agent.RuleLog.{words_eq, add_command, delete_command, addition, is_apart, RuleLog}
use deep_orc.Agent.Policy.{Adds, Leaves, Leaves-bind, Adds-then}

module _ {W : Type 0} (m : Machine W) (log : RuleLog m) where
  pub Leaves-pure : {A : Type 0} (a : A) → Leaves m log (pure a)
  unfolding pure
  Leaves-pure a = record { at = λ w. refl }

  pub Leaves-gets : {A : Type 0} (f : W → A) → Leaves m log (gets f)
  unfolding gets
  Leaves-gets f = record { at = λ w. refl }

  pub Leaves-lift_result : {A : Type 0} (r : Result A) → Leaves m log (lift_result r)
  unfolding lift_result
  Leaves-lift_result r = record { at = λ w. refl }

  pub Leaves-run :
      (command : List Text) → is_apart command ≡ true → Leaves m log (m.processes.run command)
  Leaves-run command h = record { at = λ w. log.run_keeps command w h }

  pub Leaves-run_optional :
      (command : List Text) → is_apart command ≡ true → Leaves m log (run_optional m command)
  unfolding run_optional
  Leaves-run_optional command h =
      Leaves-bind m log (m.processes.run command) (λ _. pure tt) (Leaves-run command h)
        (λ _. Leaves-pure tt)

  pub Leaves-run_command :
      (command : List Text) → is_apart command ≡ true → Leaves m log (run_command m command)
  unfolding run_command
  Leaves-run_command command h =
      Leaves-bind m log (m.processes.run command) (λ result. lift_result (finished result))
        (Leaves-run command h) (λ result. Leaves-lift_result (finished result))

  pub Leaves-read_output :
      (command : List Text) → is_apart command ≡ true → Leaves m log (read_output m command)
  unfolding read_output
  Leaves-read_output command h =
      Leaves-bind m log (m.processes.run command) (λ result. pure result.stdout)
        (Leaves-run command h) (λ result. Leaves-pure result.stdout)

  pub Leaves-succeeds_with :
      (command : List Text) (test : Text → Bool)
      → is_apart command ≡ true
      → Leaves m log (succeeds_with m command test)
  unfolding succeeds_with
  Leaves-succeeds_with command test h =
      Leaves-bind m log (m.processes.run command)
        (λ result. pure (result.returncode == 0 && test result.stdout)) (Leaves-run command h)
        (λ result. Leaves-pure _)

  pub Adds-of_Leaves : {A : Type 0} (act : Exec W A) → Leaves m log act → Adds m log [] act
  Adds-of_Leaves act l = record { at = λ w a h. l.at w ∙ sym (append-nil (log.added w)) }

  pub Adds-pure : {A : Type 0} (a : A) → Adds m log [] (pure a)
  Adds-pure a = Adds-of_Leaves (pure a) (Leaves-pure a)

  pub Adds-run_optional :
      (command : List Text) → is_apart command ≡ true → Adds m log [] (run_optional m command)
  Adds-run_optional command h =
      Adds-of_Leaves (run_optional m command) (Leaves-run_optional command h)

  finished-zero : (c : Completed) → finished c ≡ ok tt → c.returncode ≡ 0
  finished-zero c h = elim (Bool-cases (c.returncode == 0)) [
    | inl zero_code ↦ (nat_beq_iff c.returncode 0).0 zero_code
    | inr failed ↦ absurd (err_ne_ok (rw failed at h))
  ]

  -- The addition returns only with the exit code of success.
  Adds-add : (rule : Rule) → Adds m log (rule ∷ []) (run_command m (add_command rule))
  unfolding run_command lift_result
  Adds-add rule = record {
    at = λ w a h.
        let b =
          bind-IsBound (m.processes.run (add_command rule))
            (λ result. lift_result (finished result)) w a h in
        let zero_code : b.value.returncode ≡ 0 = finished-zero b.value b.second in
        ap (λ r. log.added r.1) b.whole_step
        ∙ log.run_adds rule w b.value b.first
        ∙ ap (λ code. log.added w ++ (rule, code) ∷ []) zero_code;
  }

  pub Adds-ensure_ip_rule : (rule : Rule) → Adds m log (rule ∷ []) (ensure_ip_rule m rule)
  unfolding ensure_ip_rule split_words addition
  Adds-ensure_ip_rule rule =
      Adds-then m log (Adds-run_optional (delete_command rule) refl) (Adds-add rule)
