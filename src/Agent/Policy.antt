-- ===== src/Agent/Policy.antt =====
-- Which routing rules the agent's actions add, and how two actions in a row compose.
pub mod Commands
pub mod Uplink
pub mod Filters
pub mod Readings
pub mod Forwarding
use deep_orc.Prelude.{
  nat_eq, text_eq, ℕ, ◌≡◌, refl, sym, ap, ◌∙◌, List, [], ◌∷◌, ◌++◌, append_assoc,
}
use deep_orc.Effects.{Result, ok, err, Exec, after, ◌>>=◌, ◌>>◌, bind-IsBound}
use deep_orc.Database.{
  gateway_keyed, job_keyed, peer_keyed, group_keyed, worker_keyed, enrollment_keyed,
  registration_keyed,
}
use deep_orc.Agent.Routing.{Machine, Rule}
use deep_orc.Agent.RuleLog.{words_eq, RuleLog}

-- Each rule with the exit code of success.
abbrev pub successes : List Rule → List (Rule × ℕ)
successes [] = []
successes (rule ∷ rules) = (rule, 0) ∷ successes rules

successes-append : (p q : List Rule) → successes (p ++ q) ≡ successes p ++ successes q
successes-append [] q = refl
successes-append (r ∷ p) q = ap (λ l. (r, 0) ∷ l) (successes-append p q)

module _ {W : Type 0} (m : Machine W) (log : RuleLog m) where
  -- An action that, where it returns, has added the rules of a list in their order, each with
  -- success, and no other.
  pub record Adds {A : Type 0} (plan : List Rule) (act : Exec W A) : Type 0 where
    pub at :
        (w : W) (a : A) → (act w).0 ≡ ok a → log.added (act w).1 ≡ log.added w ++ successes plan

  -- An action that adds no rule, whether it returns or raises.
  pub record Leaves {A : Type 0} (act : Exec W A) : Type 0 where
    pub at : (w : W) → log.added (act w).1 ≡ log.added w

  module _ {A B : Type 0} (act : Exec W A) (f : A → Exec W B) where
    after-Leaves :
        ((a : A) → Leaves (f a)) → (r : Result A) (w : W) → log.added (after r f w).1 ≡ log.added w
    after-Leaves k (ok a) w = (k a).at w
    after-Leaves k (err e) w = refl

    pub Leaves-bind : Leaves act → ((a : A) → Leaves (f a)) → Leaves (act >>= f)
    unfolding ◌>>=◌
    Leaves-bind l k = record { at = λ w. after-Leaves k (act w).0 (act w).1 ∙ l.at w }

    pub Adds-bind :
        (p q : List Rule) → Adds p act → ((a : A) → Adds q (f a)) → Adds (p ++ q) (act >>= f)
    Adds-bind p q k l = record {
      at = λ w b h.
          let bound = bind-IsBound act f w b h in
          ap (λ r. log.added r.1) bound.whole_step
          ∙ (l bound.value).at (act w).1 b bound.second
          ∙ ap (λ xs. xs ++ successes q) (k.at w bound.value bound.first)
          ∙ append_assoc (log.added w) (successes p) (successes q)
          ∙ ap (λ xs. log.added w ++ xs) (sym (successes-append p q));
    }

  pub Adds-then :
      {A B : Type 0} {act : Exec W A} {next : Exec W B} {p q : List Rule}
      → Adds p act
      → Adds q next
      → Adds (p ++ q) (act >> next)
  Adds-then {act} {next} {p} {q} k l = Adds-bind act (λ _. next) p q k (λ _. l)

  pub Leaves-then :
      {A B : Type 0} {act : Exec W A} {next : Exec W B}
      → Leaves act
      → Leaves next
      → Leaves (act >> next)
  Leaves-then {act} {next} k l = Leaves-bind act (λ _. next) k (λ _. l)
