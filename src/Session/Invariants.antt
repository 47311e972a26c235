-- ===== src/Session/Invariants.antt =====
-- Proof rules for what holds of the tables, in the session and as committed, throughout a call.
use mathlib.Core.Path.{sym}
use deep_orc.Prelude.{nat_eq, text_eq, ℕ, ap, subst}
use deep_orc.Models.{
  Failure, value_error, headscale_error, agent_error, incus_error, integrity_error,
}
use deep_orc.Effects.{Result, ok, err, Exec, pure, raise, after, ◌>>=◌, handle, try_except}
use deep_orc.Database.{
  Database, gateway_keyed, job_keyed, peer_keyed, group_keyed, worker_keyed, enrollment_keyed,
  registration_keyed, Query,
}
use deep_orc.Session.{
  State, Action, query, outside, ask, commit, rollback, write, write_at, pass_headscale,
}
use deep_orc.Session.Rules.{Keeps, whole}

-- The action keeps `P`, whether it returns or raises.
pub record Stays {W A : Type 0} (P : Database → Type 0) (m : Action W A) : Type 0 where
  pub at : (s : State W) → P s.db → P s.saved → P (m s).1.db × P (m s).1.saved

module _ {W A : Type 0} {P : Database → Type 0} where
  pub Stays-of_Keeps : (m : Action W A) → Keeps whole m → Stays P m
  Stays-of_Keeps m k = record {
    at = λ s a b.
        (subst P (sym (ap (λ v. v.0) (k.at s))) a, subst P (sym (ap (λ v. v.1) (k.at s))) b);
  }

  pub Stays-pure : (a : A) → Stays {W = W} P (pure a)
  unfolding pure
  Stays-pure a = record { at = λ s h k. (h, k) }

  pub Stays-raise : (e : Failure) → Stays {W = W} P (raise {A = A} e)
  unfolding raise
  Stays-raise e = record { at = λ s h k. (h, k) }

  pub Stays-outside : (m : Exec W A) → Stays P (outside m)
  unfolding outside
  Stays-outside m = record { at = λ s h k. (h, k) }

  pub Stays-ask : (f : Database → A) → Stays {W = W} P (ask f)
  unfolding ask
  Stays-ask f = record { at = λ s h k. (h, k) }

  pub Stays-query :
      (q : Query A) → ((db : Database) → P db → P (q db).1) → Stays {W = W} P (query q)
  unfolding query
  Stays-query q keeps = record { at = λ s h k. (keeps s.db h, k) }

module _ {W : Type 0} {P : Database → Type 0} where
  pub Stays-write :
      (f : Database → Database) → ((db : Database) → P db → P (f db)) → Stays {W = W} P (write f)
  unfolding write
  Stays-write f keeps = record { at = λ s h k. (keeps s.db h, k) }

  pub Stays-write_at :
      (now : W → ℕ) (f : ℕ → Database → Database)
      → ((t : ℕ) (db : Database) → P db → P (f t db))
      → Stays P (write_at now f)
  unfolding write_at
  Stays-write_at now f keeps = record { at = λ s h k. (keeps (now s.world) s.db h, k) }

  pub Stays-commit : Stays {W = W} P commit
  unfolding commit
  Stays-commit = record { at = λ s h k. (h, h) }

  pub Stays-rollback : Stays {W = W} P rollback
  unfolding rollback
  Stays-rollback = record { at = λ s h k. (k, k) }

  pub Stays-pass_headscale : (e : Failure) → Stays {W = W} P (pass_headscale e)
  Stays-pass_headscale headscale_error = Stays-pure tt
  Stays-pass_headscale (value_error why) = Stays-raise (value_error why)
  Stays-pass_headscale agent_error = Stays-raise agent_error
  Stays-pass_headscale incus_error = Stays-raise incus_error
  Stays-pass_headscale integrity_error = Stays-raise integrity_error

module _ {W A B : Type 0} {P : Database → Type 0} (m : Action W A) (f : A → Action W B) where
  after-Stays :
      ((a : A) → Stays P (f a))
      → (r : Result A) (s : State W) → P s.db
      → P s.saved
      → P (after r f s).1.db × P (after r f s).1.saved
  after-Stays kf (ok a) s h k = (kf a).at s h k
  after-Stays kf (err e) s h k = (h, k)

  pub Stays-bind : Stays P m → ((a : A) → Stays P (f a)) → Stays P (m >>= f)
  unfolding ◌>>=◌
  Stays-bind km kf = record {
    at = λ s h k. after-Stays kf (m s).0 (m s).1 (km.at s h k).0 (km.at s h k).1;
  }

module _ {W A B : Type 0} {P : Database → Type 0} (m : Action W A) (f : A → Action W B)
    (g : Failure → Action W B) where
  handle-Stays :
      ((a : A) → Stays P (f a))
      → ((e : Failure) → Stays P (g e))
      → (r : Result A) (s : State W) → P s.db
      → P s.saved
      → P (handle r f g s).1.db × P (handle r f g s).1.saved
  handle-Stays kf kg (ok a) s h k = (kf a).at s h k
  handle-Stays kf kg (err e) s h k = (kg e).at s h k

  pub Stays-try_except :
      Stays P m
      → ((a : A) → Stays P (f a))
      → ((e : Failure) → Stays P (g e))
      → Stays P (try_except m f g)
  unfolding try_except
  Stays-try_except km kf kg = record {
    at = λ s h k. handle-Stays kf kg (m s).0 (m s).1 (km.at s h k).0 (km.at s h k).1;
  }

pub ruleset stays_rules = (
  Stays-pure, Stays-raise, Stays-outside, Stays-ask, Stays-commit, Stays-rollback,
  Stays-pass_headscale, Stays-bind, Stays-try_except,
)
