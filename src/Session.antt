-- ===== src/Session.antt =====
-- A database session and the outside world: what the session sees, what is committed, and the
-- world. `commit` and `rollback` are those of orchestrator/models/base.py's sessions.
pub mod Rules
pub mod Checks
pub mod Invariants
use deep_orc.Prelude.{nat_eq, text_eq, ℕ}
use deep_orc.Models.{Reason, Failure, value_error, headscale_error}
use deep_orc.Effects.{ok, Exec, pure, raise, try_except}
use deep_orc.Database.{
  Database, gateway_keyed, job_keyed, peer_keyed, group_keyed, worker_keyed, enrollment_keyed,
  registration_keyed, Query,
}

pub record State (W : Type 0) : Type 0 where
  pub db : Database
  pub saved : Database
  pub world : W

abbrev pub Action : Type 0 → Type 0 → Type 0
Action W A = Exec (State W) A

module _ {W A : Type 0} where
  unfoldable pub query : Query A → Action W A
  query q s = let r = q s.db in (r.0, record s { db = r.1 })

  unfoldable pub outside : Exec W A → Action W A
  outside m s = let r = m s.world in (r.0, record s { world = r.1 })

  unfoldable pub ask : (Database → A) → Action W A
  ask f s = (ok (f s.db), s)

  unfoldable pub read_world : (W → A) → Action W A
  read_world f s = (ok (f s.world), s)

-- `except HeadscaleError as exc: raise ValueError(…) from exc`
abbrev pub rewrap_headscale : Reason → Failure → Failure
rewrap_headscale why headscale_error = value_error why
rewrap_headscale why e = e

module _ {W A : Type 0} where
  unfoldable pub from_headscale : Reason → Exec W A → Action W A
  unfolding outside try_except pure raise
  from_headscale why m = try_except (outside m) pure (λ e. raise (rewrap_headscale why e))

module _ {W : Type 0} where
  unfoldable pub commit : Action W (Unit {0})
  commit s = (ok tt, record s { saved = s.db })

  unfoldable pub rollback : Action W (Unit {0})
  rollback s = (ok tt, record s { db = s.saved })

  unfoldable pub write : (Database → Database) → Action W (Unit {0})
  write f s = (ok tt, record s { db = f s.db })

  -- a write that stamps the time
  unfoldable pub write_at : (W → ℕ) → (ℕ → Database → Database) → Action W (Unit {0})
  write_at now f s = (ok tt, record s { db = f (now s.world) s.db })

  -- `try: … except HeadscaleError: pass`
  abbrev pub pass_headscale : Failure → Action W (Unit {0})
  pass_headscale headscale_error = pure tt
  pass_headscale e = raise e
