-- ===== src/Session/Checks.antt =====
-- The checks that raise a `ValueError`.
use deep_orc.Prelude.{nat_eq, text_eq, ◌≡◌, refl, Bool, false, Option, some, arith}
use deep_orc.Models.{Reason}
use deep_orc.Effects.{ok, require, raise_if}
use deep_orc.Database.{
  Database, gateway_keyed, job_keyed, peer_keyed, group_keyed, worker_keyed, enrollment_keyed,
  registration_keyed,
}
use deep_orc.Session.{State, query}
use deep_orc.Session.Rules.{Keeps}

pub raise_if-false :
    {W : Type 0} (b : Database → Bool) (why : Reason) (s : State W)
    → (query (λ db. raise_if (b db) why db) s).0 ≡ ok tt
    → b s.db ≡ false
unfolding query raise_if
raise_if-false b why s h = ground arith

pub raise_if-Keeps :
    {W X : Type 0} {view : Database → Database → X} (b : Database → Bool) (why : Reason)
    → Keeps {W = W} view (query (λ db. raise_if (b db) why db))
unfolding query raise_if
raise_if-Keeps b why = record { at = λ s. refl }

pub require-Keeps :
    {W X A : Type 0} {view : Database → Database → X} (o : Database → Option A) (why : Reason)
    → Keeps {W = W} view (query (λ db. require why (o db) db))
unfolding query require
require-Keeps o why = record { at = λ s. refl }

-- A row that is required is the one that is found.
pub require-found :
    {W A : Type 0} (o : Database → Option A) (why : Reason) (s : State W) (a : A)
    → (query (λ db. require why (o db) db) s).0 ≡ ok a
    → o s.db ≡ some a
unfolding query require
require-found o why s a h = ground arith
