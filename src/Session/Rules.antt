-- ===== src/Session/Rules.antt =====
-- Proof rules for actions. A view is what a property reads of the tables and of what is committed.
use deep_orc.Prelude.{nat_eq, text_eq, ◌≡◌, refl, ◌∙◌, List, arith}
use deep_orc.Models.{
  Reason, Failure, value_error, headscale_error, agent_error, incus_error, integrity_error, Gateway,
  Job,
}
use deep_orc.Effects.{
  Result, ok, err, Exec, pure, raise, after, ◌>>=◌, ◌>>◌, handle, try_except, err_ne_ok,
}
use deep_orc.Database.{
  Database, gateway_keyed, job_keyed, peer_keyed, group_keyed, worker_keyed, enrollment_keyed,
  registration_keyed, Query,
}
use deep_orc.Session.{
  State, Action, query, outside, ask, read_world, from_headscale, commit, pass_headscale,
}

-- The action leaves the view alone, whether it returns or raises.
pub record Keeps {W A X : Type 0} (view : Database → Database → X) (m : Action W A) : Type 0 where
  pub at : (s : State W) → view (m s).1.db (m s).1.saved ≡ view s.db s.saved

-- An action that raises has left the view alone.
pub record Atomic {W A X : Type 0} (view : Database → Database → X) (m : Action W A) : Type 0 where
  pub at :
      (s : State W) (e : Failure)
      → (m s).0 ≡ err e
      → view (m s).1.db (m s).1.saved ≡ view s.db s.saved

-- An action that returns from a state with the view `v` ends as `Q` says.
pub record Returns {W A X : Type 0} (view : Database → Database → X) (v : X) (m : Action W A)
    (Q : A → Database → Database → Type 0) : Type 0 where
  pub at :
      (s : State W)
      → view s.db s.saved ≡ v
      → (a : A) → (m s).0 ≡ ok a
      → Q a (m s).1.db (m s).1.saved

module _ {W A X : Type 0} {view : Database → Database → X} where
  pub Keeps-pure : (a : A) → Keeps {W = W} view (pure a)
  unfolding pure
  Keeps-pure a = record { at = λ s. refl }

  pub Keeps-raise : (e : Failure) → Keeps {W = W} view (raise {A = A} e)
  unfolding raise
  Keeps-raise e = record { at = λ s. refl }

  pub Keeps-outside : (m : Exec W A) → Keeps view (outside m)
  unfolding outside
  Keeps-outside m = record { at = λ s. refl }

  pub Keeps-from_headscale : (why : Reason) (m : Exec W A) → Keeps view (from_headscale why m)
  unfolding from_headscale
  Keeps-from_headscale why m = record { at = λ s. ground arith }

  pub Keeps-read_world : (f : W → A) → Keeps view (read_world f)
  unfolding read_world
  Keeps-read_world f = record { at = λ s. refl }

  pub Keeps-ask : (f : Database → A) → Keeps {W = W} view (ask f)
  unfolding ask
  Keeps-ask f = record { at = λ s. refl }

  pub Keeps-query :
      (q : Query A)
      → ((db saved : Database) → view (q db).1 saved ≡ view db saved)
      → Keeps {W = W} view (query q)
  unfolding query
  Keeps-query q h = record { at = λ s. h s.db s.saved }

  pub Atomic-of_Keeps : (m : Action W A) → Keeps view m → Atomic view m
  Atomic-of_Keeps m k = record { at = λ s e h. k.at s }

  -- A commit after which nothing can raise.
  pub Atomic-commit : (a : A) → Atomic {W = W} view (commit >> pure a)
  unfolding commit ◌>>=◌
  Atomic-commit a = record { at = λ s e h. cc }

module _ {W A B X : Type 0} {view : Database → Database → X} (m : Action W A)
    (f : A → Action W B) where
  after-Keeps :
      ((a : A) → Keeps view (f a))
      → (r : Result A) (s : State W)
      → view (after r f s).1.db (after r f s).1.saved ≡ view s.db s.saved
  after-Keeps k (ok a) s = (k a).at s
  after-Keeps k (err e) s = refl

  pub Keeps-bind : Keeps view m → ((a : A) → Keeps view (f a)) → Keeps view (m >>= f)
  unfolding ◌>>=◌
  Keeps-bind km kf = record { at = λ s. after-Keeps kf (m s).0 (m s).1 ∙ km.at s }

  after-Atomic :
      ((a : A) → Atomic view (f a))
      → (r : Result A) (s : State W) (e : Failure) → (after r f s).0 ≡ err e
      → view (after r f s).1.db (after r f s).1.saved ≡ view s.db s.saved
  after-Atomic k (ok a) s e h = (k a).at s e h
  after-Atomic k (err x) s e h = refl

  pub Atomic-bind : Keeps view m → ((a : A) → Atomic view (f a)) → Atomic view (m >>= f)
  unfolding ◌>>=◌
  Atomic-bind km kf = record { at = λ s e h. after-Atomic kf (m s).0 (m s).1 e h ∙ km.at s }

  after-Returns :
      {v : X} {Q : B → Database → Database → Type 0}
      → (r : Result A) (s : State W) → ((a : A) → r ≡ ok a → Returns view v (f a) Q)
      → view s.db s.saved ≡ v
      → (b : B) → (after r f s).0 ≡ ok b
      → Q b (after r f s).1.db (after r f s).1.saved
  after-Returns (ok a) s k e b h = (k a refl).at s e b h
  after-Returns (err x) s k e b h = absurd (cc)

  -- A step that leaves the view alone.
  pub Returns-bind :
      {v : X} {Q : B → Database → Database → Type 0}
      → Keeps view m
      → ((a : A) → Returns view v (f a) Q)
      → Returns view v (m >>= f) Q
  unfolding ◌>>=◌
  Returns-bind km kf = record {
    at = λ s e b h. after-Returns (m s).0 (m s).1 (λ a _. kf a) (km.at s ∙ e) b h;
  }

  -- A step whose answer says something about the state that it starts from.
  pub Returns-bind_fact :
      {v : X} {Q : B → Database → Database → Type 0} {Fact : A → Type 0}
      → Keeps view m
      → ((s : State W) → view s.db s.saved ≡ v → (a : A) → (m s).0 ≡ ok a → Fact a)
      → ((a : A) → Fact a → Returns view v (f a) Q)
      → Returns view v (m >>= f) Q
  unfolding ◌>>=◌
  Returns-bind_fact km fact kf = record {
    at = λ s e b h. after-Returns (m s).0 (m s).1 (λ a r. kf a (fact s e a r)) (km.at s ∙ e) b h;
  }

module _ {W A B X : Type 0} {view : Database → Database → X} (m : Action W A) (f : A → Action W B)
    (h : Failure → Action W B) where
  handle-Keeps :
      ((a : A) → Keeps view (f a))
      → ((e : Failure) → Keeps view (h e))
      → (r : Result A) (s : State W)
      → view (handle r f h s).1.db (handle r f h s).1.saved ≡ view s.db s.saved
  handle-Keeps kf kh (ok a) s = (kf a).at s
  handle-Keeps kf kh (err e) s = (kh e).at s

  pub Keeps-try_except :
      Keeps view m
      → ((a : A) → Keeps view (f a))
      → ((e : Failure) → Keeps view (h e))
      → Keeps view (try_except m f h)
  unfolding try_except
  Keeps-try_except km kf kh = record { at = λ s. handle-Keeps kf kh (m s).0 (m s).1 ∙ km.at s }

pub Keeps-pass_headscale :
    {W X : Type 0} {view : Database → Database → X} (e : Failure)
    → Keeps {W = W} view (pass_headscale e)
Keeps-pass_headscale headscale_error = Keeps-pure tt
Keeps-pass_headscale (value_error why) = Keeps-raise (value_error why)
Keeps-pass_headscale agent_error = Keeps-raise agent_error
Keeps-pass_headscale incus_error = Keeps-raise incus_error
Keeps-pass_headscale integrity_error = Keeps-raise integrity_error

-- A step that returns hands on to the next one.
pub bind_ok :
    {W A B : Type 0} (m : Action W A) (f : A → Action W B) (s : State W) (a : A)
    → (m s).0 ≡ ok a
    → (m >>= f) s ≡ f a (m s).1
unfolding ◌>>=◌
bind_ok m f s a h = rw h

module _ {W A B X : Type 0} {view : Database → Database → X} (m : Action W A) (f : A → Action W B)
    {w : A → X} {Fact : A → Type 0} {Q : B → Database → Database → Type 0} where
  after-seq :
      (r : Result A) (s : State W)
      → ((a : A) → r ≡ ok a → (view s.db s.saved ≡ w a) × Fact a)
      → ((a : A) → Fact a → Returns view (w a) (f a) Q)
      → (b : B) → (after r f s).0 ≡ ok b
      → Q b (after r f s).1.db (after r f s).1.saved
  after-seq (ok a) s k kf b h = (kf a (k a refl).1).at s (k a refl).0 b h
  after-seq (err x) s k kf b h = absurd (err_ne_ok h)

  -- A step that changes the view.
  pub Returns-seq :
      {v : X}
      → Returns view v m (λ a db saved. (view db saved ≡ w a) × Fact a)
      → ((a : A) → Fact a → Returns view (w a) (f a) Q)
      → Returns view v (m >>= f) Q
  unfolding ◌>>=◌
  Returns-seq km kf = record {
    at = λ s e b h. after-seq (m s).0 (m s).1 (λ a r. km.at s e a r) kf b h;
  }

pub ruleset keeps_rules = (
  Keeps-pure, Keeps-raise, Keeps-outside, Keeps-from_headscale, Keeps-read_world, Keeps-ask,
  Keeps-bind, Keeps-try_except,
)

-- What is committed.
abbrev pub committed : Database → Database → Database
committed db saved = saved

-- All of it.
abbrev pub whole : Database → Database → Database × Database
whole db saved = (db, saved)

-- The tables of gateways and jobs.
abbrev pub gateway_rows : Database → Database → List Gateway × List Job
gateway_rows db saved = (db.gateways, db.jobs)

module _ {W A : Type 0} where
  -- A query writes to the session alone.
  pub Keeps-committed-query : (q : Query A) → Keeps {W = W} committed (query q)
  Keeps-committed-query q = Keeps-query q (λ db saved. refl)
