-- ===== src/Database/Enrollments.antt =====
-- orchestrator/repositories/worker_enrollment_repo.py
use deep_orc.Prelude.{
  ltb, if◌then◌else◌, ◌==◌, nat_eq, any, first, select, Text, text_eq, ℕ, Bool, true, false, not,
  ◌&&◌, Option, none, some, List, [], ◌∷◌, ◌++◌, map,
}
use deep_orc.Models.{integrity_error, WorkerEnrollment}
use deep_orc.Tables.{update}
use deep_orc.Effects.{ok, err}
use deep_orc.Database.{
  Database, gateway_keyed, job_keyed, peer_keyed, group_keyed, worker_keyed, enrollment_keyed,
  registration_keyed, Query,
}

-- `token_hash` is unique.
unfoldable pub create_enrollment_row : WorkerEnrollment → Query (Unit {0})
create_enrollment_row row db =
    if any (λ e. e.token_hash == row.token_hash) db.enrollments
    then (err integrity_error, db)
    else (ok tt, record db { enrollments = db.enrollments ++ row ∷ [] })

unfoldable pub get_by_token_hash : Text → Database → Option WorkerEnrollment
get_by_token_hash hash db = first (λ e. e.token_hash == hash) db.enrollments

abbrev pub is_unused : Option ℕ → Bool
is_unused none = true
is_unused (some at) = false

-- Not used, and not expired.
abbrev pub is_active : ℕ → WorkerEnrollment → Bool
is_active now e = is_unused e.used_at && ltb now e.expires_at

unfoldable pub get_active_by_name : ℕ → Text → Database → Option WorkerEnrollment
get_active_by_name now name db = first (λ e. e.name == name && is_active now e) db.enrollments

unfoldable pub list_active_names : ℕ → Database → List Text
list_active_names now db = map (λ e. e.name) (select (is_active now) db.enrollments)

-- The row that was created last; of several at one time, the first.
abbrev pub newest : Option WorkerEnrollment → List WorkerEnrollment → Option WorkerEnrollment
newest best [] = best
newest none (e ∷ rows) = newest (some e) rows
newest (some best) (e ∷ rows) =
    newest (if ltb best.created_at e.created_at then some e else some best) rows

unfoldable pub get_latest_active : ℕ → Database → Option WorkerEnrollment
get_latest_active now db = newest none (select (is_active now) db.enrollments)

unfoldable pub update_enrollment : ℕ → (WorkerEnrollment → WorkerEnrollment) → Database → Database
update_enrollment id f db = record db { enrollments = update id f db.enrollments }

-- The flush of a changed `token_hash`.
unfoldable pub check_token_hash : ℕ → Text → Query (Unit {0})
check_token_hash id hash db = (
  if any (λ e. not (e.id == id) && e.token_hash == hash) db.enrollments
      then err integrity_error
      else ok tt,
  db,
)
