-- ===== src/Database/Registrations.antt =====
-- orchestrator/repositories/registration_request_repo.py, the queries and the changes of a row.
use deep_orc.Prelude.{
  leb, if◌then◌else◌, ◌==◌, nat_eq, any, first, select, Text, text_eq, ℕ, Bool, true, false, ◌&&◌,
  Option, some, List, [], ◌∷◌, ◌++◌,
}
use deep_orc.Models.{RegistrationRequestStatus, integrity_error, RegistrationRequest}
use deep_orc.Tables.{update}
use deep_orc.Effects.{ok, err}
use deep_orc.Database.{
  Database, gateway_keyed, job_keyed, peer_keyed, group_keyed, worker_keyed, enrollment_keyed,
  registration_keyed, Query,
}

abbrev pub display_code_length : ℕ
display_code_length = 6

abbrev pub is_waiting : RegistrationRequestStatus → Bool
is_waiting RegistrationRequestStatus.pending = true
is_waiting _ = false

unfoldable pub get_by_key : Text → Database → Option RegistrationRequest
get_by_key key db = first (λ r. r.registration_key == key) db.registrations

abbrev pub is_pending_code : Text → RegistrationRequest → Bool
is_pending_code code r = r.display_code == code && is_waiting r.status

unfoldable pub get_by_display_code : Text → Database → Option RegistrationRequest
get_by_display_code code db = first (is_pending_code code) db.registrations

-- `ORDER BY created_at DESC`; of several at one time, in the order of their insertion.
abbrev pub insert_newest : RegistrationRequest → List RegistrationRequest → List RegistrationRequest
insert_newest r [] = r ∷ []
insert_newest r (q ∷ rows) =
    if leb q.created_at r.created_at then r ∷ q ∷ rows else q ∷ insert_newest r rows

abbrev pub newest_first : List RegistrationRequest → List RegistrationRequest
newest_first [] = []
newest_first (r ∷ rows) = insert_newest r (newest_first rows)

unfoldable pub list_pending : Database → List RegistrationRequest
list_pending db = newest_first (select (λ r. is_waiting r.status) db.registrations)

-- `registration_key` is unique.
unfoldable pub create_request_row : RegistrationRequest → Query (Unit {0})
create_request_row row db =
    if any (λ r. r.registration_key == row.registration_key) db.registrations
    then (err integrity_error, db)
    else (ok tt, record db { registrations = db.registrations ++ row ∷ [] })

unfoldable pub update_request :
    ℕ → (RegistrationRequest → RegistrationRequest) → Database → Database
update_request id f db = record db { registrations = update id f db.registrations }

abbrev pub touched : ℕ → RegistrationRequest → RegistrationRequest
touched now r = record r { created_at = now }

abbrev pub approved_as : ℕ → Text → ℕ → RegistrationRequest → RegistrationRequest
approved_as node_id tailscale_ip now r = record r {
  status = RegistrationRequestStatus.approved;
  headscale_node_id = some node_id;
  tailscale_ip = some tailscale_ip;
  resolved_at = some now;
}

abbrev pub rejected_at : ℕ → RegistrationRequest → RegistrationRequest
rejected_at now r = record r { status = RegistrationRequestStatus.rejected; resolved_at = some now }
