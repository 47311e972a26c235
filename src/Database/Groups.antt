-- ===== src/Database/Groups.antt =====
-- orchestrator/repositories/peer_group_repo.py
use deep_orc.Prelude.{
  if◌then◌else◌, ◌==◌, nat_eq, any, first, Text, text_eq, ℕ, not, ◌&&◌, Option, none, [], ◌∷◌, ◌++◌,
  map,
}
use deep_orc.Models.{integrity_error, Gateway, PeerGroup}
use deep_orc.Tables.{get, update, delete}
use deep_orc.Effects.{ok, err}
use deep_orc.Database.{
  Database, gateway_keyed, job_keyed, peer_keyed, group_keyed, worker_keyed, enrollment_keyed,
  registration_keyed, is_just, Query,
}

unfoldable pub get_group : ℕ → Database → Option PeerGroup
get_group group_id db = get group_id db.peer_groups

unfoldable pub get_group_by_name : Text → Database → Option PeerGroup
get_group_by_name name db = first (λ g. g.name == name) db.peer_groups

-- `name` is unique.
unfoldable pub create_group_row : PeerGroup → Query (Unit {0})
create_group_row row db =
    if any (λ g. g.name == row.name) db.peer_groups
    then (err integrity_error, db)
    else (ok tt, record db { peer_groups = db.peer_groups ++ row ∷ [] })

-- The session sets the group of its gateways to NULL, as for every relationship with no cascade.
abbrev pub leave_group : ℕ → Gateway → Gateway
leave_group group_id g = record g {
  peer_group_id = if is_just g.peer_group_id group_id then none else g.peer_group_id;
}

unfoldable pub delete_group_row : ℕ → Database → Database
delete_group_row group_id db = record db {
  peer_groups = delete group_id db.peer_groups;
  gateways = map (leave_group group_id) db.gateways;
}

-- A change of the object, which a flush writes; `name` is unique.
unfoldable pub rename_group_row : ℕ → Text → Query (Unit {0})
rename_group_row group_id name db =
    if any (λ g. g.name == name && not (g.id == group_id)) db.peer_groups
    then (err integrity_error, db)
    else (
      ok tt,
      record db { peer_groups = update group_id (λ g. record g { name = name }) db.peer_groups },
    )
