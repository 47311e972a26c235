-- ===== src/Tests/Headscale.antt =====
-- Headscale's command line.
use deep_orc.Prelude.{
  nat_eq, length, find_from, Text, codes, text_eq, strip, decimal, zero_pad, sort_by, IsSorted, ℕ,
  ◌≡◌, refl, true, false, Option, none, some, List, [], ◌∷◌,
}
use deep_orc.Naming.{
  Unicode, format_sequential_name, next_sequential_name, is_gateway_name, is_exit_node_name,
  headscale_node_name, collect_exit_node_names,
}
use deep_orc.Effects.{Result, ok, pure, lift_result, require, ◌>>=◌}
use deep_orc.Database.{
  gateway_keyed, job_keyed, peer_keyed, group_keyed, worker_keyed, enrollment_keyed,
  registration_keyed,
}
use deep_orc.Headscale.Values.{Json, number, list, object, nil, cons, Members, empty, member}
use deep_orc.Headscale.{Host, HeadscaleSettings}
use deep_orc.Headscale.Nodes.{
  HeadscaleNode, node_id_of, parse_nodes_json, node_has_exit_tag, name_of, is_advertised,
}
use deep_orc.Headscale.Client.{
  list_headscale_nodes_raw, approve_exit_routes_for_tagged_nodes, rename_headscale_node,
  next_exit_name,
}
use deep_orc.Headscale.Needs.{Waiting}
use deep_orc.Headscale.Approvals.{approved, approve_exit_routes-approved}
use deep_orc.Headscale.Sync.{
  KeyedNode, by_id, with_keys, to_rename, rename_next, rename_all, sync_exit_node_names,
}
use deep_orc.Headscale.Renames.{Rename, conclude, IsPlan}
use deep_orc.Headscale.Renames.Laws.{sync_exit_node_names-IsPlan}
use deep_orc.Tests.Sample.{World, succeeds}

abbrev pub unicode : Unicode
unicode = record { decimal_digit = λ c. false; lower_text = λ s. s }

abbrev str_json : Json → Text
str_json (Json.text t) = t
str_json _ = []

abbrev int_json : Json → Option ℕ
int_json (number n) = some n
int_json _ = none

abbrev one_text : Text → Json
one_text t = list (cons (Json.text t) nil)

-- A phone that advertises an exit route.
abbrev phone : Members
phone = member (codes "id") (number 4) (
    member (codes "name") (Json.text (codes "phone")) (
      member (codes "ipAddresses") (one_text (codes "100.64.0.4")) (
        member (codes "tags") (one_text (codes "tag:exit"))
          (member (codes "availableRoutes") (one_text (codes "0.0.0.0/0")) empty))))

-- A process that always succeeds, with one answer.
abbrev pub host : Host World
host = record {
  run_process = λ args. succeeds (record { returncode = 0; stdout = codes "x" });
  loads = λ s. some (list (cons (object phone) nil));
  str_of = str_json;
  int_of = int_json;
  str_of-text = λ t. refl;
  int_of-number = λ n. refl;
  unicode = unicode;
}

abbrev pub config : HeadscaleSettings
config = record {
  headscale_cli = codes "h";
  headscale_config = [];
  headscale_user = codes "u";
  headscale_mobile_user = codes "m";
  headscale_worker_user = codes "w";
  headscale_exit_node_tag = codes "tag:exit";
  headscale_worker_tag = codes "tag:worker";
  headscale_preauth_expiration = codes "1h";
  headscale_url = codes "l";
}

abbrev keyed_phone : KeyedNode
keyed_phone = record { sort_key = 4; node = phone }

listed_phone : (list_headscale_nodes_raw host config tt).0 ≡ ok (phone ∷ [])
unfolding list_headscale_nodes_raw parse_nodes_json strip
listed_phone = refl

-- The phone gets the first name.
sync_of_phone : sync_exit_node_names host config [] tt ≡ (ok 1, tt)
unfolding sync_exit_node_names ◌>>=◌ list_headscale_nodes_raw parse_nodes_json strip with_keys
    node_id_of rename_all sort_by to_rename is_exit_node_name name_of is_gateway_name
    node_has_exit_tag rename_next next_exit_name next_sequential_name find_from
    rename_headscale_node is_advertised collect_exit_node_names format_sequential_name zero_pad
    decimal lift_result require pure
sync_of_phone = refl

sync_exit_node_names-IsPlan_example :
    (renames : List Rename) × (finish : Result (Unit {0})) × IsSorted by_id (keyed_phone ∷ [])
    × IsPlan host config [] (keyed_phone ∷ []) [] renames finish
    × (sync_exit_node_names host config [] tt
        ≡ conclude host config [] renames finish
            (length renames)
            (list_headscale_nodes_raw host config tt).1)
unfolding sort_by with_keys node_id_of collect_exit_node_names is_exit_node_name headscale_node_name
sync_exit_node_names-IsPlan_example =
    sync_exit_node_names-IsPlan host config [] tt (phone ∷ []) (keyed_phone ∷ []) listed_phone refl

approve_exit_routes-approved_example :
    (ids : List Json) × Waiting host config (phone ∷ []) ids
    × (approve_exit_routes_for_tagged_nodes host config tt
        ≡ approved host config ids (length ids) (list_headscale_nodes_raw host config tt).1)
approve_exit_routes-approved_example =
    approve_exit_routes-approved host config tt (phone ∷ []) listed_phone

abbrev phone_node : HeadscaleNode
phone_node = record {
  node_id = 4;
  hostname = codes "phone";
  tailscale_ip = codes "100.64.0.4";
  online = false;
  exit_approved = false;
  exit_tagged = true;
  exit_advertised = true;
}
