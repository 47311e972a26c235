-- ===== src/Headscale/Nodes.antt =====
-- How a node of Headscale's answer is read.
use deep_orc.Prelude.{
  if◌then◌else◌, ◌==◌, nat_eq, any, contains, Text, codes, text_eq, is_empty, decimal, ℕ, Bool,
  false, not, ◌||◌, Option, none, some, List, [], ◌∷◌, map,
}
use deep_orc.Naming.{NodeNames, headscale_node_name}
use deep_orc.Models.{bad_json, value_error}
use deep_orc.Tables.{keys}
use deep_orc.Effects.{Result, ok, err, required}
use deep_orc.Database.{
  gateway_keyed, job_keyed, peer_keyed, group_keyed, worker_keyed, enrollment_keyed,
  registration_keyed,
}
use deep_orc.Headscale.Values.{
  Json, null, list, object, Members, to_list, get_member, truthy, objects,
}
use deep_orc.Headscale.{Host}

pub record HeadscaleNode : Type 0 where
  pub node_id : ℕ
  pub hostname : Text
  pub tailscale_ip : Text
  pub online : Bool
  pub exit_approved : Bool
  pub exit_tagged : Bool
  pub exit_advertised : Bool

pub record RegisteredNode : Type 0 where
  pub node_id : ℕ
  pub hostname : Text
  pub tailscale_ip : Text

abbrev pub exit_node_routes : List Text
exit_node_routes = codes "0.0.0.0/0" ∷ codes "::/0" ∷ []

unfoldable pub has_exit_route : List Text → Bool
has_exit_route routes = any (contains exit_node_routes) routes

-- `split("/")[0]`
abbrev pub before_slash : Text → Text
before_slash [] = []
before_slash (c ∷ s) = if c == b'/' then [] else c ∷ before_slash s

abbrev pub is_ipv4_text : Text → Bool
is_ipv4_text ip = not (contains ip b':')

-- The dicts of the answer: a list, or the list under `nodes`.
abbrev pub nodes_of : Option Json → List Members
nodes_of (some (list values)) = objects (to_list values)
nodes_of _ = []

abbrev pub nodes_in : Json → List Members
nodes_in (list values) = objects (to_list values)
nodes_in (object m) = nodes_of (get_member (codes "nodes") m)
nodes_in _ = []

abbrev pub none_if_null : Option Json → Option Json
none_if_null (some null) = none
none_if_null v = v

-- `node.get("id")`, where `None` is no value.
unfoldable pub node_id_of : Members → Option Json
unfolding get_member
node_id_of node = none_if_null (get_member (codes "id") node)

-- The first of the keys with a list.
abbrev pub first_list : List Text → Members → Option (List Json)
first_list [] node = none
first_list (key ∷ keys) node = elim (get_member key node) [
  | some (list values) ↦ some (to_list values)
  | _ ↦ first_list keys node
]

abbrev pub first_ipv4 : List Text → Option Text
first_ipv4 [] = none
first_ipv4 (addr ∷ addrs) =
    let ip = before_slash addr in if is_ipv4_text ip then some ip else first_ipv4 addrs

abbrev pub approved_keys : List Text
approved_keys = codes "approvedRoutes" ∷ codes "approved_routes" ∷ []

abbrev pub available_keys : List Text
available_keys = codes "availableRoutes" ∷ codes "available_routes" ∷ []

abbrev pub tag_keys : List Text
tag_keys = codes "tags" ∷ codes "Tags" ∷ codes "validTags" ∷ codes "valid_tags" ∷ []

module _ {W : Type 0} (host : Host W) where
  abbrev pub texts : Option (List Json) → List Text
  texts none = []
  texts (some values) = map host.str_of values

  unfoldable pub parse_nodes_json : Text → Result (List Members)
  parse_nodes_json raw =
      if is_empty raw || raw == codes "null" then ok [] else elim (host.loads raw) [
        | none ↦ err (value_error bad_json)
        | some value ↦ ok (nodes_in value)
      ]

  unfoldable pub route_list : Members → List Text → List Text
  unfolding get_member
  route_list node names = texts (first_list names node)

  unfoldable pub node_tags : Members → List Text
  unfolding get_member
  node_tags node = texts (first_list tag_keys node)

  abbrev pub list_at : Text → Members → List Text
  list_at key node = texts (first_list (key ∷ []) node)

  -- A key with a list but no IPv4 address in it goes on to the next one.
  unfoldable pub node_ipv4 : Members → Option Text
  unfolding get_member
  node_ipv4 node = elim (first_ipv4 (list_at (codes "ipAddresses") node)) [
    | some ip ↦ some ip
    | none ↦ first_ipv4 (list_at (codes "ip_addresses") node)
  ]

  unfoldable pub node_online : Members → Bool
  unfolding get_member
  node_online node = elim (get_member (codes "connected") node) [
    | some value ↦ truthy value
    | none ↦ elim (get_member (codes "online") node) [ some value ↦ truthy value | none ↦ false ]
  ]

  -- `tag or settings.headscale_exit_node_tag` is the tag here.
  unfoldable pub node_has_exit_tag : Members → Text → Bool
  unfolding node_tags
  node_has_exit_tag node tag = contains (node_tags node) tag

  abbrev pub name_value : Option Json → Option Text
  name_value none = none
  name_value (some value) = if truthy value then some (host.str_of value) else none

  abbrev pub names_of : Members → NodeNames
  names_of node = record {
    given_name = name_value (get_member (codes "given_name") node);
    given_name_camel = name_value (get_member (codes "givenName") node);
    name = name_value (get_member (codes "name") node);
    hostname = name_value (get_member (codes "hostname") node);
  }

  unfoldable pub name_of : Members → Text
  unfolding headscale_node_name get_member
  name_of node = headscale_node_name (names_of node)

  abbrev pub int_or_raise : Json → Result ℕ
  int_or_raise value = required bad_json (host.int_of value)

  abbrev pub id_or_zero : Option Json → Result ℕ
  id_or_zero none = ok 0
  id_or_zero (some value) = int_or_raise value

  unfoldable pub is_advertised : Members → Bool
  unfolding route_list has_exit_route
  is_advertised node =
      has_exit_route (route_list node approved_keys)
      || has_exit_route (route_list node available_keys)

  abbrev pub exit_node : Text → Members → Text → ℕ → HeadscaleNode
  exit_node tag node ipv4 id = record {
    node_id = id;
    hostname = if is_empty (name_of node) then ipv4 else name_of node;
    tailscale_ip = ipv4;
    online = node_online node;
    exit_approved = has_exit_route (route_list node approved_keys);
    exit_tagged = node_has_exit_tag node tag;
    exit_advertised = is_advertised node;
  }

  abbrev pub with_id : Result ℕ → (ℕ → HeadscaleNode) → Result (Option HeadscaleNode)
  with_id (ok id) make = ok (some (make id))
  with_id (err e) make = err e

  abbrev pub exit_candidate : Text → Members → Bool
  exit_candidate tag node = node_has_exit_tag node tag || is_advertised node

  abbrev pub parse_with_ip : Text → Members → Option Text → Result (Option HeadscaleNode)
  parse_with_ip tag node none = ok none
  parse_with_ip tag node (some ipv4) =
      if is_empty ipv4 || not (exit_candidate tag node)
      then ok none
      else with_id (id_or_zero (node_id_of node)) (exit_node tag node ipv4)

  unfoldable pub parse_headscale_node : Text → Members → Result (Option HeadscaleNode)
  parse_headscale_node tag node = parse_with_ip tag node (node_ipv4 node)

  abbrev pub or_number : Text → ℕ → Text
  or_number name n = if is_empty name then decimal n else name
