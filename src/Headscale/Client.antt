-- ===== src/Headscale/Client.antt =====
-- The operations on nodes: finding them, approving their routes, renaming and deleting them.
use deep_orc.Prelude.{
  if◌then◌else◌, ◌==◌, nat_eq, first, select, contains, Text, codes, text_eq, is_empty, decimal, ℕ,
  ◌+◌, Bool, true, false, not, ◌&&◌, ◌||◌, Option, none, some, List, [], ◌∷◌, ◌++◌, map,
}
use deep_orc.Naming.{
  exit_node_prefix, sequential_width, next_sequential_name, collect_exit_node_names,
}
use deep_orc.Models.{no_name}
use deep_orc.Effects.{Result, ok, err, Exec, pure, lift_result, require, ◌>>=◌, ◌>>◌}
use deep_orc.Database.{
  gateway_keyed, job_keyed, peer_keyed, group_keyed, worker_keyed, enrollment_keyed,
  registration_keyed,
}
use deep_orc.Headscale.Values.{Json, Members, equals_number}
use deep_orc.Headscale.{Host, HeadscaleSettings, run_headscale}
use deep_orc.Headscale.Nodes.{
  HeadscaleNode, has_exit_route, node_id_of, approved_keys, available_keys, parse_nodes_json,
  route_list, node_ipv4, node_has_exit_tag, names_of, name_of, int_or_raise, parse_headscale_node,
}

abbrev pub exit_route : Text
exit_route = codes "0.0.0.0/0"

module _ {W : Type 0} (host : Host W) (config : HeadscaleSettings) where
  unfoldable pub list_headscale_nodes_raw : Exec W (List Members)
  unfolding run_headscale ◌>>=◌
  list_headscale_nodes_raw = do
    output ←
        run_headscale host config (codes "nodes" ∷ codes "list" ∷ codes "-o" ∷ codes "json" ∷ [])
    lift_result (parse_nodes_json host output)

  abbrev pub has_name : Text → Members → Bool
  has_name hostname node = name_of host node == hostname

  abbrev pub ip_of_found : Option Members → Option Text
  ip_of_found none = none
  ip_of_found (some node) = node_ipv4 host node

  unfoldable pub get_node_tailscale_ip_by_hostname : Text → Exec W (Option Text)
  get_node_tailscale_ip_by_hostname hostname = do
    nodes ← list_headscale_nodes_raw
    pure (ip_of_found (first (has_name hostname) nodes))

  -- `tailscale_ip and ipv4 == tailscale_ip`
  abbrev pub has_ip : Option Text → Members → Bool
  has_ip none node = false
  has_ip (some ip) node =
      not (is_empty ip) && elim (node_ipv4 host node) [ none ↦ false | some ipv4 ↦ ipv4 == ip ]

  -- By the address, or by one of the names that are not empty.
  abbrev pub is_wanted : Option Text → List Text → Members → Bool
  is_wanted tailscale_ip hostnames node =
      has_ip tailscale_ip node
      || contains (select (λ name. not (is_empty name)) hostnames) (name_of host node)

  unfoldable pub find_gateway_headscale_node : Option Text → List Text → Exec W (Option Members)
  find_gateway_headscale_node tailscale_ip hostnames = do
    nodes ← list_headscale_nodes_raw
    pure (first (is_wanted tailscale_ip hostnames) nodes)

  -- The nodes that pass as exit nodes, one for each address.
  unfoldable pub collect_nodes : List Members → List Text → Result (List HeadscaleNode)
  collect_nodes [] seen = ok []
  collect_nodes (node ∷ nodes) seen =
      elim (parse_headscale_node host config.headscale_exit_node_tag node) [
        | err e ↦ err e
        | ok none ↦ collect_nodes nodes seen
        | ok (some parsed) ↦ elim (contains seen parsed.tailscale_ip) [
          | true ↦ collect_nodes nodes seen
          | false ↦ elim (collect_nodes nodes (parsed.tailscale_ip ∷ seen)) [
            | err e ↦ err e
            | ok rest ↦ ok (parsed ∷ rest)
          ]
        ]
      ]

  -- The second listing, where the first has no exit node.
  unfoldable pub list_by_routes : Exec W (List HeadscaleNode)
  list_by_routes = do
    output ←
        run_headscale host config
          (codes "nodes" ∷ codes "list-routes" ∷ codes "-o" ∷ codes "json" ∷ [])
    nodes ← lift_result (parse_nodes_json host output)
    lift_result (collect_nodes nodes [])

  unfoldable pub list_exit_nodes : Exec W (List HeadscaleNode)
  unfolding list_by_routes
  list_exit_nodes = do
    nodes ← list_headscale_nodes_raw
    result ← lift_result (collect_nodes nodes [])
    if is_empty result then list_by_routes else pure result

  abbrev pub approve_command : Json → List Text
  approve_command id =
      codes "nodes"
      ∷ codes "approve-routes"
      ∷ codes "-i"
      ∷ host.str_of id
      ∷ codes "-r"
      ∷ exit_route
      ∷ []

  -- The id of a node whose exit route is available and not approved.
  unfoldable pub to_approve : Members → Option Json
  to_approve node =
      if has_exit_route (route_list host node approved_keys)
      then none
      else if not (has_exit_route (route_list host node available_keys))
      then none
      else node_id_of node

  abbrev pub approve : Option Json → Exec W Bool
  approve none = pure false
  approve (some id) = run_headscale host config (approve_command id) >> pure true

  unfoldable pub approve_exit_route_if_needed : Members → Exec W Bool
  approve_exit_route_if_needed node = approve (to_approve node)

  abbrev pub has_id : ℕ → Members → Bool
  has_id id node = elim (node_id_of node) [ none ↦ false | some value ↦ equals_number id value ]

  abbrev pub approve_found : Option Members → Exec W Bool
  approve_found none = pure false
  approve_found (some node) = approve_exit_route_if_needed node

  unfoldable pub approve_node_exit_route : ℕ → Exec W Bool
  unfolding approve_exit_route_if_needed
  approve_node_exit_route id = do
    nodes ← list_headscale_nodes_raw
    approve_found (first (has_id id) nodes)

  unfoldable pub is_tagged : Members → Bool
  is_tagged node = node_has_exit_tag host node config.headscale_exit_node_tag

  unfoldable pub approve_all : List Members → ℕ → Exec W ℕ
  unfolding approve_exit_route_if_needed
  approve_all [] count = pure count
  approve_all (node ∷ nodes) count = elim (is_tagged node) [
    | false ↦ approve_all nodes count
    | true ↦ do
      done ← approve_exit_route_if_needed node
      approve_all nodes (if done then count + 1 else count)
  ]

  unfoldable pub approve_exit_routes_for_tagged_nodes : Exec W ℕ
  unfolding approve_all
  approve_exit_routes_for_tagged_nodes = do nodes ← list_headscale_nodes_raw; approve_all nodes 0

  unfoldable pub rename_headscale_node : ℕ → Text → Exec W (Unit {0})
  rename_headscale_node node_id new_name =
      run_headscale host config
        (codes "nodes" ∷ codes "rename" ∷ new_name ∷ codes "-i" ∷ decimal node_id ∷ [])
      >> pure tt

  unfoldable pub delete_headscale_node : ℕ → Exec W (Unit {0})
  delete_headscale_node node_id =
      run_headscale host config
        (codes "nodes" ∷ codes "delete" ∷ codes "-i" ∷ decimal node_id ∷ codes "--force" ∷ [])
      >> pure tt

  -- `if not node` is true of an empty dict, which has no id either.
  abbrev pub id_of_found : Option Members → Option Json
  id_of_found none = none
  id_of_found (some node) = node_id_of node

  abbrev pub delete_by_id : Option Json → Exec W Bool
  delete_by_id none = pure false
  delete_by_id (some value) = do
    id ← lift_result (int_or_raise host value)
    delete_headscale_node id
    pure true

  unfoldable pub delete_gateway_headscale_node : Option Text → List Text → Exec W Bool
  unfolding find_gateway_headscale_node delete_headscale_node
  delete_gateway_headscale_node tailscale_ip hostnames = do
    node ← find_gateway_headscale_node tailscale_ip hostnames
    delete_by_id (id_of_found node)

  abbrev pub exit_names : List Members → List Text
  exit_names nodes = collect_exit_node_names host.unicode (map (names_of host) nodes)

  unfoldable pub next_exit_name : List Text → Option Text
  next_exit_name taken = next_sequential_name exit_node_prefix taken sequential_width

  unfoldable pub assign_exit_node_name : ℕ → List Text → Exec W Text
  unfolding rename_headscale_node
  assign_exit_node_name node_id reserved = do
    nodes ← list_headscale_nodes_raw
    name ← require no_name (next_exit_name (exit_names nodes ++ reserved))
    rename_headscale_node node_id name
    pure name
