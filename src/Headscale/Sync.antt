-- ===== src/Headscale/Sync.antt =====
-- `sync_exit_node_names`: the nodes that could be exit nodes get names of their own.
use deep_orc.Prelude.{
  leb, if◌then◌else◌, nat_eq, select, contains, Text, text_eq, is_empty, sort_by, ℕ, ◌+◌, Bool, not,
  ◌&&◌, ◌||◌, Option, none, some, List, [], ◌∷◌, ◌++◌,
}
use deep_orc.Naming.{is_gateway_name, is_exit_node_name}
use deep_orc.Models.{no_name}
use deep_orc.Effects.{Result, ok, err, Exec, pure, lift_result, require, ◌>>=◌, ◌>>◌}
use deep_orc.Database.{
  gateway_keyed, job_keyed, peer_keyed, group_keyed, worker_keyed, enrollment_keyed,
  registration_keyed,
}
use deep_orc.Headscale.Values.{Json, Members, truthy}
use deep_orc.Headscale.{Host, HeadscaleSettings}
use deep_orc.Headscale.Nodes.{node_id_of, name_of, int_or_raise, exit_candidate}
use deep_orc.Headscale.Client.{
  list_headscale_nodes_raw, rename_headscale_node, exit_names, next_exit_name,
}

pub record KeyedNode : Type 0 where
  pub sort_key : ℕ
  pub node : Members

abbrev pub by_id : KeyedNode → KeyedNode → Bool
by_id a b = leb a.sort_key b.sort_key

module _ {W : Type 0} (host : Host W) (config : HeadscaleSettings) where
  -- `int(item.get("id") or 0)`
  abbrev pub sort_id : Option Json → Result ℕ
  sort_id none = ok 0
  sort_id (some value) = if truthy value then int_or_raise host value else ok 0

  unfoldable pub with_keys : List Members → Result (List KeyedNode)
  with_keys [] = ok []
  with_keys (node ∷ nodes) = elim (sort_id (node_id_of node)) [
    | err e ↦ err e
    | ok k ↦ elim (with_keys nodes) [
      | err e ↦ err e
      | ok rest ↦ ok (record { sort_key = k; node = node } ∷ rest)
    ]
  ]

  -- Not yet renamed, not a gateway, and tagged or advertising.
  abbrev pub wants_name : List Text → Members → Bool
  wants_name gateway_names node =
      let current = name_of host node in
      not (is_exit_node_name host.unicode current)
      && not (is_gateway_name host.unicode current || contains gateway_names current)
      && exit_candidate host config.headscale_exit_node_tag node

  -- The id of a node that is to be renamed.
  unfoldable pub to_rename : List Text → Members → Option Json
  to_rename gateway_names node = if wants_name gateway_names node then node_id_of node else none

  -- The name is chosen before the id is read.
  unfoldable pub rename_next : Json → List Text → Exec W Text
  unfolding ◌>>=◌
  rename_next value taken = do
    name ← require no_name (next_exit_name host config taken)
    id ← lift_result (int_or_raise host value)
    rename_headscale_node host config id name
    pure name

  unfoldable pub rename_all : List Text → List KeyedNode → List Text → ℕ → Exec W ℕ
  rename_all gateway_names [] taken renamed = pure renamed
  rename_all gateway_names (item ∷ items) taken renamed = elim (to_rename gateway_names item.node) [
    | none ↦ rename_all gateway_names items taken renamed
    | some value ↦ do
      name ← rename_next value taken
      rename_all gateway_names items (name ∷ taken) (renamed + 1)
  ]

  unfoldable pub sync_exit_node_names : List Text → Exec W ℕ
  sync_exit_node_names gateway_names = do
    nodes ← list_headscale_nodes_raw host config
    keyed ← lift_result (with_keys nodes)
    let taken = exit_names host config nodes ++ select (λ name. not (is_empty name)) gateway_names
    rename_all gateway_names (sort_by by_id keyed) taken 0
