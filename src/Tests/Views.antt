-- ===== src/Tests/Views.antt =====
-- What the web interface shows.
use deep_orc.Prelude.{
  nat_eq, Among, Text, codes, text_eq, IsSorted, ◌≡◌, refl, ◌↔◌, ◌⊎◌, Bool, true, false, List, [],
  ◌∷◌,
}
use deep_orc.Models.{GatewayStatus, Gateway}
use deep_orc.Database.{
  gateway_keyed, job_keyed, peer_keyed, group_keyed, worker_keyed, enrollment_keyed,
  registration_keyed,
}
use deep_orc.Headscale.Nodes.{HeadscaleNode}
use deep_orc.Views.{node_before, selectable_exit_nodes}
use deep_orc.Views.Free.{IsFree}
use deep_orc.Views.Choice.{IsCurrent, selectable_exit_nodes_iff}
use deep_orc.Tests.Sample.{gateway_row}
use deep_orc.Tests.Headscale.{unicode}

abbrev node_at : Text → Bool → HeadscaleNode
node_at ip online = record {
  node_id = 1;
  hostname = ip;
  tailscale_ip = ip;
  online = online;
  exit_approved = true;
  exit_tagged = false;
  exit_advertised = false;
}

-- A gateway with the exit node "b", and another one with "c".
abbrev own_gateway : Gateway
own_gateway = record (gateway_row GatewayStatus.ready) { exit_node_id = codes "b" }

abbrev other_gateway : Gateway
other_gateway = record (gateway_row GatewayStatus.ready) {
  id = 4;
  name = codes "h";
  exit_node_id = codes "c";
}

abbrev three_nodes : List HeadscaleNode
three_nodes = node_at (codes "a") false ∷ node_at (codes "b") true ∷ node_at (codes "c") true ∷ []

-- The node of the other gateway is left out, and the connected one comes first.
options_of_own :
    selectable_exit_nodes unicode own_gateway (own_gateway ∷ other_gateway ∷ []) three_nodes
    ≡ node_at (codes "b") true ∷ node_at (codes "a") false ∷ []
unfolding selectable_exit_nodes
options_of_own = refl

selectable_exit_nodes_iff_example :
    IsSorted
      (node_before unicode)
      (selectable_exit_nodes unicode own_gateway (own_gateway ∷ other_gateway ∷ []) three_nodes)
    × (Among
          (node_at (codes "a") false)
          (selectable_exit_nodes unicode own_gateway (own_gateway ∷ other_gateway ∷ []) three_nodes)
        ↔ ((Among (node_at (codes "a") false) three_nodes
              × IsFree own_gateway (own_gateway ∷ other_gateway ∷ []) (node_at (codes "a") false))
            ⊎ IsCurrent own_gateway
                (own_gateway ∷ other_gateway ∷ [])
                three_nodes
                (node_at (codes "a") false)))
selectable_exit_nodes_iff_example =
    selectable_exit_nodes_iff own_gateway (own_gateway ∷ other_gateway ∷ []) unicode three_nodes
      (node_at (codes "a") false)
