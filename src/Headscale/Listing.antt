-- ===== src/Headscale/Listing.antt =====
-- The exit nodes that are listed.
use deep_orc.Prelude.{
  ◌==◌, nat_eq, all, any, contains, Text, text_eq, ◌≡◌, Bool, true, not, ◌||◌, Option, some, List,
  [], ◌∷◌,
}
use deep_orc.Effects.{Result, ok}
use deep_orc.Database.{
  gateway_keyed, job_keyed, peer_keyed, group_keyed, worker_keyed, enrollment_keyed,
  registration_keyed,
}
use deep_orc.Pools.Constraints.{IsUnique}
use deep_orc.Headscale.Values.{Members}
use deep_orc.Headscale.{Host, HeadscaleSettings}
use deep_orc.Headscale.Nodes.{HeadscaleNode, parse_headscale_node}
use deep_orc.Headscale.Client.{collect_nodes}

abbrev pub same_address : HeadscaleNode → HeadscaleNode → Bool
same_address a b = a.tailscale_ip == b.tailscale_ip

abbrev pub has_address : Text → HeadscaleNode → Bool
has_address ip a = a.tailscale_ip == ip

abbrev pub is_listed : List HeadscaleNode → Text → Bool
is_listed listed ip = any (has_address ip) listed

module _ {W : Type 0} (host : Host W) (config : HeadscaleSettings) where
  abbrev pub parse : Members → Result (Option HeadscaleNode)
  parse = parse_headscale_node host config.headscale_exit_node_tag

  -- Every node that passes as an exit node has its address in the list, or had it before.
  abbrev pub AllListed : List Text → List HeadscaleNode → List Members → Type 0
  AllListed seen listed [] = Unit
  AllListed seen listed (node ∷ nodes) =
      ((a : HeadscaleNode)
        → parse node ≡ ok (some a)
        → (contains seen a.tailscale_ip || is_listed listed a.tailscale_ip) ≡ true)
      × AllListed seen listed nodes

  -- What is listed is what some node says.
  abbrev pub AllParsed : List Members → List HeadscaleNode → Type 0
  AllParsed nodes [] = Unit
  AllParsed nodes (a ∷ listed) =
      ((node : Members) × (parse node ≡ ok (some a))) × AllParsed nodes listed

  pub record IsListing (nodes : List Members) (seen : List Text) (listed : List HeadscaleNode)
      : Type 0 where
    pub distinct : IsUnique same_address listed
    pub unseen : all (λ a. not (contains seen a.tailscale_ip)) listed ≡ true
    pub complete : AllListed seen listed nodes
    pub parsed : AllParsed nodes listed

  abbrev collect : List Members → List Text → Result (List HeadscaleNode)
  collect = collect_nodes host config
