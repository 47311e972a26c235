-- ===== src/Views.antt =====
-- orchestrator/web/views.py: what the web interface shows, and in which order.
pub mod Order
pub mod Current
pub mod Free
pub mod Choice
use deep_orc.Prelude.{
  ltb, if◌then◌else◌, ◌==◌, nat_eq, any, select, contains, Text, text_eq, is_empty, sort_by, ℕ, ◌-◌,
  Bool, true, false, not, ◌&&◌, ◌||◌, Option, none, some, List, [], ◌∷◌, map,
}
use deep_orc.Naming.{Unicode, lower}
use deep_orc.Models.{Gateway, Peer, Worker}
use deep_orc.Database.{
  gateway_keyed, job_keyed, peer_keyed, group_keyed, worker_keyed, enrollment_keyed,
  registration_keyed,
}
use deep_orc.Headscale.Nodes.{HeadscaleNode}
use deep_orc.Gateways.{known_exit_ip}

pub record PeerRow : Type 0 where
  pub peer : Peer
  pub is_connected : Bool
  pub last_handshake : Option ℕ

abbrev pub peer_online_handshake_seconds : ℕ
peer_online_handshake_seconds = 180

abbrev pub text_or_name : Option Text → Text → Text
text_or_name none name = name
text_or_name (some shown) name = if is_empty shown then name else shown

abbrev pub worker_host_label : Worker → Text
worker_host_label w = text_or_name w.tailscale_hostname w.name

abbrev pub recent : ℕ → Option ℕ → Bool
recent now none = false
recent now (some at) = ltb (now - at) peer_online_handshake_seconds

-- The metric is its last handshake, of which there may be none; a handshake in the future counts
-- as recent.
unfoldable pub peer_is_online : ℕ → Peer → Option ℕ → Bool
peer_is_online now peer handshake = if peer.suspended then false else recent now handshake

-- Texts in the order of their code points.
abbrev pub text_leb : Text → Text → Bool
text_leb [] t = true
text_leb (x ∷ s) [] = false
text_leb (x ∷ s) (y ∷ t) = let rest = text_leb s t in if x == y then rest else ltb x y

-- `(not online, name.lower())`, as tuples compare.
abbrev pub shown_before : Bool → Text → Bool → Text → Bool
shown_before true name true other = text_leb name other
shown_before true name false other = true
shown_before false name true other = false
shown_before false name false other = text_leb name other

abbrev pub row_before : Unicode → PeerRow → PeerRow → Bool
row_before u a b =
    shown_before a.is_connected (lower u a.peer.name) b.is_connected (lower u b.peer.name)

abbrev pub peer_row : ℕ → (ℕ → Option ℕ) → Peer → PeerRow
peer_row now handshakes peer = record {
  peer = peer;
  is_connected = peer_is_online now peer (handshakes peer.id);
  last_handshake = handshakes peer.id;
}

unfoldable pub sort_peers_by_connectivity : Unicode → ℕ → List Peer → (ℕ → Option ℕ) → List PeerRow
unfolding sort_by
sort_peers_by_connectivity u now peers handshakes =
    sort_by (row_before u) (map (peer_row now handshakes) peers)

abbrev pub gateway_headscale_display_name : Gateway → Option HeadscaleNode → Text
gateway_headscale_display_name g none = text_or_name (some g.tailscale_hostname) g.name
gateway_headscale_display_name g (some node) =
    text_or_name (some node.hostname) (text_or_name (some g.tailscale_hostname) g.name)

-- A dict of nodes: a key that is there already keeps its place.
abbrev pub put : Text → HeadscaleNode → List (Text × HeadscaleNode) → List (Text × HeadscaleNode)
put key node [] = (key, node) ∷ []
put key node ((k, n) ∷ entries) =
    if k == key then (k, node) ∷ entries else (k, n) ∷ put key node entries

abbrev pub entry : Text → List (Text × HeadscaleNode) → Option HeadscaleNode
entry key [] = none
entry key ((k, n) ∷ entries) = if k == key then some n else entry key entries

abbrev pub or_entry : Option HeadscaleNode → Option HeadscaleNode → Option HeadscaleNode
or_entry none other = other
or_entry (some node) other = some node

abbrev pub entry_if : Text → List (Text × HeadscaleNode) → Option HeadscaleNode
entry_if key entries = if is_empty key then none else entry key entries

unfoldable pub match_gateway_exit_node :
    Gateway → List (Text × HeadscaleNode) → List (Text × HeadscaleNode) → Option HeadscaleNode
match_gateway_exit_node g by_ip by_hostname =
    or_entry (elim (known_exit_ip g) [ none ↦ none | some ip ↦ entry ip by_ip ])
      (or_entry (entry_if g.tailscale_hostname by_hostname) (entry_if g.name by_hostname))

abbrev pub node_before : Unicode → HeadscaleNode → HeadscaleNode → Bool
node_before u a b = shown_before a.online (lower u a.hostname) b.online (lower u b.hostname)

-- The exit nodes' addresses of the gateways that have one.
abbrev pub assigned_ips : List Gateway → List Text
assigned_ips [] = []
assigned_ips (g ∷ gs) =
    let rest = assigned_ips gs in elim (known_exit_ip g) [ none ↦ rest | some ip ↦ ip ∷ rest ]

abbrev pub is_gateway_node : List Gateway → HeadscaleNode → Bool
is_gateway_node gateways node = contains (map (λ g. g.name) gateways) node.hostname

abbrev pub put_all : List HeadscaleNode → List (Text × HeadscaleNode) → List (Text × HeadscaleNode)
put_all [] entries = entries
put_all (n ∷ nodes) entries = put_all nodes (put n.tailscale_ip n entries)

unfoldable pub partition_exit_nodes :
    Unicode → List HeadscaleNode → List Gateway → List HeadscaleNode × List (Text × HeadscaleNode)
unfolding sort_by
partition_exit_nodes u nodes gateways =
    let phones = select (λ n. not (is_gateway_node gateways n)) nodes in
    (
      sort_by (node_before u)
          (select (λ n. not (contains (assigned_ips gateways) n.tailscale_ip)) phones),
      put_all phones [],
    )

abbrev pub same_bit : Bool → Bool → Bool
same_bit true b = b
same_bit false b = not b

-- Two nodes are equal field by field.
abbrev pub same_exit_node : HeadscaleNode → HeadscaleNode → Bool
same_exit_node a b =
    a.node_id == b.node_id
    && a.hostname == b.hostname
    && a.tailscale_ip == b.tailscale_ip
    && same_bit a.online b.online
    && same_bit a.exit_approved b.exit_approved
    && same_bit a.exit_tagged b.exit_tagged
    && same_bit a.exit_advertised b.exit_advertised

-- The addresses of the other gateways' exit nodes.
abbrev pub assigned_elsewhere : Gateway → List Gateway → List Text
assigned_elsewhere g gateways = assigned_ips (select (λ h. not (h.id == g.id)) gateways)

abbrev pub is_option : Gateway → List Gateway → HeadscaleNode → Bool
is_option g gateways n =
    not (is_gateway_node gateways n)
    && (n.exit_approved || n.exit_tagged || n.exit_advertised)
    && not (contains (assigned_elsewhere g gateways) n.tailscale_ip)

abbrev pub with_current : Option HeadscaleNode → List HeadscaleNode → List HeadscaleNode
with_current none options = options
with_current (some current) options =
    if any (same_exit_node current) options then options else current ∷ options

-- The gateway's own node, if it is listed.
abbrev pub current_node : Gateway → List HeadscaleNode → Option HeadscaleNode
current_node g nodes = elim (known_exit_ip g) [
  | none ↦ none
  | some ip ↦ entry ip (put_all nodes [])
]

unfoldable pub selectable_exit_nodes :
    Unicode → Gateway → List Gateway → List HeadscaleNode → List HeadscaleNode
unfolding sort_by
selectable_exit_nodes u g gateways nodes =
    sort_by (node_before u)
      (with_current (current_node g nodes) (select (is_option g gateways) nodes))
