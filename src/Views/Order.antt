-- ===== src/Views/Order.antt =====
-- The order of what is shown, and the exit nodes that can be chosen.
use deep_orc.Prelude.{
  nat_beq_iff, nat_eq, length, select, Text, text_eq, IsSorted, IsOrder, count-sort_by,
  sort_by-IsSorted, ℕ, ◌≡◌, refl, Bool, true, false, Option, List, [], ◌∷◌, map, arith,
}
use deep_orc.Naming.{Unicode, lower}
use deep_orc.Models.{Peer}
use deep_orc.Database.{
  gateway_keyed, job_keyed, peer_keyed, group_keyed, worker_keyed, enrollment_keyed,
  registration_keyed,
}
use deep_orc.Views.{
  PeerRow, text_leb, shown_before, row_before, peer_row, sort_peers_by_connectivity, node_before,
}

text_leb_total : (s t : Text) → text_leb s t ≡ false → text_leb t s ≡ true
text_leb_total [] t h = cc
text_leb_total (x ∷ s) [] h = refl
text_leb_total (x ∷ s) (y ∷ t) h =
    ground (arith, text_leb_total s t, nat_beq_iff x y, nat_beq_iff y x)

text_leb_trans : (s t r : Text) → text_leb s t ≡ true → text_leb t r ≡ true → text_leb s r ≡ true
text_leb_trans [] t r h k = refl
text_leb_trans (x ∷ s) [] r h k = cc
text_leb_trans (x ∷ s) (y ∷ t) [] h k = cc
text_leb_trans (x ∷ s) (y ∷ t) (z ∷ r) h k =
    ground (arith, text_leb_trans s t r, nat_beq_iff x y, nat_beq_iff y z, nat_beq_iff x z)

shown_before_total :
    (a b : Bool) (s t : Text) → shown_before a s b t ≡ false → shown_before b t a s ≡ true
shown_before_total true true s t h = text_leb_total s t h
shown_before_total true false s t h = cc
shown_before_total false true s t h = refl
shown_before_total false false s t h = text_leb_total s t h

shown_before_trans :
    (a b c : Bool) (s t r : Text)
    → shown_before a s b t ≡ true
    → shown_before b t c r ≡ true
    → shown_before a s c r ≡ true
shown_before_trans true true true s t r h k = text_leb_trans s t r h k
shown_before_trans true true false s t r h k = refl
shown_before_trans true false true s t r h k = cc
shown_before_trans true false false s t r h k = refl
shown_before_trans false true c s t r h k = cc
shown_before_trans false false true s t r h k = cc
shown_before_trans false false false s t r h k = text_leb_trans s t r h k

module _ (u : Unicode) where
  pub row_before-IsOrder : IsOrder (row_before u)
  row_before-IsOrder = record {
    total = λ a b.
        shown_before_total a.is_connected b.is_connected (lower u a.peer.name)
          (lower u b.peer.name);
    transitive = λ a b c.
        shown_before_trans a.is_connected b.is_connected c.is_connected (lower u a.peer.name)
          (lower u b.peer.name) (lower u c.peer.name);
  }

  pub node_before-IsOrder : IsOrder (node_before u)
  node_before-IsOrder = record {
    total = λ a b. shown_before_total a.online b.online (lower u a.hostname) (lower u b.hostname);
    transitive = λ a b c.
        shown_before_trans a.online b.online c.online (lower u a.hostname) (lower u b.hostname)
          (lower u c.hostname);
  }

  -- Peers are shown once each, the connected ones first, and by name within these two groups; what
  -- is shown of a peer is whether it is connected, and its last handshake.
  pub sort_peers_by_connectivity-IsSorted :
      (now : ℕ) (peers : List Peer) (handshakes : ℕ → Option ℕ)
      → IsSorted (row_before u) (sort_peers_by_connectivity u now peers handshakes)
        × ((q : PeerRow → Bool)
            → length (select q (sort_peers_by_connectivity u now peers handshakes))
              ≡ length (select q (map (peer_row now handshakes) peers)))
  unfolding sort_peers_by_connectivity
  sort_peers_by_connectivity-IsSorted now peers handshakes = (
    sort_by-IsSorted (row_before u) row_before-IsOrder (map (peer_row now handshakes) peers),
    λ q. count-sort_by (row_before u) q (map (peer_row now handshakes) peers),
  )
