-- ===== src/Groups/Creation.antt =====
-- How `create_group` ends.
use deep_orc.Prelude.{
  ltb, leb, Bool-cases, Option-cases, nat_eq, any, contains, Among, any-Among, Among-any,
  text_beq_iff, text_eq, is_empty, strip, ℕ, ◌+◌, ◌≡◌, refl, ◌≢◌, ◌⊎◌, inl, inr, true, false,
  Option, none, some, List, [], ◌∷◌, ◌++◌, arith,
}
use deep_orc.Models.Ipv4.{Network, in_network, first_host, last_host}
use deep_orc.Models.{
  Reason, value_error, bad_name, group_exists, worker_not_found, bad_start_ip, bad_subnet,
  address_overflow, PeerGroup, Worker,
}
use deep_orc.Tables.{get, keys, get-key, get-none-keys}
use deep_orc.Effects.{ok, err, ◌>>=◌}
use deep_orc.Database.{
  Database, gateway_keyed, job_keyed, peer_keyed, group_keyed, worker_keyed, enrollment_keyed,
  registration_keyed,
}
use deep_orc.Lan.{address_limit, default_lan_gateway, validate_lan_start_ip}
use deep_orc.Database.Groups.{create_group_row}
use deep_orc.Platform.{Platform, Settings, new_key_fresh}
use deep_orc.Session.{State, query, commit}
use deep_orc.Workers.{get_worker}
use deep_orc.Groups.{
  CreatePeerGroupRequest, chosen_subnet, chosen_gateway, chosen_iface, new_group, has_name,
  store_group, create_group,
}

-- The group that was asked for, behind those there were and under a name and a key of its own, with
-- nothing else written and everything committed.
pub record IsNewGroup {W : Type 0} (r : CreatePeerGroupRequest) (s t : State W) (g : PeerGroup)
    : Type 0 where
  pub named : g.name ≡ strip r.name
  pub not_blank : is_empty g.name ≡ false
  pub new_name : (h : PeerGroup) → Among h s.db.peer_groups → h.name ≢ g.name
  pub new_key : contains (keys s.db.peer_groups) g.id ≡ false
  pub on_worker : g.worker_id ≡ r.worker_id
  pub worker_known : contains (keys s.db.workers) r.worker_id ≡ true
  pub subnet : g.lan_subnet ≡ chosen_subnet r
  pub start : g.lan_start_ip ≡ r.lan_start_ip
  pub iface : g.parent_iface ≡ chosen_iface r.parent_iface
  pub start_inside : in_network g.lan_start_ip g.lan_subnet ≡ true
  pub lan_gateway : ℕ
  pub routed : g.lan_gateway ≡ some lan_gateway
  pub chosen : chosen_gateway r.lan_gateway g.lan_subnet ≡ ok lan_gateway
  pub added : t.db ≡ record s.db { peer_groups = s.db.peer_groups ++ g ∷ [] }
  pub all_saved : t.saved ≡ t.db

-- What is wrong with a request, and the reason that says so.
pub data IsRefused (r : CreatePeerGroupRequest) (db : Database) (why : Reason) : Type 0 where
  blank : why ≡ bad_name → is_empty (strip r.name) ≡ true → IsRefused r db why
  taken :
      (h : PeerGroup)
      → why ≡ group_exists
      → Among h db.peer_groups
      → h.name ≡ strip r.name
      → IsRefused r db why
  unknown_worker :
      why ≡ worker_not_found → contains (keys db.workers) r.worker_id ≡ false → IsRefused r db why
  start_outside :
      why ≡ bad_start_ip → in_network r.lan_start_ip (chosen_subnet r) ≡ false → IsRefused r db why
  unrouted :
      chosen_gateway r.lan_gateway (chosen_subnet r) ≡ err (value_error why) → IsRefused r db why

get-some-keys :
    (k : ℕ) (rows : List Worker) (w : Worker) → get k rows ≡ some w → contains (keys rows) k ≡ true
get-some-keys k [] w h = cc
get-some-keys k (r ∷ rows) w h = ground (arith, get-some-keys k rows w)

default_lan_gateway-cases :
    (n : Network)
    → ((ip : ℕ) × (default_lan_gateway n ≡ ok ip))
      ⊎ ((why : Reason) × (default_lan_gateway n ≡ err (value_error why)))
unfolding default_lan_gateway
default_lan_gateway-cases n = elim (Bool-cases (leb address_limit (n.network_address + 254))) [
  | inl beyond ↦ inr (address_overflow, rw beyond refl)
  | inr below ↦ elim (Bool-cases (in_network (n.network_address + 254) n)) [
    | inl inside ↦ inl (n.network_address + 254, rw (below, inside) refl)
    | inr outside ↦ elim (Bool-cases (ltb (last_host n) (first_host n))) [
      | inl no_host ↦ inr (bad_subnet, rw (below, outside, no_host) refl)
      | inr hosts ↦ inl (last_host n, rw (below, outside, hosts) refl)
    ]
  ]
]

chosen_gateway-cases :
    (o : Option ℕ) (n : Network)
    → ((ip : ℕ) × (chosen_gateway o n ≡ ok ip))
      ⊎ ((why : Reason) × (chosen_gateway o n ≡ err (value_error why)))
chosen_gateway-cases none n = default_lan_gateway-cases n
chosen_gateway-cases (some ip) n = inl (ip, refl)

module _ {W : Type 0} (p : Platform W) (config : Settings) (r : CreatePeerGroupRequest) where
  served :
      (s : State W) (worker : Worker) (ip : ℕ)
      → is_empty (strip r.name) ≡ false
      → any (has_name (strip r.name)) s.db.peer_groups ≡ false
      → get r.worker_id s.db.workers ≡ some worker
      → in_network r.lan_start_ip (chosen_subnet r) ≡ true
      → chosen_gateway r.lan_gateway (chosen_subnet r) ≡ ok ip
      → (g : PeerGroup) × ((create_group p config r s).0 ≡ ok g)
        × IsNewGroup r s (create_group p config r s).1 g
  unfolding create_group store_group create_group_row query commit get_worker validate_lan_start_ip
      ◌>>=◌
  served s worker ip some_name new found inside good =
      let row : PeerGroup = new_group r worker ip (p.new_key (keys s.db.peer_groups)) in
      let db : Database = record s.db { peer_groups = s.db.peer_groups ++ row ∷ [] } in
      let whole : create_group p config r s ≡ (ok row, record s { db = db; saved = db }) =
        rw (some_name, new, found, inside, good) (rw new refl) in
      (
        row,
        rw whole refl,
        rw whole (record {
          named = refl;
          not_blank = some_name;
          new_name = λ h there e. cc (
            new,
            Among-any (has_name (strip r.name)) s.db.peer_groups h there
                ((text_beq_iff h.name (strip r.name)).1 e),
          );
          new_key = new_key_fresh p (keys s.db.peer_groups);
          on_worker = get-key r.worker_id s.db.workers worker found;
          worker_known = get-some-keys r.worker_id s.db.workers worker found;
          subnet = refl;
          start = refl;
          iface = refl;
          start_inside = inside;
          lan_gateway = ip;
          routed = refl;
          chosen = good;
          added = refl;
          all_saved = refl;
        }),
      )

  -- A request for a group is served or refused. If it is served, the group is the one that was asked
  -- for, behind those there were, with a key and a name that none of them has, on a worker that is
  -- known, and with a start address in its subnet; nothing else is written, and that is committed.
  -- If it is refused, then by a ValueError for what is wrong with the request, never by a
  -- constraint of the database, and nothing is written.
  pub create_group-cases :
      (s : State W)
      → ((g : PeerGroup) × ((create_group p config r s).0 ≡ ok g)
          × IsNewGroup r s (create_group p config r s).1 g)
        ⊎ ((why : Reason) × (create_group p config r s ≡ (err (value_error why), s))
            × IsRefused r s.db why)
  unfolding create_group query get_worker validate_lan_start_ip ◌>>=◌
  create_group-cases s = elim (Bool-cases (is_empty (strip r.name))) [
    | inl empty_name ↦ inr (bad_name, rw empty_name refl, blank refl empty_name)
    | inr some_name ↦ elim (Bool-cases (any (has_name (strip r.name)) s.db.peer_groups)) [
      | inl old ↦
          let (h, there, same) = any-Among (has_name (strip r.name)) s.db.peer_groups old in
          inr (
            group_exists,
            rw (some_name, old) refl,
            taken h refl there ((text_beq_iff h.name (strip r.name)).0 same),
          )
      | inr new ↦ elim (Option-cases (get r.worker_id s.db.workers)) [
        | inl missing ↦ inr (
          worker_not_found,
          rw (some_name, new, missing) refl,
          unknown_worker refl (get-none-keys r.worker_id s.db.workers missing),
        )
        | inr (worker, found) ↦ elim (Bool-cases (in_network r.lan_start_ip (chosen_subnet r))) [
          | inr outside ↦
              inr
                (bad_start_ip, rw (some_name, new, found, outside) refl, start_outside refl outside)
          | inl inside ↦ elim (chosen_gateway-cases r.lan_gateway (chosen_subnet r)) [
            | inr (why, bad) ↦ inr (why, rw (some_name, new, found, inside, bad) refl, unrouted bad)
            | inl (ip, good) ↦ inl (served s worker ip some_name new found inside good)
          ]
        ]
      ]
    ]
  ]
