-- ===== src/Groups/Members.antt =====
-- The gateways of a group, and their LAN addresses, as a batch makes them.
use deep_orc.Prelude.{
  nat_beq_iff, Bool-cases, Option-cases, ◌==◌, nat_eq, length, any, contains, text_eq, ℕ, ◌≤◌, ◌≡◌,
  refl, ap, ◌∙◌, inl, inr, Bool, true, false, some, List, [], ◌∷◌, ◌++◌, arith,
}
use deep_orc.Models.Ipv4.{in_network}
use deep_orc.Models.{GatewayStatus, JobType, JobStatus, Gateway, Job, PeerGroup}
use deep_orc.Database.{
  Database, gateway_keyed, job_keyed, peer_keyed, group_keyed, worker_keyed, enrollment_keyed,
  registration_keyed,
}
use deep_orc.Pools.Constraints.{IsUnique, IsUnique-snoc}
use deep_orc.Lan.{in_group, group_lan_ips}

abbrev equal_ips : ℕ → ℕ → Bool
equal_ips a b = a == b

equal_ips_comm : (a b : ℕ) → equal_ips a b ≡ equal_ips b a
equal_ips_comm a b = ground (arith, nat_beq_iff a b, nat_beq_iff b a)

any-equal_ips : (ips : List ℕ) (ip : ℕ) → any (equal_ips ip) ips ≡ contains ips ip
any-equal_ips [] ip = refl
any-equal_ips (a ∷ ips) ip = ground (arith, any-equal_ips ips ip, equal_ips_comm a ip)

-- No two gateways of the group have one LAN address.
abbrev pub LanApart : PeerGroup → List Gateway → Type 0
LanApart group gateways = IsUnique equal_ips (group_lan_ips group.id gateways)

-- A gateway of the batch: PENDING, in the group, at an address of the group's subnet from its
-- start address on.
pub record IsMember (group : PeerGroup) (g : Gateway) : Type 0 where
  pub lan_ip : ℕ
  pub in_it : g.peer_group_id ≡ some group.id
  pub at : g.lan_ip ≡ some lan_ip
  pub inside : in_network lan_ip group.lan_subnet ≡ true
  pub from_start : group.lan_start_ip ≤ lan_ip
  pub waits : g.status ≡ GatewayStatus.pending

abbrev pub AllMembers : PeerGroup → List Gateway → Type 0
AllMembers group [] = Unit
AllMembers group (g ∷ gs) = IsMember group g × AllMembers group gs

-- A job that creates the gateway, PENDING.
pub record IsTaskOf (g : Gateway) (j : Job) : Type 0 where
  pub owner : j.gateway_id ≡ some g.id
  pub kind : j.type ≡ JobType.create_gateway
  pub waits : j.status ≡ JobStatus.pending

-- The gateways and the jobs belong together one by one, in their order.
abbrev pub AllTasks : List Gateway → List Job → Type 0
AllTasks [] [] = Unit
AllTasks [] (j ∷ js) = ⊥
AllTasks (g ∷ gs) [] = ⊥
AllTasks (g ∷ gs) (j ∷ js) = IsTaskOf g j × AllTasks gs js

pub record IsBatch (group : PeerGroup) (n : ℕ) (gateways : List Gateway) (jobs : List Job)
    (db : Database) : Type 0 where
  pub added : List Gateway
  pub tasks : List Job
  pub gateways_added : db.gateways ≡ gateways ++ added
  pub jobs_added : db.jobs ≡ jobs ++ tasks
  pub count : length added ≡ n
  pub members : AllMembers group added
  pub own_jobs : AllTasks added tasks
  pub apart : LanApart group db.gateways

group_lan_ips-snoc :
    (group : PeerGroup) (gateways : List Gateway) (g : Gateway) (ip : ℕ)
    → g.peer_group_id ≡ some group.id
    → g.lan_ip ≡ some ip
    → group_lan_ips group.id (gateways ++ g ∷ []) ≡ group_lan_ips group.id gateways ++ ip ∷ []
group_lan_ips-snoc group [] g ip h e = rw (h, e) (ground (arith, nat_beq_iff group.id group.id))
group_lan_ips-snoc group (r ∷ gateways) g ip h e = elim (Bool-cases (in_group group.id r)) [
  | inr other ↦ rw other (group_lan_ips-snoc group gateways g ip h e)
  | inl mine ↦ elim (Option-cases r.lan_ip) [
    | inl no_ip ↦ rw (mine, no_ip) (group_lan_ips-snoc group gateways g ip h e)
    | inr (a, some_ip) ↦
        rw (mine, some_ip) (ap (λ l. a ∷ l) (group_lan_ips-snoc group gateways g ip h e))
  ]
]

pub LanApart-snoc :
    (group : PeerGroup) (gateways : List Gateway) (g : Gateway) (ip : ℕ)
    → g.peer_group_id ≡ some group.id
    → g.lan_ip ≡ some ip
    → contains (group_lan_ips group.id gateways) ip ≡ false
    → LanApart group gateways
    → LanApart group (gateways ++ g ∷ [])
LanApart-snoc group gateways g ip h e free u = rw (group_lan_ips-snoc group gateways g ip h e) (
    IsUnique-snoc equal_ips equal_ips_comm (group_lan_ips group.id gateways) ip u
      (any-equal_ips (group_lan_ips group.id gateways) ip ∙ free))

-- One round adds one member, at an address that no gateway of the group had, and its job.
pub record IsGrown (group : PeerGroup) (gateways : List Gateway) (jobs : List Job) (db : Database)
    : Type 0 where
  pub gateway : Gateway
  pub job : Job
  pub gateway_added : db.gateways ≡ gateways ++ gateway ∷ []
  pub job_added : db.jobs ≡ jobs ++ job ∷ []
  pub member : IsMember group gateway
  pub own_job : IsTaskOf gateway job
  pub free : contains (group_lan_ips group.id gateways) member.lan_ip ≡ false
