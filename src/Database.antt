-- ===== src/Database.antt =====
-- The tables, and the repositories of orchestrator/repositories/ that read and write them.
-- The session's autoflush is off, and each method flushes what it writes before anything is read
-- again, so a write is a write to the tables.
pub mod Gateways
pub mod Jobs
pub mod Workers
pub mod Enrollments
pub mod Groups
pub mod Registrations
use deep_orc.Prelude.{◌==◌, nat_eq, text_eq, ℕ, Bool, false, Option, none, some, List}
use deep_orc.Models.{
  Gateway, Job, Peer, PeerGroup, PortAllocation, IpAllocation, Worker, WorkerEnrollment,
  RegistrationRequest,
}
use deep_orc.Tables.{Keyed}
use deep_orc.Effects.{Exec}

pub record Database : Type 0 where
  pub gateways : List Gateway
  pub jobs : List Job
  pub peers : List Peer
  pub peer_groups : List PeerGroup
  pub workers : List Worker
  pub ip_allocations : List IpAllocation
  pub port_allocations : List PortAllocation
  pub enrollments : List WorkerEnrollment
  pub registrations : List RegistrationRequest

instance abbrev pub gateway_keyed : Keyed Gateway
gateway_keyed = record { key = λ r. r.id }

instance abbrev pub job_keyed : Keyed Job
job_keyed = record { key = λ r. r.id }

instance abbrev pub peer_keyed : Keyed Peer
peer_keyed = record { key = λ r. r.id }

instance abbrev pub group_keyed : Keyed PeerGroup
group_keyed = record { key = λ r. r.id }

instance abbrev pub worker_keyed : Keyed Worker
worker_keyed = record { key = λ r. r.id }

instance abbrev pub enrollment_keyed : Keyed WorkerEnrollment
enrollment_keyed = record { key = λ r. r.id }

instance abbrev pub registration_keyed : Keyed RegistrationRequest
registration_keyed = record { key = λ r. r.id }

-- A column that may be NULL, compared with a value.
abbrev pub is_just : Option ℕ → ℕ → Bool
is_just none n = false
is_just (some m) n = m == n

abbrev pub Query : Type 0 → Type 0
Query = Exec Database
