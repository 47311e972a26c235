-- ===== src/Tests.antt =====
-- Runs of the model on small inputs.
pub mod Sample
pub mod Naming
pub mod Agent
pub mod Router
pub mod Routing
pub mod Addresses
pub mod Services
pub mod Background
pub mod Groups
pub mod Headscale
pub mod Metrics
pub mod Views
pub mod Provisioning
pub mod Registrations
pub mod Workers
use deep_orc.Prelude.{nat_eq, text_eq}
use deep_orc.Database.{
  gateway_keyed, job_keyed, peer_keyed, group_keyed, worker_keyed, enrollment_keyed,
  registration_keyed,
}
