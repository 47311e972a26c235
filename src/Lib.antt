-- ===== src/Lib.antt =====
-- deepOrc's control plane: a verification library of orchestrator/ and gateway_agent/.
--
-- deepOrc runs exit gateways in virtual machines on remote workers. A request creates a row for a
-- gateway and a job, a background thread provisions the VM through Incus and the gateway's agent,
-- and Headscale joins it to the tailnet; one WireGuard peer links each gateway to its uplink.
-- Deletion runs as a job of its own. The services share one database session.
--
-- Naming (orchestrator/naming.py): sequential names, and the display names that users choose.
-- Models, Database (orchestrator/models, orchestrator/repositories): rows, tables and queries. A table
--   is the list of its rows in the order of their keys; Tables has the laws of lookups and updates.
-- Pools (orchestrator/incus/network.py), Lan (orchestrator/lan/ipam.py), Wg (orchestrator/wg/ipam.py):
--   the allocation of addresses and ports.
-- Workers (orchestrator/services/worker_service.py): the placement of gateways, and the registration
--   and enrollment of workers.
-- Gateways (orchestrator/services/gateway_service.py): creation, provisioning, deletion, renaming.
-- Groups (orchestrator/services/peer_group_service.py): gateways that share a LAN, made in batches.
-- Headscale (orchestrator/headscale/client.py): what is asked of Headscale's command line, and how its
--   answers are read. The services see Headscale through Platform, not through this client.
-- Registrations (orchestrator/web/register_routes.py, two handlers of orchestrator/web/routes.py):
--   phones that ask to join, their codes, and their approval through Headscale.
-- Metrics (orchestrator/workers/egress_metrics.py and metrics_collector.py,
--   orchestrator/repositories/metrics_repo.py, orchestrator/services/gateway_connectivity.py): when
--   a gateway's public address is looked up, and the collector's round over the gateways.
-- Agent (gateway_agent/nft_handler.py, gateway_agent/tailscale_handler.py): how the gateway's agent
--   suspends and resumes a peer, and how it routes what exit clients send. Agent.RuleLog is a record
--   of the rules that a machine was asked to add; Agent.Policy has proof rules for it. What the
--   kernel makes of a rule is not modelled.
-- AgentClient (orchestrator/services/gateway_agent_client.py): the requests that a script makes inside
--   a gateway's machine. AgentClient.Shell is a reference: how a POSIX shell reads a simple command.
-- Views (orchestrator/web/views.py): the order of what is shown, and the exit nodes on offer.
-- Peers (orchestrator/services/peer_service.py): the backhaul peer and the uplink's file.
-- Stages, Jobs (orchestrator/workers): stages, provisioning and deletion jobs.
-- Effects, Session: methods that change state and may raise, the session with what is committed, and
--   proof rules for them. Tests: runs on small inputs.
--
-- Platform holds what is outside: the clock, randomness, encryption, key generation of the database,
-- Headscale, Incus, the agents' requests and the files on the gateways. Each of them may raise any
-- failure and may change the outside world only; the one law assumed of all of them is that a new
-- primary key is greater than the keys in use. Headscale.Host, Agent.Processes, Agent.Routing.Machine,
-- Registrations.RegistrationHost, Metrics.Egress.EgressHost and Metrics.Collector.CollectorHost are
-- the same for a process and JSON, for the processes and the files of a gateway, for random codes,
-- and for the answers of the agent, of Incus and of the geolocation.
--
-- An address is the number it stands for, a point in time a number of seconds, a text the list of
-- its code points. A write to a row takes effect at once, as a flush does; `commit` makes it
-- durable and `rollback` undoes what was not committed. `None` and a NULL column are `none`.
-- Statistics columns, creation times, ids of allocation rows and the texts of exceptions are not
-- modelled: a failure is its kind, and a ValueError its cause.
--
-- The loops over addresses and names search a finite range, which is the source's own bound. The
-- two waits for an agent poll until a deadline each; `Polls` has the numbers of polls that they
-- leave time for, and every statement about provisioning holds for all of them. Platform's
-- `agent_online` stands for one question for the agent's health and the test of its two flags.
-- Times are whole seconds, so an age is compared without its fraction.
--
-- A code for a phone is drawn at most 50 times, as in the source. Exceptions that no caller tells
-- apart (of JSON, of `int`, of a missing key, and the one for want of a code) are reasons of
-- `value_error`.
--
-- Not modelled: the other web and API routes, the Incus client, host set-up and cloud-init texts, the
-- rest of the gateway's own agent, configuration and migrations, which are input and
-- output around the services.
mod Prelude
pub mod Agent
pub mod AgentClient
pub mod Naming
pub mod Models
pub mod Tables
pub mod Effects
pub mod Database
pub mod Pools
pub mod Lan
pub mod Wg
pub mod Platform
pub mod Session
pub mod Stages
pub mod Workers
pub mod Gateways
pub mod Groups
pub mod Headscale
pub mod Peers
pub mod Views
pub mod Registrations
pub mod Metrics
pub mod Jobs
pub mod Tests
