-- ===== src/Tests/Provisioning.antt =====
-- The provisioning of a gateway.
use deep_orc.Prelude.{
  ltb, nat_eq, find_from, text_eq, ℕ, ◌+◌, ◌≡◌, refl, true, none, [], ◌∷◌, arith,
}
use deep_orc.Models.{GatewayStatus}
use deep_orc.Effects.{ok, ◌>>=◌, try_except}
use deep_orc.Database.{
  gateway_keyed, job_keyed, peer_keyed, group_keyed, worker_keyed, enrollment_keyed,
  registration_keyed,
}
use deep_orc.Wg.{new_peer_ip, allocate_peer_ip}
use deep_orc.Database.Gateways.{update_gateway_status}
use deep_orc.Platform.{Platform}
use deep_orc.Session.{State, query, outside, ask, commit, write}
use deep_orc.Agent.RuleLog.{words_eq}
use deep_orc.Workers.{get_worker}
use deep_orc.Peers.{
  list_by_gateway, get_agent, set_gateway_uplink_peer, store_peer, create_peer,
  ensure_backhaul_peer,
}
use deep_orc.Gateways.Provision.{
  Polls, finalize_exit_node, swallow, set_up_peer, finish_provisioning, wait_until_healthy,
  provision_gateway,
}
use deep_orc.Gateways.Provision.Waits.{polled, wait_until_healthy-online}
use deep_orc.Gateways.Provision.Ends.{HasSettled, provision_gateway-HasSettled}
use deep_orc.Tests.Sample.{World, platform_with, platform, gateway_row, database, session}

abbrev waiting_gateway : State World
waiting_gateway = session (database (gateway_row GatewayStatus.pending ∷ []) [])

abbrev one_poll : Polls
one_poll = record { cloud_init = 1; agent = 1 }

provision_gateway-HasSettled_example :
    HasSettled 3 (provision_gateway platform one_poll 3 none waiting_gateway).1.db
    × HasSettled 3 (provision_gateway platform one_poll 3 none waiting_gateway).1.saved
unfolding provision_gateway ◌>>=◌ query outside get_worker write commit try_except
    finish_provisioning finalize_exit_node set_up_peer ensure_backhaul_peer ask
    update_gateway_status list_by_gateway create_peer get_agent allocate_peer_ip new_peer_ip
    find_from store_peer set_gateway_uplink_peer swallow
provision_gateway-HasSettled_example =
    provision_gateway-HasSettled platform 3 one_poll none waiting_gateway refl

-- A world that counts the polls; the agent is online from the second one on.
abbrev slow : Platform ℕ
slow = platform_with (λ g polls. (ok (ltb 0 polls), polls + 1))

abbrev first_poll : State ℕ
first_poll = record {
  db = database (gateway_row GatewayStatus.provisioning ∷ []) [];
  saved = database (gateway_row GatewayStatus.provisioning ∷ []) [];
  world = 0;
}

wait_until_healthy-online_example :
    wait_until_healthy slow 60 (gateway_row GatewayStatus.provisioning) none first_poll
    ≡ (ok true, record first_poll { world = 2 })
unfolding polled outside try_except ◌>>=◌
wait_until_healthy-online_example =
    wait_until_healthy-online slow (gateway_row GatewayStatus.provisioning) none 1 60 first_poll
      (omega arith) (refl, refl)
