-- ===== src/Metrics/Unthrottled.antt =====
-- Collections while no public address of a gateway is known.
use deep_orc.Prelude.{
  leb, Bool-cases, ◌==◌, nat_eq, any, text_eq, ℕ, ◌≡◌, refl, ◌∙◌, inl, inr, true, false, Option,
  none, some, List, [], ◌∷◌, arith,
}
use deep_orc.Models.{Gateway}
use deep_orc.Effects.{pure, ◌>>=◌}
use deep_orc.Database.{
  gateway_keyed, job_keyed, peer_keyed, group_keyed, worker_keyed, enrollment_keyed,
  registration_keyed,
}
use deep_orc.Metrics.{
  InterfaceState, GatewayMetric, no_egress, egress_snapshot_from_metric, pathways_ready,
  should_refresh_egress, merge_egress, newer, latest_gateway_metric, has_egress,
  latest_gateway_metric_with_egress,
}
use deep_orc.Metrics.Egress.{EgressHost, egress_geo_from_agent, snapshot_of, resolve_egress}
use deep_orc.Metrics.Laws.{chosen, is_candidate, chosen-skip}

module _ {W : Type 0} (host : EgressHost W) (gateway : Gateway) where
  abbrev NoAddress : Option GatewayMetric → Type 0
  NoAddress none = Unit
  NoAddress (some m) = has_egress m.egress_public_ip ≡ false

  newer-NoAddress :
      (m : GatewayMetric) (o : Option GatewayMetric)
      → has_egress m.egress_public_ip ≡ false
      → NoAddress o
      → NoAddress (newer m o)
  newer-NoAddress m none h k = h
  newer-NoAddress m (some n) h k = elim (Bool-cases (leb m.polled_at n.polled_at)) [
    | inl later ↦ rw later k
    | inr sooner ↦ rw sooner h
  ]

  latest-NoAddress :
      (ms : List GatewayMetric)
      → any (is_candidate host gateway) ms ≡ false
      → NoAddress (latest_gateway_metric gateway.id ms)
  unfolding latest_gateway_metric
  latest-NoAddress [] h = tt
  latest-NoAddress (m ∷ ms) h = elim (Bool-cases (m.gateway_id == gateway.id)) [
    | inr other ↦ rw other (latest-NoAddress ms (ground arith))
    | inl own ↦ rw own (
        newer-NoAddress m (latest_gateway_metric gateway.id ms) (ground arith)
          (latest-NoAddress ms (ground arith)))
  ]

  chosen-none :
      (ms : List GatewayMetric)
      → any (is_candidate host gateway) ms ≡ false
      → chosen host gateway ms ≡ none
  unfolding latest_gateway_metric_with_egress
  chosen-none [] h = refl
  chosen-none (m ∷ ms) h =
      chosen-skip host gateway m ms (ground arith) ∙ chosen-none ms (ground arith)

  no_snapshot : (o : Option GatewayMetric) → NoAddress o → snapshot_of host none o ≡ no_egress
  unfolding egress_snapshot_from_metric
  no_snapshot none h = refl
  no_snapshot (some m) h = ground arith

  -- While no row of the gateway has an address, every collection that finds both interfaces online
  -- asks the agent, however recently the last one did.
  pub resolve_egress-unthrottled :
      (now : ℕ) (ms : List GatewayMetric) (current : InterfaceState) (w : W)
      → any (is_candidate host gateway) ms ≡ false
      → pathways_ready current ≡ true
      → resolve_egress host gateway ms current now w
        ≡ (egress_geo_from_agent host gateway no_egress
              >>= (λ refreshed. pure (merge_egress no_egress refreshed true now)))
            w
  unfolding resolve_egress should_refresh_egress
  resolve_egress-unthrottled now ms current w none_known up =
      rw
        (
          chosen-none ms none_known,
          no_snapshot (latest_gateway_metric gateway.id ms) (latest-NoAddress ms none_known),
          up,
        )
        refl
