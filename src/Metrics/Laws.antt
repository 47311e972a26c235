-- ===== src/Metrics/Laws.antt =====
-- How often the public address of a gateway is looked up.
use deep_orc.Prelude.{
  ltb, nat_beq_iff, Bool-cases, ◌==◌, nat_eq, all, any, text_eq, ℕ, ◌+◌, ◌-◌, ◌≤◌, ◌<◌, ◌≡◌, refl,
  sym, ap, subst, inl, inr, Bool, true, false, not, ◌&&◌, ◌||◌, Option, none, some, List, [], ◌∷◌,
  arith,
}
use deep_orc.Models.{Gateway}
use deep_orc.Effects.{ok, pure}
use deep_orc.Database.{
  gateway_keyed, job_keyed, peer_keyed, group_keyed, worker_keyed, enrollment_keyed,
  registration_keyed,
}
use deep_orc.Metrics.{
  InterfaceState, GatewayMetric, egress_refresh_seconds, has_text, egress_snapshot_from_metric,
  pathways_ready, should_refresh_egress, latest_gateway_metric, same_time, not_after, fresher,
  has_time, has_egress, latest_gateway_metric_with_egress,
}
use deep_orc.Metrics.Egress.{EgressHost, snapshot_of, interfaces_of, resolve_egress}

time_of : (o : Option ℕ) → has_time o ≡ true → (t : ℕ) × (o ≡ some t)
time_of none h = absurd (cc)
time_of (some t) h = (t, refl)

same_time-eq : (o : Option ℕ) (t : ℕ) → same_time o (some t) ≡ true → o ≡ some t
same_time-eq none t h = cc
same_time-eq (some u) t h = ap some ((nat_beq_iff u t).0 h)

-- What the order of two rows says of their times.
time_order :
    (m n : GatewayMetric) (v u : ℕ)
    → m.egress_updated_at ≡ some v
    → n.egress_updated_at ≡ some u
    → ((not_after m n ≡ true) → v ≤ u) × ((not_after m n ≡ false) → u ≤ v)
time_order m n v u e f = (rw (e, f) (λ h. ground arith), rw (e, f) (λ h. ground arith))

-- A row's address is NULL or a text that is not empty, and has its time.
abbrev pub is_proper : GatewayMetric → Bool
is_proper m =
    not (has_egress m.egress_public_ip)
    || (has_text m.egress_public_ip && has_time m.egress_updated_at)

module _ {W : Type 0} (host : EgressHost W) (gateway : Gateway) where
  -- A row of the gateway with an address that was found, or last sought, at `t`.
  abbrev pub records_at : ℕ → GatewayMetric → Bool
  records_at t m =
      m.gateway_id == gateway.id
      && has_text m.egress_public_ip
      && same_time m.egress_updated_at (some t)

  -- The row that is asked for is no older than `t`.
  abbrev AtLeast : ℕ → Option GatewayMetric → Type 0
  AtLeast t none = ⊥
  AtLeast t (some m) =
      (has_text m.egress_public_ip ≡ true) × ((u : ℕ) × (m.egress_updated_at ≡ some u) × (t ≤ u))

  abbrev HasAddress : Option GatewayMetric → Type 0
  HasAddress none = Unit
  HasAddress (some m) = (has_text m.egress_public_ip ≡ true) × (has_time m.egress_updated_at ≡ true)

  proper_address :
      (m : GatewayMetric)
      → is_proper m ≡ true
      → has_egress m.egress_public_ip ≡ true
      → HasAddress (some m)
  proper_address m h e = (ground arith, ground arith)

  fresher-HasAddress :
      (m : GatewayMetric) (o : Option GatewayMetric)
      → HasAddress (some m)
      → HasAddress o
      → HasAddress (fresher m o)
  fresher-HasAddress m none h k = h
  fresher-HasAddress m (some n) h k = elim (Bool-cases (not_after m n)) [
    | inl later ↦ rw later k
    | inr sooner ↦ rw sooner h
  ]

  -- The row that is asked for.
  abbrev pub chosen : List GatewayMetric → Option GatewayMetric
  chosen = latest_gateway_metric_with_egress gateway.id

  abbrev pub is_candidate : GatewayMetric → Bool
  is_candidate m = m.gateway_id == gateway.id && has_egress m.egress_public_ip

  chosen-step :
      (m : GatewayMetric) (ms : List GatewayMetric)
      → is_candidate m ≡ true
      → chosen (m ∷ ms) ≡ fresher m (chosen ms)
  unfolding latest_gateway_metric_with_egress
  chosen-step m ms h = rw h refl

  pub chosen-skip :
      (m : GatewayMetric) (ms : List GatewayMetric)
      → is_candidate m ≡ false
      → chosen (m ∷ ms) ≡ chosen ms
  unfolding latest_gateway_metric_with_egress
  chosen-skip m ms h = rw h refl

  chosen-HasAddress : (ms : List GatewayMetric) → all is_proper ms ≡ true → HasAddress (chosen ms)
  unfolding latest_gateway_metric_with_egress
  chosen-HasAddress [] h = tt
  chosen-HasAddress (m ∷ ms) h = elim (Bool-cases (is_candidate m)) [
    | inr other ↦
        subst HasAddress (sym (chosen-skip m ms other)) (chosen-HasAddress ms (ground arith))
    | inl candidate ↦ subst HasAddress (sym (chosen-step m ms candidate)) (
        fresher-HasAddress m (chosen ms) (proper_address m (ground arith) (ground arith))
          (chosen-HasAddress ms (ground arith)))
  ]

  recorded_itself : (t : ℕ) (m : GatewayMetric) → records_at t m ≡ true → AtLeast t (some m)
  recorded_itself t m h =
      (ground arith, (t, same_time-eq m.egress_updated_at t (ground arith), omega arith))

  -- The row itself, or a fresher one.
  fresher-recorded :
      (t : ℕ) (m : GatewayMetric) (o : Option GatewayMetric)
      → records_at t m ≡ true
      → HasAddress o
      → AtLeast t (fresher m o)
  fresher-recorded t m none h k = recorded_itself t m h
  fresher-recorded t m (some n) h k = elim (Bool-cases (not_after m n)) [
    | inl later ↦
        let (u, e) = time_of n.egress_updated_at k.1 in
        let f = same_time-eq m.egress_updated_at t (ground arith) in
        rw later (k.0, (u, e, (time_order m n t u f e).0 later))
    | inr sooner ↦ rw sooner (recorded_itself t m h)
  ]

  fresher-AtLeast :
      (t : ℕ) (m : GatewayMetric) (o : Option GatewayMetric)
      → HasAddress (some m)
      → AtLeast t o
      → AtLeast t (fresher m o)
  fresher-AtLeast t m none h k = absurd k
  fresher-AtLeast t m (some n) h k = elim (Bool-cases (not_after m n)) [
    | inl later ↦ rw later k
    | inr sooner ↦
        let (v, f) = time_of m.egress_updated_at h.1 in
        let (u, e, above) = k.1 in
        rw sooner (h.0, (v, f, omega (arith, (time_order m n v u f e).1 sooner, above)))
  ]

  recorded_candidate : (t : ℕ) (m : GatewayMetric) → records_at t m ≡ true → is_candidate m ≡ true
  recorded_candidate t m h = ground arith

  recorded-AtLeast :
      (t : ℕ) (ms : List GatewayMetric)
      → all is_proper ms ≡ true
      → any (records_at t) ms ≡ true
      → AtLeast t (chosen ms)
  recorded-AtLeast t [] h k = absurd (cc)
  recorded-AtLeast t (m ∷ ms) h k = elim (Bool-cases (records_at t m)) [
    | inl here ↦
        subst (AtLeast t) (sym (chosen-step m ms (recorded_candidate t m here)))
          (fresher-recorded t m (chosen ms) here (chosen-HasAddress ms (ground arith)))
    | inr other ↦
        let rest = recorded-AtLeast t ms (ground arith) (ground arith) in
        elim (Bool-cases (is_candidate m)) [
          | inr no_address ↦ subst (AtLeast t) (sym (chosen-skip m ms no_address)) rest
          | inl candidate ↦ subst (AtLeast t) (sym (chosen-step m ms candidate)) (
              fresher-AtLeast t m (chosen ms) (proper_address m (ground arith) (ground arith)) rest)
        ]
  ]

  snapshot_of-chosen :
      (m : GatewayMetric) (u : ℕ) (last_row : Option GatewayMetric)
      → has_text m.egress_public_ip ≡ true
      → m.egress_updated_at ≡ some u
      → (snapshot_of host (some m) last_row).updated_at ≡ some u
  unfolding egress_snapshot_from_metric
  snapshot_of-chosen m u last_row h e = rw (h, e) (rw h refl)

  young :
      (t now : ℕ) (o : Option GatewayMetric) (last_row : Option GatewayMetric)
      (current : InterfaceState)
      → AtLeast t o
      → now < t + egress_refresh_seconds
      → should_refresh_egress
          (interfaces_of host last_row)
          current
          (snapshot_of host o last_row)
          now
        ≡ false
  unfolding should_refresh_egress
  young t now none last_row current h k = absurd h
  young t now (some m) last_row current h k =
      let (u, e, above) = h.1 in
      let small : ltb (now - u) egress_refresh_seconds ≡ true = ground (arith, above) in
      elim (Bool-cases (pathways_ready current)) [
        | inr down ↦ rw down refl
        | inl up ↦ rw (up, snapshot_of-chosen m u last_row h.0 e, small) refl
      ]

  -- Within 300 seconds of the time that a row with an address bears, a collection neither asks the
  -- agent nor changes anything, however the interfaces have changed, if the rows' addresses are not
  -- empty and have their times.
  pub resolve_egress-quiet :
      (t now : ℕ) (ms : List GatewayMetric) (current : InterfaceState) (w : W)
      → all is_proper ms ≡ true
      → any (records_at t) ms ≡ true
      → now < t + egress_refresh_seconds
      → resolve_egress host gateway ms current now w ≡ (
        ok (
            snapshot_of host
              (latest_gateway_metric_with_egress gateway.id ms)
              (latest_gateway_metric gateway.id ms)),
        w,
      )
  unfolding resolve_egress pure
  resolve_egress-quiet t now ms current w proper recorded soon =
      rw
        (young t now (chosen ms) (latest_gateway_metric gateway.id ms) current
          (recorded-AtLeast t ms proper recorded) soon)
        refl
