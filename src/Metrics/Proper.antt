-- ===== src/Metrics/Proper.antt =====
-- The rows that a round of measurements adds.
use deep_orc.Prelude.{
  Bool-cases, nat_eq, any, Text, text_eq, ℕ, ◌≡◌, refl, inl, inr, Bool, true, not, ◌&&◌, ◌||◌,
  Option, none, some, List, arith,
}
use deep_orc.Models.{Failure, Gateway, Peer}
use deep_orc.Effects.{
  Result, ok, err, Exec, pure, after, ◌>>=◌, handle, try_except, err_ne_ok, ok_value, Result-cases,
}
use deep_orc.Database.{
  gateway_keyed, job_keyed, peer_keyed, group_keyed, worker_keyed, enrollment_keyed,
  registration_keyed,
}
use deep_orc.Platform.{Platform}
use deep_orc.Session.{Action, outside}
use deep_orc.Peers.{resync_gateway_peers}
use deep_orc.Metrics.{
  InterfaceState, EgressSnapshot, GatewayMetric, has_text, time_or, egress_snapshot_from_metric,
  should_refresh_egress, merge_egress, latest_gateway_metric, has_time, has_egress,
  latest_gateway_metric_with_egress,
}
use deep_orc.Metrics.Egress.{egress_geo_from_agent, snapshot_of, interfaces_of, resolve_egress}
use deep_orc.Metrics.Collector.{
  PeerStats, CollectorHost, Locals, is_missing, vm_running, inside, assign, listed_again,
  read_agent, interfaces_in, read_egress, mark_down, read_gateway,
}

-- An address is missing, or is not empty and has its time.
abbrev pub is_clean : EgressSnapshot → Bool
is_clean e = not (has_egress e.public_ip) || (has_text e.public_ip && has_time e.updated_at)

time_or_some : (o : Option ℕ) (t : ℕ) → has_time (time_or o t) ≡ true
time_or_some none t = refl
time_or_some (some u) t = refl

snapshot-clean : (o : Option GatewayMetric) → is_clean (egress_snapshot_from_metric o) ≡ true
unfolding egress_snapshot_from_metric
snapshot-clean none = refl
snapshot-clean (some m) = elim (Bool-cases (has_text m.egress_public_ip)) [
  | inl found ↦ rw found (ground (arith, time_or_some m.egress_updated_at m.polled_at, found))
  | inr empty_text ↦ rw empty_text refl
]

merge-clean :
    (snapshot refreshed : EgressSnapshot) (now : ℕ)
    → is_clean snapshot ≡ true
    → is_clean (merge_egress snapshot refreshed true now) ≡ true
unfolding merge_egress
merge-clean snapshot refreshed now h = elim (Bool-cases (has_text refreshed.public_ip)) [
  | inl found ↦ rw found (ground (arith, found))
  | inr nothing ↦ rw nothing (ground (arith, h))
]

-- What an action keeps of the state that it changes, whether it returns or raises.
pub record Holds {S A : Type 0} (P : S → Type 0) (m : Exec S A) : Type 0 where
  pub at : (s : S) → P s → P (m s).1

module _ {S A B : Type 0} {P : S → Type 0} (m : Exec S A) (f : A → Exec S B) where
  after-Holds : ((a : A) → Holds P (f a)) → (r : Result A) (s : S) → P s → P (after r f s).1
  after-Holds k (ok a) s h = (k a).at s h
  after-Holds k (err e) s h = h

  Holds-bind : Holds P m → ((a : A) → Holds P (f a)) → Holds P (m >>= f)
  unfolding ◌>>=◌
  Holds-bind k l = record { at = λ s h. after-Holds l (m s).0 (m s).1 (k.at s h) }

module _ {S A B : Type 0} {P : S → Type 0} (m : Exec S A) (f : A → Exec S B)
    (g : Failure → Exec S B) where
  handle-Holds :
      ((a : A) → Holds P (f a))
      → ((e : Failure) → Holds P (g e))
      → (r : Result A) (s : S) → P s
      → P (handle r f g s).1
  handle-Holds k l (ok a) s h = (k a).at s h
  handle-Holds k l (err e) s h = (l e).at s h

  Holds-try_except :
      Holds P m
      → ((a : A) → Holds P (f a))
      → ((e : Failure) → Holds P (g e))
      → Holds P (try_except m f g)
  unfolding try_except
  Holds-try_except k l j = record { at = λ s h. handle-Holds l j (m s).0 (m s).1 (k.at s h) }

Holds-pure : {S A : Type 0} {P : S → Type 0} (a : A) → Holds P (pure a)
unfolding pure
Holds-pure a = record { at = λ s h. h }

module _ {W : Type 0} (p : Platform W) (host : CollectorHost W) where
  pub snapshot_of-clean :
      (known_row last_row : Option GatewayMetric)
      → is_clean (snapshot_of host.egress known_row last_row) ≡ true
  snapshot_of-clean known_row last_row =
      elim (Bool-cases (has_text (egress_snapshot_from_metric known_row).public_ip)) [
        | inl found ↦ rw found (snapshot-clean known_row)
        | inr nothing ↦ rw nothing (snapshot-clean last_row)
      ]

  resolve_egress-clean :
      (g : Gateway) (metrics : List GatewayMetric) (current : InterfaceState) (now : ℕ) (w : W)
      (e : EgressSnapshot)
      → (resolve_egress host.egress g metrics current now w).0 ≡ ok e
      → is_clean e ≡ true
  unfolding resolve_egress pure ◌>>=◌
  resolve_egress-clean g metrics current now w e h =
      let last_row = latest_gateway_metric g.id metrics in
      let known_row = latest_gateway_metric_with_egress g.id metrics in
      let old : EgressSnapshot = snapshot_of host.egress known_row last_row in
      let clean : is_clean old ≡ true = snapshot_of-clean known_row last_row in
      elim (Bool-cases
        (should_refresh_egress (interfaces_of host.egress last_row) current old now)) [
          | inr quiet ↦ let same : old ≡ e = ok_value (rw quiet at h) in rw (← same) clean
          | inl due ↦ elim (Result-cases (egress_geo_from_agent host.egress g old w).0) [
            | inr (f, failed) ↦ absurd (err_ne_ok (rw (due, failed) at h))
            | inl (refreshed, done) ↦
                let same : merge_egress old refreshed true now ≡ e =
                  ok_value (rw (due, done) at h) in
                rw (← same) (merge-clean old refreshed now clean)
          ]
        ]

  -- The table of gateways' metrics is as it was, and the snapshot is clean.
  abbrev pub Ready : List GatewayMetric → Locals W → Type 0
  Ready base l = (l.readings.gateway_metrics ≡ base) × (is_clean l.snapshot ≡ true)

  module _ (base : List GatewayMetric) where
    inside-Holds : {A : Type 0} (m : Action W A) → Holds (Ready base) (inside p host m)
    unfolding inside
    inside-Holds m = record { at = λ s h. h }

    listed_again-Holds :
        (g : Gateway) (stats : List PeerStats) (peers : List Peer)
        → Holds (Ready base) (listed_again p host g stats peers)
    unfolding listed_again
    listed_again-Holds g stats peers = elim (Bool-cases (any (is_missing stats) peers)) [
      | inl missing ↦ rw missing (
          Holds-bind (inside p host (resync_gateway_peers p g.id))
            (λ _. inside p host (outside (host.list_peers g))) (inside-Holds _)
            (λ _. inside-Holds _))
      | inr known ↦ rw known (Holds-pure stats)
    ]

    assign-Holds :
        (f : Locals W → Locals W)
        → ((l : Locals W) → Ready base l → Ready base (f l))
        → Holds (Ready base) (assign p host f)
    unfolding assign
    assign-Holds f k = record { at = λ l h. k l h }

    read_agent-Holds : (g : Gateway) → Holds (Ready base) (read_agent p host g)
    unfolding read_agent
    read_agent-Holds g = Holds-bind _ _ (inside-Holds _) (λ _.
        Holds-bind _ _ (inside-Holds _) (λ configured.
          Holds-bind _ _ (assign-Holds _ (λ l h. h)) (λ _. Holds-bind _ _ (inside-Holds _) (λ stats.
            Holds-bind _ _ (inside-Holds _) (λ peers.
              Holds-bind _ _ (listed_again-Holds g stats peers) (λ now_stats.
                Holds-bind _ _ (inside-Holds _) (λ time.
                  Holds-bind _ _ (assign-Holds _ (λ l h. h)) (λ _.
                    Holds-bind _ _ (inside-Holds _) (λ online.
                      Holds-bind _ _ (assign-Holds _ (λ l h. h))
                        (λ _. assign-Holds _ (λ l h. h)))))))))))

    read_egress-Holds : (g : Gateway) (now : ℕ) → Holds (Ready base) (read_egress p host g now)
    unfolding read_egress inside outside assign ◌>>=◌
    read_egress-Holds g now = record {
      at = λ l h.
          let current = interfaces_in p host l in
          let w : W = l.session.world in
          elim (Result-cases
            (resolve_egress host.egress g l.readings.gateway_metrics current now w).0) [
              | inr (f, failed) ↦ rw failed h
              | inl (e, done) ↦
                  rw done
                    (h.0, resolve_egress-clean g l.readings.gateway_metrics current now w e done)
            ];
    }

    mark_down-Ready :
        (status : Text) (l : Locals W) → Ready base l → Ready base (mark_down p host status l)
    mark_down-Ready status l h = elim (Bool-cases (vm_running status)) [
      | inl up ↦ rw up h
      | inr down ↦ rw down h
    ]

    pub read_gateway-Holds :
        (g : Gateway) (status : Text) (now : ℕ)
        → Holds (Ready base) (read_gateway p host g status now)
    unfolding read_gateway
    read_gateway-Holds g status now =
        Holds-try_except _ _ _ (Holds-bind _ _ (read_agent-Holds g) (λ _. read_egress-Holds g now))
          (λ u. Holds-pure u) (λ e. assign-Holds _ (λ l h. mark_down-Ready status l h))
