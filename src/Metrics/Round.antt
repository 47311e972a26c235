-- ===== src/Metrics/Round.antt =====
-- A round of measurements as a whole.
use deep_orc.Prelude.{
  Bool-cases, nat_eq, length, all, select, Text, codes, text_eq, ℕ, ◌+◌, ◌≡◌, refl, sym, ap, ◌∙◌,
  inl, inr, true, false, List, [], ◌∷◌, ◌++◌, map, append-nil, append_assoc, arith,
}
use deep_orc.Models.{Gateway}
use deep_orc.Effects.{
  ok, pure, raise, after, ◌>>=◌, ◌>>◌, try_except, err_ne_ok, ok_value, Result-cases, bind-IsBound,
}
use deep_orc.Database.{
  gateway_keyed, job_keyed, peer_keyed, group_keyed, worker_keyed, enrollment_keyed,
  registration_keyed,
}
use deep_orc.Database.Gateways.{is_ready}
use deep_orc.Platform.{Platform}
use deep_orc.Session.{State, Action, query, outside, ask, read_world, commit, rollback}
use deep_orc.Gateways.Lifecycle.{worker_of}
use deep_orc.Metrics.{
  InterfaceState, EgressSnapshot, GatewayMetric, pathways_ready, latest_gateway_metric,
  latest_gateway_metric_with_egress,
}
use deep_orc.Metrics.Egress.{new_metric}
use deep_orc.Metrics.Laws.{is_proper}
use deep_orc.Metrics.Collector.{
  CollectorHost, Readings, Locals, interfaces_in, read_gateway, start_locals, add_metric,
  read_and_add, collect_gateway, collect_all, commit_count, collect_round, collect_metrics,
}
use deep_orc.Metrics.Proper.{is_clean, snapshot_of-clean, read_gateway-Holds}

abbrev pub ready_gateways : List Gateway → List Gateway
ready_gateways = select (λ g. is_ready g.status)

-- One row for each READY gateway, in their order, behind the rows there were.
pub record IsRound (gateways : List Gateway) (before after : List GatewayMetric) : Type 0 where
  pub added : List GatewayMetric
  pub appended : after ≡ before ++ added
  pub owners : map (λ m. m.gateway_id) added ≡ map (λ g. g.id) (ready_gateways gateways)
  pub proper : all is_proper added ≡ true

module _ {W : Type 0} (p : Platform W) (host : CollectorHost W) where
  record IsRead (g : Gateway) (before after : List GatewayMetric) : Type 0 where
    pub row : GatewayMetric
    pub one_more : after ≡ before ++ row ∷ []
    pub owner : row.gateway_id ≡ g.id
    pub row_proper : is_proper row ≡ true

  new_metric-proper :
      (g : Gateway) (status : Text) (current : InterfaceState) (e : EgressSnapshot) (now : ℕ)
      → is_clean e ≡ true
      → is_proper (new_metric host.egress g status current e now) ≡ true
  unfolding new_metric
  new_metric-proper g status current e now h = elim (Bool-cases (pathways_ready current)) [
    | inl up ↦ rw up h
    | inr down ↦ rw down refl
  ]

  read_and_add-IsRead :
      (g : Gateway) (status : Text) (now : ℕ) (before : Readings) (s : State W) (r : Readings)
      → (read_and_add p host g status now before s).0 ≡ ok r
      → IsRead g before.gateway_metrics r.gateway_metrics
  unfolding read_and_add new_metric
  read_and_add-IsRead g status now before s r h =
      let l : Locals W = (read_gateway p host g status now (start_locals p host g before s)).1 in
      let ready =
        (read_gateway-Holds p host before.gateway_metrics g status now).at
          (start_locals p host g before s)
          (
            refl,
            snapshot_of-clean p host (latest_gateway_metric_with_egress g.id before.gateway_metrics)
                (latest_gateway_metric g.id before.gateway_metrics),
          ) in
      let same : add_metric p host g status (p.now l.session.world) l ≡ r = ok_value h in
      rw (← same) (record {
        row =
            new_metric host.egress g status (interfaces_in p host l) l.snapshot
              (p.now l.session.world);
        one_more =
            ap
              (λ (ms : List GatewayMetric).
                ms
                ++ new_metric host.egress g status (interfaces_in p host l) l.snapshot
                    (p.now l.session.world)
                  ∷ [])
              ready.0;
        owner = refl;
        row_proper =
            new_metric-proper g status (interfaces_in p host l) l.snapshot (p.now l.session.world)
              ready.1;
      })

  collect_gateway-IsRead :
      (g : Gateway) (now : ℕ) (before : Readings) (s : State W) (r : Readings)
      → (collect_gateway p host g now before s).0 ≡ ok r
      → IsRead g before.gateway_metrics r.gateway_metrics
  unfolding collect_gateway
  collect_gateway-IsRead g now before s r h =
      let a =
        bind-IsBound (query (worker_of g))
          (λ x.
            try_except (outside (host.vm_status g)) pure (λ e. pure (codes "unknown"))
            >>= (λ vm_status. read_and_add p host g vm_status now before))
          s r h in
      let b =
        bind-IsBound (try_except (outside (host.vm_status g)) pure (λ e. pure (codes "unknown")))
          (λ vm_status. read_and_add p host g vm_status now before) (query (worker_of g) s).1 r
          a.second in
      read_and_add-IsRead g b.value now before
        (try_except (outside (host.vm_status g)) pure (λ e. pure (codes "unknown"))
          (query (worker_of g) s).1).1
        r b.second

  IsRound-first :
      (g : Gateway) (gs : List Gateway) (before one after : List GatewayMetric)
      → is_ready g.status ≡ true
      → IsRead g before one
      → IsRound gs one after
      → IsRound (g ∷ gs) before after
  IsRound-first g gs before one after up read rest = record {
    added = read.row ∷ rest.added;
    appended =
        rest.appended
        ∙ ap (λ l. l ++ rest.added) read.one_more
        ∙ append_assoc before (read.row ∷ []) rest.added;
    owners = rw up (λ i. read.owner i ∷ rest.owners i);
    proper = rw read.row_proper rest.proper;
  }

  IsRound-skip :
      (g : Gateway) (gs : List Gateway) (before after : List GatewayMetric)
      → is_ready g.status ≡ false
      → IsRound gs before after
      → IsRound (g ∷ gs) before after
  IsRound-skip g gs before after down rest = record {
    added = rest.added;
    appended = rest.appended;
    owners = rw down rest.owners;
    proper = rest.proper;
  }

  collect_all-skip :
      (g : Gateway) (gs : List Gateway) (now : ℕ) (before : Readings) (n : ℕ) (s : State W)
      → is_ready g.status ≡ false
      → collect_all p host (g ∷ gs) now before n s ≡ collect_all p host gs now before n s
  unfolding collect_all
  collect_all-skip g gs now before n s down = rw (down, collect_all) refl

  collect_all-read :
      (g : Gateway) (gs : List Gateway) (now : ℕ) (before : Readings) (n : ℕ) (s : State W)
      → is_ready g.status ≡ true
      → collect_all p host (g ∷ gs) now before n s
        ≡ (collect_gateway p host g now before >>= (λ more. collect_all p host gs now more (n + 1)))
            s
  unfolding collect_all
  collect_all-read g gs now before n s up = rw (up, collect_all) refl

  collect_all-IsRound :
      (gs : List Gateway) (now : ℕ) (before : Readings) (n : ℕ) (s : State W)
      (answer : Readings × ℕ)
      → (collect_all p host gs now before n s).0 ≡ ok answer
      → IsRound gs before.gateway_metrics answer.0.gateway_metrics
        × (answer.1 ≡ n + length (ready_gateways gs))
  unfolding collect_all pure
  collect_all-IsRound [] now before n s answer h =
      let same : (before, n) ≡ answer = ok_value h in
      rw (← same) (
        record {
          added = [];
          appended = sym (append-nil before.gateway_metrics);
          owners = refl;
          proper = refl;
        },
        omega arith,
      )
  collect_all-IsRound (g ∷ gs) now before n s answer h = elim (Bool-cases (is_ready g.status)) [
    | inr down ↦
        let (rest, count) =
          collect_all-IsRound gs now before n s answer
            (sym (ap (λ r. r.0) (collect_all-skip g gs now before n s down)) ∙ h) in
        (IsRound-skip g gs before.gateway_metrics answer.0.gateway_metrics down rest, rw down count)
    | inl up ↦
        let b =
          bind-IsBound (collect_gateway p host g now before)
            (λ more. collect_all p host gs now more (n + 1)) s answer
            (sym (ap (λ r. r.0) (collect_all-read g gs now before n s up)) ∙ h) in
        let (rest, count) =
          collect_all-IsRound gs now b.value (n + 1) (collect_gateway p host g now before s).1
            answer b.second in
        (
          IsRound-first g gs before.gateway_metrics b.value.gateway_metrics answer.0.gateway_metrics
              up (collect_gateway-IsRead g now before s b.value b.first) rest,
          rw up (omega (arith, count)),
        )
  ]

  rolled_back :
      {A : Type 0} (m : Action W A) (s : State W) (a : A)
      → (try_except m pure (λ e. rollback >> raise e) s).0 ≡ ok a
      → (m s).0 ≡ ok a
  unfolding try_except pure raise ◌>>=◌ rollback
  rolled_back m s a h = elim (Result-cases (m s).0) [
    | inl (b, returned) ↦ let same : b ≡ a = ok_value (rw returned at h) in returned ∙ ap ok same
    | inr (e, failed) ↦ absurd (err_ne_ok (rw failed at h))
  ]

  -- A round that returns has added one row for each READY gateway, in the gateways' order and
  -- behind the rows there were, and has counted them; no row that it has added has an address
  -- that is empty or bears no time.
  pub collect_metrics-IsRound :
      (readings : Readings) (s : State W) (answer : Readings × ℕ)
      → (collect_metrics p host readings s).0 ≡ ok answer
      → IsRound s.db.gateways readings.gateway_metrics answer.0.gateway_metrics
        × (answer.1 ≡ length (ready_gateways s.db.gateways))
  unfolding collect_metrics collect_round read_world ask ◌>>=◌ commit pure
  collect_metrics-IsRound readings s answer h =
      let b =
        bind-IsBound (collect_all p host s.db.gateways (p.now s.world) readings 0)
          (commit_count p host) s answer (rolled_back (collect_round p host readings) s answer h) in
      let same : b.value ≡ answer = ok_value b.second in
      let (rows, count) =
        collect_all-IsRound s.db.gateways (p.now s.world) readings 0 s b.value b.first in
      rw (← same) (rows, omega (arith, count))
