-- ===== src/Workers/Placement.antt =====
-- Which worker a gateway is placed on.
use deep_orc.Prelude.{
  if◌then◌else◌, Option-cases, nat_eq, all, select, text_eq, ℕ, ◌≡◌, refl, ◌∙◌, subst, inl, inr,
  Bool, true, false, not, ◌&&◌, Option, none, some, List, [], ◌∷◌, map, arith,
}
use deep_orc.Models.{WorkerStatus, Worker, is_local}
use deep_orc.Tables.{get, get-key}
use deep_orc.Effects.{Result, ok, err_ne_ok, ok_value}
use deep_orc.Database.{
  Database, gateway_keyed, job_keyed, peer_keyed, group_keyed, worker_keyed, enrollment_keyed,
  registration_keyed,
}
use deep_orc.Workers.{
  is_online, effective_status, dashboard_row, dashboard_workers, online_rows, list_online_workers,
  get_worker, less_loaded, least_loaded, pick_from, pick_worker, check_named, only_one,
  resolve_worker_for_gateway,
}

-- A worker that new gateways may be placed on.
pub record IsPlaceable (now : ℕ) (w : Worker) : Type 0 where
  pub remote : is_local w ≡ false
  pub enabled : w.enabled ≡ true
  pub online : effective_status now w ≡ WorkerStatus.online

effective_status-enabled :
    (now : ℕ) (w : Worker) → is_online (effective_status now w) ≡ true → w.enabled ≡ true
unfolding effective_status
effective_status-enabled now w h = ground arith

is_online-status : (s : WorkerStatus) → is_online s ≡ true → s ≡ WorkerStatus.online
is_online-status s h = ground arith

placeable :
    (now : ℕ) (w : Worker)
    → is_local w ≡ false
    → is_online (effective_status now w) ≡ true
    → IsPlaceable now w
placeable now w r h = record {
  remote = r;
  enabled = effective_status-enabled now w h;
  online = is_online-status (effective_status now w) h;
}

abbrev is_placeable : ℕ → Worker → Bool
is_placeable now w = not (is_local w) && is_online (effective_status now w)

online_rows-placeable :
    (now : ℕ) (db : Database) (ws : List Worker)
    → all
        (is_placeable now)
        (online_rows (map (dashboard_row now db) (select (λ w. not (is_local w)) ws)))
      ≡ true
online_rows-placeable now db [] = refl
online_rows-placeable now db (w ∷ ws) = ground (arith, online_rows-placeable now db ws)

list_online_workers-placeable :
    (now : ℕ) (db : Database) → all (is_placeable now) (list_online_workers now db) ≡ true
unfolding list_online_workers dashboard_workers
list_online_workers-placeable now db = online_rows-placeable now db db.workers

of_test : (now : ℕ) (w : Worker) → is_placeable now w ≡ true → IsPlaceable now w
of_test now w h = placeable now w (ground arith) (ground arith)

only_one-cases : (ws : List Worker) (w : Worker) → only_one ws ≡ ok w → ws ≡ w ∷ []
only_one-cases ws w h = ground arith

check_named-cases :
    (now : ℕ) (r : Result Worker) (w : Worker)
    → check_named now r ≡ ok w
    → (r ≡ ok w) × (is_placeable now w ≡ true)
check_named-cases now r w h = ground arith

get_worker-id : (k : ℕ) (db : Database) (w : Worker) → get_worker k db ≡ ok w → w.id ≡ k
unfolding get_worker
get_worker-id k db w h = elim (Option-cases (get k db.workers)) [
  | inl missing ↦ absurd (err_ne_ok (rw (missing, get_worker) at h))
  | inr (v, found) ↦
      let same : v ≡ w = ok_value (rw (found, get_worker) at h) in
      rw (← same) (get-key k db.workers v found)
]

-- A worker that a gateway is placed on is remote, enabled and online.
pub resolve_worker_for_gateway-IsPlaceable :
    (now : ℕ) (worker_id : Option ℕ) (db : Database) (w : Worker)
    → resolve_worker_for_gateway now worker_id db ≡ ok w
    → IsPlaceable now w × ((k : ℕ) → worker_id ≡ some k → w.id ≡ k)
unfolding resolve_worker_for_gateway
resolve_worker_for_gateway-IsPlaceable now none db w h =
    let one : list_online_workers now db ≡ w ∷ [] =
      only_one-cases (list_online_workers now db) w h in
    (of_test now w (ground (arith, list_online_workers-placeable now db)), λ k e. absurd (cc))
resolve_worker_for_gateway-IsPlaceable now (some k) db w h =
    let parts = check_named-cases now (get_worker k db) w h in
    (of_test now w parts.1, λ j e. get_worker-id k db w parts.0 ∙ cc)

not-true : {a : Bool} → a ≡ false → not a ≡ true
not-true h = rw h

and_true : {a b : Bool} → a ≡ true → b ≡ true → (a && b) ≡ true
and_true h k = rw (h, k)

abbrev pub none_less : Database → Worker → List Worker → Bool
none_less db w vs = all (λ v. not (less_loaded db v w)) vs

not_less_trans :
    (db : Database) (a b c : Worker)
    → less_loaded db a b ≡ false
    → less_loaded db b c ≡ false
    → less_loaded db a c ≡ false
not_less_trans db a b c h k = ground arith

abbrev better : Database → Worker → Worker → Worker
better db best w = if less_loaded db w best then w else best

better-least :
    (db : Database) (best w : Worker)
    → (less_loaded db best (better db best w) ≡ false)
      × (less_loaded db w (better db best w) ≡ false)
better-least db best w = ground arith

least_loaded-first :
    (db : Database) (best : Worker) (ws : List Worker)
    → less_loaded db best (least_loaded db best ws) ≡ false
unfolding least_loaded
least_loaded-first db best [] = ground arith
least_loaded-first db best (w ∷ ws) =
    not_less_trans db best (better db best w) (least_loaded db (better db best w) ws)
      (better-least db best w).0 (least_loaded-first db (better db best w) ws)

least_loaded-rest :
    (db : Database) (best : Worker) (ws : List Worker)
    → none_less db (least_loaded db best ws) ws ≡ true
unfolding least_loaded
least_loaded-rest db best [] = refl
least_loaded-rest db best (w ∷ ws) =
    let m : Worker = least_loaded db (better db best w) ws in
    let head : less_loaded db w m ≡ false =
      not_less_trans db w (better db best w) m (better-least db best w).1
        (least_loaded-first db (better db best w) ws) in
    let rest : none_less db m ws ≡ true = least_loaded-rest db (better db best w) ws in
    and_true (not-true head) rest

least_loaded-keeps :
    (p : Worker → Bool) (db : Database) (best : Worker) (ws : List Worker)
    → all p (best ∷ ws) ≡ true
    → p (least_loaded db best ws) ≡ true
unfolding least_loaded
least_loaded-keeps p db best [] h = ground arith
least_loaded-keeps p db best (w ∷ ws) h =
    least_loaded-keeps p db (better db best w) ws (ground arith)

pick_from-least :
    (now : ℕ) (db : Database) (ws : List Worker) (w : Worker)
    → all (is_placeable now) ws ≡ true
    → pick_from db ws ≡ ok w
    → (is_placeable now w ≡ true) × (none_less db w ws ≡ true)
pick_from-least now db [] w h e = absurd (err_ne_ok e)
pick_from-least now db (v ∷ ws) w h e =
    subst (λ x. (is_placeable now x ≡ true) × (none_less db x (v ∷ ws) ≡ true)) (ok_value e)
      (
        least_loaded-keeps (is_placeable now) db v ws h,
        and_true (not-true (least_loaded-first db v ws)) (least_loaded-rest db v ws),
      )

-- The worker that is picked is remote, enabled and online, and no worker online has fewer gateways,
-- or as many and a smaller id.
pub pick_worker-least :
    (now : ℕ) (db : Database) (w : Worker)
    → pick_worker now db ≡ ok w
    → IsPlaceable now w × (none_less db w (list_online_workers now db) ≡ true)
unfolding pick_worker
pick_worker-least now db w h =
    let parts =
      pick_from-least now db (list_online_workers now db) w (list_online_workers-placeable now db)
        h in
    (of_test now w parts.0, parts.1)
