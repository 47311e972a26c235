-- ===== src/Workers/Enrollment.antt =====
-- orchestrator/services/worker_service.py: the enrollment of new workers by one-time tokens.
pub mod Laws
pub mod Once
use deep_orc.Prelude.{
  leb, if◌then◌else◌, ◌==◌, nat_eq, any, select, contains, find_from, Text, codes, text_eq,
  is_empty, strip, decimal, ℕ, ◌+◌, ◌*◌, true, not, ◌&&◌, ◌||◌, Option, none, some, List, ◌++◌, map,
}
use deep_orc.Models.{
  WorkerStatus, preauth_failed, no_name, worker_exists, bad_token, token_used, token_expired,
  remote_failed, no_public_ip, Failure, value_error, incus_error, Worker, is_local,
  WorkerEnrollment,
}
use deep_orc.Tables.{keys}
use deep_orc.Effects.{pure, raise, gets, require, raise_if, ◌>>=◌, ◌>>◌, try_except}
use deep_orc.Database.{
  Database, gateway_keyed, job_keyed, peer_keyed, group_keyed, worker_keyed, enrollment_keyed,
  registration_keyed, Query,
}
use deep_orc.Database.Enrollments.{
  create_enrollment_row, get_by_token_hash, is_unused, list_active_names, get_latest_active,
  update_enrollment, check_token_hash,
}
use deep_orc.Platform.{RemotePaths, Platform, Settings}
use deep_orc.Session.{
  Action, query, outside, ask, read_world, from_headscale, commit, write, write_at,
}
use deep_orc.Workers.Registration.{RegisterWorkerResult, verify_token, store_worker}

pub record EnrollWorkerResult : Type 0 where
  pub enroll_token : Text
  pub tailscale_auth_key : Text
  pub command : Text
  pub name : Text
  pub display_name : Text
  pub tailscale_hostname : Text

pub record CompleteEnrollmentRequest : Type 0 where
  pub tailscale_hostname : Text
  pub tailscale_ip : Text
  pub incus_trust_token : Text
  pub public_ip : Text

abbrev pub worker_prefix : Text
worker_prefix = codes "worker"

abbrev pub enrollment_seconds : ℕ
enrollment_seconds = 24 * 3600

unfoldable pub worker_slug : ℕ → Text
worker_slug index = worker_prefix ++ decimal index

abbrev pub taken_worker_names : ℕ → Database → List Text
taken_worker_names now db =
    map (λ w. w.name) (select (λ w. not (is_local w)) db.workers) ++ list_active_names now db

-- `_next_worker_identity`: the number of the first free name.
unfoldable pub next_worker_index : ℕ → Database → Option ℕ
next_worker_index now db =
    find_from (λ index. contains (taken_worker_names now db) (worker_slug index)) 999 1

-- `except IncusRemoteError as exc: raise ValueError(…) from exc`
abbrev pub rewrap_incus : Failure → Failure
rewrap_incus incus_error = value_error remote_failed
rewrap_incus e = e

module _ {W : Type 0} (p : Platform W) (config : Settings) where
  -- `build_join_command`
  unfoldable pub build_join_command : Text → Text → Text → Text → Text → Text
  build_join_command enroll_token tailscale_auth_key worker_name worker_display_name hostname =
      let base = config.public_orchestrator_url in
      codes "curl -fsSL '"
      ++ base
      ++ codes "/ui/workers/join.sh' -o /tmp/orchtest-join-worker.sh && \\\n"
      ++ codes "sudo env \\\n  CP_BASE_URL='"
      ++ base
      ++ codes "' \\\n  ENROLL_TOKEN='"
      ++ enroll_token
      ++ codes "' \\\n  TAILSCALE_AUTHKEY='"
      ++ tailscale_auth_key
      ++ codes "' \\\n  WORKER_NAME='"
      ++ worker_name
      ++ codes "' \\\n  WORKER_DISPLAY_NAME='"
      ++ worker_display_name
      ++ codes "' \\\n  TAILSCALE_HOSTNAME='"
      ++ hostname
      ++ codes "' \\\n  bash /tmp/orchtest-join-worker.sh"

  -- `_enrollment_result`
  unfoldable pub enrollment_result : WorkerEnrollment → Text → Text → EnrollWorkerResult
  enrollment_result e token key = record {
    enroll_token = token;
    tailscale_auth_key = key;
    command = build_join_command token key e.name e.display_name e.tailscale_hostname;
    name = e.name;
    display_name = e.display_name;
    tailscale_hostname = e.tailscale_hostname;
  }

  abbrev pub set_hash : Text → WorkerEnrollment → WorkerEnrollment
  set_hash hash e = record e { token_hash = hash }

  -- `_refresh_enrollment`: a new token and a new key for the same name
  unfoldable pub refresh_enrollment : WorkerEnrollment → Action W EnrollWorkerResult
  refresh_enrollment e = do
    key ← from_headscale preauth_failed p.create_worker_preauth_key
    token ← outside p.generate_token
    write (update_enrollment e.id (set_hash (p.hash_token token)))
    token_enc ← outside (p.encrypt_value token)
    write (update_enrollment e.id (λ r. record r { enroll_token_enc = some token_enc }))
    key_enc ← outside (p.encrypt_value key)
    write (update_enrollment e.id (λ r. record r { headscale_auth_key_enc = some key_enc }))
    query (check_token_hash e.id (p.hash_token token))
    commit
    pure (enrollment_result e token key)

  abbrev pub reuse_enrollment : WorkerEnrollment → Text → Text → Action W EnrollWorkerResult
  reuse_enrollment e token_enc key_enc = do
    token ← outside (p.decrypt_value token_enc)
    key ← outside (p.decrypt_value key_enc)
    pure (enrollment_result e token key)

  -- What a row holds is used again only if both values are there.
  abbrev pub reuse_or_refresh :
      WorkerEnrollment → Option Text → Option Text → Action W EnrollWorkerResult
  reuse_or_refresh e none key_enc = refresh_enrollment e
  reuse_or_refresh e (some token_enc) none = refresh_enrollment e
  reuse_or_refresh e (some token_enc) (some key_enc) =
      if is_empty token_enc || is_empty key_enc
      then refresh_enrollment e
      else reuse_enrollment e token_enc key_enc

  abbrev pub new_enrollment : ℕ → ℕ → Text → Text → Text → ℕ → WorkerEnrollment
  new_enrollment index now token token_enc key_enc id = record {
    id = id;
    token_hash = p.hash_token token;
    name = worker_slug index;
    display_name = codes "Worker " ++ decimal index;
    public_ip = codes "0.0.0.0";
    tailscale_hostname = worker_slug index;
    expires_at = now + enrollment_seconds;
    enroll_token_enc = some token_enc;
    headscale_auth_key_enc = some key_enc;
    used_at = none;
    worker_id = none;
    created_at = now;
  }

  unfoldable pub store_enrollment : (ℕ → WorkerEnrollment) → Query WorkerEnrollment
  unfolding create_enrollment_row
  store_enrollment row = do
    id ← gets (λ db. p.new_key (keys db.enrollments))
    create_enrollment_row (row id)
    pure (row id)

  abbrev pub first_enrollment : ℕ → Action W EnrollWorkerResult
  first_enrollment index = do
    query (λ db. raise_if (any (λ w. w.name == worker_slug index) db.workers) worker_exists db)
    key ← from_headscale preauth_failed p.create_worker_preauth_key
    token ← outside p.generate_token
    now ← read_world p.now
    token_enc ← outside (p.encrypt_value token)
    key_enc ← outside (p.encrypt_value key)
    e ← query (store_enrollment (new_enrollment index now token token_enc key_enc))
    commit
    pure (enrollment_result e token key)

  abbrev pub enroll : ℕ → Option WorkerEnrollment → Action W EnrollWorkerResult
  enroll now (some e) = reuse_or_refresh e e.enroll_token_enc e.headscale_auth_key_enc
  enroll now none = do
    index ← query (λ db. require no_name (next_worker_index now db) db)
    first_enrollment index

  unfoldable pub create_enrollment : Action W EnrollWorkerResult
  create_enrollment = do now ← read_world p.now; e ← ask (get_latest_active now); enroll now e

  abbrev pub incus_address : Text → Text
  incus_address ip = codes "https://" ++ strip ip ++ codes ":8443"

  abbrev pub enrolled_worker :
      WorkerEnrollment → CompleteEnrollmentRequest → RemotePaths → Text → ℕ → Worker
  enrolled_worker e request paths token id = record {
    id = id;
    name = e.name;
    display_name = e.display_name;
    public_ip = strip request.public_ip;
    tailscale_hostname = some (
        if is_empty (strip request.tailscale_hostname)
        then e.tailscale_hostname
        else strip request.tailscale_hostname);
    incus_remote = some e.name;
    incus_url = some (incus_address request.tailscale_ip);
    incus_cert_path = some paths.cert_path;
    incus_key_path = some paths.key_path;
    incus_server_cert_path = some paths.server_cert_path;
    worker_token_hash = p.hash_token token;
    port_pool_start = config.port_pool_start;
    port_pool_end = config.port_pool_end;
    ip_pool_network = config.ip_pool_network;
    ip_pool_start = config.ip_pool_start;
    enabled = true;
    status = WorkerStatus.offline;
    last_seen_at = none;
  }

  abbrev pub use_enrollment : ℕ → ℕ → WorkerEnrollment → WorkerEnrollment
  use_enrollment now worker_id e = record e { used_at = some now; worker_id = some worker_id }

  -- `add_worker_remote`, whose `IncusRemoteError` becomes a `ValueError`
  unfoldable pub add_remote : WorkerEnrollment → CompleteEnrollmentRequest → Action W RemotePaths
  unfolding outside try_except pure raise
  add_remote e request =
      try_except
        (outside (
          p.add_worker_remote e.name (incus_address request.tailscale_ip)
            (strip request.incus_trust_token)))
        pure (λ f. raise (rewrap_incus f))

  abbrev pub found_enrollment : Text → Database → Option WorkerEnrollment
  found_enrollment token db = get_by_token_hash (p.hash_token token) db

  -- The part of `complete_enrollment` behind its checks.
  unfoldable pub finish_enrollment :
      WorkerEnrollment → CompleteEnrollmentRequest → Action W RegisterWorkerResult
  finish_enrollment e request = do
    paths ← add_remote e request
    token ← outside p.generate_token
    query (λ db. raise_if (is_empty (strip request.public_ip)) no_public_ip db)
    w ← query (store_worker p config (enrolled_worker e request paths token))
    write_at p.now (λ used. update_enrollment e.id (use_enrollment used w.id))
    commit
    pure (record { worker = w; worker_token = token })

  unfoldable pub complete_enrollment :
      Text → CompleteEnrollmentRequest → Action W RegisterWorkerResult
  complete_enrollment enroll_token request = do
    e ← query (λ db. require bad_token (found_enrollment enroll_token db) db)
    query (λ db. raise_if (not (verify_token p enroll_token e.token_hash)) bad_token db)
    query (λ db. raise_if (not (is_unused e.used_at)) token_used db)
    now ← read_world p.now
    query (λ db. raise_if (leb e.expires_at now) token_expired db)
    query (λ db. raise_if (any (λ w. w.name == e.name) db.workers) worker_exists db)
    finish_enrollment e request
