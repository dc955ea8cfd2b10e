-- ===== src/Runner/World.antt =====
-- The state of the supervisor, what it calls outside itself in its order, and the answers of docker,
-- of GitHub and of the clock, which may depend on all that was called before.
use pi_homelab.Base.{ℕ, Bool, Option, List, ◌∷◌}
use pi_homelab.Base.Text.{Text}
use pi_homelab.Base.Dict.{Dict}
use pi_homelab.Base.Int.{ℤ}

-- `Config`, as far as the loop reads it. The grace of an offline runner is in nanoseconds.
pub record Config : Type 0 where
  pub repos : List Text
  pub max_concurrent_global : ℤ
  pub idle_per_repo : ℤ
  pub orphan_reap : ℤ

pub record Counters : Type 0 where
  pub jobs_total : ℕ
  pub jobs_failed_total : ℕ
  pub last_job_exit_code : ℤ
  pub github_api_auth_failures_total : ℕ
  pub jit_config_failures : Dict ℕ ℕ
  pub jit_last_success_ts : ℕ
  pub github_api_rate_remaining : ℤ

pub data Call : Type 0 where
  -- docker image inspect, of the runner image's labels
  image_inspect : Call
  -- docker ps, of the running and of the exited job containers
  ps_running ps_exited : Call
  -- docker inspect, rm -f, and run -d with the repository's label and the encoded config
  inspect rm : (id : Text) → Call
  run : (repo jit : Text) → Call
  -- requests to GitHub
  get_repo list_runners queued_jobs generate_jit : (repo : Text) → Call
  delete_runner : (repo : Text) (id : ℕ) → Call

-- Newest first.
abbrev pub Trace : Type 0
Trace = List Call

pub record Completed : Type 0 where
  pub returncode : ℤ
  pub stdout : Text

-- A registered runner: `status` and `busy` are missing as the empty text and `false`.
pub record RunnerInfo : Type 0 where
  pub id : ℕ
  pub status : Text
  pub busy : Bool

-- A request that raises an `httpx.HTTPError`, or a response with its rate header and its body.
pub data Reply (A : Type 0) : Type 0 where
  broken : Reply A
  reply : (status_code : ℕ) (rate_remaining : Option ℤ) (body : A) → Reply A

pub record World : Type 0 where
  pub docker : Trace → Call → Completed
  pub runners_of : Trace → Text → Reply (List RunnerInfo)
  pub jit_of : Trace → Text → Reply (Option Text)
  pub queued_of : Trace → Text → Reply ℕ
  pub other : Trace → Call → Reply (Unit {0})
  -- `time.time()` in nanoseconds
  pub now : Trace → ℕ
  -- whether the status can be written
  pub writable : Trace → Bool

pub data Exception : Type 0 where
  http_error value_error os_error : Exception

pub data Result (A : Type 0) : Type 0 where
  return : A → Result A
  raise : Exception → Result A

-- The entry of a repository in the status.
pub record RepoStatus : Type 0 where
  pub registered : ℕ
  pub online : ℕ
  pub busy : ℕ
  pub offline : ℕ
  pub queued_jobs : ℕ
  pub idle : ℕ

pub record Status : Type 0 where
  pub supervisor_heartbeat_ts : ℕ
  pub idle_count : ℕ
  pub live_total : ℕ
  pub orphan_containers : ℕ
  pub counters : Counters
  pub image_build_timestamp : ℤ
  pub runner_version : Text
  pub repos : Dict Text RepoStatus

-- `_offline_since` maps a runner's id to the time at which it was first seen offline. The
-- image's provenance stands in `Config` in the code, which the loop fills in once. `status` is the
-- file written last.
pub record Supervisor : Type 0 where
  pub counters : Counters
  pub offline_since : Dict ℕ ℕ
  pub image_build_epoch : ℤ
  pub image_version : Text
  pub status : Option Status
  pub trace : Trace

-- The state outlives an exception.
abbrev pub M : Type 0 → Type 0
M A = Supervisor → Result A × Supervisor

abbrev pub pure : {A : Type 0} → A → M A
pure a s = (return a, s)

abbrev pub throw : {A : Type 0} → Exception → M A
throw e s = (raise e, s)

abbrev pub and_then : {A B : Type 0} → Result A → (A → M B) → M B
and_then (return a) f = f a
and_then (raise e) f = throw e

infixl 5 ◌>>=◌ ◌>>◌
abbrev pub ◌>>=◌ : {A B : Type 0} → M A → (A → M B) → M B
m >>= f = λ s. let (r, s') = m s in and_then r f s'

abbrev pub ◌>>◌ : {B : Type 0} → M (Unit {0}) → M B → M B
m >> n = m >>= λ _. n

abbrev pub log : Call → Supervisor → Supervisor
log c s = record s { trace = c ∷ s.trace }

abbrev pub count : (Counters → Counters) → M (Unit {0})
count f s = (return tt, record s { counters = f s.counters })
