-- ===== src/Runner/Start/Tests.antt =====
-- A start that GitHub lets through at the second round.
use pi_homelab.Base.{
  ◌≡◌, refl, true, none, some, [], ◌∷◌, length, leb, if◌then◌else◌, text_eq, nat_eq,
}
use pi_homelab.Base.Text.{codes}
use pi_homelab.Base.Int.{pos}
use pi_homelab.Runner.World.{Config, World, Supervisor, reply}
use pi_homelab.Runner.Start.{starting, ticking, steps}
use pi_homelab.Runner.Start.Gate.{IsGated, steps-IsGated}

abbrev opening : World
opening = record {
  docker = λ t c. record { returncode = pos 0; stdout = [] };
  runners_of = λ t repo. reply 200 none [];
  jit_of = λ t repo. reply 201 none (some (codes "jit"));
  queued_of = λ t repo. reply 200 none 0;
  other = λ t c. reply (if leb 1 (length t) then 200 else 401) none tt;
  now = λ t. 5000000000;
  writable = λ t. true;
}

abbrev one_repo : Config
one_repo = record {
  repos = codes "site" ∷ [];
  max_concurrent_global = pos 1;
  idle_per_repo = pos 1;
  orphan_reap = pos 900;
}

abbrev cold : Supervisor
cold = record {
  counters = record {
    jobs_total = 0;
    jobs_failed_total = 0;
    last_job_exit_code = pos 0;
    github_api_auth_failures_total = 0;
    jit_config_failures = [];
    jit_last_success_ts = 0;
    github_api_rate_remaining = pos 0;
  };
  offline_since = [];
  image_build_epoch = pos 0;
  image_version = codes "unknown";
  status = none;
  trace = [];
}

still_starting : (steps opening one_repo 1 (starting, cold)).0 ≡ starting
unfolding steps nat_eq
still_starting = refl

let_through : (steps opening one_repo 2 (starting, cold)).0 ≡ ticking
unfolding steps nat_eq
let_through = refl

steps-IsGated_example : IsGated opening one_repo (steps opening one_repo 3 (starting, cold))
steps-IsGated_example = steps-IsGated opening one_repo 3 cold refl
