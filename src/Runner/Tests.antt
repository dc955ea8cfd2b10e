-- ===== src/Runner/Tests.antt =====
-- The supervisor at concrete inputs.
use pi_homelab.Base.{◌≡◌, refl, ℕ, true, false, none, some, [], ◌∷◌, filter, arith}
use pi_homelab.Base.{text_eq, nat_eq}
use pi_homelab.Base.Text.{Text, codes, strip, splitlines, is_infix}
use pi_homelab.Base.Dict.{lookup, insert, erase}
use pi_homelab.Base.Int.{pos}
use pi_homelab.Base.Json.{int_of_text}
use pi_homelab.Runner.World.{Call, Completed, Config, Counters, RunnerInfo, World, Supervisor}
use pi_homelab.Runner.World.{Trace, reply, return}
use pi_homelab.Runner.Docker.{Exited, exited_job_containers, running_job_containers, spawn_runner}
use pi_homelab.Runner.Github.{list_runners, queued_jobs, generate_jit_config, delete_runner}
use pi_homelab.Runner.Reap.{reap_exited_containers, reap_offline_runners}
use pi_homelab.Runner.Reap.Jobs.{Reaped, reap_exited_containers-Reaped}
use pi_homelab.Runner.Reap.Offline.{Answers, reap_offline_runners-deletions}
use pi_homelab.Runner.Reap.Offline.{deletions, is_stale, known}
use pi_homelab.Runner.Spawn.{maybe_spawn, place}
use pi_homelab.Runner.Spawn.Choice.{Decision, maybe_spawn-Decision}
use pi_homelab.Runner.Tick.{
  pass, observe_from, inspect_runner_image, write_status, count_by_repo, idle_of, queued_of,
}
use pi_homelab.Runner.Tick.Cap.{IsSound, here, more, Reaches-IsSound}

abbrev homelab : Text
homelab = codes "homelab"

-- One container has exited with 1, and none runs.
abbrev docker_answer : Trace → Call → Completed
docker_answer t Call.ps_exited = record { returncode = pos 0; stdout = codes "a1|homelab" }
docker_answer t (Call.inspect id) = record { returncode = pos 0; stdout = codes "1" }
docker_answer t _ = record { returncode = pos 0; stdout = [] }

abbrev lost : RunnerInfo
lost = record { id = 7; status = codes "offline"; busy = false }

abbrev alive : RunnerInfo
alive = record { id = 8; status = codes "online"; busy = true }

abbrev example_world : World
example_world = record {
  docker = docker_answer;
  runners_of = λ t repo. reply 200 (some (pos 50)) (lost ∷ alive ∷ []);
  jit_of = λ t repo. reply 201 none (some (codes "jit"));
  queued_of = λ t repo. reply 200 none 2;
  other = λ t c. reply 204 none tt;
  now = λ t. 1000;
  writable = λ t. true;
}

abbrev example_config : Config
example_config = record {
  repos = homelab ∷ codes "site" ∷ [];
  max_concurrent_global = pos 1;
  idle_per_repo = pos 1;
  orphan_reap = pos 900;
}

abbrev fresh : Counters
fresh = record {
  jobs_total = 0;
  jobs_failed_total = 0;
  last_job_exit_code = pos 0;
  github_api_auth_failures_total = 0;
  jit_config_failures = [];
  jit_last_success_ts = 0;
  github_api_rate_remaining = pos 0;
}

-- Runner 7 was seen offline at 100.
abbrev start : Supervisor
start = record {
  counters = fresh;
  offline_since = (7, 100) ∷ [];
  image_build_epoch = pos 0;
  image_version = codes "unknown";
  status = none;
  trace = [];
}

abbrev a1 : Exited
a1 = record { container = record { id = codes "a1"; repo = homelab }; exit_code = pos 1 }

abbrev listed : Supervisor
listed = record start { trace = Call.inspect (codes "a1") ∷ Call.ps_exited ∷ [] }

listing : exited_job_containers example_world start ≡ (return (a1 ∷ []), listed)
unfolding exited_job_containers splitlines strip int_of_text
listing = refl

reap_exited_containers-Reaped_example :
    ((reap_exited_containers example_world start).0 ≡ return 1)
    × Reaped (a1 ∷ []) listed (reap_exited_containers example_world start).1
reap_exited_containers-Reaped_example =
    reap_exited_containers-Reaped example_world (a1 ∷ []) start listed listing

answered : Answers example_world
answered t c e = cc

reap_offline_runners-deletions_example :
    let (r, s) =
      reap_offline_runners example_world example_config homelab (lost ∷ alive ∷ []) start in
    (r ≡ return tt)
    × (s.trace
        ≡ deletions homelab (filter (is_stale example_config 1000 start) (lost ∷ alive ∷ [])) [])
    × ((id : ℕ)
        → lookup id s.offline_since ≡ known example_config 1000 start (lost ∷ alive ∷ []) id)
unfolding nat_eq
reap_offline_runners-deletions_example =
    reap_offline_runners-deletions example_world example_config homelab (lost ∷ alive ∷ []) start
      answered refl

maybe_spawn-Decision_example :
    Decision example_world example_config [] 0
      ((codes "site", 3) ∷ [])
      []
      (maybe_spawn example_world example_config [] 0 ((codes "site", 3) ∷ []) start).1.trace
maybe_spawn-Decision_example =
    maybe_spawn-Decision example_world example_config [] 0 ((codes "site", 3) ∷ []) start

Reaches-IsSound_example :
    IsSound example_world example_config (pass example_world example_config start).1
Reaches-IsSound_example =
    Reaches-IsSound example_world example_config start (pass example_world example_config start).1
      (refl, ground arith) (more start here)

-- A whole pass: the container and the lost runner go, and a runner starts for the first repository.
passed :
    (pass example_world example_config start).1.trace
    ≡ Call.run homelab (codes "jit")
      ∷ Call.generate_jit homelab
      ∷ Call.queued_jobs (codes "site")
      ∷ Call.list_runners (codes "site")
      ∷ Call.queued_jobs homelab
      ∷ Call.delete_runner homelab 7
      ∷ Call.list_runners homelab
      ∷ Call.ps_running
      ∷ Call.rm (codes "a1")
      ∷ Call.inspect (codes "a1")
      ∷ Call.ps_exited
      ∷ Call.image_inspect
      ∷ []
unfolding pass observe_from list_runners queued_jobs generate_jit_config spawn_runner maybe_spawn
    place inspect_runner_image reap_exited_containers exited_job_containers running_job_containers
    reap_offline_runners delete_runner write_status count_by_repo idle_of queued_of is_infix
    splitlines strip int_of_text lookup insert erase nat_eq text_eq
passed = refl
