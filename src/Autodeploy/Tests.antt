-- ===== src/Autodeploy/Tests.antt =====
-- Runs of the controller's decisions on small inputs, and the theorems at concrete data.
use pi_homelab.Base.{◌≡◌, refl, true, false, not, some, List, [], ◌∷◌}
use pi_homelab.Base.{◌==◌, contains, text_eq, if◌then◌else◌, all, any}
use pi_homelab.Base.Text.{Text, codes, strip, starts_with, split_on, ends_with}
use pi_homelab.Base.Text.{replace_char}
use pi_homelab.Base.Dict.{lookup, insert}
use pi_homelab.Base.Int.{pos, ◌+ℤ◌}
use pi_homelab.Base.Json.{str, int, int_of}
use pi_homelab.Autodeploy.State.{
  State, needs_deploy, on_attempt, on_success, on_fail, last_good_sha,
}
use pi_homelab.Autodeploy.State.{ci_passed, fail_count}
use pi_homelab.Autodeploy.Controller.Retry.{attempts, attempts_le}
use pi_homelab.Base.{◌≤◌}
use pi_homelab.Autodeploy.Plan.{Config, plan_targets, plan_skipped, base, homelab_runtime}
use pi_homelab.Autodeploy.Plan.Membership.{implied, is_target, contains-plan_targets}
use pi_homelab.Autodeploy.Plan.Order.{IsOrdered, plan_targets-IsOrdered}
use pi_homelab.Autodeploy.Plan.Gate.{IsSplit, plan_skipped-IsSplit}
use pi_homelab.Autodeploy.Rollback.{rollback_targets}
use pi_homelab.Autodeploy.Controller.{Inputs, Report, cycle, held_by_ci}
use pi_homelab.Autodeploy.Controller.Laws.{cycle_restores, needs_deploy-cycle}
use pi_homelab.Base.Unlines.{unlines}
use pi_homelab.Base.Json.{Value}
use pi_homelab.Base.Result.{ok}
use pi_homelab.Autodeploy.State.{count_of, is_text}
use pi_homelab.Autodeploy.Controller.{deploy_loop}
use pi_homelab.Autodeploy.Metrics.{render_metrics}
use pi_homelab.Autodeploy.Metrics.Cycle.{lines_after, render_metrics-cycle}

abbrev config : Config
config = record {
  role_target_map = (codes "media_arr", codes "media") ∷ (codes "molecule", []) ∷ [];
  base_roles = codes "common" ∷ codes "docker" ∷ [];
}

abbrev changed : List Text
changed =
    codes "ansible/roles/media_arr/tasks/main.yml"
    ∷ codes "./runtime/main.go"
    ∷ codes "ansible/roles/home_page/defaults/main.yml"
    ∷ codes "ansible/roles/docker/tasks/main.yml"
    ∷ codes "ansible/playbooks/verify-dns.yml"
    ∷ codes "docs/readme.md"
    ∷ codes "CHANGELOG.md"
    ∷ []

plan : List Text → List Text → List Text
unfolding plan_targets text_eq lookup starts_with split_on ends_with replace_char
plan allow never = plan_targets changed config allow never

plan_full :
    plan [] [] ≡ base ∷ homelab_runtime ∷ codes "media" ∷ codes "home-page" ∷ codes "homepage" ∷ []
unfolding plan
plan_full = refl

plan_gated :
    plan (codes "media" ∷ base ∷ homelab_runtime ∷ []) (base ∷ [])
    ≡ homelab_runtime ∷ codes "media" ∷ []
unfolding plan
plan_gated = refl

abbrev inputs : Inputs
inputs = record {
  config = config;
  allowlist = [];
  never_auto = base ∷ [];
  origin = codes "c0ffee\n";
  ci = some (codes " Success");
  changed = changed;
  deploys = λ t. not (t == codes "media");
  now = pos 1000;
}

abbrev state : State
state = (last_good_sha, str (codes "beef")) ∷ (fail_count, int (pos 2)) ∷ []

run : Report
unfolding cycle plan needs_deploy on_attempt on_success on_fail ci_passed insert rollback_targets
    int_of ◌+ℤ◌
run = cycle inputs state

-- The third target is never started, the failing second one is restored too.
run_restored : run.restored ≡ homelab_runtime ∷ codes "media" ∷ []
unfolding run
run_restored = refl

run_counted : lookup fail_count run.state ≡ some (int (pos 3))
unfolding run
run_counted = refl

tidy : all (λ t. strip t == t) (plan_targets changed config [] (base ∷ [])) ≡ true
unfolding plan strip
tidy = refl

cycle_restores_example : (cycle inputs state).restored ≡ (
    if all inputs.deploys (cycle inputs state).attempted
    then []
    else (cycle inputs state).attempted)
cycle_restores_example = cycle_restores inputs state tidy

open_gate : held_by_ci inputs.ci ≡ false
unfolding held_by_ci ci_passed text_eq
open_gate = refl

needs_deploy-cycle_example : needs_deploy (cycle inputs state).state inputs.origin ≡ false
needs_deploy-cycle_example = needs_deploy-cycle inputs state open_gate

same_tag : all (λ i. i.origin == inputs.origin) (inputs ∷ inputs ∷ inputs ∷ []) ≡ true
unfolding text_eq
same_tag = refl

attempts_le_example : attempts (inputs ∷ inputs ∷ inputs ∷ []) state ≤ 1
attempts_le_example = attempts_le inputs.origin (inputs ∷ inputs ∷ inputs ∷ []) state same_tag

contains-plan_targets_example :
    contains (plan_targets changed config [] []) base
    ≡ any (λ f. is_target base (implied config f)) changed
contains-plan_targets_example = contains-plan_targets changed config base

plan_targets-IsOrdered_example :
    IsOrdered (plan_targets changed config (base ∷ codes "media" ∷ []) (codes "homepage" ∷ []))
plan_targets-IsOrdered_example =
    plan_targets-IsOrdered changed config (base ∷ codes "media" ∷ []) (codes "homepage" ∷ [])

plan_skipped-IsSplit_example :
    IsSplit
      (plan_targets changed config [] [])
      (plan_targets changed config [] (base ∷ []))
      (plan_skipped changed config [] (base ∷ []))
plan_skipped-IsSplit_example = plan_skipped-IsSplit changed config [] (base ∷ [])

abbrev shown : Value → Text
shown v = codes "?"

metrics_due : needs_deploy state inputs.origin ≡ true
unfolding needs_deploy lookup text_eq is_text strip
metrics_due = refl

counted : count_of (lookup fail_count state) ≡ ok (pos 2)
unfolding lookup text_eq count_of int_of
counted = refl

render_metrics-cycle_example :
    render_metrics shown (cycle inputs state).state (pos 2000) true
    ≡ ok (
        unlines (
          lines_after shown inputs state
            (pos 2000)
            true
            (pos 2)
            (deploy_loop inputs.deploys (
              plan_targets inputs.changed inputs.config inputs.allowlist
                inputs.never_auto)).failed))
render_metrics-cycle_example =
    render_metrics-cycle shown inputs state (pos 2000) true (pos 2) metrics_due open_gate counted
