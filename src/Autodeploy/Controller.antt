-- ===== src/Autodeploy/Controller.antt =====
-- One run of the controller as ansible/roles/homelab_autodeploy/templates/homelab-autodeploy.sh.j2
-- strings the decisions together, from `needs-deploy` to the last state transition. The newest
-- tag's commit, the answer of the CI query, the changed files and the outcome of each `make` are
-- given.
pub mod Laws
pub mod Retry
use pi_homelab.Base.{Bool, true, false, not, Option, none, some, List, [], ◌∷◌, if◌then◌else◌}
use pi_homelab.Base.Text.{Text}
use pi_homelab.Base.Int.{ℤ}
use pi_homelab.Base.Result.{Result, ok, raise}
use pi_homelab.Autodeploy.State.{State, needs_deploy, ci_passed, on_attempt, on_success, on_fail}
use pi_homelab.Autodeploy.Plan.{Config, plan_targets}
use pi_homelab.Autodeploy.Rollback.{rollback_targets}

pub record Inputs : Type 0 where
  pub config : Config
  pub allowlist : List Text
  pub never_auto : List Text
  pub origin : Text
  pub ci : Option Text
  pub changed : List Text
  pub deploys : Text → Bool
  pub now : ℤ

pub record Report : Type 0 where
  pub state : State
  pub attempted : List Text
  pub restored : List Text

-- The deploy loop: the targets that were started, and the one that failed.
pub record Deployed : Type 0 where
  pub attempted : List Text
  pub failed : Option Text

unfoldable pub deploy_loop : (Text → Bool) → List Text → Deployed
deploy_loop deploys [] = record { attempted = []; failed = none }
deploy_loop deploys (t ∷ targets) =
    let later = deploy_loop deploys targets in
    if deploys t
    then record { attempted = t ∷ later.attempted; failed = later.failed }
    else record { attempted = t ∷ []; failed = some t }

-- `state_set`: a transition that raises leaves the file as it is.
unfoldable pub state_set : Result State → State → State
state_set (ok s') s = s'
state_set (raise e) s = s

unfoldable pub held_by_ci : Option Text → Bool
held_by_ci none = false
held_by_ci (some conclusion) = not (ci_passed conclusion)

-- From the deploy plan on, with the state of `on-attempt` in the file.
unfoldable pub deploy : Inputs → List Text → State → Report
unfolding deploy_loop state_set
deploy i targets s =
    let d = deploy_loop i.deploys targets in
    elim d.failed [
      | none ↦ record {
        state = on_success s i.origin i.now;
        attempted = d.attempted;
        restored = [];
      }
      | some t ↦ record {
        state = state_set (on_fail s i.origin i.now) s;
        attempted = d.attempted;
        restored = rollback_targets targets t;
      }
    ]

unfoldable pub cycle : Inputs → State → Report
unfolding deploy held_by_ci
cycle i s =
    if not (needs_deploy s i.origin)
    then record { state = s; attempted = []; restored = [] }
    else if held_by_ci i.ci
    then record { state = s; attempted = []; restored = [] }
    else deploy i (plan_targets i.changed i.config i.allowlist i.never_auto) (on_attempt s i.origin)
