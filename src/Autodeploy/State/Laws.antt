-- ===== src/Autodeploy/State/Laws.antt =====
-- What the transitions leave in the state, and what they make `needs_deploy` answer.
use pi_homelab.Base.{◌≡◌, false, some, ◌==◌, text_eq}
use pi_homelab.Base.{if◌then◌else◌, [], arith}
use pi_homelab.Base.Text.{Text, codes, strip}
use pi_homelab.Base.Dict.{lookup, lookup-insert}
use pi_homelab.Base.Int.{ℤ}
use pi_homelab.Base.Json.{int, str}
use pi_homelab.Autodeploy.State.{State, seen_sha, failed_sha, last_good_sha, last_deploy_sha}
use pi_homelab.Autodeploy.State.{last_deploy_ts, last_deploy_result}
use pi_homelab.Autodeploy.State.{needs_deploy, on_attempt, on_success}

-- A head that was attempted is not due for deployment, whatever the state was.
pub needs_deploy-on_attempt : (s : State) (sha : Text) → needs_deploy (on_attempt s sha) sha ≡ false
unfolding needs_deploy on_attempt
needs_deploy-on_attempt s sha = ground (arith, lookup-insert seen_sha seen_sha (str (strip sha)) s)

pub lookup-on_success :
    (s : State) (sha : Text) (now : ℤ) (k : Text)
    → lookup k (on_success s sha now) ≡ (
        if k == failed_sha
        then some (str [])
        else if k == last_deploy_result
        then some (str (codes "ok"))
        else if k == last_deploy_ts
        then some (int now)
        else if k == last_deploy_sha
        then some (str sha)
        else if k == last_good_sha
        then some (str sha)
        else lookup k s)
unfolding on_success
lookup-on_success s sha now k = simp lookup-insert
