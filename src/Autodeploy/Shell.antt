-- ===== src/Autodeploy/Shell.antt =====
-- The run of ansible/roles/homelab_autodeploy/templates/homelab-autodeploy.sh.j2 as the program is
-- called: the state is a file, and what is decided is an exit status or a text. The newest tag's
-- commit, the answer of the CI query, the changed files and the outcome of each deployment are given.
pub mod Lines
pub mod Calls
pub mod Refines
pub mod Stuck
mod Tests
use pi_homelab.Base.{
  ℕ, Bool, true, false, not, List, [], ◌∷◌, ◌++◌, Option, none, some, eqb, filter,
}
use pi_homelab.Base.{if◌then◌else◌}
use pi_homelab.Base.Text.{Text, codes, nonempty, split_on}
use pi_homelab.Base.Dict.{Dict}
use pi_homelab.Base.Decimal.{decimal}
use pi_homelab.Base.Json.{Loaded, loaded, no_json, fails, loaded_object, Value}
use pi_homelab.Base.Result.{Result, ok, raise, Read, contents}
use pi_homelab.Autodeploy.State.{State}
use pi_homelab.Autodeploy.Main.{Ran, main}
use pi_homelab.Autodeploy.Controller.{deploy_loop}

-- The variables of the script, and the time that `date +%s` prints.
pub record Setup : Type 0 where
  pub state_path : Text
  pub role_map : Text
  pub base_roles : Text
  pub allowlist : Text
  pub never_auto : Text
  pub origin : Text
  pub ci : Option Text
  pub changed : List Text
  pub deploys : Text → Bool
  pub now : ℕ

pub record Ended : Type 0 where
  pub file : Read
  pub attempted : List Text
  pub restored : List Text

-- The exit status is 0; an exception ends Python with 1.
abbrev pub succeeded : Result Ran → Bool
succeeded (ok r) = eqb r.exit 0
succeeded (raise e) = false

abbrev pub output : Result Ran → Text
output (ok r) = r.out
output (raise e) = []

abbrev pub without_last : List Text → List Text
without_last [] = []
without_last (line ∷ []) = []
without_last (line ∷ next ∷ lines) = line ∷ without_last (next ∷ lines)

-- `while IFS= read -r _l; do [ -n "$_l" ] && ARR+=("$_l"); done`: what follows the last line feed is
-- no line.
unfoldable pub lines_of : Text → List Text
lines_of text = filter nonempty (without_last (split_on b'\n' text))

module _ (loads : Text → Loaded) (loads_map : Text → Result (Dict Text Text)) (dumps : State → Text)
    (shown : Value → Text) where
  abbrev pub py : Read → List Text → Result Ran
  py file args =
      main (λ path. file) loads loads_map dumps shown (codes "homelab_autodeploy.py" ∷ args)

  -- The file is replaced where the program succeeds.
  abbrev pub state_set : List Text → Read → Read
  state_set args file = let r = py file args in if succeeded r then contents (output r) else file

  module _ (i : Setup) where
    abbrev pub plan : Read → List Text
    plan file = lines_of (
        output (
          py file
            (codes "plan" ∷ i.role_map ∷ i.base_roles ∷ i.allowlist ∷ i.never_auto ∷ i.changed)))

    abbrev pub restore : Read → Text → List Text → List Text
    restore file failed targets =
        lines_of (output (py file (codes "rollback-targets" ∷ failed ∷ targets)))

    abbrev pub set_done : Text → Read → Read
    set_done command = state_set (command ∷ i.state_path ∷ i.origin ∷ decimal i.now ∷ [])

    -- The rollback, or the end of a deployment; without targets it is the end at once.
    abbrev pub finish_deploy : Read → List Text → List Text → Option Text → Ended
    finish_deploy file targets attempted none = record {
      file = set_done (codes "on-success") file;
      attempted = attempted;
      restored = [];
    }
    finish_deploy file targets attempted (some t) = record {
      file = set_done (codes "on-fail") file;
      attempted = attempted;
      restored = restore file t targets;
    }

    -- From the adoption of the commit on.
    unfoldable pub adopt : Read → Ended
    unfolding main lines_of
    adopt file =
        let targets = plan file in
        let d = deploy_loop i.deploys targets in finish_deploy file targets d.attempted d.failed

    abbrev pub is_held : Read → Option Text → Bool
    is_held file none = false
    is_held file (some conclusion) = not (succeeded (py file (codes "ci-passed" ∷ conclusion ∷ [])))

    unfoldable pub run : Read → Ended
    unfolding adopt
    run file =
        if not (succeeded (py file (codes "needs-deploy" ∷ i.state_path ∷ i.origin ∷ [])))
        then record { file = file; attempted = []; restored = [] }
        else if is_held file i.ci
        then record { file = file; attempted = []; restored = [] }
        else adopt (state_set (codes "on-attempt" ∷ i.state_path ∷ i.origin ∷ []) file)
