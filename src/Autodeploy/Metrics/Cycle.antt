-- ===== src/Autodeploy/Metrics/Cycle.antt =====
-- What the metrics show after a run of the controller.
use pi_homelab.Base.{◌≡◌, refl, ◌∙◌, ap, Bool, true, false, Option, none, some, ◌==◌}
use pi_homelab.Base.{List, [], text_eq, if◌then◌else◌, arith}
use pi_homelab.Base.Text.{Text, codes, strip, nonempty}
use pi_homelab.Base.Dict.{lookup, lookup-insert}
use pi_homelab.Base.Int.{ℤ, pos, ◌+ℤ◌}
use pi_homelab.Base.Unlines.{unlines}
use pi_homelab.Base.Json.{Value, str, int, int_of}
use pi_homelab.Base.Metrics.{num}
use pi_homelab.Base.Result.{ok}
use pi_homelab.Autodeploy.State.{
  State, needs_deploy, on_attempt, on_success, on_fail, count_of, is_text,
}
use pi_homelab.Autodeploy.State.{seen_sha, failed_sha, last_good_sha, last_deploy_sha}
use pi_homelab.Autodeploy.State.{last_deploy_ts, last_deploy_result, fail_count}
use pi_homelab.Autodeploy.State.Laws.{lookup-on_success}
use pi_homelab.Autodeploy.Plan.{plan_targets}
use pi_homelab.Autodeploy.Controller.{Inputs, deploy_loop, cycle, deploy, state_set, held_by_ci}
use pi_homelab.Autodeploy.Metrics.{gauge_lines, short, text_or, render_metrics}

-- What a run has left: the metrics of the run that deployed all it started, or of one in which a
-- target failed.
abbrev pub lines_after : (Value → Text) → Inputs → State → ℤ → Bool → ℤ → Option Text → List Text
lines_after shown i s now last_run_ok fails none =
    gauge_lines now last_run_ok i.now fails false false (short i.origin)
lines_after shown i s now last_run_ok fails (some t) =
    gauge_lines now last_run_ok i.now (fails +ℤ pos 1) true true
      (short (text_or shown (codes "none") (lookup last_good_sha s)))

num_of_count : (o : Option Value) (n : ℤ) → count_of o ≡ ok n → num o ≡ ok n
unfolding num count_of
num_of_count none n h = h
num_of_count (some v) n h = rw h refl

nonempty_due : (s : State) (sha : Text) → needs_deploy s sha ≡ true → nonempty (strip sha) ≡ true
unfolding needs_deploy
nonempty_due s sha h = ground arith

-- The metrics of a state from the values of its keys.
render_metrics-values :
    (shown : Value → Text) (s : State) (now : ℤ) (last_run_ok : Bool) (deployed fails : ℤ)
    (rolled_back held : Bool) (good : Option Value)
    → lookup last_deploy_ts s ≡ some (int deployed)
    → num (lookup fail_count s) ≡ ok fails
    → is_text (lookup last_deploy_result s) (codes "rolled_back") ≡ rolled_back
    → nonempty (strip (text_or shown [] (lookup failed_sha s))) ≡ held
    → lookup last_good_sha s ≡ good
    → render_metrics shown s now last_run_ok
      ≡ ok (
          unlines (
            gauge_lines now last_run_ok deployed fails rolled_back held
              (short (text_or shown (codes "none") good))))
unfolding render_metrics num int_of
render_metrics-values shown s now last_run_ok deployed fails rolled_back held good a b c d e =
    rw (a, b, c, d, e) refl

lookup-recorded :
    (s : State) (sha : Text) (now n : ℤ) (k : Text)
    → count_of (lookup fail_count s) ≡ ok n
    → lookup k (state_set (on_fail s sha now) s) ≡ (
        if k == fail_count
        then some (int (n +ℤ pos 1))
        else if k == last_deploy_result
        then some (str (codes "rolled_back"))
        else if k == last_deploy_ts
        then some (int now)
        else if k == last_deploy_sha
        then some (str sha)
        else if k == failed_sha
        then some (str sha)
        else lookup k s)
unfolding on_fail state_set
lookup-recorded s sha now n k h = rw h (simp lookup-insert)

on_success_shows :
    (shown : Value → Text) (s : State) (sha : Text) (deployed now : ℤ) (last_run_ok : Bool)
    (fails : ℤ)
    → num (lookup fail_count s) ≡ ok fails
    → render_metrics shown (on_success s sha deployed) now last_run_ok
      ≡ ok (unlines (gauge_lines now last_run_ok deployed fails false false (short sha)))
unfolding text_eq is_text strip num int_of
on_success_shows shown s sha deployed now last_run_ok fails h =
    let t = on_success s sha deployed in
    render_metrics-values shown t now last_run_ok deployed fails false false (some (str sha))
      (lookup-on_success s sha deployed last_deploy_ts)
      (rw (lookup-on_success s sha deployed fail_count) h)
      (rw (lookup-on_success s sha deployed last_deploy_result) refl)
      (rw (lookup-on_success s sha deployed failed_sha) refl)
      (lookup-on_success s sha deployed last_good_sha)

on_fail_shows :
    (shown : Value → Text) (s : State) (sha : Text) (deployed now : ℤ) (last_run_ok : Bool)
    (fails : ℤ)
    → nonempty (strip sha) ≡ true
    → count_of (lookup fail_count s) ≡ ok fails
    → render_metrics shown (state_set (on_fail s sha deployed) s) now last_run_ok
      ≡ ok (
          unlines (
            gauge_lines now last_run_ok deployed
              (fails +ℤ pos 1)
              true
              true
              (short (text_or shown (codes "none") (lookup last_good_sha s)))))
unfolding text_eq is_text num int_of
on_fail_shows shown s sha deployed now last_run_ok fails h c =
    let t = state_set (on_fail s sha deployed) s in
    render_metrics-values shown t now last_run_ok deployed (fails +ℤ pos 1) true true
      (lookup last_good_sha s) (lookup-recorded s sha deployed fails last_deploy_ts c)
      (rw (lookup-recorded s sha deployed fails fail_count c) refl)
      (rw (lookup-recorded s sha deployed fails last_deploy_result c) refl)
      (rw (lookup-recorded s sha deployed fails failed_sha c) h)
      (lookup-recorded s sha deployed fails last_good_sha c)

-- A key that an attempt does not touch.
lookup-on_attempt :
    (s : State) (sha k : Text) → k == seen_sha ≡ false → lookup k (on_attempt s sha) ≡ lookup k s
unfolding on_attempt
lookup-on_attempt s sha k h = lookup-insert k seen_sha (str (strip sha)) s ∙ (rw h refl)

deploy_done :
    (i : Inputs) (s : State) (targets : List Text)
    → (deploy_loop i.deploys targets).failed ≡ none
    → (deploy i targets s).state ≡ on_success s i.origin i.now
unfolding deploy
deploy_done i s targets e = ground arith

deploy_failed :
    (i : Inputs) (s : State) (targets : List Text) (t : Text)
    → (deploy_loop i.deploys targets).failed ≡ some t
    → (deploy i targets s).state ≡ state_set (on_fail s i.origin i.now) s
unfolding deploy
deploy_failed i s targets t e = ground arith

deploy_shows :
    (shown : Value → Text) (i : Inputs) (s : State) (targets : List Text) (now : ℤ)
    (last_run_ok : Bool) (fails : ℤ) (failed : Option Text)
    → nonempty (strip i.origin) ≡ true
    → count_of (lookup fail_count s) ≡ ok fails
    → (deploy_loop i.deploys targets).failed ≡ failed
    → render_metrics shown (deploy i targets s).state now last_run_ok
      ≡ ok (unlines (lines_after shown i s now last_run_ok fails failed))
deploy_shows shown i s targets now last_run_ok fails none h c e =
    ap (λ t. render_metrics shown t now last_run_ok) (deploy_done i s targets e)
    ∙ on_success_shows shown s i.origin i.now now last_run_ok fails
        (num_of_count (lookup fail_count s) fails c)
deploy_shows shown i s targets now last_run_ok fails (some t) h c e =
    ap (λ u. render_metrics shown u now last_run_ok) (deploy_failed i s targets t e)
    ∙ on_fail_shows shown s i.origin i.now now last_run_ok fails h c

cycle_deploys :
    (i : Inputs) (s : State)
    → needs_deploy s i.origin ≡ true
    → held_by_ci i.ci ≡ false
    → cycle i s
      ≡ deploy i (plan_targets i.changed i.config i.allowlist i.never_auto) (on_attempt s i.origin)
unfolding cycle
cycle_deploys i s due open_gate = rw (due, open_gate) refl

fail_count_untouched :
    (s : State) (sha : Text) → lookup fail_count (on_attempt s sha) ≡ lookup fail_count s
unfolding text_eq
fail_count_untouched s sha = lookup-on_attempt s sha fail_count refl

lines_after-on_attempt :
    (shown : Value → Text) (i : Inputs) (s : State) (now : ℤ) (last_run_ok : Bool) (fails : ℤ)
    (failed : Option Text)
    → lines_after shown i (on_attempt s i.origin) now last_run_ok fails failed
      ≡ lines_after shown i s now last_run_ok fails failed
unfolding text_eq
lines_after-on_attempt shown i s now last_run_ok fails none = refl
lines_after-on_attempt shown i s now last_run_ok fails (some t) =
    rw (lookup-on_attempt s i.origin last_good_sha refl) refl

-- If the commit was due and CI does not hold it, and the stored count of failures is a number, the
-- metrics after a run show the time of the run; where every target was deployed, nothing held and
-- the new commit as the last good one, and where a target failed, one failure more, the commit held
-- and the last good one as before.
pub render_metrics-cycle :
    (shown : Value → Text) (i : Inputs) (s : State) (now : ℤ) (last_run_ok : Bool) (fails : ℤ)
    → needs_deploy s i.origin ≡ true
    → held_by_ci i.ci ≡ false
    → count_of (lookup fail_count s) ≡ ok fails
    → render_metrics shown (cycle i s).state now last_run_ok
      ≡ ok (
          unlines (
            lines_after shown i s now last_run_ok fails
              (deploy_loop i.deploys
                (plan_targets i.changed i.config i.allowlist i.never_auto)).failed))
render_metrics-cycle shown i s now last_run_ok fails due open_gate c =
    let targets = plan_targets i.changed i.config i.allowlist i.never_auto in
    let failed = (deploy_loop i.deploys targets).failed in
    ap (λ r. render_metrics shown r.state now last_run_ok) (cycle_deploys i s due open_gate)
    ∙ deploy_shows shown i (on_attempt s i.origin) targets now last_run_ok fails failed
        (nonempty_due s i.origin due) (ap count_of (fail_count_untouched s i.origin) ∙ c) refl
    ∙ ap (λ lines. ok (unlines lines))
        (lines_after-on_attempt shown i s now last_run_ok fails failed)
