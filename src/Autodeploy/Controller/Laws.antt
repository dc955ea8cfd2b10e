-- ===== src/Autodeploy/Controller/Laws.antt =====
-- What a run of the controller guarantees, whichever targets fail.
use pi_homelab.Base.{
  ◌≡◌, refl, sym, ap, ◌∙◌, Bool, true, false, not, ◌&&◌, ◌||◌, Option, none, some,
}
use pi_homelab.Base.{
  List, [], ◌∷◌, ◌++◌, ◌==◌, contains, text_eq, if◌then◌else◌, all, arith, all-append, ==_eq,
}
use pi_homelab.Base.{distinct, Option-cases, inl, inr, Bool-cases, contains-append, ==_sym}
use pi_homelab.Base.Text.{Text, codes, strip, nonempty}
use pi_homelab.Base.Dict.{lookup, insert, lookup-insert}
use pi_homelab.Base.Int.{ℤ, pos, ◌+ℤ◌}
use pi_homelab.Base.Json.{str, int}
use pi_homelab.Base.Result.{Result, ok, raise, ◌>>=◌}
use pi_homelab.Autodeploy.State.{State, needs_deploy, on_attempt, on_success, on_fail, seen_sha}
use pi_homelab.Autodeploy.State.{
  count_of, fail_count, last_deploy_result, last_deploy_ts, last_deploy_sha,
}
use pi_homelab.Autodeploy.State.{failed_sha, last_good_sha}
use pi_homelab.Autodeploy.State.Laws.{lookup-on_success}
use pi_homelab.Autodeploy.Plan.{plan_targets}
use pi_homelab.Autodeploy.Plan.Order.{IsOrdered, plan_targets-IsOrdered}
use pi_homelab.Autodeploy.Rollback.{rollback_targets}
use pi_homelab.Autodeploy.Rollback.Laws.{rollback_targets_failed}
use pi_homelab.Autodeploy.Controller.{
  Inputs, Deployed, deploy_loop, state_set, deploy, cycle, held_by_ci,
}

-- The loop stopped at `t`: what it started before, and what it never reached.
pub record StopsAt (t : Text) (targets : List Text) (d : Deployed) : Type 0 where
  pub done : List Text
  pub rest : List Text
  pub planned : targets ≡ done ++ t ∷ rest
  pub started : d.attempted ≡ done ++ t ∷ []
  pub fresh : contains done t ≡ false

ne_of_absent :
    (done rest : List Text) (t u : Text) → contains (done ++ t ∷ rest) u ≡ false → t == u ≡ false
ne_of_absent done rest t u h = ground (arith, contains-append done (t ∷ rest) u, ==_sym t u)

distinct-cons :
    (u : Text) (targets : List Text)
    → distinct (u ∷ targets) ≡ true
    → (contains targets u ≡ false) × (distinct targets ≡ true)
distinct-cons u targets d = ground arith

StopsAt-cons :
    (deploys : Text → Bool) (t u : Text) (targets : List Text)
    → deploys u ≡ true
    → contains targets u ≡ false
    → StopsAt t targets (deploy_loop deploys targets)
    → StopsAt t (u ∷ targets) (deploy_loop deploys (u ∷ targets))
unfolding deploy_loop
StopsAt-cons deploys t u targets fine absent w = record {
  done = u ∷ w.done;
  rest = w.rest;
  planned = ap (λ l. u ∷ l) w.planned;
  started = rw (fine, w.started);
  fresh = ground (arith, ne_of_absent w.done w.rest t u (rw w.planned at absent), w.fresh);
}

pub deploy_loop-StopsAt :
    (deploys : Text → Bool) (targets : List Text) (t : Text)
    → distinct targets ≡ true
    → (deploy_loop deploys targets).failed ≡ some t
    → StopsAt t targets (deploy_loop deploys targets)
unfolding deploy_loop
deploy_loop-StopsAt deploys [] t d e = cc
deploy_loop-StopsAt deploys (u ∷ targets) t d e = elim (Bool-cases (deploys u)) [
  | inl fine ↦
      StopsAt-cons deploys t u targets fine (distinct-cons u targets d).0
        (deploy_loop-StopsAt deploys targets t (distinct-cons u targets d).1 (rw fine at e))
  | inr broken ↦ record {
    done = [];
    rest = targets;
    planned = ground arith;
    started = ground arith;
    fresh = refl;
  }
]

all_middle :
    {A : Type 0} (p : A → Bool) (xs ys : List A) (a : A) → all p (xs ++ a ∷ ys) ≡ true → p a ≡ true
all_middle p xs ys a h = ground (arith, all-append p xs (a ∷ ys))

-- The text of a target survives `strip`, as one without spaces at its ends does.
abbrev pub is_tidy : Text → Bool
is_tidy t = strip t == t

rollback_targets-deploy_loop :
    (deploys : Text → Bool) (targets : List Text) (t : Text)
    → IsOrdered targets
    → all is_tidy targets ≡ true
    → (deploy_loop deploys targets).failed ≡ some t
    → rollback_targets targets t ≡ (deploy_loop deploys targets).attempted
rollback_targets-deploy_loop deploys targets t o tidy e =
    ap (λ l. rollback_targets l t) w.planned
    ∙ rollback_targets_failed w.done w.rest t (rw w.planned at o.named) w.fresh
        (==_eq _ _ (all_middle is_tidy w.done w.rest t (rw w.planned at tidy)))
        (all_middle nonempty w.done w.rest t (rw w.planned at o.named))
    ∙ sym w.started
  where
    w : StopsAt t targets (deploy_loop deploys targets)
    w = deploy_loop-StopsAt deploys targets t o.once e

abbrev is_none : Option Text → Bool
is_none none = true
is_none (some _) = false

all-deploy_loop :
    (deploys : Text → Bool) (targets : List Text)
    → all deploys (deploy_loop deploys targets).attempted
      ≡ is_none (deploy_loop deploys targets).failed
unfolding deploy_loop
all-deploy_loop deploys [] = refl
all-deploy_loop deploys (t ∷ targets) = ground (arith, all-deploy_loop deploys targets)

deploy_restores :
    (i : Inputs) (targets : List Text) (s : State)
    → IsOrdered targets
    → all is_tidy targets ≡ true
    → (deploy i targets s).restored ≡ (
        if all i.deploys (deploy i targets s).attempted then [] else (deploy i targets s).attempted)
unfolding deploy
deploy_restores i targets s o tidy =
    let d = deploy_loop i.deploys targets in
    elim (Option-cases d.failed) [
      | inl e ↦ ground (arith, all-deploy_loop i.deploys targets)
      | inr (t, e) ↦ ground (
        arith,
        all-deploy_loop i.deploys targets,
        rollback_targets-deploy_loop i.deploys targets t o tidy e,
      )
    ]

-- For plans of names without spaces at their ends: a run restores nothing if each target that it
-- started was deployed, and otherwise exactly the targets that it started, the failing one included.
pub cycle_restores :
    (i : Inputs) (s : State)
    → all is_tidy (plan_targets i.changed i.config i.allowlist i.never_auto) ≡ true
    → (cycle i s).restored
      ≡ (if all i.deploys (cycle i s).attempted then [] else (cycle i s).attempted)
unfolding cycle
cycle_restores i s tidy =
    let targets = plan_targets i.changed i.config i.allowlist i.never_auto in
    ground (
      arith,
      deploy_restores i targets (on_attempt s i.origin)
          (plan_targets-IsOrdered i.changed i.config i.allowlist i.never_auto) tidy,
    )

-- Whether the last good commit moves.
abbrev pub advances : Inputs → State → Bool
advances i s =
    needs_deploy s i.origin && not (held_by_ci i.ci) && all i.deploys (cycle i s).attempted

-- The keys that a failure records.
abbrev pub is_failure_key : Text → Bool
is_failure_key k =
    k == fail_count
    || k == last_deploy_result
    || k == last_deploy_ts
    || k == last_deploy_sha
    || k == failed_sha

not_any :
    (a b c d e : Bool)
    → (a || b || c || d || e) ≡ false
    → (a ≡ false) × (b ≡ false) × (c ≡ false) × (d ≡ false) × (e ≡ false)
not_any a b c d e h = ground arith

seen_sha_kept : is_failure_key seen_sha ≡ false
unfolding text_eq
seen_sha_kept = refl

last_good_sha_kept : is_failure_key last_good_sha ≡ false
unfolding text_eq
last_good_sha_kept = refl

lookup-state_set-on_fail :
    (s : State) (sha : Text) (now : ℤ) (k : Text)
    → is_failure_key k ≡ false
    → lookup k (state_set (on_fail s sha now) s) ≡ lookup k s
unfolding on_fail state_set
lookup-state_set-on_fail s sha now k h =
    let (a, b, c, d, e) =
      not_any (k == fail_count) (k == last_deploy_result) (k == last_deploy_ts)
        (k == last_deploy_sha) (k == failed_sha) h in
    elim (count_of (lookup fail_count s))
      as (λ r. lookup k (state_set (r >>= recorded) s) ≡ lookup k s) [
        | ok n ↦ simp (lookup-insert, a, b, c, d, e)
        | raise _ ↦ refl
      ]
  where
    recorded : ℤ → Result State
    recorded n = ok (
        insert fail_count (int (n +ℤ pos 1)) (
          insert last_deploy_result (str (codes "rolled_back")) (
            insert last_deploy_ts (int now)
              (insert last_deploy_sha (str sha) (insert failed_sha (str sha) s)))))

lookup-deploy :
    (i : Inputs) (targets : List Text) (s : State) (k : Text)
    → is_failure_key k ≡ false
    → lookup k (deploy i targets s).state ≡ (
        if all i.deploys (deploy i targets s).attempted
        then lookup k (on_success s i.origin i.now)
        else lookup k s)
unfolding deploy
lookup-deploy i targets s k h =
    let d = deploy_loop i.deploys targets in
    ground (arith, all-deploy_loop i.deploys targets, lookup-state_set-on_fail s i.origin i.now k h)

-- The last good commit becomes the new one if the run deployed all that it started, and stays what
-- it was if a target failed, CI held the commit or there was nothing to do.
pub lookup-last_good_sha-cycle :
    (i : Inputs) (s : State)
    → lookup last_good_sha (cycle i s).state
      ≡ (if advances i s then some (str i.origin) else lookup last_good_sha s)
unfolding cycle on_attempt
lookup-last_good_sha-cycle i s =
    let targets = plan_targets i.changed i.config i.allowlist i.never_auto in
    let s' = on_attempt s i.origin in
    ground (
      arith,
      lookup-deploy i targets s' last_good_sha last_good_sha_kept,
      lookup-on_success s' i.origin i.now last_good_sha,
      lookup-insert last_good_sha seen_sha (str (strip i.origin)) s,
    )

needs_deploy_seen :
    (s : State) (sha : Text)
    → lookup seen_sha s ≡ some (str (strip sha))
    → needs_deploy s sha ≡ false
unfolding needs_deploy
needs_deploy_seen s sha h = ground arith

-- A commit that CI does not hold is not due for deployment after a run, whatever the outcome of the
-- run was.
pub needs_deploy-cycle :
    (i : Inputs) (s : State)
    → held_by_ci i.ci ≡ false
    → needs_deploy (cycle i s).state i.origin ≡ false
unfolding cycle on_attempt
needs_deploy-cycle i s open_gate =
    let targets = plan_targets i.changed i.config i.allowlist i.never_auto in
    let s' = on_attempt s i.origin in
    ground (
      arith,
      lookup-deploy i targets s' seen_sha seen_sha_kept,
      lookup-on_success s' i.origin i.now seen_sha,
      lookup-insert seen_sha seen_sha (str (strip i.origin)) s,
      needs_deploy_seen (cycle i s).state i.origin,
    )
