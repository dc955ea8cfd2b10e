-- ===== src/Autodeploy/Plan/Gate.antt =====
-- What the allowlist and the deny-list let through, and what `plan_skipped` reports.
use pi_homelab.Base.{◌≡◌, refl, ◌∙◌, Bool, true, false, not, ◌&&◌, ◌||◌, List, [], ◌∷◌}
use pi_homelab.Base.{contains, text_eq, arith, contains-filter}
use pi_homelab.Base.{distinct, distinct-filter}
use pi_homelab.Base.Text.{Text}
use pi_homelab.Autodeploy.Plan.{Config, allowed, undenied, plan_targets, plan_skipped}
use pi_homelab.Autodeploy.Plan.{start, visit_all, ordered}
use pi_homelab.Autodeploy.Plan.Order.{IsOrdered, plan_targets-IsOrdered}

-- No allowlist is no gate.
abbrev pub passes : List Text → List Text → Text → Bool
passes [] never t = not (contains never t)
passes (a ∷ allow) never t = contains (a ∷ allow) t && not (contains never t)

contains-undenied :
    (never ts : List Text) (t : Text)
    → contains (undenied never ts) t ≡ (contains ts t && not (contains never t))
unfolding undenied
contains-undenied [] ts t = ground arith
contains-undenied (d ∷ never) ts t = contains-filter (λ u. not (contains (d ∷ never) u)) ts t

contains-allowed :
    (allow never ts : List Text) (t : Text)
    → (contains (allowed allow ts) t && not (contains never t))
      ≡ (contains ts t && passes allow never t)
unfolding allowed
contains-allowed [] never ts t = refl
contains-allowed (a ∷ allow) never ts t =
    ground (arith, contains-filter (contains (a ∷ allow)) ts t)

-- A target is deployed exactly when the full plan has it, it stands in the allowlist or there is
-- none, and it does not stand in the deny-list.
pub contains-plan_targets_gated :
    (changed : List Text) (c : Config) (allow never : List Text) (t : Text)
    → contains (plan_targets changed c allow never) t
      ≡ (contains (plan_targets changed c [] []) t && passes allow never t)
unfolding plan_targets undenied allowed
contains-plan_targets_gated changed c allow never t =
    let full = ordered (visit_all c changed start) in
    contains-undenied never (allowed allow full) t ∙ contains-allowed allow never full t

-- What one diff deploys and what it holds back.
pub record IsSplit (full deployed held : List Text) : Type 0 where
  pub covers : (t : Text) → contains full t ≡ (contains deployed t || contains held t)
  pub apart : (t : Text) → (contains deployed t && contains held t) ≡ false
  pub once : distinct held ≡ true

-- Every target that the diff implies is either deployed or reported as held, never both and never
-- neither, and none is reported twice.
pub plan_skipped-IsSplit :
    (changed : List Text) (c : Config) (allow never : List Text)
    → IsSplit
        (plan_targets changed c [] [])
        (plan_targets changed c allow never)
        (plan_skipped changed c allow never)
plan_skipped-IsSplit changed c allow never = record {
  covers = λ t. ground (arith, held t, contains-plan_targets_gated changed c allow never t);
  apart = λ t. ground (arith, held t);
  once =
      unfold plan_skipped in
      distinct-filter _ full (IsOrdered.once (plan_targets-IsOrdered changed c [] []));
}
  where
    full : List Text
    full = plan_targets changed c [] []

    deployed : List Text
    deployed = plan_targets changed c allow never

    held :
        (t : Text)
        → contains (plan_skipped changed c allow never) t
          ≡ (contains full t && not (contains deployed t))
    held t = unfold plan_skipped in contains-filter (λ u. not (contains deployed u)) full t
