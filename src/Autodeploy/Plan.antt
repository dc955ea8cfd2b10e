-- ===== src/Autodeploy/Plan.antt =====
-- `_role_to_target`, `plan_targets` and `plan_skipped`: which targets the changed files imply. A
-- missing allowlist or deny-list is the empty list.
pub mod Membership
pub mod Order
pub mod Gate
use pi_homelab.Base.{ℕ, ◌-◌, Bool, true, false, not, ◌&&◌, ◌||◌, Option, none, some}
use pi_homelab.Base.{List, [], ◌∷◌, ◌++◌, ◌==◌, contains, text_eq, eqb, if◌then◌else◌}
use pi_homelab.Base.{length, take, filter}
use pi_homelab.Base.Text.{Text, codes, strip, lstrip, starts_with, ends_with, split_on}
use pi_homelab.Base.Text.{replace_char, nonempty}
use pi_homelab.Base.Dict.{Dict, lookup}

abbrev pub base : Text
base = codes "base"

abbrev pub homelab_runtime : Text
homelab_runtime = codes "homelab-runtime"

unfoldable pub extra_file_targets : Dict Text Text
extra_file_targets =
    (codes "CHANGELOG.md", codes "homepage")
    ∷ (codes "scripts/go-source-id.py", homelab_runtime)
    ∷ []

-- The role map and the roles that collapse to `base`.
pub record Config : Type 0 where
  pub role_target_map : Dict Text Text
  pub base_roles : List Text

unfoldable pub role_to_target : Config → Text → Option Text
role_to_target c role =
    if contains c.base_roles role then some base else elim (lookup role c.role_target_map) [
      | some target ↦ if nonempty target then some target else none
      | none ↦ some (replace_char b'_' b'-' role)
    ]

-- A playbook by its file name without `.yml`.
unfoldable pub playbook_target : Text → Option Text
playbook_target name =
    if starts_with name (codes "verify-")
    then none
    else if name == base
    then some base
    else some name

-- The target of a file under ansible/, from the parts of its path.
unfoldable pub ansible_target : Config → List Text → Option Text
unfolding role_to_target playbook_target
ansible_target c (_ ∷ folder ∷ name ∷ _) =
    if folder == codes "roles"
    then role_to_target c name
    else if folder == codes "playbooks" && ends_with name (codes ".yml")
    then playbook_target (take (length name - 4) name)
    else none
ansible_target c _ = none

-- The variables of the loop.
pub record Progress : Type 0 where
  pub targets : List Text
  pub saw_base : Bool

-- `if t not in targets: targets.append(t)`
unfoldable pub add : Text → Progress → Progress
add t p = if contains p.targets t then p else record p { targets = p.targets ++ t ∷ [] }

-- The end of the loop's body.
unfoldable pub note : Option Text → Progress → Progress
unfolding add
note none p = p
note (some t) p =
    if t == base then record p { saw_base = true } else if nonempty t then add t p else p

is_dot_or_slash : ℕ → Bool
is_dot_or_slash c = eqb c b'.' || eqb c b'/'

-- `f.strip().lstrip("./")`
unfoldable pub clean : Text → Text
unfolding strip lstrip is_dot_or_slash
clean f = lstrip is_dot_or_slash (strip f)

-- The body of the loop.
unfoldable pub visit : Config → Text → Progress → Progress
unfolding add note clean ansible_target extra_file_targets
visit c file p =
    let f = clean file in
    elim (lookup f extra_file_targets) [
      | some t ↦ add t p
      | none ↦
          if starts_with f (codes "runtime/")
          then add homelab_runtime p
          else if not (starts_with f (codes "ansible/"))
          then p
          else note (ansible_target c (split_on b'/' f)) p
    ]

unfoldable pub visit_all : Config → List Text → Progress → Progress
unfolding visit
visit_all c [] p = p
visit_all c (f ∷ files) p = visit_all c files (visit c f p)

-- `homelab-runtime` is moved to the front.
unfoldable pub runtime_first : List Text → List Text
runtime_first targets =
    if contains targets homelab_runtime
    then homelab_runtime ∷ filter (λ t. not (t == homelab_runtime)) targets
    else targets

unfoldable pub ordered : Progress → List Text
unfolding runtime_first
ordered p = let targets = runtime_first p.targets in if p.saw_base then base ∷ targets else targets

-- `if allow: …`
unfoldable pub allowed : List Text → List Text → List Text
allowed [] targets = targets
allowed (a ∷ allow) targets = filter (contains (a ∷ allow)) targets

-- `if deny: …`
unfoldable pub undenied : List Text → List Text → List Text
undenied [] targets = targets
undenied (d ∷ deny) targets = filter (λ t. not (contains (d ∷ deny) t)) targets

abbrev pub start : Progress
start = record { targets = []; saw_base = false }

unfoldable pub plan_targets : List Text → Config → List Text → List Text → List Text
unfolding visit_all ordered allowed undenied
plan_targets changed c allow never =
    undenied never (allowed allow (ordered (visit_all c changed start)))

unfoldable pub plan_skipped : List Text → Config → List Text → List Text → List Text
unfolding plan_targets
plan_skipped changed c allow never =
    let deployed = plan_targets changed c allow never in
    filter (λ t. not (contains deployed t)) (plan_targets changed c [] [])
