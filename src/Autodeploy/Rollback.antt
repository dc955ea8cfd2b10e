-- ===== src/Autodeploy/Rollback.antt =====
-- `rollback_targets`: which targets are deployed again at the last good commit.
pub mod Laws
use pi_homelab.Base.{ℕ, zero, suc, ◌+◌, Bool, true, false, not, ◌||◌, List, [], ◌∷◌, ◌==◌}
use pi_homelab.Base.{contains, text_eq, if◌then◌else◌, take, filter}
use pi_homelab.Base.Text.{Text, strip, nonempty}

-- `xs.index(a)`; past the end where `a` is missing, which the caller rules out.
unfoldable pub index : List Text → Text → ℕ
index [] a = 0
index (x ∷ xs) a = if a == x then 0 else suc (index xs a)

unfoldable pub rollback_targets : List Text → Text → List Text
unfolding index
rollback_targets all_targets failed_target =
    let targets = filter nonempty all_targets in
    let failed = strip failed_target in
    if not (nonempty failed) || not (contains targets failed)
    then targets
    else take (index targets failed + 1) targets
