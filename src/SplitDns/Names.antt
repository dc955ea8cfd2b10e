-- ===== src/SplitDns/Names.antt =====
-- `_norm` and `covers`: which names a route answers for.
pub mod Labels
use pi_homelab.Base.{ℕ, Bool, false, not, ◌||◌, List, ◌∷◌, ◌==◌, text_eq, eqb, if◌then◌else◌}
use pi_homelab.Base.Text.{Text, strip, rstrip, lower, ends_with, nonempty}

is_dot : ℕ → Bool
is_dot c = eqb c b'.'

unfoldable pub norm : Text → Text
unfolding strip rstrip is_dot lower
norm domain = lower (rstrip is_dot (strip domain))

unfoldable pub covers : Text → Text → Bool
unfolding ends_with
covers route domain =
    let r = norm route in
    let d = norm domain in
    if not (nonempty r) || not (nonempty d) then false else d == r || ends_with d (b'.' ∷ r)
