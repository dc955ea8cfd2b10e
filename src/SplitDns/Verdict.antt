-- ===== src/SplitDns/Verdict.antt =====
-- `Verdict` and `decide`: the live routes against the domains that have to resolve.
pub mod Laws
pub mod Patch
pub mod Servers
pub mod Convergence
use pi_homelab.Base.{Bool, true, false, not, ◌&&◌, ◌||◌, Option, none, some, List, [], ◌∷◌, ◌++◌}
use pi_homelab.Base.{◌==◌, contains, text_eq, if◌then◌else◌, any, map, filter}
use pi_homelab.Base.Text.{Text, strip, nonempty}
use pi_homelab.Base.Dict.{Dict, insert}
use pi_homelab.SplitDns.Names.{norm, covers}

abbrev pub Routes : Type 0
Routes = Dict Text (List Text)

-- In a patch `none` clears a route.
pub record Verdict : Type 0 where
  pub missing : List Text
  pub misrouted : List Text
  pub stale : List Text
  pub desired_patch : Dict Text (Option (List Text))

abbrev pub empty_verdict : Verdict
empty_verdict = record { missing = []; misrouted = []; stale = []; desired_patch = [] }

abbrev pub is_empty : List Text → Bool
is_empty [] = true
is_empty (_ ∷ _) = false

-- The property `ok`.
abbrev pub is_ok : Verdict → Bool
is_ok v = is_empty v.missing && is_empty v.misrouted

-- The routes that cover a name, each with its addresses.
unfoldable pub covering : Text → Routes → Routes
covering d [] = []
covering d ((r, addrs) ∷ routes) =
    let rest = covering d routes in if covers r d then (r, addrs) ∷ rest else rest

-- `ns in {_norm(a) for a in addrs}`
unfoldable pub lists_ns : Text → List Text → Bool
lists_ns ns addrs = contains (map norm addrs) ns

unfoldable pub any_lists : Text → Routes → Bool
unfolding lists_ns
any_lists ns [] = false
any_lists ns ((r, addrs) ∷ routes) = lists_ns ns addrs || any_lists ns routes

-- The body of the loop over the required domains.
unfoldable pub require : Routes → Text → Text → Verdict → Verdict
unfolding covering any_lists
require actual nameserver domain v =
    let d = norm domain in
    let name = strip domain in
    if not (nonempty d) then v else elim (covering d actual) [
      | [] ↦ record v {
        missing = v.missing ++ name ∷ [];
        desired_patch = insert name (some (nameserver ∷ [])) v.desired_patch;
      }
      | r ∷ rs ↦
          if not (any_lists (norm nameserver) (r ∷ rs))
          then record v {
            misrouted = v.misrouted ++ name ∷ [];
            desired_patch = insert name (some (nameserver ∷ [])) v.desired_patch;
          }
          else v
    ]

unfoldable pub require_all : Routes → Text → List Text → Verdict → Verdict
unfolding require
require_all actual nameserver [] v = v
require_all actual nameserver (domain ∷ domains) v =
    require_all actual nameserver domains (require actual nameserver domain v)

-- The normalised domains that are not blank.
unfoldable pub required_norm : List Text → List Text
required_norm domains = filter nonempty (map norm domains)

-- The body of the loop over the live routes.
unfoldable pub retire : Text → List Text → Text → List Text → Verdict → Verdict
unfolding lists_ns
retire ns required route addrs v =
    if not (lists_ns ns addrs)
    then v
    else if not (any (λ d. covers route d || covers d route) required)
    then record v {
      stale = v.stale ++ route ∷ [];
      desired_patch = insert route none v.desired_patch;
    }
    else v

unfoldable pub retire_all : Text → List Text → Routes → Verdict → Verdict
unfolding retire
retire_all ns required [] v = v
retire_all ns required ((route, addrs) ∷ routes) v =
    retire_all ns required routes (retire ns required route addrs v)

unfoldable pub decide : Routes → List Text → Text → Verdict
unfolding require_all retire_all required_norm
decide actual domains nameserver =
    retire_all (norm nameserver) (required_norm domains) actual
      (require_all actual nameserver domains empty_verdict)
