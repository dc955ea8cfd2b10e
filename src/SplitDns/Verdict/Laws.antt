-- ===== src/SplitDns/Verdict/Laws.antt =====
-- When `decide` finds no drift, and what it proposes.
use pi_homelab.Base.{◌≡◌, refl, ◌∙◌, Bool, false, not, ◌&&◌, ◌||◌, List, []}
use pi_homelab.Base.{◌∷◌, ◌++◌, contains, text_eq, any, all, map, arith}
use pi_homelab.Base.Text.{Text, strip, nonempty}
use pi_homelab.SplitDns.Names.{norm, covers}
use pi_homelab.SplitDns.Verdict.{
  Routes, Verdict, empty_verdict, is_empty, is_ok, covering, lists_ns,
}
use pi_homelab.SplitDns.Verdict.{any_lists, require, require_all, retire, retire_all, decide}
use pi_homelab.SplitDns.Verdict.{required_norm}

-- Some route that covers the domain lists the nameserver.
abbrev pub serves : Routes → Text → Text → Bool
serves actual nameserver domain =
    any (λ (r, addrs). covers r (norm domain) && contains (map norm addrs) (norm nameserver)) actual

-- What one required domain asks for; a blank entry asks for nothing.
abbrev pub satisfied : Routes → Text → Text → Bool
satisfied actual nameserver domain = not (nonempty (norm domain)) || serves actual nameserver domain

pub any_lists-covering :
    (ns d : Text) (routes : Routes)
    → any_lists ns (covering d routes)
      ≡ any (λ (r, addrs). covers r d && contains (map norm addrs) ns) routes
unfolding any_lists covering lists_ns
any_lists-covering ns d [] = refl
any_lists-covering ns d ((r, addrs) ∷ routes) = ground (arith, any_lists-covering ns d routes)

is_empty_snoc : (xs : List Text) (x : Text) → is_empty (xs ++ x ∷ []) ≡ false
is_empty_snoc [] x = refl
is_empty_snoc (y ∷ xs) x = refl

is_ok-require :
    (actual : Routes) (nameserver domain : Text) (v : Verdict)
    → is_ok (require actual nameserver domain v) ≡ (is_ok v && satisfied actual nameserver domain)
unfolding require
is_ok-require actual nameserver domain v = ground (
  arith,
  any_lists-covering (norm nameserver) (norm domain) actual,
  is_empty_snoc v.missing (strip domain),
  is_empty_snoc v.misrouted (strip domain),
)

is_ok-require_all :
    (actual : Routes) (nameserver : Text) (domains : List Text) (v : Verdict)
    → is_ok (require_all actual nameserver domains v)
      ≡ (is_ok v && all (satisfied actual nameserver) domains)
unfolding require_all
is_ok-require_all actual nameserver [] v = ground arith
is_ok-require_all actual nameserver (d ∷ domains) v = ground (
  arith,
  is_ok-require_all actual nameserver domains (require actual nameserver d v),
  is_ok-require actual nameserver d v,
)

is_ok-retire_all :
    (ns : Text) (required : List Text) (routes : Routes) (v : Verdict)
    → is_ok (retire_all ns required routes v) ≡ is_ok v
unfolding retire_all retire
is_ok-retire_all ns required [] v = refl
is_ok-retire_all ns required ((r, addrs) ∷ routes) v =
    is_ok-retire_all ns required routes (retire ns required r addrs v) ∙ ground arith

-- The verdict is ok exactly when each required domain that is not blank has a covering route that
-- lists the nameserver; stale routes do not count.
pub is_ok-decide :
    (actual : Routes) (domains : List Text) (nameserver : Text)
    → is_ok (decide actual domains nameserver) ≡ all (satisfied actual nameserver) domains
unfolding decide
is_ok-decide actual domains nameserver =
    is_ok-retire_all (norm nameserver) (required_norm domains) actual _
    ∙ is_ok-require_all actual nameserver domains empty_verdict
