-- ===== src/SplitDns/Verdict/Servers.antt =====
-- The entry of a dict of routes that serves a domain.
use pi_homelab.Base.{◌≡◌, true, false, ◌&&◌, some}
use mathlib.Core.Logic.{if_neg}
use pi_homelab.Base.{List, [], ◌∷◌, contains, text_eq, map, arith}
use pi_homelab.Base.{Bool-cases, inl, inr, distinct, ==_self}
use pi_homelab.Base.Text.{Text}
use pi_homelab.Base.Dict.{keys, lookup, contains-keys_of_lookup}
use pi_homelab.SplitDns.Names.{norm, covers}
use pi_homelab.SplitDns.Verdict.{Routes}
use pi_homelab.SplitDns.Verdict.Laws.{serves}

-- An entry of the routes that serves a domain.
pub record Server (routes : Routes) (ns d : Text) : Type 0 where
  pub route : Text
  pub addrs : List Text
  pub listed : lookup route routes ≡ some addrs
  pub over : covers route (norm d) ≡ true
  pub to_ns : contains (map norm addrs) (norm ns) ≡ true

pub serves-of_Server :
    (routes : Routes) (ns d : Text) → Server routes ns d → serves routes ns d ≡ true
unfolding lookup
serves-of_Server [] ns d s = cc s.listed
serves-of_Server ((r, a) ∷ routes) ns d s = elim (text_eq.dec s.route r) [
  | yes e ↦ ground (arith, s.listed, s.over, s.to_ns)
  | no n ↦ ground (
    arith,
    serves-of_Server routes ns d (record {
      route = s.route;
      addrs = s.addrs;
      listed = rw (if_neg _ n) at s.listed;
      over = s.over;
      to_ns = s.to_ns;
    }),
  )
]

Server-cons :
    (r : Text) (a : List Text) (routes : Routes) (ns d : Text)
    → contains (keys routes) r ≡ false
    → Server routes ns d
    → Server ((r, a) ∷ routes) ns d
unfolding lookup
Server-cons r a routes ns d fresh s = record {
  route = s.route;
  addrs = s.addrs;
  listed = ground (arith, s.listed, contains-keys_of_lookup s.route s.addrs routes s.listed);
  over = s.over;
  to_ns = s.to_ns;
}

pub Server-of_serves :
    (routes : Routes) (ns d : Text)
    → distinct (keys routes) ≡ true
    → serves routes ns d ≡ true
    → Server routes ns d
unfolding lookup
Server-of_serves [] ns d u h = cc
Server-of_serves ((r, a) ∷ routes) ns d u h =
    elim (Bool-cases (covers r (norm d) && contains (map norm a) (norm ns))) [
      | inl here ↦ record {
        route = r;
        addrs = a;
        listed = rw (==_self r);
        over = ground arith;
        to_ns = ground arith;
      }
      | inr later ↦
          Server-cons r a routes ns d (ground arith)
            (Server-of_serves routes ns d (ground arith) (rw later at h))
    ]
