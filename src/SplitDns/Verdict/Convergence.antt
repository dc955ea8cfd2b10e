-- ===== src/SplitDns/Verdict/Convergence.antt =====
-- The proposed patch, once applied, leaves no drift.
use pi_homelab.Base.{◌≡◌, refl, ◌∙◌, Bool, true, false, not, ◌||◌, Option, none, some}
use pi_homelab.Base.{all_of-contains, of_all-contains}
use pi_homelab.Base.{List, [], ◌∷◌, contains, text_eq, all, arith}
use pi_homelab.Base.{Bool-cases, inl, inr, distinct, ==_self}
use pi_homelab.Base.Text.{Text, strip, nonempty}
use pi_homelab.Base.Dict.{Dict, keys, lookup}
use pi_homelab.SplitDns.Names.{norm, covers}
use pi_homelab.SplitDns.Verdict.{Routes, is_ok}
use pi_homelab.SplitDns.Verdict.{decide}
use pi_homelab.SplitDns.Verdict.Laws.{serves, satisfied, is_ok-decide}
use pi_homelab.SplitDns.Verdict.Patch.{Sound, decide-AllSound, decide-Wants, related_of_covers}
use pi_homelab.SplitDns.Verdict.Servers.{Server, serves-of_Server, Server-of_serves}

-- `PATCH /dns/split-dns`, as far as the module relies on it: a listed route is set or cleared, and
-- the others are left alone.
pub record IsPatched (before : Routes) (patch : Dict Text (Option (List Text))) (after : Routes)
    : Type 0 where
  pub set_to : (k : Text) (a : List Text) → lookup k patch ≡ some (some a) → lookup k after ≡ some a
  pub cleared : (k : Text) → lookup k patch ≡ some none → lookup k after ≡ none
  pub kept : (k : Text) → lookup k patch ≡ none → lookup k after ≡ lookup k before

-- A domain is blank, or a route under its trimmed name covers it, as for names without inner spaces.
abbrev pub is_proper : Text → Bool
is_proper d = not (nonempty (norm d)) || covers (strip d) (norm d)

module _ (before after : Routes) (domains : List Text) (ns : Text)
    (patched : IsPatched before (decide before domains ns).desired_patch after) where
  -- A route that served a required domain still serves it: a patch sets it to the nameserver or
  -- leaves it alone.
  Server-kept :
      (d : Text)
      → contains domains d ≡ true
      → nonempty (norm d) ≡ true
      → Server before ns d
      → Server after ns d
  Server-kept d m some_name s =
      go (lookup s.route (decide before domains ns).desired_patch) refl
        (decide-AllSound ns domains before s.route)
    where
      go :
          (o : Option (Option (List Text)))
          → lookup s.route (decide before domains ns).desired_patch ≡ o
          → Sound ns domains s.route o
          → Server after ns d
      go none e _ = record {
        route = s.route;
        addrs = s.addrs;
        listed = patched.kept s.route e ∙ s.listed;
        over = s.over;
        to_ns = s.to_ns;
      }
      go (some none) e sound = cc (sound, related_of_covers ns domains d some_name s.route m s.over)
      go (some (some a)) e sound = record {
        route = s.route;
        addrs = a;
        listed = patched.set_to s.route a e;
        over = s.over;
        to_ns = rw (sound, ==_self (norm ns));
      }

  Server-set :
      (d : Text)
      → contains domains d ≡ true
      → nonempty (norm d) ≡ true
      → covers (strip d) (norm d) ≡ true
      → serves before ns d ≡ false
      → Server after ns d
  Server-set d m some_name c h = record {
    route = strip d;
    addrs = ns ∷ [];
    listed = patched.set_to (strip d) (ns ∷ []) (decide-Wants ns domains d some_name before m c h);
    over = c;
    to_ns = rw (==_self (norm ns));
  }

  satisfied-after :
      distinct (keys before) ≡ true
      → (d : Text) → contains domains d ≡ true
      → is_proper d ≡ true
      → satisfied after ns d ≡ true
  satisfied-after u d m p = elim (Bool-cases (nonempty (norm d))) [
    | inr blank ↦ rw blank
    | inl some_name ↦
        let server : Server after ns d = elim (Bool-cases (serves before ns d)) [
          | inl was ↦ Server-kept d m some_name (Server-of_serves before ns d u was)
          | inr was_not ↦ Server-set d m some_name (ground arith) was_not
        ] in
        ground (arith, serves-of_Server after ns d server)
  ]

  -- The live routes are a dict without repeated keys, and each required domain is blank or covered
  -- by a route under its trimmed name: once the proposed patch is applied to them, a second look
  -- finds no drift.
  pub is_ok-decide_patched :
      distinct (keys before) ≡ true
      → all is_proper domains ≡ true
      → is_ok (decide after domains ns) ≡ true
  is_ok-decide_patched u p =
      is_ok-decide after domains ns
      ∙ all_of-contains (satisfied after ns) domains
          (λ d m. satisfied-after u d m (of_all-contains is_proper domains d p m))
