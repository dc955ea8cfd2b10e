-- ===== src/SplitDns/Status/Ended.antt =====
-- Which runs end with an exception, and which with an exit status.
use pi_homelab.Base.{zero, suc, ◌≡◌, refl, Bool, true, false, ◌||◌, inl, inr, Bool-cases, Option}
use pi_homelab.Base.{none, some, List, [], ◌∷◌, if◌then◌else◌, text_eq, arith}
use pi_homelab.Base.Text.{Text, codes}
use pi_homelab.Base.Dict.{Dict, lookup, insert}
use pi_homelab.Base.Int.{pos, negsuc}
use pi_homelab.Base.Json.{
  Value, null, bool, int, float, finite, infinite, nan, str, arr, obj, entries, truth,
}
use pi_homelab.Base.Result.{Result, ok, raise, type_error, value_error}
use pi_homelab.SplitDns.Verdict.{Routes, empty_verdict, decide}
use pi_homelab.SplitDns.Status.{Outcome, iterate, routes_of, addresses, collect, parse_status, main}
use pi_homelab.SplitDns.Status.Laws.{is_object, required, main_readable, main_unreadable}
use pi_homelab.SplitDns.Verdict.Laws.{satisfied}
use pi_homelab.Base.{all}

-- `true` and the numbers other than 0: true, and no container.
abbrev pub is_scalar : Value → Bool
is_scalar (bool b) = b
is_scalar (int (pos zero)) = false
is_scalar (int _) = true
is_scalar (float (finite (pos zero))) = false
is_scalar (float _) = true
is_scalar _ = false

abbrev pub has_scalar : Dict Text Value → Bool
has_scalar [] = false
has_scalar ((route, v) ∷ routes) = is_scalar v || has_scalar routes

-- The routes of a document.
abbrev pub document_routes : Option Value → Dict Text Value
document_routes (some (obj fs)) = routes_of (lookup (codes "SplitDNSRoutes") (entries fs))
document_routes _ = []

-- How a run ends, by whether the document is an object and whether a route of it is a scalar.
abbrev pub Ended :
    Result Routes → (domains_arg nameserver : Text) → Bool → Bool → Result Outcome → Type 0
Ended parsed domains_arg nameserver false scalar r =
    r ≡ ok (record { verdict = empty_verdict; scrape_ok = 0; status = 2 })
Ended parsed domains_arg nameserver true true r = r ≡ raise type_error
Ended parsed domains_arg nameserver true false r =
    (actual : Routes) × (parsed ≡ ok actual)
    × (r
        ≡ ok (record {
          verdict = decide actual (required domains_arg) nameserver;
          scrape_ok = 1;
          status = if all (satisfied actual nameserver) (required domains_arg) then 0 else 1;
        }))

iterate_scalar : (v : Value) → is_scalar v ≡ true → iterate v ≡ raise type_error
unfolding iterate truth
iterate_scalar v h = ground arith

iterate_other : (v : Value) → is_scalar v ≡ false → (vs : List Value) × (iterate v ≡ ok vs)
unfolding iterate truth
iterate_other null h = ([], refl)
iterate_other (bool true) h = cc
iterate_other (bool false) h = ([], refl)
iterate_other (int (pos zero)) h = ([], refl)
iterate_other (int (pos (suc n))) h = cc
iterate_other (int (negsuc n)) h = cc
iterate_other (float (finite (pos zero))) h = ([], refl)
iterate_other (float (finite (pos (suc n)))) h = cc
iterate_other (float (finite (negsuc n))) h = cc
iterate_other (float infinite) h = cc
iterate_other (float nan) h = cc
iterate_other (str s) h = (_, refl)
iterate_other (arr vs) h = (_, refl)
iterate_other (obj fs) h = (_, refl)

module _ (loads : Text → Option Value) (shown : Value → Text) where
  Collected : Bool → Result Routes → Type 0
  Collected true r = r ≡ raise type_error
  Collected false r = (actual : Routes) × (r ≡ ok actual)

  collect-Collected :
      (routes : Dict Text Value) (out : Routes)
      → Collected (has_scalar routes) (collect loads shown routes out)
  unfolding collect Collected
  collect-Collected [] out = (out, refl)
  collect-Collected ((route, v) ∷ routes) out = elim (Bool-cases (is_scalar v)) [
    | inl s ↦ rw (s, iterate_scalar v s) refl
    | inr n ↦
        let (es, e) = iterate_other v n in
        rw (n, e) (collect-Collected routes (insert route (addresses loads shown es) out))
  ]

  parse_status-Collected :
      (raw : Text)
      → is_object (loads raw) ≡ true
      → Collected (has_scalar (document_routes (loads raw))) (parse_status loads shown raw)
  unfolding parse_status
  parse_status-Collected raw h = of (loads raw) h
    where
      of :
          (v : Option Value)
          → is_object v ≡ true
          → Collected (has_scalar (document_routes v)) (elim v [
            | some (obj fs) ↦
                collect loads shown (routes_of (lookup (codes "SplitDNSRoutes") (entries fs))) []
            | _ ↦ raise value_error
          ])
      of none h = cc
      of (some (obj fs)) h =
          collect-Collected (routes_of (lookup (codes "SplitDNSRoutes") (entries fs))) []
      of (some null) h = cc
      of (some (bool b)) h = cc
      of (some (int n)) h = cc
      of (some (float x)) h = cc
      of (some (str s)) h = cc
      of (some (arr vs)) h = cc

  main-Collected :
      (domains_arg nameserver raw : Text) (scalar : Bool)
      → Collected scalar (parse_status loads shown raw)
      → Ended
          (parse_status loads shown raw)
          domains_arg
          nameserver
          true
          scalar
          (main loads shown domains_arg nameserver raw)
  unfolding main Collected
  main-Collected domains_arg nameserver raw true h = rw (h, main) refl
  main-Collected domains_arg nameserver raw false (actual, h) =
      (actual, h, main_readable loads shown domains_arg nameserver raw actual h)

  -- A run returns 2 with an empty verdict exactly where the document is no JSON object. Otherwise it ends
  -- with a `TypeError` and no verdict where the entries of one of the routes, wherever it stands, are
  -- `true` or a number other than 0; and else the routes are read and it returns the verdict on them, with
  -- 0 where each domain of the command line is served by them and 1 where not.
  pub main-Ended :
      (domains_arg nameserver raw : Text)
      → Ended
          (parse_status loads shown raw)
          domains_arg
          nameserver
          (is_object (loads raw))
          (has_scalar (document_routes (loads raw)))
          (main loads shown domains_arg nameserver raw)
  main-Ended domains_arg nameserver raw = elim (Bool-cases (is_object (loads raw))) [
    | inl h ↦ rw h (main-Collected domains_arg nameserver raw _ (parse_status-Collected raw h))
    | inr h ↦ rw h (main_unreadable loads shown domains_arg nameserver raw h)
  ]
