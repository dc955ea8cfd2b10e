-- ===== src/SplitDns/Status/Laws.antt =====
-- The outcomes of a run that could read its routes, and of one that could not.
use pi_homelab.Base.{◌≡◌, Bool, true, false, Option, some, List, arith}
use pi_homelab.Base.{if◌then◌else◌, filter, text_eq, all}
use pi_homelab.Base.Text.{Text, strip, nonempty, split_on}
use pi_homelab.Base.Json.{Value, obj}
use pi_homelab.Base.Result.{ok, raise, value_error}
use pi_homelab.SplitDns.Verdict.{Routes, empty_verdict, decide}
use pi_homelab.SplitDns.Verdict.Laws.{satisfied, is_ok-decide}
use pi_homelab.SplitDns.Status.{parse_status, main}

abbrev pub is_object : Option Value → Bool
is_object (some (obj fs)) = true
is_object _ = false

-- The domains of the command line.
abbrev pub required : Text → List Text
required domains_arg = filter (λ d. nonempty (strip d)) (split_on b',' domains_arg)

module _ (loads : Text → Option Value) (shown : Value → Text) where
  -- With readable routes a run returns 0 exactly when each domain of the command line is served,
  -- and else 1.
  pub main_readable :
      (domains_arg nameserver raw : Text) (actual : Routes)
      → parse_status loads shown raw ≡ ok actual
      → main loads shown domains_arg nameserver raw
        ≡ ok (record {
          verdict = decide actual (required domains_arg) nameserver;
          scrape_ok = 1;
          status = if all (satisfied actual nameserver) (required domains_arg) then 0 else 1;
        })
  unfolding main
  main_readable domains_arg nameserver raw actual h =
      rw (h, main, is_ok-decide actual (required domains_arg) nameserver)

  parse_status_unreadable :
      (raw : Text)
      → is_object (loads raw) ≡ false
      → parse_status loads shown raw ≡ raise value_error
  unfolding parse_status
  parse_status_unreadable raw h = ground arith

  -- A document that is no JSON object never counts as drift: the run returns 2 with an empty verdict.
  pub main_unreadable :
      (domains_arg nameserver raw : Text)
      → is_object (loads raw) ≡ false
      → main loads shown domains_arg nameserver raw
        ≡ ok (record { verdict = empty_verdict; scrape_ok = 0; status = 2 })
  unfolding main
  main_unreadable domains_arg nameserver raw h = ground (arith, parse_status_unreadable raw h)
