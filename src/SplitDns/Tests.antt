-- ===== src/SplitDns/Tests.antt =====
-- Runs of the drift detector on small inputs, and the theorems at concrete data.
use pi_homelab.Base.{◌≡◌, refl, true, false, Option, none, some, List, [], ◌∷◌}
use pi_homelab.Base.{text_eq, all, distinct, ◌&&◌}
use pi_homelab.Base.{arith}
use pi_homelab.Base.Text.{Text, codes, strip, nonempty}
use pi_homelab.Base.Dict.{keys, lookup, insert}
use pi_homelab.Base.Int.{pos}
use pi_homelab.Base.Json.{Value, int, str, arr, obj, nil, cons, end, field, entries}
use pi_homelab.Base.Result.{ok, raise, type_error}
use pi_homelab.SplitDns.Names.{norm, covers}
use pi_homelab.SplitDns.Names.Labels.{labels, is_suffix, texts_eq, covers_labels}
use pi_homelab.SplitDns.Verdict.{Routes, Verdict, is_ok, decide}
use pi_homelab.SplitDns.Verdict.Convergence.{IsPatched, is_proper, is_ok-decide_patched}
use pi_homelab.SplitDns.Status.{routes_of, parse_status, main}
use pi_homelab.SplitDns.Status.Ended.{main-Ended}

abbrev ours : Text
ours = codes "100.64.0.10"

abbrev domains : List Text
domains = codes "Example.internal." ∷ codes " lab.test" ∷ codes "ok.test" ∷ []

-- One route was left behind by a rename, one leads elsewhere, one serves.
abbrev live : Routes
live =
    (codes "example", ours ∷ [])
    ∷ (codes "lab.test", codes "9.9.9.9" ∷ [])
    ∷ (codes "test", ours ∷ [])
    ∷ (codes "ts.net.", codes "1.1.1.1" ∷ [])
    ∷ []

judge : Routes → List Text → Text → Verdict
unfolding decide text_eq norm covers insert
judge routes ds ns = decide routes ds ns

judged :
    judge live (codes "Example.internal." ∷ codes "other.net" ∷ codes "lab.test" ∷ []) ours
    ≡ record {
      missing = codes "Example.internal." ∷ codes "other.net" ∷ [];
      misrouted = [];
      stale = codes "example" ∷ [];
      desired_patch =
          (codes "Example.internal.", some (ours ∷ []))
          ∷ (codes "other.net", some (ours ∷ []))
          ∷ (codes "example", none)
          ∷ [];
    }
unfolding judge
judged = refl

sibling : covers (codes "example") (codes "example.internal") ≡ false
unfolding covers text_eq norm
sibling = refl

covers_labels_example : covers (codes "Test.") (codes "lab.test") ≡ (
    nonempty (norm (codes "Test."))
    && nonempty (norm (codes "lab.test"))
    && is_suffix (labels (norm (codes "Test."))) (labels (norm (codes "lab.test"))))
covers_labels_example = covers_labels (codes "Test.") (codes "lab.test")

-- Before: a route that lacks our nameserver, and a stale one.
abbrev before : Routes
before = (codes "old", ours ∷ []) ∷ (codes "a", codes "9.9.9.9" ∷ []) ∷ []

abbrev after : Routes
after = (codes "a", ours ∷ []) ∷ []

patch_before :
    (decide before (codes "a" ∷ []) ours).desired_patch
    ≡ (codes "a", some (ours ∷ [])) ∷ (codes "old", none) ∷ []
unfolding judge
patch_before = refl

patched : IsPatched before (decide before (codes "a" ∷ []) ours).desired_patch after
unfolding lookup
patched = rw patch_before (record {
  set_to = λ k a h. ground arith;
  cleared = λ k h. ground arith;
  kept = λ k h. ground arith;
})

before-distinct : distinct (keys before) ≡ true
unfolding text_eq
before-distinct = refl

proper : all is_proper (codes "a" ∷ []) ≡ true
unfolding covers text_eq norm strip
proper = refl

is_ok-decide_patched_example : is_ok (decide after (codes "a" ∷ []) ours) ≡ true
is_ok-decide_patched_example =
    is_ok-decide_patched before after (codes "a" ∷ []) ours patched before-distinct proper

-- Texts stand for the documents that they would decode to.
abbrev document : Value → Value
document routes = obj (field (codes "SplitDNSRoutes") routes end)

abbrev loads : Text → Option Value
loads [] = none
loads (c ∷ []) = some (document (obj (field (codes "a") (arr (cons (str ours) nil)) end)))
loads (c ∷ d ∷ s) = some (document (obj (field (codes "a") (int (pos 5)) end)))

abbrev shown : Value → Text
shown v = []

readable : parse_status loads shown (codes "1") ≡ ok ((codes "a", ours ∷ []) ∷ [])
unfolding parse_status text_eq lookup insert
readable = refl

main-Ended_example : main loads shown (codes "a") ours (codes "12") ≡ raise type_error
unfolding lookup entries text_eq routes_of
main-Ended_example = main-Ended loads shown (codes "a") ours (codes "12")
