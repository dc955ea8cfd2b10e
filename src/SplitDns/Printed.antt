-- ===== src/SplitDns/Printed.antt =====
-- `Verdict.to_dict`, which `main` prints as JSON.
use pi_homelab.Base.{
  ℕ, Option, none, some, List, [], ◌∷◌, if◌then◌else◌, eqb, ◌≡◌, refl, arith, text_eq,
}
use pi_homelab.Base.Text.{Text, codes}
use pi_homelab.Base.Dict.{Dict, lookup}
use pi_homelab.Base.Int.{pos}
use pi_homelab.Base.Json.{
  Value, null, int, str, arr, obj, Items, nil, cons, Fields, end, field, entries,
}
use pi_homelab.Base.Result.{ok}
use pi_homelab.SplitDns.Verdict.{Verdict, is_ok}
use pi_homelab.SplitDns.Status.{Outcome, main}

abbrev pub texts : List Text → Items
texts [] = nil
texts (t ∷ ts) = cons (str t) (texts ts)

abbrev pub servers : Option (List Text) → Value
servers none = null
servers (some addrs) = arr (texts addrs)

abbrev pub patch_fields : Dict Text (Option (List Text)) → Fields
patch_fields [] = end
patch_fields ((domain, addrs) ∷ patch) = field domain (servers addrs) (patch_fields patch)

unfoldable pub to_dict : Verdict → ℕ → Fields
to_dict v scrape_ok = field (codes "missing") (arr (texts v.missing)) (
    field (codes "misrouted") (arr (texts v.misrouted)) (
      field (codes "stale") (arr (texts v.stale)) (
        field (codes "desired_patch") (obj (patch_fields v.desired_patch)) (
          field (codes "ok") (int (pos (if is_ok v then 1 else 0)))
            (field (codes "scrape_ok") (int (pos scrape_ok)) end)))))

-- What a run prints.
abbrev pub printed : Outcome → Fields
printed o = to_dict o.verdict o.scrape_ok

-- The number that is printed under a key.
abbrev pub number_at : Text → Fields → ℕ
number_at key fs = elim (lookup key (entries fs)) [ some (int (pos n)) ↦ n | _ ↦ 0 ]

number_at-ok :
    (o : Outcome) → number_at (codes "ok") (printed o) ≡ (if is_ok o.verdict then 1 else 0)
unfolding to_dict entries lookup text_eq
number_at-ok o = refl

number_at-scrape_ok : (o : Outcome) → number_at (codes "scrape_ok") (printed o) ≡ o.scrape_ok
unfolding to_dict entries lookup text_eq
number_at-scrape_ok o = refl

-- Whatever the input: if a run prints a verdict, its exit status is 2 where the printed scrape_ok is 0,
-- else 0 where the printed ok is 1, and 1 where that is 0.
pub main_agrees :
    (loads : Text → Option Value) (shown : Value → Text) (domains_arg nameserver raw : Text)
    (o : Outcome)
    → main loads shown domains_arg nameserver raw ≡ ok o
    → o.status ≡ (
        if eqb (number_at (codes "scrape_ok") (printed o)) 0
        then 2
        else if eqb (number_at (codes "ok") (printed o)) 1
        then 0
        else 1)
unfolding main
main_agrees loads shown domains_arg nameserver raw o h =
    rw (number_at-ok o, number_at-scrape_ok o) (ground arith)
