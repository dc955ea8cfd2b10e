-- ===== src/SplitDns/Status.antt =====
-- `parse_status` and the exit status of `main`. `json.loads` and `str` of a value that is no text
-- are given.
pub mod Laws
pub mod Ended
use pi_homelab.Base.{
  ℕ, Bool, true, false, not, Option, none, some, List, [], ◌∷◌, if◌then◌else◌, filter, text_eq,
}
use pi_homelab.Base.Text.{Text, codes, strip, split_on, nonempty}
use pi_homelab.Base.Dict.{Dict, lookup, insert}
use pi_homelab.Base.Json.{
  Value, null, bool, int, float, str, arr, obj, Fields, end, field, items, entries, truth,
}
use pi_homelab.Base.Result.{
  Result, ok, raise, ◌>>=◌, Exception, type_error, value_error, unicode_error,
}
use pi_homelab.SplitDns.Verdict.{Routes, Verdict, empty_verdict, is_ok, decide}

-- One element of an iteration.
abbrev chars : Text → List Value
chars [] = []
chars (c ∷ s) = str (c ∷ []) ∷ chars s

abbrev keys_of : Fields → List Value
keys_of end = []
keys_of (field k v fs) = str k ∷ keys_of fs

-- `for e in entries or []`: a true value that is no container cannot be iterated over.
unfoldable pub iterate : Value → Result (List Value)
unfolding items truth
iterate (arr vs) = ok (items vs)
iterate (str s) = ok (chars s)
iterate (obj fs) = ok (keys_of fs)
iterate v = if truth v then raise type_error else ok []

-- `data.get("SplitDNSRoutes") or {}`, and `{}` again for what is no dict.
unfoldable pub routes_of : Option Value → Dict Text Value
unfolding entries
routes_of (some (obj fs)) = entries fs
routes_of _ = []

-- `e.get("Addr") if isinstance(e, dict) else e`
abbrev addr_of : Value → Option Value
addr_of (obj fs) = lookup (codes "Addr") (entries fs)
addr_of v = some v

-- What `main` prints and returns.
pub record Outcome : Type 0 where
  pub verdict : Verdict
  pub scrape_ok : ℕ
  pub status : ℕ

module _ (loads : Text → Option Value) (shown : Value → Text) where
  -- `str(addr)`
  abbrev text_of : Value → Text
  text_of (str s) = s
  text_of v = shown v

  unfoldable pub addresses : List Value → List Text
  unfolding truth entries
  addresses [] = []
  addresses (e ∷ es) =
      let rest = addresses es in
      elim (addr_of e) [ none ↦ rest | some a ↦ (if truth a then text_of a ∷ rest else rest) ]

  unfoldable pub collect : Dict Text Value → Routes → Result Routes
  unfolding iterate addresses
  collect [] out = ok out
  collect ((route, value) ∷ routes) out = do
    es ← iterate value
    collect routes (insert route (addresses es) out)

  unfoldable pub parse_status : Text → Result Routes
  unfolding collect routes_of entries
  parse_status raw = elim (loads raw) [
    | some (obj fs) ↦ collect (routes_of (lookup (codes "SplitDNSRoutes") (entries fs))) []
    | _ ↦ raise value_error
  ]

  -- `main` after the arguments are parsed. Other exceptions than a `ValueError` escape.
  unfoldable pub main : Text → Text → Text → Result Outcome
  unfolding parse_status
  main domains_arg nameserver raw = elim (parse_status raw) [
    | ok actual ↦
        let domains = filter (λ d. nonempty (strip d)) (split_on b',' domains_arg) in
        let verdict = decide actual domains nameserver in
        ok (record { verdict = verdict; scrape_ok = 1; status = if is_ok verdict then 0 else 1 })
    | raise value_error ↦ ok (record { verdict = empty_verdict; scrape_ok = 0; status = 2 })
    | raise e ↦ raise e
  ]
