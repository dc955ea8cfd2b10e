-- ===== src/SplitDns/Verdict/Patch.antt =====
-- What `decide` may write into the patch, and what it has to write.
use pi_homelab.Base.{◌≡◌, refl, ◌∙◌, Bool, true, false, ◌||◌, Option, none, some}
use mathlib.Core.Logic.{if_neg}
use mathlib.Core.Path.{subst}
use pi_homelab.Base.{any_of-contains, contains-map_of}
use pi_homelab.Base.{List, [], ◌∷◌, contains, text_eq, any, map, arith}
use pi_homelab.Base.{Bool-cases, inl, inr, contains-filter, ==_self}
use pi_homelab.Base.Text.{Text, strip, nonempty}
use pi_homelab.Base.Dict.{Dict, lookup, insert, lookup-insert}
use pi_homelab.SplitDns.Names.{norm, covers}
use pi_homelab.SplitDns.Verdict.{Routes, Verdict, empty_verdict}
use pi_homelab.SplitDns.Verdict.{require, require_all, retire, retire_all, decide}
use pi_homelab.SplitDns.Verdict.{required_norm}
use pi_homelab.SplitDns.Verdict.Laws.{serves, any_lists-covering}

module _ (ns : Text) (domains : List Text) where
  abbrev pub related : Text → Bool
  related k = any (λ d. covers k d || covers d k) (required_norm domains)

  -- What a patch may say of a route.
  abbrev pub Sound : Text → Option (Option (List Text)) → Type 0
  Sound k none = Unit
  Sound k (some none) = related k ≡ false
  Sound k (some (some a)) = a ≡ ns ∷ []

  abbrev pub AllSound : Verdict → Type 0
  AllSound v = (k : Text) → Sound k (lookup k v.desired_patch)

  Sound-insert :
      (k j : Text) (o : Option (List Text)) (p : Dict Text (Option (List Text)))
      → Sound j (some o)
      → Sound k (lookup k p)
      → Sound k (lookup k (insert j o p))
  Sound-insert k j o p new old = elim (text_eq.dec k j) [
    | yes e ↦ rw (lookup-insert k j o p, e, ==_self j) new
    | no n ↦ rw (lookup-insert k j o p, if_neg _ n) old
  ]

  require-AllSound :
      (actual : Routes) (d : Text) (v : Verdict) → AllSound v → AllSound (require actual ns d v)
  unfolding require
  require-AllSound actual d v s k =
      ground (arith, s k, Sound-insert k (strip d) (some (ns ∷ [])) v.desired_patch refl (s k))

  require_all-AllSound :
      (actual : Routes) (ds : List Text) (v : Verdict)
      → AllSound v
      → AllSound (require_all actual ns ds v)
  unfolding require_all
  require_all-AllSound actual [] v s = s
  require_all-AllSound actual (d ∷ ds) v s =
      require_all-AllSound actual ds _ (require-AllSound actual d v s)

  retire-AllSound :
      (r : Text) (addrs : List Text) (v : Verdict)
      → AllSound v
      → AllSound (retire (norm ns) (required_norm domains) r addrs v)
  unfolding retire
  retire-AllSound r addrs v s k = elim (Bool-cases (related r)) [
    | inl on ↦ ground (arith, s k)
    | inr off ↦ ground (arith, s k, Sound-insert k r none v.desired_patch off (s k))
  ]

  retire_all-AllSound :
      (routes : Routes) (v : Verdict)
      → AllSound v
      → AllSound (retire_all (norm ns) (required_norm domains) routes v)
  unfolding retire_all
  retire_all-AllSound [] v s = s
  retire_all-AllSound ((r, addrs) ∷ routes) v s =
      retire_all-AllSound routes _ (retire-AllSound r addrs v s)

  pub decide-AllSound : (actual : Routes) → AllSound (decide actual domains ns)
  unfolding decide lookup
  decide-AllSound actual =
      retire_all-AllSound actual _ (require_all-AllSound actual domains empty_verdict (λ k. tt))

  -- One required domain that is not served.
  module _ (d : Text) (some_name : nonempty (norm d) ≡ true) where
    abbrev pub Wants : Verdict → Type 0
    Wants v = lookup (strip d) v.desired_patch ≡ some (some (ns ∷ []))

    require-Wants :
        (actual : Routes) (e : Text) (v : Verdict) → Wants v → Wants (require actual ns e v)
    unfolding require
    require-Wants actual e v w =
        ground (arith, lookup-insert (strip d) (strip e) (some (ns ∷ [])) v.desired_patch)

    require-Wants_self :
        (actual : Routes) (v : Verdict) → serves actual ns d ≡ false → Wants (require actual ns d v)
    unfolding require
    require-Wants_self actual v h = ground (
      arith,
      any_lists-covering (norm ns) (norm d) actual,
      lookup-insert (strip d) (strip d) (some (ns ∷ [])) v.desired_patch,
    )

    require_all-Wants_kept :
        (actual : Routes) (ds : List Text) (v : Verdict)
        → Wants v
        → Wants (require_all actual ns ds v)
    unfolding require_all
    require_all-Wants_kept actual [] v w = w
    require_all-Wants_kept actual (e ∷ ds) v w =
        require_all-Wants_kept actual ds _ (require-Wants actual e v w)

    require_all-Wants :
        (actual : Routes) (ds : List Text) (v : Verdict)
        → contains ds d ≡ true
        → serves actual ns d ≡ false
        → Wants (require_all actual ns ds v)
    unfolding require_all
    require_all-Wants actual [] v m h = cc
    require_all-Wants actual (e ∷ ds) v m h = elim (text_eq.dec d e) [
      | yes p ↦
          require_all-Wants_kept actual ds _
            (subst (λ x. Wants (require actual ns x v)) p (require-Wants_self actual v h))
      | no n ↦ require_all-Wants actual ds _ (rw (if_neg _ n) at m) h
    ]

    retire_all-Wants :
        (routes : Routes) (v : Verdict)
        → related (strip d) ≡ true
        → Wants v
        → Wants (retire_all (norm ns) (required_norm domains) routes v)
    unfolding retire_all retire
    retire_all-Wants [] v on w = w
    retire_all-Wants ((r, addrs) ∷ routes) v on w =
        retire_all-Wants routes _ on
          (ground (arith, lookup-insert (strip d) r none v.desired_patch))

    pub related_of_covers :
        (k : Text) → contains domains d ≡ true → covers k (norm d) ≡ true → related k ≡ true
    unfolding required_norm
    related_of_covers k m c =
        any_of-contains _ (required_norm domains) (norm d)
          (contains-filter nonempty (map norm domains) (norm d)
            ∙ rw (contains-map_of norm domains d m, some_name))
          (rw c)

    pub decide-Wants :
        (actual : Routes)
        → contains domains d ≡ true
        → covers (strip d) (norm d) ≡ true
        → serves actual ns d ≡ false
        → Wants (decide actual domains ns)
    unfolding decide
    decide-Wants actual m c h =
        retire_all-Wants actual _ (related_of_covers (strip d) m c)
          (require_all-Wants actual domains empty_verdict m h)
