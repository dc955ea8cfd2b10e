-- ===== src/Autodeploy/Plan/Order.antt =====
-- The order of a plan: `base`, then `homelab-runtime`, then the rest, with nothing twice.
use pi_homelab.Base.{ℕ, ◌≤◌, ◌≡◌, refl, Bool, true, false, not, ◌&&◌, ◌||◌, List, [], ◌∷◌, arith}
use pi_homelab.Base.{
  ◌==◌, ==_sym, contains, text_eq, if◌then◌else◌, filter, distinct, distinct-filter, all,
  all-filter, leb,
}
use pi_homelab.Base.{contains-filter}
use pi_homelab.Base.Text.{Text, nonempty}
use pi_homelab.Autodeploy.Plan.{base, homelab_runtime, Config, Progress, runtime_first, ordered}
use pi_homelab.Autodeploy.Plan.{start, plan_targets, allowed, undenied}
use pi_homelab.Autodeploy.Plan.Membership.{
  IsClean, start-IsClean, visit_all-IsClean, contains-runtime_first,
}

-- How early a target has to run.
abbrev pub rank : Text → ℕ
rank t = if t == base then 0 else if t == homelab_runtime then 1 else 2

-- The ranks rise, from at least `n`.
abbrev pub ranked : ℕ → List Text → Bool
ranked n [] = true
ranked n (t ∷ ts) = leb n (rank t) && ranked (rank t) ts

-- A plan in the order in which its targets may run.
pub record IsOrdered (ts : List Text) : Type 0 where
  pub sorted : ranked 0 ts ≡ true
  pub once : distinct ts ≡ true
  pub named : all nonempty ts ≡ true

or_false : {a b : Bool} → (a || b) ≡ false → (a ≡ false) × (b ≡ false)
or_false h = ground arith

ranked_weaken : (m n : ℕ) (ts : List Text) → m ≤ n → ranked n ts ≡ true → ranked m ts ≡ true
ranked_weaken m n [] h r = refl
ranked_weaken m n (t ∷ ts) h r = ground arith

ranked-filter :
    (q : Text → Bool) (n : ℕ) (ts : List Text) → ranked n ts ≡ true → ranked n (filter q ts) ≡ true
ranked-filter q n [] r = refl
ranked-filter q n (t ∷ ts) r =
    ground (arith, ranked-filter q (rank t) ts, ranked_weaken n (rank t) (filter q ts))

pub filter-IsOrdered : (q : Text → Bool) (ts : List Text) → IsOrdered ts → IsOrdered (filter q ts)
filter-IsOrdered q ts o = record {
  sorted = ranked-filter q 0 ts o.sorted;
  once = distinct-filter q ts o.once;
  named = all-filter nonempty q ts o.named;
}

rank_other : (t : Text) → base == t ≡ false → homelab_runtime == t ≡ false → rank t ≡ 2
rank_other t h k = rw (==_sym t base, h, ==_sym t homelab_runtime, k)

ranked_others :
    (ts : List Text)
    → contains ts base ≡ false
    → contains ts homelab_runtime ≡ false
    → ranked 2 ts ≡ true
ranked_others [] h k = refl
ranked_others (t ∷ ts) h k =
    let r = rank_other t (or_false h).0 (or_false k).0 in
    let rs = ranked_others ts (or_false h).1 (or_false k).1 in rw (r, rs)

runtime_first-ranked :
    (ts : List Text) → contains ts base ≡ false → ranked 1 (runtime_first ts) ≡ true
unfolding runtime_first
runtime_first-ranked ts h =
    let others = filter (λ t. not (t == homelab_runtime)) ts in
    ground (
      arith,
      contains-filter (λ t. not (t == homelab_runtime)) ts base,
      contains-filter (λ t. not (t == homelab_runtime)) ts homelab_runtime,
      ranked_others others,
      ranked_others ts,
      ranked_weaken 1 2 others,
      ranked_weaken 1 2 ts,
    )

runtime_first-distinct : (ts : List Text) → distinct ts ≡ true → distinct (runtime_first ts) ≡ true
unfolding runtime_first
runtime_first-distinct ts h = ground (
  arith,
  contains-filter (λ t. not (t == homelab_runtime)) ts homelab_runtime,
  distinct-filter (λ t. not (t == homelab_runtime)) ts,
)

runtime_first-named :
    (ts : List Text) → all nonempty ts ≡ true → all nonempty (runtime_first ts) ≡ true
unfolding runtime_first
runtime_first-named ts h = ground (arith, all-filter nonempty (λ t. not (t == homelab_runtime)) ts)

ordered-IsOrdered : (p : Progress) → IsClean p → IsOrdered (ordered p)
unfolding ordered
ordered-IsOrdered p i = ground (
  arith,
  runtime_first-ranked p.targets i.no_base,
  ranked_weaken 0 1 (runtime_first p.targets),
  runtime_first-distinct p.targets i.once,
  runtime_first-named p.targets i.named,
  contains-runtime_first p.targets base,
)

allowed-IsOrdered : (allow ts : List Text) → IsOrdered ts → IsOrdered (allowed allow ts)
unfolding allowed
allowed-IsOrdered [] ts o = o
allowed-IsOrdered (a ∷ allow) ts o = filter-IsOrdered _ ts o

undenied-IsOrdered : (deny ts : List Text) → IsOrdered ts → IsOrdered (undenied deny ts)
unfolding undenied
undenied-IsOrdered [] ts o = o
undenied-IsOrdered (d ∷ deny) ts o = filter-IsOrdered _ ts o

-- Whatever files changed and whatever the gates hold back, a plan runs `base` before
-- `homelab-runtime` before every other target, no target
-- twice and none without a name.
pub plan_targets-IsOrdered :
    (changed : List Text) (c : Config) (allow never : List Text)
    → IsOrdered (plan_targets changed c allow never)
unfolding plan_targets
plan_targets-IsOrdered changed c allow never = undenied-IsOrdered never _ (
    allowed-IsOrdered allow _
      (ordered-IsOrdered _ (visit_all-IsClean c changed start start-IsClean)))
