-- ===== src/Autodeploy/Plan/Membership.antt =====
-- Which targets the full plan holds, against the target that one file implies.
use pi_homelab.Base.{◌≡◌, refl, ap, ◌∙◌, Bool, true, false, not, ◌&&◌, ◌||◌, Option, none, some}
use pi_homelab.Base.{List, [], ◌∷◌, ◌==◌, contains, text_eq, if◌then◌else◌, any, arith}
use pi_homelab.Base.{
  contains-append, contains-filter, distinct, distinct-snoc, all, all-append, Option-cases, inl,
  inr, ◌≢◌,
}
use pi_homelab.Base.Text.{Text, codes, starts_with, split_on, nonempty}
use pi_homelab.Base.Dict.{lookup}
use pi_homelab.Autodeploy.Plan.{base, homelab_runtime, Config, Progress, add, note, clean, visit}
use pi_homelab.Autodeploy.Plan.{visit_all, runtime_first, ordered, start, plan_targets}
use pi_homelab.Autodeploy.Plan.{ansible_target, extra_file_targets}

-- The one target that a changed file stands for, by its path alone.
unfoldable pub implied : Config → Text → Option Text
implied c file =
    let f = clean file in
    elim (lookup f extra_file_targets) [
      | some t ↦ some t
      | none ↦
          if starts_with f (codes "runtime/")
          then some homelab_runtime
          else if starts_with f (codes "ansible/")
          then ansible_target c (split_on b'/' f)
          else none
    ]

abbrev pub is_target : Text → Option Text → Bool
is_target t none = false
is_target t (some u) = t == u && nonempty u

-- The targets noted so far, `base` among them.
abbrev noted : Progress → Text → Bool
noted p t = if t == base then p.saw_base else contains p.targets t

-- The targets hold no `base`, no empty name and no target twice.
pub record IsClean (p : Progress) : Type 0 where
  pub no_base : contains p.targets base ≡ false
  pub once : distinct p.targets ≡ true
  pub named : all nonempty p.targets ≡ true

add-eq-note : (t : Text) (p : Progress) → t ≢ base → nonempty t ≡ true → add t p ≡ note (some t) p
unfolding note
add-eq-note t p h k = ground arith

module _ (c : Config) where
  extra_add :
      (f t : Text) (p : Progress) → lookup f extra_file_targets ≡ some t → add t p ≡ note (some t) p
  unfolding extra_file_targets lookup
  extra_add f t p h = ground (arith, add-eq-note t p)

  visit-eq-note : (f : Text) (p : Progress) → visit c f p ≡ note (implied c f) p
  unfolding visit implied
  visit-eq-note f p = elim (Option-cases (lookup (clean f) extra_file_targets)) [
    | inl e ↦ rw (e, visit, implied) (ground (arith, add-eq-note homelab_runtime p))
    | inr (t, e) ↦ rw (e, visit, implied) (extra_add (clean f) t p e)
  ]

  note-IsClean : (o : Option Text) (p : Progress) → IsClean p → IsClean (note o p)
  unfolding note
  note-IsClean none p i = i
  note-IsClean (some t) p i = ground (
    arith,
    contains-append p.targets (t ∷ []) base,
    distinct-snoc p.targets t,
    all-append nonempty p.targets (t ∷ []),
  )

  noted-note :
      (o : Option Text) (p : Progress) (t : Text)
      → noted (note o p) t ≡ (is_target t o || noted p t)
  unfolding note
  noted-note none p t = refl
  noted-note (some u) p t = ground (arith, contains-append p.targets (u ∷ []) t)

  pub visit_all-IsClean :
      (files : List Text) (p : Progress) → IsClean p → IsClean (visit_all c files p)
  unfolding visit_all
  visit_all-IsClean [] p i = i
  visit_all-IsClean (f ∷ files) p i =
      visit_all-IsClean files _ (rw (visit-eq-note f p) (note-IsClean (implied c f) p i))

  noted-visit_all :
      (files : List Text) (p : Progress) (t : Text)
      → noted (visit_all c files p) t ≡ (any (λ f. is_target t (implied c f)) files || noted p t)
  unfolding visit_all
  noted-visit_all [] p t = refl
  noted-visit_all (f ∷ files) p t =
      noted-visit_all files (visit c f p) t
      ∙ ground (arith, ap (λ q. noted q t) (visit-eq-note f p), noted-note (implied c f) p t)

pub contains-runtime_first :
    (ts : List Text) (t : Text) → contains (runtime_first ts) t ≡ contains ts t
unfolding runtime_first
contains-runtime_first ts t = ground (arith, contains-filter (λ u. not (u == homelab_runtime)) ts t)

contains-ordered : (p : Progress) (t : Text) → IsClean p → contains (ordered p) t ≡ noted p t
unfolding ordered
contains-ordered p t i = ground (arith, contains-runtime_first p.targets t)

pub start-IsClean : IsClean start
start-IsClean = record { no_base = refl; once = refl; named = refl }

-- The full plan holds exactly the targets that some changed file implies.
pub contains-plan_targets :
    (changed : List Text) (c : Config) (t : Text)
    → contains (plan_targets changed c [] []) t ≡ any (λ f. is_target t (implied c f)) changed
unfolding plan_targets
contains-plan_targets changed c t =
    contains-ordered (visit_all c changed start) t (visit_all-IsClean c changed start start-IsClean)
    ∙ noted-visit_all c changed start t
    ∙ ground arith
