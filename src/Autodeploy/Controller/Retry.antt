-- ===== src/Autodeploy/Controller/Retry.antt =====
-- Runs of the controller one after another, while the newest tag stays.
use pi_homelab.Base.{
  ◌≡◌, refl, ap, sym, ◌∙◌, inl, inr, ℕ, suc, ◌≤◌, Bool, true, false, List, [], ◌∷◌,
}
use pi_homelab.Base.{◌==◌, all, Bool-cases, if◌then◌else◌, text_eq, arith, ==_eq}
use pi_homelab.Base.Text.{Text}
use pi_homelab.Autodeploy.State.{State, needs_deploy}
use pi_homelab.Autodeploy.Controller.{Inputs, Report, cycle, held_by_ci}
use pi_homelab.Autodeploy.Controller.Laws.{needs_deploy-cycle}

abbrev pub is_idle : Report → Bool
is_idle r = elim r.attempted [ [] ↦ true | _ ∷ _ ↦ false ]

-- How many of the runs, each on the state that the one before it left, started a target.
unfoldable pub attempts : List Inputs → State → ℕ
unfolding cycle
attempts [] s = 0
attempts (i ∷ is) s =
    let r = cycle i s in let later = attempts is r.state in if is_idle r then later else suc later

cycle_idle :
    (i : Inputs) (s : State)
    → needs_deploy s i.origin ≡ false
    → (is_idle (cycle i s) ≡ true) × ((cycle i s).state ≡ s)
unfolding cycle
cycle_idle i s h = rw h (refl, refl)

cycle_held :
    (i : Inputs) (s : State)
    → held_by_ci i.ci ≡ true
    → (is_idle (cycle i s) ≡ true) × ((cycle i s).state ≡ s)
unfolding cycle
cycle_held i s h = elim (Bool-cases (needs_deploy s i.origin)) [
  | inl d ↦ rw (d, h) (refl, refl)
  | inr d ↦ rw d (refl, refl)
]

same_head :
    (origin : Text) (i : Inputs) (is : List Inputs)
    → all (λ i. i.origin == origin) (i ∷ is) ≡ true
    → (i.origin ≡ origin) × (all (λ i. i.origin == origin) is ≡ true)
same_head origin i is h = (==_eq i.origin origin (ground arith), ground arith)

attempts_settled :
    (origin : Text) (is : List Inputs) (s : State)
    → all (λ i. i.origin == origin) is ≡ true
    → needs_deploy s origin ≡ false
    → attempts is s ≡ 0
unfolding attempts
attempts_settled origin [] s h n = refl
attempts_settled origin (i ∷ is) s h n =
    let (same, rest) = same_head origin i is h in
    let (idle, kept) = cycle_idle i s (ap (needs_deploy s) same ∙ n) in
    rw (idle, kept) (attempts_settled origin is s rest n)

-- Runs at the same newest commit start targets at most once, whatever CI, the changed files and the
-- deployments do.
pub attempts_le :
    (origin : Text) (is : List Inputs) (s : State)
    → all (λ i. i.origin == origin) is ≡ true
    → attempts is s ≤ 1
unfolding attempts
attempts_le origin [] s h = ground arith
attempts_le origin (i ∷ is) s h =
    let (same, rest) = same_head origin i is h in
    let s' = (cycle i s).state in
    elim (Bool-cases (held_by_ci i.ci)) [
      | inl held ↦ rw (cycle_held i s held).0 (attempts_le origin is s' rest)
      | inr free ↦
          let done = ap (needs_deploy s') (sym same) ∙ needs_deploy-cycle i s free in
          ground (arith, attempts_settled origin is s' rest done)
    ]
