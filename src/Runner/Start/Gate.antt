-- ===== src/Runner/Start/Gate.antt =====
-- Nothing but the smoke test comes before a smoke test that succeeds.
use pi_homelab.Base.{
  ◌≡◌, refl, ap, ◌∙◌, inl, inr, Bool-cases, ℕ, zero, suc, Bool, true, false, ◌&&◌, ◌||◌, List, [],
  ◌∷◌, ◌==◌, nat_eq,
}
use pi_homelab.Base.{text_eq, all, arith}
use pi_homelab.Base.Text.{Text}
use pi_homelab.Runner.World.{
  Call, Config, World, Supervisor, Trace, M, Result, return, raise, and_then,
}
use pi_homelab.Runner.World.{Reply, broken, reply}
use pi_homelab.Runner.Github.{smoke_repo, smoke_from}
use pi_homelab.Runner.Tick.{write_status, pass}
use pi_homelab.Runner.Frame.{Keeps, >>=_Keeps}
use pi_homelab.Runner.Start.{Phase, starting, ticking, stopped, after_round, after_pass}
use pi_homelab.Runner.Start.{unless_ok, round, step, steps}
use pi_homelab.Runner.Start.Grows.{pass-Keeps}

abbrev pub asks_for : Call → Text → Bool
asks_for (Call.get_repo r) repo = r == repo
asks_for _ repo = false

abbrev pub is_get_repo : Call → Bool
is_get_repo (Call.get_repo r) = true
is_get_repo _ = false

abbrev pub is_granted : Reply (Unit {0}) → Bool
is_granted broken = false
is_granted (reply status_code rate body) = status_code == 200

-- The last calls asked for these repositories, the first of them last, and each was answered with
-- 200; before them nothing but repositories was asked for.
unfoldable pub is_round : World → List Text → Trace → Bool
is_round w [] t = all is_get_repo t
is_round w (repo ∷ repos) [] = false
is_round w (repo ∷ repos) (c ∷ t) =
    let earlier = is_round w repos t in
    asks_for c repo && is_granted (w.other t (Call.get_repo repo)) && earlier

-- The same of the calls up to some point.
unfoldable pub is_cleared : World → List Text → Trace → Bool
unfolding is_round
is_cleared w repos [] = is_round w repos []
is_cleared w repos (c ∷ t) = is_round w repos (c ∷ t) || is_cleared w repos t

-- The repositories in the order of the calls, newest first.
abbrev pub onto : List Text → List Text → List Text
onto [] asked = asked
onto (repo ∷ repos) asked = onto repos (repo ∷ asked)

abbrev pub IsGated : World → Config → Phase × Supervisor → Type 0
IsGated w cfg (starting, s) = all is_get_repo s.trace ≡ true
IsGated w cfg (ticking, s) = is_cleared w (onto cfg.repos []) s.trace ≡ true
IsGated w cfg (stopped, s) =
    (all is_get_repo s.trace || is_cleared w (onto cfg.repos []) s.trace) ≡ true

of_return :
    {A B : Type 0} (r : Result A) (f : A → M B) (b : B) (s : Supervisor)
    → (and_then r f s).0 ≡ return b
    → (a : A) × (r ≡ return a) × ((f a s).0 ≡ return b)
of_return (return a) f b s h = (a, refl, h)
of_return (raise e) f b s h = cc

both_right : (a b : Bool) → a && b ≡ true → b ≡ true
both_right a b h = ground arith

module _ (w : World) where
  smoke_repo-trace :
      (repo : Text) (s : Supervisor) → (smoke_repo w repo s).1.trace ≡ Call.get_repo repo ∷ s.trace
  unfolding smoke_repo
  smoke_repo-trace repo s = ground arith

  smoke_repo-is_granted :
      (repo : Text) (s : Supervisor)
      → (smoke_repo w repo s).0 ≡ return true
      → is_granted (w.other s.trace (Call.get_repo repo)) ≡ true
  unfolding smoke_repo
  smoke_repo-is_granted repo s h = ground arith

  smoke_from_ok :
      (repos : List Text) (ok : Bool) (s : Supervisor)
      → (smoke_from w repos ok s).0 ≡ return true
      → ok ≡ true
  unfolding smoke_from
  smoke_from_ok [] ok s h = cc
  smoke_from_ok (repo ∷ repos) ok s h =
      let (fine, _, more) =
        of_return (smoke_repo w repo s).0 (λ fine. smoke_from w repos (ok && fine)) true
          (smoke_repo w repo s).1 h in
      ground (arith, smoke_from_ok repos (ok && fine) (smoke_repo w repo s).1 more)

  smoke_repo-is_round :
      (repo : Text) (asked : List Text) (s : Supervisor)
      → is_round w asked s.trace ≡ true
      → (smoke_repo w repo s).0 ≡ return true
      → is_round w (repo ∷ asked) (smoke_repo w repo s).1.trace ≡ true
  unfolding is_round
  smoke_repo-is_round repo asked s r h =
      rw (smoke_repo-trace repo s) (ground (arith, smoke_repo-is_granted repo s h))

  smoke_from-is_round :
      (repos asked : List Text) (ok : Bool) (s : Supervisor)
      → is_round w asked s.trace ≡ true
      → (smoke_from w repos ok s).0 ≡ return true
      → is_round w (onto repos asked) (smoke_from w repos ok s).1.trace ≡ true
  unfolding smoke_from
  smoke_from-is_round [] asked ok s r h = r
  smoke_from-is_round (repo ∷ repos) asked ok s r h =
      let s' = (smoke_repo w repo s).1 in
      let (fine, e, more) =
        of_return (smoke_repo w repo s).0 (λ fine. smoke_from w repos (ok && fine)) true s' h in
      let both = smoke_from_ok repos (ok && fine) s' more in
      rw e (
        smoke_from-is_round repos (repo ∷ asked) (ok && fine) s'
          (smoke_repo-is_round repo asked s r (e ∙ ap return (both_right ok fine both))) more)

  smoke_from-Keeps :
      (repos : List Text) (ok : Bool)
      → Keeps (λ s. all is_get_repo s.trace ≡ true) (smoke_from w repos ok)
  unfolding smoke_from
  smoke_from-Keeps [] ok = λ s h. h
  smoke_from-Keeps (repo ∷ repos) ok =
      >>=_Keeps (λ s. all is_get_repo s.trace ≡ true) (smoke_repo w repo) _
        (λ s h. ground (arith, smoke_repo-trace repo s))
        (λ fine. smoke_from-Keeps repos (ok && fine))

  is_cleared_round :
      (repos : List Text) (t : Trace) → is_round w repos t ≡ true → is_cleared w repos t ≡ true
  unfolding is_cleared
  is_cleared_round repos [] h = h
  is_cleared_round repos (c ∷ t) h = ground arith

  is_cleared_later :
      (repos : List Text) (c : Call) (t : Trace)
      → is_cleared w repos t ≡ true
      → is_cleared w repos (c ∷ t) ≡ true
  unfolding is_cleared
  is_cleared_later repos c t h = ground arith

  module _ (cfg : Config) where
    failure_published :
        (s : Supervisor)
        → all is_get_repo s.trace ≡ true
        → let (r, s') = unless_ok w cfg false s in IsGated w cfg (after_round r, s')
    unfolding write_status
    failure_published s h = elim (Bool-cases (w.writable s.trace)) [
      | inl e ↦ rw e h
      | inr e ↦ rw e h
    ]

    after_smoke :
        (r : Result Bool) (s : Supervisor)
        → all is_get_repo s.trace ≡ true
        → (r ≡ return true → is_round w (onto cfg.repos []) s.trace ≡ true)
        → let (r', s') = and_then r (unless_ok w cfg) s in IsGated w cfg (after_round r', s')
    after_smoke (return true) s h c = is_cleared_round (onto cfg.repos []) s.trace (c refl)
    after_smoke (return false) s h c = failure_published s h
    after_smoke (raise e) s h c = ground arith

    round-IsGated :
        (s : Supervisor) → all is_get_repo s.trace ≡ true → IsGated w cfg (step w cfg (starting, s))
    unfolding step round is_round
    round-IsGated s h =
        let smoke = smoke_from w cfg.repos true s in
        after_smoke smoke.0 smoke.1 (smoke_from-Keeps cfg.repos true s h)
          (smoke_from-is_round cfg.repos [] true s h)

    pass-IsGated :
        (r : Result (Unit {0})) (s : Supervisor)
        → is_cleared w (onto cfg.repos []) s.trace ≡ true
        → IsGated w cfg (after_pass r, s)
    pass-IsGated (return _) s h = h
    pass-IsGated (raise e) s h = ground arith

    step-IsGated : (p : Phase × Supervisor) → IsGated w cfg p → IsGated w cfg (step w cfg p)
    unfolding step
    step-IsGated (starting, s) h = round-IsGated s h
    step-IsGated (ticking, s) h = pass-IsGated (pass w cfg s).0 (pass w cfg s).1 (
        pass-Keeps w (is_cleared w (onto cfg.repos [])) (is_cleared_later (onto cfg.repos [])) cfg s
          h)
    step-IsGated (stopped, s) h = h

-- After any number of steps from a start without calls: while no smoke test has succeeded, GitHub was
-- asked for repositories only. Before the first pass of the loop a smoke test asked for each
-- repository of the configuration, in its order, and was answered with 200 each time, and before that
-- nothing but repositories was asked for. An end by an exception comes in one of the two states.
pub steps-IsGated :
    (w : World) (cfg : Config) (n : ℕ) (s : Supervisor)
    → s.trace ≡ []
    → IsGated w cfg (steps w cfg n (starting, s))
unfolding steps
steps-IsGated w cfg zero s h = rw h refl
steps-IsGated w cfg (suc n) s h = step-IsGated w cfg _ (steps-IsGated w cfg n s h)
