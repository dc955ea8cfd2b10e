-- ===== src/Runner/Start.antt =====
-- `run`: rounds of the smoke test until one succeeds, then passes of the loop. The sleeps between
-- them are left out; an exception that is not caught ends the program.
pub mod Grows
pub mod Gate
mod Tests
use pi_homelab.Base.{ℕ, zero, suc, Bool, true, false, []}
use pi_homelab.Runner.World.{
  World, Config, Supervisor, Result, return, raise, os_error, M, ◌>>=◌, pure,
}
use pi_homelab.Runner.Github.{smoke_from}
use pi_homelab.Runner.Tick.{write_status, pass}

pub data Phase : Type 0 where
  starting ticking stopped : Phase

-- `except OSError`
abbrev pub caught : Result (Unit {0}) → Result (Unit {0})
caught (raise os_error) = return tt
caught r = r

abbrev pub after_round : Result Bool → Phase
after_round (return true) = ticking
after_round (return false) = starting
after_round (raise e) = stopped

abbrev pub after_pass : Result (Unit {0}) → Phase
after_pass (return _) = ticking
after_pass (raise e) = stopped

module _ (w : World) (cfg : Config) where
  -- The body of the first loop, where the test has failed.
  abbrev pub publish_failure : M (Unit {0})
  publish_failure s = let (r, s') = write_status w [] 0 0 s in (caught r, s')

  abbrev pub unless_ok : Bool → M Bool
  unless_ok true = pure true
  unless_ok false = publish_failure >>= λ _. pure false

  -- `smoke_test`, and the body where it fails.
  unfoldable pub round : M Bool
  unfolding smoke_from write_status
  round = smoke_from w cfg.repos true >>= unless_ok

  unfoldable pub step : Phase × Supervisor → Phase × Supervisor
  unfolding round pass
  step (starting, s) = let (r, s') = round s in (after_round r, s')
  step (ticking, s) = let (r, s') = pass w cfg s in (after_pass r, s')
  step (stopped, s) = (stopped, s)

  unfoldable pub steps : ℕ → Phase × Supervisor → Phase × Supervisor
  unfolding step
  steps zero p = p
  steps (suc n) p = step (steps n p)
