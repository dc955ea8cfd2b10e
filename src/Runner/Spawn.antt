-- ===== src/Runner/Spawn.antt =====
-- `maybe_spawn`: at most one runner a tick, for the repository with the most queued jobs.
pub mod Choice
use pi_homelab.Base.{ℕ, Bool, not, Option, none, some, List, [], ◌∷◌, leb, filter, text_eq}
use pi_homelab.Base.{if◌then◌else◌}
use pi_homelab.Base.Text.{Text, nonempty}
use pi_homelab.Base.Dict.{Dict, lookup}
use pi_homelab.Base.Int.{pos, ltbℤ}
use pi_homelab.Runner.World.{Config, World, M, ◌>>=◌, pure}
use pi_homelab.Runner.Docker.{spawn_runner}
use pi_homelab.Runner.Github.{generate_jit_config}

-- `d.get(r, 0)`
abbrev pub get_or_0 : Dict Text ℕ → Text → ℕ
get_or_0 d r = elim (lookup r d) [ none ↦ 0 | some n ↦ n ]

abbrev pub is_wanting : Config → Dict Text ℕ → Text → Bool
is_wanting cfg idle r = ltbℤ (pos (get_or_0 idle r)) cfg.idle_per_repo

-- `wants.sort(key=..., reverse=True)`, which keeps the order of equal keys.
unfoldable pub place : (Text → ℕ) → Text → List Text → List Text
place key x [] = x ∷ []
place key x (y ∷ ys) = if leb (key y) (key x) then x ∷ y ∷ ys else y ∷ place key x ys

unfoldable pub sort_by : (Text → ℕ) → List Text → List Text
unfolding place
sort_by key [] = []
sort_by key (x ∷ xs) = place key x (sort_by key xs)

module _ (w : World) where
  -- `if jit:`
  abbrev pub start_with : Text → Option Text → M (Unit {0})
  start_with target none = pure tt
  start_with target (some jit) =
      if nonempty jit then (spawn_runner w target jit >>= λ _. pure tt) else pure tt

  abbrev pub start_head : List Text → M (Unit {0})
  start_head [] = pure tt
  start_head (target ∷ _) = generate_jit_config w target >>= start_with target

  unfoldable pub maybe_spawn : Config → Dict Text ℕ → ℕ → Dict Text ℕ → M (Unit {0})
  unfolding sort_by
  maybe_spawn cfg idle live_total queued =
      if not (ltbℤ (pos live_total) cfg.max_concurrent_global)
      then pure tt
      else start_head (sort_by (get_or_0 queued) (filter (is_wanting cfg idle) cfg.repos))
