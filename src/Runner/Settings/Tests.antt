-- ===== src/Runner/Settings/Tests.antt =====
-- Environments of the supervisor.
use pi_homelab.Base.{◌≡◌, refl, [], ◌∷◌, text_eq}
use pi_homelab.Base.Text.{codes, strip, split_on}
use pi_homelab.Base.Dict.{lookup}
use pi_homelab.Base.Int.{pos}
use pi_homelab.Base.Json.{int_of_text}
use pi_homelab.Runner.Settings.{Environ, started, raises, settings}
use pi_homelab.Runner.Settings.Started.{IsStarted, settings-IsStarted}

abbrev environ : Environ
environ =
    (codes "GH_OWNER", codes "me")
    ∷ (codes "GH_REPOS", codes " homelab, ,site,")
    ∷ (codes "GITHUB_PAT", codes "t")
    ∷ (codes "RUNNER_IMAGE", codes "runner:1")
    ∷ (codes "POLL_INTERVAL", codes "30")
    ∷ []

chosen :
    settings environ
    ≡ started (record {
      owner = codes "me";
      repos = codes "homelab" ∷ codes "site" ∷ [];
      pat = codes "t";
      runner_image = codes "runner:1";
      labels = codes "self-hosted,linux,ARM64,homelab-build";
      max_concurrent_global = pos 1;
      idle_per_repo = pos 1;
      poll_interval = pos 30;
      orphan_reap_seconds = pos 900;
      generated_dir = codes "/generated";
    })
unfolding settings lookup text_eq strip split_on int_of_text
chosen = refl

-- A number that is set to nothing is no number, in spite of the default.
empty_number : settings ((codes "MAX_CONCURRENT_GLOBAL", []) ∷ environ) ≡ raises
unfolding settings lookup text_eq strip split_on int_of_text
empty_number = refl

settings-IsStarted_example : IsStarted environ (settings environ)
settings-IsStarted_example = settings-IsStarted environ
