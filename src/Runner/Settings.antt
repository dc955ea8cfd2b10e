-- ===== src/Runner/Settings.antt =====
-- `env` and `Config`: what the supervisor takes from its environment, before it does anything else.
pub mod Started
mod Tests
use pi_homelab.Base.{
  ℕ, Bool, ◌&&◌, ◌*◌, ◌^◌, suc, Option, none, some, List, [], ◌∷◌, map, filter, text_eq,
}
use pi_homelab.Base.{if◌then◌else◌}
use pi_homelab.Base.Text.{Text, codes, strip, nonempty, split_on}
use pi_homelab.Base.Dict.{Dict, lookup}
use pi_homelab.Base.Int.{ℤ, pos, negsuc, sub_ℕ}
use pi_homelab.Base.Json.{int_of_text}
use pi_homelab.Runner.World.{Config}

abbrev pub Environ : Type 0
Environ = Dict Text Text

-- A value, the status of `sys.exit`, or the `ValueError` of `int`.
pub data Startup (A : Type 0) : Type 0 where
  started : A → Startup A
  exits : ℕ → Startup A
  raises : Startup A

infixl 5 ◌>>=◌
abbrev pub ◌>>=◌ : {A B : Type 0} → Startup A → (A → Startup B) → Startup B
started a >>= f = f a
exits n >>= f = exits n
raises >>= f = raises

pub record Settings : Type 0 where
  pub owner : Text
  pub repos : List Text
  pub pat : Text
  pub runner_image : Text
  pub labels : Text
  pub max_concurrent_global : ℤ
  pub idle_per_repo : ℤ
  pub poll_interval : ℤ
  pub orphan_reap_seconds : ℤ
  pub generated_dir : Text

abbrev pub default_to : Text → Option Text → Text
default_to default none = default
default_to default (some value) = value

-- `env(name, default)`
abbrev pub env : Environ → Text → Text → Text
env environ name default = default_to default (lookup name environ)

-- `env(name, required=True)`: an empty value counts as missing.
unfoldable pub required : Environ → Text → Startup Text
required environ name =
    let value = env environ name [] in if nonempty value then started value else exits 2

abbrev pub parsed : Option ℤ → Startup ℤ
parsed none = raises
parsed (some n) = started n

-- `int(env(name, default))`
unfoldable pub int_env : Environ → Text → Text → Startup ℤ
int_env environ name default = parsed (int_of_text (env environ name default))

-- `[r.strip() for r in text.split(",") if r.strip()]`
unfoldable pub repos_of : Text → List Text
unfolding strip
repos_of text = map strip (filter (λ r. nonempty (strip r)) (split_on b',' text))

unfoldable pub settings : Environ → Startup Settings
unfolding required int_env repos_of
settings environ = do
  owner ← required environ (codes "GH_OWNER")
  repos ← required environ (codes "GH_REPOS")
  pat ← required environ (codes "GITHUB_PAT")
  image ← required environ (codes "RUNNER_IMAGE")
  max ← int_env environ (codes "MAX_CONCURRENT_GLOBAL") (codes "1")
  idle ← int_env environ (codes "IDLE_RUNNERS_PER_REPO") (codes "1")
  poll ← int_env environ (codes "POLL_INTERVAL") (codes "60")
  reap ← int_env environ (codes "ORPHAN_REAP_SECONDS") (codes "900")
  started (record {
    owner = owner;
    repos = repos_of repos;
    pat = pat;
    runner_image = image;
    labels = env environ (codes "RUNNER_LABELS") (codes "self-hosted,linux,ARM64,homelab-build");
    max_concurrent_global = max;
    idle_per_repo = idle;
    poll_interval = poll;
    orphan_reap_seconds = reap;
    generated_dir = env environ (codes "NFS_GENERATED_DIR") (codes "/generated");
  })

-- Seconds as nanoseconds.
abbrev pub nanoseconds : ℤ → ℤ
nanoseconds (pos n) = pos (n * 10 ^ 9)
nanoseconds (negsuc n) = sub_ℕ 0 (suc n * 10 ^ 9)

-- What the loop reads of it.
abbrev pub config_of : Settings → Config
config_of s = record {
  repos = s.repos;
  max_concurrent_global = s.max_concurrent_global;
  idle_per_repo = s.idle_per_repo;
  orphan_reap = nanoseconds s.orphan_reap_seconds;
}
