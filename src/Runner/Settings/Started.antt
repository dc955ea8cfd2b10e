-- ===== src/Runner/Settings/Started.antt =====
-- How a start ends, and with what repositories.
use pi_homelab.Base.{
  ℕ, Bool, true, false, ◌&&◌, List, [], ◌∷◌, ◌==◌, ◌≡◌, refl, ap, ◌∙◌, arith, all, map, filter,
  text_eq, Option, none, some,
}
use pi_homelab.Base.Text.{Text, codes, strip, lstrip, rstrip, is_space, nonempty, split_on}
use pi_homelab.Base.Int.{ℤ}
use pi_homelab.Base.Json.{int_of_text}
use pi_homelab.Runner.Settings.{
  Environ, Startup, started, exits, raises, Settings, env, required, int_env, repos_of, settings,
}

-- The variables without which there is no start.
abbrev pub is_complete : Environ → Bool
is_complete environ =
    nonempty (env environ (codes "GH_OWNER") [])
    && nonempty (env environ (codes "GH_REPOS") [])
    && nonempty (env environ (codes "GITHUB_PAT") [])
    && nonempty (env environ (codes "RUNNER_IMAGE") [])

abbrev pub is_number : Option ℤ → Bool
is_number none = false
is_number (some n) = true

-- The numbers that are set are numbers.
abbrev pub are_numbers : Environ → Bool
are_numbers environ =
    is_number (int_of_text (env environ (codes "MAX_CONCURRENT_GLOBAL") (codes "1")))
    && is_number (int_of_text (env environ (codes "IDLE_RUNNERS_PER_REPO") (codes "1")))
    && is_number (int_of_text (env environ (codes "POLL_INTERVAL") (codes "60")))
    && is_number (int_of_text (env environ (codes "ORPHAN_REAP_SECONDS") (codes "900")))

-- A name without spaces at its ends.
abbrev pub is_name : Text → Bool
is_name r = nonempty r && strip r == r

abbrev pub IsStarted : Environ → Startup Settings → Type 0
IsStarted environ (exits n) = (is_complete environ ≡ false) × (n ≡ 2)
IsStarted environ raises = (is_complete environ ≡ true) × (are_numbers environ ≡ false)
IsStarted environ (started s) =
    (is_complete environ ≡ true)
    × (are_numbers environ ≡ true)
    × (all is_name s.repos ≡ true)
    × (nonempty s.owner && nonempty s.pat && nonempty s.runner_image ≡ true)

rstrip_twice : (p : ℕ → Bool) (s : Text) → rstrip p (rstrip p s) ≡ rstrip p s
unfolding rstrip
rstrip_twice p [] = refl
rstrip_twice p (c ∷ s) = ground (arith, rstrip_twice p s)

lstrip_stripped :
    (p : ℕ → Bool) (s : Text) → lstrip p (rstrip p (lstrip p s)) ≡ rstrip p (lstrip p s)
unfolding lstrip rstrip
lstrip_stripped p [] = refl
lstrip_stripped p (c ∷ s) = ground (arith, lstrip_stripped p s)

strip-strip : (s : Text) → strip (strip s) ≡ strip s
unfolding strip
strip-strip s =
    ap (rstrip is_space) (lstrip_stripped is_space s) ∙ rstrip_twice is_space (lstrip is_space s)

stripped_names :
    (pieces : List Text) → all is_name (map strip (filter (λ r. nonempty (strip r)) pieces)) ≡ true
stripped_names [] = refl
stripped_names (r ∷ pieces) = ground (arith, stripped_names pieces, strip-strip r)

repos_of-is_name : (text : Text) → all is_name (repos_of text) ≡ true
unfolding repos_of
repos_of-is_name text = stripped_names (split_on b',' text)

-- A start ends with status 2 exactly where GH_OWNER, GH_REPOS, GITHUB_PAT or RUNNER_IMAGE is missing or
-- empty, and otherwise with a ValueError exactly where one of the four numbers is set to what int
-- refuses; else the supervisor has an owner, a token, an image, and names of repositories without spaces
-- at their ends, none of them empty.
pub settings-IsStarted : (environ : Environ) → IsStarted environ (settings environ)
unfolding settings required int_env
settings-IsStarted environ = ground (arith, repos_of-is_name (env environ (codes "GH_REPOS") []))
