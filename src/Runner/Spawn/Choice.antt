-- ===== src/Runner/Spawn/Choice.antt =====
-- Which repository gets a runner, and what a call may do.
use pi_homelab.Base.{◌≡◌, refl, ◌⊎◌, inl, inr, ℕ, ◌≤◌, true, false, none, some, List}
use pi_homelab.Base.{
  [], ◌∷◌, leb, all, filter, contains, contains-filter, text_eq, Bool-cases, arith,
}
use pi_homelab.Base.{Option, of_all-contains, if◌then◌else◌, ◌||◌, ◌==◌, nat_eq}
use pi_homelab.Base.Text.{Text, nonempty}
use pi_homelab.Base.Dict.{Dict}
use pi_homelab.Base.Int.{pos, ltbℤ}
use pi_homelab.Runner.World.{Call, Config, World, Supervisor, Trace, Reply, broken, reply, return}
use pi_homelab.Runner.Docker.{spawn_runner}
use pi_homelab.Runner.Github.{generate_jit_config}
use pi_homelab.Runner.Spawn.{get_or_0, is_wanting, place, sort_by, start_head, maybe_spawn}

all-leb_mono :
    (key : Text → ℕ) (m n : ℕ) (xs : List Text)
    → m ≤ n
    → all (λ r. leb (key r) m) xs ≡ true
    → all (λ r. leb (key r) n) xs ≡ true
all-leb_mono key m n [] h a = refl
all-leb_mono key m n (x ∷ xs) h a = ground (arith, all-leb_mono key m n xs)

-- The head of the sorted list is an element with the greatest key.
IsTop : (Text → ℕ) → List Text → Text → Type 0
IsTop key xs t = (contains xs t ≡ true) × (all (λ r. leb (key r) (key t)) xs ≡ true)

HasTop : (Text → ℕ) → List Text → Type 0
HasTop key xs = (t : Text) × (ts : List Text) × (sort_by key xs ≡ t ∷ ts) × IsTop key xs t

place-head : (key : Text → ℕ) (x : Text) (xs : List Text) → HasTop key xs → HasTop key (x ∷ xs)
unfolding sort_by place IsTop HasTop
place-head key x xs (t, ts, e, (m, a)) = elim (Bool-cases (leb (key t) (key x))) [
  | inl h ↦
      (x, t ∷ ts, rw (e, h), (ground arith, ground (arith, all-leb_mono key (key t) (key x) xs)))
  | inr h ↦ (t, place key x ts, rw (e, h), (ground arith, ground arith))
]

sort_by-head : (key : Text → ℕ) (x : Text) (xs : List Text) → HasTop key (x ∷ xs)
unfolding sort_by place IsTop HasTop
sort_by-head key x [] = (x, [], refl, (ground arith, ground arith))
sort_by-head key x (y ∷ ys) = place-head key x (y ∷ ys) (sort_by-head key y ys)

-- The repository that may get a runner: the cap leaves room, the repository wants one, and none that
-- wants one has more queued jobs.
abbrev pub IsChosen : Config → Dict Text ℕ → ℕ → Dict Text ℕ → Text → Type 0
IsChosen cfg idle live queued t =
    (ltbℤ (pos live) cfg.max_concurrent_global ≡ true)
    × (contains cfg.repos t ≡ true)
    × (is_wanting cfg idle t ≡ true)
    × ((r : Text)
        → contains cfg.repos r ≡ true
        → is_wanting cfg idle r ≡ true
        → leb (get_or_0 queued r) (get_or_0 queued t) ≡ true)

-- The config that GitHub gives, empty where it gives none.
abbrev pub offered : Reply (Option Text) → Text
offered broken = []
offered (reply code rate none) = []
offered (reply code rate (some jit)) = if code == 200 || code == 201 then jit else []

-- A config is asked for, and a runner is started with it unless it is empty.
abbrev pub attempt : World → Text → Trace → Trace
attempt w t before =
    let jit = offered (w.jit_of before t) in
    let asked = Call.generate_jit t ∷ before in
    if nonempty jit then Call.run t jit ∷ asked else asked

-- No repository is served.
abbrev pub IsIdle : Config → Dict Text ℕ → ℕ → Type 0
IsIdle cfg idle live =
    (ltbℤ (pos live) cfg.max_concurrent_global ≡ false)
    ⊎ ((r : Text) → contains cfg.repos r ≡ true → is_wanting cfg idle r ≡ false)

abbrev pub Decision : World → Config → Dict Text ℕ → ℕ → Dict Text ℕ → Trace → Trace → Type 0
Decision w cfg idle live queued before after =
    (IsIdle cfg idle live × (after ≡ before))
    ⊎ ((t : Text) × IsChosen cfg idle live queued t × (after ≡ attempt w t before))

start_head-attempt :
    (w : World) (t : Text) (ts : List Text) (s : Supervisor)
    → (start_head w (t ∷ ts) s).1.trace ≡ attempt w t s.trace
unfolding generate_jit_config spawn_runner
start_head-attempt w t ts s = ground arith

top_Decision :
    (w : World) (cfg : Config) (idle : Dict Text ℕ) (live : ℕ) (queued : Dict Text ℕ)
    (s : Supervisor) (xs : List Text)
    → ltbℤ (pos live) cfg.max_concurrent_global ≡ true
    → xs ≡ filter (is_wanting cfg idle) cfg.repos
    → HasTop (get_or_0 queued) xs
    → Decision w cfg idle live queued s.trace
        (start_head w (sort_by (get_or_0 queued) xs) s).1.trace
unfolding HasTop IsTop
top_Decision w cfg idle live queued s xs room h (t, ts, e, (m, a)) =
    let key = get_or_0 queued in
    let wants = is_wanting cfg idle in
    let from_filter = contains-filter wants cfg.repos in
    inr (
      t,
      (
        room,
        ground (arith, from_filter t),
        ground (arith, from_filter t),
        λ r i j. of_all-contains (λ q. leb (key q) (key t)) xs r a (ground (arith, from_filter r)),
      ),
      rw e (start_head-attempt w t ts s),
    )

start_wanting-Decision :
    (w : World) (cfg : Config) (idle : Dict Text ℕ) (live : ℕ) (queued : Dict Text ℕ)
    (s : Supervisor) (xs : List Text)
    → ltbℤ (pos live) cfg.max_concurrent_global ≡ true
    → xs ≡ filter (is_wanting cfg idle) cfg.repos
    → Decision w cfg idle live queued s.trace
        (start_head w (sort_by (get_or_0 queued) xs) s).1.trace
unfolding sort_by
start_wanting-Decision w cfg idle live queued s [] room h =
    inl (inr (λ r m. ground (arith, contains-filter (is_wanting cfg idle) cfg.repos r)), refl)
start_wanting-Decision w cfg idle live queued s (x ∷ xs) room h =
    top_Decision w cfg idle live queued s (x ∷ xs) room h (sort_by-head (get_or_0 queued) x xs)

pub in_room :
    (w : World) (cfg : Config) (idle : Dict Text ℕ) (live : ℕ) (queued : Dict Text ℕ)
    (s : Supervisor)
    → ltbℤ (pos live) cfg.max_concurrent_global ≡ true
    → maybe_spawn w cfg idle live queued s
      ≡ start_head w (sort_by (get_or_0 queued) (filter (is_wanting cfg idle) cfg.repos)) s
unfolding maybe_spawn
in_room w cfg idle live queued s h = rw h refl

pub at_cap :
    (w : World) (cfg : Config) (idle : Dict Text ℕ) (live : ℕ) (queued : Dict Text ℕ)
    (s : Supervisor)
    → ltbℤ (pos live) cfg.max_concurrent_global ≡ false
    → maybe_spawn w cfg idle live queued s ≡ (return tt, s)
unfolding maybe_spawn
at_cap w cfg idle live queued s h = rw h refl

-- A call of maybe_spawn does nothing exactly where the cap is reached or no repository wants a
-- runner; otherwise it asks for a config for a repository that wants a runner and has the most queued
-- jobs of those that do, and starts a runner with the config unless GitHub gives none or an empty one.
pub maybe_spawn-Decision :
    (w : World) (cfg : Config) (idle : Dict Text ℕ) (live : ℕ) (queued : Dict Text ℕ)
    (s : Supervisor)
    → Decision w cfg idle live queued s.trace (maybe_spawn w cfg idle live queued s).1.trace
maybe_spawn-Decision w cfg idle live queued s =
    elim (Bool-cases (ltbℤ (pos live) cfg.max_concurrent_global)) [
      | inl h ↦ rw (in_room w cfg idle live queued s h) (
          start_wanting-Decision w cfg idle live queued s (filter (is_wanting cfg idle) cfg.repos) h
            refl)
      | inr h ↦ rw (at_cap w cfg idle live queued s h) (inl (inl h, refl))
    ]
