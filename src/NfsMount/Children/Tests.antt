-- ===== src/NfsMount/Children/Tests.antt =====
-- `run` over a system in which nothing ends in time.
use pi_homelab.Base.{◌≡◌, refl, false, ◌+◌, ◌≤◌, none, List, [], ◌∷◌, leb, arith}
use pi_homelab.Base.Text.{codes}
use pi_homelab.Base.Dict.{lookup, insert}
use pi_homelab.NfsMount.Children.{Argv, argv_eq, process, Os, empty, run_all}
use pi_homelab.NfsMount.Children.Bounded.{IsLawful, living, run_all-living}

-- A process ends two calls after the one that started it.
abbrev slow : Os
slow = record {
  exited = λ n p. leb (p + 2) n;
  popen = λ n command. process n;
  communicate = λ n p. none;
  reaped = λ n p. false;
}

slow-IsLawful : IsLawful slow
slow-IsLawful = record { stays = λ n p h. ground arith; ends = λ n p c h. cc; dies = λ n p h. cc }

abbrev list_mounts : Argv
list_mounts = codes "/sbin/mount" ∷ []

abbrev thrice : List Argv
thrice = list_mounts ∷ list_mounts ∷ list_mounts ∷ []

-- The second call starts nothing, the third finds the first child ended.
two_started : (run_all slow thrice empty).started ≡ (list_mounts, 2) ∷ (list_mounts, 0) ∷ []
unfolding run_all lookup insert argv_eq
two_started = refl

run_all-living_example :
    let t = run_all slow thrice empty in living slow t.calls list_mounts t.started ≤ 1
run_all-living_example = run_all-living slow slow-IsLawful thrice list_mounts
