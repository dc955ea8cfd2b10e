-- ===== src/Beszel/Tests.antt =====
-- Runs over a database with one system.
use pi_homelab.Base.{◌≡◌, refl, ◌==◌, if◌then◌else◌, Option, none, some, [], ◌∷◌, text_eq}
use pi_homelab.Base.Text.{Text, codes}
use pi_homelab.Base.Dict.{Dict, insert}
use pi_homelab.Base.Int.{ℤ, pos, ◌+ℤ◌}
use pi_homelab.Beszel.{
  Moment, Db, Cell, null, integer, text, Run, returned, main, last_run, freshness_success,
}
use pi_homelab.Beszel.{last_sample}
use pi_homelab.Base.{not, eqb, nat_eq}
use pi_homelab.Base.Disk.{Faults, start, Files}
use pi_homelab.Beszel.Publish.{main_run}
use pi_homelab.Beszel.Publish.Safe.{RunEnds, main_run-RunEnds}
use pi_homelab.Beszel.Freshness.{Publishes, main-Publishes}

abbrev from_iso : Text → Option Moment
from_iso s =
    if s == codes "2026-08-01 00:00:00+00:00"
    then some (record { micros = pos 1785542400999999 })
    else none

abbrev hub : Db
hub = record {
  systems = λ name. returned (if name == codes "pi" then text (codes "s1") ∷ [] else []);
  newest = λ id. returned (text (codes "2026-08-01 00:00:00Z"));
}

abbrev metrics_of : Option Run → Dict Text ℤ
metrics_of none = []
metrics_of (some run) = run.metrics

abbrev exit_status : Option Run → Option ℤ
exit_status none = none
exit_status (some run) = some run.exit

fresh_run :
    metrics_of (main from_iso hub (codes "pi") (pos 1785542340))
    ≡ (last_run, pos 1785542340) ∷ (last_sample, pos 1785542400) ∷ (freshness_success, pos 1) ∷ []
unfolding main insert text_eq ◌+ℤ◌
fresh_run = refl

-- A second earlier the sample lies too far ahead.
ahead_run : exit_status (main from_iso hub (codes "pi") (pos 1785542339)) ≡ some (pos 1)
unfolding main insert text_eq ◌+ℤ◌
ahead_run = refl

-- A database with a number in place of the date, or with no samples at all.
abbrev answering : Cell → Db
answering created = record {
  systems = λ name. returned (text (codes "s1") ∷ []);
  newest = λ id. returned created;
}

numbered_run : main from_iso (answering (integer (pos 5))) (codes "pi") (pos 9) ≡ none
unfolding main
numbered_run = refl

empty_run : exit_status (main from_iso (answering null) (codes "pi") (pos 9)) ≡ some (pos 0)
unfolding main insert text_eq ◌+ℤ◌
empty_run = refl

main-Publishes_example :
    Publishes from_iso hub
      (codes "pi")
      (pos 1785542340)
      (main from_iso hub (codes "pi") (pos 1785542340))
main-Publishes_example = main-Publishes from_iso hub (codes "pi") (pos 1785542340)

-- The second write fails after three characters.
abbrev full : Faults
full = record { succeeds = λ n. not (eqb n 2); torn = λ n. 3 }

abbrev old_files : Files
old_files = (codes "/m/beszel.prom", codes "old") ∷ []

main_run-RunEnds_example :
    RunEnds full
      (codes "/m/beszel.prom")
      (codes "/m/.beszel-1")
      old_files
      (main from_iso hub (codes "pi") (pos 1785542340))
      (main_run full from_iso hub
        (codes "pi")
        (pos 1785542340)
        (codes "/m/beszel.prom")
        (codes "/m/.beszel-1")
        (start old_files))
unfolding text_eq
main_run-RunEnds_example =
    main_run-RunEnds full (codes "/m/beszel.prom") (codes "/m/.beszel-1") refl from_iso hub
      (codes "pi") (pos 1785542340) old_files
