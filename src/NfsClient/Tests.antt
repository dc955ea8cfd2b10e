-- ===== src/NfsClient/Tests.antt =====
-- The metrics of the Mac's mounts at concrete reports.
use pi_homelab.Base.{◌⊎◌, ◌≡◌, refl, true, false, none, [], arith, text_eq, nat_eq}
use pi_homelab.Base.{List, ◌∷◌, Option, some, ◌==◌, if◌then◌else◌}
use pi_homelab.Base.Text.{Text, codes}
use pi_homelab.Base.Dict.{lookup}
use pi_homelab.Base.Int.{pos}
use pi_homelab.Base.Json.{Value, entries}
use pi_homelab.NfsMount.Decide.{healthy, Reason}
use pi_homelab.NfsMount.World.{Command, World}
use pi_homelab.NfsMount.Supervise.{Clock, Item, fresh, pass}
use pi_homelab.NfsMount.Report.{status}
use pi_homelab.NfsClient.Validity.{valid_status}
use pi_homelab.NfsClient.Render.{metrics, read_ok}
use pi_homelab.NfsClient.Samples.{read_ok_samples, read_ok_samples_apart, both}
use pi_homelab.NfsClient.Shared.{IsShown, main-publish_pass}
use pi_homelab.NfsMount.Publish.{publish_pass, shared_status}
use pi_homelab.Base.Disk.{Faults, start}

-- The main share is mounted and answers, the other is not.
abbrev world : World
world = record {
  answer = λ t c. elim c [
    | Command.mount_list ↦ record {
      returncode = pos 0;
      stdout = codes "192.0.2.100:/srv on /Volumes/homelab-srv (nfs, nodev)\n";
      stderr = [];
    }
    | Command.nfsstat ↦ record {
      returncode = pos 0;
      stdout = codes "/Volumes/homelab-srv from 192.0.2.100:/srv\n  Status flags: 0x0\n";
      stderr = [];
    }
    | _ ↦ record { returncode = pos 0; stdout = []; stderr = [] }
  ];
  plist_is_file = λ t. true;
  worker_uid = none;
}

abbrev clock : Clock
clock = record { mono_before = pos 5; mono_after = pos 6; wall_before = 100; wall_after = 101 }

abbrev well : Item
well = record { state = healthy; reason = Reason.read_ok; source = codes "192.0.2.100:/srv" }

-- A report of healthy mounts: read now, and 601 seconds later no longer.
abbrev aged : Value
aged = status 100 ((fresh, well), (fresh, well))

aged_read : read_ok_samples (metrics aged 100) ≡ both true true
unfolding metrics valid_status read_ok status entries lookup text_eq nat_eq
aged_read = refl

read_ok_samples_apart_example :
    (read_ok_samples (metrics aged 100) ≡ both false false)
    ⊎ (read_ok_samples (metrics aged 701) ≡ both false false)
read_ok_samples_apart_example = read_ok_samples_apart aged 100 701 (ground arith)

-- What `json.dump` and `json.loads` do with the report below.
abbrev dump : Value → List Text
dump value = codes "{}" ∷ []

abbrev reported : Value
reported = status 110 (pass world clock clock (fresh, fresh) []).0

abbrev loads : Text → Option Value
loads text = if text == codes "{}\n" then some reported else none

abbrev sure : Faults
sure = record { succeeds = λ n. true; torn = λ n. 0 }

main-publish_pass_example :
    IsShown dump loads
      (λ v. codes "1")
      (codes "a")
      (codes "b")
      110
      120
      (pass world clock clock (fresh, fresh) []).0
      (lookup shared_status
        (publish_pass dump loads sure (codes "a") (codes "b") reported (start [])).disk.files)
unfolding text_eq
main-publish_pass_example =
    main-publish_pass dump loads (λ v. codes "1") (codes "a") (codes "b") sure [] world clock clock
      fresh fresh [] 110 120 (λ n. refl) refl refl refl refl (ground arith) (ground arith)
      (ground arith) (ground arith) (ground arith) (ground arith)
