-- ===== src/NfsMount/Tests.antt =====
-- Runs of the supervisor in small worlds, and the theorems at concrete data.
use pi_homelab.NfsMount.Main.{Args, Process, Account, publishing, main}
use pi_homelab.NfsMount.Main.Confined.{IsConfined, process_of, main-IsConfined}
use pi_homelab.Base.{◌≡◌, refl, true, none, some, List, [], ◌∷◌}
use pi_homelab.Base.{text_eq, ◌⊎◌, map}
use pi_homelab.Base.Text.{Text, codes, strip, starts_with, is_infix, before, after}
use pi_homelab.Base.Dict.{insert}
use pi_homelab.Base.Int.{pos, ◌-ℤ◌}
use pi_homelab.NfsMount.Decide.{hung, unmounted, mount_absent, Action, decide}
use pi_homelab.NfsMount.Listing.{mount_status, sources_of}
use pi_homelab.NfsMount.World.{Command, World, Trace}
use pi_homelab.NfsMount.Recovery.{
  recover_with_worker, carry_on, prepare, resume, recover_share, srv_target,
}
use pi_homelab.NfsMount.Recovery.Overmount.{is_guarded, recover_with_worker-is_guarded}
use pi_homelab.NfsMount.Recovery.Worker.{owed, unmounts_clear, recover_with_worker-owed}
use pi_homelab.NfsMount.Recovery.Worker.{recover_with_worker-unmounts_clear}
use pi_homelab.NfsMount.Supervise.{srv, Item, Clock, fresh, visit, attempt, settle}
use pi_homelab.NfsMount.Supervise.Pacing.{IsIdle, IsDue, IsAttempt, visit_paced}
use pi_homelab.Base.{◌==◌, if◌then◌else◌, all, not, ◌&&◌}
use pi_homelab.NfsMount.Decide.{is_healthy}
use pi_homelab.NfsMount.World.{Completed, failed}
use pi_homelab.NfsMount.Recovery.{health}
use pi_homelab.NfsMount.Probe.{Probe, bytes, probe_file, holds, health-holds}

abbrev listing : Text
listing =
    codes "/dev/disk1 on / (apfs, local)\n10.0.0.1:/srv on /Volumes/homelab-srv (nfs, nodev)\n"

sources_listed : sources_of listing ≡ (codes "/Volumes/homelab-srv", codes "10.0.0.1:/srv") ∷ []
unfolding sources_of starts_with after insert text_eq
sources_listed = refl

status_hung :
    mount_status
      (codes
        "/Volumes/homelab-srv from 10.0.0.1:/srv\n  -- Original mount options\n     Status flags: 0x1, not responding\n")
      (codes "/Volumes/homelab-srv")
    ≡ hung
unfolding mount_status is_infix starts_with before after strip text_eq
status_hung = refl

-- Everything succeeds, but `umount` fails and `mount` lists nothing.
abbrev world : World
world = record {
  answer = λ t. λ c. elim c [
    | Command.umount _ ↦ record { returncode = pos 1; stdout = []; stderr = [] }
    | _ ↦ record { returncode = pos 0; stdout = []; stderr = [] }
  ];
  plist_is_file = λ t. true;
  worker_uid = some (codes "501");
}

abbrev commands : Trace → List Command
commands t = map (λ (c, r). c) t

abbrev share : Text
share = codes "10.0.0.1:/srv"

recovered :
    commands (recover_with_worker world share srv_target Action.recover []).1
    ≡ Command.launchctl_bootstrap (codes "gui/501")
      ∷ Command.mount_nfs share srv_target
      ∷ Command.mkdir srv_target
      ∷ Command.mount_list
      ∷ Command.diskutil_unmount srv_target
      ∷ Command.umount srv_target
      ∷ Command.launchctl_bootout (codes "gui/501/io.tdarr.node")
      ∷ Command.launchctl_print (codes "gui/501/io.tdarr.node")
      ∷ []
unfolding recover_with_worker carry_on prepare resume recover_share sources_of text_eq
recovered = refl

recover_with_worker-is_guarded_example :
    is_guarded (recover_with_worker world share srv_target Action.recover []).1 ≡ true
recover_with_worker-is_guarded_example =
    recover_with_worker-is_guarded world share srv_target Action.recover [] refl

recover_with_worker-owed_example :
    owed (recover_with_worker world share srv_target Action.recover []).1 ≡ none
recover_with_worker-owed_example =
    recover_with_worker-owed world share srv_target Action.recover [] refl

recover_with_worker-unmounts_clear_example :
    unmounts_clear (recover_with_worker world share srv_target Action.recover []).1 ≡ true
recover_with_worker-unmounts_clear_example =
    recover_with_worker-unmounts_clear world share srv_target Action.recover [] refl

abbrev clock : Clock
clock = record { mono_before = pos 5; mono_after = pos 6; wall_before = 100; wall_after = 101 }

abbrev gone : Item
gone = record { state = unmounted; reason = mount_absent; source = [] }

first_visit : (visit world clock srv (codes "10.0.0.1") fresh gone []).0.0.recoveries ≡ 1
unfolding visit attempt settle decide ◌-ℤ◌ recover_with_worker carry_on prepare resume recover_share
    sources_of text_eq
first_visit = refl

visit_paced_example :
    IsIdle clock fresh gone [] (visit world clock srv (codes "10.0.0.1") fresh gone [])
    ⊎ (IsDue clock (codes "10.0.0.1") fresh gone
        × IsAttempt clock fresh (visit world clock srv (codes "10.0.0.1") fresh gone []))
visit_paced_example = visit_paced world clock srv (codes "10.0.0.1") fresh gone []

-- The first probe is whole, the second one cut short.
abbrev probe_files : Text → Probe
probe_files path =
    if path == codes "/a" then bytes (codes "homelab-nfs-v1\n") else bytes (codes "home")

abbrev probed : World
probed = record {
  answer = λ t c. elim c [
    | Command.read_probe_child path ↦ record {
      returncode = probe_file (probe_files path);
      stdout = [];
      stderr = [];
    }
    | _ ↦ record { returncode = pos 0; stdout = []; stderr = [] }
  ];
  plist_is_file = λ t. true;
  worker_uid = none;
}

abbrev stat_healthy : Completed
stat_healthy = record {
  returncode = pos 0;
  stdout = codes "/v from 10.0.0.1:/srv\n     Status flags: 0x0\n";
  stderr = [];
}

health-holds_example :
    is_healthy (health probed (codes "/v") (codes "/a" ∷ codes "/b" ∷ []) stat_healthy []).0.0 ≡ (
      not (failed stat_healthy)
      && is_healthy (mount_status stat_healthy.stdout (codes "/v"))
      && all (λ path. holds (probe_files path)) (codes "/a" ∷ codes "/b" ∷ []))
health-holds_example =
    health-holds probed probe_files (codes "/v") (codes "/a" ∷ codes "/b" ∷ []) stat_healthy []
      (λ t path. refl)

-- Root is asked for a publication.
abbrev worker : Account
worker = record { uid = 501; gid = 20; groups = 20 ∷ 12 ∷ [] }

abbrev root : Process
root = record { euid = 0; gid = 0; groups = 0 ∷ [] }

abbrev publication : Args
publication = record { check = true; read_probe = []; publish = codes "/var/run/homelab-nfs.json" }

publishes_as_worker :
    main publication (some worker) root
    ≡ some (publishing (codes "/var/run/homelab-nfs.json"), process_of worker)
unfolding main
publishes_as_worker = refl

main-IsConfined_example :
    IsConfined publication (some worker) root (main publication (some worker) root)
main-IsConfined_example = main-IsConfined publication (some worker) root
