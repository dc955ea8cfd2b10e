-- ===== src/NfsMount/Publish/Tests.antt =====
-- Publications in which a call fails.
use pi_homelab.Base.{◌≡◌, refl, ◌==◌, eqb, not, if◌then◌else◌, List, [], ◌∷◌, Option, none, some}
use pi_homelab.Base.{text_eq, nat_eq}
use pi_homelab.Base.Text.{Text, codes}
use pi_homelab.Base.Dict.{lookup, insert, erase}
use pi_homelab.Base.Json.{Value, obj, end}
use pi_homelab.Base.Disk.{Files, Faults, start, done, os_error, write_all}
use pi_homelab.Base.Disk.Whole.{Always}
use pi_homelab.Base.Disk.Beside.{IsPublished, IsWhole}
use pi_homelab.NfsMount.Publish.{publish_pass, write_status, publish, status_file, shared_status}
use pi_homelab.NfsMount.Publish.Safe.{write_status-IsPublished}
use pi_homelab.NfsMount.Publish.Pass.{IsSeen, passed, publish_pass-IsSeen}

-- Objects without fields.
abbrev dump : Value → List Text
dump status = codes "{" ∷ codes "}" ∷ []

abbrev loads : Text → Option Value
loads text = if text == codes "{}\n" then some (obj end) else none

-- The second write of the supervisor fails after none of its text, or half of it.
abbrev faults : Faults
faults = record { succeeds = λ n. not (eqb n 2); torn = λ n. 1 }

abbrev local : Text
local = codes "/var/run/.homelab-nfs.json1"

abbrev shared : Text
shared = codes "/Volumes/homelab-generated/.mac-nfs-status.json1"

abbrev old_files : Files
old_files = (status_file, codes "{}\n") ∷ (shared_status, codes "old") ∷ []

-- The supervisor's own write fails, and the child publishes what the local file held.
stale_copy :
    (passed dump loads faults local shared (obj end) old_files).written ≡ os_error
    × ((passed dump loads faults local shared (obj end) old_files).child ≡ done)
    × (lookup shared_status (passed dump loads faults local shared (obj end) old_files).disk.files
        ≡ some (codes "{}\n"))
unfolding publish_pass publish write_status write_all lookup insert erase text_eq nat_eq
stale_copy = (refl, refl, refl)

write_status-IsPublished_example :
    IsPublished shared_status shared
      (some (codes "old"))
      (IsWhole (some (codes "old")) (codes "{}\n"))
      (codes "{}\n")
      (write_status dump loads faults shared_status shared (obj end) (start old_files))
unfolding lookup text_eq
write_status-IsPublished_example =
    write_status-IsPublished dump loads faults shared_status shared refl (obj end) old_files

publish_pass-IsSeen_example :
    Always
      (λ fs. IsSeen dump loads faults local shared (obj end) old_files (lookup shared_status fs))
      (passed dump loads faults local shared (obj end) old_files).disk.seen
unfolding text_eq
publish_pass-IsSeen_example =
    publish_pass-IsSeen dump loads faults local shared (obj end) old_files refl refl refl refl
