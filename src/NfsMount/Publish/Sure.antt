-- ===== src/NfsMount/Publish/Sure.antt =====
-- A pass where no call fails: both files hold the new status.
use pi_homelab.Base.{ℕ, List, Option, some, ◌≡◌, ◌==◌, text_eq, true, false, arith}
use pi_homelab.Base.Text.{Text}
use pi_homelab.Base.Dict.{lookup}
use pi_homelab.Base.Json.{Value}
use pi_homelab.Base.Disk.{
  Files, Disk, Faults, Done, done, os_error, start, call, write_all, try_finally,
}
use pi_homelab.Base.Disk.{becomes}
use pi_homelab.Base.Disk.Sure.{IsSure, then-IsSure, finally-IsSure, call-IsSure, write_all-IsSure}
use pi_homelab.Base.Disk.Sure.{beside-IsSure}
use pi_homelab.Base.Disk.Beside.{IsSettled}
use pi_homelab.NfsMount.Publish.{texts_of, write_temporary, write_status, publish}
use pi_homelab.NfsMount.Publish.{publish_pass, status_file, shared_status}
use pi_homelab.NfsMount.Publish.Safe.{text_of}
use pi_homelab.NfsMount.Publish.Pass.{first-IsSettled, lookup-publish_pass}

module _ (dump : Value → List Text) (loads : Text → Option Value) (faults : Faults)
    (sure : (n : ℕ) → faults.succeeds n ≡ true) where
  write_status-IsSure :
      (path temporary : Text) (status : Value)
      → IsSure (write_status dump loads faults path temporary status)
  unfolding write_status
  write_status-IsSure path temporary status =
      beside-IsSure faults sure path temporary (write_temporary dump loads faults temporary status)
        (then-IsSure
          (try_finally (write_all faults temporary (texts_of dump status)) (call faults (λ fs. fs)))
          (call faults (λ fs. fs))
          (finally-IsSure (write_all faults temporary (texts_of dump status))
            (call faults (λ fs. fs)) (write_all-IsSure faults sure temporary (texts_of dump status))
            (call-IsSure faults sure (λ fs. fs)))
          (call-IsSure faults sure (λ fs. fs)))

  publish_sure :
      (source temporary text : Text) (status : Value) (d : Disk)
      → lookup source d.files ≡ some text
      → loads text ≡ some status
      → (publish dump loads faults source temporary d).0 ≡ done
  unfolding publish
  publish_sure source temporary text status d held back =
      rw (sure d.calls, held, back)
        (write_status-IsSure shared_status temporary status (becomes d.files d))

  settled_done :
      (path temporary : Text) (old : Option Text) (text : Text) (r : Done) (d : Disk)
      → r ≡ done
      → IsSettled path temporary old text r d
      → lookup path d.files ≡ some text
  settled_done path temporary old text done d _ (there, _) = there
  settled_done path temporary old text os_error d e _ = ground arith

  module _ (local_temporary shared_temporary : Text) (status : Value) (fs : Files) where
    module _ (reads_back : loads (text_of dump status) ≡ some status)
        (local : status_file == local_temporary ≡ false)
        (apart : shared_status == local_temporary ≡ false)
        (shared : shared_status == shared_temporary ≡ false) where
      pub lookup-publish_pass_sure :
          lookup shared_status
            (publish_pass dump loads faults local_temporary shared_temporary status
              (start fs)).disk.files
          ≡ some (text_of dump status)
      unfolding publish_pass
      lookup-publish_pass_sure =
          let w : (write_status dump loads faults status_file local_temporary status (start fs)).0
              ≡ done =
            write_status-IsSure status_file local_temporary status (start fs) in
          let there =
            settled_done status_file local_temporary (lookup status_file fs) (text_of dump status) _
              _ w
              (first-IsSettled dump loads faults local_temporary shared_temporary status fs
                reads_back local apart shared) in
          let c =
            publish_sure status_file shared_temporary (text_of dump status) status _ there
              reads_back in
          (lookup-publish_pass dump loads faults local_temporary shared_temporary status fs
            reads_back local apart shared w c).0
