-- ===== src/NfsMount/Publish/Safe.antt =====
-- What others can read while a status is published, and what is there at the end.
use pi_homelab.Base.{List, [], Option, some, ◌≡◌, refl, inl, inr}
use pi_homelab.Base.{◌==◌, text_eq, false}
use pi_homelab.Base.Text.{Text}
use pi_homelab.Base.Dict.{lookup}
use pi_homelab.Base.Json.{Value}
use pi_homelab.Base.Disk.{Files, Disk, Faults, start, content}
use pi_homelab.Base.Disk.Whole.{concat, IsPending, Preserves}
use pi_homelab.Base.Disk.Beside.{
  IsPublished, IsWhole, IsWritten, beside-IsPublished, write_all-IsWritten,
}
use pi_homelab.Base.Disk.Beside.{keep-IsWritten, closed-IsWritten}
use pi_homelab.Base.Disk.Elsewhere.{stage-Preserves, beside-Preserves}
use pi_homelab.NfsMount.Publish.{texts_of, write_temporary, write_status}

-- The whole text of a status.
abbrev pub text_of : (Value → List Text) → Value → Text
text_of dump status = concat (texts_of dump status)

module _ (dump : Value → List Text) (loads : Text → Option Value) (faults : Faults) where
  module _ (path temporary : Text) (apart : path == temporary ≡ false) (status : Value) where
    module _ (old : Option Text) (Q : Option Text → Type 0) (keep : Q old)
        (new : Q (some (text_of dump status))) where
      write_temporary-IsWritten :
          (d : Disk)
          → content temporary d.files ≡ []
          → IsPending faults path old Q keep d
          → IsWritten faults path temporary old Q keep
              (text_of dump status)
              new
              apart
              (write_temporary dump loads faults temporary status d)
      write_temporary-IsWritten d c h =
          keep-IsWritten faults path temporary old Q keep (text_of dump status) new apart _ _ (
            closed-IsWritten faults path temporary old Q keep (text_of dump status) new apart _ _ (
              write_all-IsWritten faults path temporary old Q keep (text_of dump status) new apart
                (texts_of dump status) d refl c h))

      pub write_status-pending :
          (d : Disk)
          → IsPending faults path old Q keep d
          → IsPublished path temporary old Q
              (text_of dump status)
              (write_status dump loads faults path temporary status d)
      unfolding write_status
      write_status-pending =
          beside-IsPublished faults path temporary old Q keep (text_of dump status) new apart
            (write_temporary dump loads faults temporary status) write_temporary-IsWritten

    -- If the temporary file has a name of its own, then whatever calls fail and however much of a
    -- failed write is left behind: after each call of write_status the file holds what it held before or
    -- the whole text of the status, where it returns the file holds the status and no temporary file is
    -- left, and where it raises the file is unchanged.
    pub write_status-IsPublished :
        (fs : Files)
        → IsPublished path temporary
            (lookup path fs)
            (IsWhole (lookup path fs) (text_of dump status))
            (text_of dump status)
            (write_status dump loads faults path temporary status (start fs))
    write_status-IsPublished fs =
        write_status-pending (lookup path fs) (IsWhole (lookup path fs) (text_of dump status))
          (inl refl) (inr refl) (start fs) (refl, tt)

  -- Publishing one file leaves the other as it is.
  module _ (path other temporary : Text) (other_file : path == other ≡ false)
      (apart : path == temporary ≡ false) where
    module _ (old : Option Text) (Q : Option Text → Type 0) (keep : Q old) where
      pub write_status-Preserves :
          (status : Value)
          → Preserves faults path old Q keep (write_status dump loads faults other temporary status)
      unfolding write_status
      write_status-Preserves status =
          beside-Preserves faults path other temporary other_file apart old Q keep
            (write_temporary dump loads faults temporary status)
            (stage-Preserves faults path other temporary other_file apart old Q keep
              (texts_of dump status))
