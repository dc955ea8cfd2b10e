-- ===== src/NfsMount/Publish.antt =====
-- `write_status`, `--publish` and the end of a pass of `supervise`, over files whose every step may
-- fail. What `json.dump` writes for a value and what `json.loads` reads of a text are given, and so are
-- the names that `mkstemp` finds.
pub mod Safe
pub mod Pass
pub mod Sure
mod Tests
use pi_homelab.Base.{List, [], ◌∷◌, ◌++◌, Option, none, some, if◌then◌else◌, text_eq}
use pi_homelab.Base.Text.{Text, codes}
use pi_homelab.Base.Dict.{lookup, insert}
use pi_homelab.Base.Json.{Value}
use pi_homelab.Base.Disk.{Disk, Faults, Done, os_error, Act, becomes, ◌>>◌, try_finally}
use pi_homelab.Base.Disk.{call, write_all, replace, unlink_if_there}

-- `STATUS_FILE`
abbrev pub status_file : Text
status_file = codes "/var/run/homelab-nfs.json"

-- `SHARED_STATUS`
abbrev pub shared_status : Text
shared_status = codes "/Volumes/homelab-generated/mac-nfs-status.json"

-- What the end of a pass does: how the supervisor's own write ended, how the child ended, the files.
pub record Published : Type 0 where
  pub written : Done
  pub child : Done
  pub disk : Disk

-- The texts that are written for a status, with the last "\n".
abbrev pub texts_of : (Value → List Text) → Value → List Text
texts_of dump status = dump status ++ (codes "\n" ∷ [])

-- `json.loads` of what `read_text` returns, none where either raises.
abbrev pub loaded : (Text → Option Value) → Option Text → Option Value
loaded loads none = none
loaded loads (some text) = loads text

module _ (dump : Value → List Text) (loads : Text → Option Value) where
  module _ (faults : Faults) where
    -- The `with` closes the file also where a write fails; then `os.chmod`.
    abbrev pub write_temporary : Text → Value → Act
    write_temporary temporary status =
        try_finally (write_all faults temporary (texts_of dump status)) (call faults (λ fs. fs))
        >> call faults (λ fs. fs)

    unfoldable pub write_status : (path temporary : Text) → Value → Act
    write_status path temporary status =
        call faults (insert temporary [])
        >> try_finally (write_temporary temporary status >> replace faults temporary path)
            (unlink_if_there faults temporary)

    -- `Path.read_text`, none where it raises.
    abbrev pub read_text : Text → Disk → Option Text × Disk
    read_text path d =
        (if faults.succeeds d.calls then lookup path d.files else none, becomes d.files d)

    -- An exception of the child, of whatever kind, ends it with a status other than 0.
    abbrev pub write_loaded : Text → Option Value → Act
    write_loaded temporary none d = (os_error, d)
    write_loaded temporary (some status) d = write_status shared_status temporary status d

    -- The child, `main` with `--publish`.
    unfoldable pub publish : (source temporary : Text) → Act
    unfolding write_status
    publish source temporary d =
        let (text, d') = read_text source d in write_loaded temporary (loaded loads text) d'

    -- The supervisor goes on where its own write fails.
    unfoldable pub publish_pass :
        (local_temporary shared_temporary : Text) → Value → Disk → Published
    unfolding write_status publish
    publish_pass local_temporary shared_temporary status d =
        let (r, d') = write_status status_file local_temporary status d in
        let (c, d'') = publish status_file shared_temporary d' in
        record { written = r; child = c; disk = d'' }
