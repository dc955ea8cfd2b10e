-- ===== src/Base/Disk/Elsewhere.antt =====
-- A file that is written beside its place leaves every third file as it is.
use mathlib.Core.Path.{◌≡◌, refl, ◌∙◌}
use mathlib.Core.Bool.{false}
use mathlib.Core.List.{List, []}
use mathlib.Core.Option.{Option}
use pi_homelab.Base.Equality.{◌==◌, text_eq}
use pi_homelab.Base.Text.{Text}
use pi_homelab.Base.Dict.{insert, lookup-erase}
use pi_homelab.Base.Disk.{Faults, Act, ◌>>◌, try_finally, call, write_all, replace, unlink_if_there}
use pi_homelab.Base.Disk.Whole.{Preserves, call-Preserves, then-Preserves, finally-Preserves}
use pi_homelab.Base.Disk.Whole.{unlink-Preserves, elsewhere, write_all-Preserves}

module _ (faults : Faults) (path other temporary : Text) (third : path == other ≡ false)
    (apart : path == temporary ≡ false) where
  module _ (old : Option Text) (Q : Option Text → Type 0) (keep : Q old) where
    abbrev Keeps : Act → Type 0
    Keeps = Preserves faults path old Q keep

    idle-Keeps : Keeps (call faults (λ fs. fs))
    idle-Keeps = call-Preserves faults path old Q keep (λ fs. fs) (λ fs. refl)

    replace-Keeps : Keeps (replace faults temporary other)
    replace-Keeps = call-Preserves faults path old Q keep _ (λ fs.
        elsewhere faults path old Q keep other third _ _
        ∙ lookup-erase path temporary fs
        ∙ (rw apart refl))

    -- Texts that are written and closed, and one more call.
    pub stage-Preserves :
        (texts : List Text)
        → Keeps (
            try_finally (write_all faults temporary texts) (call faults (λ fs. fs))
            >> call faults (λ fs. fs))
    stage-Preserves texts =
        then-Preserves faults path old Q keep
          (try_finally (write_all faults temporary texts) (call faults (λ fs. fs)))
          (call faults (λ fs. fs))
          (finally-Preserves faults path old Q keep (write_all faults temporary texts)
            (call faults (λ fs. fs))
            (write_all-Preserves faults path old Q keep temporary apart texts) idle-Keeps)
          idle-Keeps

    pub beside-Preserves :
        (stage : Act)
        → Keeps stage
        → Keeps (
            call faults (insert temporary [])
            >> try_finally
                (stage >> replace faults temporary other)
                (unlink_if_there faults temporary))
    beside-Preserves stage k =
        then-Preserves faults path old Q keep (call faults (insert temporary []))
          (try_finally (stage >> replace faults temporary other) (unlink_if_there faults temporary))
          (call-Preserves faults path old Q keep (insert temporary [])
            (elsewhere faults path old Q keep temporary apart []))
          (finally-Preserves faults path old Q keep (stage >> replace faults temporary other)
            (unlink_if_there faults temporary)
            (then-Preserves faults path old Q keep stage (replace faults temporary other) k
              replace-Keeps)
            (unlink-Preserves faults path old Q keep temporary apart))
