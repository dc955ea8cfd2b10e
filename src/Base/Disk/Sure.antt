-- ===== src/Base/Disk/Sure.antt =====
-- What returns where no call fails.
use Prim.Native.Nat.{ℕ}
use mathlib.Core.Path.{◌≡◌, refl}
use mathlib.Core.Logic.{inl, inr}
use mathlib.Core.Bool.{true}
use mathlib.Core.List.{List, [], ◌∷◌}
use pi_homelab.Base.Equality.{Bool-cases, text_eq}
use pi_homelab.Base.Text.{Text}
use pi_homelab.Base.Dict.{lookup, insert, erase}
use pi_homelab.Base.Disk.{Files, Disk, Faults, done, Act, ◌>>◌, try_finally, call}
use pi_homelab.Base.Disk.{write, write_all, replace, unlink_if_there, is_there}

abbrev pub IsSure : Act → Type 0
IsSure act = (d : Disk) → (act d).0 ≡ done

pub then-IsSure : (first second : Act) → IsSure first → IsSure second → IsSure (first >> second)
then-IsSure first second f g d = rw (f d) (g (first d).1)

pub finally-IsSure :
    (body cleanup : Act) → IsSure body → IsSure cleanup → IsSure (try_finally body cleanup)
finally-IsSure body cleanup f g d = rw (f d, g (body d).1) refl

module _ (faults : Faults) (sure : (n : ℕ) → faults.succeeds n ≡ true) where
  pub call-IsSure : (change : Files → Files) → IsSure (call faults change)
  call-IsSure change d = rw (sure d.calls) refl

  pub write_all-IsSure : (path : Text) (texts : List Text) → IsSure (write_all faults path texts)
  unfolding write_all
  write_all-IsSure path [] d = refl
  write_all-IsSure path (t ∷ texts) d =
      then-IsSure (write faults path t) (write_all faults path texts) (λ e. rw (sure e.calls) refl)
        (write_all-IsSure path texts) d

  unlink-IsSure : (path : Text) → IsSure (unlink_if_there faults path)
  unlink-IsSure path d = elim (Bool-cases (is_there (lookup path d.files))) [
    | inl t ↦ rw t (call-IsSure (erase path) d)
    | inr t ↦ rw t refl
  ]

  pub beside-IsSure :
      (path temporary : Text) (stage : Act)
      → IsSure stage
      → IsSure (
          call faults (insert temporary [])
          >> try_finally
              (stage >> replace faults temporary path)
              (unlink_if_there faults temporary))
  beside-IsSure path temporary stage s =
      then-IsSure (call faults (insert temporary []))
        (try_finally (stage >> replace faults temporary path) (unlink_if_there faults temporary))
        (call-IsSure (insert temporary []))
        (finally-IsSure (stage >> replace faults temporary path) (unlink_if_there faults temporary)
          (then-IsSure stage (replace faults temporary path) s (call-IsSure _))
          (unlink-IsSure temporary))
