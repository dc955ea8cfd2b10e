-- ===== src/Base/Disk/Whole.antt =====
-- What holds of a file in all that others have seen of it, while another file is written.
use mathlib.Core.Path.{◌≡◌, refl, sym, ap, ◌∙◌}
use mathlib.Core.Logic.{◌⊎◌, inl, inr}
use mathlib.Core.Bool.{false}
use mathlib.Core.List.{List, [], ◌∷◌, ◌++◌, append_assoc, append-nil}
use mathlib.Core.Option.{Option, some}
use native.Mathlib.Omega.{arith}
use pi_homelab.Base.Equality.{◌==◌, text_eq, Bool-cases}
use pi_homelab.Base.Text.{Text}
use pi_homelab.Base.Dict.{lookup, insert, erase, lookup-insert, lookup-erase}
use pi_homelab.Base.Disk.{Files, Disk, Faults, Done, done, os_error, Act, before, ◌>>◌, becomes}
use pi_homelab.Base.Disk.{
  try_finally, content, text_or, is_there, call, write, write_all, unlink_if_there,
}

abbrev pub Always : (Files → Type 0) → List Files → Type 0
Always P [] = Unit {0}
Always P (fs ∷ seen) = P fs × Always P seen

abbrev pub concat : List Text → Text
concat [] = []
concat (text ∷ texts) = text ++ concat texts

not_done : os_error ≡ done → ⊥
not_done h = cc

before-done :
    (r : Done) (act : Act) (d : Disk)
    → (before r act d).0 ≡ done
    → (r ≡ done) × ((act d).0 ≡ done) × ((before r act d).1 ≡ (act d).1)
before-done done act d h = (refl, h, refl)
before-done os_error act d h = cc

pub content-insert : (path t : Text) (fs : Files) → content path (insert path t fs) ≡ t
content-insert path t fs = ap text_or (lookup-insert path path t fs) ∙ ground arith

pub content_found : (path t : Text) (fs : Files) → lookup path (insert path t fs) ≡ some t
content_found path t fs = lookup-insert path path t fs ∙ ground arith

pub Done-cases : (r : Done) → (r ≡ done) ⊎ (r ≡ os_error)
Done-cases done = inl refl
Done-cases os_error = inr refl

-- A file that holds its old text now, and that was seen with the property only.
module _ (faults : Faults) (path : Text) (old : Option Text) (Q : Option Text → Type 0)
    (keep : Q old) where
  abbrev pub IsPending : Disk → Type 0
  IsPending d = (lookup path d.files ≡ old) × Always (λ fs. Q (lookup path fs)) d.seen

  abbrev pub Preserves : Act → Type 0
  Preserves act = (d : Disk) → IsPending d → IsPending (act d).1

  pub becomes-IsPending :
      (fs : Files) (d : Disk)
      → lookup path fs ≡ lookup path d.files
      → IsPending d
      → IsPending (becomes fs d)
  becomes-IsPending fs d e (h, w) = (e ∙ h, (rw (e ∙ h) keep, w))

  pub call-Preserves :
      (change : Files → Files)
      → ((fs : Files) → lookup path (change fs) ≡ lookup path fs)
      → Preserves (call faults change)
  call-Preserves change e d h = elim (Bool-cases (faults.succeeds d.calls)) [
    | inl s ↦ rw s (becomes-IsPending (change d.files) d (e d.files) h)
    | inr s ↦ rw s (becomes-IsPending d.files d refl h)
  ]

  before-Preserves : (r : Done) (act : Act) → Preserves act → Preserves (before r act)
  before-Preserves done act k d h = k d h
  before-Preserves os_error act k d h = h

  pub then-Preserves :
      (first second : Act) → Preserves first → Preserves second → Preserves (first >> second)
  then-Preserves first second f g d h = before-Preserves (first d).0 second g (first d).1 (f d h)

  pub finally-Preserves :
      (body cleanup : Act)
      → Preserves body
      → Preserves cleanup
      → Preserves (try_finally body cleanup)
  finally-Preserves body cleanup f g d h = g (body d).1 (f d h)

  module _ (other : Text) (apart : path == other ≡ false) where
    pub elsewhere : (t : Text) (fs : Files) → lookup path (insert other t fs) ≡ lookup path fs
    elsewhere t fs = lookup-insert path other t fs ∙ (rw apart refl)

    write-Preserves : (t : Text) → Preserves (write faults other t)
    write-Preserves t d h = elim (Bool-cases (faults.succeeds d.calls)) [
      | inl s ↦ rw s (becomes-IsPending _ d (elsewhere _ d.files) h)
      | inr s ↦ rw s (becomes-IsPending _ d (elsewhere _ d.files) h)
    ]

    pub write_all-Preserves : (texts : List Text) → Preserves (write_all faults other texts)
    unfolding write_all
    write_all-Preserves [] d h = h
    write_all-Preserves (t ∷ texts) d h =
        then-Preserves (write faults other t) (write_all faults other texts) (write-Preserves t)
          (write_all-Preserves texts) d h

    pub unlink-Preserves : Preserves (unlink_if_there faults other)
    unlink-Preserves d h = elim (Bool-cases (is_there (lookup other d.files))) [
      | inl t ↦
          rw t
            (call-Preserves (erase other) (λ fs. lookup-erase path other fs ∙ (rw apart refl)) d h)
      | inr t ↦ rw t h
    ]

-- What is written to a new file, where nothing fails.
module _ (faults : Faults) (temporary : Text) where
  content-write :
      (t : Text) (d : Disk)
      → (write faults temporary t d).0 ≡ done
      → content temporary (write faults temporary t d).1.files ≡ content temporary d.files ++ t
  content-write t d h = elim (Bool-cases (faults.succeeds d.calls)) [
    | inl s ↦ rw s (content-insert temporary _ d.files)
    | inr s ↦ elim (not_done (rw s at h)) [ ]
  ]

  pub content-write_all :
      (texts : List Text) (d : Disk)
      → (write_all faults temporary texts d).0 ≡ done
      → content temporary (write_all faults temporary texts d).1.files
        ≡ content temporary d.files ++ concat texts
  unfolding write_all
  content-write_all [] d h = sym (append-nil (content temporary d.files))
  content-write_all (t ∷ texts) d h =
      let d' = (write faults temporary t d).1 in
      let (first, rest, same) =
        before-done (write faults temporary t d).0 (write_all faults temporary texts) d' h in
      rw same (
        content-write_all texts d' rest
        ∙ ap (λ s. s ++ concat texts) (content-write t d first)
        ∙ append_assoc (content temporary d.files) t (concat texts))
