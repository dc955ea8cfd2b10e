-- ===== src/Base/Disk.antt =====
-- Files that are written step by step, where each step may fail, and what others can read meanwhile.
pub mod Whole
pub mod Beside
pub mod Removed
pub mod Elsewhere
pub mod Sure
use Prim.Native.Nat.{ℕ, suc}
use mathlib.Core.Bool.{Bool, true, false}
use mathlib.Core.List.{List, [], ◌∷◌, ◌++◌}
use mathlib.Core.Option.{Option, none, some}
use pi_homelab.Base.Equality.{if◌then◌else◌, text_eq}
use pi_homelab.Base.Lists.{take}
use pi_homelab.Base.Text.{Text}
use pi_homelab.Base.Dict.{Dict, lookup, insert, erase}

abbrev pub Files : Type 0
Files = Dict Text Text

-- The files, all that they were since the start, newest first, and the number of calls so far.
pub record Disk : Type 0 where
  pub files : Files
  pub seen : List Files
  pub calls : ℕ

-- Whether the system's nth call succeeds, and how much a write that fails has left behind.
pub record Faults : Type 0 where
  pub succeeds : ℕ → Bool
  pub torn : ℕ → ℕ

pub data Done : Type 0 where
  done os_error : Done

-- Before anything is called.
abbrev pub start : Files → Disk
start fs = record { files = fs; seen = []; calls = 0 }

abbrev pub Act : Type 0
Act = Disk → Done × Disk

-- The files after one more call.
abbrev pub becomes : Files → Disk → Disk
becomes fs d = record { files = fs; seen = fs ∷ d.seen; calls = suc d.calls }

abbrev pub before : Done → Act → Act
before done act d = act d
before os_error act d = (os_error, d)

infixl 5 ◌>>◌
abbrev pub ◌>>◌ : Act → Act → Act
(first >> second) d = let (r, d') = first d in before r second d'

-- `finally` replaces the outcome only where it fails itself.
abbrev pub outcome : Done → Done → Done
outcome r done = r
outcome r os_error = os_error

abbrev pub try_finally : Act → Act → Act
try_finally body cleanup d = let (r, d') = body d in let (c, d'') = cleanup d' in (outcome r c, d'')

abbrev pub text_or : Option Text → Text
text_or none = []
text_or (some text) = text

abbrev pub content : Text → Files → Text
content path fs = text_or (lookup path fs)

abbrev pub is_there : Option Text → Bool
is_there none = false
is_there (some text) = true

module _ (faults : Faults) where
  -- A call that changes the files at once, or not at all.
  abbrev pub call : (Files → Files) → Act
  call change d =
      if faults.succeeds d.calls
      then (done, becomes (change d.files) d)
      else (os_error, becomes d.files d)

  -- Appends, or a part of it where it fails.
  abbrev pub write : Text → Text → Act
  write path text d =
      if faults.succeeds d.calls
      then (done, becomes (insert path (content path d.files ++ text) d.files) d)
      else (
        os_error,
        becomes (insert path (content path d.files ++ take (faults.torn d.calls) text) d.files) d,
      )

  unfoldable pub write_all : Text → List Text → Act
  write_all path [] d = (done, d)
  write_all path (text ∷ texts) d = (write path text >> write_all path texts) d

  -- `os.replace`
  abbrev pub replace : Text → Text → Act
  replace source target = call (λ fs. insert target (content source fs) (erase source fs))

  -- `if os.path.exists(path): os.unlink(path)`
  abbrev pub unlink_if_there : Text → Act
  unlink_if_there path d = if is_there (lookup path d.files) then call (erase path) d else (done, d)

  -- `Path(path).unlink(missing_ok=True)`: the call is made whether the file is there or not.
  abbrev pub unlink : Text → Act
  unlink path = call (erase path)
