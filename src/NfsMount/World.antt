-- ===== src/NfsMount/World.antt =====
-- What the supervisor does outside itself: the commands that `run` starts, in their order, and the
-- answers of the system, which may depend on all that was run before.
use pi_homelab.Base.{Bool, true, false, Option, List, ◌∷◌}
use pi_homelab.Base.Text.{Text}
use pi_homelab.Base.Int.{ℤ, pos, negsuc}
use Prim.Native.Nat.{zero}

-- The fixed argument vectors, by what varies in them.
pub data Command : Type 0 where
  -- /sbin/mount
  mount_list : Command
  -- /usr/bin/nfsstat -m
  nfsstat : Command
  -- /sbin/umount -f TARGET
  umount : (target : Text) → Command
  -- /usr/sbin/diskutil unmount force TARGET
  diskutil_unmount : (target : Text) → Command
  -- /bin/mkdir -p TARGET
  mkdir : (target : Text) → Command
  -- /sbin/mount_nfs -o OPTIONS SOURCE TARGET
  mount_nfs : (source target : Text) → Command
  -- /usr/bin/nc -z -G 2 -w 2 IP 2049
  nc : (ip : Text) → Command
  -- /bin/launchctl print LABEL
  launchctl_print : (label : Text) → Command
  -- /bin/launchctl bootout LABEL
  launchctl_bootout : (label : Text) → Command
  -- /bin/launchctl bootstrap DOMAIN PLIST
  launchctl_bootstrap : (domain : Text) → Command
  -- this program with --read-probe PATH
  read_probe_child : (path : Text) → Command

pub record Completed : Type 0 where
  pub returncode : ℤ
  pub stdout : Text
  pub stderr : Text

-- Newest first.
abbrev pub Trace : Type 0
Trace = List (Command × Completed)

-- `run` with a command, after what was run before; `NODE_PLIST.is_file()`; and the user id of the
-- worker account as text, `none` where `getpwnam` raises `KeyError`.
pub record World : Type 0 where
  pub answer : Trace → Command → Completed
  pub plist_is_file : Trace → Bool
  pub worker_uid : Option Text

abbrev pub M : Type 0 → Type 0
M A = Trace → A × Trace

infixl 5 ◌>>=◌
abbrev pub ◌>>=◌ : {A B : Type 0} → M A → (A → M B) → M B
m >>= f = λ t. let (a, t') = m t in f a t'

abbrev pub pure : {A : Type 0} → A → M A
pure a t = (a, t)

-- `if result.returncode`
abbrev pub failed : Completed → Bool
failed r = elim r.returncode [ pos n ↦ (elim n [ zero ↦ false | _ ↦ true ]) | negsuc _ ↦ true ]

abbrev pub run : World → Command → M Completed
run w c t = let r = w.answer t c in (r, (c, r) ∷ t)
