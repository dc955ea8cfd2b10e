-- ===== src/NfsMount/Main.antt =====
-- `main` behind its argument parser, up to what it goes on to do, and `drop_file_io_privileges`. The
-- account of the worker, with the groups that `initgroups` finds for it, is given. What the jobs raise
-- themselves lies outside.
pub mod Confined
use pi_homelab.Base.{ℕ, Bool, true, false, not, ◌||◌, Option, none, some, List, eqb, if◌then◌else◌}
use pi_homelab.Base.Text.{Text, nonempty}

-- The arguments; a path that is missing is the empty text, which is false as well.
pub record Args : Type 0 where
  pub check : Bool
  pub read_probe : Text
  pub publish : Text

pub record Process : Type 0 where
  pub euid : ℕ
  pub gid : ℕ
  pub groups : List ℕ

-- What `getpwnam` finds, and the groups of the name.
pub record Account : Type 0 where
  pub uid : ℕ
  pub gid : ℕ
  pub groups : List ℕ

infixl 5 ◌>>=◌
abbrev pub ◌>>=◌ : {A B : Type 0} → Option A → (A → Option B) → Option B
none >>= f = none
some a >>= f = f a

-- Only root may change its groups, and any other process may only keep its ids; none where the call
-- raises.
abbrev pub initgroups : Account → Process → Option Process
initgroups account p = if eqb p.euid 0 then some (record p { groups = account.groups }) else none

abbrev pub setgid : ℕ → Process → Option Process
setgid gid p = if eqb p.euid 0 || eqb p.gid gid then some (record p { gid = gid }) else none

abbrev pub setuid : ℕ → Process → Option Process
setuid uid p = if eqb p.euid 0 || eqb p.euid uid then some (record p { euid = uid }) else none

-- `os.initgroups`, `os.setgid` and `os.setuid`, in this order.
unfoldable pub become : Account → Process → Option Process
become account p = initgroups account p >>= setgid account.gid >>= setuid account.uid

-- None where `getpwnam` raises `KeyError`.
abbrev pub become_found : Option Account → Process → Option Process
become_found none p = none
become_found (some account) p = become account p

unfoldable pub drop_file_io_privileges : Option Account → Process → Option Process
unfolding become
drop_file_io_privileges found p = if eqb p.euid 0 then become_found found p else some p

-- What `main` goes on to do.
pub data Job : Type 0 where
  probing publishing : (path : Text) → Job
  checking refusing supervising : Job

unfoldable pub job_of : Args → Process → Job
job_of args p =
    if nonempty args.read_probe
    then probing args.read_probe
    else if nonempty args.publish
    then publishing args.publish
    else if args.check
    then checking
    else if not (eqb p.euid 0)
    then refusing
    else supervising

unfoldable pub main : Args → Option Account → Process → Option (Job × Process)
unfolding drop_file_io_privileges job_of
main args found p =
    (if nonempty args.read_probe || nonempty args.publish
      then drop_file_io_privileges found p
      else some p)
    >>= λ p'. some (job_of args p', p')
