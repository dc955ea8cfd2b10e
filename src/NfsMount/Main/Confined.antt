-- ===== src/NfsMount/Main/Confined.antt =====
-- The identity under which each job of `main` is done.
use pi_homelab.Base.{
  ℕ, true, false, ◌||◌, Option, none, some, ◌≡◌, ◌≢◌, refl, ◌⊎◌, inl, inr, eqb, arith,
}
use pi_homelab.Base.{Bool-cases, if◌then◌else◌}
use pi_homelab.Base.Text.{nonempty}
use pi_homelab.NfsMount.Main.{
  Args, Process, Account, ◌>>=◌, become, become_found, drop_file_io_privileges, Job, probing,
  publishing,
}
use pi_homelab.NfsMount.Main.{checking, refusing, supervising, job_of, main}

-- The account's user, group and groups, and nothing of root's.
abbrev pub process_of : Account → Process
process_of account = record { euid = account.uid; gid = account.gid; groups = account.groups }

-- A process that is not root keeps what it has, root becomes the account.
abbrev pub IsWorker : Option Account → Process → Process → Type 0
IsWorker found p p' =
    ((p.euid ≢ 0) × (p' ≡ p))
    ⊎ ((p.euid ≡ 0) × ((account : Account) × (found ≡ some account) × (p' ≡ process_of account)))

-- Neither a probe nor a publication is asked for.
abbrev pub HasNoPath : Args → Type 0
HasNoPath args = (nonempty args.read_probe ≡ false) × (nonempty args.publish ≡ false)

-- What a start of `main` with these arguments comes to.
abbrev pub IsConfined : Args → Option Account → Process → Option (Job × Process) → Type 0
IsConfined args found p none =
    ((nonempty args.read_probe || nonempty args.publish) ≡ true) × (p.euid ≡ 0) × (found ≡ none)
IsConfined args found p (some (probing path, p')) =
    (nonempty args.read_probe ≡ true) × (path ≡ args.read_probe) × IsWorker found p p'
IsConfined args found p (some (publishing path, p')) =
    (nonempty args.read_probe ≡ false)
    × (nonempty args.publish ≡ true)
    × (path ≡ args.publish)
    × IsWorker found p p'
IsConfined args found p (some (checking, p')) = HasNoPath args × (args.check ≡ true) × (p' ≡ p)
IsConfined args found p (some (refusing, p')) =
    HasNoPath args × (args.check ≡ false) × (p.euid ≢ 0) × (p' ≡ p)
IsConfined args found p (some (supervising, p')) =
    HasNoPath args × (args.check ≡ false) × (p.euid ≡ 0) × (p' ≡ p)

become-root :
    (account : Account) (p : Process) → p.euid ≡ 0 → become account p ≡ some (process_of account)
unfolding become
become-root account p h = ground arith

eqb_zero : (n : ℕ) → eqb n 0 ≡ true → n ≡ 0
eqb_zero n h = ground arith

not_zero : (n : ℕ) → eqb n 0 ≡ false → n ≢ 0
not_zero n h = ground arith

-- A dropped process, or a failure for want of the account.
abbrev IsDropped : Option Account → Process → Option Process → Type 0
IsDropped found p none = (p.euid ≡ 0) × (found ≡ none)
IsDropped found p (some p') = IsWorker found p p'

become_found-IsDropped :
    (found : Option Account) (p : Process) → p.euid ≡ 0 → IsDropped found p (become_found found p)
become_found-IsDropped none p r = (r, refl)
become_found-IsDropped (some account) p r =
    rw (become-root account p r) (inr (r, (account, refl, refl)))

drop-IsDropped :
    (found : Option Account) (p : Process) → IsDropped found p (drop_file_io_privileges found p)
unfolding drop_file_io_privileges
drop-IsDropped found p = elim (Bool-cases (eqb p.euid 0)) [
  | inr n ↦ rw n (inl (not_zero p.euid n, refl))
  | inl r ↦ rw r (become_found-IsDropped found p (eqb_zero p.euid r))
]

probing_job :
    (args : Args) (q : Process)
    → nonempty args.read_probe ≡ true
    → job_of args q ≡ probing args.read_probe
unfolding job_of
probing_job args q a = rw a refl

publishing_job :
    (args : Args) (q : Process)
    → nonempty args.read_probe ≡ false
    → nonempty args.publish ≡ true
    → job_of args q ≡ publishing args.publish
unfolding job_of
publishing_job args q a b = rw (a, b) refl

probing-IsConfined :
    (args : Args) (found : Option Account) (p : Process) (o : Option Process)
    → nonempty args.read_probe ≡ true
    → IsDropped found p o
    → IsConfined args found p (o >>= λ q. some (job_of args q, q))
probing-IsConfined args found p none a (r, missing) = (rw a refl, r, missing)
probing-IsConfined args found p (some q) a h = rw (probing_job args q a) (a, refl, h)

publishing-IsConfined :
    (args : Args) (found : Option Account) (p : Process) (o : Option Process)
    → nonempty args.read_probe ≡ false
    → nonempty args.publish ≡ true
    → IsDropped found p o
    → IsConfined args found p (o >>= λ q. some (job_of args q, q))
publishing-IsConfined args found p none a b (r, missing) = (rw (a, b) refl, r, missing)
publishing-IsConfined args found p (some q) a b h = rw (publishing_job args q a b) (a, b, refl, h)

-- Without a path nothing is dropped.
kept-IsConfined :
    (args : Args) (found : Option Account) (p : Process)
    → nonempty args.read_probe ≡ false
    → nonempty args.publish ≡ false
    → IsConfined args found p (some (job_of args p, p))
unfolding job_of
kept-IsConfined args found p a b = elim (Bool-cases args.check) [
  | inl c ↦ rw (a, b, c) ((a, b), refl, refl)
  | inr c ↦ elim (Bool-cases (eqb p.euid 0)) [
    | inl r ↦ rw (a, b, c, r) ((a, b), refl, eqb_zero p.euid r, refl)
    | inr n ↦ rw (a, b, c, n) ((a, b), refl, not_zero p.euid n, refl)
  ]
]

main_steps :
    (args : Args) (found : Option Account) (p : Process)
    → main args found p ≡ (
        (if nonempty args.read_probe || nonempty args.publish
          then drop_file_io_privileges found p
          else some p)
        >>= λ q. some (job_of args q, q))
unfolding main
main_steps args found p = refl

-- The dispatch of `main`, up to what the job itself does: it ends with an exception only if root asks
-- for a probe or a publication and the worker's account is missing. A probe of the path that is given,
-- or else a publication at the path that is given, is done as the account, with its user, group and
-- groups, if the process was root, and else as it was. Only where neither is asked for comes the check
-- that is asked for, under the same identity, and only without the check are the mounts supervised,
-- exactly as root, where a process that is not root is refused.
pub main-IsConfined :
    (args : Args) (found : Option Account) (p : Process)
    → IsConfined args found p (main args found p)
main-IsConfined args found p = elim (Bool-cases (nonempty args.read_probe)) [
  | inl a ↦
      rw (main_steps args found p, a)
        (probing-IsConfined args found p (drop_file_io_privileges found p) a
          (drop-IsDropped found p))
  | inr a ↦ elim (Bool-cases (nonempty args.publish)) [
    | inl b ↦
        rw (main_steps args found p, a, b)
          (publishing-IsConfined args found p (drop_file_io_privileges found p) a b
            (drop-IsDropped found p))
    | inr b ↦ rw (main_steps args found p, a, b) (kept-IsConfined args found p a b)
  ]
]
