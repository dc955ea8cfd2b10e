-- ===== src/Autodeploy/Shell/Refines.antt =====
-- The run over the file does what the run over the state does.
use pi_homelab.Base.{◌≤◌, true, List, [], ◌++◌, ◌≡◌, refl, ap, ◌∙◌}
use pi_homelab.Base.{Option, none, some, all, length, arith, text_eq}
use pi_homelab.Base.{inl, inr, Bool-cases}
use pi_homelab.Base.Text.{Text, codes}
use pi_homelab.Base.Dict.{Dict}
use pi_homelab.Base.Int.{pos}
use pi_homelab.Base.Decimal.{decimal}
use pi_homelab.Base.Json.{Loaded, Value}
use pi_homelab.Base.Result.{Result, ok, raise, Read, contents}
use pi_homelab.Autodeploy.State.{State, load, needs_deploy, on_attempt, on_success, on_fail}
use pi_homelab.Autodeploy.Rollback.{rollback_targets}
use pi_homelab.Autodeploy.Controller
use pi_homelab.Autodeploy.Controller.{Inputs, Report, deploy_loop, deploy, cycle, held_by_ci}
use pi_homelab.Autodeploy.Main.{role_map}
use pi_homelab.Autodeploy.Shell.{Setup, Ended}
use pi_homelab.Autodeploy.Shell.{adopt, run, finish_deploy}
use pi_homelab.Autodeploy.Shell.Lines.{is_line}
use pi_homelab.Autodeploy.Shell.Calls.{
  inputs_of, planned, ReadsBack, needs_deploy-run, on_attempt-run,
}
use pi_homelab.Autodeploy.Shell.Calls.{
  on_success-run, on_fail-run, failed_file, is_held-run, plan-run, restore-run,
}

module _ (loads : Text → Loaded) (loads_map : Text → Result (Dict Text Text)) (dumps : State → Text)
    (shown : Value → Text) where
  -- The file holds the state, and the same targets were started and restored.
  abbrev pub IsSame : Ended → Report → Type 0
  IsSame r c =
      (load loads r.file ≡ ok c.state) × (r.attempted ≡ c.attempted) × (r.restored ≡ c.restored)

  load-dumped :
      (s : State)
      → ReadsBack loads loads_map dumps shown s
      → load loads (contents (dumps s ++ codes "\n")) ≡ ok s
  unfolding load
  load-dumped s h = h

  load-failed_file :
      (i : Setup) (map : Dict Text Text) (file : Read) (s : State) (held : load loads file ≡ ok s)
      (r : Result State)
      → ReadsBack loads loads_map dumps shown (Controller.state_set r s)
      → load loads (failed_file loads loads_map dumps shown i map file s held r)
        ≡ ok (Controller.state_set r s)
  unfolding Controller.state_set
  load-failed_file i map file s held (ok s') h = load-dumped s' h
  load-failed_file i map file s held (raise e) h = held

  module _ (i : Setup) (map : Dict Text Text) (short : length (decimal i.now) ≤ 4300) where
    finished : State → List Text → List Text → Option Text → Report
    finished s targets attempted none = record {
      state = on_success s i.origin (pos i.now);
      attempted = attempted;
      restored = [];
    }
    finished s targets attempted (some t) = record {
      state = Controller.state_set (on_fail s i.origin (pos i.now)) s;
      attempted = attempted;
      restored = rollback_targets targets t;
    }

    deploy-finished :
        (targets : List Text) (s : State)
        → deploy (inputs_of i map) targets s
          ≡ (let d = deploy_loop i.deploys targets in finished s targets d.attempted d.failed)
    unfolding deploy finished inputs_of
    deploy-finished targets s = ground arith

    finish_deploy-IsSame :
        (file : Read) (s : State) (targets attempted : List Text) (o : Option Text)
        → load loads file ≡ ok s
        → all is_line targets ≡ true
        → ReadsBack loads loads_map dumps shown (finished s targets attempted o).state
        → IsSame
            (finish_deploy loads loads_map dumps shown i file targets attempted o)
            (finished s targets attempted o)
    unfolding finished
    finish_deploy-IsSame file s targets attempted none held fine back = (
      ap (load loads) (on_success-run loads loads_map dumps shown i map file s held short)
          ∙ load-dumped _ back,
      refl,
      refl,
    )
    finish_deploy-IsSame file s targets attempted (some t) held fine back = (
      ap (load loads) (on_fail-run loads loads_map dumps shown i map file s held short)
          ∙ load-failed_file i map file s held (on_fail s i.origin (pos i.now)) back,
      refl,
      restore-run loads loads_map dumps shown i map file t targets fine,
    )

    adopt-IsSame :
        (file : Read) (s : State)
        → load loads file ≡ ok s
        → role_map (λ path. file) loads loads_map dumps shown i.role_map ≡ ok map
        → all is_line (planned i map) ≡ true
        → ReadsBack loads loads_map dumps shown (deploy (inputs_of i map) (planned i map) s).state
        → IsSame
            (adopt loads loads_map dumps shown i file)
            (deploy (inputs_of i map) (planned i map) s)
    unfolding adopt
    adopt-IsSame file s held parsed fine back =
        rw
          (
            plan-run loads loads_map dumps shown i map file parsed fine,
            deploy-finished (planned i map) s,
          )
          (finish_deploy-IsSame file s (planned i map) _ _ held fine
            (rw (deploy-finished (planned i map) s) at back))

    -- If the file holds the state, the role map parses, each planned target is a line, the time has at
    -- most 4300 digits, and json.loads reads back the state after the attempt and the last one, then the
    -- run over the file starts and restores the same targets as the run over the state, and leaves the
    -- file with the same state.
    pub run-IsSame :
        (file : Read) (s : State)
        → load loads file ≡ ok s
        → role_map (λ path. file) loads loads_map dumps shown i.role_map ≡ ok map
        → all is_line (planned i map) ≡ true
        → ReadsBack loads loads_map dumps shown (on_attempt s i.origin)
        → ReadsBack loads loads_map dumps shown (cycle (inputs_of i map) s).state
        → IsSame (run loads loads_map dumps shown i file) (cycle (inputs_of i map) s)
    unfolding run cycle inputs_of
    run-IsSame file s held parsed fine back last = elim (Bool-cases (needs_deploy s i.origin)) [
      | inr n ↦
          rw (needs_deploy-run loads loads_map dumps shown i map file s held, n) (held, refl, refl)
      | inl n ↦ elim (Bool-cases (held_by_ci i.ci)) [
        | inl c ↦
            rw
              (
                needs_deploy-run loads loads_map dumps shown i map file s held,
                is_held-run loads loads_map dumps shown i map file i.ci,
                n,
                c,
              )
              (held, refl, refl)
        | inr c ↦
            rw
              (
                needs_deploy-run loads loads_map dumps shown i map file s held,
                is_held-run loads loads_map dumps shown i map file i.ci,
                on_attempt-run loads loads_map dumps shown i map file s held,
                n,
                c,
              )
              (adopt-IsSame (contents (dumps (on_attempt s i.origin) ++ codes "\n"))
                (on_attempt s i.origin) (load-dumped _ back) parsed fine (rw (n, c) at last))
      ]
    ]
