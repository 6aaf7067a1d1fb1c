-- ===== src/BlastRadius/Resume.antt =====
-- The meters that both `from_events` of harness/blast_radius.py read back, after operations of `apply`.
use harnessie.Prelude.{
  true, Bool, ℕ, ◌≡◌, refl, sym, ap, ◌∙◌, String, Option, none, some, List, [], ◌∷◌, ◌++◌,
  str_eq_refl, Result, ok, raise,
}
use mathlib.Core.List.{append-nil}
use harnessie.BlastRadius.Files.{FileSystem, Fault, unsupported_entry, other_error}
use harnessie.BlastRadius.Meters.{
  Snapshot, Delta, BlastRadiusExceeded, RunBlastRadius, add_all, keys, charged, reserved, reserve,
}
use harnessie.BlastRadius.Apply.{
  PhaseBlastRadius, BlastEvent, rolled_back, after_fault, blast_radius_exceeded, Applied, Metered,
  spent, check_ceilings, settle_usage, charge_paths, measure_after, after_action, measure_before,
  apply, replay_run, replay_phase, run_from_events, phase_from_events, blast_radius_usage,
}

run_from_events-append :
    (m : RunBlastRadius) (es : List BlastEvent) (e : BlastEvent)
    → run_from_events m (es ++ e ∷ []) ≡ replay_run e (run_from_events m es)
unfolding run_from_events
run_from_events-append m [] e = refl
run_from_events-append m (d ∷ es) e = run_from_events-append (replay_run d m) es e

phase_from_events-append :
    (m : PhaseBlastRadius) (es : List BlastEvent) (e : BlastEvent)
    → phase_from_events m (es ++ e ∷ []) ≡ replay_phase e (phase_from_events m es)
unfolding phase_from_events
phase_from_events-append m [] e = refl
phase_from_events-append m (d ∷ es) e = phase_from_events-append (replay_phase d m) es e

replay_phase-usage :
    (m : PhaseBlastRadius) (namespace operation : String) (d : Delta) (pm : PhaseBlastRadius)
    (run : RunBlastRadius)
    → replay_phase (blast_radius_usage m.phase namespace operation d pm run) m ≡ spent m d
replay_phase-usage m namespace operation d pm run = rw (str_eq_refl m.phase) refl

reserved-charged :
    (meter later : RunBlastRadius) (phase : String) (found : Option (String × ℕ × ℕ))
    → (reserved meter later phase found).0 ≡ none
    → (reserved meter later phase found).1 ≡ later
unfolding reserved
reserved-charged meter later phase none h = refl
reserved-charged meter later phase (some v) h = cc

check_ceilings-charged :
    (meter : PhaseBlastRadius) (run : RunBlastRadius) (operation : String) (d : Delta)
    (found : Option (String × ℕ × ℕ))
    → (check_ceilings meter run operation d found).0 ≡ none
    → (check_ceilings meter run operation d found).1
      ≡ charged run (add_all run.touched (keys meter.namespace d.paths)) d
unfolding check_ceilings reserve
check_ceilings-charged meter run operation d (some v) h = cc
check_ceilings-charged meter run operation d none h = reserved-charged run _ meter.phase _ h

-- The meters are what `from_events` makes of the events.
pub record Replays {W : Type 0} (r0 : RunBlastRadius) (p0 : PhaseBlastRadius) (s : Metered W)
    : Type 0 where
  pub run_again : run_from_events r0 s.events ≡ s.run
  pub phase_again : phase_from_events p0 s.events ≡ s.meter

module _ {W : Type 0} (A : Type 0) (files : FileSystem W) (r0 : RunBlastRadius)
    (p0 : PhaseBlastRadius) where
  rolled_back-Replays :
      (outcome : Applied A) (restored : Result String Unit × W) (s : Metered W)
      → Replays r0 p0 s
      → Replays r0 p0 (rolled_back files outcome [] restored s).1
  unfolding rolled_back
  rolled_back-Replays outcome (raise e, w) s h = record {
    run_again = h.run_again;
    phase_again = h.phase_again;
  }
  rolled_back-Replays outcome (ok u, w) s h = record {
    run_again = ap (λ es. run_from_events r0 es) (append-nil s.events) ∙ h.run_again;
    phase_again = ap (λ es. phase_from_events p0 es) (append-nil s.events) ∙ h.phase_again;
  }

  rolled_back-exceeded :
      (outcome : Applied A) (e : BlastRadiusExceeded) (at_end : Bool) (detail : String)
      (restored : Result String Unit × W) (s : Metered W)
      → Replays r0 p0 s
      → Replays r0 p0
          (rolled_back files outcome (blast_radius_exceeded e at_end detail ∷ []) restored s).1
  unfolding rolled_back
  rolled_back-exceeded outcome e at_end detail (raise f, w) s h = record {
    run_again = h.run_again;
    phase_again = h.phase_again;
  }
  rolled_back-exceeded outcome e at_end detail (ok u, w) s h = record {
    run_again = run_from_events-append r0 s.events _ ∙ h.run_again;
    phase_again = phase_from_events-append p0 s.events _ ∙ h.phase_again;
  }

  after_fault-Replays :
      (operation : String) (before : Snapshot) (e : Fault) (s : Metered W)
      → Replays r0 p0 s
      → Replays r0 p0 (after_fault {A = A} files operation before e s).1
  unfolding after_fault
  after_fault-Replays operation before (unsupported_entry path) s h =
      rolled_back-exceeded _ _ true path _ s h
  after_fault-Replays operation before (other_error e) s h = rolled_back-Replays _ _ s h

  settle_usage-Replays :
      (operation : String) (before : Snapshot) (d : Delta) (result : A)
      (checked : Option BlastRadiusExceeded × RunBlastRadius) (s : Metered W)
      → (checked.0 ≡ none
          → checked.1 ≡ charged s.run (add_all s.run.touched (keys s.meter.namespace d.paths)) d)
      → Replays r0 p0 s
      → Replays r0 p0 (settle_usage files operation before d result checked s).1
  unfolding settle_usage
  settle_usage-Replays operation before d result (some e, run) s c h =
      rolled_back-exceeded _ _ true "" _ s h
  settle_usage-Replays operation before d result (none, run) s c h =
      let m = spent s.meter d in
      let e = blast_radius_usage s.meter.phase s.meter.namespace operation d m run in
      record {
        run_again =
            run_from_events-append r0 s.events e ∙ ap (replay_run e) h.run_again ∙ sym (c refl);
        phase_again =
            phase_from_events-append p0 s.events e
            ∙ ap (replay_phase e) h.phase_again
            ∙ replay_phase-usage s.meter s.meter.namespace operation d m run;
      }

  charge_paths-Replays :
      (operation : String) (before : Snapshot) (d : Delta) (ps : List String) (result : A)
      (s : Metered W)
      → Replays r0 p0 s
      → Replays r0 p0 (charge_paths files operation before d ps result s).1
  unfolding charge_paths
  charge_paths-Replays operation before d [] result s h = h
  charge_paths-Replays operation before d (_ ∷ _) result s h =
      settle_usage-Replays operation before d result _ s
        (check_ceilings-charged s.meter s.run operation d _) h

  measure_after-Replays :
      (operation : String) (before : Snapshot) (result : A) (measured : Result Fault Snapshot)
      (s : Metered W)
      → Replays r0 p0 s
      → Replays r0 p0 (measure_after files operation before result measured s).1
  unfolding measure_after
  measure_after-Replays operation before result (ok after) s h =
      charge_paths-Replays operation before _ _ result s h
  measure_after-Replays operation before result (raise e) s h =
      after_fault-Replays operation before e s h

  after_action-Replays :
      (operation : String) (before : Snapshot) (ran : Result Fault A) (s : Metered W)
      → Replays r0 p0 s
      → Replays r0 p0 (after_action files operation before ran s).1
  unfolding after_action
  after_action-Replays operation before (ok result) s h =
      measure_after-Replays operation before result _ _
        (record { run_again = h.run_again; phase_again = h.phase_again })
  after_action-Replays operation before (raise e) s h = after_fault-Replays operation before e s h

  measure_before-Replays :
      (operation : String) (action : W → Result Fault A × W) (measured : Result Fault Snapshot)
      (s : Metered W)
      → Replays r0 p0 s
      → Replays r0 p0 (measure_before files operation action measured s).1
  unfolding measure_before
  measure_before-Replays operation action (raise (other_error e)) s h = h
  measure_before-Replays operation action (raise (unsupported_entry path)) s h = record {
    run_again = run_from_events-append r0 s.events _ ∙ h.run_again;
    phase_again = phase_from_events-append p0 s.events _ ∙ h.phase_again;
  }
  measure_before-Replays operation action (ok before) s h =
      after_action-Replays operation before _ _
        (record { run_again = h.run_again; phase_again = h.phase_again })

  -- Resuming is exact: where `from_events` makes both meters of the events, it still does so after any
  -- operation of `apply`, whatever comes of it.
  pub apply-Replays :
      (operation : String) (action : W → Result Fault A × W) (s : Metered W)
      → Replays r0 p0 s
      → Replays r0 p0 (apply files operation action s).1
  unfolding apply
  apply-Replays operation action s h =
      measure_before-Replays operation action _ _
        (record { run_again = h.run_again; phase_again = h.phase_again })
