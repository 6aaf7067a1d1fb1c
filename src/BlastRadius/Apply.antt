-- ===== src/BlastRadius/Apply.antt =====
-- `PhaseBlastRadius.apply`, and the meters read back from events.
use harnessie.Prelude.{
  ℕ, ◌+◌, String, Option, none, some, List, [], ◌∷◌, ◌++◌, Bool, true, false, if◌then◌else◌, str_eq,
  length, Result, ok, raise,
}
use harnessie.BlastRadius.Files.{
  FileSystem, Fault, unsupported_entry, other_error, snapshot, restore,
}
use harnessie.BlastRadius.Meters.{
  BlastRadiusLimits, Snapshot, Delta, BlastRadiusExceeded, RunBlastRadius, delta, breach, add_all,
  keys, reserve,
}

pub record PhaseBlastRadius : Type 0 where
  pub phase : String
  pub namespace : String
  pub limits : BlastRadiusLimits
  pub touched : List String
  pub edits : ℕ
  pub bytes_written : ℕ

-- The paths of a usage are a set; the code writes them in order.
pub data BlastEvent : Type 0 where
  blast_radius_exceeded :
      BlastRadiusExceeded → (rolled_back : Bool) → (detail : String) → BlastEvent
  blast_radius_usage :
      (phase namespace operation : String) → Delta → PhaseBlastRadius → RunBlastRadius → BlastEvent

-- The phase's meter, the run's meter, the events, and the workspace.
pub record Metered (W : Type 0) : Type 0 where
  pub meter : PhaseBlastRadius
  pub run : RunBlastRadius
  pub events : List BlastEvent
  pub world : W

-- What `apply` comes to: the action's value, a ceiling, an exception of the action or of a measurement, or
-- the OSError of a rollback.
pub data Applied (A : Type 0) : Type 0 where
  applied : A → Applied A
  exceeded : BlastRadiusExceeded → Applied A
  failed : String → Applied A
  restore_failed : String → Applied A

abbrev pub unmeasured : PhaseBlastRadius → String → BlastRadiusExceeded
unmeasured meter operation = record {
  scope = "phase";
  counter = "workspace_measurement";
  count = 1;
  limit = 0;
  phase = meter.phase;
  operation = operation;
}

abbrev pub spent : PhaseBlastRadius → Delta → PhaseBlastRadius
spent meter d = record meter {
  touched = add_all meter.touched d.paths;
  edits = meter.edits + d.edits;
  bytes_written = meter.bytes_written + d.bytes_written;
}

-- The test of the phase's ceilings, then of the run's: what is exceeded, and the run's meter.
unfoldable pub check_ceilings :
    PhaseBlastRadius
    → RunBlastRadius
    → String
    → Delta
    → Option (String × ℕ × ℕ)
    → Option BlastRadiusExceeded × RunBlastRadius
check_ceilings meter run operation d (some (counter, count, limit)) = (
  some (record {
    scope = "phase";
    counter = counter;
    count = count;
    limit = limit;
    phase = meter.phase;
    operation = operation;
  }),
  run,
)
check_ceilings meter run operation d none = reserve meter.namespace meter.phase d run

abbrev report : {W : Type 0} → BlastEvent → Metered W → Metered W
report e s = record s { events = s.events ++ e ∷ [] }

module _ {W A : Type 0} (files : FileSystem W) where
  -- An exception behind the rollback, with its event; the rollback's own comes first.
  unfoldable pub rolled_back :
      Applied A → List BlastEvent → Result String Unit × W → Metered W → Applied A × Metered W
  rolled_back outcome events (raise e, w) s = (restore_failed e, record s { world = w })
  rolled_back outcome events (ok u, w) s =
      (outcome, record s { world = w; events = s.events ++ events })

  -- The part behind the ceilings: a rollback, or both meters move.
  unfoldable pub settle_usage :
      String
      → Snapshot
      → Delta
      → A
      → Option BlastRadiusExceeded × RunBlastRadius
      → Metered W
      → Applied A × Metered W
  settle_usage operation before d result (some e, run) s =
      let named = record e { phase = s.meter.phase; operation = operation } in
      rolled_back (exceeded named) (blast_radius_exceeded named true "" ∷ [])
        (restore files before s.world) s
  settle_usage operation before d result (none, run) s =
      let meter = spent s.meter d in
      (
        applied result,
        report (blast_radius_usage meter.phase meter.namespace operation d meter run)
            (record s { meter = meter; run = run }),
      )

  unfoldable pub charge_paths :
      String → Snapshot → Delta → List String → A → Metered W → Applied A × Metered W
  charge_paths operation before d [] result s = (applied result, s)
  charge_paths operation before d (p ∷ ps) result s =
      let later = spent s.meter d in
      settle_usage operation before d result
        (check_ceilings s.meter s.run operation d
          (breach s.meter.limits (length later.touched) later.edits later.bytes_written))
        s

  -- The two `except` clauses around the action and the second snapshot.
  unfoldable pub after_fault : String → Snapshot → Fault → Metered W → Applied A × Metered W
  after_fault operation before (unsupported_entry path) s =
      rolled_back (exceeded (unmeasured s.meter operation))
        (blast_radius_exceeded (unmeasured s.meter operation) true path ∷ [])
        (restore files before s.world) s
  after_fault operation before (other_error e) s =
      rolled_back (failed e) [] (restore files before s.world) s

  -- The snapshot behind the action.
  unfoldable pub measure_after :
      String → Snapshot → A → Result Fault Snapshot → Metered W → Applied A × Metered W
  measure_after operation before result (ok after) s =
      let d = delta before after in charge_paths operation before d d.paths result s
  measure_after operation before result (raise e) s = after_fault operation before e s

  -- What the action came to; any exception of its own rolls back.
  unfoldable pub after_action :
      String → Snapshot → Result Fault A → Metered W → Applied A × Metered W
  after_action operation before (ok result) s =
      let (measured, w) = snapshot files s.world in
      measure_after operation before result measured (record s { world = w })
  after_action operation before (raise e) s = after_fault operation before e s

  unfoldable pub measure_before :
      String → (W → Result Fault A × W) → Result Fault Snapshot → Metered W → Applied A × Metered W
  measure_before operation action (raise (unsupported_entry path)) s = (
    exceeded (unmeasured s.meter operation),
    report (blast_radius_exceeded (unmeasured s.meter operation) false path) s,
  )
  measure_before operation action (raise (other_error e)) s = (failed e, s)
  measure_before operation action (ok before) s =
      let (result, w) = action s.world in
      after_action operation before result (record s { world = w })

  -- `PhaseBlastRadius.apply`
  unfoldable pub apply : String → (W → Result Fault A × W) → Metered W → Applied A × Metered W
  apply operation action s =
      let (measured, w) = snapshot files s.world in
      measure_before operation action measured (record s { world = w })

abbrev pub replay_run : BlastEvent → RunBlastRadius → RunBlastRadius
replay_run (blast_radius_exceeded _ _ _) meter = meter
replay_run (blast_radius_usage phase namespace _ d _ _) meter = record meter {
  touched = add_all meter.touched (keys namespace d.paths);
  edits = meter.edits + d.edits;
  bytes_written = meter.bytes_written + d.bytes_written;
}

-- `RunBlastRadius.from_events`, from a meter on.
unfoldable pub run_from_events : RunBlastRadius → List BlastEvent → RunBlastRadius
run_from_events meter [] = meter
run_from_events meter (e ∷ es) = run_from_events (replay_run e meter) es

abbrev pub replay_phase : BlastEvent → PhaseBlastRadius → PhaseBlastRadius
replay_phase (blast_radius_exceeded _ _ _) meter = meter
replay_phase (blast_radius_usage phase _ _ d _ _) meter =
    if str_eq phase meter.phase then spent meter d else meter

-- `PhaseBlastRadius.from_events`, from a meter on.
unfoldable pub phase_from_events : PhaseBlastRadius → List BlastEvent → PhaseBlastRadius
phase_from_events meter [] = meter
phase_from_events meter (e ∷ es) = phase_from_events (replay_phase e meter) es
