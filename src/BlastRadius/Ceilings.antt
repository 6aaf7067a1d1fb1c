-- ===== src/BlastRadius/Ceilings.antt =====
-- What `PhaseBlastRadius.apply` leaves of the meters and of the workspace, however it ends.
use harnessie.Prelude.{
  ℕ, ◌≡◌, ◌⊎◌, inl, inr, refl, String, Option, none, some, List, [], ◌∷◌, length, Result, ok, raise,
}
use harnessie.BlastRadius.Files.{
  FileSystem, Fault, unsupported_entry, other_error, snapshot, restore,
}
use harnessie.BlastRadius.Meters.{
  Snapshot, Delta, BlastRadiusExceeded, RunBlastRadius, breach, reserved, reserve,
}
use harnessie.BlastRadius.Apply.{
  PhaseBlastRadius, BlastEvent, Metered, Applied, applied, exceeded, failed, restore_failed, spent,
  check_ceilings, rolled_back, settle_usage, charge_paths, after_fault, measure_after, after_action,
  measure_before, apply,
}

abbrev pub RunWithin : RunBlastRadius → Type 0
RunWithin m = breach m.limits (length m.touched) m.edits m.bytes_written ≡ none

abbrev pub PhaseWithin : PhaseBlastRadius → Type 0
PhaseWithin m = breach m.limits (length m.touched) m.edits m.bytes_written ≡ none

reserved-RunWithin :
    (meter later : RunBlastRadius) (phase : String) (found : Option (String × ℕ × ℕ))
    → RunWithin meter
    → (found ≡ none → RunWithin later)
    → RunWithin (reserved meter later phase found).1
unfolding reserved
reserved-RunWithin meter later phase none h k = k refl
reserved-RunWithin meter later phase (some v) h k = h

check_ceilings-RunWithin :
    (meter : PhaseBlastRadius) (run : RunBlastRadius) (operation : String) (d : Delta)
    (found : Option (String × ℕ × ℕ))
    → RunWithin run
    → RunWithin (check_ceilings meter run operation d found).1
unfolding check_ceilings reserve
check_ceilings-RunWithin meter run operation d (some v) h = h
check_ceilings-RunWithin meter run operation d none h =
    reserved-RunWithin run _ meter.phase _ h (λ e. e)

-- What the phase's ceiling refuses is refused.
check_ceilings-none :
    (meter : PhaseBlastRadius) (run : RunBlastRadius) (operation : String) (d : Delta)
    (found : Option (String × ℕ × ℕ))
    → (check_ceilings meter run operation d found).0 ≡ none
    → found ≡ none
unfolding check_ceilings
check_ceilings-none meter run operation d none h = refl
check_ceilings-none meter run operation d (some v) h = cc

abbrev pub MetersKept : {W : Type 0} → Metered W → Metered W → Type 0
MetersKept s t = (t.meter ≡ s.meter) × (t.run ≡ s.run)

module _ {W : Type 0} (files : FileSystem W) where
  -- The workspace was measured before the operation, with this result.
  abbrev pub Measured : Metered W → Snapshot → Type 0
  Measured s before = (w : W) × (snapshot files s.world ≡ (ok before, w))

  -- The workspace behind an operation that is not accepted: the operation did not run, since the workspace
  -- could not be measured; or what was measured before it has been restored without an error.
  abbrev pub RolledBack : Metered W → Metered W → Type 0
  RolledBack s t =
      ((e : Fault) × (snapshot files s.world ≡ (raise e, t.world)))
      ⊎ ((before : Snapshot) × Measured s before
          × ((w : W) × (restore files before w ≡ (ok tt, t.world))))

module _ {W : Type 0} (A : Type 0) (files : FileSystem W) where
  -- An operation that is accepted keeps both meters within their ceilings; any other leaves both
  -- meters as they were, and unless the rollback itself raised, it is rolled back.
  abbrev pub Metes : Metered W → Applied A × Metered W → Type 0
  Metes s (applied result, t) = PhaseWithin t.meter × RunWithin t.run
  Metes s (exceeded e, t) = MetersKept s t × RolledBack files s t
  Metes s (failed e, t) = MetersKept s t × RolledBack files s t
  Metes s (restore_failed e, t) =
      MetersKept s t
      × ((before : Snapshot) × Measured files s before
          × ((w : W) × (restore files before w ≡ (raise e, t.world))))

  -- The exceptions that a rollback stands before.
  abbrev IsRefusal : Applied A → Type 0
  IsRefusal (exceeded e) = Unit
  IsRefusal (failed e) = Unit
  IsRefusal _ = ⊥

  rolled_back-Metes :
      (outcome : Applied A) (events : List BlastEvent) (before : Snapshot)
      (restored : Result String Unit × W) (s t : Metered W)
      → IsRefusal outcome
      → Measured files s before
      → restore files before t.world ≡ restored
      → MetersKept s t
      → Metes s (rolled_back files outcome events restored t)
  unfolding rolled_back
  rolled_back-Metes outcome events before (raise e, w) s t r b h m = (m, (before, b, (t.world, h)))
  rolled_back-Metes (exceeded x) events before (ok u, w) s t r b h m =
      (m, inr (before, b, (t.world, h)))
  rolled_back-Metes (failed x) events before (ok u, w) s t r b h m =
      (m, inr (before, b, (t.world, h)))
  rolled_back-Metes (applied x) events before (ok u, w) s t r b h m = absurd r
  rolled_back-Metes (restore_failed x) events before (ok u, w) s t r b h m = absurd r

  settle_usage-Metes :
      (operation : String) (before : Snapshot) (d : Delta) (result : A)
      (checked : Option BlastRadiusExceeded × RunBlastRadius) (s t : Metered W)
      → Measured files s before
      → MetersKept s t
      → (checked.0 ≡ none → PhaseWithin (spent t.meter d))
      → RunWithin checked.1
      → Metes s (settle_usage files operation before d result checked t)
  unfolding settle_usage
  settle_usage-Metes operation before d result (some e, run) s t b m p q =
      rolled_back-Metes (exceeded _) _ before _ s t tt b refl m
  settle_usage-Metes operation before d result (none, run) s t b m p q = (p refl, q)

  charge_paths-Metes :
      (operation : String) (before : Snapshot) (d : Delta) (ps : List String) (result : A)
      (s t : Metered W)
      → Measured files s before
      → MetersKept s t
      → PhaseWithin t.meter
      → RunWithin t.run
      → Metes s (charge_paths files operation before d ps result t)
  unfolding charge_paths
  charge_paths-Metes operation before d [] result s t b m p q = (p, q)
  charge_paths-Metes operation before d (_ ∷ _) result s t b m p q =
      settle_usage-Metes operation before d result _ s t b m
        (λ e. check_ceilings-none t.meter t.run operation d _ e)
        (check_ceilings-RunWithin t.meter t.run operation d _ q)

  after_fault-Metes :
      (operation : String) (before : Snapshot) (e : Fault) (s t : Metered W)
      → Measured files s before
      → MetersKept s t
      → Metes s (after_fault files operation before e t)
  unfolding after_fault
  after_fault-Metes operation before (unsupported_entry path) s t b m =
      rolled_back-Metes (exceeded _) _ before _ s t tt b refl m
  after_fault-Metes operation before (other_error e) s t b m =
      rolled_back-Metes (failed e) _ before _ s t tt b refl m

  measure_after-Metes :
      (operation : String) (before : Snapshot) (result : A) (measured : Result Fault Snapshot)
      (s t : Metered W)
      → Measured files s before
      → MetersKept s t
      → PhaseWithin t.meter
      → RunWithin t.run
      → Metes s (measure_after files operation before result measured t)
  unfolding measure_after
  measure_after-Metes operation before result (ok after) s t b m p q =
      charge_paths-Metes operation before _ _ result s t b m p q
  measure_after-Metes operation before result (raise e) s t b m p q =
      after_fault-Metes operation before e s t b m

  after_action-Metes :
      (operation : String) (before : Snapshot) (ran : Result Fault A) (s t : Metered W)
      → Measured files s before
      → MetersKept s t
      → PhaseWithin t.meter
      → RunWithin t.run
      → Metes s (after_action files operation before ran t)
  unfolding after_action
  after_action-Metes operation before (ok result) s t b m p q =
      measure_after-Metes operation before result (snapshot files t.world).0 s
        (record t { world = (snapshot files t.world).1 }) b m p q
  after_action-Metes operation before (raise e) s t b m p q =
      after_fault-Metes operation before e s t b m

  measure_before-Metes :
      (operation : String) (action : W → Result Fault A × W) (measured : Result Fault Snapshot)
      (s : Metered W) (w : W)
      → snapshot files s.world ≡ (measured, w)
      → PhaseWithin s.meter
      → RunWithin s.run
      → Metes s (measure_before files operation action measured (record s { world = w }))
  unfolding measure_before
  measure_before-Metes operation action (raise (unsupported_entry path)) s w b p q =
      ((refl, refl), inl (unsupported_entry path, b))
  measure_before-Metes operation action (raise (other_error e)) s w b p q =
      ((refl, refl), inl (other_error e, b))
  measure_before-Metes operation action (ok before) s w b p q =
      after_action-Metes operation before _ s _ (w, b) (refl, refl) p q

  -- From meters within their ceilings: an operation that `apply` accepts leaves them within their
  -- ceilings. Any other leaves both meters as they were; it either did not run, since the workspace could
  -- not be measured, or it ends with the restoring of the snapshot that was taken before it ran, which
  -- raised nothing, or whose own error is then what `apply` raises.
  pub apply-Metes :
      (operation : String) (action : W → Result Fault A × W) (s : Metered W)
      → PhaseWithin s.meter
      → RunWithin s.run
      → Metes s (apply files operation action s)
  unfolding apply
  apply-Metes operation action s p q =
      measure_before-Metes operation action (snapshot files s.world).0 s (snapshot files s.world).1
        refl p q
