-- ===== src/Verify/Defs.antt =====
-- The data of harness/verify.py, and `run_checks`.
use harnessie.Prelude.{
  ℕ, String, ◌<>◌, List, [], ◌∷◌, Bool, true, false, ◌&&◌, if◌then◌else◌, clip, ℤ, pos, ◌==◌,
}

pub record Check : Type 0 where
  pub name : String
  pub command : String
  pub timeout : ℕ

pub record CheckResult : Type 0 where
  pub name : String
  pub passed : Bool
  pub output : String
  pub terminal : Bool

pub record ClaimVerdict : Type 0 where
  pub claim_id : String
  pub status : String
  pub required : Bool
  pub reason : String
  pub evidence : List String

pub record Verdict : Type 0 where
  pub passed : Bool
  pub reasons : String
  pub source : String
  pub overall_status : String
  pub claims : List ClaimVerdict

abbrev pub claim_statuses : List String
claim_statuses = "reproduced" ∷ "refuted" ∷ "not_verifiable" ∷ []

-- `Verdict` with three arguments: `__post_init__` fills the overall status.
abbrev pub verdict : Bool → String → String → Verdict
verdict passed reasons source = record {
  passed = passed;
  reasons = reasons;
  source = source;
  overall_status = if passed then "verified" else "failed";
  claims = [];
}

-- What the run of a check's command comes to: its exit code with its output, or an exception.
pub data CheckRun : Type 0 where
  completed : ℤ → String → CheckRun
  sandbox_unavailable : String → CheckRun
  blast_radius_exceeded : (detail : String) → CheckRun
  failed_to_run : String → CheckRun

-- `apply_check` runs a command in the sandbox and, where there is one, inside the phase's blast
-- radius. `record_check` saves the proof under its first line and emits the event. The others are text operations of
-- Python: `strip`, and whether a text is part of another.
pub record CheckWorld (W : Type 0) : Type 0 where
  pub apply_check : Check → W → CheckRun × W
  pub record_check : String → CheckResult → ℕ → W → W
  pub strip : String → String
  pub contains : String → String → Bool

abbrev is_sandbox_exit : ℤ → Bool
is_sandbox_exit (pos n) = n == 71
is_sandbox_exit _ = false

abbrev is_success : ℤ → Bool
is_success (pos n) = n == 0
is_success _ = false

module _ {W : Type 0} (outside : CheckWorld W) where
  -- The result of a check, from what its run came to.
  unfoldable pub result_of : String → CheckRun → CheckResult
  result_of name (completed code out) =
      let output = clip 50000 out in
      if is_sandbox_exit code && outside.contains output "sandbox_apply"
      then record {
        name = name;
        passed = false;
        output = "sandbox unavailable, check blocked (fail-closed): " <> outside.strip output;
        terminal = false;
      }
      else record { name = name; passed = is_success code; output = output; terminal = false }
  result_of name (sandbox_unavailable e) = record {
    name = name;
    passed = false;
    output = "sandbox unavailable, check blocked (fail-closed): " <> e;
    terminal = false;
  }
  result_of name (blast_radius_exceeded detail) = record {
    name = name;
    passed = false;
    output = detail;
    terminal = true;
  }
  result_of name (failed_to_run e) = record {
    name = name;
    passed = false;
    output = "check failed to run: " <> e;
    terminal = false;
  }

  -- The loop over the checks; a terminal result ends it.
  unfoldable pub run_checks : List Check → ℕ → W → List CheckResult × W
  run_checks [] attempt w = ([], w)
  run_checks (check ∷ checks) attempt w =
      let (ran, w') = outside.apply_check check w in
      let result = result_of check.name ran in
      let recorded = outside.record_check ("$ " <> check.command) result attempt w' in
      let rest = run_checks checks attempt recorded in
      if result.terminal then (result ∷ [], recorded) else (result ∷ rest.0, rest.1)
