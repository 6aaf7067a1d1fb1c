-- ===== src/Ledger/Limits.antt =====
-- The ceilings of scripts/pilot_ledger.py under each operation of the ledger.
use harnessie.Prelude.{
  ℕ, ◌+◌, ◌≤◌, ◌≡◌, refl, subst, String, Option, none, some, Bool, true, false, leb, str_eq, eq_iff,
  arith, Bool-cases, inl, inr,
}
use harnessie.Prelude.Values.{Value, Fields}
use harnessie.Ledger.Defs.{
  Usage, total, LedgerLimits, AttemptState, Attempt, JournalData, RunLedger, Step, done, refused,
  then_do, Disk, append, append_with, halt, halt_with, halt_and_refuse, halted_if, refused_if,
  close_with,
}
use harnessie.Ledger.Attempts.{
  take_receipt, bump, begin_attempt, within_ceilings, reserve_at, reserve, with_active,
  require_active, dispatch_attempt, conclude, account, finish,
}

module _ (disk : Disk) (limits : LedgerLimits) where
  -- The calls are within the ceilings; and so is what was spent, unless the ledger has halted.
  pub record Within (s : RunLedger) : Type 0 where
    pub calls_within : (participant : String) → s.calls participant ≤ limits.calls participant
    pub stages_within : (stage : String) → s.stage_calls stage ≤ limits.calls_per_stage
    pub spent_within :
        s.halted ≡ false
        → (total s.usage ≤ limits.total_tokens)
          × (s.haiku_input_tokens ≤ limits.haiku_input_tokens)
          × (s.haiku_output_tokens ≤ limits.haiku_output_tokens)

  abbrev pub end_state : Step → RunLedger
  end_state (done s) = s
  end_state (refused reason s) = s

  pub record Safe (step : Step) : Type 0 where
    pub within : Within (end_state step)

  -- A halted ledger whose calls are within the ceilings.
  halted-Within :
      (s : RunLedger)
      → ((participant : String) → s.calls participant ≤ limits.calls participant)
      → ((stage : String) → s.stage_calls stage ≤ limits.calls_per_stage)
      → s.halted ≡ true
      → Within s
  halted-Within s c st h = record {
    calls_within = c;
    stages_within = st;
    spent_within = λ f. cc (h, f);
  }

  append_with-Safe :
      (b : Bool) (d : JournalData) (s : RunLedger) (k : RunLedger → Step)
      → Within s
      → ((t : RunLedger)
          → t.calls ≡ s.calls
          → t.stage_calls ≡ s.stage_calls
          → Within t
          → Safe (k t))
      → Safe (then_do (append_with disk b d s) k)
  unfolding append_with
  append_with-Safe false d s k w f = record {
    within = halted-Within _ w.calls_within w.stages_within refl;
  }
  append_with-Safe true d s k w f = f _ refl refl (record {
    calls_within = w.calls_within;
    stages_within = w.stages_within;
    spent_within = w.spent_within;
  })

  append-Safe :
      (d : JournalData) (s : RunLedger) (k : RunLedger → Step)
      → Within s
      → ((t : RunLedger)
          → t.calls ≡ s.calls
          → t.stage_calls ≡ s.stage_calls
          → Within t
          → Safe (k t))
      → Safe (then_do (append disk d s) k)
  unfolding append
  append-Safe d s k w f = append_with-Safe _ d s k w f

  refuse_halted :
      (b : Bool) (d : JournalData) (reason : String) (s : RunLedger)
      → ((participant : String) → s.calls participant ≤ limits.calls participant)
      → ((stage : String) → s.stage_calls stage ≤ limits.calls_per_stage)
      → s.halted ≡ true
      → Safe (then_do (append_with disk b d s) (λ t. refused reason t))
  unfolding append_with
  refuse_halted false d reason s c st h = record { within = halted-Within _ c st refl }
  refuse_halted true d reason s c st h = record { within = halted-Within _ c st h }

  halt_with-Safe :
      (b : Bool) (reason : String) (s : RunLedger)
      → s.halted ≡ b
      → ((participant : String) → s.calls participant ≤ limits.calls participant)
      → ((stage : String) → s.stage_calls stage ≤ limits.calls_per_stage)
      → Safe (then_do (halt_with disk b reason s) (λ t. refused reason t))
  unfolding halt_with append
  halt_with-Safe true reason s e c st = record { within = halted-Within _ c st e }
  halt_with-Safe false reason s e c st = refuse_halted _ _ reason _ c st refl

  halt_and_refuse-Safe :
      (reason : String) (s : RunLedger)
      → ((participant : String) → s.calls participant ≤ limits.calls participant)
      → ((stage : String) → s.stage_calls stage ≤ limits.calls_per_stage)
      → Safe (halt_and_refuse disk reason s)
  unfolding halt_and_refuse halt
  halt_and_refuse-Safe reason s c st = halt_with-Safe s.halted reason s refl c st

  halted_if-Safe :
      (b : Bool) (reason : String) (s : RunLedger) (next : Step)
      → ((participant : String) → s.calls participant ≤ limits.calls participant)
      → ((stage : String) → s.stage_calls stage ≤ limits.calls_per_stage)
      → (b ≡ false → Safe next)
      → Safe (halted_if disk b reason s next)
  unfolding halted_if
  halted_if-Safe true reason s next c st f = halt_and_refuse-Safe reason s c st
  halted_if-Safe false reason s next c st f = f refl

  refused_if-Safe :
      (b : Bool) (reason : String) (s : RunLedger) (next : Step)
      → Within s
      → (b ≡ false → Safe next)
      → Safe (refused_if b reason s next)
  unfolding refused_if
  refused_if-Safe true reason s next w f = record { within = w }
  refused_if-Safe false reason s next w f = f refl

  append_halted :
      (b : Bool) (d : JournalData) (s : RunLedger)
      → ((participant : String) → s.calls participant ≤ limits.calls participant)
      → ((stage : String) → s.stage_calls stage ≤ limits.calls_per_stage)
      → s.halted ≡ true
      → Safe (append_with disk b d s)
  unfolding append_with
  append_halted false d s c st h = record { within = halted-Within _ c st refl }
  append_halted true d s c st h = record { within = halted-Within _ c st h }

  pub halt-Safe :
      (b : Bool) (reason : String) (s : RunLedger) → Within s → Safe (halt_with disk b reason s)
  unfolding halt_with append
  halt-Safe true reason s w = record { within = w }
  halt-Safe false reason s w = append_halted _ _ _ w.calls_within w.stages_within refl

  bump-within :
      (key : String) (f g : String → ℕ)
      → leb (g key) (f key) ≡ false
      → ((k : String) → f k ≤ g k)
      → (k : String) → bump key f k ≤ g k
  bump-within key f g below h k = elim (Bool-cases (str_eq key k)) [
    | inl e ↦ rw e (subst (λ j. f j + 1 ≤ g j) ((eq_iff key k).0 e) (ground (arith, below)))
    | inr e ↦ rw e (h k)
  ]

  begin_attempt-Safe :
      (stage participant : String) (i : ℕ) (s : RunLedger)
      → leb (limits.calls participant) (s.calls participant) ≡ false
      → leb limits.calls_per_stage (s.stage_calls stage) ≡ false
      → Within s
      → Safe (begin_attempt disk limits stage participant i s)
  unfolding begin_attempt
  begin_attempt-Safe stage participant i s c st w =
      append-Safe _ s _ w (λ t same_calls same_stages wt. record {
        within = record {
          calls_within =
              bump-within participant t.calls limits.calls (rw same_calls c) wt.calls_within;
          stages_within =
              bump-within stage t.stage_calls (λ k. limits.calls_per_stage) (rw same_stages st)
                wt.stages_within;
          spent_within = wt.spent_within;
        };
      })

  within_ceilings-Safe :
      (stage participant : String) (i : ℕ) (s : RunLedger)
      → Within s
      → Safe (within_ceilings disk limits stage participant i s)
  unfolding within_ceilings
  within_ceilings-Safe stage participant i s w =
      halted_if-Safe _ _ s _ w.calls_within w.stages_within (λ a.
        halted_if-Safe _ _ s _ w.calls_within w.stages_within (λ b.
          halted_if-Safe _ _ s _ w.calls_within w.stages_within (λ c.
            halted_if-Safe _ _ s _ w.calls_within w.stages_within (λ d.
              halted_if-Safe _ _ s _ w.calls_within w.stages_within
                (λ e. begin_attempt-Safe stage participant i s d e w)))))

  reserve_at-Safe :
      (stage participant : String) (found : Option ℕ) (s : RunLedger)
      → Within s
      → Safe (reserve_at disk limits stage participant found s)
  unfolding reserve_at
  reserve_at-Safe stage participant none s w = record { within = w }
  reserve_at-Safe stage participant (some i) s w =
      refused_if-Safe _ _ s _ w
        (λ a. refused_if-Safe _ _ s _ w (λ b. within_ceilings-Safe stage participant i s w))

  pub reserve-Safe :
      (stage participant : String) (s : RunLedger)
      → Within s
      → Safe (reserve disk limits stage participant s)
  unfolding reserve
  reserve-Safe stage participant s w = refused_if-Safe _ _ s _ w (λ a.
      refused_if-Safe _ _ s _ w
        (λ b. refused_if-Safe _ _ s _ w (λ c. reserve_at-Safe stage participant _ s w)))

  with_active-Safe :
      (attempt_id : ℕ) (state : AttemptState) (found : Option Attempt) (s : RunLedger)
      (k : Attempt → Step)
      → Within s
      → ((a : Attempt) → Safe (k a))
      → Safe (with_active disk limits attempt_id state found s k)
  unfolding with_active
  with_active-Safe attempt_id state none s k w f = record { within = w }
  with_active-Safe attempt_id state (some a) s k w f =
      refused_if-Safe _ _ s _ w (λ _. refused_if-Safe _ _ s _ w (λ _. f a))

  require_active-Safe :
      (attempt_id : ℕ) (state : AttemptState) (s : RunLedger) (k : Attempt → Step)
      → Within s
      → ((a : Attempt) → Safe (k a))
      → Safe (require_active disk limits attempt_id state s k)
  unfolding require_active
  require_active-Safe attempt_id state s k w f =
      refused_if-Safe _ _ s _ w (λ _. with_active-Safe attempt_id state s.active s k w f)

  pub dispatch_attempt-Safe :
      (attempt_id : ℕ) (s : RunLedger) → Within s → Safe (dispatch_attempt disk limits attempt_id s)
  unfolding dispatch_attempt
  dispatch_attempt-Safe attempt_id s w = require_active-Safe attempt_id _ s _ w (λ a.
      append-Safe _ s _ w (λ t _ _ wt. record {
        within = record {
          calls_within = wt.calls_within;
          stages_within = wt.stages_within;
          spent_within = wt.spent_within;
        };
      }))

  conclude-Safe :
      (attempt_id : ℕ) (accepted : Bool) (usage : Usage) (helper : ℕ × ℕ) (s : RunLedger)
      → Within s
      → Safe (conclude disk limits attempt_id accepted usage helper s)
  unfolding conclude halt
  conclude-Safe attempt_id true usage helper s w =
      append-Safe _ s _ w (λ t _ _ wt. record { within = wt })
  conclude-Safe attempt_id false usage helper s w =
      append-Safe _ s _ w (λ t _ _ wt. halt-Safe t.halted _ t wt)

  account-Safe :
      (attempt_id : ℕ) (accepted : Bool) (usage : Option Usage) (helper : Option (ℕ × ℕ))
      (s : RunLedger)
      → Within s
      → Safe (account disk limits attempt_id accepted usage helper s)
  unfolding account
  account-Safe attempt_id accepted none helper s w =
      halt_and_refuse-Safe _ _ w.calls_within w.stages_within
  account-Safe attempt_id accepted (some usage) none s w =
      halt_and_refuse-Safe _ _ w.calls_within w.stages_within
  account-Safe attempt_id accepted (some usage) (some helper) s w =
      halted_if-Safe _ _ _ _ w.calls_within w.stages_within (λ a.
        halted_if-Safe _ _ _ _ w.calls_within w.stages_within (λ b.
          halted_if-Safe _ _ _ _ w.calls_within w.stages_within (λ c.
            conclude-Safe attempt_id accepted usage helper _ (record {
              calls_within = w.calls_within;
              stages_within = w.stages_within;
              spent_within = λ _. (ground (arith, a), ground (arith, b), ground (arith, c));
            }))))

  take_receipt-Safe :
      (attempt_id : ℕ) (receipt : Option (Fields × Bool)) (s : RunLedger)
      → Within s
      → Safe (take_receipt disk limits attempt_id receipt s)
  unfolding take_receipt
  take_receipt-Safe attempt_id none s w = halt_and_refuse-Safe _ s w.calls_within w.stages_within
  take_receipt-Safe attempt_id (some (receipt, accepted)) s w = append-Safe _ s _ w (λ t _ _ wt.
      account-Safe attempt_id accepted _ _ _ (record {
        calls_within = wt.calls_within;
        stages_within = wt.stages_within;
        spent_within = wt.spent_within;
      }))

  pub finish-Safe :
      (attempt_id : ℕ) (receipt accepted : Value) (s : RunLedger)
      → Within s
      → Safe (finish disk limits attempt_id receipt accepted s)
  unfolding finish
  finish-Safe attempt_id receipt accepted s w =
      require_active-Safe attempt_id _ s _ w (λ a. take_receipt-Safe attempt_id _ s w)

  pub close-Safe :
      (closed is_open synced : Bool) (s : RunLedger)
      → Within s
      → Safe (close_with closed is_open synced s)
  unfolding close_with
  close-Safe true is_open synced s w = record { within = w }
  close-Safe false false synced s w = record {
    within = record {
      calls_within = w.calls_within;
      stages_within = w.stages_within;
      spent_within = w.spent_within;
    };
  }
  close-Safe false true true s w = record {
    within = record {
      calls_within = w.calls_within;
      stages_within = w.stages_within;
      spent_within = w.spent_within;
    };
  }
  close-Safe false true false s w = record {
    within = record {
      calls_within = w.calls_within;
      stages_within = w.stages_within;
      spent_within = w.spent_within;
    };
  }
