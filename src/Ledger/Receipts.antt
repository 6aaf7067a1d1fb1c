-- ===== src/Ledger/Receipts.antt =====
-- What a receipt of a call says of its usage.
use harnessie.Prelude.{ℕ, ◌+◌, String, Option, none, some, pos}
use harnessie.Prelude.Values.{Value, int, obj, Fields, get}
use harnessie.Ledger.Defs.{Usage}

abbrev pub haiku_model : String
haiku_model = "claude-haiku-4-5-20251001"

-- `type(value) is int and value >= 0`
abbrev count : Option Value → Option ℕ
count (some (int (pos n))) = some n
count _ = none

abbrev all_four : Option ℕ → Option ℕ → Option ℕ → Option ℕ → Option Usage
all_four (some input) (some output) (some creation) (some cached) = some (record {
  input_tokens = input;
  output_tokens = output;
  cache_creation_input_tokens = creation;
  cache_read_input_tokens = cached;
})
all_four _ _ _ _ = none

-- The four counters of a mapping, if all of them are there.
unfoldable pub counters : Option Value → Option Usage
counters (some (obj usage)) =
    all_four (count (get "input_tokens" usage)) (count (get "output_tokens" usage))
      (count (get "cache_creation_input_tokens" usage))
      (count (get "cache_read_input_tokens" usage))
counters _ = none

-- `_usage_from`
unfoldable pub usage_from : Fields → Option Usage
usage_from receipt = counters (get "usage" receipt)

abbrev helper_counts : Option Usage → Option (ℕ × ℕ)
helper_counts none = none
helper_counts (some u) =
    some
      (u.input_tokens + u.cache_creation_input_tokens + u.cache_read_input_tokens, u.output_tokens)

-- A receipt that does not name the helper model counts nothing for it.
abbrev of_helper : Option Value → Option (ℕ × ℕ)
of_helper none = some (0, 0)
of_helper (some usage) = helper_counts (counters (some usage))

-- `_haiku_usage`
unfoldable pub haiku_usage : Option Value → Option (ℕ × ℕ)
haiku_usage (some (obj models)) = of_helper (get haiku_model models)
haiku_usage _ = none
