-- ===== src/Agent/Budget.antt =====
-- agent/harness/budget.rs, with the input budget of llm/mod.rs: the tiers of compaction.
pub mod Tiers
use mathlib.Core.Option.{bind}
use piscis_engine.Prelude.{
  ℕ, suc, ◌+◌, ◌-◌, ◌*◌, ◌/◌, ◌%◌, ◌^◌, min, max, Bool, Option, none, some, ◌==◌, ltb, leb,
  if◌then◌else◌, Text, text,
}

pub data CompactionTier : Type 0 where
  uncompacted : CompactionTier
  micro : CompactionTier
  auto : CompactionTier
  full : CompactionTier

unfoldable pub tier_name : CompactionTier → Text
tier_name uncompacted = text "none"
tier_name micro = text "micro"
tier_name auto = text "auto"
tier_name full = text "full"

pub record LayeredBudget : Type 0 where
  pub total : ℕ
  pub trigger_micro : ℕ
  pub trigger_auto : ℕ
  pub trigger_full : ℕ
  pub max_tool_result_tokens : ℕ

abbrev pub default_tier_micro_percent : ℕ
default_tier_micro_percent = 60

abbrev pub default_tier_auto_percent : ℕ
default_tier_auto_percent = 80

abbrev pub default_tier_full_percent : ℕ
default_tier_full_percent = 95

abbrev pub default_max_tool_result_tokens : ℕ
default_max_tool_result_tokens = 8000

-- The product is in `u64`, which holds that of a `u32` and a `u8`.
unfoldable pub percent_of : ℕ → ℕ → ℕ
percent_of total pct = (total * pct / 100) % 2 ^ 32

unfoldable pub with_total : ℕ → LayeredBudget
unfolding percent_of
with_total total = record {
  total = total;
  trigger_micro = percent_of total default_tier_micro_percent;
  trigger_auto = percent_of total default_tier_auto_percent;
  trigger_full = percent_of total default_tier_full_percent;
  max_tool_result_tokens = default_max_tool_result_tokens;
}

-- `clamp`, which panics when the least value is above the greatest.
unfoldable pub clamp : ℕ → ℕ → ℕ → Option ℕ
clamp low high n = if leb low high then some (min (max n low) high) else none

pub record TierPercents : Type 0 where
  pub micro_percent : ℕ
  pub auto_percent : ℕ
  pub full_percent : ℕ

-- Without the debug assertion, as in a release build: `none` is a panic of `clamp`.
unfoldable pub normalize_tier_percents : ℕ → ℕ → ℕ → Option TierPercents
unfolding clamp
normalize_tier_percents m a f =
    let m' = min m 99 in
    bind (clamp (m' + 1) 99 a) λ a'.
      bind (clamp (a' + 1) 100 f)
        λ f'. some (record { micro_percent = m'; auto_percent = a'; full_percent = f' })

unfoldable pub with_triggers : LayeredBudget → TierPercents → LayeredBudget
unfolding percent_of
with_triggers b p = record {
  total = b.total;
  trigger_micro = percent_of b.total p.micro_percent;
  trigger_auto = percent_of b.total p.auto_percent;
  trigger_full = percent_of b.total p.full_percent;
  max_tool_result_tokens = b.max_tool_result_tokens;
}

unfoldable pub with_tier_percents : LayeredBudget → ℕ → ℕ → ℕ → Option LayeredBudget
unfolding normalize_tier_percents with_triggers
with_tier_percents b m a f = bind (normalize_tier_percents m a f) λ p. some (with_triggers b p)

unfoldable pub with_max_tool_result_tokens : LayeredBudget → ℕ → LayeredBudget
with_max_tool_result_tokens b v = record {
  total = b.total;
  trigger_micro = b.trigger_micro;
  trigger_auto = b.trigger_auto;
  trigger_full = b.trigger_full;
  max_tool_result_tokens = if v == 0 then 0 else min (max v 1000) 64000;
}

unfoldable pub classify : LayeredBudget → ℕ → CompactionTier
classify b estimated =
    if b.total == 0
    then uncompacted
    else if leb b.trigger_full estimated
    then full
    else if leb b.trigger_auto estimated
    then auto
    else if leb b.trigger_micro estimated
    then micro
    else uncompacted

-- The window that is assumed when none is configured.
unfoldable pub assumed_window : ℕ → ℕ
assumed_window max_tokens =
    if leb 8192 max_tokens then 128000 else if leb 4096 max_tokens then 64000 else 32000

-- `share n` is `(n as f64 * 0.85) as usize`.
module _ (share : ℕ → ℕ) where
  unfoldable pub compute_total_input_budget : ℕ → ℕ → ℕ
  unfolding assumed_window
  compute_total_input_budget context_window max_tokens =
      let window = if ltb 0 context_window then context_window else assumed_window max_tokens in
      share (window - min max_tokens (window / 4))

  unfoldable pub compute_context_budget : ℕ → ℕ → ℕ
  unfolding compute_total_input_budget
  compute_context_budget context_window max_tokens =
      compute_total_input_budget context_window max_tokens - 3000

  unfoldable pub from_context_window : ℕ → ℕ → LayeredBudget
  unfolding compute_total_input_budget with_total
  from_context_window context_window max_tokens =
      with_total (compute_total_input_budget context_window max_tokens % 2 ^ 32)
