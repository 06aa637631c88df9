-- ===== src/Agent/Budget/Tiers.antt =====
-- The order of the tiers of agent/harness/budget.rs.
use mathlib.Core.Option.{bind}
use piscis_engine.Prelude.{
  ◌≡◌, refl, ℕ, zero, suc, ltb, ltb→lt, ◌⊎◌, inl, inr, Bool-cases, ◌+◌, ◌*◌, ◌^◌, ◌≤◌, ◌<◌, min,
  max, false, none, some, leb, arith,
}
use piscis_engine.Agent.Budget.{
  CompactionTier, uncompacted, micro, auto, full, LayeredBudget, percent_of, with_total, clamp,
  TierPercents, normalize_tier_percents, with_triggers, with_tier_percents, classify,
}

-- The triggers are in order, within the total, so that no later tier starts before an earlier one.
pub record IsTiered (b : LayeredBudget) : Type 0 where
  pub micro_auto : b.trigger_micro ≤ b.trigger_auto
  pub auto_full : b.trigger_auto ≤ b.trigger_full
  pub full_total : b.trigger_full ≤ b.total

mul_mono : (n p q : ℕ) → p ≤ q → n * p ≤ n * q
mul_mono zero p q h = omega arith
mul_mono (suc n) p q h = omega (arith, mul_mono n p q h)

percent_of_mono :
    (total p q : ℕ) → total < 2 ^ 32 → p ≤ q → q ≤ 100 → percent_of total p ≤ percent_of total q
unfolding percent_of
percent_of_mono total p q t h k = omega (arith, mul_mono total p q h, mul_mono total q 100 k)

percent_of_le : (total q : ℕ) → total < 2 ^ 32 → q ≤ 100 → percent_of total q ≤ total
unfolding percent_of
percent_of_le total q t k = omega (arith, mul_mono total q 100 k)

abbrev pub tier_rank : CompactionTier → ℕ
tier_rank uncompacted = 0
tier_rank micro = 1
tier_rank auto = 2
tier_rank full = 3

classify_mono :
    (b : LayeredBudget) (m n : ℕ) → m ≤ n → tier_rank (classify b m) ≤ tier_rank (classify b n)
unfolding classify
classify_mono b m n h = ground arith

clamped :
    (low high n : ℕ) → low ≤ high → (c : ℕ) × (clamp low high n ≡ some c) × (low ≤ c) × (c ≤ high)
unfolding clamp
clamped low high n h =
    (min (max n low) high, ground (arith, h), ground (arith, h), ground (arith, h))

pub record IsOrdered (p : TierPercents) : Type 0 where
  pub micro_auto : p.micro_percent < p.auto_percent
  pub auto_full : p.auto_percent < p.full_percent
  pub full_bound : p.full_percent ≤ 100

no_clamp : (low high n : ℕ) → leb low high ≡ false → clamp low high n ≡ none
unfolding clamp
no_clamp low high n h = rw h refl

micro_fills : (m : ℕ) → ltb m 99 ≡ false → leb (min m 99 + 1) 99 ≡ false
micro_fills m h = ground arith

normalize_tier_percents_lem :
    (m a f : ℕ)
    → ((normalize_tier_percents m a f ≡ none) × (99 ≤ m))
      ⊎ ((p : TierPercents) × (normalize_tier_percents m a f ≡ some p) × (IsOrdered p) × (m < 99))
unfolding normalize_tier_percents bind
normalize_tier_percents_lem m a f = elim (Bool-cases (ltb m 99)) [
  | inl e ↦
      let (x, ex, lx, hx) = clamped (min m 99 + 1) 99 a (ground (arith, e)) in
      let (y, ey, ly, hy) = clamped (x + 1) 100 f (omega (arith, hx)) in
      inr (
        record { micro_percent = min m 99; auto_percent = x; full_percent = y },
        rw (ex, ey) refl,
        record { micro_auto = omega (arith, lx); auto_full = omega (arith, ly); full_bound = hy },
        ltb→lt m 99 e,
      )
  | inr e ↦ inl (rw (no_clamp (min m 99 + 1) 99 a (micro_fills m e)) refl, ground (arith, e))
]

with_total-IsTiered : (total : ℕ) → total < 2 ^ 32 → IsTiered (with_total total)
unfolding with_total
with_total-IsTiered total t = record {
  micro_auto = percent_of_mono total 60 80 t (omega arith) (omega arith);
  auto_full = percent_of_mono total 80 95 t (omega arith) (omega arith);
  full_total = percent_of_le total 95 t (omega arith);
}

-- For a total that is a `u32`, the default triggers are in order within the total. Given any percents,
-- either there are no triggers, which is a panic and happens only for a micro percent of 99 or more,
-- or the three triggers are in order within the total, and a larger request has no earlier tier.
pub with_tier_percents_lem :
    (b : LayeredBudget) (m a f : ℕ) {x y : ℕ}
    → b.total < 2 ^ 32
    → x ≤ y
    → IsTiered (with_total b.total)
      × (((with_tier_percents b m a f ≡ none) × (99 ≤ m))
          ⊎ ((b' : LayeredBudget) × (with_tier_percents b m a f ≡ some b')
              × IsTiered b'
              × (tier_rank (classify b' x) ≤ tier_rank (classify b' y))
              × (m < 99)))
unfolding with_tier_percents bind with_triggers
with_tier_percents_lem b m a f {x} {y} t h = (
  with_total-IsTiered b.total t,
  elim (normalize_tier_percents_lem m a f) [
    | inl (e, l) ↦ inl (rw e refl, l)
    | inr (p, e, o, l) ↦ inr (
      with_triggers b p,
      rw e refl,
      record {
        micro_auto =
            percent_of_mono b.total _ _ t (omega (arith, o.micro_auto))
              (omega (arith, o.auto_full, o.full_bound));
        auto_full = percent_of_mono b.total _ _ t (omega (arith, o.auto_full)) o.full_bound;
        full_total = percent_of_le b.total _ t o.full_bound;
      },
      classify_mono (with_triggers b p) x y h,
      l,
    )
  ],
)
