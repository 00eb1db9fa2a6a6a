-- ===== src/Loadgen/Summary.antt =====
-- internal/loadgen/report.go, `Summary`: the percentile spread of one metric. A rounded
-- millisecond value is an integer of tenths.
use callstorm.Prelude.{ℕ, suc, ◌+◌, ◌*◌, ◌/◌, ℤ, pos, negsuc, List, [], ◌∷◌, length}
use callstorm.Metrics.Mirror.{neg, microseconds}
use callstorm.Metrics.Percentile.{percentile, fifty, ninety, ninety_five, ninety_nine, hundred}

-- `math.Round` of a quotient: halves away from zero.
abbrev pub round_ℕ : ℕ → ℕ → ℕ
round_ℕ a b = (2 * a + b) / (2 * b)

unfoldable pub round_div : ℤ → ℕ → ℤ
round_div (pos a) b = pos (round_ℕ a b)
round_div (negsuc a) b = neg (round_ℕ (suc a) b)

pub record Summary : Type 0 where
  pub n : ℕ
  pub p50_ms : ℤ
  pub p90_ms : ℤ
  pub p95_ms : ℤ
  pub p99_ms : ℤ
  pub max_ms : ℤ
  pub p95_raw : ℤ

abbrev pub no_summary : Summary
no_summary = record {
  n = 0;
  p50_ms = pos 0;
  p90_ms = pos 0;
  p95_ms = pos 0;
  p99_ms = pos 0;
  max_ms = pos 0;
  p95_raw = pos 0;
}

unfoldable pub tenths : ℤ → ℤ
unfolding round_div microseconds
tenths d = round_div (microseconds d) 100

unfoldable pub summarize : List ℤ → Summary
unfolding tenths percentile
summarize [] = no_summary
summarize (d ∷ ds) = record {
  n = length (d ∷ ds);
  p50_ms = tenths (percentile fifty (d ∷ ds));
  p90_ms = tenths (percentile ninety (d ∷ ds));
  p95_ms = tenths (percentile ninety_five (d ∷ ds));
  p99_ms = tenths (percentile ninety_nine (d ∷ ds));
  max_ms = tenths (percentile hundred (d ∷ ds));
  p95_raw = percentile ninety_five (d ∷ ds);
}
