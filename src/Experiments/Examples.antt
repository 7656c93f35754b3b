-- ===== src/Experiments/Examples.antt =====
-- The search's limits on a candidate, in fixed-point numbers.
use neuro_forge.Base.{◌≡◌, refl, true, false, not, ◌&&◌, none}
use neuro_forge.Base.Int.{pos, ◌+ℤ◌, ◌-ℤ◌}
use neuro_forge.Base.Float.Fixed.{fixed, fixed-Laws}
use neuro_forge.Evaluation.Metrics.{get_or, put, as_dict}
use neuro_forge.Promotion.Safety.{check_safety, safety_violations, tightened}
use neuro_forge.Promotion.Gates.{safety_verdict, fractional_increase}
use neuro_forge.Promotion.Decision.{gates_hold}
use neuro_forge.Promotion.Examples.{baseline, candidate, default_gates, default_limits}
use neuro_forge.Experiments.Limits.{search_gates, is_feasible, violation_of}
use neuro_forge.Experiments.Limits.Feasible.{search_limits_sound, feasible-iff-gates}

feasible-iff-gates_example :
    is_feasible fixed (violation_of fixed baseline candidate default_gates default_limits) false
    ≡ (gates_hold fixed baseline candidate default_gates default_limits none && not false)
feasible-iff-gates_example =
    feasible-iff-gates fixed fixed-Laws baseline candidate default_gates default_limits false

search_limits_sound_example :
    gates_hold fixed baseline candidate default_gates default_limits none ≡ true
unfolding ◌+ℤ◌ ◌-ℤ◌ get_or put as_dict check_safety safety_violations tightened safety_verdict
    fractional_increase search_gates
search_limits_sound_example =
    search_limits_sound fixed fixed-Laws baseline candidate default_gates default_limits (pos 20000)
      (pos 30000) (record { quality_le_one = refl; safety_le_one = refl; rate_nonneg = refl }) refl
      refl refl
