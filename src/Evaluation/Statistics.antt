-- ===== src/Evaluation/Statistics.antt =====
-- The paired comparison of two genomes (src/neuroforge/evaluation/statistics.py). What numpy computes,
-- the mean, the standard deviation of a sample and the bootstrap, is a parameter.
use neuro_forge.Base.{
  ℕ, Bool, not, ◌&&◌, List, [], ◌∷◌, length, ltb as nat_ltb, nat_eq, if◌then◌else◌, Result, ok,
  ◌>>◌, raise_if,
}
use neuro_forge.Base.Float
use neuro_forge.Base.Float.{Floats}
use neuro_forge.Evaluation.Metrics.{
  Conclusion, likely_improvement, likely_regression, inconclusive, ComparisonResult,
}

pub record Numerics (fl : Floats) : Type 0 where
  pub mean : List fl.F → fl.F
  -- `std(ddof=1)`
  pub std : List fl.F → fl.F
  -- `bootstrap_ci` with its confidence and its seed.
  pub bootstrap_ci : List fl.F → fl.F → ℕ → fl.F × fl.F

pub data CompareError : Type 0 where
  not_paired too_few_samples : CompareError

module _ (fl : Floats) where
  open fl use {F, dec, sub, div, neg, ltb, round_to}

  -- `c - b`, element by element.
  unfoldable pub paired_diffs : List F → List F → List F
  paired_diffs [] cs = []
  paired_diffs (b ∷ bs) [] = []
  paired_diffs (b ∷ bs) (c ∷ cs) = sub c b ∷ paired_diffs bs cs

  abbrev pub is_zero : F → Bool
  is_zero x = not (ltb x (Float.f_zero fl)) && not (ltb (Float.f_zero fl) x)

  -- `float(b.mean()) or 1e-9`
  abbrev pub or_tiny : F → F
  or_tiny x = if is_zero x then dec 1 9 else x

  abbrev pub better_bounds : F → F → F → Bool
  better_bounds low_rel relative_diff least =
      ltb (Float.f_zero fl) low_rel && Float.leb fl least relative_diff

  abbrev pub worse_bounds : F → F → F → Bool
  worse_bounds high_rel relative_diff least =
      ltb high_rel (Float.f_zero fl) && Float.leb fl relative_diff (neg least)

  unfoldable pub conclude : F → F → F → F → Conclusion
  conclude low_rel high_rel relative_diff least =
      if better_bounds low_rel relative_diff least
      then likely_improvement
      else if worse_bounds high_rel relative_diff least
      then likely_regression
      else inconclusive

  module _ (np : Numerics fl) where
    unfoldable pub compared : List F → List F → F → F → ℕ → ComparisonResult F
    compared baseline_scores candidate_scores least confidence seed =
        let diffs = paired_diffs baseline_scores candidate_scores in
        let mean_diff = np.mean diffs in
        let scale = Float.abs fl (or_tiny (np.mean baseline_scores)) in
        let relative_diff = div mean_diff scale in
        let pooled_std = if nat_ltb 1 (length diffs) then np.std diffs else Float.f_zero fl in
        let effect_size =
          if ltb (dec 1 9) pooled_std then div mean_diff pooled_std else Float.f_zero fl in
        let (ci_low, ci_high) = np.bootstrap_ci diffs confidence seed in
        let low_rel = div ci_low scale in
        let high_rel = div ci_high scale in
        record {
          mean_diff = round_to 6 mean_diff;
          relative_diff = round_to 6 relative_diff;
          ci_low = round_to 6 low_rel;
          ci_high = round_to 6 high_rel;
          effect_size = round_to 4 effect_size;
          confidence = confidence;
          conclusion = conclude low_rel high_rel relative_diff least;
        }

    unfoldable pub compare : List F → List F → F → F → ℕ → Result CompareError (ComparisonResult F)
    compare baseline_scores candidate_scores least confidence seed = do
      raise_if (not (nat_eq (length baseline_scores) (length candidate_scores))) not_paired
      raise_if (nat_ltb (length baseline_scores) 2) too_few_samples
      ok (compared baseline_scores candidate_scores least confidence seed)
