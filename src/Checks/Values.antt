-- ===== src/Checks/Values.antt =====
-- internal/checks/metrics.go: the values of a metric, their reduction and the comparison with a
-- threshold. Floats are the interface `Floats`, with what k8s.io/apimachinery makes of a Quantity;
-- `%.4f` is `fixed4`.
use automatic_db_upgrades.Common.{
  ℕ, ℤ, String, code, ◌<>◌, ◌≡◌, refl, Bool, true, false, none, some, List, [], ◌∷◌, eqb,
  if◌then◌else◌, is_empty, length,
}
use automatic_db_upgrades.Kube.Objects.{Quantity}
use automatic_db_upgrades.Api.Types.{
  MetricCheck, MetricSource, custom_source, external_source, unset_source, other_source,
  MetricTargetType, pods_target, object_target, external_target, other_target, ThresholdOperator,
  gt, gte, lt, lte, other_operator, ReduceFunction, reduce_max, reduce_avg, reduce_sum, reduce_min,
  other_reduce,
}
use automatic_db_upgrades.Checks.Image.{index, take}

-- float64, and the values of a Quantity.
pub record Floats : Type 1 where
  pub Float : Type 0
  pub zero : Float
  pub add : Float → Float → Float
  pub div : Float → Float → Float
  pub of_ℕ : ℕ → Float
  pub of_ℤ : ℤ → Float
  pub less : Float → Float → Bool
  pub less_eq : Float → Float → Bool
  -- `%.4f`
  pub fixed4 : Float → String
  pub milli_value : Quantity → ℤ
  pub as_approximate_float64 : Quantity → Float
  pub is_zero : Quantity → Bool

abbrev pub operator_text : ThresholdOperator → String
operator_text gt = ">"
operator_text gte = ">="
operator_text lt = "<"
operator_text lte = "<="
operator_text (other_operator s) = s

abbrev pub source_text : MetricSource → String
source_text custom_source = "Custom"
source_text external_source = "External"
source_text unset_source = ""
source_text (other_source s) = s

abbrev pub target_text : MetricTargetType → String
target_text pods_target = "Pods"
target_text object_target = "Object"
target_text external_target = "External"
target_text (other_target s) = s

unfoldable pub contains_slash : String → Bool
contains_slash String.[] = false
contains_slash (String.◌∷◌ c s) =
    let rest = contains_slash s in if eqb (code c) b'/' then true else rest

-- extractGroup: the loop finds the first slash, which is there.
unfoldable pub extract_group : String → String
unfolding contains_slash index take
extract_group api_version =
    if contains_slash api_version
    then elim (index b'/' api_version) [
      | none ↦ take 0 api_version
      | some idx ↦ take idx api_version
    ]
    else ""

groups : (extract_group "apps/v1" ≡ "apps") × (extract_group "v1" ≡ "")
unfolding extract_group
groups = (refl, refl)

module _ (F : Floats) where
  pub record MetricCheckResult : Type 0 where
    pub passed : Bool
    pub message : String
    pub values : List F.Float
    pub reduced_value : F.Float
    pub threshold_value : F.Float

  -- The loops of reduceValues, over the values behind the first.
  unfoldable pub min_from : F.Float → List F.Float → F.Float
  min_from min [] = min
  min_from min (v ∷ vs) = min_from (if F.less v min then v else min) vs

  unfoldable pub max_from : F.Float → List F.Float → F.Float
  max_from max [] = max
  max_from max (v ∷ vs) = max_from (if F.less max v then v else max) vs

  unfoldable pub sum_from : F.Float → List F.Float → F.Float
  sum_from sum [] = sum
  sum_from sum (v ∷ vs) = sum_from (F.add sum v) vs

  unfoldable pub reduce_values : List F.Float → ReduceFunction → F.Float
  reduce_values [] reduce = F.zero
  reduce_values (v ∷ vs) reduce_min = min_from v vs
  reduce_values (v ∷ vs) reduce_sum = sum_from F.zero (v ∷ vs)
  reduce_values (v ∷ vs) reduce_avg = F.div (sum_from F.zero (v ∷ vs)) (F.of_ℕ (length (v ∷ vs)))
  reduce_values (v ∷ vs) reduce_max = max_from v vs
  reduce_values (v ∷ vs) (other_reduce _) = max_from v vs

  unfoldable pub compare_threshold : F.Float → F.Float → ThresholdOperator → Bool
  compare_threshold value threshold gt = F.less threshold value
  compare_threshold value threshold gte = F.less_eq threshold value
  compare_threshold value threshold lt = F.less value threshold
  compare_threshold value threshold lte = F.less_eq value threshold
  compare_threshold value threshold (other_operator _) = false

  -- `float64(item.Value.MilliValue())/1000.0`
  abbrev pub metric_value : Quantity → F.Float
  metric_value q = F.div (F.of_ℤ (F.milli_value q)) (F.of_ℕ 1000)

  abbrev verdict_text : Bool → String
  verdict_text true = " satisfies "
  verdict_text false = " does not satisfy "

  -- What checkSingleMetric makes of the values.
  unfoldable pub judge_values : MetricCheck → List F.Float → MetricCheckResult
  judge_values check values =
      let reduced = reduce_values values check.reduce in
      let threshold = F.as_approximate_float64 check.threshold.value in
      let passed = compare_threshold reduced threshold check.threshold.operator in
      if is_empty values
      then record {
        passed = false;
        message = "No metric values found for " <> check.metric_name;
        values = [];
        reduced_value = F.zero;
        threshold_value = F.zero;
      }
      else record {
        passed = passed;
        message =
            "Metric "
            <> (check.metric_name
                <> (" value "
                    <> (F.fixed4 reduced
                        <> (verdict_text passed
                            <> (operator_text check.threshold.operator
                                <> (" " <> F.fixed4 threshold))))));
        values = values;
        reduced_value = reduced;
        threshold_value = threshold;
      }
