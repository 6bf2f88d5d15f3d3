-- ===== src/Stability/Measurement.antt =====
-- The measurement of scripts/lib/post-deploy-measurement.mjs.
use misa_cybernetic_evolutio.Prelude.{
  ℕ, String, Bool, true, false, not, ◌&&◌, ◌||◌, Option, none, some, List, [], ◌∷◌, ltb, str_eq,
  includes, get_or, if◌then◌else◌, ◌++◌,
}
use misa_cybernetic_evolutio.Stability.Numbers.{Numbers, round}

pub data PostDeployDecision : Type 0 where
  pending confirmed_positive confirmed_negative null_effect : PostDeployDecision

-- What `measurePostDeployTicket` throws; the text is the field that is no finite number.
pub data MeasureError : Type 0 where
  unsupported_direction unsupported_candidate_kind route_mismatch : MeasureError
  not_finite : String → MeasureError

pub data Outcome {ℓ} (A : Type ℓ) : Type ℓ where
  thrown : MeasureError → Outcome A
  returned : A → Outcome A

unfoldable pub and_then {ℓ κ} : {A : Type ℓ} {B : Type κ} → Outcome A → (A → Outcome B) → Outcome B
and_then (thrown e) f = thrown e
and_then (returned a) f = f a

-- A window's value is `none` where it is no natural number.
pub record GivenWindow : Type 0 where
  pub kind : Option String
  pub value : Option ℕ

pub record Window : Type 0 where
  pub kind : String
  pub value : ℕ

abbrev pub candidate_kinds : List String
candidate_kinds = "skill" ∷ "memory" ∷ "case" ∷ "policy" ∷ []

abbrev pub directions : List String
directions = "minimize" ∷ "maximize" ∷ "hold_within" ∷ []

abbrev pub window_kinds : List String
window_kinds = "days" ∷ "sessions" ∷ "samples" ∷ []

abbrev pub window_kind : Option String → String
window_kind none = "sessions"
window_kind (some kind) = if includes window_kinds kind then kind else "sessions"

abbrev pub window_value : Option ℕ → ℕ
window_value none = 50
window_value (some value) = if ltb 0 value then value else 50

unfoldable pub normalize_measurement_window : Option GivenWindow → Window
normalize_measurement_window none = record { kind = "sessions"; value = 50 }
normalize_measurement_window (some w) = record {
  kind = window_kind w.kind;
  value = window_value w.value;
}

abbrev pub is_negative : PostDeployDecision → Bool
is_negative confirmed_negative = true
is_negative _ = false

-- An entry of a ticket's `evidence`: what the measurement at a time adds, or an entry that the
-- packet brought, as a text.
pub data Evidence : Type 0 where
  measured_at brought : String → Evidence

-- `deploy_id` is the text `deploy-${safeId(candidate)}-${safeId(metric)}`.
module _ (n : Numbers) (deploy_id : String → String → String) where
  pub record Ticket : Type 0 where
    pub deployment_id : Option String
    pub candidate_id : String
    pub candidate_kind : String
    pub route_target : Option String
    pub setpoint_metric_id : String
    pub target_value : n.Raw
    pub tolerance : n.Raw
    pub direction : String
    pub pre_deploy_value : n.Raw
    pub post_deploy_value : Option n.Raw
    pub measurement_window : Option GivenWindow
    pub evidence : Option (List Evidence)  -- none where it is no array

  -- Authority and safety are constant, and are left out.
  pub record Measured : Type 0 where
    pub deployment_id : String
    pub candidate_id : String
    pub candidate_kind : String
    pub route_target : String
    pub setpoint_metric_id : String
    pub target_value : n.Num
    pub tolerance : n.Num
    pub direction : String
    pub pre_deploy_value : n.Num
    pub post_deploy_value : Option n.Num
    pub measurement_window : Window
    pub decision_at_window_end : PostDeployDecision
    pub pre_distance_to_target : n.Num
    pub post_distance_to_target : Option n.Num
    pub delta_toward_target : Option n.Num
    pub within_tolerance : Option Bool
    pub rollback_recommended : Bool
    pub damping_recommended : Bool
    pub evidence : List Evidence

  unfoldable pub as_finite_number : n.Raw → String → Outcome n.Num
  as_finite_number value field = elim (n.read value) [
    | none ↦ thrown (not_finite field)
    | some number ↦ returned number
  ]

  unfoldable pub finite_or_null : Option n.Raw → String → Outcome (Option n.Num)
  unfolding as_finite_number and_then
  finite_or_null none field = returned none
  finite_or_null (some value) field =
      and_then (as_finite_number value field) (λ number. returned (some number))

  unfoldable pub distance_to_target : n.Num → n.Num → String → n.Num
  distance_to_target value target direction =
      if str_eq direction "minimize"
      then n.max (n.of_count 0) (n.sub value target)
      else if str_eq direction "maximize"
      then n.max (n.of_count 0) (n.sub target value)
      else n.abs (n.sub value target)

  unfoldable pub classify_delta : n.Num → Option n.Num → n.Num → PostDeployDecision
  classify_delta pre none tolerance = pending
  classify_delta pre (some post) tolerance =
      let delta = n.sub pre post in
      if n.lt tolerance delta || (n.lt tolerance pre && n.le post tolerance)
      then confirmed_positive
      else if n.lt delta (n.neg tolerance)
      then confirmed_negative
      else null_effect

  abbrev pub map_some {ℓ} : {A : Type ℓ} → (n.Num → A) → Option n.Num → Option A
  map_some f none = none
  map_some f (some x) = some (f x)

  -- What is made of a ticket once its fields are checked.
  unfoldable pub measured_ticket :
      (now : String) → Ticket → String → (target tolerance pre : n.Num) → Option n.Num → Measured
  unfolding classify_delta distance_to_target round normalize_measurement_window
  measured_ticket now ticket route target tolerance pre post =
      let distance : n.Num → n.Num =
        λ value. round n (distance_to_target value target ticket.direction) in
      let pre_distance = distance pre in
      let post_distance : Option n.Num = map_some distance post in
      let decision = classify_delta pre_distance post_distance tolerance in
      record {
        deployment_id =
            get_or ticket.deployment_id (deploy_id ticket.candidate_id ticket.setpoint_metric_id);
        candidate_id = ticket.candidate_id;
        candidate_kind = ticket.candidate_kind;
        route_target = route;
        setpoint_metric_id = ticket.setpoint_metric_id;
        target_value = target;
        tolerance = tolerance;
        direction = ticket.direction;
        pre_deploy_value = pre;
        post_deploy_value = post;
        measurement_window = normalize_measurement_window ticket.measurement_window;
        decision_at_window_end = decision;
        pre_distance_to_target = pre_distance;
        post_distance_to_target = post_distance;
        delta_toward_target = map_some (λ d. round n (n.sub pre_distance d)) post_distance;
        within_tolerance = map_some (λ d. n.le d tolerance) post_distance;
        rollback_recommended = is_negative decision;
        damping_recommended = is_negative decision;
        evidence = get_or ticket.evidence [] ++ measured_at now ∷ [];
      }

  -- The reading of the numbers, in the order in which they are read.
  unfoldable pub measure_numbers : (now : String) → Ticket → String → Outcome Measured
  unfolding and_then as_finite_number finite_or_null
  measure_numbers now ticket route =
      and_then (as_finite_number ticket.target_value "target_value") (λ target.
        and_then (as_finite_number ticket.tolerance "tolerance") (λ tolerance.
          and_then (as_finite_number ticket.pre_deploy_value "pre_deploy_value") (λ pre.
            and_then (finite_or_null ticket.post_deploy_value "post_deploy_value") (λ post.
              returned (
                measured_ticket now ticket route target (n.max (n.of_count 0) tolerance) pre
                  post)))))

  unfoldable pub measure_post_deploy_ticket : (now : String) → Ticket → Outcome Measured
  unfolding measure_numbers
  measure_post_deploy_ticket now ticket =
      let route = get_or ticket.route_target ticket.candidate_kind in
      if not (includes directions ticket.direction)
      then thrown unsupported_direction
      else if not (includes candidate_kinds ticket.candidate_kind)
      then thrown unsupported_candidate_kind
      else if not (str_eq route ticket.candidate_kind)
      then thrown route_mismatch
      else measure_numbers now ticket route
