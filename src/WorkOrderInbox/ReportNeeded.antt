-- ===== src/WorkOrderInbox/ReportNeeded.antt =====
-- When `refreshObservation` of scripts/lib/work-order-inbox.mjs asks for a report.
use misa_cybernetic_evolutio.Prelude.{
  ℕ, ◌-◌, String, Bool, true, false, not, ◌&&◌, ◌||◌, ◌≡◌, refl, ap, ◌∙◌, Option, none, some, List,
  [], ◌∷◌, arith, length, length-append, ltb, leb, str_eq, get_or,
}
use misa_cybernetic_evolutio.WorkOrderInbox.Types.{
  Instant, AggregateState, ObservationState, ReportState, Trend, Texts,
}
use misa_cybernetic_evolutio.WorkOrderInbox.Keys.{set_add, set_add_all}
use misa_cybernetic_evolutio.WorkOrderInbox.Observation.{
  is_spike, no_report, trend_of, count_since, short_window_ms, spike_threshold, carried_reasons,
  add_if, has_owner_report, reasons_of, refresh_observation,
}

abbrev is_some_reason : List String → Bool
is_some_reason xs = ltb 0 (length xs)

set_add-is_some_reason : (x : String) (xs : List String) → is_some_reason (set_add x xs) ≡ true
unfolding set_add
set_add-is_some_reason x [] = refl
set_add-is_some_reason x (y ∷ ys) = ground (arith, length-append (y ∷ ys) (x ∷ []))

add_if-is_some_reason :
    (b : Bool) (x : String) (xs : List String)
    → is_some_reason (add_if b x xs) ≡ (b || is_some_reason xs)
add_if-is_some_reason true x xs = set_add-is_some_reason x xs
add_if-is_some_reason false x xs = refl

-- The report that an earlier observation asked for.
unfoldable pub was_needed : Option ObservationState → Bool
was_needed none = false
was_needed (some o) = o.report_needed

carried-is_some_reason :
    (o : Option ObservationState) (new : ℕ)
    → is_some_reason (carried_reasons o new []) ≡ (was_needed o && ltb 0 new)
unfolding was_needed
carried-is_some_reason none new = refl
carried-is_some_reason (some o) new =
    ground (arith, set_add-is_some_reason "pending_owner_report" (set_add_all [] o.report_reasons))

reasons_of-is_some_reason :
    (a : AggregateState) (severity : String) (new : ℕ) (r : ReportState) (trend : Trend)
    → is_some_reason (reasons_of a severity new r trend) ≡ (
        ltb 0 new
        && (was_needed a.observation
            || leb spike_threshold new
            || (not (has_owner_report r) && (str_eq severity "P1" || is_spike trend))))
unfolding reasons_of
reasons_of-is_some_reason a severity new r trend =
    let told = has_owner_report r in
    let carried = carried_reasons a.observation new [] in
    let p1 = ltb 0 new && not told && str_eq severity "P1" in
    let first = add_if p1 "new_p1_open_work_order" carried in
    let spiking = ltb 0 new && is_spike trend && (not told || leb spike_threshold new) in
    let second = add_if spiking "short_window_spike" first in
    add_if-is_some_reason (leb spike_threshold new) "unreported_occurrence_growth" second
    ∙ ap (λ (b : Bool). leb spike_threshold new || b)
        (add_if-is_some_reason spiking "short_window_spike" first
          ∙ ap (λ (b : Bool). spiking || b)
              (add_if-is_some_reason p1 "new_p1_open_work_order" carried
                ∙ ap (λ (b : Bool). p1 || b) (carried-is_some_reason a.observation new)))
    ∙ ground arith

module _ (t : Texts) where
  -- An observation asks for a report exactly where something is new since the last report and either a
  -- report is still pending, or at least five occurrences are new, or the owner has never been told
  -- and the item has severity P1 or spikes.
  pub refresh_observation-report_needed :
      (a : AggregateState) (severity : String) (now : Instant) (added : ℕ)
      → let reported = get_or a.report_state no_report in
        let new = a.occurrence_count - reported.last_reported_occurrence_count in
        let recent = count_since t (get_or a.occurrence_timeline []) short_window_ms now in
        let trend = trend_of a.occurrence_count recent in
        (o : ObservationState) × ((refresh_observation t a severity now added).observation ≡ some o)
        × (o.report_needed ≡ (
            ltb 0 new
            && (was_needed a.observation
                || leb 5 new
                || (not (has_owner_report reported) && (str_eq severity "P1" || is_spike trend)))))
  unfolding refresh_observation
  refresh_observation-report_needed a severity now added =
      (_, refl, reasons_of-is_some_reason a severity _ (get_or a.report_state no_report) _)
