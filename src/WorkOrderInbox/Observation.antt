-- ===== src/WorkOrderInbox/Observation.antt =====
-- `refreshObservation` of scripts/lib/work-order-inbox.mjs: the trend of an aggregate, and whether
-- its owner is to be told.
use misa_cybernetic_evolutio.Prelude.{
  ℕ, ◌+◌, ◌-◌, String, Bool, true, false, not, ◌&&◌, ◌||◌, Option, none, some, List, [], filter,
  length, ltb, leb, ◌==◌, str_eq, if◌then◌else◌, get_or, truthy,
}
use misa_cybernetic_evolutio.WorkOrderInbox.Types.{
  Instant, CompactOccurrence, Trend, quiet, first, recurring, spike, ObservationState, ReportState,
  AggregateState, Texts,
}
use misa_cybernetic_evolutio.WorkOrderInbox.Keys.{set_add, set_add_all}

abbrev pub short_window_ms : ℕ
short_window_ms = 3600000

abbrev pub daily_window_ms : ℕ
daily_window_ms = 86400000

abbrev pub recurring_threshold : ℕ
recurring_threshold = 2

abbrev pub spike_threshold : ℕ
spike_threshold = 5

abbrev pub is_spike : Trend → Bool
is_spike spike = true
is_spike _ = false

abbrev pub no_report : ReportState
no_report = record {
  last_reported_at = none;
  last_reported_occurrence_count = 0;
  last_report_digest_id = none;
}

unfoldable pub trend_of : (occurrence_count recent : ℕ) → Trend
trend_of occurrence_count recent =
    if occurrence_count == 1
    then first
    else if leb spike_threshold recent
    then spike
    else if leb recurring_threshold occurrence_count
    then recurring
    else quiet

-- What an earlier observation that asked for a report still asks for.
abbrev pub carried_reasons : Option ObservationState → ℕ → List String → List String
carried_reasons none new reasons = reasons
carried_reasons (some o) new reasons =
    if o.report_needed && ltb 0 new
    then set_add "pending_owner_report" (set_add_all reasons o.report_reasons)
    else reasons

abbrev pub add_if : Bool → String → List String → List String
add_if test reason reasons = if test then set_add reason reasons else reasons

abbrev pub is_some_time : Option String → Bool
is_some_time none = false
is_some_time (some s) = truthy s

abbrev pub has_owner_report : ReportState → Bool
has_owner_report r = ltb 0 r.last_reported_occurrence_count || is_some_time r.last_reported_at

unfoldable pub reasons_of : AggregateState → String → (new : ℕ) → ReportState → Trend → List String
reasons_of a severity new reported trend =
    let told = has_owner_report reported in
    add_if (leb spike_threshold new) "unreported_occurrence_growth" (
      add_if (ltb 0 new && is_spike trend && (not told || leb spike_threshold new))
        "short_window_spike"
        (add_if (ltb 0 new && not told && str_eq severity "P1") "new_p1_open_work_order"
          (carried_reasons a.observation new [])))

module _ (t : Texts) where
  -- `seen >= now - window`, with no difference that could be negative.
  abbrev pub seen_within : ℕ → Instant → CompactOccurrence → Bool
  seen_within window now o = elim o.seen_at [
    | none ↦ false
    | some at ↦ elim (t.time_ms at) [ none ↦ false | some seen ↦ leb now.ms (seen + window) ]
  ]

  unfoldable pub count_since : List CompactOccurrence → ℕ → Instant → ℕ
  count_since timeline window now = length (filter (seen_within window now) timeline)

  -- The difference stops at 0, as `Math.max(0, …)` does.
  unfoldable pub refresh_observation : AggregateState → String → Instant → ℕ → AggregateState
  unfolding count_since trend_of reasons_of
  refresh_observation a severity now added =
      let timeline = get_or a.occurrence_timeline [] in
      let short = count_since timeline short_window_ms now in
      let daily = count_since timeline daily_window_ms now in
      let reported = get_or a.report_state no_report in
      let new = a.occurrence_count - reported.last_reported_occurrence_count in
      let trend = trend_of a.occurrence_count short in
      let reasons = reasons_of a severity new reported trend in
      record a {
        report_state = some reported;
        observation = some (record {
          trend = trend;
          report_needed = ltb 0 (length reasons);
          report_reasons = reasons;
          added_occurrence_count = added;
          new_since_last_report = new;
          last_observed_at = now.iso;
          short_count = short;
          daily_count = daily;
        });
      }
