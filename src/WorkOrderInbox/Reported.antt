-- ===== src/WorkOrderInbox/Reported.antt =====
-- What has been reported to the owner: `refreshObservation` and `markItemReported` of
-- scripts/lib/work-order-inbox.mjs after a report.
use misa_cybernetic_evolutio.Prelude.{
  ℕ, ◌-◌, String, false, ◌≡◌, refl, ap, sym, ◌∙◌, Option, none, some, List, [], eq_iff, arith,
  length, ltb, get_or, subst,
}
use misa_cybernetic_evolutio.WorkOrderInbox.Types.{
  Instant, Item, AggregateState, ObservationState, ReportState, Trend, Texts,
}
use misa_cybernetic_evolutio.WorkOrderInbox.Observation.{
  reasons_of, refresh_observation, carried_reasons, no_report, trend_of, count_since,
  short_window_ms,
}
use misa_cybernetic_evolutio.WorkOrderInbox.Aggregate.{
  ensured_aggregate, ensured_from, ensure_aggregate, kept_aggregate, timeline_of,
}
use misa_cybernetic_evolutio.WorkOrderInbox.Export.{needs_report}
use misa_cybernetic_evolutio.WorkOrderInbox.Digest.{
  new_count_of, recorded, reported_aggregate, mark_item_reported,
}
use misa_cybernetic_evolutio.WorkOrderInbox.Known.{ensured_aggregate-group}

carried_nothing : (o : Option ObservationState) → carried_reasons o 0 [] ≡ []
carried_nothing none = refl
carried_nothing (some o) = ground arith

-- With nothing new there is no reason for a report.
reasons_of_nothing :
    (a : AggregateState) (severity : String) (reported : ReportState) (trend : Trend)
    → reasons_of a severity 0 reported trend ≡ []
unfolding reasons_of
reasons_of_nothing a severity reported trend = carried_nothing a.observation

-- What is needed for nothing to be new: the report state counts what the aggregate counts.
abbrev IsReported : AggregateState → Type 0
IsReported a =
    (r : ReportState) × (a.report_state ≡ some r)
    × (r.last_reported_occurrence_count ≡ a.occurrence_count)

abbrev IsQuiet : AggregateState → Type 0
IsQuiet a =
    (o : ObservationState) × (a.observation ≡ some o)
    × (o.report_needed ≡ false)
    × (o.new_since_last_report ≡ 0)

module _ (t : Texts) where
  abbrev trend : AggregateState → Instant → Trend
  trend a n =
      trend_of a.occurrence_count
        (count_since t (get_or a.occurrence_timeline []) short_window_ms n)

  refresh-IsQuiet :
      (a : AggregateState) (severity : String) (n : Instant) (added : ℕ)
      → IsReported a
      → IsQuiet (refresh_observation t a severity n added)
        × IsReported (refresh_observation t a severity n added)
  unfolding refresh_observation
  refresh-IsQuiet a severity n added r =
      let reported = get_or a.report_state no_report in
      let counted : reported.last_reported_occurrence_count ≡ a.occurrence_count =
        ap (λ o. (get_or o no_report).last_reported_occurrence_count) r.1 ∙ r.2 in
      let new : a.occurrence_count - reported.last_reported_occurrence_count ≡ 0 =
        omega (arith, counted) in
      (
        (
          _,
          refl,
          ap (λ (xs : List String). ltb 0 (length xs))
              (ap (λ (x : ℕ). reasons_of a severity x reported (trend a n)) new
                ∙ reasons_of_nothing a severity reported (trend a n)),
          new,
        ),
        (reported, refl, counted),
      )

  IsQuiet-needs_report :
      (item : Item) (a : AggregateState)
      → item.aggregate ≡ some a
      → IsQuiet a
      → (needs_report item ≡ false) × (new_count_of item ≡ 0)
  IsQuiet-needs_report item a e q = ground (arith, e, q.1, q.2, q.3)

  -- An aggregate of its own group keeps its report state whenever it is looked at.
  ensured-IsReported :
      (item : Item) (a : AggregateState) (c n : Instant)
      → item.aggregate ≡ some a
      → a.group_key ≡ item.dedupe_group_key
      → IsReported a
      → IsQuiet (ensured_aggregate t item c n) × IsReported (ensured_aggregate t item c n)
  unfolding ensured_aggregate kept_aggregate
  ensured-IsReported item a c n e g r =
      subst (λ o. IsQuiet (ensured_from t item c n o) × IsReported (ensured_from t item c n o))
        (sym e)
        (rw ((eq_iff a.group_key item.dedupe_group_key).1 g) (
          refresh-IsQuiet (record a { occurrence_timeline = some (timeline_of t item a) })
            item.severity n 0 r))

  reported_aggregate-IsReported :
      (item : Item) (id : String) (c n : Instant)
      → IsQuiet (reported_aggregate t item id c n) × IsReported (reported_aggregate t item id c n)
  unfolding reported_aggregate
  reported_aggregate-IsReported item id c n =
      let a = ensured_aggregate t item c n in
      refresh-IsQuiet (recorded a id n) item.severity n 0 (_, refl, refl)

  reported_aggregate-group :
      (item : Item) (id : String) (c n : Instant)
      → (reported_aggregate t item id c n).group_key ≡ item.dedupe_group_key
  unfolding reported_aggregate refresh_observation
  reported_aggregate-group item id c n = ensured_aggregate-group t item c n

  -- An item that has been reported needs no report, neither then nor when it is looked at at any
  -- later time, as long as nothing is merged into it: nothing of it is new.
  pub mark_item_reported-needs_report :
      (item : Item) (id : String) (c n d m : Instant)
      → let marked = mark_item_reported t item id c n in
        let later = ensure_aggregate t marked d m in
        (needs_report marked ≡ false)
        × (needs_report later ≡ false)
        × (new_count_of marked ≡ 0)
        × (new_count_of later ≡ 0)
  unfolding mark_item_reported
  mark_item_reported-needs_report item id c n d m =
      let marked = mark_item_reported t item id c n in
      let a = reported_aggregate t item id c n in
      let now = reported_aggregate-IsReported item id c n in
      let later =
        ensured-IsReported marked a d m refl (reported_aggregate-group item id c n) now.1 in
      let quiet_now = IsQuiet-needs_report marked a refl now.0 in
      let quiet_later =
        IsQuiet-needs_report (ensure_aggregate t marked d m) (ensured_aggregate t marked d m) refl
          later.0 in
      (quiet_now.0, quiet_later.0, quiet_now.1, quiet_later.1)
