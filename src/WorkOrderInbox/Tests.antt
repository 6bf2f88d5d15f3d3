-- ===== src/WorkOrderInbox/Tests.antt =====
-- The inbox of scripts/lib/work-order-inbox.mjs on concrete reviews.
use misa_cybernetic_evolutio.WorkOrderInbox.Listing.{reported_keys, paths_listed}
use misa_cybernetic_evolutio.WorkOrderInbox.Observation.{
  no_report, count_since, short_window_ms, trend_of, refresh_observation, has_owner_report,
  is_spike,
}
use misa_cybernetic_evolutio.WorkOrderInbox.Sets.{IsUnique}
use misa_cybernetic_evolutio.WorkOrderInbox.Known.{known_keys}
use misa_cybernetic_evolutio.Prelude.{
  String, true, false, ◌≡◌, refl, inl, inr, none, some, List, [], ◌∷◌, str_eq, if◌then◌else◌,
  Bool-cases, truthy, get_or, length, ◌+◌, ◌-◌, ◌++◌, ◌&&◌, ◌||◌, not, includes, ltb, leb, map,
}
use mathlib.Core.List.{Perm}
use misa_cybernetic_evolutio.WorkOrderInbox.Types.{
  Instant, FailedSession, Order, Review, Item, Entry, AggregateState, Texts, ObservationState,
}
use misa_cybernetic_evolutio.WorkOrderInbox.Aggregate.{ensured_aggregate}
use misa_cybernetic_evolutio.WorkOrderInbox.Merge.{merge_into_existing_item}
use misa_cybernetic_evolutio.WorkOrderInbox.Export.{
  normalize_inbox_item, export_review, export_summary, start_of, export_item,
}
use misa_cybernetic_evolutio.WorkOrderInbox.Digest.{owner_digest, export_owner_digest, paths_of}
use misa_cybernetic_evolutio.WorkOrderInbox.Merging.{merge_again}
use misa_cybernetic_evolutio.WorkOrderInbox.Counted.{merge-counts_keys}
use misa_cybernetic_evolutio.WorkOrderInbox.InStep.{
  start_of-IsInStep, export_item-IsInStep, IsInStep,
}
use misa_cybernetic_evolutio.WorkOrderInbox.Cover.{normalize-IsSettled, group_of}
use misa_cybernetic_evolutio.WorkOrderInbox.Covering.{are_apart, is_free}
use misa_cybernetic_evolutio.WorkOrderInbox.Again.{export_review-export_review}
use misa_cybernetic_evolutio.WorkOrderInbox.Counts.{export_review-counts}
use misa_cybernetic_evolutio.WorkOrderInbox.Bounds.{merge-IsBounded, IsBounded}
use misa_cybernetic_evolutio.WorkOrderInbox.Shown.{export_owner_digest-owner_digest}
use misa_cybernetic_evolutio.WorkOrderInbox.ReportNeeded.{
  refresh_observation-report_needed, was_needed,
}

abbrev or_none : String → String
or_none s = if truthy s then s else "none"

truthy-or_none : (s : String) → truthy (or_none s) ≡ true
truthy-or_none s = elim (Bool-cases (truthy s)) [ inl h ↦ rw h h | inr h ↦ rw h refl ]

abbrev sample_texts : Texts
sample_texts = record {
  lower = λ s. s;
  contains = str_eq;
  other_class = or_none;
  mixed_class = λ classes. "mixed";
  occurrence_hash = λ group session class reason. or_none (get_or session reason);
  finding_key = λ finding title class. class;
  exact_key = λ key. key;
  source_hash = λ order. or_none (get_or order.title "");
  generated_id = λ title hash. hash;
  path_of = λ severity title hash. hash;
  digest_id = λ iso. iso;
  time_ms = λ s. if str_eq s "noon" then some 43200000 else none;
  text_le = λ a b. true;
  locale_le = λ a b. true;
}

abbrev noon : Instant
noon = record { iso = "noon"; ms = 43200000 }

abbrev later : Instant
later = record { iso = "later"; ms = 43200500 }

abbrev session : String → String → FailedSession
session id reason = record { session_id = some id; reason = some reason }

abbrev sessions_order : List FailedSession → Order
sessions_order sessions = record {
  finding_id = some "session-distiller-failed-session";
  work_order_id = none;
  title = some "sessions";
  severity = some "P1";
  problem_statement = none;
  failed_sessions = sessions;
  recommended_next_actions = [];
}

abbrev plain_order : Order
plain_order = record {
  finding_id = some "slow-query";
  work_order_id = some "wo-1";
  title = some "slow";
  severity = none;
  problem_statement = some "queries are slow";
  failed_sessions = [];
  recommended_next_actions = [];
}

abbrev one_session : List FailedSession
one_session = session "a" "http 504" ∷ []

abbrev two_sessions : List FailedSession
two_sessions = session "a" "http 504" ∷ session "b" "openai_error" ∷ []

abbrev review_of : List Order → Review
review_of orders = record {
  created_at = some "noon";
  review_file = none;
  repair_work_orders = orders;
}

abbrev item_of : List FailedSession → Item
item_of sessions =
    normalize_inbox_item sample_texts (sessions_order sessions) (review_of []) none noon noon

abbrev first_disk : List Entry
first_disk =
    (export_review sample_texts [] (review_of (sessions_order one_session ∷ [])) none noon
      noon).disk

abbrev both : Review
both = review_of (sessions_order two_sessions ∷ plain_order ∷ [])

-- The second session is merged into the open item, and the other order is written.
export_both :
    export_summary (export_review sample_texts first_disk both none later later) ≡ record {
      written_count = 1;
      merged_existing_count = 1;
      skipped_existing_count = 0;
      inbox_count = 2;
      report_needed_count = 1;
      spike_count = 0;
    }
unfolding export_summary export_review
export_both = refl

export_review-export_review_example :
    let once = export_review sample_texts first_disk both none later later in
    let twice = export_review sample_texts once.disk both none noon noon in
    (twice.disk ≡ once.disk) × (twice.written ≡ []) × (twice.merged_existing ≡ [])
unfolding export_review are_apart is_free
export_review-export_review_example =
    export_review-export_review sample_texts
      (λ group session class reason. truthy-or_none (get_or session reason))
      (λ order. truthy-or_none (get_or order.title "")) first_disk both both none none later later
      noon noon (refl, tt) refl refl refl

export_review-counts_example :
    let after = export_review sample_texts first_disk both none later later in
    let s = export_summary after in
    Perm (reported_keys after) (map (group_of sample_texts) both.repair_work_orders)
    × Perm (paths_of after.disk) (paths_listed after.written ++ paths_of first_disk)
    × (s.written_count + s.merged_existing_count + s.skipped_existing_count ≡ 2)
    × (s.inbox_count ≡ length first_disk + s.written_count)
export_review-counts_example = export_review-counts sample_texts first_disk both none later later

merge_again_example :
    let merged =
      merge_into_existing_item sample_texts
        (item_of one_session)
        (item_of two_sessions)
        noon
        later in
    let twice =
      merge_into_existing_item sample_texts merged.item (item_of two_sessions) noon later in
    (twice.changed ≡ false)
    × (twice.added_occurrence_count ≡ 0)
    × (known_keys sample_texts twice.item ≡ known_keys sample_texts merged.item)
merge_again_example =
    merge_again sample_texts (item_of one_session) (item_of two_sessions) (item_of two_sessions)
      noon later noon later refl

merge-counts_keys_example :
    (b : AggregateState) × ((merge_into_existing_item sample_texts
        (item_of one_session)
        (item_of two_sessions)
        noon
        later).item.aggregate
      ≡ some b)
    × (b.occurrence_count ≡ length b.occurrence_keys)
    × IsUnique b.occurrence_keys
unfolding merge_into_existing_item normalize_inbox_item
merge-counts_keys_example =
    merge-counts_keys sample_texts (item_of one_session) (item_of two_sessions) noon later refl

merge-IsBounded_example :
    (b : AggregateState) × ((merge_into_existing_item sample_texts
        (item_of one_session)
        (item_of two_sessions)
        noon
        later).item.aggregate
      ≡ some b)
    × IsBounded b
unfolding merge_into_existing_item normalize_inbox_item
merge-IsBounded_example =
    merge-IsBounded sample_texts (item_of one_session) (item_of two_sessions) noon later refl

export_item-IsInStep_example : IsInStep sample_texts (
    export_item sample_texts
      (start_of sample_texts first_disk noon)
      (item_of two_sessions)
      noon
      later)
unfolding export_review
export_item-IsInStep_example =
    export_item-IsInStep sample_texts (start_of sample_texts first_disk noon) (item_of two_sessions)
      noon later (start_of-IsInStep sample_texts first_disk noon (refl, tt))
      (normalize-IsSettled sample_texts (sessions_order two_sessions) (review_of []) none noon noon)

export_owner_digest-owner_digest_example :
    includes
      (paths_of
        (owner_digest sample_texts
          (export_owner_digest sample_texts first_disk true noon noon).0
          later
          later).items)
      "sessions"
    ≡ false
unfolding export_review export_owner_digest
export_owner_digest-owner_digest_example =
    export_owner_digest-owner_digest sample_texts first_disk noon noon later later "sessions"
      (refl, tt) refl

refresh_observation-report_needed_example :
    let a = ensured_aggregate sample_texts (item_of two_sessions) noon noon in
    let reported = get_or a.report_state no_report in
    let new = a.occurrence_count - reported.last_reported_occurrence_count in
    let recent = count_since sample_texts (get_or a.occurrence_timeline []) short_window_ms noon in
    let trend = trend_of a.occurrence_count recent in
    (o : ObservationState) × ((refresh_observation sample_texts a "P1" noon 2).observation ≡ some o)
    × (o.report_needed ≡ (
        ltb 0 new
        && (was_needed a.observation
            || leb 5 new
            || (not (has_owner_report reported) && (str_eq "P1" "P1" || is_spike trend)))))
refresh_observation-report_needed_example =
    refresh_observation-report_needed sample_texts
      (ensured_aggregate sample_texts (item_of two_sessions) noon noon) "P1" noon 2
