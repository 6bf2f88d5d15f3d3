-- ===== src/WorkOrderInbox/Aggregate.antt =====
-- Occurrences and aggregates of an inbox item: `occurrencesForItem`, `compactOccurrence`,
-- `buildAggregate` and `ensureAggregate` of scripts/lib/work-order-inbox.mjs. `clock` is the time
-- that `new Date()` gives where no time is passed.
use misa_cybernetic_evolutio.Prelude.{
  ℕ, zero, suc, ◌+◌, ◌-◌, String, Option, none, some, List, [], ◌∷◌, ◌++◌, map, filter, sort,
  length, str_eq, if◌then◌else◌, or_else, get_or, truthy, head?, get_last?,
}
use misa_cybernetic_evolutio.WorkOrderInbox.Types.{
  Instant, FailedSession, Item, Occurrence, CompactOccurrence, Example, AggregateState, Texts,
}
use misa_cybernetic_evolutio.WorkOrderInbox.Keys.{unique_values, classify_failure_reason}
use misa_cybernetic_evolutio.WorkOrderInbox.Observation.{refresh_observation}

abbrev pub max_evidence_examples : ℕ
max_evidence_examples = 10

abbrev pub review_time_for_item : Item → Instant → String
review_time_for_item item clock = get_or (or_else item.review_created_at item.created_at) clock.iso

-- `counts[key] = (counts[key] ?? 0) + 1`.
abbrev pub count_reason : String → List (String × ℕ) → List (String × ℕ)
count_reason key [] = (key, 1) ∷ []
count_reason key (c ∷ counts) =
    let rest = count_reason key counts in
    if str_eq c.0 key then (key, c.1 + 1) ∷ counts else c ∷ rest

abbrev pub count_reasons : List (String × ℕ) → List Occurrence → List (String × ℕ)
count_reasons counts [] = counts
count_reasons counts (o ∷ occurrences) =
    count_reasons (count_reason o.reason_class counts) occurrences

abbrev pub compact_occurrence : Occurrence → CompactOccurrence
compact_occurrence o = record {
  occurrence_key = o.occurrence_key;
  session_id = o.session_id;
  reason_class = o.reason_class;
  seen_at = some o.seen_at;
}

abbrev pub example_of : Occurrence → Example
example_of o = record {
  session_id = o.session_id;
  reason = o.reason;
  reason_class = o.reason_class;
  review_file = o.review_file;
  seen_at = o.seen_at;
}

-- `slice(0, n)` and `slice(-n)`.
unfoldable pub take {ℓ} : {A : Type ℓ} → ℕ → List A → List A
take _ [] = []
take zero (x ∷ xs) = []
take (suc n) (x ∷ xs) = x ∷ take n xs

unfoldable pub drop {ℓ} : {A : Type ℓ} → ℕ → List A → List A
drop _ [] = []
drop zero (x ∷ xs) = x ∷ xs
drop (suc n) (x ∷ xs) = drop n xs

unfoldable pub take_last {ℓ} : {A : Type ℓ} → ℕ → List A → List A
unfolding drop
take_last n xs = drop (length xs - n) xs

abbrev pub keys_of : List Occurrence → List String
keys_of [] = []
keys_of (o ∷ occurrences) = o.occurrence_key ∷ keys_of occurrences

module _ (t : Texts) where
  unfoldable pub occurrence_of_session : Item → Instant → FailedSession → Occurrence
  unfolding classify_failure_reason
  occurrence_of_session item clock session =
      let reason_class = classify_failure_reason t session.reason in
      let reason = get_or session.reason "failed" in
      record {
        occurrence_key =
            t.occurrence_hash item.dedupe_group_key session.session_id reason_class reason;
        session_id = session.session_id;
        reason = reason;
        reason_class = reason_class;
        review_file = item.review_file;
        seen_at = review_time_for_item item clock;
      }

  abbrev pub occurrence_of_item : Item → Instant → Occurrence
  occurrence_of_item item clock = record {
    occurrence_key = item.inbox_key;
    session_id = none;
    reason =
        if truthy item.problem_statement
        then item.problem_statement
        else if truthy item.title
        then item.title
        else "work-order";
    reason_class = item.dedupe_group_key;
    review_file = item.review_file;
    seen_at = review_time_for_item item clock;
  }

  abbrev pub occurrences_of : Item → Instant → List FailedSession → List Occurrence
  occurrences_of item clock [] = occurrence_of_item item clock ∷ []
  occurrences_of item clock (s ∷ sessions) = map (occurrence_of_session item clock) (s ∷ sessions)

  unfoldable pub occurrences_for_item : Item → Instant → List Occurrence
  unfolding occurrence_of_session
  occurrences_for_item item clock = occurrences_of item clock item.failed_sessions

  abbrev pub seen_times : List String → List Occurrence → List String
  seen_times times occurrences =
      sort t.text_le (filter truthy (times ++ map (λ o. o.seen_at) occurrences))

  unfoldable pub build_aggregate : Item → (clock now : Instant) → AggregateState
  unfolding occurrences_for_item unique_values take refresh_observation
  build_aggregate item clock now =
      let occurrences = occurrences_for_item item clock in
      let times = seen_times [] occurrences in
      let built : AggregateState = record {
        group_key = item.dedupe_group_key;
        occurrence_count = length occurrences;
        first_seen = some (get_or (head? times) (review_time_for_item item clock));
        last_seen = some (get_or (get_last? times) (review_time_for_item item clock));
        reason_counts = count_reasons [] occurrences;
        session_ids = unique_values (map (λ o. o.session_id) occurrences);
        occurrence_keys = unique_values (map some (keys_of occurrences));
        occurrence_timeline = some (map compact_occurrence occurrences);
        evidence_examples = map example_of (take max_evidence_examples occurrences);
        report_state = none;
        owner_report_history = [];
        observation = none;
      } in
      refresh_observation t built item.severity now (length occurrences)

  -- The timeline of a file that an older version wrote.
  abbrev pub occurrence_of_example : Item → Example → CompactOccurrence
  occurrence_of_example item e = record {
    occurrence_key = t.occurrence_hash item.dedupe_group_key e.session_id e.reason_class e.reason;
    session_id = e.session_id;
    reason_class = e.reason_class;
    seen_at = some e.seen_at;
  }

  unfoldable pub timeline_of : Item → AggregateState → List CompactOccurrence
  timeline_of item a =
      get_or a.occurrence_timeline (map (occurrence_of_example item) a.evidence_examples)

  unfoldable pub kept_aggregate : Item → AggregateState → Instant → AggregateState
  unfolding timeline_of refresh_observation
  kept_aggregate item a now =
      refresh_observation t (record a { occurrence_timeline = some (timeline_of item a) })
        item.severity now 0

  -- An aggregate of another group is replaced.
  abbrev pub ensured_from : Item → (clock now : Instant) → Option AggregateState → AggregateState
  ensured_from item clock now none = build_aggregate item clock now
  ensured_from item clock now (some a) =
      if str_eq a.group_key item.dedupe_group_key
      then kept_aggregate item a now
      else build_aggregate item clock now

  unfoldable pub ensured_aggregate : Item → (clock now : Instant) → AggregateState
  unfolding kept_aggregate build_aggregate
  ensured_aggregate item clock now = ensured_from item clock now item.aggregate

  abbrev pub ensure_aggregate : Item → (clock now : Instant) → Item
  ensure_aggregate item clock now = record item {
    aggregate = some (ensured_aggregate item clock now);
  }
