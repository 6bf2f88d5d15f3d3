-- ===== src/WorkOrderInbox/Digest.antt =====
-- `exportInboxOwnerDigest` of scripts/lib/work-order-inbox.mjs with `reportedInboxEntries`,
-- `sortOwnerDigestItems` and `markItemReported`. What the digest copies of an item is the item.
use misa_cybernetic_evolutio.Prelude.{
  ℕ, ◌+◌, ◌-◌, String, Bool, true, false, ◌&&◌, none, some, List, [], ◌∷◌, ◌++◌, filter, length,
  ltb, str_eq, if◌then◌else◌, includes, sort,
}
use misa_cybernetic_evolutio.WorkOrderInbox.Types.{Instant, Item, Entry, AggregateState, Texts}
use misa_cybernetic_evolutio.WorkOrderInbox.Keys.{group_key_for_existing_item}
use misa_cybernetic_evolutio.WorkOrderInbox.Observation.{refresh_observation}
use misa_cybernetic_evolutio.WorkOrderInbox.Aggregate.{
  take, take_last, ensured_aggregate, ensure_aggregate,
}
use misa_cybernetic_evolutio.WorkOrderInbox.Export.{
  keyed, is_open, needs_report, is_spiking, occurrence_count_of, write_file,
}

abbrev pub max_owner_digest_items : ℕ
max_owner_digest_items = 25

abbrev pub max_report_history : ℕ
max_report_history = 25

unfoldable pub severity_rank : String → ℕ
severity_rank severity =
    if str_eq severity "P0"
    then 0
    else if str_eq severity "P1"
    then 1
    else if str_eq severity "P2"
    then 2
    else if str_eq severity "P3"
    then 3
    else 9

abbrev pub new_count_of : Item → ℕ
new_count_of item = elim item.aggregate [
  | none ↦ 0
  | some a ↦ elim a.observation [ none ↦ 0 | some o ↦ o.new_since_last_report ]
]

pub record DigestSummary : Type 0 where
  pub report_item_count : ℕ
  pub suppressed_item_count : ℕ
  pub total_new_since_last_report : ℕ
  pub total_occurrence_count : ℕ
  pub spike_count : ℕ

pub record OwnerDigest : Type 0 where
  pub digest_id : String
  pub created_at : String
  pub summary : DigestSummary
  pub items : List Entry
  pub default_next_step : String

abbrev pub sum_of : (Item → ℕ) → List Entry → ℕ
sum_of count [] = 0
sum_of count (e ∷ entries) = count e.item + sum_of count entries

abbrev pub paths_of : List Entry → List String
paths_of [] = []
paths_of (e ∷ entries) = e.path ∷ paths_of entries

abbrev pub next_step_of : List Entry → String
next_step_of [] = "no_report_needed"
next_step_of (e ∷ entries) = "report_owner_digest_then_wait"

unfoldable pub summary_of : (sorted visible : List Entry) → DigestSummary
summary_of sorted visible = record {
  report_item_count = length visible;
  suppressed_item_count = length sorted - length visible;
  total_new_since_last_report = sum_of new_count_of visible;
  total_occurrence_count = sum_of occurrence_count_of visible;
  spike_count = length (filter (λ e. is_spiking e.item) visible);
}

-- What a report leaves in the aggregate.
abbrev pub recorded : AggregateState → String → Instant → AggregateState
recorded a digest_id now = record a {
  report_state = some (record {
    last_reported_at = some now.iso;
    last_reported_occurrence_count = a.occurrence_count;
    last_report_digest_id = some digest_id;
  });
  owner_report_history = take_last max_report_history (
      a.owner_report_history
      ++ record {
        digest_id = digest_id;
        reported_at = now.iso;
        occurrence_count = a.occurrence_count;
      }
        ∷ []);
}

-- `x - y || …` as a test: a difference decides, and without one the rest does.
abbrev pub smaller_or : ℕ → ℕ → Bool → Bool
smaller_or x y rest = if ltb x y then true else if ltb y x then false else rest

module _ (t : Texts) where
  -- The order of the digest: a result of the comparator of at most 0.
  unfoldable pub comes_first : Entry → Entry → Bool
  unfolding severity_rank
  comes_first left right =
      let l = left.item in
      let r = right.item in
      smaller_or (severity_rank l.severity) (severity_rank r.severity) (
        smaller_or (new_count_of r) (new_count_of l) (
          smaller_or (occurrence_count_of r) (occurrence_count_of l)
            (t.locale_le l.work_order_id r.work_order_id)))

  unfoldable pub sort_owner_digest_items : List Entry → List Entry
  unfolding comes_first sort
  sort_owner_digest_items = sort comes_first

  unfoldable pub reported_inbox_entries : List Entry → (clock now : Instant) → List Entry
  unfolding group_key_for_existing_item ensured_aggregate
  reported_inbox_entries [] clock now = []
  reported_inbox_entries (e ∷ disk) clock now =
      let rest = reported_inbox_entries disk clock now in
      let item = ensure_aggregate t (keyed t e.item) clock now in
      if is_open e.item && needs_report item
      then record { path = e.path; item = item } ∷ rest
      else rest

  unfoldable pub reported_aggregate : Item → String → (clock now : Instant) → AggregateState
  unfolding ensured_aggregate refresh_observation take_last
  reported_aggregate item digest_id clock now =
      refresh_observation t (recorded (ensured_aggregate t item clock now) digest_id now)
        item.severity now 0

  unfoldable pub mark_item_reported : Item → String → (clock now : Instant) → Item
  unfolding reported_aggregate
  mark_item_reported item digest_id clock now = record item {
    aggregate = some (reported_aggregate item digest_id clock now);
    updated_at = some now.iso;
    last_reported_at = some now.iso;
  }

  -- Each visible file is written again with its item marked.
  unfoldable pub mark_entries :
      List String → String → (clock now : Instant) → List Entry → List Entry → List Entry
  unfolding mark_item_reported
  mark_entries visible digest_id clock now [] disk = disk
  mark_entries visible digest_id clock now (e ∷ entries) disk =
      mark_entries visible digest_id clock now entries (
        if includes visible e.path
        then write_file e.path (mark_item_reported e.item digest_id clock now) disk
        else disk)

  unfoldable pub owner_digest : List Entry → (clock now : Instant) → OwnerDigest
  unfolding reported_inbox_entries sort_owner_digest_items take summary_of
  owner_digest disk clock now =
      let sorted = sort_owner_digest_items (reported_inbox_entries disk clock now) in
      let visible = take max_owner_digest_items sorted in
      record {
        digest_id = t.digest_id now.iso;
        created_at = now.iso;
        summary = summary_of sorted visible;
        items = visible;
        default_next_step = next_step_of visible;
      }

  unfoldable pub export_owner_digest :
      List Entry → (mark_reported : Bool) → (clock now : Instant) → List Entry × OwnerDigest
  unfolding owner_digest mark_entries
  export_owner_digest disk mark_reported clock now =
      let digest : OwnerDigest = owner_digest disk clock now in
      let marked =
        mark_entries (paths_of digest.items) digest.digest_id clock now
          (reported_inbox_entries disk clock now) disk in
      (if mark_reported then marked else disk, digest)
