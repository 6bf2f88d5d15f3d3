-- ===== src/WorkOrderInbox/Export.antt =====
-- `exportReviewWorkOrdersToInbox` of scripts/lib/work-order-inbox.mjs with `normalizeInboxItem` and
-- `indexOpenInboxByGroup`. The directory `inbox` is the list of its files in the order of their
-- paths; `clock` is the time that `new Date()` gives where no time is passed.
use misa_cybernetic_evolutio.Prelude.{
  ℕ, String, Bool, false, not, ◌&&◌, Option, none, some, List, [], ◌∷◌, ◌++◌, filter, length,
  str_eq, if◌then◌else◌, get_or, any, find?, insert,
}
use misa_cybernetic_evolutio.WorkOrderInbox.Types.{Instant, Order, Review, Item, Entry, Texts}
use misa_cybernetic_evolutio.WorkOrderInbox.Keys.{
  dedupe_group_key_for_order, group_key_for_existing_item,
}
use misa_cybernetic_evolutio.WorkOrderInbox.Observation.{is_spike}
use misa_cybernetic_evolutio.WorkOrderInbox.Aggregate.{
  build_aggregate, ensured_aggregate, ensure_aggregate,
}
use misa_cybernetic_evolutio.WorkOrderInbox.Merge.{Merged, merge_into_existing_item}

-- A line of `written`, `merged_existing` or `skipped_existing`. The counts stand only in the lists
-- that the source gives them in.
pub record Listed : Type 0 where
  pub work_order_id : String
  pub severity : String
  pub title : String
  pub path : String
  pub dedupe_group_key : String
  pub added_occurrence_count : Option ℕ
  pub occurrence_count : Option ℕ

pub record ExportState : Type 0 where
  pub disk : List Entry
  pub existing_by_group : List Entry
  pub written : List Listed
  pub merged_existing : List Listed
  pub skipped_existing : List Listed

pub record ExportSummary : Type 0 where
  pub written_count : ℕ
  pub merged_existing_count : ℕ
  pub skipped_existing_count : ℕ
  pub inbox_count : ℕ
  pub report_needed_count : ℕ
  pub spike_count : ℕ

abbrev pub is_open : Item → Bool
is_open item = str_eq item.state "inbox"

abbrev pub has_path : String → Entry → Bool
has_path path e = str_eq e.path path

abbrev pub has_group : String → Entry → Bool
has_group key e = str_eq e.item.dedupe_group_key key

-- `Map.get`.
abbrev pub get_existing : String → List Entry → Option Entry
get_existing key = find? (has_group key)

-- `Map.set` on a key that is there, and the file that is written again.
abbrev pub replace_existing : String → Item → List Entry → List Entry
replace_existing key item [] = []
replace_existing key item (e ∷ entries) =
    let rest = replace_existing key item entries in
    if has_group key e then record e { item = item } ∷ entries else e ∷ rest

abbrev pub write_file : String → Item → List Entry → List Entry
write_file path item [] = []
write_file path item (e ∷ entries) =
    let rest = write_file path item entries in
    if has_path path e then record e { item = item } ∷ entries else e ∷ rest

abbrev pub occurrence_count_of : Item → ℕ
occurrence_count_of item = elim item.aggregate [ none ↦ 0 | some a ↦ a.occurrence_count ]

abbrev pub listed : Item → String → String → Option ℕ → Option ℕ → Listed
listed item path key added count = record {
  work_order_id = item.work_order_id;
  severity = item.severity;
  title = item.title;
  path = path;
  dedupe_group_key = key;
  added_occurrence_count = added;
  occurrence_count = count;
}

abbrev pub needs_report : Item → Bool
needs_report item = elim item.aggregate [
  | none ↦ false
  | some a ↦ elim a.observation [ none ↦ false | some o ↦ o.report_needed ]
]

abbrev pub is_spiking : Item → Bool
is_spiking item = elim item.aggregate [
  | none ↦ false
  | some a ↦ elim a.observation [ none ↦ false | some o ↦ is_spike o.trend ]
]

module _ (t : Texts) where
  abbrev pub bare_item : Order → Review → Option String → Instant → Item
  bare_item order review review_file now =
      let hash = t.source_hash order in
      let title = get_or order.title "Cybernetic repair work order" in
      record {
        work_order_id = get_or order.work_order_id (t.generated_id title hash);
        inbox_key = hash;
        dedupe_group_key = dedupe_group_key_for_order t order hash;
        state = "inbox";
        created_at = some now.iso;
        updated_at = none;
        last_reported_at = none;
        review_file = review_file;
        review_created_at = review.created_at;
        latest_review_file = none;
        latest_review_created_at = none;
        severity = get_or order.severity "P3";
        title = title;
        problem_statement = get_or order.problem_statement "";
        failed_sessions = order.failed_sessions;
        aggregate = none;
        raw_work_order = order;
      }

  unfoldable pub normalize_inbox_item :
      Order → Review → Option String → (clock now : Instant) → Item
  unfolding dedupe_group_key_for_order build_aggregate
  normalize_inbox_item order review review_file clock now =
      let item = bare_item order review review_file now in
      record item { aggregate = some (build_aggregate t item clock now) }

  abbrev pub keyed : Item → Item
  keyed item = record item { dedupe_group_key = group_key_for_existing_item t item }

  abbrev pub target_of : Item → String
  target_of item = t.path_of item.severity item.title item.inbox_key

  -- One file of the directory.
  unfoldable pub index_entry : Instant → Entry → List Entry → List Entry
  unfolding group_key_for_existing_item ensured_aggregate
  index_entry clock e by_group =
      let item = ensure_aggregate t (keyed e.item) clock clock in
      if is_open e.item && not (any (has_group item.dedupe_group_key) by_group)
      then by_group ++ record { path = e.path; item = item } ∷ []
      else by_group

  unfoldable pub index_from : Instant → List Entry → List Entry → List Entry
  unfolding index_entry
  index_from clock [] by_group = by_group
  index_from clock (e ∷ disk) by_group = index_from clock disk (index_entry clock e by_group)

  unfoldable pub index_open_inbox_by_group : List Entry → Instant → List Entry
  unfolding index_from
  index_open_inbox_by_group disk clock = index_from clock disk []

  abbrev pub before : Entry → Entry → Bool
  before a b = t.text_le a.path b.path

  -- The file is rewritten only where the merge changed the item; the index holds the item itself.
  unfoldable pub after_merge : ExportState → Entry → Item → Merged → ExportState
  after_merge s existing item m =
      let key = item.dedupe_group_key in
      let merged : Item = m.item in
      let by_group = replace_existing key merged s.existing_by_group in
      if m.changed
      then record s {
        disk = write_file existing.path merged s.disk;
        existing_by_group = by_group;
        merged_existing =
            s.merged_existing
            ++ listed merged existing.path key (some m.added_occurrence_count)
                (some (occurrence_count_of merged))
              ∷ [];
      }
      else record s {
        existing_by_group = by_group;
        skipped_existing = s.skipped_existing ++ listed merged existing.path key none none ∷ [];
      }

  -- The flag `wx` refuses a path that is there.
  unfoldable pub create_item : ExportState → Item → ExportState
  unfolding insert
  create_item s item =
      let target = target_of item in
      let key = item.dedupe_group_key in
      let entry : Entry = record { path = target; item = item } in
      if any (has_path target) s.disk
      then record s {
        skipped_existing = s.skipped_existing ++ listed item target key none none ∷ [];
      }
      else record s {
        disk = insert before entry s.disk;
        existing_by_group = s.existing_by_group ++ entry ∷ [];
        written = s.written ++ listed item target key none (some (occurrence_count_of item)) ∷ [];
      }

  unfoldable pub export_item : ExportState → Item → (clock now : Instant) → ExportState
  unfolding merge_into_existing_item after_merge create_item
  export_item s item clock now = elim (get_existing item.dedupe_group_key s.existing_by_group) [
    | some existing ↦
        after_merge s existing item (merge_into_existing_item t existing.item item clock now)
    | none ↦ create_item s item
  ]

  unfoldable pub export_orders :
      Review → Option String → (clock now : Instant) → List Order → ExportState → ExportState
  unfolding export_item normalize_inbox_item
  export_orders review review_file clock now [] s = s
  export_orders review review_file clock now (order ∷ orders) s =
      export_orders review review_file clock now orders
        (export_item s (normalize_inbox_item order review review_file clock now) clock now)

  unfoldable pub start_of : List Entry → Instant → ExportState
  unfolding index_open_inbox_by_group
  start_of disk clock = record {
    disk = disk;
    existing_by_group = index_open_inbox_by_group disk clock;
    written = [];
    merged_existing = [];
    skipped_existing = [];
  }

  unfoldable pub export_review :
      List Entry → Review → Option String → (clock now : Instant) → ExportState
  unfolding start_of export_orders
  export_review disk review review_file clock now =
      export_orders review review_file clock now review.repair_work_orders (start_of disk clock)

unfoldable pub export_summary : ExportState → ExportSummary
export_summary s = record {
  written_count = length s.written;
  merged_existing_count = length s.merged_existing;
  skipped_existing_count = length s.skipped_existing;
  inbox_count = length s.disk;
  report_needed_count = length (filter (λ e. needs_report e.item) s.disk);
  spike_count = length (filter (λ e. is_spiking e.item) s.disk);
}
