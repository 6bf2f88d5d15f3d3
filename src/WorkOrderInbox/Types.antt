-- ===== src/WorkOrderInbox/Types.antt =====
-- The data of scripts/lib/work-order-inbox.mjs. Policies, safety blocks and prose that are only
-- copied are left out.
use misa_cybernetic_evolutio.Prelude.{ℕ, String, Bool, Option, List}

-- An instant is its ISO text and its milliseconds, `toISOString()` and `getTime()`.
pub record Instant : Type 0 where
  pub iso : String
  pub ms : ℕ

pub record FailedSession : Type 0 where
  pub session_id : Option String
  pub reason : Option String

-- What is read of an order of a review. `failed_sessions` is empty where it is no array.
pub record Order : Type 0 where
  pub finding_id : Option String
  pub work_order_id : Option String
  pub title : Option String
  pub severity : Option String
  pub problem_statement : Option String
  pub failed_sessions : List FailedSession
  pub recommended_next_actions : List String

pub record Review : Type 0 where
  pub created_at : Option String
  pub review_file : Option String
  pub repair_work_orders : List Order

pub record Occurrence : Type 0 where
  pub occurrence_key : String
  pub session_id : Option String
  pub reason : String
  pub reason_class : String
  pub review_file : Option String
  pub seen_at : String

pub record CompactOccurrence : Type 0 where
  pub occurrence_key : String
  pub session_id : Option String
  pub reason_class : String
  pub seen_at : Option String

pub record Example : Type 0 where
  pub session_id : Option String
  pub reason : String
  pub reason_class : String
  pub review_file : Option String
  pub seen_at : String

-- `first` is the source's "new".
pub data Trend : Type 0 where
  quiet first recurring spike : Trend

-- `behavior` is `report_owner_digest` exactly where a report is needed, and is left out.
pub record ObservationState : Type 0 where
  pub trend : Trend
  pub report_needed : Bool
  pub report_reasons : List String
  pub added_occurrence_count : ℕ
  pub new_since_last_report : ℕ
  pub last_observed_at : String
  pub short_count : ℕ  -- windows.short.count
  pub daily_count : ℕ  -- windows.daily.count

pub record ReportState : Type 0 where
  pub last_reported_at : Option String
  pub last_reported_occurrence_count : ℕ
  pub last_report_digest_id : Option String

pub record ReportEntry : Type 0 where
  pub digest_id : String
  pub reported_at : String
  pub occurrence_count : ℕ

-- The timeline is missing in files that an older version wrote.
pub record AggregateState : Type 0 where
  pub group_key : String
  pub occurrence_count : ℕ
  pub first_seen : Option String
  pub last_seen : Option String
  pub reason_counts : List (String × ℕ)
  pub session_ids : List String
  pub occurrence_keys : List String
  pub occurrence_timeline : Option (List CompactOccurrence)
  pub evidence_examples : List Example
  pub report_state : Option ReportState
  pub owner_report_history : List ReportEntry
  pub observation : Option ObservationState

-- An aggregate whose keys are no array counts as none.
pub record Item : Type 0 where
  pub work_order_id : String
  pub inbox_key : String
  pub dedupe_group_key : String
  pub state : String  -- lifecycle.state
  pub created_at : Option String  -- lifecycle.created_at
  pub updated_at : Option String  -- lifecycle.updated_at
  pub last_reported_at : Option String  -- lifecycle.last_reported_at
  pub review_file : Option String  -- source.review_file
  pub review_created_at : Option String  -- source.review_created_at
  pub latest_review_file : Option String  -- source.latest_review_file
  pub latest_review_created_at : Option String  -- source.latest_review_created_at
  pub severity : String
  pub title : String
  pub problem_statement : String
  pub failed_sessions : List FailedSession  -- evidence.failed_sessions
  pub aggregate : Option AggregateState
  pub raw_work_order : Order

-- A file of the directory `inbox`.
pub record Entry : Type 0 where
  pub path : String
  pub item : Item

-- The text functions that the module calls: JavaScript's, the hash, and the templates over them.
-- Of a time's text, `time_ms` is the finite number of milliseconds from 1970 that it stands for.
pub record Texts : Type 0 where
  pub lower : String → String
  pub contains : String → String → Bool
  pub other_class : String → String  -- `other-${stableSlug(…).slice(0, 48)}`
  pub mixed_class : List String → String  -- `mixed-${stableHash(…)}`
  pub occurrence_hash : String → Option String → String → String → String
  pub finding_key : String → String → String → String  -- ["finding", …].join(":")
  pub exact_key : String → String  -- `exact:${…}`
  pub source_hash : Order → String
  pub generated_id : String → String → String  -- `wo-session-distiller-…`
  pub path_of : String → String → String → String  -- of severity, title and key
  pub digest_id : String → String  -- `owner-digest-${stampFor(…)}`
  pub time_ms : String → Option ℕ
  pub text_le : String → String → Bool  -- the order of `sort()`
  pub locale_le : String → String → Bool  -- `localeCompare(…) <= 0`
