-- ===== src/WorkOrderInbox/Merge.antt =====
-- `mergeIntoExistingItem` of scripts/lib/work-order-inbox.mjs: what a further review adds to an
-- open item.
use misa_cybernetic_evolutio.Prelude.{
  ℕ, String, Bool, true, false, not, Option, none, some, List, [], ◌∷◌, ◌++◌, map, filter, length,
  if◌then◌else◌, truthy, includes, head?, get_last?, get_or,
}
use misa_cybernetic_evolutio.WorkOrderInbox.Types.{Instant, Item, Occurrence, AggregateState, Texts}
use misa_cybernetic_evolutio.WorkOrderInbox.Keys.{set_add, set_add_all}
use misa_cybernetic_evolutio.WorkOrderInbox.Observation.{refresh_observation}
use misa_cybernetic_evolutio.WorkOrderInbox.Aggregate.{
  count_reasons, compact_occurrence, example_of, take_last, max_evidence_examples, keys_of,
  occurrences_for_item, seen_times, ensured_aggregate,
}

abbrev pub max_occurrence_timeline : ℕ
max_occurrence_timeline = 5000

-- A session without an id, or with an empty one, is not listed.
abbrev pub add_session : List String → Option String → List String
add_session ids none = ids
add_session ids (some id) = let added = set_add id ids in if truthy id then added else ids

abbrev pub add_sessions : List String → List Occurrence → List String
add_sessions ids [] = ids
add_sessions ids (o ∷ occurrences) = add_sessions (add_session ids o.session_id) occurrences

unfoldable pub fresh_occurrences : List String → List Occurrence → List Occurrence
fresh_occurrences known = filter (λ o. not (includes known o.occurrence_key))

abbrev pub seen_text : Option String → List String
seen_text none = []
seen_text (some s) = s ∷ []

pub record Merged : Type 0 where
  pub item : Item
  pub changed : Bool
  pub added_occurrence_count : ℕ

module _ (t : Texts) where
  unfoldable pub absorb : AggregateState → List Occurrence → AggregateState
  unfolding take_last set_add_all
  absorb a fresh =
      let keys = set_add_all (set_add_all [] a.occurrence_keys) (keys_of fresh) in
      record a {
        occurrence_keys = keys;
        occurrence_count = length keys;
        reason_counts = count_reasons a.reason_counts fresh;
        session_ids = add_sessions a.session_ids fresh;
        occurrence_timeline = some (
            take_last max_occurrence_timeline
              (get_or a.occurrence_timeline [] ++ map compact_occurrence fresh));
        evidence_examples =
            take_last max_evidence_examples (a.evidence_examples ++ map example_of fresh);
        last_seen = get_last? (seen_times t (seen_text a.last_seen) fresh);
        first_seen = head? (seen_times t (seen_text a.first_seen) fresh);
      }

  unfoldable pub merge_fresh : Item → AggregateState → Item → Instant → List Occurrence → Merged
  unfolding absorb refresh_observation
  merge_fresh existing a incoming now [] = record {
    item = record existing { aggregate = some a };
    changed = false;
    added_occurrence_count = 0;
  }
  merge_fresh existing a incoming now (o ∷ fresh) =
      let added = o ∷ fresh in
      record {
        item = record existing {
          aggregate =
              some (refresh_observation t (absorb a added) existing.severity now (length added));
          updated_at = some now.iso;
          latest_review_file = incoming.review_file;
          latest_review_created_at = incoming.review_created_at;
        };
        changed = true;
        added_occurrence_count = length added;
      }

  unfoldable pub merge_into_existing_item :
      (existing incoming : Item) → (clock now : Instant) → Merged
  unfolding set_add_all ensured_aggregate occurrences_for_item fresh_occurrences merge_fresh
  merge_into_existing_item existing incoming clock now =
      let a = ensured_aggregate t existing clock clock in
      merge_fresh existing a incoming now (
        fresh_occurrences (set_add_all [] a.occurrence_keys)
          (occurrences_for_item t incoming clock))
