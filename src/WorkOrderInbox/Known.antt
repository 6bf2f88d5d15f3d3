-- ===== src/WorkOrderInbox/Known.antt =====
-- The occurrence keys that an item of scripts/lib/work-order-inbox.mjs knows: those of its
-- aggregate, the times left aside.
use misa_cybernetic_evolutio.Prelude.{
  String, ◌≡◌, refl, ap, ap₂, sym, ◌∙◌, inl, inr, Option, none, some, List, [], ◌∷◌, map, str_eq,
  eq_iff, Bool-cases, get_or,
}
use misa_cybernetic_evolutio.WorkOrderInbox.Types.{
  Instant, FailedSession, Item, AggregateState, Texts,
}
use misa_cybernetic_evolutio.WorkOrderInbox.Keys.{unique_values, classify_failure_reason}
use misa_cybernetic_evolutio.WorkOrderInbox.Observation.{refresh_observation}
use misa_cybernetic_evolutio.WorkOrderInbox.Aggregate.{
  keys_of, occurrence_of_session, occurrences_of, occurrences_for_item, build_aggregate,
  kept_aggregate, ensured_from, ensured_aggregate,
}

abbrev pub epoch : Instant
epoch = record { iso = ""; ms = 0 }

module _ (t : Texts) where
  sessions-keys :
      (i j : Item) (c d : Instant) (sessions : List FailedSession)
      → i.dedupe_group_key ≡ j.dedupe_group_key
      → keys_of (map (occurrence_of_session t i c) sessions)
        ≡ keys_of (map (occurrence_of_session t j d) sessions)
  unfolding occurrence_of_session
  sessions-keys i j c d [] e = refl
  sessions-keys i j c d (s ∷ sessions) e =
      ap₂
        (λ (g : String) (ks : List String).
          t.occurrence_hash g s.session_id (classify_failure_reason t s.reason)
            (get_or s.reason "failed")
          ∷ ks)
        e (sessions-keys i j c d sessions e)

  -- The keys of the occurrences of an item depend only on its own keys and its sessions.
  occurrences_of-keys :
      (i j : Item) (c d : Instant) (sessions : List FailedSession)
      → i.dedupe_group_key ≡ j.dedupe_group_key
      → i.inbox_key ≡ j.inbox_key
      → keys_of (occurrences_of t i c sessions) ≡ keys_of (occurrences_of t j d sessions)
  occurrences_of-keys i j c d [] e k = ap (λ (x : String). x ∷ []) k
  occurrences_of-keys i j c d (s ∷ sessions) e k = sessions-keys i j c d (s ∷ sessions) e

  -- The keys that an item brings.
  unfoldable pub brought_keys : Item → List String
  unfolding occurrences_for_item
  brought_keys item = keys_of (occurrences_for_item t item epoch)

  pub keys_of-occurrences :
      (item : Item) (c : Instant) → keys_of (occurrences_for_item t item c) ≡ brought_keys item
  unfolding occurrences_for_item brought_keys
  keys_of-occurrences item c = occurrences_of-keys item item c epoch item.failed_sessions refl refl

  pub brought_keys_same :
      (i j : Item)
      → i.dedupe_group_key ≡ j.dedupe_group_key
      → i.inbox_key ≡ j.inbox_key
      → i.failed_sessions ≡ j.failed_sessions
      → brought_keys i ≡ brought_keys j
  unfolding occurrences_for_item brought_keys
  brought_keys_same i j e k s =
      ap (λ xs. keys_of (occurrences_of t i epoch xs)) s
      ∙ occurrences_of-keys i j epoch epoch j.failed_sessions e k

  -- The keys of the aggregate that an item gets.
  unfoldable pub known_keys : Item → List String
  unfolding ensured_aggregate
  known_keys item = (ensured_aggregate t item epoch epoch).occurrence_keys

  pub build_aggregate-keys :
      (item : Item) (c n : Instant)
      → (build_aggregate t item c n).occurrence_keys ≡ unique_values (map some (brought_keys item))
  unfolding build_aggregate refresh_observation
  build_aggregate-keys item c n =
      ap (λ (ks : List String). unique_values (map some ks)) (keys_of-occurrences item c)

  ensured_from-keys :
      (item : Item) (c n d m : Instant) (aggregate : Option AggregateState)
      → (ensured_from t item c n aggregate).occurrence_keys
        ≡ (ensured_from t item d m aggregate).occurrence_keys
  unfolding kept_aggregate refresh_observation
  ensured_from-keys item c n d m none =
      build_aggregate-keys item c n ∙ sym (build_aggregate-keys item d m)
  ensured_from-keys item c n d m (some a) =
      elim (Bool-cases (str_eq a.group_key item.dedupe_group_key)) [
        | inl g ↦ rw g refl
        | inr g ↦ rw g (build_aggregate-keys item c n ∙ sym (build_aggregate-keys item d m))
      ]

  pub ensured_aggregate-keys :
      (item : Item) (c n : Instant)
      → (ensured_aggregate t item c n).occurrence_keys ≡ known_keys item
  unfolding ensured_aggregate known_keys
  ensured_aggregate-keys item c n = ensured_from-keys item c n epoch epoch item.aggregate

  ensured_from-group :
      (item : Item) (c n : Instant) (aggregate : Option AggregateState)
      → (ensured_from t item c n aggregate).group_key ≡ item.dedupe_group_key
  unfolding kept_aggregate build_aggregate refresh_observation
  ensured_from-group item c n none = refl
  ensured_from-group item c n (some a) =
      elim (Bool-cases (str_eq a.group_key item.dedupe_group_key)) [
        | inl g ↦ rw g ((eq_iff a.group_key item.dedupe_group_key).0 g)
        | inr g ↦ rw g refl
      ]

  pub ensured_aggregate-group :
      (item : Item) (c n : Instant)
      → (ensured_aggregate t item c n).group_key ≡ item.dedupe_group_key
  unfolding ensured_aggregate
  ensured_aggregate-group item c n = ensured_from-group item c n item.aggregate

  ensured_from_current :
      (item : Item) (a : AggregateState)
      → a.group_key ≡ item.dedupe_group_key
      → (ensured_from t item epoch epoch (some a)).occurrence_keys ≡ a.occurrence_keys
  unfolding kept_aggregate refresh_observation
  ensured_from_current item a g = rw ((eq_iff a.group_key item.dedupe_group_key).1 g) refl

  pub known_keys_current :
      (item : Item) (a : AggregateState)
      → item.aggregate ≡ some a
      → a.group_key ≡ item.dedupe_group_key
      → known_keys item ≡ a.occurrence_keys
  unfolding known_keys ensured_aggregate
  known_keys_current item a e g =
      ap (λ x. (ensured_from t item epoch epoch x).occurrence_keys) e
      ∙ ensured_from_current item a g
