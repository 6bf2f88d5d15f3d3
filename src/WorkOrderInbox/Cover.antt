-- ===== src/WorkOrderInbox/Cover.antt =====
-- Which orders the inbox of scripts/lib/work-order-inbox.mjs covers: after an order is exported,
-- the open item of its group knows all the order's occurrences, and keeps knowing them.
use misa_cybernetic_evolutio.Prelude.{
  String, true, ◌≡◌, refl, ap, ◌∙◌, Option, none, some, List, [], ◌∷◌, map, arith, all, get_or,
  truthy,
}
use misa_cybernetic_evolutio.WorkOrderInbox.Types.{
  Instant, FailedSession, Order, Review, Item, Texts,
}
use misa_cybernetic_evolutio.WorkOrderInbox.Keys.{
  group_key_for_existing_item, dedupe_group_key_for_order, present, unique_values, set_add_all,
  classify_failure_reason,
}
use misa_cybernetic_evolutio.WorkOrderInbox.Aggregate.{
  keys_of, build_aggregate, occurrences_for_item, occurrences_of, occurrence_of_session,
}
use misa_cybernetic_evolutio.WorkOrderInbox.Export.{target_of, bare_item, normalize_inbox_item}
use misa_cybernetic_evolutio.WorkOrderInbox.Sets.{
  contains_all, contains_all_from, includes-set_add_all,
}
use misa_cybernetic_evolutio.WorkOrderInbox.Known.{
  epoch, brought_keys, brought_keys_same, known_keys, known_keys_current, build_aggregate-keys,
}
use misa_cybernetic_evolutio.WorkOrderInbox.Index.{IsSettled}
use misa_cybernetic_evolutio.WorkOrderInbox.Observation.{refresh_observation}

module _ (t : Texts) where
  abbrev pub group_of : Order → String
  group_of order = dedupe_group_key_for_order t order (t.source_hash order)

  abbrev pub file_of : Order → String
  file_of order =
      t.path_of (get_or order.severity "P3") (get_or order.title "Cybernetic repair work order")
        (t.source_hash order)

  abbrev no_review : Review
  no_review = record { created_at = none; review_file = none; repair_work_orders = [] }

  unfoldable pub brought_by : Order → List String
  brought_by order = brought_keys t (bare_item t order no_review none epoch)

  pub normalize-IsSettled :
      (o : Order) (r : Review) (f : Option String) (c n : Instant)
      → IsSettled t (normalize_inbox_item t o r f c n)
  unfolding normalize_inbox_item group_key_for_existing_item
  normalize-IsSettled o r f c n = (refl, ground arith)

  pub normalize-group :
      (o : Order) (r : Review) (f : Option String) (c n : Instant)
      → (normalize_inbox_item t o r f c n).dedupe_group_key ≡ group_of o
  unfolding normalize_inbox_item
  normalize-group o r f c n = refl

  pub normalize-target :
      (o : Order) (r : Review) (f : Option String) (c n : Instant)
      → target_of t (normalize_inbox_item t o r f c n) ≡ file_of o
  unfolding normalize_inbox_item
  normalize-target o r f c n = refl

  bare_brought :
      (o : Order) (r : Review) (f : Option String) (n : Instant)
      → brought_keys t (bare_item t o r f n) ≡ brought_by o
  unfolding brought_by
  bare_brought o r f n = brought_keys_same t _ _ refl refl refl

  pub normalize-brought :
      (o : Order) (r : Review) (f : Option String) (c n : Instant)
      → brought_keys t (normalize_inbox_item t o r f c n) ≡ brought_by o
  unfolding normalize_inbox_item brought_by
  normalize-brought o r f c n = brought_keys_same t _ _ refl refl refl

  module _
      (hash_present : (g : String) (s : Option String) (k r : String)
        → truthy (t.occurrence_hash g s k r) ≡ true)
      (source_present : (o : Order) → truthy (t.source_hash o) ≡ true) where
    sessions-present :
        (item : Item) (sessions : List FailedSession)
        → all truthy (keys_of (map (occurrence_of_session t item epoch) sessions)) ≡ true
    unfolding occurrence_of_session
    sessions-present item [] = refl
    sessions-present item (s ∷ sessions) = ground (
      arith,
      hash_present item.dedupe_group_key s.session_id (classify_failure_reason t s.reason)
          (get_or s.reason "failed"),
      sessions-present item sessions,
    )

    occurrences-present :
        (item : Item) (sessions : List FailedSession)
        → truthy item.inbox_key ≡ true
        → all truthy (keys_of (occurrences_of t item epoch sessions)) ≡ true
    occurrences-present item [] h = ground (arith, h)
    occurrences-present item (s ∷ sessions) h = sessions-present item (s ∷ sessions)

    brought-present : (o : Order) → all truthy (brought_by o) ≡ true
    unfolding brought_by brought_keys occurrences_for_item
    brought-present o =
        occurrences-present (bare_item t o no_review none epoch) o.failed_sessions
          (source_present o)

    present-all : (ks : List String) → all truthy ks ≡ true → present (map some ks) ≡ ks
    present-all [] h = refl
    present-all (k ∷ ks) h = ground (arith, h, present-all ks)

    set_present :
        (ks : List String)
        → all truthy ks ≡ true
        → contains_all (unique_values (map some ks)) ks ≡ true
    unfolding unique_values
    set_present ks h = rw (present-all ks h) (
        contains_all_from (set_add_all [] ks) ks
          (λ k m. ground (arith, m, includes-set_add_all [] ks k)))

    normalize-keys :
        (o : Order) (r : Review) (f : Option String) (c n : Instant)
        → known_keys t (normalize_inbox_item t o r f c n) ≡ unique_values (map some (brought_by o))
    unfolding normalize_inbox_item build_aggregate refresh_observation
    normalize-keys o r f c n =
        let bare = bare_item t o r f n in
        known_keys_current t (normalize_inbox_item t o r f c n) (build_aggregate t bare c n) refl
          refl
        ∙ build_aggregate-keys t bare c n
        ∙ ap (λ (ks : List String). unique_values (map some ks)) (bare_brought o r f n)

    -- A new item knows what its order brings.
    pub normalize-knows :
        (o : Order) (r : Review) (f : Option String) (c n : Instant)
        → contains_all (known_keys t (normalize_inbox_item t o r f c n)) (brought_by o) ≡ true
    normalize-knows o r f c n =
        ap (λ (ks : List String). contains_all ks (brought_by o)) (normalize-keys o r f c n)
        ∙ set_present (brought_by o) (brought-present o)
