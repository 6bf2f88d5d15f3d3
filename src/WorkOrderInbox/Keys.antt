-- ===== src/WorkOrderInbox/Keys.antt =====
-- Failure classes and the keys by which orders are grouped: `classifyFailureReason`,
-- `sessionFailureClass`, `dedupeGroupKeyForOrder` of scripts/lib/work-order-inbox.mjs.
use misa_cybernetic_evolutio.Prelude.{
  String, Bool, ◌||◌, Option, none, some, List, [], ◌∷◌, ◌++◌, map, sort, str_eq, if◌then◌else◌,
  or_else, get_or, truthy, includes,
}
use misa_cybernetic_evolutio.WorkOrderInbox.Types.{Order, Item, Texts}

-- A `Set` of texts, in the order in which they were added.
unfoldable pub set_add : String → List String → List String
set_add x xs = if includes xs x then xs else xs ++ x ∷ []

unfoldable pub set_add_all : List String → List String → List String
unfolding set_add
set_add_all xs [] = xs
set_add_all xs (y ∷ ys) = set_add_all (set_add y xs) ys

-- `uniqueValues`, of texts that may be missing.
abbrev pub present : List (Option String) → List String
present [] = []
present (none ∷ xs) = present xs
present (some x ∷ xs) = let rest = present xs in if truthy x then x ∷ rest else rest

unfoldable pub unique_values : List (Option String) → List String
unfolding set_add_all
unique_values values = set_add_all [] (present values)

abbrev pub or_text : Option String → String → String
or_text none d = d
or_text (some s) d = if truthy s then s else d

module _ (t : Texts) where
  -- `reason || "failed"`: an empty reason counts as none.
  unfoldable pub classify_failure_reason : Option String → String
  classify_failure_reason reason =
      let text = t.lower (or_text reason "failed") in
      if t.contains text "read operation timed out"
      then "read-timeout"
      else if t.contains text "http 504"
          || t.contains text "openai_error"
          || t.contains text "bad_response_status_code"
      then "provider-504"
      else if t.contains text "expecting value: line 1 column 1"
      then "empty-json-response"
      else if t.contains text "missing messages list"
      then "missing-messages-list"
      else t.other_class (or_text reason "failed")

  unfoldable pub is_session_failure : Order → Bool
  is_session_failure order =
      str_eq (get_or (or_else order.finding_id order.work_order_id) "")
        "session-distiller-failed-session"
      || str_eq (t.lower (get_or order.title "")) "session distiller has failed sessions"

  unfoldable pub class_of : List String → String
  class_of [] = "unknown-session-failure"
  class_of (c ∷ []) = c
  class_of (c ∷ d ∷ cs) = t.mixed_class (sort t.text_le (c ∷ d ∷ cs))

  unfoldable pub session_failure_class : Order → Option String
  unfolding is_session_failure class_of classify_failure_reason unique_values
  session_failure_class order =
      if is_session_failure order
      then some (
          class_of (
            unique_values
              (map (λ s. some (classify_failure_reason s.reason)) order.failed_sessions)))
      else none

  -- The class of a failure is never empty.
  unfoldable pub dedupe_group_key_for_order : Order → String → String
  unfolding session_failure_class
  dedupe_group_key_for_order order inbox_key = elim (session_failure_class order) [
    | none ↦ t.exact_key inbox_key
    | some failure ↦
        t.finding_key (get_or order.finding_id "session-distiller-failed-session")
          (get_or order.title "session distiller has failed sessions") failure
  ]

  -- An item without a key is given that of its order.
  unfoldable pub group_key_for_existing_item : Item → String
  unfolding dedupe_group_key_for_order
  group_key_for_existing_item item =
      if truthy item.dedupe_group_key
      then item.dedupe_group_key
      else dedupe_group_key_for_order item.raw_work_order item.inbox_key
