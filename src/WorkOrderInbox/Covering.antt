-- ===== src/WorkOrderInbox/Covering.antt =====
-- The orders of a review that `exportReviewWorkOrdersToInbox` of scripts/lib/work-order-inbox.mjs
-- has exported are covered by the inbox.
use misa_cybernetic_evolutio.Prelude.{
  String, Bool, true, not, ◌&&◌, ◌||◌, ◌≡◌, refl, ap, sym, ◌∙◌, inl, inr, Option, List, [], ◌∷◌,
  str_eq, eq_iff, arith, Bool-cases, any, all, is_none, truthy, and-true,
}
use misa_cybernetic_evolutio.WorkOrderInbox.Types.{Instant, Order, Review, Entry, Texts}
use misa_cybernetic_evolutio.WorkOrderInbox.Export.{
  ExportState, has_path, normalize_inbox_item, export_item, export_orders,
}
use misa_cybernetic_evolutio.WorkOrderInbox.Sets.{contains_all}
use misa_cybernetic_evolutio.WorkOrderInbox.Known.{known_keys}
use misa_cybernetic_evolutio.WorkOrderInbox.Directory.{open_entry}
use misa_cybernetic_evolutio.WorkOrderInbox.Views.{shown}
use misa_cybernetic_evolutio.WorkOrderInbox.InStep.{IsInStep, export_item-IsInStep}
use misa_cybernetic_evolutio.WorkOrderInbox.Cover.{
  group_of, file_of, brought_by, normalize-IsSettled, normalize-brought, normalize-knows,
}
use misa_cybernetic_evolutio.WorkOrderInbox.Growth.{
  covered, set_shown, is_free_in, export_item-grows, export_item-has_path,
}

-- A path is not in the way: the group has an open item, or the path is not taken.
unfoldable pub is_free : Texts → List Entry → Order → Bool
is_free t disk o =
    not (is_none (open_entry t (group_of t o) disk)) || not (any (has_path (file_of t o)) disk)

abbrev pub is_apart : Texts → Order → Order → Bool
is_apart t o p = not (str_eq (file_of t o) (file_of t p)) || str_eq (group_of t o) (group_of t p)

-- Orders of different groups have different files.
unfoldable pub are_apart : Texts → List Order → Bool
are_apart t [] = true
are_apart t (o ∷ orders) = all (is_apart t o) orders && are_apart t orders

module _ (t : Texts) where
  unfoldable pub free : ExportState → Order → Bool
  free s o = is_free_in t s (group_of t o) (file_of t o)

  unfoldable pub covers : ExportState → Order → Bool
  covers s o = covered (shown t (group_of t o) s) (brought_by t o)

  module _ (r : Review) (f : Option String) (c n : Instant) where
    unfoldable pub step : ExportState → Order → ExportState
    step s o = export_item t s (normalize_inbox_item t o r f c n) c n

    pub step-IsInStep : (s : ExportState) (o : Order) → IsInStep t s → IsInStep t (step s o)
    unfolding step
    step-IsInStep s o i =
        export_item-IsInStep t s (normalize_inbox_item t o r f c n) c n i
          (normalize-IsSettled t o r f c n)

    step-has_path :
        (s : ExportState) (o : Order) (p : String)
        → (not (is_none (shown t (group_of t o) s)) || not (str_eq (file_of t o) p)) ≡ true
        → any (has_path p) (step s o).disk ≡ any (has_path p) s.disk
    unfolding step normalize_inbox_item
    step-has_path s o p h = export_item-has_path t s (normalize_inbox_item t o r f c n) c n p h

    module _
        (hash_present : (g : String) (s : Option String) (k r : String)
          → truthy (t.occurrence_hash g s k r) ≡ true)
        (source_present : (o : Order) → truthy (t.source_hash o) ≡ true) where
      -- A step for an order whose file is free sets what its group shows to keys that cover it.
      step-grows :
          (s : ExportState) (o : Order)
          → IsInStep t s
          → free s o ≡ true
          → (p : String × List String) × (((h : String)
                → shown t h (step s o) ≡ set_shown (group_of t o) p h (shown t h s))
              × (contains_all p.1 (brought_by t o) ≡ true)
              × ((keys : List String)
                  → covered (shown t (group_of t o) s) keys ≡ true
                  → contains_all p.1 keys ≡ true))
      unfolding step free normalize_inbox_item
      step-grows s o i w =
          let item = normalize_inbox_item t o r f c n in
          let brought = normalize-brought t o r f c n in
          let grown = export_item-grows t s item c n i w (
            ap (contains_all (known_keys t item)) brought
            ∙ normalize-knows t hash_present source_present o r f c n) in
          (grown.0, (grown.1.0, sym (ap (contains_all grown.0.1) brought) ∙ grown.1.1, grown.1.2))

      step-free :
          (s : ExportState) (o q : Order)
          → IsInStep t s
          → free s o ≡ true
          → is_apart t o q ≡ true
          → free s q ≡ true
          → free (step s o) q ≡ true
      unfolding free
      step-free s o q i w a v =
          let grown = step-grows s o i w in
          elim (Bool-cases (str_eq (group_of t o) (group_of t q))) [
            | inl e ↦ ground (arith, e, ap (λ x. is_none x) (grown.1.0 (group_of t q)))
            | inr e ↦ ground (
              arith,
              e,
              a,
              v,
              ap (λ x. is_none x) (grown.1.0 (group_of t q)),
              step-has_path s o (file_of t q),
            )
          ]

      step-covers :
          (s : ExportState) (o : Order)
          → IsInStep t s
          → free s o ≡ true
          → covers (step s o) o ≡ true
      unfolding covers
      step-covers s o i w =
          let grown = step-grows s o i w in
          ap (λ x. covered x (brought_by t o)) (grown.1.0 (group_of t o))
          ∙ ground (arith, grown.1.1, eq_iff (group_of t o) (group_of t o))

      step-covers_still :
          (s : ExportState) (o q : Order)
          → IsInStep t s
          → free s o ≡ true
          → covers s q ≡ true
          → covers (step s o) q ≡ true
      unfolding covers
      step-covers_still s o q i w h =
          let grown = step-grows s o i w in
          ap (λ x. covered x (brought_by t q)) (grown.1.0 (group_of t q))
          ∙ ground (
            arith,
            h,
            grown.1.2 (brought_by t q),
            eq_iff (group_of t o) (group_of t q),
            λ (e : group_of t o ≡ group_of t q).
                ap (λ (g : String). covered (shown t g s) (brought_by t q)) e,
          )

      free_later :
          (s : ExportState) (o : Order) (orders : List Order)
          → IsInStep t s
          → free s o ≡ true
          → all (is_apart t o) orders ≡ true
          → all (free s) orders ≡ true
          → all (free (step s o)) orders ≡ true
      free_later s o [] i w a v = refl
      free_later s o (q ∷ orders) i w a v =
          ground (arith, a, v, step-free s o q i w, free_later s o orders i w)

      -- Once covered, an order stays so.
      export_orders-covers_still :
          (orders : List Order) (s : ExportState) (q : Order)
          → IsInStep t s
          → all (free s) orders ≡ true
          → are_apart t orders ≡ true
          → covers s q ≡ true
          → covers (export_orders t r f c n orders s) q ≡ true
      unfolding export_orders are_apart step
      export_orders-covers_still [] s q i v a h = h
      export_orders-covers_still (o ∷ orders) s q i v a h =
          let frees = and-true _ _ v in
          let aparts = and-true _ _ a in
          export_orders-covers_still orders (step s o) q (step-IsInStep s o i)
            (free_later s o orders i frees.0 aparts.0 frees.1) aparts.1
            (step-covers_still s o q i frees.0 h)

      pub export_orders-covers :
          (orders : List Order) (s : ExportState)
          → IsInStep t s
          → all (free s) orders ≡ true
          → are_apart t orders ≡ true
          → IsInStep t (export_orders t r f c n orders s)
            × (all (covers (export_orders t r f c n orders s)) orders ≡ true)
      unfolding export_orders are_apart step
      export_orders-covers [] s i v a = (i, refl)
      export_orders-covers (o ∷ orders) s i v a =
          let frees = and-true _ _ v in
          let aparts = and-true _ _ a in
          let later = free_later s o orders i frees.0 aparts.0 frees.1 in
          let rest = export_orders-covers orders (step s o) (step-IsInStep s o i) later aparts.1 in
          (
            rest.0,
            ground (
              arith,
              rest.1,
              export_orders-covers_still orders (step s o) o (step-IsInStep s o i) later aparts.1
                  (step-covers s o i frees.0),
            ),
          )
