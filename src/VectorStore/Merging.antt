-- ===== src/VectorStore/Merging.antt =====
-- The merge of new records into the store: `mergeRecords` of scripts/lib/local-vector-store.mjs.
use misa_cybernetic_evolutio.Prelude.{
  ℕ, ◌+◌, false, ◌≡◌, refl, sym, ap, ◌∙◌, List, [], ◌∷◌, ◌++◌, length, arith, eq_iff, any-append,
}
use misa_cybernetic_evolutio.VectorStore.Records.{
  VectorRecord, has_key, has, set, set_all, IsUnique, length-set,
}
use misa_cybernetic_evolutio.VectorStore.Store.{merge_loop}

pub merge_loop-merged :
    (xs : List VectorRecord) (i u : ℕ) (rs : List VectorRecord)
    → (merge_loop xs i u rs).merged ≡ set_all xs rs
unfolding merge_loop set_all
merge_loop-merged xs i u [] = refl
merge_loop-merged xs i u (r ∷ rs) = merge_loop-merged (set r xs) _ _ rs

pub merge_loop-counts :
    (xs : List VectorRecord) (i u : ℕ) (rs : List VectorRecord)
    → (merge_loop xs i u rs).inserted + (merge_loop xs i u rs).updated ≡ i + u + length rs
unfolding merge_loop
merge_loop-counts xs i u [] = omega arith
merge_loop-counts xs i u (r ∷ rs) =
    ground
      (arith, merge_loop-counts (set r xs) (i + 1) u rs, merge_loop-counts (set r xs) i (u + 1) rs)

pub merge_loop-length :
    (xs : List VectorRecord) (i u : ℕ) (rs : List VectorRecord)
    → length (merge_loop xs i u rs).merged + i ≡ length xs + (merge_loop xs i u rs).inserted
unfolding merge_loop
merge_loop-length xs i u [] = refl
merge_loop-length xs i u (r ∷ rs) = ground (
  arith,
  length-set r xs,
  merge_loop-length (set r xs) i (u + 1) rs,
  merge_loop-length (set r xs) (i + 1) u rs,
)

set_new :
    (r : VectorRecord) (xs : List VectorRecord)
    → has r.record_id xs ≡ false
    → set r xs ≡ xs ++ r ∷ []
unfolding set
set_new r [] h = refl
set_new r (x ∷ xs) h = ground (arith, h, set_new r xs)

append_assoc_one :
    (xs : List VectorRecord) (r : VectorRecord) (rs : List VectorRecord)
    → (xs ++ r ∷ []) ++ rs ≡ xs ++ r ∷ rs
append_assoc_one [] r rs = refl
append_assoc_one (x ∷ xs) r rs = ap (λ (ys : List VectorRecord). x ∷ ys) (append_assoc_one xs r rs)

IsUnique-fresh :
    (xs : List VectorRecord) (r : VectorRecord) (rs : List VectorRecord)
    → IsUnique (xs ++ r ∷ rs)
    → has r.record_id xs ≡ false
IsUnique-fresh [] r rs u = refl
IsUnique-fresh (x ∷ xs) r rs u = ground (
  arith,
  u.0,
  any-append (has_key x.record_id) xs (r ∷ rs),
  IsUnique-fresh xs r rs u.1,
  eq_iff x.record_id r.record_id,
  eq_iff r.record_id x.record_id,
)

pub append_nil : (ys : List VectorRecord) → ys ++ [] ≡ ys
append_nil [] = refl
append_nil (y ∷ ys) = ap (λ (zs : List VectorRecord). y ∷ zs) (append_nil ys)

-- Records with new and different keys are put at the end of the map.
pub set_all_new : (xs rs : List VectorRecord) → IsUnique (xs ++ rs) → set_all xs rs ≡ xs ++ rs
unfolding set_all
set_all_new xs [] u = sym (append_nil xs)
set_all_new xs (r ∷ rs) u =
    let assoc = append_assoc_one xs r rs in
    let u' : IsUnique ((xs ++ r ∷ []) ++ rs) = rw assoc u in
    rw (set_new r xs (IsUnique-fresh xs r rs u)) (set_all_new (xs ++ r ∷ []) rs u' ∙ assoc)
