-- ===== src/VectorStore/Records.antt =====
-- The records of scripts/lib/local-vector-store.mjs, and a `Map` of them by `record_id`.
use misa_cybernetic_evolutio.Prelude.{
  ◌+◌, String, Bool, false, ◌||◌, ◌≡◌, refl, Option, some, List, [], ◌∷◌, find?, find_last?, any,
  length, arith, str_eq, eq_iff, if◌then◌else◌, or_else,
}

-- The parts of a record that the store reads; text, vector and trace stay with it unread.
pub record VectorRecord : Type 0 where
  pub record_id : String
  pub batch_id : String
  pub kind : String
  pub route : String
  pub collection : String
  pub source_id : String
  pub source_kind : String
  pub original_source_id : String

abbrev pub has_key : String → VectorRecord → Bool
has_key id r = str_eq r.record_id id

-- `map.has(id)` and `map.get(id)`
abbrev pub has : String → List VectorRecord → Bool
has id records = any (has_key id) records

abbrev pub get : String → List VectorRecord → Option VectorRecord
get id records = find? (has_key id) records

-- `map.set(record.record_id, record)`: an old key keeps its place.
unfoldable pub set : VectorRecord → List VectorRecord → List VectorRecord
set r [] = r ∷ []
set r (x ∷ xs) = if str_eq x.record_id r.record_id then r ∷ xs else x ∷ set r xs

unfoldable pub set_all : List VectorRecord → List VectorRecord → List VectorRecord
unfolding set
set_all records [] = records
set_all records (r ∷ rs) = set_all (set r records) rs

-- The keys of a map differ.
abbrev pub IsUnique : List VectorRecord → Type 0
IsUnique [] = Unit
IsUnique (x ∷ xs) = (has x.record_id xs ≡ false) × IsUnique xs

pub has-set :
    (id : String) (r : VectorRecord) (xs : List VectorRecord)
    → has id (set r xs) ≡ (has_key id r || has id xs)
unfolding set
has-set id r [] = refl
has-set id r (x ∷ xs) = ground (
  arith,
  has-set id r xs,
  eq_iff x.record_id r.record_id,
  eq_iff x.record_id id,
  eq_iff r.record_id id,
)

pub get-set :
    (id : String) (r : VectorRecord) (xs : List VectorRecord)
    → get id (set r xs) ≡ (if has_key id r then some r else get id xs)
unfolding set
get-set id r [] = refl
get-set id r (x ∷ xs) = ground (
  arith,
  get-set id r xs,
  eq_iff x.record_id r.record_id,
  eq_iff x.record_id id,
  eq_iff r.record_id id,
)

pub set-IsUnique : (r : VectorRecord) (xs : List VectorRecord) → IsUnique xs → IsUnique (set r xs)
unfolding set
set-IsUnique r [] u = (refl, tt)
set-IsUnique r (x ∷ xs) u = ground (
  arith,
  set-IsUnique r xs u.1,
  has-set x.record_id r xs,
  eq_iff x.record_id r.record_id,
  eq_iff r.record_id x.record_id,
)

pub length-set :
    (r : VectorRecord) (xs : List VectorRecord)
    → length (set r xs) ≡ (if has r.record_id xs then length xs else length xs + 1)
unfolding set
length-set r [] = omega arith
length-set r (x ∷ xs) = ground (arith, length-set r xs)

pub set_all-IsUnique : (xs rs : List VectorRecord) → IsUnique xs → IsUnique (set_all xs rs)
unfolding set_all
set_all-IsUnique xs [] u = u
set_all-IsUnique xs (r ∷ rs) u = set_all-IsUnique (set r xs) rs (set-IsUnique r xs u)

-- The last record that was set under an id is the one that is found.
pub get-set_all :
    (id : String) (xs rs : List VectorRecord)
    → get id (set_all xs rs) ≡ or_else (find_last? (has_key id) rs) (get id xs)
unfolding set_all
get-set_all id xs [] = refl
get-set_all id xs (r ∷ rs) = ground (arith, get-set_all id (set r xs) rs, get-set id r xs)
