-- ===== src/Prelude/Values.antt =====
-- JavaScript values that may be missing. `none` stands for `null` and `undefined`, which the code
-- modelled here never tells apart.
use Prim.Native.String.{String}
use mathlib.Core.Bool.{Bool, true, false, not}
use mathlib.Core.List.{List}
use mathlib.Core.Option.{Option, none, some}
use text.Mathlib.Text.{◌==◌}
use misa_cybernetic_evolutio.Prelude.Lists.{any}

-- `or_else a b` is `a ?? b` with an optional right side, `get_or a b` with a plain one.

abbrev pub or_else {ℓ} : {A : Type ℓ} → Option A → Option A → Option A
or_else none b = b
or_else (some a) b = some a

abbrev pub get_or {ℓ} : {A : Type ℓ} → Option A → A → A
get_or none d = d
get_or (some a) d = a

abbrev pub is_none {ℓ} : {A : Type ℓ} → Option A → Bool
is_none none = true
is_none (some a) = false

-- `v === true` and `v === false`
abbrev pub is_true : Option Bool → Bool
is_true none = false
is_true (some b) = b

abbrev pub is_false : Option Bool → Bool
is_false none = false
is_false (some b) = not b

-- The truth of a text: the empty text is false.
abbrev pub truthy : String → Bool
truthy s = not (s == "")

-- `xs.includes(s)`, `new Set(xs).has(s)`
abbrev pub includes : List String → String → Bool
includes xs s = any (λ x. x == s) xs
