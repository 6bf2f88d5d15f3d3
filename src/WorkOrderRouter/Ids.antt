-- ===== src/WorkOrderRouter/Ids.antt =====
-- How scripts/lib/work-order-router.mjs names its work orders: `stableSlug`, and the id or index of
-- a repair ticket.
use Prim.Native.String.{◌++◌}
use misa_cybernetic_evolutio.Prelude.{
  ℕ, zero, suc, ◌/◌, ◌%◌, String, truthy, ltb, ◌==◌, if◌then◌else◌,
}

abbrev digit : ℕ → String
digit n =
    if n == 0
    then "0"
    else if n == 1
    then "1"
    else if n == 2
    then "2"
    else if n == 3
    then "3"
    else if n == 4
    then "4"
    else if n == 5
    then "5"
    else if n == 6
    then "6"
    else if n == 7
    then "7"
    else if n == 8
    then "8"
    else "9"

decimal_on : ℕ → ℕ → String
decimal_on zero n = digit n
decimal_on (suc fuel) n =
    let front = decimal_on fuel (n / 10) in if ltb n 10 then digit n else front ++ digit (n % 10)

-- `String(n)`: a number has no more digits than its value, so the fuel is enough.
unfoldable pub decimal : ℕ → String
unfolding decimal_on
decimal n = decimal_on n n

-- `ticket.ticket_id || index`, where an id that is missing is empty and the index 0, which
-- `stableSlug` takes for no value, is empty too.
unfoldable pub id_or_index : String → ℕ → String
unfolding decimal
id_or_index id index = if truthy id then id else if index == 0 then "" else decimal index

-- `slug` is the chain of `replace`, `toLowerCase` and `slice(0, 120)` of JavaScript on a text.
unfoldable pub stable_slug : (String → String) → String → String
stable_slug slug value =
    let cleaned = slug (if truthy value then value else "work-order") in
    if truthy cleaned then cleaned else "work-order"

unfoldable pub repair_ticket_order_id : (String → String) → String → ℕ → String
unfolding stable_slug id_or_index
repair_ticket_order_id slug ticket_id index =
    "wo-" ++ stable_slug slug (id_or_index ticket_id index)

unfoldable pub quality_report_order_id : (String → String) → String → String
unfolding stable_slug
quality_report_order_id slug report_date = "wo-operator-quality-" ++ stable_slug slug report_date
