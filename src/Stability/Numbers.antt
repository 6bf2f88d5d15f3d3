-- ===== src/Stability/Numbers.antt =====
-- JavaScript's numbers as scripts/lib/post-deploy-measurement.mjs, scripts/lib/stability-monitor.mjs
-- and scripts/lib/evolution-tournament-scoring.mjs use them: floating point, so its operations are given.
use misa_cybernetic_evolutio.Prelude.{ℕ, Bool, Option}

-- `Raw` is a value of a packet, and `read` the finite number that `Number(value)` gives of it;
-- `of_num` is a number as such a value, and `of_count` a count as a number.
pub record Numbers : Type 1 where
  pub Num : Type 0
  pub Raw : Type 0
  pub read : Raw → Option Num
  pub of_num : Num → Raw
  pub of_count : ℕ → Num
  pub add : Num → Num → Num
  pub sub : Num → Num → Num
  pub mul : Num → Num → Num
  pub div : Num → Num → Num
  pub neg : Num → Num
  pub abs : Num → Num  -- Math.abs
  pub max : Num → Num → Num  -- Math.max
  pub min : Num → Num → Num  -- Math.min
  pub nearest : Num → Num  -- Math.round
  pub lt : Num → Num → Bool
  pub le : Num → Num → Bool

module _ (n : Numbers) where
  -- `round` of scripts/lib/evolution-tournament-utils.mjs
  unfoldable pub round : n.Num → n.Num
  round value = n.div (n.nearest (n.mul value (n.of_count 1000))) (n.of_count 1000)
