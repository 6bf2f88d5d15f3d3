-- ===== src/Stability/Streak.antt =====
-- The streak of failed replays at the end of the results: `trailingFailureStreak` and the tail that
-- `skillReplayFailureIndicator` cuts off (scripts/lib/stability-monitor.mjs).
use misa_cybernetic_evolutio.Prelude.{
  ℕ, ◌+◌, ◌-◌, ◌≤◌, false, not, ◌&&◌, ◌≡◌, refl, ap, ◌∙◌, inl, inr, List, [], ◌∷◌, ◌++◌, length,
  ◌==◌, if◌then◌else◌, Bool-cases, All, arith,
}
use misa_cybernetic_evolutio.Stability.Monitor.{
  Replay, reverse_onto, leading_failures, trailing_failure_streak, drop, failed_tail,
}

reverse_onto-append :
    (xs ys zs : List Replay) → reverse_onto xs (ys ++ zs) ≡ reverse_onto xs ys ++ zs
unfolding reverse_onto
reverse_onto-append [] ys zs = refl
reverse_onto-append (x ∷ xs) ys zs = reverse_onto-append xs (x ∷ ys) zs

length-reverse_onto : (xs ys : List Replay) → length (reverse_onto xs ys) ≡ length xs + length ys
unfolding reverse_onto
length-reverse_onto [] ys = omega arith
length-reverse_onto (x ∷ xs) ys = omega (arith, length-reverse_onto xs (x ∷ ys))

leading_failures-le : (xs : List Replay) → leading_failures xs ≤ length xs
unfolding leading_failures
leading_failures-le [] = omega arith
leading_failures-le (x ∷ xs) = ground (arith, leading_failures-le xs)

leading_failures-append_one :
    (xs : List Replay) (x : Replay)
    → leading_failures (xs ++ x ∷ []) ≡ (
        if leading_failures xs == length xs && not x.replay_passed
        then leading_failures xs + 1
        else leading_failures xs)
unfolding leading_failures
leading_failures-append_one [] x = ground arith
leading_failures-append_one (y ∷ xs) x =
    ground (arith, leading_failures-append_one xs x, leading_failures-le xs)

streak-le : (xs : List Replay) → trailing_failure_streak xs ≤ length xs
unfolding trailing_failure_streak
streak-le xs = omega (arith, leading_failures-le (reverse_onto xs []), length-reverse_onto xs [])

-- The streak by recursion from the front.
streak-cons :
    (x : Replay) (xs : List Replay)
    → trailing_failure_streak (x ∷ xs) ≡ (
        if trailing_failure_streak xs == length xs && not x.replay_passed
        then trailing_failure_streak xs + 1
        else trailing_failure_streak xs)
unfolding trailing_failure_streak reverse_onto
streak-cons x xs =
    ap (λ (ys : List Replay). leading_failures ys) (reverse_onto-append xs [] (x ∷ []))
    ∙ leading_failures-append_one (reverse_onto xs []) x
    ∙ ground (arith, length-reverse_onto xs [])

abbrev pub Failed : Replay → Type 0
Failed r = r.replay_passed ≡ false

drop_nothing : (xs : List Replay) → drop 0 xs ≡ xs
unfolding drop
drop_nothing [] = refl
drop_nothing (x ∷ xs) = refl

whole-Failed : (xs : List Replay) → trailing_failure_streak xs ≡ length xs → All Failed xs
whole-Failed [] h = tt
whole-Failed (x ∷ xs) h = (
  ground (arith, h, streak-cons x xs, streak-le xs),
  whole-Failed xs (ground (arith, h, streak-cons x xs, streak-le xs)),
)

failed_tail-cons :
    (x : Replay) (xs : List Replay)
    → failed_tail (x ∷ xs) ≡ (
        if trailing_failure_streak xs == length xs && not x.replay_passed
        then x ∷ xs
        else failed_tail xs)
unfolding failed_tail drop
failed_tail-cons x xs =
    elim (Bool-cases (trailing_failure_streak xs == length xs && not x.replay_passed)) [
      | inl e ↦
          let none_kept : length xs + 1 - trailing_failure_streak (x ∷ xs) ≡ 0 =
            ground (arith, e, streak-cons x xs) in
          ground (arith, e, none_kept)
      | inr e ↦
          let same : trailing_failure_streak (x ∷ xs) ≡ trailing_failure_streak xs =
            streak-cons x xs ∙ (rw e refl) in
          let fewer : length xs + 1 - trailing_failure_streak (x ∷ xs) - 1
              ≡ length xs - trailing_failure_streak xs =
            omega (arith, same) in
          let kept : drop (length xs + 1 - trailing_failure_streak (x ∷ xs) - 1) xs
              ≡ drop (length xs - trailing_failure_streak xs) xs =
            ap (λ (k : ℕ). drop k xs) fewer in
          ground (arith, e, same, streak-le xs, kept)
    ]

-- The tail that is cut off the results has the length of the streak, the results end with it, and
-- every result in it failed.
pub streak-failed_tail :
    (results : List Replay)
    → (kept : List Replay) × (results ≡ kept ++ failed_tail results)
      × (length (failed_tail results) ≡ trailing_failure_streak results)
      × All Failed (failed_tail results)
streak-failed_tail [] = (
  [],
  unfold failed_tail drop in refl,
  unfold failed_tail drop trailing_failure_streak in refl,
  unfold failed_tail drop in tt,
)
streak-failed_tail (x ∷ xs) =
    let (kept, split, long, failed) = streak-failed_tail xs in
    elim (Bool-cases (trailing_failure_streak xs == length xs && not x.replay_passed)) [
      | inl e ↦ (
        [],
        rw (failed_tail-cons x xs, e) refl,
        rw (failed_tail-cons x xs, streak-cons x xs, e) (ground (arith, e)),
        rw (failed_tail-cons x xs, e) (ground (arith, e), whole-Failed xs (ground (arith, e))),
      )
      | inr e ↦ (
        x ∷ kept,
        rw (failed_tail-cons x xs, e) (ap (λ (ys : List Replay). x ∷ ys) split),
        rw (failed_tail-cons x xs, streak-cons x xs, e) long,
        rw (failed_tail-cons x xs, e) failed,
      )
    ]

streak-Failed : (xs : List Replay) → All Failed xs → trailing_failure_streak xs ≡ length xs
streak-Failed [] h = unfold trailing_failure_streak in refl
streak-Failed (x ∷ xs) h = ground (arith, streak-cons x xs, streak-Failed xs h.1, h.0)

-- Of results that end with results that all failed, the streak is at least as long as those.
pub streak-longest :
    (older recent : List Replay)
    → All Failed recent
    → length recent ≤ trailing_failure_streak (older ++ recent)
streak-longest [] recent h = omega (arith, streak-Failed recent h)
streak-longest (x ∷ older) recent h =
    ground (arith, streak-cons x (older ++ recent), streak-longest older recent h)
