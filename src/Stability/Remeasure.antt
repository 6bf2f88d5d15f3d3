-- ===== src/Stability/Remeasure.antt =====
-- A measured ticket is measured again by `summarizeHistoricalPostDeployResults` and by
-- `reviewStabilityIndicators` (scripts/lib/post-deploy-measurement.mjs, stability-monitor.mjs).
use misa_cybernetic_evolutio.Stability.Checked.{
  and_then-returned, returned-injective, Checked, measured-Checked, number-read, number-again,
}
use misa_cybernetic_evolutio.Prelude.{
  ℕ, String, true, ◌≡◌, refl, ap, ◌∙◌, inl, inr, Option, none, some, str_eq, includes, get_or,
  Bool-cases, arith, ◌++◌, [], ◌∷◌,
}
use misa_cybernetic_evolutio.Stability.Numbers.{Numbers}
use misa_cybernetic_evolutio.Stability.Measurement.{
  returned, and_then, GivenWindow, Window, normalize_measurement_window, window_kind, window_value,
  window_kinds, directions, candidate_kinds, Ticket, Measured, as_finite_number, finite_or_null,
  measured_ticket, measure_post_deploy_ticket, map_some, measure_numbers, measured_at,
}

window_kind-again :
    (kind : Option String) → window_kind (some (window_kind kind)) ≡ window_kind kind
window_kind-again none = refl
window_kind-again (some kind) = elim (Bool-cases (includes window_kinds kind)) [
  | inl e ↦ rw (e, e) refl
  | inr e ↦ rw e refl
]

window_value-again : (v : Option ℕ) → window_value (some (window_value v)) ≡ window_value v
window_value-again none = refl
window_value-again (some v) = ground arith

abbrev pub given_window : Window → GivenWindow
given_window w = record { kind = some w.kind; value = some w.value }

window-again :
    (w : Option GivenWindow)
    → normalize_measurement_window (some (given_window (normalize_measurement_window w)))
      ≡ normalize_measurement_window w
unfolding normalize_measurement_window
window-again none = refl
window-again (some w) = rw (window_kind-again w.kind, window_value-again w.value) refl

module _ (n : Numbers) (deploy_id : String → String → String) where
  -- A measured ticket as the packet that it is.
  abbrev pub as_ticket : Measured n deploy_id → Ticket n deploy_id
  as_ticket m = record {
    deployment_id = some m.deployment_id;
    candidate_id = m.candidate_id;
    candidate_kind = m.candidate_kind;
    route_target = some m.route_target;
    setpoint_metric_id = m.setpoint_metric_id;
    target_value = n.of_num m.target_value;
    tolerance = n.of_num m.tolerance;
    direction = m.direction;
    pre_deploy_value = n.of_num m.pre_deploy_value;
    post_deploy_value = map_some n deploy_id n.of_num m.post_deploy_value;
    measurement_window = some (given_window m.measurement_window);
    evidence = some m.evidence;
  }

  -- The same measurement with one more entry of evidence.
  abbrev pub noted : String → Measured n deploy_id → Measured n deploy_id
  noted now m = record m { evidence = m.evidence ++ measured_at now ∷ [] }

  again-made :
      (now later : String) (t : Ticket n deploy_id) (route : String) (target tolerance pre : n.Num)
      (post : Option n.Num)
      → let m = measured_ticket n deploy_id now t route target tolerance pre post in
        measured_ticket n deploy_id later (as_ticket m) route target tolerance pre post
        ≡ noted later m
  unfolding measured_ticket
  again-made now later t route target tolerance pre post =
      let m = measured_ticket n deploy_id now t route target tolerance pre post in
      ap (λ (w : Window). noted later (record m { measurement_window = w }))
        (window-again t.measurement_window)

  numbers-read :
      (now : String) (t : Ticket n deploy_id) (route : String) (target tolerance pre : n.Num)
      (post : Option n.Num)
      → n.read t.target_value ≡ some target
      → n.read t.tolerance ≡ some tolerance
      → n.read t.pre_deploy_value ≡ some pre
      → finite_or_null n deploy_id t.post_deploy_value "post_deploy_value" ≡ returned post
      → measure_numbers n deploy_id now t route
        ≡ returned (
            measured_ticket n deploy_id now t route target
              (n.max (n.of_count 0) tolerance)
              pre
              post)
  unfolding measure_numbers and_then
  numbers-read now t route target tolerance pre post e1 e2 e3 e4 =
      rw
        (
          measure_numbers,
          number-again n deploy_id t.target_value "target_value" target e1,
          number-again n deploy_id t.tolerance "tolerance" tolerance e2,
          number-again n deploy_id t.pre_deploy_value "pre_deploy_value" pre e3,
          e4,
        )
        refl

  guards-pass :
      (now later : String) (t : Ticket n deploy_id) (route : String) (target tolerance pre : n.Num)
      (post : Option n.Num)
      → includes directions t.direction ≡ true
      → includes candidate_kinds t.candidate_kind ≡ true
      → str_eq route t.candidate_kind ≡ true
      → let m = measured_ticket n deploy_id now t route target tolerance pre post in
        measure_post_deploy_ticket n deploy_id later (as_ticket m)
        ≡ measure_numbers n deploy_id later (as_ticket m) route
  unfolding measure_post_deploy_ticket measured_ticket
  guards-pass now later t route target tolerance pre post d k r =
      rw (measure_post_deploy_ticket, d, k, r) refl

  module _
      (reads : (raw : n.Raw) (x : n.Num)
        → n.read raw ≡ some x
        → (n.read (n.of_num x) ≡ some x)
          × (n.read (n.of_num (n.max (n.of_count 0) x)) ≡ some (n.max (n.of_count 0) x)))
      (floors : (x : n.Num)
        → n.max (n.of_count 0) (n.max (n.of_count 0) x) ≡ n.max (n.of_count 0) x) where
    some-again :
        (value : n.Raw) (x : n.Num) (field : String)
        → n.read value ≡ some x
        → finite_or_null n deploy_id (some (n.of_num x)) field ≡ returned (some x)
    unfolding finite_or_null as_finite_number and_then
    some-again value x field h = rw (as_finite_number, (reads value x h).0) refl

    null-again :
        (value : Option n.Raw) (field : String) (post : Option n.Num)
        → finite_or_null n deploy_id value field ≡ returned post
        → finite_or_null n deploy_id (map_some n deploy_id n.of_num post) field ≡ returned post
    unfolding finite_or_null
    null-again none field post h = rw (returned-injective post none h) refl
    null-again (some value) field post h =
        let (x, read, made) =
          and_then-returned (as_finite_number n deploy_id value field) _ post h in
        rw (returned-injective post (some x) made)
          (some-again value x field (number-read n deploy_id value field x read))

    made-again :
        (now later : String) (t : Ticket n deploy_id) (m : Measured n deploy_id)
        (c : Checked n deploy_id now t m)
        → let route = get_or t.route_target t.candidate_kind in
          let floor = n.max (n.of_count 0) c.tolerance in
          let made = measured_ticket n deploy_id now t route c.target floor c.pre c.post in
          measure_numbers n deploy_id later (as_ticket made) route ≡ returned (noted later made)
    unfolding measured_ticket
    made-again now later t m c =
        let route = get_or t.route_target t.candidate_kind in
        let floor = n.max (n.of_count 0) c.tolerance in
        let made = measured_ticket n deploy_id now t route c.target floor c.pre c.post in
        numbers-read later (as_ticket made) route c.target floor c.pre c.post
          (reads t.target_value c.target c.target_read).0
          (reads t.tolerance c.tolerance c.tolerance_read).1
          (reads t.pre_deploy_value c.pre c.pre_read).0
          (null-again t.post_deploy_value "post_deploy_value" c.post c.post_read)
        ∙ ap
            (λ (x : n.Num).
              returned
                (measured_ticket n deploy_id later (as_ticket made) route c.target x c.pre c.post))
            (floors c.tolerance)
        ∙ ap (λ (x : Measured n deploy_id). returned x)
            (again-made now later t route c.target floor c.pre c.post)

    -- Where a finite number that `Number` has read is read as itself again, as is its maximum with 0,
    -- and `Math.max(0, x)` is the same when it is taken twice: a ticket that was measured can be
    -- measured again at any time, and the second measurement is the first in every part but the
    -- evidence, to which it adds one entry, with its own time.
    pub measure-measure :
        (now later : String) (t : Ticket n deploy_id) (m : Measured n deploy_id)
        → measure_post_deploy_ticket n deploy_id now t ≡ returned m
        → measure_post_deploy_ticket n deploy_id later (as_ticket m)
          ≡ returned (record m { evidence = m.evidence ++ measured_at later ∷ [] })
    measure-measure now later t m h =
        let c = measured-Checked n deploy_id now t m h in
        let route = get_or t.route_target t.candidate_kind in
        rw c.made (
          guards-pass now later t route c.target (n.max (n.of_count 0) c.tolerance) c.pre c.post
            c.direction c.kind c.route
          ∙ made-again now later t m c)
