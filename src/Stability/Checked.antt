-- ===== src/Stability/Checked.antt =====
-- What a ticket has passed that `measurePostDeployTicket` of
-- scripts/lib/post-deploy-measurement.mjs measures.
use misa_cybernetic_evolutio.Prelude.{
  String, Bool, true, false, not, ◌≡◌, refl, ap, ◌∙◌, inl, inr, Option, some, str_eq, includes,
  get_or, if◌then◌else◌, Option-cases, sym,
}
use misa_cybernetic_evolutio.Stability.Numbers.{Numbers}
use misa_cybernetic_evolutio.Stability.Measurement.{
  Outcome, thrown, returned, MeasureError, and_then, directions, candidate_kinds, Ticket, Measured,
  as_finite_number, finite_or_null, measured_ticket, measure_post_deploy_ticket, measure_numbers,
  unsupported_direction, unsupported_candidate_kind, route_mismatch, not_finite,
}

pub and_then-returned {ℓ} :
    {A B : Type ℓ} (o : Outcome A) (f : A → Outcome B) (b : B)
    → and_then o f ≡ returned b
    → (a : A) × (o ≡ returned a) × (f a ≡ returned b)
unfolding and_then
and_then-returned (thrown e) f b h = cc
and_then-returned (returned a) f b h = (a, refl, h)

pub returned-injective {ℓ} : {A : Type ℓ} (a b : A) → returned b ≡ returned a → a ≡ b
returned-injective a b h = cc h

guard-returned {ℓ} :
    {A : Type ℓ} (ok : Bool) (e : MeasureError) (rest : Outcome A) (a : A)
    → (if not ok then thrown e else rest) ≡ returned a
    → (ok ≡ true) × (rest ≡ returned a)
guard-returned true e rest a h = (refl, h)
guard-returned false e rest a h = cc

module _ (n : Numbers) (deploy_id : String → String → String) where
  -- What a ticket that is measured has passed.
  pub record Checked (now : String) (t : Ticket n deploy_id) (m : Measured n deploy_id)
      : Type 0 where
    pub direction : includes directions t.direction ≡ true
    pub kind : includes candidate_kinds t.candidate_kind ≡ true
    pub route : str_eq (get_or t.route_target t.candidate_kind) t.candidate_kind ≡ true
    pub target : n.Num
    pub tolerance : n.Num
    pub pre : n.Num
    pub post : Option n.Num
    pub target_read : n.read t.target_value ≡ some target
    pub tolerance_read : n.read t.tolerance ≡ some tolerance
    pub pre_read : n.read t.pre_deploy_value ≡ some pre
    pub post_read :
        finite_or_null n deploy_id t.post_deploy_value "post_deploy_value" ≡ returned post
    pub made :
        m
        ≡ measured_ticket n deploy_id now t
            (get_or t.route_target t.candidate_kind)
            target
            (n.max (n.of_count 0) tolerance)
            pre
            post

  pub number-read :
      (value : n.Raw) (field : String) (x : n.Num)
      → as_finite_number n deploy_id value field ≡ returned x
      → n.read value ≡ some x
  unfolding as_finite_number
  number-read value field x h = elim (Option-cases (n.read value)) [
    | inl e ↦
        let unread : as_finite_number n deploy_id value field ≡ thrown (not_finite field) =
          rw (as_finite_number, e) refl in
        cc (h, unread)
    | inr (y, e) ↦
        let read : as_finite_number n deploy_id value field ≡ returned y =
          rw (as_finite_number, e) refl in
        e ∙ ap some (returned-injective y x (sym h ∙ read))
  ]

  pub number-again :
      (value : n.Raw) (field : String) (x : n.Num)
      → n.read value ≡ some x
      → as_finite_number n deploy_id value field ≡ returned x
  unfolding as_finite_number
  number-again value field x h = rw (as_finite_number, h) refl

  pub measured-Checked :
      (now : String) (t : Ticket n deploy_id) (m : Measured n deploy_id)
      → measure_post_deploy_ticket n deploy_id now t ≡ returned m
      → Checked now t m
  unfolding measure_post_deploy_ticket measure_numbers
  measured-Checked now t m h =
      let (direction, h1) =
        guard-returned (includes directions t.direction) unsupported_direction _ m h in
      let (kind, h2) =
        guard-returned (includes candidate_kinds t.candidate_kind) unsupported_candidate_kind _ m
          h1 in
      let (route, h3) =
        guard-returned (str_eq (get_or t.route_target t.candidate_kind) t.candidate_kind)
          route_mismatch _ m h2 in
      let (target, target_read, h4) =
        and_then-returned (as_finite_number n deploy_id t.target_value "target_value") _ m h3 in
      let (tolerance, tolerance_read, h5) =
        and_then-returned (as_finite_number n deploy_id t.tolerance "tolerance") _ m h4 in
      let (pre, pre_read, h6) =
        and_then-returned (as_finite_number n deploy_id t.pre_deploy_value "pre_deploy_value") _ m
          h5 in
      let (post, post_read, h7) =
        and_then-returned (finite_or_null n deploy_id t.post_deploy_value "post_deploy_value") _ m
          h6 in
      record {
        direction = direction;
        kind = kind;
        route = route;
        target = target;
        tolerance = tolerance;
        pre = pre;
        post = post;
        target_read = number-read t.target_value "target_value" target target_read;
        tolerance_read = number-read t.tolerance "tolerance" tolerance tolerance_read;
        pre_read = number-read t.pre_deploy_value "pre_deploy_value" pre pre_read;
        post_read = post_read;
        made = returned-injective m _ h7;
      }
