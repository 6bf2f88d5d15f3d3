-- ===== src/Stability/Review.antt =====
-- `summarizeHistoricalPostDeployResults` and `reviewPostDeployTickets` of
-- scripts/lib/post-deploy-measurement.mjs. The tables of counts by decision, route and metric, and
-- the copied fields of the compact results, are left out.
use misa_cybernetic_evolutio.Stability.Checked.{
  and_then-returned, returned-injective, measured-Checked,
}
use misa_cybernetic_evolutio.Prelude.{
  ℕ, String, ◌≡◌, refl, some, List, [], ◌∷◌, map, filter, length, arith, All, ◌∙◌,
}
use misa_cybernetic_evolutio.Stability.Numbers.{Numbers}
use misa_cybernetic_evolutio.Stability.Measurement.{
  Outcome, returned, and_then, is_negative, Ticket, Measured, measured_ticket,
  measure_post_deploy_ticket,
}
use misa_cybernetic_evolutio.Stability.Remeasure.{as_ticket, noted, measure-measure}
use misa_cybernetic_evolutio.Stability.Monitor.{measure_all}

pub record HistoricalSummary : Type 0 where
  pub result_count : ℕ
  pub confirmed_negative_count : ℕ

module _ (n : Numbers) (deploy_id : String → String → String) where
  unfoldable pub summarize_historical_post_deploy_results :
      (now : String) → List (Ticket n deploy_id) → Outcome HistoricalSummary
  unfolding and_then
  summarize_historical_post_deploy_results now results =
      and_then (measure_all n deploy_id now results) (λ measured. returned (record {
        result_count = length measured;
        confirmed_negative_count =
            length (filter (λ m. is_negative m.decision_at_window_end) measured);
      }))

  pub record PostDeployReview : Type 0 where
    pub summary : HistoricalSummary
    pub post_deploy_results : List (Measured n deploy_id)
    pub rollback_recommendations : List (Measured n deploy_id)
    pub damping_recommendations : List (Measured n deploy_id)

  -- The measured tickets are given to the summary, which measures them again.
  unfoldable pub review_post_deploy_tickets :
      (now : String) → List (Ticket n deploy_id) → Outcome PostDeployReview
  unfolding and_then summarize_historical_post_deploy_results
  review_post_deploy_tickets now tickets =
      and_then (measure_all n deploy_id now tickets) (λ results.
        and_then
          (summarize_historical_post_deploy_results now (map (as_ticket n deploy_id) results))
          (λ summary. returned (record {
            summary = summary;
            post_deploy_results = results;
            rollback_recommendations = filter (λ m. m.rollback_recommended) results;
            damping_recommendations = filter (λ m. m.damping_recommended) results;
          })))

  abbrev Recommends : Measured n deploy_id → Type 0
  Recommends m =
      (m.rollback_recommended ≡ is_negative m.decision_at_window_end)
      × (m.damping_recommended ≡ is_negative m.decision_at_window_end)

  measured-Recommends :
      (now : String) (t : Ticket n deploy_id) (m : Measured n deploy_id)
      → measure_post_deploy_ticket n deploy_id now t ≡ returned m
      → Recommends m
  measured-Recommends now t m h =
      let c = measured-Checked n deploy_id now t m h in
      (rw c.made (unfold measured_ticket in refl), rw c.made (unfold measured_ticket in refl))

  -- The parts of a list that is measured.
  record Split (now : String) (t : Ticket n deploy_id) (ts : List (Ticket n deploy_id))
      (ms : List (Measured n deploy_id)) : Type 0 where
    first : Measured n deploy_id
    others : List (Measured n deploy_id)
    first_measured : measure_post_deploy_ticket n deploy_id now t ≡ returned first
    others_measured : measure_all n deploy_id now ts ≡ returned others
    made : ms ≡ first ∷ others

  measure_all-Split :
      (now : String) (t : Ticket n deploy_id) (ts : List (Ticket n deploy_id))
      (ms : List (Measured n deploy_id))
      → measure_all n deploy_id now (t ∷ ts) ≡ returned ms
      → Split now t ts ms
  unfolding measure_all
  measure_all-Split now t ts ms h =
      let (m, e, h1) = and_then-returned (measure_post_deploy_ticket n deploy_id now t) _ ms h in
      let (rest, e1, h2) = and_then-returned (measure_all n deploy_id now ts) _ ms h1 in
      record {
        first = m;
        others = rest;
        first_measured = e;
        others_measured = e1;
        made = returned-injective ms _ h2;
      }

  measure_all-Recommends :
      (now : String) (ts : List (Ticket n deploy_id)) (ms : List (Measured n deploy_id))
      → measure_all n deploy_id now ts ≡ returned ms
      → All Recommends ms × (length ms ≡ length ts)
  measure_all-Recommends now [] ms h =
      rw (returned-injective ms [] (unfold measure_all in h)) (tt, refl)
  measure_all-Recommends now (t ∷ ts) ms h =
      let s = measure_all-Split now t ts ms h in
      let (recommends, same) = measure_all-Recommends now ts s.others s.others_measured in
      rw s.made
        ((measured-Recommends now t s.first s.first_measured, recommends), omega (arith, same))

  recommended_count :
      (ms : List (Measured n deploy_id))
      → All Recommends ms
      → (length (filter (λ m. is_negative m.decision_at_window_end) ms)
          ≡ length (filter (λ m. m.rollback_recommended) ms))
        × (length (filter (λ m. is_negative m.decision_at_window_end) ms)
            ≡ length (filter (λ m. m.damping_recommended) ms))
  recommended_count [] h = (refl, refl)
  recommended_count (m ∷ ms) h =
      let (rollback, damping) = recommended_count ms h.1 in
      (ground (arith, h.0.0, rollback), ground (arith, h.0.1, damping))

  -- A later measurement adds evidence, and decides as the first did.
  noted-counts :
      (now : String) (ms : List (Measured n deploy_id))
      → (length (map (noted n deploy_id now) ms) ≡ length ms)
        × (length
              (filter (λ m. is_negative m.decision_at_window_end) (map (noted n deploy_id now) ms))
            ≡ length (filter (λ m. is_negative m.decision_at_window_end) ms))
  noted-counts now [] = (refl, refl)
  noted-counts now (m ∷ ms) =
      let (all_of, negative) = noted-counts now ms in
      (ground (arith, all_of), ground (arith, negative))

  module _
      (reads : (raw : n.Raw) (x : n.Num)
        → n.read raw ≡ some x
        → (n.read (n.of_num x) ≡ some x)
          × (n.read (n.of_num (n.max (n.of_count 0) x)) ≡ some (n.max (n.of_count 0) x)))
      (floors : (x : n.Num)
        → n.max (n.of_count 0) (n.max (n.of_count 0) x) ≡ n.max (n.of_count 0) x) where
    measure_all-again :
        (now later : String) (ts : List (Ticket n deploy_id)) (ms : List (Measured n deploy_id))
        → measure_all n deploy_id now ts ≡ returned ms
        → measure_all n deploy_id later (map (as_ticket n deploy_id) ms)
          ≡ returned (map (noted n deploy_id later) ms)
    unfolding measure_all
    measure_all-again now later [] ms h = rw (returned-injective ms [] h) refl
    measure_all-again now later (t ∷ ts) ms h =
        let s = measure_all-Split now t ts ms h in
        let one = measure-measure n deploy_id reads floors now later t s.first s.first_measured in
        let more = measure_all-again now later ts s.others s.others_measured in
        rw s.made (rw (measure_all, one, more, and_then) refl)

    -- Where a finite number that `Number` has read is read as itself again, as is its maximum with 0,
    -- and `Math.max(0, x)` is the same when it is taken twice: a review of tickets that can all be
    -- measured succeeds, its results are the measured tickets, as many as were given, and the negative
    -- results that the summary counts, of tickets that it measures again, are as many as the rollbacks
    -- and as the dampings that the review recommends.
    pub review-recommends :
        (now : String) (tickets : List (Ticket n deploy_id)) (results : List (Measured n deploy_id))
        → measure_all n deploy_id now tickets ≡ returned results
        → (r : PostDeployReview) × (review_post_deploy_tickets now tickets ≡ returned r)
          × (r.post_deploy_results ≡ results)
          × (r.summary.result_count ≡ length tickets)
          × (r.summary.confirmed_negative_count ≡ length r.rollback_recommendations)
          × (r.summary.confirmed_negative_count ≡ length r.damping_recommendations)
    unfolding review_post_deploy_tickets
    review-recommends now tickets results h =
        let again = measure_all-again now now tickets results h in
        let (recommends, same) = measure_all-Recommends now tickets results h in
        let (rollback, damping) = recommended_count results recommends in
        let (all_of, negative) = noted-counts now results in
        (
          record {
            summary = record {
              result_count = length (map (noted n deploy_id now) results);
              confirmed_negative_count = length (
                  filter (λ m. is_negative m.decision_at_window_end)
                    (map (noted n deploy_id now) results));
            };
            post_deploy_results = results;
            rollback_recommendations = filter (λ m. m.rollback_recommended) results;
            damping_recommendations = filter (λ m. m.damping_recommended) results;
          },
          rw
              (
                review_post_deploy_tickets, h, and_then, summarize_historical_post_deploy_results,
                again,
              )
              refl,
          refl,
          all_of ∙ same,
          negative ∙ rollback,
          negative ∙ damping,
        )
