-- ===== src/Billing/Meters/Totals.antt =====
-- How a run of the shipment ends.
use native.Mathlib.Nat.{le_trans}
use absolo_cloud_services.Base.{
  ℕ, zero, suc, ◌+◌, ◌≤◌, String, ◌⧺◌, ◌≡◌, refl, ap, ◌∙◌, inl, inr, some, leb, List, [], ◌∷◌,
  filter, length, arith,
}
use absolo_cloud_services.Result.{ok, Error, Result-cases}
use absolo_cloud_services.Runtime.Env.{Env}
use absolo_cloud_services.Runtime.State.{State}
use absolo_cloud_services.Runtime.Action.{Action, pure, ◌>>=◌, ◌>>◌, in_table}
use absolo_cloud_services.Runtime.Laws.{>>=-ok, >>=-err, catch-ok, catch-err, insert_or_ignore-ok}
use absolo_cloud_services.Runtime.Tables.Billing.{meter_shipments, usage_hourly}
use absolo_cloud_services.Schema.Billing.{UsageHourly}
use absolo_cloud_services.Dates.{start_of_hour}
use absolo_cloud_services.Billing.Invoices.{take}
use absolo_cloud_services.Billing.Meters.{
  Outcome, Shipment, count_outcome, record_failure, ship_row, ship_one, ship_rows, ship_batch,
  ship_pending_meters,
}

module _ ⦃env : Env⦄ where
  record_failure-ok :
      (row : UsageHourly) (batch_id : String) (e : Error) (s : State)
      → (record_failure row batch_id e s).0 ≡ ok tt
  unfolding record_failure
  record_failure-ok row batch_id e s = insert_or_ignore-ok meter_shipments _ _ refl

  abbrev total : ℕ × ℕ → ℕ
  total counts = counts.0 + counts.1

  count_outcome_le :
      (o : Outcome) (counts : ℕ × ℕ) → total (count_outcome o counts) ≤ total counts + 1
  unfolding count_outcome
  count_outcome_le Outcome.skipped counts = omega arith
  count_outcome_le Outcome.shipped counts = omega arith

  -- The `catch` of the loop.
  failing : UsageHourly → String → ℕ × ℕ → Error → Action (ℕ × ℕ)
  failing row batch_id counts e = do record_failure row batch_id e; pure (counts.0, counts.1 + 1)

  ship_one-ok :
      (row : UsageHourly) (batch_id : String) (counts : ℕ × ℕ) (s : State)
      → (more : ℕ × ℕ) × ((ship_one row batch_id counts s).0 ≡ ok more)
        × (total more ≤ total counts + 1)
  unfolding ship_one failing
  ship_one-ok row batch_id counts s = elim (Result-cases (ship_row row batch_id s).0) [
    | inl (outcome, e) ↦
        let step = >>=-ok (ship_row row batch_id) (λ o. pure (count_outcome o counts)) s e in
        (
          count_outcome outcome counts,
          ap (λ o. o.0)
              (catch-ok (ship_row row batch_id >>= λ o. pure (count_outcome o counts))
                (failing row batch_id counts) s (ap (λ o. o.0) step)),
          count_outcome_le outcome counts,
        )
    | inr (e, thrown) ↦
        let step = >>=-err (ship_row row batch_id) (λ o. pure (count_outcome o counts)) s thrown in
        (
          (counts.0, counts.1 + 1),
          ap (λ o. o.0)
              (catch-err (ship_row row batch_id >>= λ o. pure (count_outcome o counts))
                  (failing row batch_id counts) s (ap (λ o. o.0) step)
                ∙ >>=-ok (record_failure row batch_id e) (λ _. pure (counts.0, counts.1 + 1)) _
                    (record_failure-ok row batch_id e _)),
          omega arith,
        )
  ]

  ship_rows-ok :
      (rows : List UsageHourly) (batch_id : String) (counts : ℕ × ℕ) (s : State)
      → (more : ℕ × ℕ) × ((ship_rows rows batch_id counts s).0 ≡ ok more)
        × (total more ≤ total counts + length rows)
  unfolding ship_rows
  ship_rows-ok [] batch_id counts s = (counts, refl, omega arith)
  ship_rows-ok (row ∷ rows) batch_id counts s =
      let (more, e, le) = ship_one-ok row batch_id counts s in
      let (most, e', le') = ship_rows-ok rows batch_id more (ship_one row batch_id counts s).1 in
      (
        most,
        ap (λ o. o.0) (>>=-ok (ship_one row batch_id counts) (λ m. ship_rows rows batch_id m) s e)
            ∙ e',
        omega (arith, le, le'),
      )

  length-take : {A : Type 0} (n : ℕ) (l : List A) → length (take n l) ≤ n
  unfolding take
  length-take zero l = omega arith
  length-take (suc n) [] = omega arith
  length-take (suc n) (a ∷ l) = omega (arith, length-take n l)

  ship_batch-ok :
      (rows : List UsageHourly) (s : State)
      → (shipment : Shipment) × ((ship_batch rows s).0 ≡ ok shipment)
        × (shipment.shipped + shipment.failed ≤ length rows)
  unfolding ship_batch
  ship_batch-ok [] s = (_, refl, omega arith)
  ship_batch-ok (row ∷ rows) s =
      let (counts, e, le) =
        ship_rows-ok (row ∷ rows) ("bat" ⧺ "_" ⧺ env.ulid s.tick) (0, 0)
          (record s { tick = s.tick + 1 }) in
      (
        record {
          shipped = counts.0;
          failed = counts.1;
          batch_id = some ("bat" ⧺ "_" ⧺ env.ulid s.tick);
        },
        ap (λ o. o.0)
            (>>=-ok (ship_rows (row ∷ rows) ("bat" ⧺ "_" ⧺ env.ulid s.tick) (0, 0))
              (λ c. pure (record {
                shipped = c.0;
                failed = c.1;
                batch_id = some ("bat" ⧺ "_" ⧺ env.ulid s.tick);
              }))
              (record s { tick = s.tick + 1 }) e),
        omega (arith, le),
      )

  -- Every run returns, whatever Stripe throws, and counts at most the 1000 rows that it takes.
  pub ship_pending_meters_returns :
      (s : State)
      → (shipment : Shipment) × ((ship_pending_meters s).0 ≡ ok shipment)
        × (shipment.shipped + shipment.failed ≤ 1000)
  unfolding ship_pending_meters
  ship_pending_meters_returns s =
      let (shipment, e, le) =
        ship_batch-ok
          (take 1000
            (filter (λ r. leb r.hour (start_of_hour (env.clock s.tick))) (in_table usage_hourly s)))
          (record s { tick = s.tick + 1 }) in
      (shipment, e, le_trans le (length-take 1000 _))
