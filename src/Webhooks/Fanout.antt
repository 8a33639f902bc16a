-- ===== src/Webhooks/Fanout.antt =====
-- When an endpoint is disabled (`maybeDisableEndpoint` of
-- apps/api/src/worker/webhook-delivery.processor.ts).
use pay_kh.Prelude.{
  ℕ, zero, suc, ◌≡◌, ◌≤◌, ◌↔◌, refl, inl, inr, Bool, true, false, not, some, List, [], ◌∷◌, take,
  sum_by, all_by, leb, if◌then◌else◌, lookup, lookup-insert_self, Bool-cases, arith,
}
use pay_kh.Webhooks.{
  WebhookDeliveryStatus, pending, succeeded, failed, is_succeeded, is_failed, WebhookEndpoint,
  WebhookDb,
}
use pay_kh.Webhooks.Delivery.{
  statuses_of, consecutive_failures, maybe_disable_endpoint, endpoint_failure_disable_threshold,
}

abbrev pub count_failed : List WebhookDeliveryStatus → ℕ
count_failed ss = sum_by (λ s. if is_failed s then 1 else 0) ss

abbrev pub no_success : List WebhookDeliveryStatus → Bool
no_success ss = all_by (λ s. not (is_succeeded s)) ss

-- So many failures among the newest rows, and no success among those.
abbrev pub FailedRun : ℕ → List WebhookDeliveryStatus → Type 0
FailedRun n ss = (i : ℕ) × (no_success (take i ss) ≡ true) × (n ≤ count_failed (take i ss))

run_of_count : (ss : List WebhookDeliveryStatus) → FailedRun (consecutive_failures ss) ss
unfolding consecutive_failures
run_of_count [] = (0, refl, omega arith)
run_of_count (succeeded ∷ ss) = (0, refl, omega arith)
run_of_count (failed ∷ ss) = let (i, clean, enough) = run_of_count ss in (suc i, clean, omega arith)
run_of_count (pending ∷ ss) =
    let (i, clean, enough) = run_of_count ss in (suc i, clean, omega arith)

count_of_run :
    (ss : List WebhookDeliveryStatus) (i : ℕ)
    → no_success (take i ss) ≡ true
    → count_failed (take i ss) ≤ consecutive_failures ss
unfolding consecutive_failures
count_of_run ss zero clean = omega arith
count_of_run [] (suc i) clean = omega arith
count_of_run (succeeded ∷ ss) (suc i) clean = absurd (ground arith)
count_of_run (failed ∷ ss) (suc i) clean = omega (arith, count_of_run ss i clean)
count_of_run (pending ∷ ss) (suc i) clean = omega (arith, count_of_run ss i clean)

-- After a permanent failure, an endpoint that was enabled is disabled exactly if the newest sixty of
-- its deliveries begin with rows among which at least twenty failed and none succeeded, pending
-- ones not counted.
pub maybe_disable_endpoint_iff :
    (endpoint_id : ℕ) (db : WebhookDb) (e : WebhookEndpoint)
    → lookup endpoint_id db.endpoints ≡ some e
    → e.disabled ≡ false
    → (lookup endpoint_id (maybe_disable_endpoint endpoint_id db).endpoints
        ≡ some (record e { disabled = true }))
      ↔ FailedRun endpoint_failure_disable_threshold
          (take 60 (statuses_of endpoint_id db.deliveries))
unfolding maybe_disable_endpoint
maybe_disable_endpoint_iff endpoint_id db e found on =
    let recent = take 60 (statuses_of endpoint_id db.deliveries) in
    let row = lookup-insert_self endpoint_id (record e { disabled = true }) db.endpoints in
    let (i, clean, enough) = run_of_count recent in
    elim (Bool-cases (leb endpoint_failure_disable_threshold (consecutive_failures recent))) [
      | inl many ↦ (λ _. (i, clean, ground arith), λ _. ground arith)
      | inr few ↦ (
        λ off. absurd (ground arith),
        λ (j, clean', enough'). absurd (let le = count_of_run recent j clean' in ground arith),
      )
    ]
