-- ===== src/Webhooks/Settled.antt =====
-- Every job that is delivered comes to an end (apps/api/src/worker/webhook-delivery.processor.ts).
use pay_kh.Prelude.{
  ℕ, zero, suc, ◌+◌, ◌≡◌, ◌<◌, ◌⊎◌, refl, ap, ◌∙◌, inl, inr, Bool, true, false, not, Option, none,
  some, length, take, leb, ◌==◌, Table, lookup, insert, if_cases, lookup-insert, lookup-insert_self,
  Bool-cases, Option-cases, arith,
}
use pay_kh.Webhooks.{
  WebhookDeliveryStatus, succeeded, failed, is_succeeded, DeliveryError, WebhookDelivery,
  WebhookEndpoint, WebhookDb,
}
use pay_kh.Webhooks.Delivery.{
  Answer, is_ok, valid_secrets, consecutive_failures, statuses_of, update_delivery,
  maybe_disable_endpoint, mark_permanent_failure, conclude, process_from, process, run_job,
  webhook_max_attempts,
}

pub update_delivery_found :
    (id : ℕ) (f : WebhookDelivery → WebhookDelivery) (t : Table WebhookDelivery)
    (d : WebhookDelivery)
    → lookup id t ≡ some d
    → lookup id (update_delivery id f t) ≡ some (f d)
update_delivery_found id f t d found = rw (found, update_delivery) (lookup-insert_self id (f d) t)

-- Disabling an endpoint touches no delivery, and writes at most its own row.
maybe_disable_endpoint_writes :
    (endpoint_id : ℕ) (db : WebhookDb)
    → ((maybe_disable_endpoint endpoint_id db).deliveries ≡ db.deliveries)
      × (((maybe_disable_endpoint endpoint_id db).endpoints ≡ db.endpoints)
          ⊎ ((e : WebhookEndpoint) × ((maybe_disable_endpoint endpoint_id db).endpoints
                ≡ insert endpoint_id e db.endpoints)))
unfolding maybe_disable_endpoint
maybe_disable_endpoint_writes endpoint_id db =
    elim (Bool-cases
      (leb 20 (consecutive_failures (take 60 (statuses_of endpoint_id db.deliveries))))) [
        | inr few ↦ (rw few refl, inl (rw few refl))
        | inl many ↦ elim (Option-cases (lookup endpoint_id db.endpoints)) [
          | inl missing ↦ (rw (many, missing) refl, inl (rw (many, missing) refl))
          | inr (e, found) ↦ elim (Bool-cases e.disabled) [
            | inl off ↦ (ground arith, inl (ground arith))
            | inr on ↦ (ground arith, inr (record e { disabled = true }, ground arith))
          ]
        ]
      ]

endpoint_stays :
    (endpoint_id : ℕ) (db : WebhookDb) (j : ℕ) (e : WebhookEndpoint)
    → lookup j db.endpoints ≡ some e
    → (e' : WebhookEndpoint) × (lookup j (maybe_disable_endpoint endpoint_id db).endpoints
        ≡ some e')
endpoint_stays endpoint_id db j e found = elim (maybe_disable_endpoint_writes endpoint_id db).1 [
  | inl same ↦ (e, ap (lookup j) same ∙ found)
  | inr (w, writes) ↦
      elim (Option-cases (lookup j (maybe_disable_endpoint endpoint_id db).endpoints)) [
        | inr there ↦ there
        | inl gone ↦ let at = lookup-insert endpoint_id j w db.endpoints in absurd (ground arith)
      ]
]

-- What a run leaves: the row, and either the end or one more run to come.
abbrev pub IsEnd : WebhookDeliveryStatus → Type 0
IsEnd s = (s ≡ succeeded) ⊎ (s ≡ failed)

pub record Ran (delivery_id endpoint_id attempts_made : ℕ) (after : Bool × WebhookDb) : Type 0 where
  pub row : WebhookDelivery
  pub found : lookup delivery_id after.1.deliveries ≡ some row
  pub keyed : row.id ≡ delivery_id
  pub same_endpoint : row.endpoint_id ≡ endpoint_id
  pub endpoint : WebhookEndpoint
  pub target : lookup endpoint_id after.1.endpoints ≡ some endpoint
  pub ended :
      ((after.0 ≡ false) × IsEnd row.status)
      ⊎ ((after.0 ≡ true) × (suc attempts_made < webhook_max_attempts))

module _ (delivery_id now made : ℕ) (safe : Bool) (answer : Answer) (db : WebhookDb)
    (d : WebhookDelivery) (e : WebhookEndpoint) (found : lookup delivery_id db.deliveries ≡ some d)
    (keyed : d.id ≡ delivery_id) (target : lookup d.endpoint_id db.endpoints ≡ some e) where
  marked_failed :
      (endpoint_id : ℕ) (response_status : Option ℕ) (error : Option DeliveryError)
      → Ran delivery_id d.endpoint_id made
          (false, mark_permanent_failure delivery_id endpoint_id made response_status error db)
  unfolding mark_permanent_failure
  marked_failed endpoint_id response_status error =
      let write : WebhookDelivery → WebhookDelivery = λ r. record r {
        status = failed;
        attempt = suc made;
        response_status = response_status;
        error = error;
        next_attempt_at = none;
      } in
      let written : WebhookDb = record db {
        deliveries = update_delivery delivery_id write db.deliveries;
      } in
      let (e', stays) = endpoint_stays endpoint_id written d.endpoint_id e target in
      record {
        row = write d;
        found =
            ap (lookup delivery_id) (maybe_disable_endpoint_writes endpoint_id written).0
            ∙ update_delivery_found delivery_id write db.deliveries d found;
        keyed = keyed;
        same_endpoint = refl;
        endpoint = e';
        target = stays;
        ended = inl (refl, inr refl);
      }

  -- A write to the row that leaves its ids.
  wrote :
      (write : WebhookDelivery → WebhookDelivery) (throws : Bool)
      → ((throws ≡ false) × IsEnd (write d).status)
        ⊎ ((throws ≡ true) × (suc made < webhook_max_attempts))
      → (write d).id ≡ delivery_id
      → (write d).endpoint_id ≡ d.endpoint_id
      → Ran delivery_id d.endpoint_id made
          (throws, record db { deliveries = update_delivery delivery_id write db.deliveries })
  wrote write throws ended same_id same_endpoint = record {
    row = write d;
    found = update_delivery_found delivery_id write db.deliveries d found;
    keyed = same_id;
    same_endpoint = same_endpoint;
    endpoint = e;
    target = target;
    ended = ended;
  }

  conclude-Ran : Ran delivery_id d.endpoint_id made (conclude now delivery_id e.id made answer db)
  unfolding conclude
  conclude-Ran =
      if_cases (Ran delivery_id d.endpoint_id made) (is_ok answer) _ _
        (λ accepted. wrote _ false (inl (refl, inl refl)) keyed refl)
        (λ refused.
          if_cases (Ran delivery_id d.endpoint_id made) (leb webhook_max_attempts (suc made)) _ _
            (λ last. marked_failed e.id _ _)
            (λ more. wrote _ true (inr (refl, ground arith)) keyed refl))

  process_from-Ran : Ran delivery_id d.endpoint_id made (process_from d e now made safe answer db)
  unfolding process_from
  process_from-Ran =
      if_cases (Ran delivery_id d.endpoint_id made) (is_succeeded d.status) _ _
        (λ done. record {
          row = d;
          found = found;
          keyed = keyed;
          same_endpoint = refl;
          endpoint = e;
          target = target;
          ended = inl (refl, inl (ground arith));
        })
        (λ waits.
          if_cases (Ran delivery_id d.endpoint_id made) e.disabled _ _
            (λ off. rw keyed (wrote _ false (inl (refl, inr refl)) keyed refl))
            (λ on.
              if_cases (Ran delivery_id d.endpoint_id made)
                (length (valid_secrets e.id now db.secrets) == 0) _ _
                (λ unsigned. rw keyed (marked_failed e.id _ _))
                (λ signed.
                  if_cases (Ran delivery_id d.endpoint_id made) (not safe) _ _
                    (λ blocked. rw keyed (marked_failed e.id _ _))
                    (λ allowed. rw keyed conclude-Ran))))

  process-Ran : Ran delivery_id d.endpoint_id made (process delivery_id now made safe answer db)
  unfolding process
  process-Ran = rw (process, found, target) process_from-Ran

module _ (delivery_id : ℕ) (now : ℕ → ℕ) (safe : ℕ → Bool) (answer : ℕ → Answer) where
  -- The row is there in the end, and is not pending.
  abbrev Settles : WebhookDb → Type 0
  Settles db = (d : WebhookDelivery) × (lookup delivery_id db.deliveries ≡ some d) × IsEnd d.status

  run_job_once :
      (left made endpoint_id : ℕ) (db : WebhookDb)
      → let after = process delivery_id (now made) made (safe made) (answer made) db in
        Ran delivery_id endpoint_id made after
        → (suc made < webhook_max_attempts
            → Settles (run_job left (suc made) delivery_id now safe answer after.1))
        → Settles (run_job (suc left) made delivery_id now safe answer db)
  unfolding run_job
  run_job_once left made endpoint_id db ran again =
      if_cases Settles (process delivery_id (now made) made (safe made) (answer made) db).0 _ _
        (λ throws. elim ran.ended [
          | inl (stops, _) ↦ absurd (ground arith)
          | inr (_, more) ↦ again more
        ])
        (λ stops. elim ran.ended [
          | inl (_, ends) ↦ (ran.row, ran.found, ends)
          | inr (throws, _) ↦ absurd (ground arith)
        ])

  run_job_ends :
      (left made : ℕ) (db : WebhookDb) (d : WebhookDelivery) (e : WebhookEndpoint)
      → suc left + made ≡ webhook_max_attempts
      → lookup delivery_id db.deliveries ≡ some d
      → d.id ≡ delivery_id
      → lookup d.endpoint_id db.endpoints ≡ some e
      → Settles (run_job (suc left) made delivery_id now safe answer db)
  run_job_ends zero made db d e count found keyed target =
      run_job_once zero made d.endpoint_id db
        (process-Ran delivery_id (now made) made (safe made) (answer made) db d e found keyed
          target)
        (λ more. absurd (omega arith))
  run_job_ends (suc l) made db d e count found keyed target =
      let ran =
        process-Ran delivery_id (now made) made (safe made) (answer made) db d e found keyed
          target in
      run_job_once (suc l) made d.endpoint_id db ran (λ more.
        run_job_ends l (suc made) _ ran.row ran.endpoint (omega arith) ran.found ran.keyed (
          ap
            (λ j.
              lookup j
                (process delivery_id (now made) made (safe made) (answer made) db).1.endpoints)
            ran.same_endpoint
          ∙ ran.target))

  -- A job that the queue runs until its attempts are used leaves its delivery succeeded or failed,
  -- whatever the receiver answers, whatever the target, the endpoint and the secrets are: none
  -- stays pending. The delivery stands under its id, and its endpoint exists.
  pub run_job_settles :
      (db : WebhookDb) (d : WebhookDelivery) (e : WebhookEndpoint)
      → lookup delivery_id db.deliveries ≡ some d
      → d.id ≡ delivery_id
      → lookup d.endpoint_id db.endpoints ≡ some e
      → (d' : WebhookDelivery) × (lookup delivery_id
            (run_job webhook_max_attempts 0 delivery_id now safe answer db).deliveries
          ≡ some d')
        × IsEnd d'.status
  run_job_settles db d e found keyed target = run_job_ends 5 0 db d e refl found keyed target
