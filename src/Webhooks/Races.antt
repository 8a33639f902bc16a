-- ===== src/Webhooks/Races.antt =====
-- When a delivery succeeds, and what two jobs for one delivery do to it
-- (apps/api/src/worker/webhook-delivery.processor.ts).
use mathlib.Core.Path.{subst}
use pay_kh.Prelude.{
  ℕ, zero, suc, ◌+◌, ◌≡◌, ◌≤◌, ◌<◌, refl, sym, ap, ◌∙◌, Bool, true, false, some, length, leb, ◌==◌,
  lookup, if_cases, arith,
}
use pay_kh.Webhooks.{succeeded, is_succeeded, WebhookDelivery, WebhookEndpoint, WebhookDb}
use pay_kh.Webhooks.Delivery.{
  Answer, is_ok, valid_secrets, conclude, process_from, process, run_job, webhook_max_attempts,
}
use pay_kh.Webhooks.Settled.{update_delivery_found}

-- A delivery that waits for an endpoint that is enabled and has a secret at any time.
pub record Ready (delivery_id : ℕ) (db : WebhookDb) : Type 0 where
  pub row : WebhookDelivery
  pub endpoint : WebhookEndpoint
  pub found : lookup delivery_id db.deliveries ≡ some row
  pub keyed : row.id ≡ delivery_id
  pub waits : is_succeeded row.status ≡ false
  pub target : lookup row.endpoint_id db.endpoints ≡ some endpoint
  pub enabled : endpoint.disabled ≡ false
  pub signing : (t : ℕ) → (length (valid_secrets endpoint.id t db.secrets) == 0) ≡ false

process_ready :
    (delivery_id now made : ℕ) (answer : Answer) (db : WebhookDb) (ready : Ready delivery_id db)
    → process delivery_id now made true answer db
      ≡ conclude now delivery_id ready.endpoint.id made answer db
unfolding process process_from
process_ready delivery_id now made answer db ready =
    rw
      (
        process,
        process_from,
        ready.found,
        ready.target,
        ready.waits,
        ready.enabled,
        ready.signing now,
        ready.keyed,
      )
      refl

-- The job is done, at the given attempt.
abbrev pub IsDelivered : (delivery_id attempt : ℕ) → WebhookDb → Type 0
IsDelivered delivery_id attempt db =
    (d : WebhookDelivery) × (lookup delivery_id db.deliveries ≡ some d)
    × (d.status ≡ succeeded)
    × (d.attempt ≡ attempt)

abbrev Done : (delivery_id made : ℕ) → Bool × WebhookDb → Type 0
Done delivery_id made after = (after.0 ≡ false) × IsDelivered delivery_id (suc made) after.1

abbrev Again : (delivery_id : ℕ) → Bool × WebhookDb → Type 0
Again delivery_id after = (after.0 ≡ true) × Ready delivery_id after.1

accepted :
    (delivery_id now made endpoint_id : ℕ) (answer : Answer) (db : WebhookDb) (d : WebhookDelivery)
    → lookup delivery_id db.deliveries ≡ some d
    → is_ok answer ≡ true
    → Done delivery_id made (conclude now delivery_id endpoint_id made answer db)
unfolding conclude
accepted delivery_id now made endpoint_id answer db d found h =
    if_cases (Done delivery_id made) (is_ok answer) _ _
      (λ _. (refl, (_, update_delivery_found delivery_id _ db.deliveries d found, refl, refl)))
      (λ not_ok. absurd (ground arith))

-- A row, in any state, whose endpoint is enabled and has a secret at any time.
record Target (delivery_id : ℕ) (endpoint : WebhookEndpoint) (db : WebhookDb) : Type 0 where
  row : WebhookDelivery
  found : lookup delivery_id db.deliveries ≡ some row
  keyed : row.id ≡ delivery_id
  target : lookup row.endpoint_id db.endpoints ≡ some endpoint
  enabled : endpoint.disabled ≡ false
  signing : (t : ℕ) → (length (valid_secrets endpoint.id t db.secrets) == 0) ≡ false

Ready-Target :
    (delivery_id : ℕ) (db : WebhookDb) (ready : Ready delivery_id db)
    → Target delivery_id ready.endpoint db
Ready-Target delivery_id db ready = record {
  row = ready.row;
  found = ready.found;
  keyed = ready.keyed;
  target = ready.target;
  enabled = ready.enabled;
  signing = ready.signing;
}

refused_row :
    (delivery_id now made : ℕ) (endpoint : WebhookEndpoint) (answer : Answer) (db : WebhookDb)
    (ready : Target delivery_id endpoint db)
    → is_ok answer ≡ false
    → suc made < webhook_max_attempts
    → Again delivery_id (conclude now delivery_id endpoint.id made answer db)
unfolding conclude
refused_row delivery_id now made endpoint answer db ready h more =
    if_cases (Again delivery_id) (is_ok answer) _ _ (λ ok. absurd (ground arith))
      (λ _.
        if_cases (Again delivery_id) (leb webhook_max_attempts (suc made)) _ _
          (λ last. absurd (ground arith))
          (λ _. (
            refl,
            record {
              row = _;
              endpoint = endpoint;
              found = update_delivery_found delivery_id _ db.deliveries ready.row ready.found;
              keyed = ready.keyed;
              waits = refl;
              target = ready.target;
              enabled = ready.enabled;
              signing = ready.signing;
            },
          )))

refused :
    (delivery_id now made : ℕ) (answer : Answer) (db : WebhookDb) (ready : Ready delivery_id db)
    → is_ok answer ≡ false
    → suc made < webhook_max_attempts
    → Again delivery_id (conclude now delivery_id ready.endpoint.id made answer db)
refused delivery_id now made answer db ready =
    refused_row delivery_id now made ready.endpoint answer db (Ready-Target delivery_id db ready)

module _ (delivery_id : ℕ) (now : ℕ → ℕ) (answer : ℕ → Answer) where
  abbrev outcome : (left made : ℕ) → WebhookDb → WebhookDb
  outcome left made db = run_job left made delivery_id now (λ _. true) answer db

  abbrev ran : (made : ℕ) → WebhookDb → Bool × WebhookDb
  ran made db = process delivery_id (now made) made true (answer made) db

  goes_on :
      (left made : ℕ) (db : WebhookDb)
      → (ran made db).0 ≡ true
      → outcome (suc left) made db ≡ outcome left (suc made) (ran made db).1
  unfolding run_job
  goes_on left made db throws = rw throws refl

  stops_here :
      (left made : ℕ) (db : WebhookDb)
      → (ran made db).0 ≡ false
      → outcome (suc left) made db ≡ (ran made db).1
  unfolding run_job
  stops_here left made db stops = rw stops refl

  run_job_accepted :
      (k left made : ℕ) (db : WebhookDb)
      → Ready delivery_id db
      → suc left + made ≡ webhook_max_attempts
      → k ≤ left
      → ((j : ℕ) → j < k → is_ok (answer (made + j)) ≡ false)
      → is_ok (answer (made + k)) ≡ true
      → IsDelivered delivery_id (suc (made + k)) (outcome (suc left) made db)
  run_job_accepted zero left made db ready count le before h =
      let at : made + 0 ≡ made = omega arith in
      let (stops, done) : Done delivery_id made (ran made db) =
        subst (Done delivery_id made)
          (sym (process_ready delivery_id (now made) made (answer made) db ready))
          (accepted delivery_id (now made) made ready.endpoint.id (answer made) db ready.row
            ready.found (rw at at h)) in
      subst (IsDelivered delivery_id (suc (made + 0))) (sym (stops_here left made db stops))
        (rw at done)
  run_job_accepted (suc k) zero made db ready count le before h = absurd (omega arith)
  run_job_accepted (suc k) (suc l) made db ready count le before h =
      let at : made + 0 ≡ made = omega arith in
      let (throws, waits) : Again delivery_id (ran made db) =
        subst (Again delivery_id)
          (sym (process_ready delivery_id (now made) made (answer made) db ready))
          (refused delivery_id (now made) made (answer made) db ready
            (rw at at (before 0 (omega arith))) (omega arith)) in
      let shift : (j : ℕ) → suc made + j ≡ made + suc j = λ j. omega arith in
      subst (IsDelivered delivery_id (suc (made + suc k))) (sym (goes_on (suc l) made db throws)) (
        rw (← shift k) (
          run_job_accepted k l (suc made) (ran made db).1 waits (omega arith) (omega arith)
            (λ j lt. rw (shift j) (before (suc j) (omega arith))) (rw (shift k) h)))

  -- A delivery whose endpoint is enabled and has a secret, to a target that is always safe, succeeds
  -- at the first of the six attempts that the receiver accepts, with that attempt's number.
  pub IsDelivered-at_first_accepted :
      (k : ℕ) (db : WebhookDb)
      → Ready delivery_id db
      → k < webhook_max_attempts
      → ((j : ℕ) → j < k → is_ok (answer j) ≡ false)
      → is_ok (answer k) ≡ true
      → IsDelivered delivery_id
          (suc k)
          (run_job webhook_max_attempts 0 delivery_id now (λ _. true) answer db)
  IsDelivered-at_first_accepted k db ready lt before h =
      let zero_plus : (j : ℕ) → 0 + j ≡ j = λ j. omega arith in
      rw (← zero_plus k) (
        run_job_accepted k 5 0 db ready refl (omega arith) (λ j lt. rw (zero_plus j) (before j lt))
          (rw (zero_plus k) h))

-- A job that read the row while it waited, and goes on in a later state.
process_from_ready :
    (delivery_id now made : ℕ) (answer : Answer) (db later : WebhookDb)
    (ready : Ready delivery_id db)
    → later.secrets ≡ db.secrets
    → process_from ready.row ready.endpoint now made true answer later
      ≡ conclude now delivery_id ready.endpoint.id made answer later
unfolding process_from
process_from_ready delivery_id now made answer db later ready same =
    rw (process_from, ready.waits, ready.enabled, same, ready.signing now, ready.keyed) refl

-- An accepted answer leaves the row at the same endpoint.
accepted-Target :
    (delivery_id now made : ℕ) (endpoint : WebhookEndpoint) (answer : Answer) (db : WebhookDb)
    (ready : Target delivery_id endpoint db)
    → is_ok answer ≡ true
    → Target delivery_id endpoint (conclude now delivery_id endpoint.id made answer db).1
unfolding conclude
accepted-Target delivery_id now made endpoint answer db ready h =
    if_cases (λ (after : Bool × WebhookDb). Target delivery_id endpoint after.1) (is_ok answer) _ _
      (λ _. record {
        row = _;
        found = update_delivery_found delivery_id _ db.deliveries ready.row ready.found;
        keyed = ready.keyed;
        target = ready.target;
        enabled = ready.enabled;
        signing = ready.signing;
      })
      (λ bad. absurd (ground arith))

-- An accepted answer leaves the secrets alone.
accepted_secrets :
    (delivery_id now made endpoint_id : ℕ) (answer : Answer) (db : WebhookDb)
    → is_ok answer ≡ true
    → (conclude now delivery_id endpoint_id made answer db).1.secrets ≡ db.secrets
unfolding conclude
accepted_secrets delivery_id now made endpoint_id answer db h =
    if_cases (λ (after : Bool × WebhookDb). after.1.secrets ≡ db.secrets) (is_ok answer) _ _
      (λ _. refl) (λ bad. absurd (ground arith))

-- Of two jobs for one delivery that both read it before either wrote, the first is accepted by the
-- receiver, and the second is not and has attempts left: the row no longer stands as succeeded, the
-- second job throws, and in its next run it delivers again where the receiver accepts.
pub late_failure_overwrites :
    (delivery_id now now' now'' made made' : ℕ) (good bad good' : Answer) (db : WebhookDb)
    (ready : Ready delivery_id db)
    → is_ok good ≡ true
    → is_ok bad ≡ false
    → is_ok good' ≡ true
    → suc made' < webhook_max_attempts
    → let (_, db1) = process_from ready.row ready.endpoint now made true good db in
      let (throws, db2) = process_from ready.row ready.endpoint now' made' true bad db1 in
      let (_, db3) = process delivery_id now'' (suc made') true good' db2 in
      IsDelivered delivery_id (suc made) db1
      × (throws ≡ true)
      × ((d : WebhookDelivery) × (lookup delivery_id db2.deliveries ≡ some d)
          × (is_succeeded d.status ≡ false))
      × IsDelivered delivery_id (suc (suc made')) db3
late_failure_overwrites delivery_id now now' now'' made made' good bad good' db ready h h' h''
      more =
    let first = process_from_ready delivery_id now made good db db ready refl in
    let (_, done) : Done delivery_id made
        (process_from ready.row ready.endpoint now made true good db) =
      subst (Done delivery_id made) (sym first)
        (accepted delivery_id now made ready.endpoint.id good db ready.row ready.found h) in
    let db1 = (process_from ready.row ready.endpoint now made true good db).1 in
    let secrets =
      ap (λ after. after.1.secrets) first
      ∙ accepted_secrets delivery_id now made ready.endpoint.id good db h in
    let still : Target delivery_id ready.endpoint db1 =
      subst (λ (after : Bool × WebhookDb). Target delivery_id ready.endpoint after.1) (sym first)
        (accepted-Target delivery_id now made ready.endpoint good db
          (Ready-Target delivery_id db ready) h) in
    let (throws, waits) : Again delivery_id
        (process_from ready.row ready.endpoint now' made' true bad db1) =
      subst (Again delivery_id)
        (sym (process_from_ready delivery_id now' made' bad db db1 ready secrets))
        (refused_row delivery_id now' made' ready.endpoint bad db1 still h' more) in
    let db2 = (process_from ready.row ready.endpoint now' made' true bad db1).1 in
    let (_, again) : Done delivery_id (suc made')
        (process delivery_id now'' (suc made') true good' db2) =
      subst (Done delivery_id (suc made'))
        (sym (process_ready delivery_id now'' (suc made') good' db2 waits))
        (accepted delivery_id now'' (suc made') waits.endpoint.id good' db2 waits.row waits.found
          h'') in
    (done, throws, (waits.row, waits.found, waits.waits), again)
