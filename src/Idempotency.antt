-- ===== src/Idempotency.antt =====
-- The idempotency guard of the write APIs: `IdempotencyService` of
-- apps/api/src/idempotency/idempotency.module.ts, over any state `S` that the guarded work
-- changes and any response body `R`.
--
-- The hash of the request body (`hashBody`) is a number that the caller passes in. The pre-check
-- and the transaction are two steps: `prior` is what the pre-check read, at any earlier time.
pub mod Once
use pay_kh.Prelude.{
  ℕ, ◌+◌, ◌*◌, Bool, true, false, ◌&&◌, Option, none, some, List, [], ◌∷◌, Result, ok, err,
  ApiErrorCode, idempotency_conflict, ◌==◌, if◌then◌else◌,
}

-- The unique index of `IdempotencyRecord`: (storeId, endpoint, idempotencyKey).
pub record Slot : Type 0 where
  pub scope_id : ℕ
  pub endpoint : ℕ
  pub key : ℕ

pub record IdempotencyRecord (R : Type 0) : Type 0 where
  pub slot : Slot
  pub request_hash : ℕ
  pub response_status : ℕ
  pub response_body : R
  pub expires_at : ℕ

abbrev pub same_slot : Slot → Slot → Bool
same_slot a b = (a.scope_id == b.scope_id) && (a.endpoint == b.endpoint) && (a.key == b.key)

-- `DEFAULT_TTL_MS`
abbrev pub default_ttl_ms : ℕ
default_ttl_ms = 24 * 60 * 60 * 1000

-- A response: the resource, its HTTP status, and whether it was replayed.
pub record Response (R : Type 0) : Type 0 where
  pub resource : R
  pub status : ℕ
  pub replayed : Bool

module _ {R : Type 0} where
  unfoldable pub find : Slot → List (IdempotencyRecord R) → Option (IdempotencyRecord R)
  find slot [] = none
  find slot (r ∷ rs) = if same_slot r.slot slot then some r else find slot rs

  -- A stored response, unless the key was used for another body.
  unfoldable pub replay : IdempotencyRecord R → ℕ → Result (Response R)
  replay r request_hash =
      if r.request_hash == request_hash
      then ok (record { resource = r.response_body; status = r.response_status; replayed = true })
      else err idempotency_conflict

-- The state and the stored records after a call, with its result.
pub record Executed (S R : Type 0) : Type 0 where
  pub result : Result (Response R)
  pub state : S
  pub records : List (IdempotencyRecord R)

module _ {S R : Type 0} (run : S → Result (R × ℕ × S)) (now : ℕ) where
  -- Without a key: the work alone, in its transaction.
  execute_unkeyed : S → List (IdempotencyRecord R) → Executed S R
  execute_unkeyed s records = elim (run s) [
    | err e ↦ record { result = err e; state = s; records = records }
    | ok (resource, status, s') ↦ record {
      result = ok (record { resource = resource; status = status; replayed = false });
      state = s';
      records = records;
    }
  ]

  -- The transaction of a keyed call, and what follows when its record violates the unique index:
  -- the work is rolled back and the winner's response replayed.
  execute_tx : Slot → ℕ → S → List (IdempotencyRecord R) → Executed S R
  unfolding find replay
  execute_tx slot request_hash s records = elim (run s) [
    | err e ↦ record { result = err e; state = s; records = records }
    | ok (resource, status, s') ↦ elim (find slot records) [
      | some winner ↦ record { result = replay winner request_hash; state = s; records = records }
      | none ↦
          let stored : IdempotencyRecord R = record {
            slot = slot;
            request_hash = request_hash;
            response_status = status;
            response_body = resource;
            expires_at = now + default_ttl_ms;
          } in
          record {
            result = ok (record { resource = resource; status = status; replayed = false });
            state = s';
            records = stored ∷ records;
          }
    ]
  ]

  unfoldable pub execute :
      Option Slot → ℕ → Option (IdempotencyRecord R) → S → List (IdempotencyRecord R) → Executed S R
  unfolding execute_unkeyed execute_tx
  execute none request_hash prior s records = execute_unkeyed s records
  execute (some slot) request_hash none s records = execute_tx slot request_hash s records
  execute (some slot) request_hash (some p) s records = record {
    result = replay p request_hash;
    state = s;
    records = records;
  }
