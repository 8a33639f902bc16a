-- ===== src/Types.antt =====
-- The vocabulary that the API shares with its clients: packages/shared-types/src/index.ts.
pub mod Lifecycle
use pay_kh.Prelude.{ℕ, Bool, Option, none, some, List, [], ◌∷◌, includes, ApiErrorCode}
use pay_kh.Prelude.{
  unauthorized, forbidden, email_unverified, invalid_request, amount_too_low, amount_too_high,
  payment_not_found, payment_provider_error, quota_exceeded, rate_limit_exceeded,
  idempotency_conflict, internal_error,
}

pub data PaymentStatus : Type 0 where
  pending scanned paid expired failed cancelled refunded : PaymentStatus

-- Tells the members of the union apart, for `===` and `includes`.
abbrev pub status_code : PaymentStatus → ℕ
status_code pending = 0
status_code scanned = 1
status_code paid = 2
status_code expired = 3
status_code failed = 4
status_code cancelled = 5
status_code refunded = 6

unfoldable pub payment_transitions : PaymentStatus → List PaymentStatus
payment_transitions pending = scanned ∷ paid ∷ expired ∷ failed ∷ cancelled ∷ []
payment_transitions scanned = paid ∷ expired ∷ failed ∷ cancelled ∷ []
payment_transitions paid = refunded ∷ []
payment_transitions expired = paid ∷ []
payment_transitions failed = []
payment_transitions cancelled = []
payment_transitions refunded = []

unfoldable pub can_transition : PaymentStatus → PaymentStatus → Bool
unfolding payment_transitions
can_transition from to = includes status_code (payment_transitions from) to

pub data ValueTxnStatus : Type 0 where
  pending processing confirmed failed manual_review reversed : ValueTxnStatus

abbrev pub value_status_code : ValueTxnStatus → ℕ
value_status_code ValueTxnStatus.pending = 0
value_status_code processing = 1
value_status_code confirmed = 2
value_status_code ValueTxnStatus.failed = 3
value_status_code manual_review = 4
value_status_code reversed = 5

unfoldable pub value_txn_transitions : ValueTxnStatus → List ValueTxnStatus
value_txn_transitions ValueTxnStatus.pending =
    processing ∷ confirmed ∷ ValueTxnStatus.failed ∷ manual_review ∷ []
value_txn_transitions processing = confirmed ∷ ValueTxnStatus.failed ∷ manual_review ∷ []
value_txn_transitions confirmed = reversed ∷ []
value_txn_transitions ValueTxnStatus.failed = manual_review ∷ []
value_txn_transitions manual_review = confirmed ∷ ValueTxnStatus.failed ∷ reversed ∷ []
value_txn_transitions reversed = []

unfoldable pub can_transition_value : ValueTxnStatus → ValueTxnStatus → Bool
unfolding value_txn_transitions
can_transition_value from to = includes value_status_code (value_txn_transitions from) to

abbrev pub settled_value_statuses : List ValueTxnStatus
settled_value_statuses = confirmed ∷ []

abbrev pub in_flight_value_statuses : List ValueTxnStatus
in_flight_value_statuses = ValueTxnStatus.pending ∷ processing ∷ manual_review ∷ []

pub data KeyMode : Type 0 where
  test live : KeyMode

pub data Currency : Type 0 where
  usd khr : Currency

pub data WebhookEventType : Type 0 where
  payment_created payment_scanned payment_completed payment_expired payment_failed :
      WebhookEventType
  payment_cancelled payment_refunded : WebhookEventType

unfoldable pub status_to_event : PaymentStatus → Option WebhookEventType
status_to_event pending = none
status_to_event scanned = some payment_scanned
status_to_event paid = some payment_completed
status_to_event expired = some WebhookEventType.payment_expired
status_to_event failed = some payment_failed
status_to_event cancelled = some payment_cancelled
status_to_event refunded = some payment_refunded

unfoldable pub error_http_status : ApiErrorCode → ℕ
error_http_status unauthorized = 401
error_http_status forbidden = 403
error_http_status email_unverified = 403
error_http_status invalid_request = 400
error_http_status amount_too_low = 400
error_http_status amount_too_high = 400
error_http_status payment_not_found = 404
error_http_status ApiErrorCode.payment_expired = 409
error_http_status payment_provider_error = 502
error_http_status quota_exceeded = 402
error_http_status rate_limit_exceeded = 429
error_http_status idempotency_conflict = 409
error_http_status internal_error = 500

pub data MemberRole : Type 0 where
  owner developer analyst platform_admin : MemberRole
