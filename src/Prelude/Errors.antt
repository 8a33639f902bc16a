-- ===== src/Prelude/Errors.antt =====
-- The outcome of a call: a value, or the error code of an `ApiError`
-- (apps/api/src/common/api-error.ts). Messages are for people and are left out.
use mathlib.Core.Path.{◌≡◌, refl}
use mathlib.Core.Logic.{◌⊎◌, inl, inr}
use mathlib.Core.Bool.{Bool, true, false}

-- `ApiErrorCode` of packages/shared-types/src/index.ts.
pub data ApiErrorCode : Type 0 where
  unauthorized forbidden email_unverified invalid_request amount_too_low : ApiErrorCode
  amount_too_high payment_not_found payment_expired payment_provider_error : ApiErrorCode
  quota_exceeded rate_limit_exceeded idempotency_conflict internal_error : ApiErrorCode

pub data Result {ℓ} (A : Type ℓ) : Type ℓ where
  ok : A → Result A
  err : ApiErrorCode → Result A

-- What a call goes on with, unless it has thrown.
infixl 5 ◌>>=◌
abbrev pub ◌>>=◌ {ℓ κ} : {A : Type ℓ} {B : Type κ} → Result A → (A → Result B) → Result B
err code >>= rest = err code
ok value >>= rest = rest value

-- `if (c) throw e`
abbrev pub throw_if : Bool → ApiErrorCode → Result (Unit {0})
throw_if false code = ok tt
throw_if true code = err code

infixl 5 ◌>>◌
abbrev pub ◌>>◌ {ℓ} : {B : Type ℓ} → Result (Unit {0}) → Result B → Result B
check >> rest = check >>= λ passed. rest

pub Result-cases {ℓ} :
    {A : Type ℓ} (r : Result A) → ((e : ApiErrorCode) × (r ≡ err e)) ⊎ ((a : A) × (r ≡ ok a))
Result-cases (err e) = inl (e, refl)
Result-cases (ok a) = inr (a, refl)
