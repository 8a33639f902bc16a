-- ===== src/Access/Policies.antt =====
-- What the policies and the permissions come to (apps/api/src/auth/abac.ts,
-- apps/api/src/auth/rbac.ts).
use pay_kh.Prelude.{
  ℕ, ◌≤◌, ◌≡◌, ◌≢◌, ◌↔◌, refl, inl, inr, Bool, true, false, Option, none, some, List, [], ◌∷◌,
  arith, Bool-cases,
}
use pay_kh.Types.{KeyMode, MemberRole, owner, analyst}
use pay_kh.Access.{
  AbacRequest, payment_refund, high_value_refund_threshold, PolicyId, allow, policy_applies,
  policy_denies, evaluate_from, evaluate, is_live_store,
}

-- No policy of the list that applies denies the request.
abbrev pub NoneDenies : List PolicyId → AbacRequest → Type 0
NoneDenies [] r = Unit
NoneDenies (p ∷ ps) r = (policy_applies p r ≡ true → policy_denies p r ≡ false) × NoneDenies ps r

decided :
    (p : PolicyId) (ps : List PolicyId) (r : AbacRequest)
    → (evaluate_from (p ∷ ps) r ≡ allow)
      ↔ ((policy_applies p r ≡ true → policy_denies p r ≡ false) × (evaluate_from ps r ≡ allow))
unfolding evaluate_from
decided p ps r = elim (Bool-cases (policy_applies p r)) [
  | inl on ↦ elim (Bool-cases (policy_denies p r)) [
    | inl denied ↦ (λ e. absurd (ground arith), λ e. let k = e.0 on in absurd (ground arith))
    | inr passed ↦ (λ e. (λ a. passed, ground arith), λ e. let k = e.1 in ground arith)
  ]
  | inr off ↦ (λ e. (λ a. absurd (ground arith), ground arith), λ e. let k = e.1 in ground arith)
]

-- Deny wins: a request is allowed exactly if none of the policies that apply denies it, whatever
-- the order of the policies.
pub evaluate_from-NoneDenies :
    (ps : List PolicyId) (r : AbacRequest) → (evaluate_from ps r ≡ allow) ↔ NoneDenies ps r
unfolding evaluate_from
evaluate_from-NoneDenies [] r = (λ e. tt, λ e. refl)
evaluate_from-NoneDenies (p ∷ ps) r =
    let ih = evaluate_from-NoneDenies ps r in
    let d = decided p ps r in (λ e. let (a, b) = d.0 e in (a, ih.0 b), λ e. d.1 (e.0, ih.1 e.1))

-- A refund passes the policies exactly if the store is not live or the subject has a role other than
-- analyst, be it that of a platform admin, and, from the threshold on, the subject is the owner,
-- with MFA enabled on a live store.
pub evaluate-refund :
    (role : Option MemberRole) (mfa_enabled : Bool) (store_live_mode : Option Bool) (amount : ℕ)
    (mode : Option KeyMode)
    → let r : AbacRequest = record {
      role = role;
      mfa_enabled = mfa_enabled;
      action = payment_refund;
      store_live_mode = store_live_mode;
      amount = some amount;
      mode = mode;
    } in
      (evaluate r ≡ allow) ↔ (
        (is_live_store r ≡ true → (role ≢ none) × (role ≢ some analyst))
        × (high_value_refund_threshold ≤ amount
            → (role ≡ some owner) × (is_live_store r ≡ true → mfa_enabled ≡ true)))
unfolding evaluate evaluate_from policy_applies policy_denies
evaluate-refund role mfa_enabled store_live_mode amount mode = (
  λ e. (λ l. (λ n. ground arith, λ n. ground arith), λ h. (ground arith, λ l. ground arith)),
  λ e. ground arith,
)
