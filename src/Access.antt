-- ===== src/Access.antt =====
-- Who may do what: the permissions of a role (apps/api/src/auth/rbac.ts) and the policies on top
-- of them (apps/api/src/auth/abac.ts). Permissions and actions are data types;
-- the reasons of a refusal are left out.
pub mod Policies
use pay_kh.Prelude.{
  ℕ, Bool, true, false, not, ◌&&◌, ◌||◌, Option, none, some, List, [], ◌∷◌, Result, ok, err, ◌>>=◌,
  throw_if, forbidden, payment_not_found, Table, lookup, leb, ◌==◌, if◌then◌else◌, includes,
}
use pay_kh.Types.{KeyMode, test, live, MemberRole, owner, developer, analyst, platform_admin}

pub data Permission : Type 0 where
  store_read store_write apikey_read apikey_write payment_read payment_write : Permission
  webhook_write branding_write team_manage billing_manage coupon_read coupon_write : Permission
  giftcard_read giftcard_write paychain_read paychain_write : Permission

abbrev pub permission_code : Permission → ℕ
permission_code store_read = 0
permission_code store_write = 1
permission_code apikey_read = 2
permission_code apikey_write = 3
permission_code payment_read = 4
permission_code payment_write = 5
permission_code webhook_write = 6
permission_code branding_write = 7
permission_code team_manage = 8
permission_code billing_manage = 9
permission_code coupon_read = 10
permission_code coupon_write = 11
permission_code giftcard_read = 12
permission_code giftcard_write = 13
permission_code paychain_read = 14
permission_code paychain_write = 15

unfoldable pub role_permissions : MemberRole → List Permission
role_permissions owner =
    store_read ∷ store_write ∷ apikey_read ∷ apikey_write ∷ payment_read ∷ payment_write
    ∷ webhook_write ∷ branding_write ∷ team_manage ∷ billing_manage ∷ coupon_read ∷ coupon_write
    ∷ giftcard_read ∷ giftcard_write ∷ paychain_read ∷ paychain_write ∷ []
role_permissions developer =
    store_read ∷ apikey_read ∷ apikey_write ∷ payment_read ∷ payment_write ∷ webhook_write
    ∷ coupon_read ∷ coupon_write ∷ giftcard_read ∷ giftcard_write ∷ []
role_permissions analyst = store_read ∷ payment_read ∷ coupon_read ∷ giftcard_read ∷ []
role_permissions platform_admin =
    store_read ∷ store_write ∷ apikey_read ∷ payment_read ∷ team_manage ∷ billing_manage
    ∷ coupon_read ∷ giftcard_read ∷ []

-- The role in an organization of a user with these memberships: that of the first one.
pub record Membership : Type 0 where
  pub organization_id : ℕ
  pub role : MemberRole

unfoldable pub role_for_org : List Membership → ℕ → Option MemberRole
role_for_org [] organization_id = none
role_for_org (m ∷ ms) organization_id =
    if m.organization_id == organization_id then some m.role else role_for_org ms organization_id

unfoldable pub require_membership : List Membership → ℕ → Result MemberRole
require_membership ms organization_id = elim (role_for_org ms organization_id) [
  | none ↦ err forbidden
  | some role ↦ ok role
]

unfoldable pub require_permission : List Membership → ℕ → Permission → Result (Unit {0})
require_permission ms organization_id permission = do
  role ← require_membership ms organization_id
  throw_if (not (includes permission_code (role_permissions role) permission)) forbidden

-- A user's memberships, and the organization of each store.
pub record Caller : Type 0 where
  pub memberships : List Membership
  pub organizations : Table ℕ

-- `assertStore` of the services.
unfoldable pub assert_store : Caller → (store_id : ℕ) → Permission → Result (Unit {0})
assert_store user store_id permission = elim (lookup store_id user.organizations) [
  | none ↦ err payment_not_found
  | some organization_id ↦ do
    role ← require_permission user.memberships organization_id permission
    ok tt
]

-- The actions that a policy names; `resource_write` is any that ends in `:write`.
pub data Action : Type 0 where
  payment_refund apikey_create resource_write other_action : Action

-- An `AbacRequest`, with the attributes that a policy reads. The amount is in hundredths of the
-- currency unit.
pub record AbacRequest : Type 0 where
  pub role : Option MemberRole
  pub mfa_enabled : Bool
  pub action : Action
  pub store_live_mode : Option Bool
  pub amount : Option ℕ
  pub mode : Option KeyMode

-- `HIGH_VALUE_REFUND_THRESHOLD`
abbrev pub high_value_refund_threshold : ℕ
high_value_refund_threshold = 50_000

pub data PolicyId : Type 0 where
  high_value_refund_requires_owner live_store_write_excludes_analyst : PolicyId
  live_api_key_requires_owner high_value_refund_requires_mfa : PolicyId

pub data PolicyDecision : Type 0 where
  allow : PolicyDecision
  deny : PolicyId → PolicyDecision

abbrev pub is_refund : Action → Bool
is_refund payment_refund = true
is_refund _ = false

abbrev pub is_write : Action → Bool
is_write resource_write = true
is_write _ = false

abbrev pub is_apikey_create : Action → Bool
is_apikey_create apikey_create = true
is_apikey_create _ = false

abbrev pub is_owner : Option MemberRole → Bool
is_owner (some owner) = true
is_owner _ = false

-- `(r.resource.amount ?? 0) >= HIGH_VALUE_REFUND_THRESHOLD`
abbrev pub is_high_value : AbacRequest → Bool
is_high_value r = elim r.amount [
  | none ↦ leb high_value_refund_threshold 0
  | some a ↦ leb high_value_refund_threshold a
]

abbrev pub is_live_store : AbacRequest → Bool
is_live_store r = elim r.store_live_mode [ none ↦ false | some b ↦ b ]

unfoldable pub policy_applies : PolicyId → AbacRequest → Bool
policy_applies high_value_refund_requires_owner r = is_refund r.action && is_high_value r
policy_applies live_store_write_excludes_analyst r =
    is_live_store r && (is_write r.action || is_refund r.action)
policy_applies live_api_key_requires_owner r =
    is_apikey_create r.action
    && elim r.mode [ none ↦ false | some m ↦ elim m [ test ↦ false | live ↦ true ] ]
policy_applies high_value_refund_requires_mfa r =
    is_refund r.action && is_live_store r && is_high_value r

unfoldable pub policy_denies : PolicyId → AbacRequest → Bool
policy_denies high_value_refund_requires_owner r = not (is_owner r.role)
policy_denies live_store_write_excludes_analyst r = elim r.role [
  | none ↦ true
  | some role ↦ elim role [ analyst ↦ true | _ ↦ false ]
]
policy_denies live_api_key_requires_owner r = not (is_owner r.role)
policy_denies high_value_refund_requires_mfa r = not r.mfa_enabled

-- `POLICIES`, in the order in which they are evaluated.
abbrev pub policies : List PolicyId
policies =
    high_value_refund_requires_owner ∷ live_store_write_excludes_analyst
    ∷ live_api_key_requires_owner ∷ high_value_refund_requires_mfa ∷ []

unfoldable pub evaluate_from : List PolicyId → AbacRequest → PolicyDecision
evaluate_from [] r = allow
evaluate_from (p ∷ ps) r =
    let rest = evaluate_from ps r in
    if not (policy_applies p r) then rest else if policy_denies p r then deny p else rest

unfoldable pub evaluate : AbacRequest → PolicyDecision
evaluate r = evaluate_from policies r
