-- ===== src/Lib.antt =====
-- The core of PayKH, a gateway for KHQR payments: what happens to money between the call of a
-- merchant's API key and the books. The code is the NestJS application apps/api and the package
-- packages/shared-types.
--
-- The parts, and how they call one another:
--   Types, Types/*      packages/shared-types/src/index.ts: statuses, transition tables, error codes.
--   Money, Money/*      apps/api/src/payments/amount.util.ts: validateAmount, formatAmount.
--   Payments            apps/api/src/payments/payments.service.ts: transition, findScoped,
--                       applyLazyExpiry, retrieve, cancel, simulate. A transition is a transaction
--                       (transition_tx, split into the read and transition_from) followed by the
--                       effects in other services (effects_of, fire).
--   Payments/Moves      what one transition writes; Payments/Once: overlapping transitions.
--   Payments/Refund     refund of the same file; Payments/RefundSafety: overlapping refunds.
--   Idempotency         apps/api/src/idempotency/idempotency.module.ts, which refund calls;
--                       Idempotency/Once: overlapping requests with one key.
--   Ledger              apps/api/src/ledger/ledger.service.ts, and one payment of the backfill of
--                       apps/api/src/ledger/reconciliation.service.ts; Ledger/Balance: what post
--                       keeps; Ledger/Fees: the postings of captures and refunds; Ledger/Points:
--                       the postings of loyalty points.
--   GiftCards           apps/api/src/giftcards/giftcards.module.ts: issue, quote, onPaid.
--   Coupons             apps/api/src/coupons/coupons.module.ts: quote, onPaid.
--   Settlements         apps/api/src/settlements/settlement.util.ts and settlement.service.ts:
--                       Settlements/Totals for one group, Settlements/Batches for a store.
--   Providers           apps/api/src/providers/resilience.ts: circuit breaker and retries.
--   Access              apps/api/src/auth/rbac.ts and apps/api/src/auth/abac.ts.
--   Quota               apps/api/src/billing/period.util.ts and quota.service.ts; Quota/Limit: runs of
--                       events of a period.
--   RateLimit           apps/api/src/ratelimit/rate-limit.ts and account-throttle.service.ts;
--                       RateLimit/Window: the requests of a window; RateLimit/Throttle: logins.
--   Risk                scorePayment of apps/api/src/risk/risk.service.ts; Risk/Cases: its cases.
--   Khqr                apps/api/src/providers/khqr.util.ts: fields, checksum and building of payloads;
--                       Khqr/Fields: decoding fields; Khqr/Payload: parseKhqr.
--   Loyalty             apps/api/src/loyalty/loyalty.service.ts: mutateIn, redeem, redeemIdempotent,
--                       redeemReward, fulfill, cancel. Loyalty/Expiry: awardForPayment and the expiry;
--                       Loyalty/Reconciled, Loyalty/Movement: balance, log and ledger together;
--                       Loyalty/Fifo: expiry as lots; Loyalty/Sweep: repeated expiry;
--                       Loyalty/Vouchers: vouchers, and overlapping calls.
--   Webhooks            apps/api/src/webhooks/webhook-events.service.ts; Webhooks/Delivery: process of
--                       apps/api/src/worker/webhook-delivery.processor.ts; Webhooks/Settled,
--                       Webhooks/Races, Webhooks/Fanout: how deliveries and endpoints end.
--   Referrals           apps/api/src/referrals/referrals.service.ts, which writes points as Loyalty does;
--                       Referrals/Commissions: accrual and payout; Referrals/Rewards: the reward.
--   Games               apps/api/src/games/games.service.ts: claimPrize; Games/Stock: draws and
--                       their stock; Games/Plays: creditPrize, reveal, drawAndRecord, play.
--   Checkout            create of apps/api/src/payments/payments.service.ts, which joins Quota, Money,
--                       Coupons, GiftCards, Idempotency and transition; Checkout/Price: the charge;
--                       Checkout/Covered: orders and gift cards.
--   Tests               runs at concrete inputs.
--   Prelude, Prelude/*  shared names, lists, tables, errors, integers; Decimal: decimal numbers.
--
-- How state is represented: a table is an association list under the row's id, a transaction is one
-- step that reads and writes the tables, and what a caller read before its transaction is an
-- argument of that step, so that overlapping callers are sequences of steps with whatever was read.
-- An exception is a value of Result. Ids, hashes and instants are natural numbers. An amount is a
-- number of units of 10^-4, the scale of the columns; a text is a list of character codes.
--
-- Arithmetic: a Decimal is exact here, which holds for decimal.js as long as a result has at most 20
-- significant digits. Rounding is decimal.js's and an argument (the record Rounding of Decimal, with
-- its documented behaviour); Decimal.rounding is one that behaves so. Natural numbers stop at 0 in a
-- subtraction: where the code's number could be negative, the definition says so. The numeral that
-- formatAmount prints is computed on fuel 15, which is enough below 10^15; the amounts of its round
-- trip are below 10^13. The lengths and instants of a KHQR payload are printed on the same fuel;
-- parseTlv runs on one round more than its text has characters, which is enough, since a round takes
-- at least four of them off. A webhook's job runs on the attempts that the queue gives it,
-- WEBHOOK_MAX_ATTEMPTS; the last of them is always final. A draw of a prize has ten rounds, like
-- the loop of claimPrize.
--
-- Not modelled: the HTTP layer, DTO validation, the database's own locking and isolation beyond what
-- a definition states (a transaction is one step), logging, audit entries, texts of error messages,
-- the other services that a captured payment notifies (they stand as effects of a
-- transition, also where a component here models them), the PayChain rail,
-- the dashboard, SDKs and mobile clients.
pub mod Prelude
pub mod Decimal
pub mod Types
pub mod Money
pub mod Idempotency
pub mod Payments
pub mod Ledger
pub mod GiftCards
pub mod Settlements
pub mod Coupons
pub mod Providers
pub mod Access
pub mod Khqr
pub mod Loyalty
pub mod Referrals
pub mod Games
pub mod Webhooks
pub mod Checkout
pub mod Quota
pub mod RateLimit
pub mod Risk
pub mod Tests
