-- ===== src/Lib.antt =====
-- Verification of the money and scheduling logic of PolykatoikiaOS, a system that manages apartment
-- buildings: expenses are divided among the units, billed by month, paid online or in installments,
-- and followed up when they are late.
--
-- The parts, with the file that models each, and the source it is translated from:
-- - Allocation/Split: splitByLargestRemainder of apps/api/src/prisma/split-by-largest-remainder.ts,
--   which divides an amount in cents by integer weights. Allocation/Float is what it does in double
--   precision.
-- - Allocation/Weights: resolveAllocationWeights of apps/api/src/expenses/allocation-weights.ts,
--   which turns the units of a building and a strategy into the splitter's weights.
-- - Allocation/Meters: validateAllUnitsHaveReadings and splitByMeterReading of
--   apps/api/src/meters/meter-allocation.ts, the split by consumption.
-- - Allocation/Ownership: the basis and the weights of ownership in
--   libs/shared/src/lib/ownership-weights.ts.
-- - Plans/Installments: splitIntoInstallments and applyPaymentToPlan of
--   apps/api/src/payment-plans/payment-plan-calc.ts.
-- - Plans/Settlement: allocatePlanPaymentToInvoices of
--   apps/api/src/payment-plans/payment-plan-settlement.ts.
-- - Period: parsing, printing, stepping, comparing and listing billing months in
--   libs/shared/src/lib/period.ts, over texts as lists of character codes.
-- - Payments/Checkout: startCheckout of apps/api/src/payments/payments.service.ts, with the adapters
--   of the payment providers as parameters.
-- - Payments/Store and Payments/Settle: settleOrder and replayBelongsToOrder of
--   apps/api/src/payments/payments.service.ts, over a store of the tables that they use. A transaction
--   that throws gives the store back as it was.
-- - Fees/LateFee: apps/api/src/late-fees/late-fee-calc.ts, and Fees/Charges: LateFeesService of
--   apps/api/src/late-fees/late-fees.service.ts, its settings, its sweep and its waiver over a store,
--   with assertSameBuilding of apps/api/src/common/tenant.ts.
-- - Fees/Commission: apps/api/src/marketplace/commission-calc.ts.
-- - Governance/Tally: tallyVote of apps/api/src/votes/tally-vote.ts, and Governance/Quorum: quorumOf
--   of apps/api/src/assembly/quorum.ts.
-- - Partners/Pipeline: the status changes of a lead in apps/api/src/partners/pipeline.ts.
-- - Bank/Matching: suggestMatches of apps/api/src/bank-import/match-bank-payments.ts.
-- - Subscriptions/Pricing: periodTotalCents of libs/shared/src/lib/subscriptions.ts and
--   assertMinimumUnits of apps/api/src/subscriptions/pricing.ts, and Subscriptions/Credits:
--   apps/api/src/referrals/referral-calc.ts.
-- - Reserve: ReserveService of apps/api/src/reserve/reserve.service.ts. Reserve/Store has its
--   tables, Reserve/Fund the fund and the drawdowns, Reserve/Collect the contributions and the
--   collection of a levy, Reserve/Levy the life of a levy, and Reserve/Requests the calls one after
--   the other, with what other requests commit before the transaction of a contribution, a collection,
--   a drawdown or an issue and between the check and the update of a drawdown, an issue or a closing.
-- - Treasury/Ledger: TreasuryService of apps/api/src/treasury/treasury.service.ts, its accounts, its
--   entries and its balances, and Treasury/Journal: requests one after the other.
-- - Payouts/Register: PayoutsService of apps/api/src/payouts/payouts.service.ts, the payments to
--   suppliers and their summary.
-- - Security/Lockout: LoginLockoutService of apps/api/src/security/login-lockout.service.ts.
--
-- The expense and meter calls resolve weights and then split; a settled plan payment is placed on
-- invoices; an online checkout makes one order for what an invoice still owes, and the settlement
-- credits the invoice for it; createLevy of the reserve calls the weights and the splitter.
--
-- Concurrency: where a call of the reserve or of the treasury reads first and writes in a later
-- transaction, the tables between the two are a parameter (before, during, others), so that a
-- theorem can say what holds whatever other requests commit there. Ids of new rows are arguments,
-- and a table refuses an id that it has.
--
-- Numbers: an amount that the code may see below zero is an integer of Prelude/Int, any other a
-- natural number. The tests of Number.isSafeInteger are kept. Doubles are a parameter, Float, with
-- the accuracy that IEEE 754 gives below 2 ^ 51 as the hypothesis IsAccurate; areas in square metres
-- are a parameter, Area, as is the order of localeCompare. Math.round of a late fee is taken
-- exactly, which doubles do while the product stays below 2 ^ 50. The calendar (Date.UTC),
-- Number.parseInt, Date.parse and the normal forms of texts (login names, references, currencies)
-- are parameters. Every loop runs over a list or over a number that decreases; in Period, String(n)
-- counts digits as fuel, sixteen of them, as many as the largest safe integer has, and periodRange
-- counts rounds, one more than its bound on the results, after which it throws.
--
-- Not modelled: controllers, modules and data transfer objects, authentication, documents and mail,
-- adapters of external services, the web and mobile applications, and the database engine, of which
-- a table is a list of rows, with its unique columns checked where a call relies on them.
pub mod Prelude
pub mod Allocation
pub mod Bank
pub mod Fees
pub mod Governance
pub mod Partners
pub mod Payments
pub mod Payouts
pub mod Period
pub mod Plans
pub mod Reserve
pub mod Security
pub mod Subscriptions
pub mod Treasury
