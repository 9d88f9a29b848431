-- ===== src/Payments/Store.antt =====
-- The rows that settling a payment reads and writes: PaymentOrder, Invoice and Payment of
-- apps/api/prisma/schema.prisma, and the audit entries. Amounts are the integers of `Int` columns.
use koinoxrista.Prelude.{
  ℕ, ◌+◌, ◌^◌, String, Bool, true, false, ◌&&◌, ◌||◌, Option, none, some, List, ltb,
}
use koinoxrista.Prelude.Int.{ℤ, pos, negsuc, leb_ℤ}
use text.Mathlib.Text.{◌==◌ as str_eq}

pub data OrderState : Type 0 where
  pending completed failed expired : OrderState

pub data PaymentStatus : Type 0 where
  pending paid failed refunded : PaymentStatus

pub record PaymentOrder : Type 0 where
  pub id : String
  pub invoice_id : String
  pub order_code : String
  pub amount_cents : ℤ
  pub status : OrderState
  pub provider : String
  pub currency : String
  pub session_ref : Option String
  pub payment_ref : Option String
  pub event_ref : Option String
  pub psp_ref : Option String
  pub settled_at : Option ℕ

pub record Invoice : Type 0 where
  pub id : String
  pub building_id : String
  pub total_cents : ℤ
  pub paid_cents : ℤ
  pub status : PaymentStatus

pub record Payment : Type 0 where
  pub invoice_id : String
  pub payment_order_id : String
  pub provider : String
  pub currency : String
  pub event_ref : String
  pub method : String
  pub psp_ref : String
  pub amount_cents : ℤ

pub record Store : Type 0 where
  pub orders : List PaymentOrder
  pub invoices : List Invoice
  pub payments : List Payment
  pub audits : List String

abbrev pub is_pending : OrderState → Bool
is_pending OrderState.pending = true
is_pending _ = false

abbrev pub is_completed : OrderState → Bool
is_completed OrderState.completed = true
is_completed _ = false

abbrev pub is_paid : PaymentStatus → Bool
is_paid PaymentStatus.paid = true
is_paid _ = false

-- A nullable text that equals `s`.
abbrev pub has : Option String → String → Bool
has none s = false
has (some r) s = str_eq r s

-- A nullable text that is empty, null, or equals `s`.
abbrev pub unset_or : Option String → String → Bool
unset_or none s = true
unset_or (some r) s = str_eq r "" || str_eq r s

-- `Number.isSafeInteger`
abbrev pub is_safe : ℤ → Bool
is_safe (pos n) = ltb n (2 ^ 53)
is_safe (negsuc n) = ltb (n + 1) (2 ^ 53)

abbrev pub eq_ℤ : ℤ → ℤ → Bool
eq_ℤ a b = leb_ℤ a b && leb_ℤ b a
