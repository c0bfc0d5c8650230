-- ===== src/Payments/Session.antt =====
-- The state of a transaction of apps/payments/services.py: the objects in memory, the rows that they
-- were read from, the tables of accesses, and what is sent outside.
use palingames.Base.{ℕ, String, Option, List, ◌∷◌}
use palingames.Orders.Model.{Order}
use palingames.CustomGames.Model.{CustomGameRequest}
use palingames.Access.Model.{Tables}
use palingames.Access.Guests.{GuestSettings, Payload}
use palingames.Payments.Model.{Invoice, InvoiceStatus}

-- A call that leaves the transaction, in the order of the code's names.
pub data Effect : Type 0 where
  -- create_guest_access_email_outbox and enqueue_notification_outbox
  guest_access_email : String → List Payload → Effect
  -- inc_order_paid, inc_order_paid_duplicate
  order_paid : ℕ → Effect
  order_paid_duplicate : ℕ → Effect
  -- send_order_purchase_analytics_task on commit
  purchase_analytics : ℕ → String → Effect
  -- issue_order_reward_after_payment
  order_reward : ℕ → Effect
  -- notify_custom_game_request_paid_admin
  request_paid_admin : ℕ → ℕ → Effect
  -- record_order_refunded_incident
  order_refunded_incident : String → ℕ → ℕ → Effect
  -- inc_payment_unmapped_provider_status and record_unmapped_provider_status_incident
  unmapped_status : String → ℕ → Effect
  -- inc_payment_status_regression_ignored
  regression_ignored : String → InvoiceStatus → InvoiceStatus → Effect
  -- inc_payment_duplicate_event
  duplicate_event : String → ℕ → String → Effect

-- What a call reads from outside: the clock, the hash and the tokens of guest accesses.
pub record Env : Type 0 where
  pub now : ℕ
  pub hash : String → String
  pub guest_settings : GuestSettings
  pub tokens : ℕ → String
  -- `timezone.make_aware(value, timezone.get_current_timezone())`
  pub make_aware : ℕ → ℕ

-- `order` and `request` are `invoice.order` and `invoice.custom_game_request`. The newest effect
-- stands first.
pub record Session : Type 0 where
  pub invoice : Invoice
  pub order : Option Order
  pub request : Option CustomGameRequest
  pub stored_invoice : Invoice
  pub stored_order : Option Order
  pub stored_request : Option CustomGameRequest
  pub access : Tables
  pub effects : List Effect

abbrev pub emit : Effect → Session → Session
emit e s = record s { effects = e ∷ s.effects }

-- The objects as they are read from their rows.
abbrev pub reload : Session → Session
reload s = record s {
  invoice = s.stored_invoice;
  order = s.stored_order;
  request = s.stored_request;
}
