-- ===== src/Payments/Tests.antt =====
-- Inputs for apps/payments/services.py: the pending invoice of an order, and of a custom game.
use palingames.Base.{ℕ, ◌+◌, ◌≡◌, refl, ◌≤◌, true, ◌||◌, none, some, List, [], ◌∷◌}
use palingames.Access.Model.{Tables}
use palingames.Access.Users.{has_user_product_access}
use palingames.Access.Users.Granted.{has_item}
use palingames.Access.Tests.{order}
use palingames.CustomGames.Model.{CustomGameRequest, RequestStatus}
use palingames.Payments.Model.{Invoice, InvoiceStatus}
use palingames.Payments.Session.{Env, Session}
use palingames.Payments.Status.{map_invoice_status}
use palingames.Payments.Apply.{StatusPayload, apply_invoice_status_update}
use palingames.Payments.Apply.Objects.{heeded}
use palingames.Payments.Apply.Settled.{
  IsConsistent, Report, receive_all, settlement, settlement-receive_all,
}
use palingames.Payments.Apply.Persisted.{IsStored, apply_invoice_status_update-IsStored}
use palingames.Payments.Apply.Fulfilled.{open_purchases, purchases-receive_all}
use palingames.Payments.Apply.Handovers.{Handover, handovers}
use palingames.Payments.Apply.Granted.{
  request_after, status_of, has_user_product_access-paid, request-apply_invoice_status_update,
}

abbrev pub invoice : InvoiceStatus → Invoice
invoice st = record {
  id = 5;
  provider = "EXPRESS_PAY";
  provider_invoice_no = some "11";
  status = st;
  invoice_url = none;
  amount = 2000;
  currency = 933;
  paid_at = none;
  cancelled_at = none;
  expires_at = some 50;
  payment_email_sent_for_provider_invoice_no = none;
  payment_reminder_sent_for_provider_invoice_no = none;
  last_status_check_at = none;
  raw_create_response = none;
  raw_last_status_response = none;
  created_at = 0;
}

abbrev pub custom_game : RequestStatus → CustomGameRequest
custom_game st = record {
  id = 9;
  payment_account_no = some "PG2";
  user_id = none;
  status = st;
  contact_email = "a@b.c";
  quoted_price = some 2000;
  currency = 933;
  deadline = some 90;
  delivered_at = none;
  cancelled_at = none;
}

abbrev pub no_accesses : Tables
no_accesses = record { user_accesses = []; guest_accesses = []; next_id = 1 }

abbrev pub env : Env
env = record {
  now = 20;
  hash = λ t. t;
  guest_settings = record { expires_in = 24; max_downloads = 3 };
  tokens = λ i. "t";
  make_aware = λ t. t;
}

abbrev pub payload : StatusPayload
payload = record { event_at = none; raw_response = some "{}"; amount = none; currency = none }

abbrev pub for_order : Session
for_order = record {
  invoice = invoice InvoiceStatus.pending;
  order = some order;
  request = none;
  stored_invoice = invoice InvoiceStatus.pending;
  stored_order = some order;
  stored_request = none;
  access = no_accesses;
  effects = [];
}

abbrev pub for_request : Session
for_request = record for_order {
  order = none;
  request = some (custom_game RequestStatus.delivered);
  stored_order = none;
  stored_request = some (custom_game RequestStatus.delivered);
}

abbrev report : ℕ → Report
report code = record {
  env = env;
  code = some code;
  source = "webhook";
  persist = true;
  payload = payload;
}

-- Paid, pending again, paid again, refunded, paid.
abbrev reports : List Report
reports = report 3 ∷ report 1 ∷ report 3 ∷ report 7 ∷ report 3 ∷ []

final_status : InvoiceStatus
final_status = (receive_all reports for_order).invoice.status

final_status-refunded : final_status ≡ InvoiceStatus.refunded
unfolding final_status receive_all apply_invoice_status_update
final_status-refunded = refl

settlement-receive_all_example :
    settlement for_order.invoice.status ≤ settlement (receive_all reports for_order).invoice.status
settlement-receive_all_example = settlement-receive_all reports for_order

for_order-IsConsistent : IsConsistent for_order
for_order-IsConsistent = record { order_agrees = refl; paid_has_paid_at = λ e. cc }

purchases-receive_all_example :
    ((k : Handover)
      → handovers k (receive_all reports for_order)
        ≤ handovers k for_order + open_purchases for_order.invoice.status)
    × (open_purchases for_order.invoice.status ≡ 0
        → (receive_all reports for_order).access ≡ for_order.access)
    × IsConsistent (receive_all reports for_order)
purchases-receive_all_example = purchases-receive_all reports for_order refl for_order-IsConsistent

for_order-IsStored : IsStored for_order
for_order-IsStored = record { invoice = refl; order = refl; request = refl }

apply_invoice_status_update-IsStored_example :
    IsStored (apply_invoice_status_update env (some 7) "webhook" true payload for_order).1
apply_invoice_status_update-IsStored_example =
    apply_invoice_status_update-IsStored env (some 7) "webhook" payload for_order for_order-IsStored

paid_answer :
    (apply_invoice_status_update env (some 3) "webhook" true payload for_order).0
    ≡ some InvoiceStatus.paid
unfolding apply_invoice_status_update
paid_answer = refl

has_user_product_access-paid_example :
    has_user_product_access
      (some 7)
      4
      (apply_invoice_status_update env
        (some 3)
        "webhook"
        true
        payload
        for_order).1.access.user_accesses
    ≡ (has_user_product_access (some 7) 4 no_accesses.user_accesses || has_item 4 order.items)
has_user_product_access-paid_example =
    has_user_product_access-paid env (some 3) "webhook" true payload for_order order 7 4 refl refl
      refl refl paid_answer

request-apply_invoice_status_update_example :
    let (answer, t) = apply_invoice_status_update env (some 3) "webhook" true payload for_request in
    (answer ≡ heeded for_request.invoice.status (map_invoice_status (some 3)))
    × (status_of t.request ≡ some (request_after answer RequestStatus.delivered))
request-apply_invoice_status_update_example =
    request-apply_invoice_status_update env (some 3) "webhook" true payload for_request
      (custom_game RequestStatus.delivered) refl refl
