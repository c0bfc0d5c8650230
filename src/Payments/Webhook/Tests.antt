-- ===== src/Payments/Webhook/Tests.antt =====
-- Inputs for the notifications: a report of the payment of an order's invoice, sent twice, and a
-- settlement of a refunded one.
use palingames.Base.{◌≡◌, refl, false, none, some, [], ok}
use palingames.Base.Text.{str, upper, strip, int_of_digits}
use palingames.Orders.Model.{Order, OrderStatus}
use palingames.Access.Tests.{order}
use palingames.Payments.Model.{InvoiceStatus}
use palingames.Payments.Session.{reload}
use palingames.Payments.Apply.{Moment}
use palingames.Payments.Tests.{env, for_order, invoice}
use palingames.Payments.Webhook.{
  Format, Gateway, Notification, RawCurrency, handle, process_status_change,
}
use palingames.Payments.Webhook.Settlement.{
  IsPaidAt, Settlement, handle_settlement, paid_instant, process_epos_notification,
  process_epos_notification-IsPaidAt,
}

abbrev pub format : Format
format = record { sha1 = λ t. t; isoformat = λ t. "t"; raw_response = λ n. "{}" }

abbrev pub paid_report : Notification
paid_report = record {
  cmd_type = 3;
  status = some 3;
  account_no = "PG1";
  invoice_no = some 11;
  payment_no = none;
  amount = some 2000;
  currency = RawCurrency.text "933";
  created_at = some (Moment.aware 15);
}

abbrev pub gateway : Gateway
gateway = record { session = for_order; events = [] }

abbrev pub after_report : Gateway
after_report = handle format env paid_report (reload for_order) [] false

pub accepted : process_status_change format env paid_report gateway ≡ ok after_report
unfolding process_status_change str upper strip int_of_digits
accepted = refl

abbrev pub settlement : Settlement
settlement = record {
  cmd_type = 4;
  account_number = "PG1";
  payment_no = some 8;
  transaction_id = "x";
  amount = some 2000;
  amount_text = "20.00";
  currency = RawCurrency.missing;
  created_at = some (Moment.aware 15);
  date_result_utc = none;
  payload = "{}";
}

abbrev refunded_order : Order
refunded_order = record order { status = OrderStatus.refunded; refunded_at = some 9 }

-- The order and its invoice are refunded.
abbrev refunded : Gateway
refunded = record {
  session = record for_order {
    stored_invoice = invoice InvoiceStatus.refunded;
    stored_order = some refunded_order;
  };
  events = [];
}

abbrev after_settlement : Gateway
after_settlement = handle_settlement format env settlement (reload refunded.session) [] false

settled_again : process_epos_notification format env settlement refunded ≡ ok after_settlement
unfolding process_epos_notification
settled_again = refl

-- A refunded order is paid again.
process_epos_notification-IsPaidAt_example :
    IsPaidAt (some (paid_instant env settlement)) after_settlement.session
process_epos_notification-IsPaidAt_example =
    process_epos_notification-IsPaidAt format env settlement refunded {g' = after_settlement}
      refunded_order refl refl settled_again
