-- ===== src/Payments/Creation/Tests.antt =====
-- The invoice of a new order of 20.00, created once.
use palingames.Base.{◌≡◌, refl, false, none, some}
use palingames.Orders.Model.{OrderStatus}
use palingames.Access.Tests.{order}
use palingames.Payments.Creation.{
  Env, InvoiceTarget, Payable, Response, Stopped, create_invoice_task, should_skip,
}
use palingames.Payments.Creation.Created.{
  IsWritten, create_invoice_task-IsWritten, create_invoice_task-again,
}

abbrev env : Env
env = record { now = 5; invoice_lifetime = 24; next_invoice_id = 1 }

abbrev response : Response
response = record { invoice_no = "11"; invoice_url = some "u"; raw = "{}" }

abbrev payable : Payable
payable = record {
  target = InvoiceTarget.order (record order { status = OrderStatus.created });
  invoice = none;
}

abbrev alone : Payable → Payable
alone p = p

run : (create_invoice_task env (some response) alone payable).0 ≡ none
unfolding create_invoice_task
run = refl

create_invoice_task-IsWritten_example :
    (should_skip none ≡ false)
    × (should_skip none ≡ false)
    × IsWritten response payable.target
        (create_invoice_task env (some response) alone payable).1.invoice
create_invoice_task-IsWritten_example = create_invoice_task-IsWritten env response alone payable run

create_invoice_task-again_example :
    create_invoice_task env none alone (create_invoice_task env (some response) alone payable).1
    ≡ (some Stopped.skipped, (create_invoice_task env (some response) alone payable).1)
create_invoice_task-again_example =
    create_invoice_task-again env env response none alone alone payable refl run
