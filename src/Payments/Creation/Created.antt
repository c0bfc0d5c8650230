-- ===== src/Payments/Creation/Created.antt =====
-- What `create_invoice_task` of apps/payments/tasks.py writes, and a second run of it.
use palingames.Base.{
  ◌≡◌, refl, ap, ℕ, Bool, true, false, Option, none, some, str_eq, arith, Result, ok, err, ◌>>◌,
  raise_if, not_raised, passed,
}
use palingames.Payments.Model.{Invoice, InvoiceStatus}
use palingames.Payments.Creation.{
  Env, InvoiceTarget, Payable, Response, Stopped, check_target, create_invoice_task, first_look,
  get_locked_target_for_invoice_creation, get_target_amount, second_look, should_skip,
  target_currency,
}

look-skip :
    (p : Payable)
    → should_skip p.invoice ≡ true
    → get_locked_target_for_invoice_creation p ≡ err Stopped.skipped
unfolding get_locked_target_for_invoice_creation
look-skip p h = ap (λ (b : Bool). raise_if b Stopped.skipped >> check_target p.target) h

skip-look :
    (p : Payable)
    → get_locked_target_for_invoice_creation p ≡ ok tt
    → (should_skip p.invoice ≡ false) × (check_target p.target ≡ ok tt)
unfolding get_locked_target_for_invoice_creation
skip-look p h =
    let parts = passed (raise_if (should_skip p.invoice) Stopped.skipped) h in
    (not_raised (should_skip p.invoice) Stopped.skipped parts.0, parts.1)

-- The price that an order has after its discount, and the quoted price of a request, which it has.
abbrev pub IsPriceOf : InvoiceTarget → ℕ → Type 0
IsPriceOf (InvoiceTarget.order o) amount = amount ≡ o.total_amount
IsPriceOf (InvoiceTarget.custom_game_request r) amount = r.quoted_price ≡ some amount

-- The invoice that stands in the rows was written by this run, for the target `t`.
abbrev pub IsWritten : Response → InvoiceTarget → Option Invoice → Type 0
IsWritten r t none = ⊥
IsWritten r t (some i) =
    (i.status ≡ InvoiceStatus.pending)
    × (i.provider_invoice_no ≡ some r.invoice_no)
    × IsPriceOf t i.amount
    × (i.currency ≡ target_currency t)

module _ (env : Env) (r : Response) (between : Payable → Payable) (p : Payable) where
  price_lem : (t : InvoiceTarget) → check_target t ≡ ok tt → IsPriceOf t (get_target_amount t)
  unfolding get_target_amount
  price_lem (InvoiceTarget.order o) h = refl
  price_lem (InvoiceTarget.custom_game_request r) h = ground (arith, h)

  -- A run that creates an invoice found none that may be paid, before the provider was asked and after;
  -- it writes a pending one with the provider's number, for the total of the order or the quoted price of
  -- the request, which it has, and in the currency of the target.
  pub create_invoice_task-IsWritten :
      (create_invoice_task env (some r) between p).0 ≡ none
      → (should_skip p.invoice ≡ false)
        × (should_skip (between p).invoice ≡ false)
        × IsWritten r (between p).target (create_invoice_task env (some r) between p).1.invoice
  unfolding create_invoice_task
  create_invoice_task-IsWritten h = first (get_locked_target_for_invoice_creation p) refl h
    where
      second :
          (look : Result Stopped (Unit {0}))
          → get_locked_target_for_invoice_creation (between p) ≡ look
          → (second_look env r (between p) look).0 ≡ none
          → (should_skip (between p).invoice ≡ false)
            × IsWritten r (between p).target (second_look env r (between p) look).1.invoice
      second (ok u) e h =
          let (free, checked) = skip-look (between p) e in
          (free, (refl, refl, price_lem (between p).target checked, refl))
      second (err s) e h = cc

      first :
          (look : Result Stopped (Unit {0}))
          → get_locked_target_for_invoice_creation p ≡ look
          → (first_look env (some r) between p look).0 ≡ none
          → (should_skip p.invoice ≡ false)
            × (should_skip (between p).invoice ≡ false)
            × IsWritten r (between p).target (first_look env (some r) between p look).1.invoice
      first (ok u) e h =
          let q = second (get_locked_target_for_invoice_creation (between p)) refl h in
          ((skip-look p e).0, q.0, q.1)
      first (err s) e h = cc

written-skip :
    (r : Response) (t : InvoiceTarget) (i : Option Invoice)
    → str_eq r.invoice_no "" ≡ false
    → IsWritten r t i
    → should_skip i ≡ true
unfolding should_skip
written-skip r t none named w = absurd w
written-skip r t (some i) named w = ground (arith, named, w.0, w.1)

-- Whatever the provider would answer, a task for a target whose invoice may be paid is skipped.
skipped_at_once :
    (env : Env) (response : Option Response) (between : Payable → Payable) (p : Payable)
    → should_skip p.invoice ≡ true
    → create_invoice_task env response between p ≡ (some Stopped.skipped, p)
unfolding create_invoice_task
skipped_at_once env response between p h =
    ap (λ (look : Result Stopped (Unit {0})). first_look env response between p look)
      (look-skip p h)

-- After an invoice is created, with a number that is not empty, a second task is skipped and changes
-- nothing.
pub create_invoice_task-again :
    (env env' : Env) (r : Response) (response : Option Response)
    (between between' : Payable → Payable) (p : Payable)
    → str_eq r.invoice_no "" ≡ false
    → (create_invoice_task env (some r) between p).0 ≡ none
    → let rows = (create_invoice_task env (some r) between p).1 in
      create_invoice_task env' response between' rows ≡ (some Stopped.skipped, rows)
create_invoice_task-again env env' r response between between' p named h =
    let rows = (create_invoice_task env (some r) between p).1 in
    skipped_at_once env' response between' rows (
      written-skip r (between p).target rows.invoice named
        ((create_invoice_task-IsWritten env r between p h).2))
