-- ===== src/CustomGames/Status/Sound.antt =====
-- The statuses of a request of apps/custom_games/models.py over its whole life: saves of the admin's form,
-- the marks, deliveries among them, and what apps/payments makes of a request: an invoice is created for it,
-- and its payment is reported.
use palingames.Base.{
  Result, ok, err, ◌>>◌, ◌≡◌, Bool-cases, inl, inr, subst, refl, sym, ◌∙◌, ℕ, true, Option, some,
  none, List, arith, is_some,
}
use palingames.CustomGames.Model.{CustomGameRequest, RequestStatus}
use palingames.CustomGames.Status.{
  Complaint, Facts, clean_as, clean_request, is_in_progress, mark_cancelled, mark_delivered,
  mark_in_progress, mark_ready, validate_can_mark_in_progress, validate_can_mark_ready,
  validate_ready_status,
}
use palingames.Payments.Model.{InvoiceStatus}
use palingames.Payments.Session.{Env, Session}
use palingames.Payments.Apply.{
  apply_custom_game_request_status_from_invoice_status, is_paid_or_in_progress,
  mark_custom_game_request_paid,
}
use palingames.Payments.Creation.{InvoiceTarget, mark_target_waiting_for_payment, waiting_request}

-- What happens to a request. A report on its payment is applied to the request of its invoice's session.
pub data Step : CustomGameRequest → CustomGameRequest → Type 0 where
  saves : (facts : Facts) (r r' : CustomGameRequest) → clean_request facts r' ≡ ok tt → Step r r'
  starts : (facts : Facts) (r r' : CustomGameRequest) → mark_in_progress facts r ≡ ok r' → Step r r'
  readies : (facts : Facts) (r r' : CustomGameRequest) → mark_ready facts r ≡ ok r' → Step r r'
  delivers : (now : ℕ) (r : CustomGameRequest) → Step r (mark_delivered now r)
  cancels : (now : ℕ) (r : CustomGameRequest) → Step r (mark_cancelled now r)
  waits :
      (r r' : CustomGameRequest)
      → mark_target_waiting_for_payment (InvoiceTarget.custom_game_request r)
        ≡ InvoiceTarget.custom_game_request r'
      → Step r r'
  pays :
      (env : Env) (event_at : Option ℕ) (status : Option InvoiceStatus) (s : Session)
      (r r' : CustomGameRequest)
      → s.request ≡ some r
      → (apply_custom_game_request_status_from_invoice_status env event_at status r s).request
        ≡ some r'
      → Step r r'

pub data Steps : CustomGameRequest → CustomGameRequest → Type 0 where
  none_taken : (r : CustomGameRequest) → Steps r r
  then_step : (a b c : CustomGameRequest) → Steps a b → Step b c → Steps a c

abbrev pub StatusHolds : RequestStatus → CustomGameRequest → Type 0
StatusHolds RequestStatus.ready r = (is_some r.quoted_price ≡ true) × (is_some r.deadline ≡ true)
StatusHolds _ r = Unit

abbrev pub IsSound : CustomGameRequest → Type 0
IsSound r = StatusHolds r.status r

some_same : {r r' : CustomGameRequest} → some r ≡ some r' → r ≡ r'
some_same h = cc

waiting-holds :
    (status : RequestStatus) (r : CustomGameRequest)
    → StatusHolds status r
    → StatusHolds (waiting_request status) (record r { status = waiting_request status })
waiting-holds RequestStatus.ready r h = h
waiting-holds RequestStatus.new r h = h
waiting-holds RequestStatus.in_progress r h = h
waiting-holds RequestStatus.waiting_for_payment r h = h
waiting-holds RequestStatus.payment_expired r h = h
waiting-holds RequestStatus.delivered r h = h
waiting-holds RequestStatus.cancelled r h = h

waited :
    {r r' : CustomGameRequest}
    → InvoiceTarget.custom_game_request r ≡ InvoiceTarget.custom_game_request r'
    → r ≡ r'
waited h = cc

paid-IsSound :
    (env : Env) (event_at : Option ℕ) (status : Option InvoiceStatus) (s : Session)
    (r r' : CustomGameRequest)
    → s.request ≡ some r
    → (apply_custom_game_request_status_from_invoice_status env event_at status r s).request
      ≡ some r'
    → IsSound r
    → IsSound r'
unfolding apply_custom_game_request_status_from_invoice_status mark_custom_game_request_paid
paid-IsSound env event_at (some InvoiceStatus.paid) s r r' e h sound =
    elim (Bool-cases (is_paid_or_in_progress r.status)) [
      | inl again ↦ subst IsSound (some_same (rw again at h)) tt
      | inr first ↦ subst IsSound (some_same (rw first at h)) tt
    ]
paid-IsSound env event_at (some InvoiceStatus.canceled) s r r' e h sound =
    subst IsSound (some_same h) tt
paid-IsSound env event_at (some InvoiceStatus.expired) s r r' e h sound =
    subst IsSound (some_same h) tt
paid-IsSound env event_at (some InvoiceStatus.pending) s r r' e h sound =
    subst IsSound (some_same h) tt
paid-IsSound env event_at (some InvoiceStatus.refunded) s r r' e h sound =
    subst IsSound (some_same (sym e ∙ h)) sound
paid-IsSound env event_at none s r r' e h sound = subst IsSound (some_same (sym e ∙ h)) sound

valid-holds :
    (facts : Facts) (r : CustomGameRequest)
    → validate_ready_status facts r ≡ ok tt
    → (is_some r.quoted_price ≡ true) × (is_some r.deadline ≡ true)
unfolding validate_ready_status
valid-holds facts r h = ground (arith, h)

clean-holds :
    (facts : Facts) (status : RequestStatus) (r : CustomGameRequest)
    → clean_as facts r status ≡ ok tt
    → StatusHolds status r
clean-holds facts RequestStatus.ready r h = valid-holds facts r h
clean-holds facts RequestStatus.new r _ = tt
clean-holds facts RequestStatus.in_progress r _ = tt
clean-holds facts RequestStatus.waiting_for_payment r _ = tt
clean-holds facts RequestStatus.payment_expired r _ = tt
clean-holds facts RequestStatus.delivered r _ = tt
clean-holds facts RequestStatus.cancelled r _ = tt

-- A mark that succeeds has passed its check, and gives what it is to give.
marked :
    (check : Result (List Complaint) (Unit {0})) (given r' : CustomGameRequest)
    → (check >> ok given) ≡ ok r'
    → (check ≡ ok tt) × (given ≡ r')
marked (ok tt) given r' h = (refl, cc)
marked (err complaints) given r' h = cc

ready-holds :
    (facts : Facts) (r : CustomGameRequest)
    → validate_can_mark_ready facts r ≡ ok tt
    → (is_some r.quoted_price ≡ true) × (is_some r.deadline ≡ true)
unfolding validate_can_mark_ready
ready-holds facts r h = elim (Bool-cases (is_in_progress r.status)) [
  | inl e ↦ valid-holds facts r (ground (arith, h, e))
  | inr e ↦ absurd (ground (arith, h, e))
]

Step-IsSound : (r r' : CustomGameRequest) → Step r r' → IsSound r → IsSound r'
unfolding clean_request mark_cancelled mark_delivered mark_in_progress mark_ready
    mark_target_waiting_for_payment
Step-IsSound _ _ (saves facts r r' h) _ = clean-holds facts r'.status r' h
Step-IsSound _ _ (starts facts r r' h) _ =
    subst IsSound
      (marked (validate_can_mark_in_progress facts r)
        (record r { status = RequestStatus.in_progress }) r' h).1
      tt
Step-IsSound _ _ (readies facts r r' h) _ =
    let (checked, same) =
      marked (validate_can_mark_ready facts r) (record r { status = RequestStatus.ready }) r' h in
    subst IsSound same (ready-holds facts r checked)
Step-IsSound _ _ (delivers now r) _ = tt
Step-IsSound _ _ (cancels now r) _ = tt
Step-IsSound _ _ (waits r r' h) sound = subst IsSound (waited h) (waiting-holds r.status r sound)
Step-IsSound _ _ (pays env event_at status s r r' e h) sound =
    paid-IsSound env event_at status s r r' e h sound

-- Whatever saves of the form that the check accepts, marks of IN_PROGRESS, READY, DELIVERED or CANCELLED,
-- invoices and reports on payments follow each other, a READY request has a price and a deadline, if that
-- held at first.
pub clean_request-IsSound : (r r' : CustomGameRequest) → IsSound r → Steps r r' → IsSound r'
clean_request-IsSound _ _ s (none_taken r) = s
clean_request-IsSound _ _ s (then_step a b c steps last) =
    Step-IsSound b c last (clean_request-IsSound a b s steps)
