-- ===== src/CustomGames/Status.antt =====
-- apps/custom_games/models.py: the rules for the status of a request. What the tables say of it, its
-- active files and its paid invoices, is the record `Facts`.
pub mod Sound
use palingames.Base.{
  Result, ok, err, ◌>>=◌, ◌>>◌, raise_if, ℕ, Bool, true, false, not, ◌&&◌, ◌||◌, Option, none, some,
  List, [], ◌∷◌, ◌++◌, leb, is_some, if◌then◌else◌,
}
use palingames.CustomGames.Model.{CustomGameRequest, RequestStatus}

pub record Facts : Type 0 where
  pub has_active_files : Bool
  pub has_paid_invoice : Bool

-- The messages of a `ValidationError`.
pub data Complaint : Type 0 where
  price_missing price_not_positive deadline_missing not_paid not_in_progress no_active_file :
      Complaint

abbrev pub complaint_if : Bool → Complaint → List Complaint
complaint_if c message = if c then message ∷ [] else []

-- `if errors: raise ValidationError(errors)`
abbrev pub raise_all : List Complaint → Result (List Complaint) (Unit {0})
raise_all [] = ok tt
raise_all (c ∷ cs) = err (c ∷ cs)

unfoldable pub price_complaints : Option ℕ → List Complaint
price_complaints none = Complaint.price_missing ∷ []
price_complaints (some price) = complaint_if (leb price 0) Complaint.price_not_positive

unfoldable pub validate_waiting_for_payment_fields :
    CustomGameRequest → Result (List Complaint) (Unit {0})
unfolding price_complaints
validate_waiting_for_payment_fields r = raise_all (
    price_complaints r.quoted_price
    ++ complaint_if (not (is_some r.deadline)) Complaint.deadline_missing)

unfoldable pub validate_can_mark_in_progress :
    Facts → CustomGameRequest → Result (List Complaint) (Unit {0})
unfolding price_complaints
validate_can_mark_in_progress facts r = raise_all (
    price_complaints r.quoted_price
    ++ complaint_if (not (is_some r.deadline)) Complaint.deadline_missing
    ++ complaint_if (not facts.has_paid_invoice) Complaint.not_paid)

unfoldable pub validate_ready_status :
    Facts → CustomGameRequest → Result (List Complaint) (Unit {0})
validate_ready_status facts r = do
  raise_if (not facts.has_active_files) (Complaint.no_active_file ∷ [])
  raise_if (not (is_some r.quoted_price)) (Complaint.price_missing ∷ [])
  raise_if (not (is_some r.deadline)) (Complaint.deadline_missing ∷ [])

abbrev pub is_in_progress : RequestStatus → Bool
is_in_progress RequestStatus.in_progress = true
is_in_progress _ = false

unfoldable pub validate_can_mark_ready :
    Facts → CustomGameRequest → Result (List Complaint) (Unit {0})
unfolding validate_ready_status
validate_can_mark_ready facts r =
    raise_if (not (is_in_progress r.status)) (Complaint.not_in_progress ∷ [])
    >> validate_ready_status facts r

abbrev pub clean_as : Facts → CustomGameRequest → RequestStatus → Result (List Complaint) (Unit {0})
clean_as facts r RequestStatus.waiting_for_payment = validate_waiting_for_payment_fields r
clean_as facts r RequestStatus.in_progress = validate_can_mark_in_progress facts r
clean_as facts r RequestStatus.ready = validate_ready_status facts r
clean_as facts r _ = ok tt

-- `CustomGameRequest.clean`, the check of the admin's form.
unfoldable pub clean_request : Facts → CustomGameRequest → Result (List Complaint) (Unit {0})
unfolding validate_waiting_for_payment_fields validate_can_mark_in_progress validate_ready_status
clean_request facts r = clean_as facts r r.status

unfoldable pub mark_in_progress :
    Facts → CustomGameRequest → Result (List Complaint) CustomGameRequest
unfolding validate_can_mark_in_progress
mark_in_progress facts r =
    validate_can_mark_in_progress facts r >> ok (record r { status = RequestStatus.in_progress })

unfoldable pub mark_ready : Facts → CustomGameRequest → Result (List Complaint) CustomGameRequest
unfolding validate_can_mark_ready
mark_ready facts r =
    validate_can_mark_ready facts r >> ok (record r { status = RequestStatus.ready })

unfoldable pub mark_cancelled : ℕ → CustomGameRequest → CustomGameRequest
mark_cancelled now r = record r { status = RequestStatus.cancelled; cancelled_at = some now }

unfoldable pub mark_delivered : ℕ → CustomGameRequest → CustomGameRequest
mark_delivered now r = record r { status = RequestStatus.delivered; delivered_at = some now }
