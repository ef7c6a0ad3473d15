-- ===== src/Mobile/Actions.antt =====
-- internal/mobile/state/state.go: the setters of the store. Each runs in one Update, under the mutex;
-- the wake-up of subscribers is not modelled.
use nomad_dev.Base.{
  ℕ, zero, suc, Bool, false, ◌||◌, List, [], ◌∷◌, ◌++◌, Option, none, some, Text, lit, text_eq, ltb,
  leb, if◌then◌else◌, length, ℤ, pos, negsuc,
}
use nomad_dev.Mobile.State.{
  State, Turn, ImageInput, ApprovalRequest, Screen, status_idle, max_image_count, max_image_bytes,
}

pub data ImageError : Type 0 where
  too_large too_many unsupported_type : ImageError

abbrev pub is_accepted_image_mime : Text → Bool
is_accepted_image_mime mt =
    text_eq mt (lit "image/jpeg")
    || (text_eq mt (lit "image/png")
        || (text_eq mt (lit "image/gif") || text_eq mt (lit "image/webp")))

abbrev pub remove_at : {A : Type 0} → ℕ → List A → List A
remove_at i [] = []
remove_at zero (x ∷ xs) = xs
remove_at (suc i) (x ∷ xs) = x ∷ remove_at i xs

-- The loop of PopApproval: the first request of that envelope, and the others.
unfoldable pub pop_first :
    Text → List ApprovalRequest → Option (ApprovalRequest × List ApprovalRequest)
pop_first envelope_id [] = none
pop_first envelope_id (a ∷ rest) =
    if text_eq a.envelope_id envelope_id
    then some (a, rest)
    else elim (pop_first envelope_id rest) [
      | none ↦ none
      | some (found, others) ↦ some (found, a ∷ others)
    ]

module _ {F : Type 0} where
  unfoldable pub set_screen : Screen → State F → State F
  set_screen scr st = record st { screen = scr }

  unfoldable pub set_restart_pending : Bool → State F → State F
  set_restart_pending v st = record st { restart_pending = v }

  unfoldable pub reset_turns : F → State F → State F
  reset_turns zero_f st = record st {
    turns = [];
    pending_approvals = [];
    session_tokens = record { prompt = 0; candidates = 0; total = 0; cost_usd = zero_f };
  }

  unfoldable pub set_credentials : Text → Text → State F → State F
  set_credentials server_url token st =
      let st' = record st { server_url = server_url; token = token } in
      if text_eq token []
      then record st' {
        session_id = [];
        last_event_id = [];
        turns = [];
        pending_approvals = [];
        pending_images = [];
        status = status_idle;
      }
      else st'

  unfoldable pub set_status : Text → State F → State F
  set_status status st = record st { status = status }

  unfoldable pub set_last_error : Text → State F → State F
  set_last_error msg st = record st { last_error = msg }

  unfoldable pub record_sent_intent : Text → Text → List ImageInput → State F → State F
  record_sent_intent intent_id text images st =
      let turn : Turn = record {
        intent_id = intent_id;
        user_text = text;
        user_images = images;
        assistant_text = [];
        tool_calls = [];
        finished = false;
        finish_reason = [];
        error = [];
      } in
      record st { turns = st.turns ++ turn ∷ [] }

  unfoldable pub add_pending_image : ImageInput → ℕ → State F → State F × Option ImageError
  add_pending_image img decoded_bytes st =
      if is_accepted_image_mime img.media_type
      then (if ltb max_image_bytes decoded_bytes
          then (st, some too_large)
          else if leb max_image_count (length st.pending_images)
          then (st, some too_many)
          else (record st { pending_images = st.pending_images ++ img ∷ [] }, none))
      else (st, some unsupported_type)

  -- An index out of range changes nothing.
  unfoldable pub remove_pending_image : ℤ → State F → State F
  remove_pending_image (pos i) st = record st { pending_images = remove_at i st.pending_images }
  remove_pending_image (negsuc i) st = st

  unfoldable pub take_pending_images : State F → State F × List ImageInput
  take_pending_images st = (record st { pending_images = [] }, st.pending_images)

  unfoldable pub pop_approval : Text → State F → State F × Option ApprovalRequest
  pop_approval envelope_id st = elim (pop_first envelope_id st.pending_approvals) [
    | none ↦ (st, none)
    | some (found, others) ↦ (record st { pending_approvals = others }, some found)
  ]
