-- ===== src/Mobile/Queues.antt =====
-- Lemmas about the composer's images and the pending approvals of internal/mobile/state/state.go.
use nomad_dev.Base.{
  ℕ, ◌≤◌, ◌<◌, ◌≡◌, refl, ap, ◌↔◌, ◌⊎◌, inl, inr, true, false, List, [], ◌∷◌, ◌++◌, none, some,
  arith, Text, text_eq, text_eq_iff, length, All, ltb, leb, Bool-cases,
}
use nomad_dev.Mobile.State.{State, ImageInput, ApprovalRequest, max_image_bytes, max_image_count}
use nomad_dev.Mobile.Actions.{is_accepted_image_mime, add_pending_image, pop_first}

-- An image is accepted exactly when its type is, it is not too large and fewer than four wait; then it is
-- queued behind the others, and else the queue stays as it is.
pub add_pending_image_lem :
    {F : Type 0} (img : ImageInput) (decoded_bytes : ℕ) (st : State F)
    → (((add_pending_image img decoded_bytes st).1 ≡ none) ↔ (
        (is_accepted_image_mime img.media_type ≡ true)
        × (decoded_bytes ≤ max_image_bytes)
        × (length st.pending_images < max_image_count)))
      × ((add_pending_image img decoded_bytes st).0.pending_images
          ≡ elim (add_pending_image img decoded_bytes st).1 [
            | none ↦ st.pending_images ++ img ∷ []
            | some e ↦ st.pending_images
          ])
unfolding add_pending_image
add_pending_image_lem img n st = elim (Bool-cases (is_accepted_image_mime img.media_type)) [
  | inr e ↦ rw e ((λ h. cc, λ h. cc), refl)
  | inl e ↦ elim (Bool-cases (ltb max_image_bytes n)) [
    | inl f ↦ rw (e, f) ((λ h. cc, λ h. ground (arith, f)), refl)
    | inr f ↦ elim (Bool-cases (leb max_image_count (length st.pending_images))) [
      | inl g ↦ rw (e, f, g) ((λ h. cc, λ h. ground (arith, g)), refl)
      | inr g ↦ rw (e, f, g) ((λ h. (refl, ground (arith, f), ground (arith, g)), λ h. refl), refl)
    ]
  ]
]

-- PopApproval takes the first request of the envelope out of the queue and leaves the others in order;
-- where it finds none, no request is for that envelope.
pub pop_first_lem :
    (id : Text) (queue : List ApprovalRequest)
    → ((pop_first id queue ≡ none) × All (λ r. text_eq r.envelope_id id ≡ false) queue)
      ⊎ ((before : List ApprovalRequest) × (found : ApprovalRequest) × (after : List
            ApprovalRequest)
          × (queue ≡ before ++ found ∷ after)
          × All (λ r. text_eq r.envelope_id id ≡ false) before
          × (found.envelope_id ≡ id)
          × (pop_first id queue ≡ some (found, before ++ after)))
unfolding pop_first
pop_first_lem id [] = inl (refl, tt)
pop_first_lem id (r ∷ queue) = elim (Bool-cases (text_eq r.envelope_id id)) [
  | inl e ↦ rw e (inr ([], r, queue, refl, tt, (text_eq_iff r.envelope_id id).0 e, refl))
  | inr e ↦ elim (pop_first_lem id queue) [
    | inl (n, all) ↦ rw (e, n) (inl (refl, (refl, all)))
    | inr (before, found, after, q, all, same, p) ↦
        rw (e, p) (inr (r ∷ before, found, after, ap (λ x. r ∷ x) q, (e, all), same, refl))
  ]
]
