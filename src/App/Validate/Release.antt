-- ===== src/App/Validate/Release.antt =====
-- When a signature leaves the device: `validate_transaction` of src/ui/action/validate.c.
use ledger_app_qrl_v.Prelude.{
  ℕ, ◌≡◌, refl, arith, Bool, true, false, not, ◌||◌, none, some, List, [], ◌∷◌, ◌==◌, Bool-cases,
  inl, inr,
}
use ledger_app_qrl_v.App.{
  World, Storage, state_none, state_approved, Response, Review, address_review, transaction_review,
  MlDsa, sw_ok, sw_signature_fail,
}
use ledger_app_qrl_v.App.Wipe.{wipe_nvm_secrets, IsWiped, wipe_nvm_secrets-IsWiped}
use ledger_app_qrl_v.App.Send.{
  helper_send_response_address, helper_send_response_sig, sig_chunk, note_chunk_sent,
}
use ledger_app_qrl_v.App.Validate.{
  validate_pubkey, crypto_sign_message, set_state, validate_transaction, review_choice, choose,
  address_review_choice, transaction_review_choice,
}

-- What signing gave, and what verifying it then gave.
abbrev pub signed : MlDsa → World → Storage × ℕ
signed ml w = ml.crypto_sign_optimized w.ctx.bip32_path w.ctx.bip32_path_len w.ctx.m_hash w.storage

abbrev pub verified : MlDsa → World → Storage × (ℕ × Bool)
verified ml w =
    let st = (signed ml w).0 in
    ml.crypto_verify_optimized w.ctx.bip32_path w.ctx.bip32_path_len st.sig w.ctx.m_hash st

-- Signing and verifying both went through.
abbrev pub IsVerified : MlDsa → World → Type 0
IsVerified ml w = ((signed ml w).1 ≡ 0) × ((verified ml w).1.0 ≡ 0) × ((verified ml w).1.1 ≡ true)

abbrev pub answer_of : (bytes : List ℕ) → (sw : ℕ) → Response
answer_of bytes sw = record { data_sent = bytes; sw = sw }

-- An approved transaction ends in one of two ways.
pub data IsApproved (ml : MlDsa) (w w' : World) : Type 0 where
  -- The first chunk of the signature is sent, the signature having been verified.
  released :
      IsVerified ml w
      → w'.sent ≡ answer_of (sig_chunk (verified ml w).0.sig 0) sw_ok ∷ w.sent
      → w'.storage.is_sending_signature ≡ 1
      → w'.ctx.state ≡ state_approved
      → IsApproved ml w w'
  -- No byte of it is sent.
  withheld :
      w'.sent ≡ answer_of [] sw_signature_fail ∷ w.sent
      → w'.ctx.state ≡ state_none
      → IsApproved ml w w'

both_went_through :
    (ml : MlDsa) (w : World)
    → ((signed ml w).1 == 0) ≡ true
    → not (not ((verified ml w).1.0 == 0) || not (verified ml w).1.1) ≡ true
    → IsVerified ml w
both_went_through ml w e v = ground arith

pub validate_transaction-IsApproved :
    (ml : MlDsa) (w : World) → IsApproved ml w (validate_transaction ml true w)
unfolding validate_transaction crypto_sign_message set_state helper_send_response_sig
    note_chunk_sent wipe_nvm_secrets
validate_transaction-IsApproved ml w = elim (Bool-cases ((signed ml w).1 == 0)) [
  | inr e ↦ rw (validate_transaction, e) (withheld refl refl)
  | inl e ↦ elim (Bool-cases (not (not ((verified ml w).1.0 == 0) || not (verified ml w).1.1))) [
    | inr v ↦ rw (validate_transaction, e, v) (withheld refl refl)
    | inl v ↦ rw (validate_transaction, e, v) (released (both_went_through ml w e v) refl refl refl)
  ]
]

noted_IsWiped : (index : ℕ) (st : Storage) → IsWiped st → IsWiped (note_chunk_sent index st)
unfolding note_chunk_sent
noted_IsWiped index st h = elim (Bool-cases (index == 0)) [
  | inl e ↦
      rw (note_chunk_sent, e)
        (record { y_zero = h.y_zero; pack1_zero = h.pack1_zero; w0_zero = h.w0_zero })
  | inr e ↦ elim (Bool-cases (index == 17)) [
    | inl e' ↦
        rw (note_chunk_sent, e, e')
          (record { y_zero = h.y_zero; pack1_zero = h.pack1_zero; w0_zero = h.w0_zero })
    | inr e' ↦ rw (note_chunk_sent, e, e') h
  ]
]

-- However the signing of an approved transaction ends, y, pack1 (the union of t0 and the packed w1) and w0
-- in the storage are zero, in all the bytes that sizeof counts of them.
pub validate_transaction-IsWiped :
    (ml : MlDsa) (w : World) → IsWiped (validate_transaction ml true w).storage
unfolding validate_transaction crypto_sign_message set_state helper_send_response_sig
validate_transaction-IsWiped ml w = elim (Bool-cases ((signed ml w).1 == 0)) [
  | inr e ↦ rw (validate_transaction, e) (wipe_nvm_secrets-IsWiped _)
  | inl e ↦ elim (Bool-cases (not (not ((verified ml w).1.0 == 0) || not (verified ml w).1.1))) [
    | inr v ↦ rw (validate_transaction, e, v) (wipe_nvm_secrets-IsWiped _)
    | inl v ↦ rw (validate_transaction, e, v) (noted_IsWiped 0 _ (wipe_nvm_secrets-IsWiped _))
  ]
]

one_answer :
    (ml : MlDsa) (w : World)
    → IsApproved ml w (validate_transaction ml true w)
    → (r : Response) × ((validate_transaction ml true w).sent ≡ r ∷ w.sent)
one_answer ml w (released v e f g) = (_, e)
one_answer ml w (withheld e f) = (_, e)

-- A choice on a pending review gives exactly one answer and takes the review down.
pub review_choice-answer :
    (ml : MlDsa) (confirm : Bool) (w : World) (review : Review)
    → w.screen ≡ some review
    → ((r : Response) × ((review_choice ml confirm w).sent ≡ r ∷ w.sent))
      × ((review_choice ml confirm w).screen ≡ none)
unfolding review_choice
review_choice-answer ml confirm w review e = rw (review_choice, e) (answered confirm review)
  where
    answered :
        (confirm : Bool) (review : Review)
        → ((r : Response) × ((choose ml confirm review w).sent ≡ r ∷ w.sent))
          × ((choose ml confirm review w).screen ≡ none)
    answered true (address_review address) =
        unfold choose address_review_choice validate_pubkey helper_send_response_address in
        ((_, refl), refl)
    answered false (address_review address) =
        unfold choose address_review_choice validate_pubkey in ((_, refl), refl)
    answered true (transaction_review blind pairs) =
        unfold choose transaction_review_choice in
        (one_answer ml w (validate_transaction-IsApproved ml w), refl)
    answered false (transaction_review blind pairs) =
        unfold choose transaction_review_choice validate_transaction set_state in ((_, refl), refl)
