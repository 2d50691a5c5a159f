-- ===== src/App/Handlers/Effect.antt =====
-- Each handler of src/handler handles its command.
use ledger_app_qrl_v.Prelude.{
  ℕ, ◌%◌, ◌^◌, Bool, true, false, not, ◌&&◌, List, [], ltb, leb, ◌==◌, if◌then◌else◌, Bool-cases,
  inl, inr,
}
use ledger_app_qrl_v.App.{
  World, state_none, confirm_address, confirm_transaction, Buffer, Sdk, MlDsa, sw_bad_state,
  sw_wrong_p1p2,
}
use ledger_app_qrl_v.App.Send.{
  io_send_sw, helper_send_response_address, helper_send_response_sig, helper_send_response_pk_chunk,
  pk_chunks,
}
use ledger_app_qrl_v.App.Address.{address_from_bip32_path}
use ledger_app_qrl_v.App.Display.{ui_display_address}
use ledger_app_qrl_v.App.Display.Cases.{ui_display_address_cases}
use ledger_app_qrl_v.App.Effects.{
  IsHandled, IsSilent, IsSilent-refl, sent-IsHandled, shown-IsHandled, IsSilent-state,
  address_from_bip32_path-IsSilent,
}
use ledger_app_qrl_v.App.Handlers.Chunks.{IsMoving, buffer_with}
use ledger_app_qrl_v.App.Handlers.{
  is_transaction_requested, handler_get_public_key, handler_get_public_key_chunk, handler_sign_tx,
}
use ledger_app_qrl_v.App.Handlers.Stages.{
  then_do-IsHandled, read_path-IsProgress, receive_chunk-IsProgress, review_transaction-IsHandled,
  note_IsHandled,
}

pub helper_send_response_sig-IsHandled :
    (index : ℕ) (w : World) → IsHandled w (helper_send_response_sig index w)
unfolding helper_send_response_sig
helper_send_response_sig-IsHandled index w = note_IsHandled w index _

pub handler_get_public_key_chunk-IsHandled :
    (index : ℕ) (w : World) → IsHandled w (handler_get_public_key_chunk index w)
unfolding handler_get_public_key_chunk helper_send_response_pk_chunk
handler_get_public_key_chunk-IsHandled index w = elim (Bool-cases (leb pk_chunks index)) [
  | inl e ↦ rw e (sent-IsHandled w w [] _ (IsSilent-refl w))
  | inr e ↦ rw e (sent-IsHandled w w _ _ (IsSilent-refl w))
]

pub handler_get_public_key-IsHandled :
    (sdk : Sdk) (ml : MlDsa) (cdata : Buffer) (display : Bool) (w : World)
    → IsHandled w (handler_get_public_key sdk ml cdata display w)
unfolding handler_get_public_key
handler_get_public_key-IsHandled sdk ml cdata display w =
    then_do-IsHandled w _ _ (read_path-IsProgress sdk confirm_address cdata w)
      (λ w1 s. derived display w1 (address_from_bip32_path-IsSilent sdk ml w w1 s))
  where
    derived :
        (display : Bool) (w1 : World)
        → IsSilent w (address_from_bip32_path sdk ml w1).0
        → IsHandled w (
            let (w2, err) = address_from_bip32_path sdk ml w1 in
            if not (err == 0)
            then io_send_sw (err % 2 ^ 16) w2
            else if display
            then ui_display_address w2
            else helper_send_response_address w2)
    derived display w1 s = elim (Bool-cases ((address_from_bip32_path sdk ml w1).1 == 0)) [
      | inr e ↦ rw e (sent-IsHandled w _ [] _ s)
      | inl e ↦ rw e (given display s)
    ]
      where
        given :
            (display : Bool)
            → IsSilent w (address_from_bip32_path sdk ml w1).0
            → IsHandled w (
                if display
                then ui_display_address (address_from_bip32_path sdk ml w1).0
                else helper_send_response_address (address_from_bip32_path sdk ml w1).0)
        given true s =
            ui_display_address_cases (IsHandled w) _ (λ sw. sent-IsHandled w _ [] sw s)
              (λ sw. sent-IsHandled w _ [] sw (IsSilent-state w _ state_none s))
              (λ text. shown-IsHandled w _ _ s)
        given false s = unfold helper_send_response_address in sent-IsHandled w _ _ _ s

more_signature :
    (p1 p2 : ℕ) (w : World)
    → IsHandled w (
        if p1 == 2 && (ltb 0 p2 && ltb p2 18)
        then (if not (is_transaction_requested w.ctx)
            then io_send_sw sw_bad_state w
            else if not (w.storage.is_sending_signature == 0)
            then helper_send_response_sig p2 w
            else io_send_sw sw_bad_state w)
        else io_send_sw sw_wrong_p1p2 w)
more_signature p1 p2 w = elim (Bool-cases (p1 == 2 && (ltb 0 p2 && ltb p2 18))) [
  | inr e ↦ rw e (sent-IsHandled w w [] _ (IsSilent-refl w))
  | inl e ↦ elim (Bool-cases (is_transaction_requested w.ctx)) [
    | inr r ↦ rw (e, r) (sent-IsHandled w w [] _ (IsSilent-refl w))
    | inl r ↦ elim (Bool-cases (w.storage.is_sending_signature == 0)) [
      | inl q ↦ rw (e, r, q) (sent-IsHandled w w [] _ (IsSilent-refl w))
      | inr q ↦ rw (e, r, q) (helper_send_response_sig-IsHandled p2 w)
    ]
  ]
]

pub handler_sign_tx-IsHandled :
    (sdk : Sdk) (ml : MlDsa) (bytes : List ℕ) (p1 p2 : ℕ) (w : World)
    → IsMoving sdk
    → IsHandled w (handler_sign_tx sdk ml (buffer_with bytes) p1 p2 w)
unfolding handler_sign_tx
handler_sign_tx-IsHandled sdk ml bytes p1 p2 w moves = elim (Bool-cases (p1 == 0)) [
  | inl e ↦
      rw (handler_sign_tx, e)
        (then_do-IsHandled w _ _ (read_path-IsProgress sdk confirm_transaction _ w)
          (λ w' s. sent-IsHandled w w' [] _ s))
  | inr e ↦ elim (Bool-cases (p1 == 1)) [
    | inl e1 ↦
        rw (handler_sign_tx, e, e1)
          (then_do-IsHandled w _ _ (receive_chunk-IsProgress sdk bytes w moves)
            (λ w' s. sent-IsHandled w w' [] _ s))
    | inr e1 ↦ elim (Bool-cases (p1 == 2 && p2 == 0)) [
      | inl e2 ↦
          rw (handler_sign_tx, e, e1, e2)
            (then_do-IsHandled w _ _ (receive_chunk-IsProgress sdk bytes w moves)
              (λ w' s. review_transaction-IsHandled sdk ml w w' s))
      | inr e2 ↦ rw (handler_sign_tx, e, e1, e2) (more_signature p1 p2 w)
    ]
  ]
]
