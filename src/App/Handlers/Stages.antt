-- ===== src/App/Handlers/Stages.antt =====
-- The stages of handler_sign_tx of src/handler/sign_tx.c and what each leaves.
use ledger_app_qrl_v.Prelude.{
  ℕ, ◌+◌, ◌≡◌, refl, arith, Bool, ◌&&◌, ◌||◌, Option-cases, List, [], length, length-replicate,
  take, Outcome-cases, ltb, ◌==◌, Bool-cases, inl, inr,
}
use ledger_app_qrl_v.Rlp.Tx.{ZondTx, decode_ledger_tx}
use ledger_app_qrl_v.Rlp.TxSafety.{decode_ledger_tx-ne-fault}
use ledger_app_qrl_v.Address.{is_valid_zond_bip32_path}
use ledger_app_qrl_v.App.{
  World, Storage, state_none, state_parsed, RequestType, Buffer, Sdk, MlDsa, zeroed_ctx,
  max_transaction_len,
}
use ledger_app_qrl_v.App.Send.{io_send_response_pointer, note_chunk_sent}
use ledger_app_qrl_v.App.Display.{ui_display_transaction_bs_choice}
use ledger_app_qrl_v.App.Display.Cases.{ui_display_transaction_cases}
use ledger_app_qrl_v.App.Effects.{
  IsHandled, IsSilent, IsSilent-refl, sent-IsHandled, shown-IsHandled, IsSilent-state,
  spinner_IsSilent, address_from_bip32_path-IsSilent,
}
use ledger_app_qrl_v.App.Handlers.Chunks.{IsMoving, buffer_with, append_bytes-IsFitting}
use ledger_app_qrl_v.App.Handlers.{
  Progress, answered, go_on, then_do, read_path, receive_chunk, is_transaction_requested,
  message_hash, review_transaction,
}

-- A step that has answered has handled the command; one that goes on is silent.
abbrev IsProgress : World → Progress → Type 0
IsProgress w (answered w') = IsHandled w w'
IsProgress w (go_on w') = IsSilent w w'

pub then_do-IsHandled :
    (w : World) (p : Progress) (f : World → World)
    → IsProgress w p
    → ((w' : World) → IsSilent w w' → IsHandled w (f w'))
    → IsHandled w (then_do p f)
then_do-IsHandled w (answered w') f h k = h
then_do-IsHandled w (go_on w') f h k = k w' h

-- The context that a new request starts from.
fresh_IsSilent :
    (w : World) (req : RequestType) (path : List ℕ) (len : ℕ)
    → IsSilent w (record w {
      ctx = record zeroed_ctx { req_type = req; bip32_path = path; bip32_path_len = len };
    })
fresh_IsSilent w req path len = record {
  same_sent = refl;
  no_new_screen = inl refl;
  same_sig = refl;
  fits = λ h. record {
    size_ok = length-replicate {A = ℕ} max_transaction_len 0;
    len_ok = omega arith;
  };
}

pub read_path-IsProgress :
    (sdk : Sdk) (req : RequestType) (cdata : Buffer) (w : World)
    → IsProgress w (read_path sdk req cdata w)
unfolding read_path
read_path-IsProgress sdk req cdata w = elim (Option-cases (sdk.buffer_read_u8 cdata)) [
  | inl e ↦ rw (IsProgress, e) (sent-IsHandled w _ [] _ (fresh_IsSilent w req _ _))
  | inr ((len, cdata'), e) ↦
      rw (IsProgress, e)
        (elim (Option-cases (sdk.buffer_read_bip32_path cdata' len)) [
          | inl e' ↦ rw (IsProgress, e') (sent-IsHandled w _ [] _ (fresh_IsSilent w req _ len))
          | inr ((path, rest), e') ↦
              rw (IsProgress, e')
                (elim (Bool-cases (is_valid_zond_bip32_path path len)) [
                  | inl v ↦ rw (IsProgress, v) (fresh_IsSilent w req path len)
                  | inr v ↦
                      rw (IsProgress, v) (sent-IsHandled w _ [] _ (fresh_IsSilent w req path len))
                ])
        ])
]

pub receive_chunk-IsProgress :
    (sdk : Sdk) (bytes : List ℕ) (w : World)
    → IsMoving sdk
    → IsProgress w (receive_chunk sdk (buffer_with bytes) w)
unfolding receive_chunk
receive_chunk-IsProgress sdk bytes w moves = elim (Bool-cases (is_transaction_requested w.ctx)) [
  | inr e ↦ rw (IsProgress, e) (sent-IsHandled w w [] _ (IsSilent-refl w))
  | inl e ↦
      rw (IsProgress, e)
        (elim (Bool-cases (ltb max_transaction_len (w.ctx.raw_tx_len + length bytes))) [
          | inl long ↦ rw (IsProgress, long) (sent-IsHandled w w [] _ (IsSilent-refl w))
          | inr fits ↦
              let (rest, m) = moves bytes in
              rw (IsProgress, fits, m)
                (record {
                  same_sent = refl;
                  no_new_screen = inl refl;
                  same_sig = refl;
                  fits = λ h. append_bytes-IsFitting w.ctx bytes h (ground arith);
                })
        ])
]

display_tx-IsHandled :
    (sdk : Sdk) (ml : MlDsa) (blind : Bool) (tx : ZondTx) (w w' : World)
    → IsSilent w w'
    → IsHandled w (ui_display_transaction_bs_choice sdk ml blind tx w')
display_tx-IsHandled sdk ml blind tx w w' s =
    ui_display_transaction_cases (IsHandled w) sdk ml blind tx w'
      (λ sw. sent-IsHandled w _ [] sw (IsSilent-state w w' state_none s))
      (λ sw.
        sent-IsHandled w _ [] sw
          (address_from_bip32_path-IsSilent sdk ml w _ (spinner_IsSilent w w' s)))
      (λ pairs.
        shown-IsHandled w _ _
          (address_from_bip32_path-IsSilent sdk ml w _ (spinner_IsSilent w w' s)))

hashed_IsSilent :
    (w w' : World)
    → IsSilent w w'
    → IsSilent w
        (record w' { ctx = record w'.ctx { state = state_parsed; m_hash = message_hash w'.ctx } })
hashed_IsSilent w w' s = record {
  same_sent = s.same_sent;
  no_new_screen = s.no_new_screen;
  same_sig = s.same_sig;
  fits = λ h. record { size_ok = (s.fits h).size_ok; len_ok = (s.fits h).len_ok };
}

-- The parser reads inside the buffer, so that the last part is always handled.
pub review_transaction-IsHandled :
    (sdk : Sdk) (ml : MlDsa) (w w' : World)
    → IsSilent w w'
    → IsHandled w (review_transaction sdk ml w')
unfolding review_transaction
review_transaction-IsHandled sdk ml w w' s =
    elim (Outcome-cases (decode_ledger_tx sdk.size_t (take w'.ctx.raw_tx_len w'.ctx.raw_tx))) [
      | inl e ↦
          absurd (decode_ledger_tx-ne-fault sdk.size_t (take w'.ctx.raw_tx_len w'.ctx.raw_tx) e)
      | inr (inl e) ↦ rw (review_transaction, e) (sent-IsHandled w _ [] _ (hashed_IsSilent w w' s))
      | inr (inr (tx, e)) ↦
          rw (review_transaction, e)
            (elim (Bool-cases
              ((tx.has_data || tx.has_access_list) && w'.storage.enable_blind_signing == 0)) [
                | inl b ↦ rw b (sent-IsHandled w _ [] _ (hashed_IsSilent w w' s))
                | inr b ↦ rw b (display_tx-IsHandled sdk ml _ tx w _ (hashed_IsSilent w w' s))
              ])
    ]

sig-note_chunk_sent : (index : ℕ) (st : Storage) → (note_chunk_sent index st).sig ≡ st.sig
unfolding note_chunk_sent
sig-note_chunk_sent index st = elim (Bool-cases (index == 0)) [
  | inl e ↦ rw e refl
  | inr e ↦ elim (Bool-cases (index == 17)) [ inl e' ↦ rw (e, e') refl | inr e' ↦ rw (e, e') refl ]
]

pub note_IsHandled :
    (w : World) (index : ℕ) (bytes : List ℕ)
    → IsHandled w (
        let w' = io_send_response_pointer bytes 0x9000 w in
        record w' { storage = note_chunk_sent index w'.storage })
unfolding note_chunk_sent
note_IsHandled w index bytes =
    sent-IsHandled w (record w { storage = note_chunk_sent index w.storage }) bytes 0x9000
      (record {
        same_sent = refl;
        no_new_screen = inl refl;
        same_sig = sig-note_chunk_sent index w.storage;
        fits = λ h. h;
      })
