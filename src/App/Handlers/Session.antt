-- ===== src/App/Handlers/Session.antt =====
-- A signing session: `handler_sign_tx` of src/handler/sign_tx.c from the path to the review.
use ledger_app_qrl_v.Prelude.{
  ℕ, ◌+◌, ◌≤◌, ◌≡◌, ◌≢◌, ◌⊎◌, sym, Bool, false, ok, reject, refl, ap, ◌∙◌, arith, true, ◌&&◌, ◌||◌,
  List, [], ◌++◌, length, take, Outcome-cases, ◌==◌, Bool-cases, inl, inr, replicate,
  length-replicate,
}
use ledger_app_qrl_v.Keccak.Padding.{sponge}
use ledger_app_qrl_v.Keccak.Digests.{digests_lem}
use ledger_app_qrl_v.Address.{is_valid_zond_bip32_path}
use ledger_app_qrl_v.Rlp.Tx.{ZondTx, decode_ledger_tx}
use ledger_app_qrl_v.Rlp.TxSafety.{decode_ledger_tx-ne-fault}
use ledger_app_qrl_v.App.Display.{ui_display_transaction_bs_choice}
use mathlib.Core.Path.{subst}
use ledger_app_qrl_v.App.{
  World, GlobalCtx, RequestType, confirm_transaction, Buffer, Sdk, MlDsa, max_transaction_len,
  sw_ok, sw_deny, sw_tx_parsing_fail, state_parsed,
}
use ledger_app_qrl_v.App.Send.{io_send_sw}
use ledger_app_qrl_v.App.Address.{use_case_spinner, address_from_bip32_path}
use ledger_app_qrl_v.App.Display.Cases.{ui_display_transaction_cases}
use ledger_app_qrl_v.App.Handlers.{
  go_on, append_bytes, read_path, handler_sign_tx, review_transaction, message_hash,
}
use ledger_app_qrl_v.App.Handlers.Chunks.{
  IsReceiving, IsStreamed, IsMoving, received, buffer_with, concat, send_parts, send_parts_lem,
  receive_chunk_fits, append_bytes-received, with_ctx,
}

-- An accepted path is a valid one, and leaves the zeroed context of a new transaction.
record IsStarted (req : RequestType) (w w' : World) : Type 0 where
  valid : is_valid_zond_bip32_path w'.ctx.bip32_path w'.ctx.bip32_path_len ≡ true
  requested : w'.ctx.req_type ≡ req
  empty : w'.ctx.raw_tx_len ≡ 0
  zeroed : w'.ctx.raw_tx ≡ replicate max_transaction_len 0
  same_storage : w'.storage ≡ w.storage
  same_sent : w'.sent ≡ w.sent

read_path_lem :
    (sdk : Sdk) (req : RequestType) (cdata : Buffer) (w w' : World)
    → read_path sdk req cdata w ≡ go_on w'
    → IsStarted req w w'
unfolding read_path
read_path_lem sdk req cdata w w' h = ground arith

address-hash :
    (sdk : Sdk) (ml : MlDsa) (w : World)
    → (address_from_bip32_path sdk ml w).0.ctx.m_hash ≡ w.ctx.m_hash
unfolding address_from_bip32_path use_case_spinner
address-hash sdk ml w = ground arith

-- The review keeps the hash that was taken of the bytes.
review_transaction-hash :
    (sdk : Sdk) (ml : MlDsa) (w : World)
    → (review_transaction sdk ml w).ctx.m_hash ≡ message_hash w.ctx
unfolding review_transaction use_case_spinner
review_transaction-hash sdk ml w =
    elim (Outcome-cases (decode_ledger_tx sdk.size_t (take w.ctx.raw_tx_len w.ctx.raw_tx))) [
      | inl e ↦ rw (review_transaction, e) refl
      | inr (inl e) ↦ rw (review_transaction, e) refl
      | inr (inr (tx, e)) ↦
          elim (Bool-cases
            ((tx.has_data || tx.has_access_list) && w.storage.enable_blind_signing == 0)) [
              | inl b ↦ rw (review_transaction, e, b) refl
              | inr b ↦
                  rw (review_transaction, e, b)
                    (ui_display_transaction_cases (λ w'. w'.ctx.m_hash ≡ message_hash w.ctx) sdk ml
                      _ tx _ (λ sw. refl) (λ sw. address-hash sdk ml _)
                      (λ pairs. address-hash sdk ml _))
            ]
    ]

message_hash_lem : (ctx : GlobalCtx) → message_hash ctx ≡ sponge 136 0x01 (received ctx) 32
unfolding message_hash received
message_hash_lem ctx = (digests_lem (take ctx.raw_tx_len ctx.raw_tx) 0).2

nothing_received : (ctx : GlobalCtx) → ctx.raw_tx_len ≡ 0 → received ctx ≡ []
unfolding received
nothing_received ctx e = ap (λ n. take n ctx.raw_tx) e

last_part :
    (sdk : Sdk) (ml : MlDsa) (bytes : List ℕ) (w : World)
    → IsMoving sdk
    → IsReceiving w
    → w.ctx.raw_tx_len + length bytes ≤ max_transaction_len
    → handler_sign_tx sdk ml (buffer_with bytes) 2 0 w
      ≡ review_transaction sdk ml (with_ctx w (append_bytes w.ctx bytes (length bytes)))
unfolding handler_sign_tx
last_part sdk ml bytes w moves h fits =
    rw (handler_sign_tx, receive_chunk_fits sdk bytes w moves h fits) refl

-- A whole session: the path, the parts of the transaction, and the last part, which is to be hashed,
-- parsed and reviewed.
unfoldable pub sign_session :
    Sdk → MlDsa → (path : Buffer) → (parts : List (List ℕ)) → (last : List ℕ) → World → World
sign_session sdk ml path parts last w =
    handler_sign_tx sdk ml (buffer_with last) 2 0
      (send_parts sdk ml parts (handler_sign_tx sdk ml path 0 0 w))

started :
    (sdk : Sdk) (ml : MlDsa) (path : Buffer) (w w0 : World)
    → read_path sdk confirm_transaction path w ≡ go_on w0
    → handler_sign_tx sdk ml path 0 0 w ≡ io_send_sw sw_ok w0
unfolding handler_sign_tx
started sdk ml path w w0 e = rw (handler_sign_tx, e) refl

IsStarted-IsReceiving :
    (w w0 : World) → IsStarted confirm_transaction w w0 → IsReceiving (io_send_sw sw_ok w0)
IsStarted-IsReceiving w w0 s = record {
  fitting = record {
    size_ok = ap length s.zeroed ∙ length-replicate {A = ℕ} max_transaction_len 0;
    len_ok = omega (arith, s.empty);
  };
  requested = s.requested;
}

-- What is done about these bytes, once they are hashed in `w`, by what the parser makes of them.
pub data IsOutcome (sdk : Sdk) (ml : MlDsa) (bytes : List ℕ) (w out : World) : Type 0 where
  -- They are no transaction.
  malformed :
      decode_ledger_tx sdk.size_t bytes ≡ reject
      → out ≡ io_send_sw sw_tx_parsing_fail w
      → IsOutcome sdk ml bytes w out
  -- They are one with call data or an access list, and blind signing is not enabled.
  denied :
      (tx : ZondTx)
      → decode_ledger_tx sdk.size_t bytes ≡ ok tx
      → (tx.has_data || tx.has_access_list) ≡ true
      → w.storage.enable_blind_signing ≡ 0
      → out ≡ io_send_sw sw_deny w
      → IsOutcome sdk ml bytes w out
  -- They are one that is put up for review.
  displayed :
      (tx : ZondTx)
      → decode_ledger_tx sdk.size_t bytes ≡ ok tx
      → ((tx.has_data || tx.has_access_list) ≡ false) ⊎ (w.storage.enable_blind_signing ≢ 0)
      → out ≡ ui_display_transaction_bs_choice sdk ml (tx.has_data || tx.has_access_list) tx w
      → IsOutcome sdk ml bytes w out

-- The bytes are hashed and the transaction is marked as parsed.
abbrev pub hashed : World → World
hashed w = record w { ctx = record w.ctx { state = state_parsed; m_hash = message_hash w.ctx } }

not_denied : (blind : Bool) (n : ℕ) → (blind && n == 0) ≡ false → (blind ≡ false) ⊎ (n ≢ 0)
not_denied true n e = inr (λ z. absurd (ground (arith, e, z)))
not_denied false n e = inl refl

is_denied : (blind : Bool) (n : ℕ) → (blind && n == 0) ≡ true → (blind ≡ true) × (n ≡ 0)
is_denied blind n e = ground (arith, e)

review_transaction-IsOutcome :
    (sdk : Sdk) (ml : MlDsa) (w : World)
    → IsOutcome sdk ml (received w.ctx) (hashed w) (review_transaction sdk ml w)
unfolding review_transaction received
review_transaction-IsOutcome sdk ml w =
    let bytes = take w.ctx.raw_tx_len w.ctx.raw_tx in
    elim (Outcome-cases (decode_ledger_tx sdk.size_t bytes)) [
      | inl e ↦ absurd (decode_ledger_tx-ne-fault sdk.size_t bytes e)
      | inr (inl e) ↦ malformed e (rw (review_transaction, e) refl)
      | inr (inr (tx, e)) ↦
          elim (Bool-cases
            ((tx.has_data || tx.has_access_list) && w.storage.enable_blind_signing == 0)) [
              | inl b ↦
                  let (opaque, off) = is_denied _ _ b in
                  denied tx e opaque off (rw (review_transaction, e, b) refl)
              | inr b ↦ displayed tx e (not_denied _ _ b) (rw (review_transaction, e, b) refl)
            ]
    ]

-- Where a session ends: `parsed` is the world in which its bytes have been received and hashed.
pub record IsReviewed (sdk : Sdk) (ml : MlDsa) (path : Buffer) (parts : List (List ℕ))
    (last : List ℕ) (w w0 : World) : Type 0 where
  pub parsed : World
  pub outcome :
      IsOutcome sdk ml (concat parts ++ last) parsed (sign_session sdk ml path parts last w)
  pub bytes : received parsed.ctx ≡ concat parts ++ last
  pub is_parsed : parsed.ctx.state ≡ state_parsed
  pub requested : parsed.ctx.req_type ≡ confirm_transaction
  pub valid : is_valid_zond_bip32_path w0.ctx.bip32_path w0.ctx.bip32_path_len ≡ true
  pub same_path : parsed.ctx.bip32_path ≡ w0.ctx.bip32_path
  pub same_path_len : parsed.ctx.bip32_path_len ≡ w0.ctx.bip32_path_len
  pub same_storage : parsed.storage ≡ w.storage
  pub hash : parsed.ctx.m_hash ≡ sponge 136 0x01 (concat parts ++ last) 32
  pub kept_hash :
      (sign_session sdk ml path parts last w).ctx.m_hash ≡ sponge 136 0x01 (concat parts ++ last) 32

-- Whatever went before, take a session whose path is accepted and whose parts are at most 510 bytes
-- together, the SDK moving the bytes of a buffer out of it. Exactly those bytes in their order are hashed and
-- parsed, and it ends by what the parser makes of them: bytes that are no transaction are answered
-- SW_TX_PARSING_FAIL; a transaction with call data or an access list is answered SW_DENY where blind signing
-- is not enabled; every other one goes to the display, as this transaction and in the state that the display
-- asks for. The hash that an approval signs is the KECCAK256 of the bytes, the path is the accepted one and is
-- valid, and the storage is as before the session until the display.
pub sign_session_lem :
    (sdk : Sdk) (ml : MlDsa) (path : Buffer) (parts : List (List ℕ)) (last : List ℕ) (w w0 : World)
    → IsMoving sdk
    → read_path sdk confirm_transaction path w ≡ go_on w0
    → length (concat parts) + length last ≤ max_transaction_len
    → IsReviewed sdk ml path parts last w w0
sign_session_lem sdk ml path parts last w w0 moves e fits = ended (
    send_parts_lem sdk ml parts (io_send_sw sw_ok w0) moves (IsStarted-IsReceiving w w0 s)
      (omega (arith, s.empty, fits)))
  where
    s : IsStarted confirm_transaction w w0
    s = read_path_lem sdk confirm_transaction path w w0 e

    w2 : World
    w2 = send_parts sdk ml parts (io_send_sw sw_ok w0)

    w1 : World
    w1 = with_ctx w2 (append_bytes w2.ctx last (length last))

    ended : IsStreamed parts (io_send_sw sw_ok w0) w2 → IsReviewed sdk ml path parts last w w0
    ended t = record {
      parsed = hashed w1;
      outcome = outcome;
      bytes = unfold received in bytes;
      is_parsed = refl;
      requested = unfold append_bytes in t.ready.requested;
      valid = s.valid;
      same_path = unfold append_bytes in t.same_path;
      same_path_len = unfold append_bytes in t.same_path_len;
      same_storage = t.same_storage ∙ s.same_storage;
      hash = hash;
      kept_hash = ap (λ (v : World). v.ctx.m_hash) same ∙ review_transaction-hash sdk ml w1 ∙ hash;
    }
      where
        small : w2.ctx.raw_tx_len + length last ≤ max_transaction_len
        small = omega (arith, t.count, s.empty, fits)

        same : sign_session sdk ml path parts last w ≡ review_transaction sdk ml w1
        same =
            unfold sign_session in
            ap (λ b. handler_sign_tx sdk ml (buffer_with last) 2 0 (send_parts sdk ml parts b))
              (started sdk ml path w w0 e)
            ∙ last_part sdk ml last w2 moves t.ready small

        bytes : received w1.ctx ≡ concat parts ++ last
        bytes =
            append_bytes-received w2.ctx last t.ready.fitting small
            ∙ ap (λ b. b ++ last)
                (t.bytes ∙ ap (λ b. b ++ concat parts) (nothing_received w0.ctx s.empty))

        hash : message_hash w1.ctx ≡ sponge 136 0x01 (concat parts ++ last) 32
        hash = message_hash_lem w1.ctx ∙ ap (λ b. sponge 136 0x01 b 32) bytes

        outcome :
            IsOutcome sdk ml
              (concat parts ++ last)
              (hashed w1)
              (sign_session sdk ml path parts last w)
        outcome =
            subst (λ o. IsOutcome sdk ml (concat parts ++ last) (hashed w1) o) (sym same)
              (subst (λ b. IsOutcome sdk ml b (hashed w1) (review_transaction sdk ml w1)) bytes
                (review_transaction-IsOutcome sdk ml w1))
