-- ===== src/App/Handlers.antt =====
-- The handlers of src/handler: get_version.c, get_app_name.c, get_public_key.c and sign_tx.c.
pub mod Chunks
pub mod Session
pub mod Stages
pub mod Effect
use ledger_app_qrl_v.Prelude.{
  ℕ, ◌+◌, ◌%◌, ◌^◌, Bool, true, false, not, ◌&&◌, ◌||◌, Option, none, some, List, [], ◌∷◌, ◌++◌,
  length, take, drop, Outcome, ok, reject, fault, ltb, ◌==◌, if◌then◌else◌,
}
use ledger_app_qrl_v.Keccak.{init}
use ledger_app_qrl_v.Keccak.Hashes.{keccak256_absorb, keccak256_finalize, keccak256_squeeze}
use ledger_app_qrl_v.Rlp.Tx.{ZondTx, decode_ledger_tx}
use ledger_app_qrl_v.Address.{is_valid_zond_bip32_path}
use ledger_app_qrl_v.App.{
  World, GlobalCtx, zeroed_ctx, Storage, State, state_none, state_parsed, RequestType,
  confirm_address, confirm_transaction, Buffer, Sdk, MlDsa, max_transaction_len, sw_ok, sw_deny,
  sw_wrong_p1p2, sw_wrong_data_length, sw_wrong_tx_length, sw_tx_parsing_fail, sw_bad_state,
}
use ledger_app_qrl_v.App.Send.{
  io_send_sw, io_send_response_pointer, helper_send_response_address, helper_send_response_sig,
  helper_send_response_pk_chunk,
}
use ledger_app_qrl_v.App.Address.{address_from_bip32_path}
use ledger_app_qrl_v.App.Display.{ui_display_address, ui_display_transaction_bs_choice}

unfoldable pub handler_get_version : Sdk → World → World
handler_get_version sdk w = io_send_response_pointer sdk.version sw_ok w

unfoldable pub handler_get_app_name : Sdk → World → World
handler_get_app_name sdk w = io_send_response_pointer sdk.app_name sw_ok w

-- A step that has answered the command, or goes on with the world it leaves.
pub data Progress : Type 0 where
  answered : World → Progress
  go_on : World → Progress

abbrev pub then_do : Progress → (World → World) → World
then_do (answered w) f = w
then_do (go_on w) f = f w

-- The path, read into the zeroed context and checked: the start of two handlers.
unfoldable pub read_path : Sdk → RequestType → Buffer → World → Progress
read_path sdk req cdata w =
    let start = record w { ctx = record zeroed_ctx { req_type = req } } in
    elim (sdk.buffer_read_u8 cdata) [
      | none ↦ answered (io_send_sw sw_wrong_data_length start)
      | some (len, cdata') ↦
          let counted = record start { ctx = record start.ctx { bip32_path_len = len } } in
          elim (sdk.buffer_read_bip32_path cdata' len) [
            | none ↦ answered (io_send_sw sw_wrong_data_length counted)
            | some (path, rest) ↦
                let w' = record counted { ctx = record counted.ctx { bip32_path = path } } in
                if not (is_valid_zond_bip32_path path len)
                then answered (io_send_sw sw_wrong_data_length w')
                else go_on w'
          ]
    ]

-- `io_send_sw(error)` keeps the low 16 bits of the error code.
unfoldable pub handler_get_public_key : Sdk → MlDsa → Buffer → (display : Bool) → World → World
handler_get_public_key sdk ml cdata display w =
    then_do (read_path sdk confirm_address cdata w) (λ w1.
      let (w2, err) = address_from_bip32_path sdk ml w1 in
      if not (err == 0)
      then io_send_sw (err % 2 ^ 16) w2
      else if display
      then ui_display_address w2
      else helper_send_response_address w2)

unfoldable pub handler_get_public_key_chunk : (chunk_index : ℕ) → World → World
handler_get_public_key_chunk chunk_index w = helper_send_response_pk_chunk chunk_index w

unfoldable pub is_transaction_requested : GlobalCtx → Bool
is_transaction_requested ctx = elim ctx.req_type [
  | confirm_transaction ↦ true
  | confirm_address ↦ false
]

-- The bytes written to `raw_tx + raw_tx_len`.
unfoldable pub append_bytes : GlobalCtx → List ℕ → (size : ℕ) → GlobalCtx
append_bytes ctx bytes size = record ctx {
  raw_tx =
      take ctx.raw_tx_len ctx.raw_tx ++ (bytes ++ drop (ctx.raw_tx_len + length bytes) ctx.raw_tx);
  raw_tx_len = ctx.raw_tx_len + size;
}

-- A part of the transaction: the start of the branches `p1 == 1` and `p1 == 2 && p2 == 0`.
unfoldable pub receive_chunk : Sdk → Buffer → World → Progress
receive_chunk sdk cdata w =
    if not (is_transaction_requested w.ctx)
    then answered (io_send_sw sw_bad_state w)
    else if ltb max_transaction_len (w.ctx.raw_tx_len + cdata.size)
    then answered (io_send_sw sw_wrong_tx_length w)
    else elim (sdk.buffer_move cdata cdata.size) [
      | none ↦ answered (io_send_sw sw_tx_parsing_fail w)
      | some (bytes, rest) ↦ go_on (record w { ctx = append_bytes w.ctx bytes cdata.size })
    ]

-- KECCAK256 of the bytes received.
unfoldable pub message_hash : GlobalCtx → List ℕ
message_hash ctx =
    (keccak256_squeeze
      (keccak256_finalize (keccak256_absorb init (take ctx.raw_tx_len ctx.raw_tx)))).0

-- What the last part leads to: the hash, the parsed transaction, and its review. A read outside the
-- buffer, which does not happen, would leave the command without an answer.
unfoldable pub review_transaction : Sdk → MlDsa → World → World
review_transaction sdk ml w =
    let w' = record w {
      ctx = record w.ctx { state = state_parsed; m_hash = message_hash w.ctx };
    } in
    elim (decode_ledger_tx sdk.size_t (take w.ctx.raw_tx_len w.ctx.raw_tx)) [
      | fault ↦ w'
      | reject ↦ io_send_sw sw_tx_parsing_fail w'
      | ok tx ↦
          let blind = tx.has_data || tx.has_access_list in
          if blind && w.storage.enable_blind_signing == 0
          then io_send_sw sw_deny w'
          else ui_display_transaction_bs_choice sdk ml blind tx w'
    ]

unfoldable pub handler_sign_tx : Sdk → MlDsa → Buffer → (p1 p2 : ℕ) → World → World
handler_sign_tx sdk ml cdata p1 p2 w =
    if p1 == 0
    then then_do (read_path sdk confirm_transaction cdata w) (io_send_sw sw_ok)
    else if p1 == 1
    then then_do (receive_chunk sdk cdata w) (io_send_sw sw_ok)
    else if p1 == 2 && p2 == 0
    then then_do (receive_chunk sdk cdata w) (review_transaction sdk ml)
    else if p1 == 2 && (ltb 0 p2 && ltb p2 18)
    then (if not (is_transaction_requested w.ctx)
        then io_send_sw sw_bad_state w
        else if not (w.storage.is_sending_signature == 0)
        then helper_send_response_sig p2 w
        else io_send_sw sw_bad_state w)
    else io_send_sw sw_wrong_p1p2 w
