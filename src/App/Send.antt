-- ===== src/App/Send.antt =====
-- Answers: `io_send_sw` and `io_send_response_pointer` of the SDK, which record what is sent (the model
-- takes them to succeed), and src/helper/send_response.c.
use ledger_app_qrl_v.Prelude.{
  ℕ, zero, suc, ◌-◌, ◌*◌, List, [], ◌∷◌, get_or, ltb, leb, ◌==◌, if◌then◌else◌,
}
use ledger_app_qrl_v.App.{World, Storage, sw_ok, sw_wrong_data_length}

abbrev pub io_send_response_pointer : (bytes : List ℕ) → (sw : ℕ) → World → World
io_send_response_pointer bytes sw w = record w {
  sent = record { data_sent = bytes; sw = sw } ∷ w.sent;
}

abbrev pub io_send_sw : (sw : ℕ) → World → World
io_send_sw sw w = io_send_response_pointer [] sw w

-- `for (i = 0; i < n; i++) resp[i] = a[i + offset];`
unfoldable pub copy_from : (a : List ℕ) → (offset n : ℕ) → List ℕ
copy_from a offset zero = []
copy_from a offset (suc n) = get_or a offset 0 ∷ copy_from a (suc offset) n

-- 'Q' and the address.
unfoldable pub helper_send_response_address : World → World
helper_send_response_address w = io_send_response_pointer (b'Q' ∷ w.ctx.address) sw_ok w

abbrev pub signature_chunk_size : ℕ
signature_chunk_size = 258

abbrev pub signature_last_chunk_size : ℕ
signature_last_chunk_size = 241

-- `resp` of `helper_send_response_sig`.
unfoldable pub sig_chunk : (sig : List ℕ) → (index : ℕ) → List ℕ
sig_chunk sig index =
    if ltb index 17
    then copy_from sig (index * signature_chunk_size) signature_chunk_size
    else copy_from sig (index * signature_chunk_size) signature_last_chunk_size

-- `nvm_write` of `is_sending_signature`: set with the first chunk, cleared with the last.
unfoldable pub note_chunk_sent : (index : ℕ) → Storage → Storage
note_chunk_sent index st =
    if index == 0
    then record st { is_sending_signature = 1 }
    else if index == 17
    then record st { is_sending_signature = 0 }
    else st

unfoldable pub helper_send_response_sig : (index : ℕ) → World → World
helper_send_response_sig index w =
    let w' = io_send_response_pointer (sig_chunk w.storage.sig index) sw_ok w in
    record w' { storage = note_chunk_sent index w'.storage }

abbrev pub pk_chunk_size : ℕ
pk_chunk_size = 258

abbrev pub pk_last_chunk_size : ℕ
pk_last_chunk_size = 12

abbrev pub pk_chunks : ℕ
pk_chunks = 11

unfoldable pub pk_chunk : (pk : List ℕ) → (index : ℕ) → List ℕ
pk_chunk pk index =
    copy_from pk (index * pk_chunk_size)
      (if ltb index (pk_chunks - 1) then pk_chunk_size else pk_last_chunk_size)

unfoldable pub helper_send_response_pk_chunk : (index : ℕ) → World → World
helper_send_response_pk_chunk index w =
    if leb pk_chunks index
    then io_send_sw sw_wrong_data_length w
    else io_send_response_pointer (pk_chunk w.storage.pk index) sw_ok w
