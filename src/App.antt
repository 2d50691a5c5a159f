-- ===== src/App.antt =====
-- The application around the parser: its context (src/types.h), its storage (src/globals.h), and what
-- it takes from the Ledger SDK, which is not part of the repository.
-- The C globals are the fields of one `World` that every function is handed and gives back.
pub mod Wipe
pub mod Send
pub mod Reassembly
pub mod Address
pub mod Effects
pub mod Display
pub mod Validate
pub mod Handlers
pub mod Dispatcher
pub mod Main
use ledger_app_qrl_v.Prelude.{
  ℕ, ◌+◌, ◌*◌, Bool, List, [], ◌∷◌, ◌++◌, Option, length, take, drop, replicate,
}
use ledger_app_qrl_v.Rlp.{SizeT}

-- `state_e` and `request_type_e`.
pub data State : Type 0 where
  state_none : State
  state_parsed : State
  state_approved : State

pub data RequestType : Type 0 where
  confirm_address : RequestType
  confirm_transaction : RequestType

abbrev pub max_transaction_len : ℕ
max_transaction_len = 510

abbrev pub max_bip32_path : ℕ
max_bip32_path = 10

-- `global_ctx_t`. The union holds the transaction: no function uses `pk_info`.
pub record GlobalCtx : Type 0 where
  pub state : State
  pub raw_tx : List ℕ
  pub raw_tx_len : ℕ
  pub m_hash : List ℕ
  pub req_type : RequestType
  pub bip32_path : List ℕ
  pub bip32_path_len : ℕ
  pub address : List ℕ

-- `explicit_bzero(&G_context, sizeof(G_context))`
abbrev pub zeroed_ctx : GlobalCtx
zeroed_ctx = record {
  state = state_none;
  raw_tx = replicate max_transaction_len 0;
  raw_tx_len = 0;
  m_hash = replicate 32 0;
  req_type = confirm_address;
  bip32_path = replicate max_bip32_path 0;
  bip32_path_len = 0;
  address = replicate 64 0;
}

-- `internal_storage_t`; the vectors and `pack1` as their bytes.
pub record Storage : Type 0 where
  pub t1 : List ℕ
  pub w1 : List ℕ
  pub w0 : List ℕ
  pub h : List ℕ
  pub y : List ℕ
  pub z : List ℕ
  pub cp : List ℕ
  pub pack1 : List ℕ
  pub sig : List ℕ
  pub pk : List ℕ
  pub enable_blind_signing : ℕ
  pub display_nonce : ℕ
  pub display_tx_hash : ℕ
  pub is_sending_signature : ℕ

-- The status words of src/sw.h that the app sends.
abbrev pub sw_ok : ℕ
sw_ok = 0x9000

abbrev pub sw_deny : ℕ
sw_deny = 0x6985

abbrev pub sw_wrong_p1p2 : ℕ
sw_wrong_p1p2 = 0x6A86

abbrev pub sw_wrong_data_length : ℕ
sw_wrong_data_length = 0x6A87

abbrev pub sw_ins_not_supported : ℕ
sw_ins_not_supported = 0x6D00

abbrev pub sw_cla_not_supported : ℕ
sw_cla_not_supported = 0x6E00

abbrev pub sw_display_address_fail : ℕ
sw_display_address_fail = 0xB002

abbrev pub sw_display_amount_fail : ℕ
sw_display_amount_fail = 0xB003

abbrev pub sw_wrong_tx_length : ℕ
sw_wrong_tx_length = 0xB004

abbrev pub sw_tx_parsing_fail : ℕ
sw_tx_parsing_fail = 0xB005

abbrev pub sw_bad_state : ℕ
sw_bad_state = 0xB007

abbrev pub sw_signature_fail : ℕ
sw_signature_fail = 0xB008

-- The labels of the review's pairs.
pub data Label : Type 0 where
  from_label : Label
  amount_label : Label
  to_label : Label
  chain_id_label : Label
  gas_limit_label : Label
  priority_fee_label : Label
  max_fees_label : Label
  nonce_label : Label
  transaction_hash_label : Label

-- The screen that waits for the user's choice.
pub data Review : Type 0 where
  address_review : (address : List ℕ) → Review
  transaction_review : (is_blind_signed : Bool) → (pairs : List (Label × List ℕ)) → Review

-- An answer to a command: its data and its status word.
pub record Response : Type 0 where
  pub data_sent : List ℕ
  pub sw : ℕ

-- The globals, the pending screen, and the answers sent so far, the last one first.
pub record World : Type 0 where
  pub ctx : GlobalCtx
  pub storage : Storage
  pub screen : Option Review
  pub sent : List Response

-- `buffer_t`
pub record Buffer : Type 0 where
  pub ptr : List ℕ
  pub size : ℕ
  pub offset : ℕ

-- `command_t`; `data` is `none` where the C pointer is NULL.
pub record Command : Type 0 where
  pub cla : ℕ
  pub ins : ℕ
  pub p1 : ℕ
  pub p2 : ℕ
  pub lc : ℕ
  pub cdata : Option (List ℕ)

-- What the app takes from the SDK and from the build: reading buffers, splitting a command, deriving
-- the seed (64 bytes and an error code), the code of an internal error, the name and the version.
pub record Sdk : Type 0 where
  pub size_t : SizeT
  pub apdu_parser : List ℕ → Option Command
  pub buffer_read_u8 : Buffer → Option (ℕ × Buffer)
  pub buffer_read_bip32_path : Buffer → ℕ → Option (List ℕ × Buffer)
  pub buffer_move : Buffer → ℕ → Option (List ℕ × Buffer)
  pub os_derive_bip32 : (path : List ℕ) → (len : ℕ) → List ℕ × ℕ
  pub cx_internal_error : ℕ
  pub app_name : List ℕ
  pub version : List ℕ

-- The interface of src/mldsa87/sign.h that the app calls. Key generation works on the t1 of the storage
-- and writes its public key: it gives both, and an error code. The others work on the whole storage and
-- give an error code, the last one also its verdict.
pub record MlDsa : Type 0 where
  pub crypto_sign_keypair : (seed : List ℕ) → (t1 : List ℕ) → List ℕ × List ℕ × ℕ
  pub crypto_sign_optimized :
      (path : List ℕ) → (len : ℕ) → (message : List ℕ) → Storage → Storage × ℕ
  pub crypto_verify_optimized :
      (path : List ℕ) → (len : ℕ) → (sig message : List ℕ) → Storage → Storage × (ℕ × Bool)
