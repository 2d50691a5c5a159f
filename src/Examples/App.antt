-- ===== src/Examples/App.antt =====
-- The application on a device of its own.
use ledger_app_qrl_v.Prelude.{
  ℕ, ◌≡◌, ◌⊎◌, refl, arith, Bool, true, false, none, some, List, [], ◌∷◌, ◌++◌, drop, replicate,
  length-replicate, value_of, value_from, be_bytes,
}
use ledger_app_qrl_v.Address.{is_valid_zond_bip32_path}
use ledger_app_qrl_v.App.{
  World, zeroed_ctx, confirm_transaction, Response, transaction_review, Buffer, Command,
}
use ledger_app_qrl_v.App.Wipe.{nvm_zero, nvm_zero_lem, IsWiped}
use ledger_app_qrl_v.App.Send.{sig_chunk, pk_chunk}
use ledger_app_qrl_v.App.Display.{Pairs}
use ledger_app_qrl_v.App.Reassembly.{joined, joined-sig_chunk, joined-pk_chunk}
use ledger_app_qrl_v.App.Effects.{IsFitting, IsAnswered}
use ledger_app_qrl_v.App.Handlers.{read_path, go_on}
use ledger_app_qrl_v.App.Handlers.Session.{IsReviewed, sign_session_lem}
use ledger_app_qrl_v.App.Handlers.Chunks.{concat}
use ledger_app_qrl_v.Rlp.Encode.{
  encode_preimage, encode_items, encode_string, encode_tail, encode_list, header,
}
use ledger_app_qrl_v.Examples.Encodings.{transfer}
use ledger_app_qrl_v.App.Validate.{validate_transaction, review_choice}
use ledger_app_qrl_v.App.Validate.Release.{
  IsApproved, validate_transaction-IsApproved, validate_transaction-IsWiped, review_choice-answer,
}
use ledger_app_qrl_v.App.Dispatcher.{apdu_dispatcher}
use ledger_app_qrl_v.App.Dispatcher.Answers.{apdu_dispatcher-IsAnswered}
use ledger_app_qrl_v.App.Main.{apdu, choice, switch, blind_signing_switch, step, start, run}
use ledger_app_qrl_v.App.Main.Invariant.{step-sig, run-IsFitting}
use ledger_app_qrl_v.Examples.Device.{sdk, ml, storage, environment, sdk-IsMoving}

abbrev idle : World
idle = record { ctx = zeroed_ctx; storage = storage; screen = none; sent = [] }

-- Five words: m/44'/238'/0'/0/0.
abbrev path_bytes : List ℕ
path_bytes =
    5 ∷ 0x80 ∷ 0 ∷ 0 ∷ 0x2C ∷ 0x80 ∷ 0 ∷ 0 ∷ 0xEE ∷ 0x80 ∷ 0 ∷ 0 ∷ 0 ∷ 0 ∷ 0 ∷ 0 ∷ 0 ∷ 0 ∷ 0 ∷ 0 ∷ 0
    ∷ []

abbrev path_buffer : Buffer
path_buffer = record { ptr = path_bytes; size = 21; offset = 0 }

abbrev with_path : World
with_path = record idle {
  ctx = record zeroed_ctx {
    req_type = confirm_transaction;
    bip32_path_len = 5;
    bip32_path = 0x8000002C ∷ 0x800000EE ∷ 0x80000000 ∷ 0 ∷ 0 ∷ [];
  };
}

path_accepted : read_path sdk confirm_transaction path_buffer idle ≡ go_on with_path
path_accepted = unfold read_path is_valid_zond_bip32_path value_of value_from in refl

-- A transfer of 5 to the address of 64 bytes 0xab, sent in three parts.
abbrev first_parts : List (List ℕ)
first_parts =
    (0x02 ∷ 0xf8 ∷ 0x53 ∷ 0x01 ∷ 0x80 ∷ 0x02 ∷ 0x82 ∷ 0x03 ∷ 0xe8 ∷ 0x82 ∷ 0x52 ∷ 0x08 ∷ 0xb8 ∷ 0x40
      ∷ [])
    ∷ replicate 64 0xab
    ∷ []

abbrev last_part : List ℕ
last_part = 0x05 ∷ 0x80 ∷ 0xc0 ∷ 0x83 ∷ 0x01 ∷ 0x00 ∷ 0x00 ∷ 0x80 ∷ []

sign_session_example : IsReviewed sdk ml path_buffer first_parts last_part idle with_path
sign_session_example =
    sign_session_lem sdk ml path_buffer first_parts last_part idle with_path sdk-IsMoving
      path_accepted (omega arith)

-- These bytes are the transaction that the parser tests decode.
sent_bytes : concat first_parts ++ last_part ≡ encode_preimage transfer
sent_bytes =
    unfold encode_preimage encode_items encode_string encode_tail encode_list header be_bytes in
    refl

abbrev reviewing : World
reviewing = record with_path { screen = some (transaction_review false []) }

validate_transaction-IsApproved_example :
    IsApproved ml with_path (validate_transaction ml true with_path)
validate_transaction-IsApproved_example = validate_transaction-IsApproved ml with_path

validate_transaction-IsWiped_example : IsWiped (validate_transaction ml true with_path).storage
validate_transaction-IsWiped_example = validate_transaction-IsWiped ml with_path

review_choice-answer_example :
    ((r : Response) × ((review_choice ml true reviewing).sent ≡ r ∷ reviewing.sent))
    × ((review_choice ml true reviewing).screen ≡ none)
review_choice-answer_example =
    review_choice-answer ml true reviewing (transaction_review false []) refl

abbrev sign_command : Command
sign_command = record { cla = 0xE0; ins = 0x06; p1 = 1; p2 = 0; lc = 2; cdata = some (2 ∷ 3 ∷ []) }

apdu_dispatcher-IsAnswered_example :
    IsAnswered with_path (apdu_dispatcher sdk ml sign_command with_path)
    × ((apdu_dispatcher sdk ml sign_command with_path).storage.sig ≡ with_path.storage.sig)
apdu_dispatcher-IsAnswered_example =
    apdu_dispatcher-IsAnswered sdk ml sign_command with_path sdk-IsMoving refl

step-sig_example :
    ((step sdk ml (choice true) reviewing).storage.sig ≡ reviewing.storage.sig)
    ⊎ ((choice true ≡ choice true)
        × (blind : Bool) × (pairs : Pairs) × (reviewing.screen
            ≡ some (transaction_review blind pairs)))
step-sig_example = step-sig sdk ml (choice true) reviewing environment

run-IsFitting_example :
    IsFitting
      (run sdk ml
        (apdu (0xE0 ∷ 6 ∷ 0 ∷ 0 ∷ 21 ∷ path_bytes) ∷ switch blind_signing_switch ∷ [])
        (start storage)).ctx
run-IsFitting_example =
    run-IsFitting sdk ml
      (apdu (0xE0 ∷ 6 ∷ 0 ∷ 0 ∷ 21 ∷ path_bytes) ∷ switch blind_signing_switch ∷ []) storage
      environment

joined-sig_chunk_example : joined (sig_chunk (replicate 4627 9)) 0 18 ≡ replicate 4627 9
joined-sig_chunk_example = joined-sig_chunk (replicate 4627 9) (length-replicate {A = ℕ} 4627 9)

joined-pk_chunk_example : joined (pk_chunk (replicate 2592 9)) 0 11 ≡ replicate 2592 9
joined-pk_chunk_example = joined-pk_chunk (replicate 2592 9) (length-replicate {A = ℕ} 2592 9)

nvm_zero_example : nvm_zero 3 (7 ∷ 7 ∷ 7 ∷ 7 ∷ []) ≡ replicate 3 0 ++ drop 3 (7 ∷ 7 ∷ 7 ∷ 7 ∷ [])
nvm_zero_example = nvm_zero_lem 3 (7 ∷ 7 ∷ 7 ∷ 7 ∷ [])
