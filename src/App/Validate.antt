-- ===== src/App/Validate.antt =====
-- The user's choice: src/ui/action/validate.c and the `review_choice` of both display files.
pub mod Release
use ledger_app_qrl_v.Prelude.{
  ℕ, Bool, true, false, not, ◌&&◌, ◌||◌, Option, none, some, List, [], ◌∷◌, ◌==◌, if◌then◌else◌,
}
use ledger_app_qrl_v.App.{
  World, GlobalCtx, Storage, State, state_none, state_approved, Review, address_review,
  transaction_review, MlDsa, sw_deny, sw_signature_fail,
}
use ledger_app_qrl_v.App.Wipe.{wipe_nvm_secrets}
use ledger_app_qrl_v.App.Send.{io_send_sw, helper_send_response_address, helper_send_response_sig}

unfoldable pub validate_pubkey : (choice : Bool) → World → World
validate_pubkey choice w = if choice then helper_send_response_address w else io_send_sw sw_deny w

-- `true` stands for the result 0, `false` for -1.
unfoldable pub crypto_sign_message : MlDsa → World → World × Bool
crypto_sign_message ml w =
    let ctx = w.ctx in
    let (st, err) =
      ml.crypto_sign_optimized ctx.bip32_path ctx.bip32_path_len ctx.m_hash w.storage in
    if not (err == 0)
    then (record w { storage = wipe_nvm_secrets st }, false)
    else let (st', (err', is_verified)) =
        ml.crypto_verify_optimized ctx.bip32_path ctx.bip32_path_len st.sig ctx.m_hash st in
      (record w { storage = wipe_nvm_secrets st' }, not (not (err' == 0) || not is_verified))

unfoldable pub set_state : State → World → World
set_state state w = record w { ctx = record w.ctx { state = state } }

unfoldable pub validate_transaction : MlDsa → (choice : Bool) → World → World
validate_transaction ml choice w =
    if choice
    then (let (w', done) = crypto_sign_message ml (set_state state_approved w) in
        if not done
        then io_send_sw sw_signature_fail (set_state state_none w')
        else helper_send_response_sig 0 w')
    else io_send_sw sw_deny (set_state state_none w)

-- `review_choice` of nbgl_display_address.c and of nbgl_display_transaction.c.
unfoldable pub address_review_choice : (confirm : Bool) → World → World
address_review_choice confirm w = record (validate_pubkey confirm w) { screen = none }

unfoldable pub transaction_review_choice : MlDsa → (confirm : Bool) → World → World
transaction_review_choice ml confirm w = record (validate_transaction ml confirm w) {
  screen = none;
}

unfoldable pub choose : MlDsa → (confirm : Bool) → Review → World → World
choose ml confirm (address_review address) w = address_review_choice confirm w
choose ml confirm (transaction_review blind pairs) w = transaction_review_choice ml confirm w

-- The choice on the pending screen, which then gives way to a status page and to the menu. Nothing
-- happens where no screen waits.
unfoldable pub review_choice : MlDsa → (confirm : Bool) → World → World
review_choice ml confirm w = elim w.screen [ none ↦ w | some review ↦ choose ml confirm review w ]
