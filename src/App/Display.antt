-- ===== src/App/Display.antt =====
-- The reviews: src/ui/nbgl_display_transaction.c and src/ui/nbgl_display_address.c.
pub mod Cases
use ledger_app_qrl_v.Prelude.{
  ℕ, ◌+◌, ◌-◌, ◌*◌, ◌/◌, ◌^◌, bit_and, Bool, true, false, not, ◌&&◌, Option, none, some, List, [],
  ◌∷◌, ◌++◌, get_or, take, ◌==◌, if◌then◌else◌,
}
use ledger_app_qrl_v.TxFormat.{
  uint8_array_to_decimal, format_qrl_amount, multiply_uint8_arrays, max_amount_len,
  max_decimal_digits, max_integer_bytes,
}
use ledger_app_qrl_v.Rlp.Tx.{ZondTx}
use ledger_app_qrl_v.Address.{hexc, format_checksummed_address, address_size, hex_body}
use ledger_app_qrl_v.App.{
  World, GlobalCtx, Storage, State, state_none, state_parsed, RequestType, confirm_address,
  confirm_transaction, Review, address_review, transaction_review, Label, from_label, amount_label,
  to_label, chain_id_label, gas_limit_label, priority_fee_label, max_fees_label, nonce_label,
  transaction_hash_label, Sdk, MlDsa, sw_bad_state, sw_display_address_fail, sw_display_amount_fail,
}
use ledger_app_qrl_v.App.Send.{io_send_sw}
use ledger_app_qrl_v.App.Address.{use_case_spinner, address_from_bip32_path}

abbrev pub Pairs : Type 0
Pairs = List (Label × List ℕ)

unfoldable pub bytes_to_lower_hex : List ℕ → List ℕ
bytes_to_lower_hex [] = []
bytes_to_lower_hex (b ∷ bs) =
    get_or hexc (b / 2 ^ 4) 0 ∷ get_or hexc (bit_and b 0x0f) 0 ∷ bytes_to_lower_hex bs

-- `snprintf(out, size, "QRL %s", amount)`
unfoldable pub print_qrl : (size : ℕ) → (amount : List ℕ) → List ℕ
print_qrl size amount = take (size - 1) (b'Q' ∷ b'R' ∷ b'L' ∷ b' ' ∷ amount)

-- A step that ends the function with a status word, or goes on.
unfoldable pub or_fail {ℓ} : {A : Type ℓ} → (sw : ℕ) → Option A → World → (A → World) → World
or_fail sw none w f = io_send_sw sw w
or_fail sw (some a) w f = f a

abbrev pub amount_size : ℕ
amount_size = max_amount_len + 5

-- `format_qrl_amount` of the fee per gas times the gas.
unfoldable pub format_max_fees : ZondTx → Option (List ℕ)
format_max_fees tx = elim (multiply_uint8_arrays tx.gas_fee_cap tx.gas max_integer_bytes) [
  | none ↦ none
  | some product ↦ format_qrl_amount product max_amount_len
]

-- The pairs that the settings add behind the fixed ones.
unfoldable pub extra_pairs : World → (nonce : List ℕ) → Pairs
extra_pairs w nonce =
    (if not (w.storage.display_nonce == 0) then (nonce_label, nonce) ∷ [] else [])
    ++ (if not (w.storage.display_tx_hash == 0)
        then (transaction_hash_label, bytes_to_lower_hex w.ctx.m_hash) ∷ []
        else [])

-- The nonce is formatted only if it is displayed.
unfoldable pub nonce_text : Storage → ZondTx → Option (List ℕ)
nonce_text st tx =
    if not (st.display_nonce == 0) then uint8_array_to_decimal tx.nonce 21 else some []

-- The texts are formatted in this order; the first that fails ends the function.
unfoldable pub show_transaction : (is_blind_signed : Bool) → ZondTx → World → World
show_transaction blind tx w =
    or_fail sw_display_address_fail
      (format_checksummed_address w.ctx.address (1 + address_size * 2 + 1)) w
      (λ from.
        or_fail sw_display_amount_fail (format_qrl_amount tx.value max_amount_len) w (λ amount.
          or_fail sw_display_address_fail
            (format_checksummed_address tx.to (1 + address_size * 2 + 1)) w
            (λ to. or_fail sw_display_amount_fail (format_max_fees tx) w (λ max_fees.
              or_fail sw_display_amount_fail
                (uint8_array_to_decimal tx.chain_id (max_decimal_digits + 1)) w
                (λ chain_id.
                  or_fail sw_display_amount_fail (uint8_array_to_decimal tx.gas 21) w (λ gas_limit.
                    or_fail sw_display_amount_fail (format_qrl_amount tx.gas_tip_cap max_amount_len)
                      w
                      (λ tip. or_fail sw_display_amount_fail (nonce_text w.storage tx) w (λ nonce.
                        let pairs =
                          (from_label, from)
                          ∷ (amount_label, print_qrl amount_size amount)
                          ∷ (to_label, to)
                          ∷ (chain_id_label, chain_id)
                          ∷ (gas_limit_label, gas_limit)
                          ∷ (priority_fee_label, print_qrl amount_size tip)
                          ∷ (max_fees_label, print_qrl amount_size max_fees)
                          ∷ extra_pairs w nonce in
                        record w { screen = some (transaction_review blind pairs) }))))))))

unfoldable pub is_transaction_parsed : GlobalCtx → Bool
is_transaction_parsed ctx = elim ctx.req_type [
  | confirm_transaction ↦ elim ctx.state [ state_parsed ↦ true | _ ↦ false ]
  | confirm_address ↦ false
]

unfoldable pub ui_display_transaction_bs_choice :
    Sdk → MlDsa → (is_blind_signed : Bool) → ZondTx → World → World
ui_display_transaction_bs_choice sdk ml blind tx w =
    if not (is_transaction_parsed w.ctx)
    then io_send_sw sw_bad_state (record w { ctx = record w.ctx { state = state_none } })
    else let (w', err) = address_from_bip32_path sdk ml (use_case_spinner w) in
      if not (err == 0) then io_send_sw sw_display_address_fail w' else show_transaction blind tx w'

unfoldable pub is_address_requested : GlobalCtx → Bool
is_address_requested ctx = elim ctx.req_type [
  | confirm_address ↦ elim ctx.state [ state_none ↦ true | _ ↦ false ]
  | confirm_transaction ↦ false
]

unfoldable pub ui_display_address : World → World
ui_display_address w =
    if not (is_address_requested w.ctx)
    then io_send_sw sw_bad_state (record w { ctx = record w.ctx { state = state_none } })
    else or_fail sw_display_address_fail
        (format_checksummed_address w.ctx.address (1 + address_size * 2 + 1)) w
        (λ text. record w { screen = some (address_review text) })
