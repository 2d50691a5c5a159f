-- ===== src/App/Display/Cases.antt =====
-- What the display functions of src/ui can do to the world: they answer with a status word or put up a
-- review. A property is carried through them by showing it in these two cases.
use ledger_app_qrl_v.Prelude.{ℕ, Bool, Option, none, some, List, ◌==◌, Bool-cases, inl, inr}
use ledger_app_qrl_v.Rlp.Tx.{ZondTx}
use ledger_app_qrl_v.App.{World, state_none, address_review, transaction_review, Sdk, MlDsa}
use ledger_app_qrl_v.App.Send.{io_send_sw}
use ledger_app_qrl_v.App.Address.{use_case_spinner, address_from_bip32_path}
use ledger_app_qrl_v.App.Display.{
  Pairs, or_fail, show_transaction, is_transaction_parsed, ui_display_transaction_bs_choice,
  is_address_requested, ui_display_address,
}

module _ {κ} (P : World → Type κ) (w : World) (fails : (sw : ℕ) → P (io_send_sw sw w)) where
  or_fail_cases {ℓ} :
      {A : Type ℓ} (sw : ℕ) (o : Option A) (f : A → World)
      → ((a : A) → P (f a))
      → P (or_fail sw o w f)
  unfolding or_fail
  or_fail_cases sw none f h = fails sw
  or_fail_cases sw (some a) f h = h a

  pub show_transaction_cases :
      (blind : Bool) (tx : ZondTx)
      → ((pairs : Pairs) → P (record w { screen = some (transaction_review blind pairs) }))
      → P (show_transaction blind tx w)
  unfolding show_transaction
  show_transaction_cases blind tx shows = or_fail_cases _ _ _ (λ from.
      or_fail_cases _ _ _ (λ amount. or_fail_cases _ _ _ (λ to. or_fail_cases _ _ _ (λ max_fees.
        or_fail_cases _ _ _ (λ chain_id.
          or_fail_cases _ _ _
            (λ gas_limit. or_fail_cases _ _ _ (λ tip. or_fail_cases _ _ _ (λ nonce. shows _))))))))

  pub ui_display_address_cases :
      ((sw : ℕ) → P (io_send_sw sw (record w { ctx = record w.ctx { state = state_none } })))
      → ((text : List ℕ) → P (record w { screen = some (address_review text) }))
      → P (ui_display_address w)
  unfolding ui_display_address
  ui_display_address_cases refused shows = elim (Bool-cases (is_address_requested w.ctx)) [
    | inl e ↦ rw e (or_fail_cases _ _ _ shows)
    | inr e ↦ rw e (refused _)
  ]

-- Before its derivation, a pending review is taken down.
pub ui_display_transaction_cases {κ} :
    (P : World → Type κ) (sdk : Sdk) (ml : MlDsa) (blind : Bool) (tx : ZondTx) (w : World)
    → ((sw : ℕ) → P (io_send_sw sw (record w { ctx = record w.ctx { state = state_none } })))
    → ((sw : ℕ) → P (io_send_sw sw (address_from_bip32_path sdk ml (use_case_spinner w)).0))
    → ((pairs : Pairs)
        → P (record (address_from_bip32_path sdk ml (use_case_spinner w)).0 {
          screen = some (transaction_review blind pairs);
        }))
    → P (ui_display_transaction_bs_choice sdk ml blind tx w)
unfolding ui_display_transaction_bs_choice
ui_display_transaction_cases P sdk ml blind tx w refused fails shows =
    elim (Bool-cases (is_transaction_parsed w.ctx)) [
      | inl e ↦
          rw e (elim (Bool-cases ((address_from_bip32_path sdk ml (use_case_spinner w)).1 == 0)) [
            | inl e' ↦ rw e' (show_transaction_cases P _ fails blind tx shows)
            | inr e' ↦ rw e' (fails _)
          ])
      | inr e ↦ rw e (refused _)
    ]
