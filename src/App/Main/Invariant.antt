-- ===== src/App/Main/Invariant.antt =====
-- What holds after every run of src/app_main.c.
use mathlib.Core.Path.{subst}
use ledger_app_qrl_v.App.Display.{Pairs}
use ledger_app_qrl_v.Prelude.{
  ℕ, ◌≡◌, ◌⊎◌, refl, sym, ap, ◌∙◌, arith, Bool, true, false, none, some, Option-cases, List, [],
  ◌∷◌, length-replicate, Bool-cases, inl, inr,
}
use ledger_app_qrl_v.App.{
  World, GlobalCtx, zeroed_ctx, max_transaction_len, Storage, State, state_approved, Review,
  address_review, transaction_review, Command, Sdk, MlDsa,
}
use ledger_app_qrl_v.App.Send.{helper_send_response_sig, helper_send_response_address}
use ledger_app_qrl_v.App.Effects.{IsFitting, IsHandled, IsSilent-refl, sent-IsHandled}
use ledger_app_qrl_v.App.Handlers.Chunks.{IsMoving}
use ledger_app_qrl_v.App.Validate.{
  validate_pubkey, crypto_sign_message, set_state, validate_transaction, address_review_choice,
  transaction_review_choice, choose, review_choice,
}
use ledger_app_qrl_v.App.Dispatcher.Answers.{IsCounted, apdu_dispatcher-IsHandled}
use ledger_app_qrl_v.App.Main.{
  blind_signing_switch, nonce_switch, tx_hash_switch, controls_callback, Event, apdu, choice,
  switch, step, start, run,
}

-- What is documented of the SDK.
pub record IsEnvironment (sdk : Sdk) : Type 0 where
  pub moves : IsMoving sdk
  pub counted : (bytes : List ℕ) (cmd : Command) → sdk.apdu_parser bytes ≡ some cmd → IsCounted cmd

pub apdu-IsHandled :
    (sdk : Sdk) (ml : MlDsa) (bytes : List ℕ) (w : World)
    → IsEnvironment sdk
    → IsHandled w (step sdk ml (apdu bytes) w)
unfolding step
apdu-IsHandled sdk ml bytes w env = elim (Option-cases (sdk.apdu_parser bytes)) [
  | inl e ↦ rw (step, e) (sent-IsHandled w w [] _ (IsSilent-refl w))
  | inr (cmd, e) ↦
      rw (step, e) (apdu_dispatcher-IsHandled sdk ml cmd w env.moves (env.counted bytes cmd e))
]

crypto_sign_message-ctx : (ml : MlDsa) (w : World) → (crypto_sign_message ml w).0.ctx ≡ w.ctx
unfolding crypto_sign_message
crypto_sign_message-ctx ml w = ground arith

state-IsFitting :
    (ctx : GlobalCtx) (state : State) → IsFitting ctx → IsFitting (record ctx { state = state })
state-IsFitting ctx state h = record { size_ok = h.size_ok; len_ok = h.len_ok }

choose-IsFitting :
    (ml : MlDsa) (confirm : Bool) (review : Review) (w : World)
    → IsFitting w.ctx
    → IsFitting (choose ml confirm review w).ctx
unfolding choose address_review_choice transaction_review_choice validate_pubkey
    validate_transaction set_state helper_send_response_address helper_send_response_sig
choose-IsFitting ml true (address_review address) w h = h
choose-IsFitting ml false (address_review address) w h = h
choose-IsFitting ml false (transaction_review blind pairs) w h = state-IsFitting w.ctx _ h
choose-IsFitting ml true (transaction_review blind pairs) w h =
    elim (Bool-cases (crypto_sign_message ml (set_state state_approved w)).1) [
      | inr e ↦ rw e (state-IsFitting _ _ signed_IsFitting)
      | inl e ↦ rw e signed_IsFitting
    ]
  where
    signed_IsFitting : IsFitting (crypto_sign_message ml (set_state state_approved w)).0.ctx
    signed_IsFitting =
        subst IsFitting (sym (crypto_sign_message-ctx ml (set_state state_approved w)))
          (unfold set_state in state-IsFitting w.ctx _ h)

pub step-IsFitting :
    (sdk : Sdk) (ml : MlDsa) (e : Event) (w : World)
    → IsEnvironment sdk
    → IsFitting w.ctx
    → IsFitting (step sdk ml e w).ctx
unfolding step controls_callback review_choice
step-IsFitting sdk ml (apdu bytes) w env h = (apdu-IsHandled sdk ml bytes w env).fits h
step-IsFitting sdk ml (switch blind_signing_switch) w env h = h
step-IsFitting sdk ml (switch nonce_switch) w env h = h
step-IsFitting sdk ml (switch tx_hash_switch) w env h = h
step-IsFitting sdk ml (choice confirm) w env h = elim (Option-cases w.screen) [
  | inl e ↦ rw (review_choice, e) h
  | inr (review, e) ↦ rw (review_choice, e) (choose-IsFitting ml confirm review w h)
]

-- After any run from the start, the transaction's array has its 510 bytes and the count of the bytes
-- received does not pass them.
pub run-IsFitting :
    (sdk : Sdk) (ml : MlDsa) (events : List Event) (st : Storage)
    → IsEnvironment sdk
    → IsFitting (run sdk ml events (start st)).ctx
unfolding run
run-IsFitting sdk ml events st env = kept events (start st) (unfold start in begun)
  where
    begun : IsFitting zeroed_ctx
    begun = record {
      size_ok = length-replicate {A = ℕ} max_transaction_len 0;
      len_ok = omega arith;
    }

    kept : (events : List Event) (w : World) → IsFitting w.ctx → IsFitting (run sdk ml events w).ctx
    kept [] w h = h
    kept (e ∷ es) w h = kept es (step sdk ml e w) (step-IsFitting sdk ml e w env h)

-- The choices that write no signature.
choose-sig :
    (ml : MlDsa) (confirm : Bool) (review : Review) (w : World)
    → ((choose ml confirm review w).storage.sig ≡ w.storage.sig)
      ⊎ ((confirm ≡ true)
          × (blind : Bool) × (pairs : Pairs) × (review ≡ transaction_review blind pairs))
unfolding choose address_review_choice transaction_review_choice validate_pubkey
    validate_transaction set_state helper_send_response_address
choose-sig ml true (address_review address) w = inl refl
choose-sig ml false (address_review address) w = inl refl
choose-sig ml false (transaction_review blind pairs) w = inl refl
choose-sig ml true (transaction_review blind pairs) w = inr (refl, blind, pairs, refl)

-- Of all events, only the approval of a transaction that is on the screen changes the signature in the
-- storage.
pub step-sig :
    (sdk : Sdk) (ml : MlDsa) (e : Event) (w : World)
    → IsEnvironment sdk
    → ((step sdk ml e w).storage.sig ≡ w.storage.sig)
      ⊎ ((e ≡ choice true)
          × (blind : Bool) × (pairs : Pairs) × (w.screen ≡ some (transaction_review blind pairs)))
unfolding step controls_callback review_choice
step-sig sdk ml (apdu bytes) w env = inl (apdu-IsHandled sdk ml bytes w env).same_sig
step-sig sdk ml (switch blind_signing_switch) w env = inl refl
step-sig sdk ml (switch nonce_switch) w env = inl refl
step-sig sdk ml (switch tx_hash_switch) w env = inl refl
step-sig sdk ml (choice confirm) w env = chosen (Option-cases w.screen)
  where
    chosen :
        (w.screen ≡ none) ⊎ ((review : Review) × (w.screen ≡ some review))
        → ((review_choice ml confirm w).storage.sig ≡ w.storage.sig)
          ⊎ ((choice confirm ≡ choice true)
              × (blind : Bool) × (pairs : Pairs) × (w.screen
                  ≡ some (transaction_review blind pairs)))
    chosen (inl e) = rw (review_choice, e) (inl refl)
    chosen (inr (review, e)) = elim (choose-sig ml confirm review w) [
      | inl same ↦ inl (rw (review_choice, e) same)
      | inr (approved, blind, pairs, is) ↦ inr (ap choice approved, blind, pairs, e ∙ ap some is)
    ]
