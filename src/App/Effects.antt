-- ===== src/App/Effects.antt =====
-- What a command may do to the world: it is answered once or it puts up a review, it leaves the
-- signature alone, and the bytes received stay inside their array.
use ledger_app_qrl_v.Prelude.{
  ℕ, none, ◌≡◌, ◌⊎◌, refl, ap, some, List, ◌∷◌, inl, inr, ◌==◌, Bool-cases, ◌≤◌, take, length,
}
use ledger_app_qrl_v.App.{
  World, GlobalCtx, State, Response, Review, Sdk, MlDsa, max_transaction_len,
}
use ledger_app_qrl_v.App.Send.{io_send_response_pointer}
use ledger_app_qrl_v.App.Address.{use_case_spinner, address_from_bip32_path, new_mldsa87_from_seed}

-- The array has its size, and the length stays inside it.
pub record IsFitting (ctx : GlobalCtx) : Type 0 where
  pub size_ok : length ctx.raw_tx ≡ max_transaction_len
  pub len_ok : ctx.raw_tx_len ≤ max_transaction_len

-- The pending screen is left alone or taken down.
abbrev pub IsKeptOrDown : World → World → Type 0
IsKeptOrDown w w' = (w'.screen ≡ w.screen) ⊎ (w'.screen ≡ none)

-- One answer, and no new screen; or a new screen, and no answer yet.
pub IsAnswered : World → World → Type 0
IsAnswered w w' =
    ((r : Response) × (w'.sent ≡ r ∷ w.sent) × IsKeptOrDown w w')
    ⊎ ((review : Review) × (w'.sent ≡ w.sent) × (w'.screen ≡ some review))

pub record IsHandled (w w' : World) : Type 0 where
  pub answer : IsAnswered w w'
  pub same_sig : w'.storage.sig ≡ w.storage.sig
  pub fits : IsFitting w.ctx → IsFitting w'.ctx

-- A step on the way.
pub record IsSilent (w w' : World) : Type 0 where
  pub same_sent : w'.sent ≡ w.sent
  pub no_new_screen : IsKeptOrDown w w'
  pub same_sig : w'.storage.sig ≡ w.storage.sig
  pub fits : IsFitting w.ctx → IsFitting w'.ctx

pub IsSilent-refl : (w : World) → IsSilent w w
IsSilent-refl w = record {
  same_sent = refl;
  no_new_screen = inl refl;
  same_sig = refl;
  fits = λ h. h;
}

pub sent-IsHandled :
    (w w' : World) (bytes : List ℕ) (sw : ℕ)
    → IsSilent w w'
    → IsHandled w (io_send_response_pointer bytes sw w')
unfolding IsAnswered
sent-IsHandled w w' bytes sw s = record {
  answer =
      inl (_, ap (λ t. record { data_sent = bytes; sw = sw } ∷ t) s.same_sent, s.no_new_screen);
  same_sig = s.same_sig;
  fits = s.fits;
}

pub shown-IsHandled :
    (w w' : World) (review : Review)
    → IsSilent w w'
    → IsHandled w (record w' { screen = some review })
unfolding IsAnswered
shown-IsHandled w w' review s = record {
  answer = inr (review, s.same_sent, refl);
  same_sig = s.same_sig;
  fits = s.fits;
}

pub IsSilent-state :
    (w w' : World) (state : State)
    → IsSilent w w'
    → IsSilent w (record w' { ctx = record w'.ctx { state = state } })
IsSilent-state w w' state s = record {
  same_sent = s.same_sent;
  no_new_screen = s.no_new_screen;
  same_sig = s.same_sig;
  fits = λ h. record { size_ok = (s.fits h).size_ok; len_ok = (s.fits h).len_ok };
}

pub spinner_IsSilent : (w w' : World) → IsSilent w w' → IsSilent w (use_case_spinner w')
unfolding use_case_spinner
spinner_IsSilent w w' s = record {
  same_sent = s.same_sent;
  no_new_screen = inr refl;
  same_sig = s.same_sig;
  fits = s.fits;
}

pub address_from_bip32_path-IsSilent :
    (sdk : Sdk) (ml : MlDsa) (w w' : World)
    → IsSilent w w'
    → IsSilent w (address_from_bip32_path sdk ml w').0
unfolding address_from_bip32_path new_mldsa87_from_seed use_case_spinner
address_from_bip32_path-IsSilent sdk ml w w' s =
    let (raw_seed, err) = sdk.os_derive_bip32 w'.ctx.bip32_path w'.ctx.bip32_path_len in
    let (t1, pk, mldsa_err) = ml.crypto_sign_keypair (take 32 raw_seed) w'.storage.t1 in
    elim (Bool-cases (err == 0)) [
      | inr e ↦ rw e s
      | inl e ↦ rw e (elim (Bool-cases (mldsa_err == 0)) [
        | inl e' ↦ rw e' (record {
          same_sent = s.same_sent;
          no_new_screen = inr refl;
          same_sig = s.same_sig;
          fits = λ h. record { size_ok = (s.fits h).size_ok; len_ok = (s.fits h).len_ok };
        })
        | inr e' ↦ rw e' (record {
          same_sent = s.same_sent;
          no_new_screen = inr refl;
          same_sig = s.same_sig;
          fits = s.fits;
        })
      ])
    ]
