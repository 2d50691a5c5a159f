-- ===== src/App/Main.antt =====
-- The loop of src/app_main.c with what the user does between the commands: the choice on a review, and
-- the switches of src/ui/menu_nbgl.c. A run is the list of these events, as the SDK hands them over.
pub mod Invariant
use ledger_app_qrl_v.Prelude.{
  ℕ, Bool, true, false, Option, none, some, List, [], ◌∷◌, ◌==◌, if◌then◌else◌,
}
use ledger_app_qrl_v.App.{World, zeroed_ctx, Storage, Sdk, MlDsa, sw_wrong_data_length}
use ledger_app_qrl_v.App.Wipe.{wipe_nvm_secrets}
use ledger_app_qrl_v.App.Send.{io_send_sw}
use ledger_app_qrl_v.App.Validate.{review_choice}
use ledger_app_qrl_v.App.Dispatcher.{apdu_dispatcher}

-- The tokens of the switches.
pub data Switch : Type 0 where
  blind_signing_switch : Switch
  nonce_switch : Switch
  tx_hash_switch : Switch

-- `!value`
abbrev pub toggled : ℕ → ℕ
toggled value = if value == 0 then 1 else 0

unfoldable pub controls_callback : Switch → World → World
controls_callback blind_signing_switch w = record w {
  storage = record w.storage { enable_blind_signing = toggled w.storage.enable_blind_signing };
}
controls_callback nonce_switch w = record w {
  storage = record w.storage { display_nonce = toggled w.storage.display_nonce };
}
controls_callback tx_hash_switch w = record w {
  storage = record w.storage { display_tx_hash = toggled w.storage.display_tx_hash };
}

pub data Event : Type 0 where
  apdu : (bytes : List ℕ) → Event
  choice : (confirm : Bool) → Event
  switch : Switch → Event

-- One round of the loop, or one callback.
unfoldable pub step : Sdk → MlDsa → Event → World → World
step sdk ml (apdu bytes) w = elim (sdk.apdu_parser bytes) [
  | none ↦ io_send_sw sw_wrong_data_length w
  | some cmd ↦ apdu_dispatcher sdk ml cmd w
]
step sdk ml (choice confirm) w = review_choice ml confirm w
step sdk ml (switch token) w = controls_callback token w

-- `app_main` up to its loop.
unfoldable pub start : Storage → World
start st = record { ctx = zeroed_ctx; storage = wipe_nvm_secrets st; screen = none; sent = [] }

unfoldable pub run : Sdk → MlDsa → List Event → World → World
run sdk ml [] w = w
run sdk ml (e ∷ es) w = run sdk ml es (step sdk ml e w)
