-- ===== src/App/Dispatcher/Answers.antt =====
-- `apdu_dispatcher` of src/apdu/dispatcher.c handles every command.
use mathlib.Core.Path.{subst}
use ledger_app_qrl_v.Prelude.{
  ℕ, ◌≡◌, sym, ap, not, ◌&&◌, ◌||◌, none, some, List, [], length, ltb, ◌==◌, if◌then◌else◌,
  Bool-cases, inl, inr,
}
use ledger_app_qrl_v.App.{World, Command, Sdk, MlDsa, sw_wrong_p1p2}
use ledger_app_qrl_v.App.Send.{io_send_sw}
use ledger_app_qrl_v.App.Effects.{IsAnswered, IsHandled, IsSilent-refl, sent-IsHandled}
use ledger_app_qrl_v.App.Handlers.{handler_get_version, handler_get_app_name, handler_sign_tx}
use ledger_app_qrl_v.App.Handlers.Chunks.{IsMoving, buffer_with}
use ledger_app_qrl_v.App.Handlers.Effect.{
  handler_get_public_key-IsHandled, handler_get_public_key_chunk-IsHandled,
  handler_sign_tx-IsHandled,
}
use ledger_app_qrl_v.App.Dispatcher.{
  class_byte, get_version, get_app_name, get_public_key, sign_tx, is_null, buffer_of,
  dispatch_get_public_key, dispatch_sign_tx, apdu_dispatcher,
}

-- The data of a command, none of it where the pointer is NULL.
abbrev pub data_of : Command → List ℕ
data_of cmd = elim cmd.cdata [ none ↦ [] | some bytes ↦ bytes ]

-- `Lc` counts the data.
abbrev pub IsCounted : Command → Type 0
IsCounted cmd = cmd.lc ≡ length (data_of cmd)

buffer_of_lem : (cmd : Command) → IsCounted cmd → buffer_of cmd ≡ buffer_with (data_of cmd)
unfolding buffer_of
buffer_of_lem cmd h = ap (λ n. record { ptr = data_of cmd; size = n; offset = 0 }) h

module _ (sdk : Sdk) (ml : MlDsa) (moves : IsMoving sdk) (cmd : Command) (w : World) where
  refused : (sw : ℕ) → IsHandled w (io_send_sw sw w)
  refused sw = sent-IsHandled w w [] sw (IsSilent-refl w)

  dispatch_get_public_key-IsHandled : IsHandled w (dispatch_get_public_key sdk ml cmd w)
  unfolding dispatch_get_public_key
  dispatch_get_public_key-IsHandled = elim (Bool-cases (ltb 1 cmd.p1 || ltb 11 cmd.p2)) [
    | inl e ↦ rw (dispatch_get_public_key, e) (refused _)
    | inr e ↦ elim (Bool-cases (ltb 0 cmd.p2)) [
      | inl e1 ↦ rw (dispatch_get_public_key, e, e1) (handler_get_public_key_chunk-IsHandled _ w)
      | inr e1 ↦ elim (Bool-cases (is_null cmd.cdata)) [
        | inl e2 ↦ rw (dispatch_get_public_key, e, e1, e2) (refused _)
        | inr e2 ↦
            rw (dispatch_get_public_key, e, e1, e2)
              (handler_get_public_key-IsHandled sdk ml (buffer_of cmd) _ w)
      ]
    ]
  ]

  on_buffer : IsCounted cmd → IsHandled w (handler_sign_tx sdk ml (buffer_of cmd) cmd.p1 cmd.p2 w)
  on_buffer h =
      subst (λ b. IsHandled w (handler_sign_tx sdk ml b cmd.p1 cmd.p2 w))
        (sym (buffer_of_lem cmd h))
        (handler_sign_tx-IsHandled sdk ml (data_of cmd) cmd.p1 cmd.p2 w moves)

  dispatch_sign_tx-IsHandled : IsCounted cmd → IsHandled w (dispatch_sign_tx sdk ml cmd w)
  unfolding dispatch_sign_tx
  dispatch_sign_tx-IsHandled h =
      elim (Bool-cases
        ((not (cmd.p1 == 0) && (not (cmd.p1 == 1) && not (cmd.p1 == 2))) || ltb 17 cmd.p2)) [
          | inl e ↦ rw (dispatch_sign_tx, e) (refused _)
          | inr e ↦ elim (Bool-cases (is_null cmd.cdata && cmd.p2 == 0)) [
            | inl e1 ↦ rw (dispatch_sign_tx, e, e1) (refused _)
            | inr e1 ↦ rw (dispatch_sign_tx, e, e1) (on_buffer h)
          ]
        ]

pub apdu_dispatcher-IsHandled :
    (sdk : Sdk) (ml : MlDsa) (cmd : Command) (w : World)
    → IsMoving sdk
    → IsCounted cmd
    → IsHandled w (apdu_dispatcher sdk ml cmd w)
unfolding apdu_dispatcher
apdu_dispatcher-IsHandled sdk ml cmd w moves h = elim (Bool-cases (cmd.cla == class_byte)) [
  | inr e ↦ rw (apdu_dispatcher, e) (refused sdk ml moves cmd w _)
  | inl e ↦ elim (Bool-cases (cmd.ins == get_version)) [
    | inl i ↦
        rw (apdu_dispatcher, e, i)
          (plain (handler_get_version sdk w)
            (unfold handler_get_version in sent-IsHandled w w _ _ (IsSilent-refl w)))
    | inr i ↦ elim (Bool-cases (cmd.ins == get_app_name)) [
      | inl i1 ↦
          rw (apdu_dispatcher, e, i, i1)
            (plain (handler_get_app_name sdk w)
              (unfold handler_get_app_name in sent-IsHandled w w _ _ (IsSilent-refl w)))
      | inr i1 ↦ elim (Bool-cases (cmd.ins == get_public_key)) [
        | inl i2 ↦
            rw (apdu_dispatcher, e, i, i1, i2)
              (dispatch_get_public_key-IsHandled sdk ml moves cmd w)
        | inr i2 ↦ elim (Bool-cases (cmd.ins == sign_tx)) [
          | inl i3 ↦
              rw (apdu_dispatcher, e, i, i1, i2, i3)
                (dispatch_sign_tx-IsHandled sdk ml moves cmd w h)
          | inr i3 ↦ rw (apdu_dispatcher, e, i, i1, i2, i3) (refused sdk ml moves cmd w _)
        ]
      ]
    ]
  ]
]
  where
    plain :
        (w' : World)
        → IsHandled w w'
        → IsHandled w
            (if not (cmd.p1 == 0) || not (cmd.p2 == 0) then io_send_sw sw_wrong_p1p2 w else w')
    plain w' k = elim (Bool-cases (not (cmd.p1 == 0) || not (cmd.p2 == 0))) [
      | inl e ↦ rw e (refused sdk ml moves cmd w _)
      | inr e ↦ rw e k
    ]

-- Every command, known or not, is answered exactly once, with a pending review left alone or taken down, or
-- is not answered yet and puts up one review. The signature in the storage stays as it is. The SDK moves the
-- bytes of a buffer out of it, and Lc counts the data.
pub apdu_dispatcher-IsAnswered :
    (sdk : Sdk) (ml : MlDsa) (cmd : Command) (w : World)
    → IsMoving sdk
    → IsCounted cmd
    → IsAnswered w (apdu_dispatcher sdk ml cmd w)
      × ((apdu_dispatcher sdk ml cmd w).storage.sig ≡ w.storage.sig)
apdu_dispatcher-IsAnswered sdk ml cmd w moves h =
    let handled = apdu_dispatcher-IsHandled sdk ml cmd w moves h in
    (handled.answer, handled.same_sig)
