-- ===== src/App/Dispatcher.antt =====
-- `apdu_dispatcher` of src/apdu/dispatcher.c.
pub mod Answers
use ledger_app_qrl_v.Prelude.{
  ℕ, ◌-◌, Bool, true, false, not, ◌&&◌, ◌||◌, Option, none, some, List, [], ltb, ◌==◌,
  if◌then◌else◌,
}
use ledger_app_qrl_v.App.{
  World, Buffer, Command, Sdk, MlDsa, sw_wrong_p1p2, sw_wrong_data_length, sw_ins_not_supported,
  sw_cla_not_supported,
}
use ledger_app_qrl_v.App.Send.{io_send_sw}
use ledger_app_qrl_v.App.Handlers.{
  handler_get_version, handler_get_app_name, handler_get_public_key, handler_get_public_key_chunk,
  handler_sign_tx,
}

abbrev pub class_byte : ℕ
class_byte = 0xE0

-- `command_e`, the instructions that the dispatcher knows.
abbrev pub get_version : ℕ
get_version = 0x03

abbrev pub get_app_name : ℕ
get_app_name = 0x04

abbrev pub get_public_key : ℕ
get_public_key = 0x05

abbrev pub sign_tx : ℕ
sign_tx = 0x06

abbrev pub is_null : Option (List ℕ) → Bool
is_null none = true
is_null (some bytes) = false

-- `buf.ptr = cmd->data; buf.size = cmd->lc; buf.offset = 0;`
unfoldable pub buffer_of : Command → Buffer
buffer_of cmd = record {
  ptr = elim cmd.cdata [ none ↦ [] | some bytes ↦ bytes ];
  size = cmd.lc;
  offset = 0;
}

unfoldable pub dispatch_get_public_key : Sdk → MlDsa → Command → World → World
dispatch_get_public_key sdk ml cmd w =
    if ltb 1 cmd.p1 || ltb 11 cmd.p2
    then io_send_sw sw_wrong_p1p2 w
    else if ltb 0 cmd.p2
    then handler_get_public_key_chunk (cmd.p2 - 1) w
    else if is_null cmd.cdata
    then io_send_sw sw_wrong_data_length w
    else handler_get_public_key sdk ml (buffer_of cmd) (not (cmd.p1 == 0)) w

unfoldable pub dispatch_sign_tx : Sdk → MlDsa → Command → World → World
dispatch_sign_tx sdk ml cmd w =
    if (not (cmd.p1 == 0) && (not (cmd.p1 == 1) && not (cmd.p1 == 2))) || ltb 17 cmd.p2
    then io_send_sw sw_wrong_p1p2 w
    else if is_null cmd.cdata && cmd.p2 == 0
    then io_send_sw sw_wrong_data_length w
    else handler_sign_tx sdk ml (buffer_of cmd) cmd.p1 cmd.p2 w

unfoldable pub apdu_dispatcher : Sdk → MlDsa → Command → World → World
apdu_dispatcher sdk ml cmd w =
    if not (cmd.cla == class_byte)
    then io_send_sw sw_cla_not_supported w
    else if cmd.ins == get_version
    then (if not (cmd.p1 == 0) || not (cmd.p2 == 0)
        then io_send_sw sw_wrong_p1p2 w
        else handler_get_version sdk w)
    else if cmd.ins == get_app_name
    then (if not (cmd.p1 == 0) || not (cmd.p2 == 0)
        then io_send_sw sw_wrong_p1p2 w
        else handler_get_app_name sdk w)
    else if cmd.ins == get_public_key
    then dispatch_get_public_key sdk ml cmd w
    else if cmd.ins == sign_tx
    then dispatch_sign_tx sdk ml cmd w
    else io_send_sw sw_ins_not_supported w
