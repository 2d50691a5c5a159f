-- ===== src/Examples/Device.antt =====
-- An SDK and a signature scheme that behave as documented.
use ledger_app_qrl_v.Prelude.{
  ℕ, zero, suc, ◌+◌, ◌*◌, ◌≡◌, arith, true, Option, none, some, List, [], ◌∷◌, ◌++◌, length,
  get_elem?, take, take_all, drop, replicate, leb, ◌==◌, if◌then◌else◌, value_of, ap,
}
use ledger_app_qrl_v.Rlp.{bits32}
use ledger_app_qrl_v.App.{Sdk, MlDsa, Command, Storage}
use ledger_app_qrl_v.App.Wipe.{size_of_poly_vec_l, size_of_poly_vec_k}
use ledger_app_qrl_v.App.Handlers.Chunks.{IsMoving, buffer_with}
use ledger_app_qrl_v.App.Dispatcher.Answers.{IsCounted}
use ledger_app_qrl_v.App.Main.Invariant.{IsEnvironment}

-- Big-endian words.
abbrev words : ℕ → List ℕ → List ℕ
words zero bytes = []
words (suc n) bytes = value_of (take 4 bytes) ∷ words n (drop 4 bytes)

abbrev parse : List ℕ → Option Command
parse (cla ∷ ins ∷ p1 ∷ p2 ∷ lc ∷ []) =
    if lc == 0
    then some (record { cla = cla; ins = ins; p1 = p1; p2 = p2; lc = 0; cdata = none })
    else none
parse (cla ∷ ins ∷ p1 ∷ p2 ∷ lc ∷ b ∷ bytes) =
    if lc == length (b ∷ bytes)
    then some (record {
      cla = cla;
      ins = ins;
      p1 = p1;
      p2 = p2;
      lc = length (b ∷ bytes);
      cdata = some (b ∷ bytes);
    })
    else none
parse _ = none

abbrev pub sdk : Sdk
sdk = record {
  size_t = bits32;
  apdu_parser = parse;
  buffer_read_u8 = λ b. elim (get_elem? b.ptr b.offset) [
    | none ↦ none
    | some x ↦ some (x, record b { offset = b.offset + 1 })
  ];
  buffer_read_bip32_path = λ b n.
      if leb (b.offset + 4 * n) b.size
      then some (words n (drop b.offset b.ptr), record b { offset = b.offset + 4 * n })
      else none;
  buffer_move = λ b n. some (take n b.ptr, record b { offset = n });
  os_derive_bip32 = λ path len. (replicate 64 7, 0);
  cx_internal_error = 0xFFFFFF85;
  app_name = b'Q' ∷ b'R' ∷ b'L' ∷ [];
  version = 1 ∷ 0 ∷ 0 ∷ [];
}

abbrev pub ml : MlDsa
ml = record {
  crypto_sign_keypair = λ seed t1. (t1, seed ++ replicate 2560 0, 0);
  crypto_sign_optimized =
      λ path len message st. (record st { sig = message ++ replicate 4595 0 }, 0);
  crypto_verify_optimized = λ path len sig message st. (st, (0, true));
}

pub sdk-IsMoving : IsMoving sdk
sdk-IsMoving bytes =
    (_, ap (λ t. some (t, record (buffer_with bytes) { offset = length bytes })) (take_all bytes))

parse-IsCounted : (bytes : List ℕ) (cmd : Command) → parse bytes ≡ some cmd → IsCounted cmd
parse-IsCounted [] cmd h = cc
parse-IsCounted (a ∷ []) cmd h = cc
parse-IsCounted (a ∷ b ∷ []) cmd h = cc
parse-IsCounted (a ∷ b ∷ c ∷ []) cmd h = cc
parse-IsCounted (a ∷ b ∷ c ∷ d ∷ []) cmd h = cc
parse-IsCounted (a ∷ b ∷ c ∷ d ∷ e ∷ []) cmd h = ground arith
parse-IsCounted (a ∷ b ∷ c ∷ d ∷ e ∷ f ∷ bytes) cmd h = ground arith

pub environment : IsEnvironment sdk
environment = record { moves = sdk-IsMoving; counted = parse-IsCounted }

-- A fresh storage.
abbrev pub storage : Storage
storage = record {
  t1 = [];
  w1 = [];
  w0 = replicate size_of_poly_vec_k 3;
  h = [];
  y = replicate size_of_poly_vec_l 3;
  z = [];
  cp = [];
  pack1 = replicate size_of_poly_vec_k 3;
  sig = replicate 4627 0;
  pk = replicate 2592 0;
  enable_blind_signing = 0;
  display_nonce = 0;
  display_tx_hash = 0;
  is_sending_signature = 0;
}
