-- ===== src/App/Handlers/Chunks.antt =====
-- `handler_sign_tx` of src/handler/sign_tx.c over the parts of a transaction.
use mathlib.Core.List.{append_assoc, append-nil}
use ledger_app_qrl_v.Prelude.{
  ℕ, zero, suc, ◌+◌, ◌≤◌, ◌<◌, ◌≡◌, refl, sym, ap, ◌∙◌, arith, true, false, some, List, [], ◌∷◌,
  ◌++◌, length, length-append, length-take, length-drop, take, drop, take-length_append, replicate,
  ltb, lt→ltb,
}
use ledger_app_qrl_v.App.{
  World, GlobalCtx, Response, confirm_transaction, Buffer, Sdk, MlDsa, max_transaction_len, sw_ok,
  sw_wrong_tx_length,
}
use ledger_app_qrl_v.App.Effects.{IsFitting}
use ledger_app_qrl_v.App.Send.{io_send_sw}
use ledger_app_qrl_v.App.Handlers.{
  answered, go_on, is_transaction_requested, append_bytes, receive_chunk, handler_sign_tx,
}

-- The bytes received so far.
unfoldable pub received : GlobalCtx → List ℕ
received ctx = take ctx.raw_tx_len ctx.raw_tx

-- `cdata` of a command that carries these bytes.
abbrev pub buffer_with : List ℕ → Buffer
buffer_with bytes = record { ptr = bytes; size = length bytes; offset = 0 }

-- The SDK's `buffer_move` hands over all bytes of a buffer that is read from its start.
abbrev pub IsMoving : Sdk → Type 0
IsMoving sdk =
    (bytes : List ℕ)
    → (rest : Buffer) × (sdk.buffer_move (buffer_with bytes) (length bytes) ≡ some (bytes, rest))

take_upto :
    (xs ys zs : List ℕ) (n : ℕ) → length xs + length ys ≡ n → take n (xs ++ (ys ++ zs)) ≡ xs ++ ys
take_upto xs ys zs n e =
    rw (sym (append_assoc xs ys zs), sym e, sym (length-append xs ys))
      (take-length_append (xs ++ ys) zs)

-- A part that fits is put behind the others, and the array keeps its size.
pub append_bytes-received :
    (ctx : GlobalCtx) (bytes : List ℕ)
    → IsFitting ctx
    → ctx.raw_tx_len + length bytes ≤ max_transaction_len
    → received (append_bytes ctx bytes (length bytes)) ≡ received ctx ++ bytes
unfolding received append_bytes
append_bytes-received ctx bytes h fits =
    take_upto (take ctx.raw_tx_len ctx.raw_tx) bytes _ _
      (omega (arith, length-take ctx.raw_tx_len ctx.raw_tx, h.size_ok, h.len_ok))

pub append_bytes-IsFitting :
    (ctx : GlobalCtx) (bytes : List ℕ)
    → IsFitting ctx
    → ctx.raw_tx_len + length bytes ≤ max_transaction_len
    → IsFitting (append_bytes ctx bytes (length bytes))
unfolding append_bytes
append_bytes-IsFitting ctx bytes h fits = record {
  size_ok = omega (
    arith,
    length-append (take ctx.raw_tx_len ctx.raw_tx)
        (bytes ++ drop (ctx.raw_tx_len + length bytes) ctx.raw_tx),
    length-append bytes (drop (ctx.raw_tx_len + length bytes) ctx.raw_tx),
    length-take ctx.raw_tx_len ctx.raw_tx,
    length-drop (ctx.raw_tx_len + length bytes) ctx.raw_tx,
    h.size_ok,
    h.len_ok,
    fits,
  );
  len_ok = fits;
}

-- A world that waits for a part of the transaction.
pub record IsReceiving (w : World) : Type 0 where
  pub fitting : IsFitting w.ctx
  pub requested : w.ctx.req_type ≡ confirm_transaction

abbrev pub with_ctx : World → GlobalCtx → World
with_ctx w ctx = record w { ctx = ctx }

is_requested : (w : World) → IsReceiving w → is_transaction_requested w.ctx ≡ true
is_requested w h = unfold is_transaction_requested in rw h.requested refl

pub receive_chunk_fits :
    (sdk : Sdk) (bytes : List ℕ) (w : World)
    → IsMoving sdk
    → IsReceiving w
    → w.ctx.raw_tx_len + length bytes ≤ max_transaction_len
    → receive_chunk sdk (buffer_with bytes) w
      ≡ go_on (with_ctx w (append_bytes w.ctx bytes (length bytes)))
unfolding receive_chunk
receive_chunk_fits sdk bytes w moves h fits =
    let (rest, e) = moves bytes in rw (is_requested w h, small, e) refl
  where
    small : ltb max_transaction_len (w.ctx.raw_tx_len + length bytes) ≡ false
    small = ground (arith, fits)

-- A part that does not fit is refused, and changes nothing but the answers.
pub receive_chunk_too_long :
    (sdk : Sdk) (cdata : Buffer) (w : World)
    → IsReceiving w
    → max_transaction_len < w.ctx.raw_tx_len + cdata.size
    → receive_chunk sdk cdata w ≡ answered (io_send_sw sw_wrong_tx_length w)
unfolding receive_chunk
receive_chunk_too_long sdk cdata w h long = rw (is_requested w h, lt→ltb _ _ long) refl

-- The parts before the last one, each in a command of its own.
unfoldable pub send_parts : Sdk → MlDsa → List (List ℕ) → World → World
send_parts sdk ml [] w = w
send_parts sdk ml (part ∷ parts) w =
    send_parts sdk ml parts (handler_sign_tx sdk ml (buffer_with part) 1 0 w)

abbrev pub concat : List (List ℕ) → List ℕ
concat [] = []
concat (part ∷ parts) = part ++ concat parts

-- What the parts leave behind: their bytes, and nothing else that has changed but the answers.
pub record IsStreamed (parts : List (List ℕ)) (w w' : World) : Type 0 where
  pub ready : IsReceiving w'
  pub bytes : received w'.ctx ≡ received w.ctx ++ concat parts
  pub count : w'.ctx.raw_tx_len ≡ w.ctx.raw_tx_len + length (concat parts)
  pub same_path : w'.ctx.bip32_path ≡ w.ctx.bip32_path
  pub same_path_len : w'.ctx.bip32_path_len ≡ w.ctx.bip32_path_len
  pub same_storage : w'.storage ≡ w.storage
  pub same_screen : w'.screen ≡ w.screen
  pub answers : w'.sent ≡ replicate (length parts) (record { data_sent = []; sw = sw_ok }) ++ w.sent

sign_part :
    (sdk : Sdk) (ml : MlDsa) (part : List ℕ) (w : World)
    → IsMoving sdk
    → IsReceiving w
    → w.ctx.raw_tx_len + length part ≤ max_transaction_len
    → handler_sign_tx sdk ml (buffer_with part) 1 0 w
      ≡ io_send_sw sw_ok (with_ctx w (append_bytes w.ctx part (length part)))
unfolding handler_sign_tx
sign_part sdk ml part w moves h fits = rw (receive_chunk_fits sdk part w moves h fits) refl

part_ready :
    (part : List ℕ) (w : World)
    → IsReceiving w
    → w.ctx.raw_tx_len + length part ≤ max_transaction_len
    → IsReceiving (io_send_sw sw_ok (with_ctx w (append_bytes w.ctx part (length part))))
part_ready part w h fits = record {
  fitting = append_bytes-IsFitting w.ctx part h.fitting fits;
  requested = unfold append_bytes in h.requested;
}

Streamed-cons :
    (part : List ℕ) (parts : List (List ℕ)) (w w' : World)
    → IsReceiving w
    → w.ctx.raw_tx_len + length part ≤ max_transaction_len
    → IsStreamed parts (io_send_sw sw_ok (with_ctx w (append_bytes w.ctx part (length part)))) w'
    → IsStreamed (part ∷ parts) w w'
unfolding append_bytes
Streamed-cons part parts w w' h fits s = record {
  ready = s.ready;
  bytes =
      s.bytes
      ∙ ap (λ t. t ++ concat parts) (append_bytes-received w.ctx part h.fitting fits)
      ∙ append_assoc (received w.ctx) part (concat parts);
  count = omega (arith, s.count, length-append part (concat parts));
  same_path = s.same_path;
  same_path_len = s.same_path_len;
  same_storage = s.same_storage;
  same_screen = s.same_screen;
  answers = s.answers ∙ replicate-snoc (length parts) _ w.sent;
}
  where
    replicate-snoc :
        (n : ℕ) (r : Response) (rs : List Response)
        → replicate n r ++ (r ∷ rs) ≡ replicate (suc n) r ++ rs
    replicate-snoc zero r rs = refl
    replicate-snoc (suc n) r rs = ap (λ t. r ∷ t) (replicate-snoc n r rs)

pub send_parts_lem :
    (sdk : Sdk) (ml : MlDsa) (parts : List (List ℕ)) (w : World)
    → IsMoving sdk
    → IsReceiving w
    → w.ctx.raw_tx_len + length (concat parts) ≤ max_transaction_len
    → IsStreamed parts w (send_parts sdk ml parts w)
unfolding send_parts
send_parts_lem sdk ml [] w moves h fits = record {
  ready = h;
  bytes = sym (append-nil (received w.ctx));
  count = omega arith;
  same_path = refl;
  same_path_len = refl;
  same_storage = refl;
  same_screen = refl;
  answers = refl;
}
send_parts_lem sdk ml (part ∷ parts) w moves h fits =
    let small : w.ctx.raw_tx_len + length part ≤ max_transaction_len =
      omega (arith, fits, length-append part (concat parts)) in
    rw (sign_part sdk ml part w moves h small) (
      Streamed-cons part parts w _ h small (
        send_parts_lem sdk ml parts _ moves (part_ready part w h small)
          (unfold append_bytes in omega (arith, fits, length-append part (concat parts)))))
