-- ===== src/Lib.antt =====
-- Verification of the QRL v2.0 Ledger application: the parsing, formatting, hashing and signing flow
-- of the C code under src/ of the repository.
--
-- The program receives commands (APDUs) from a host. app_main hands each to apdu_dispatcher, which
-- checks it and calls a handler. handler_sign_tx collects the parts of a transaction in G_context,
-- hashes them with KECCAK256, parses them with decode_ledger_tx and puts up a review, whose amounts
-- come from tx_format.c and whose addresses come from address_format.c. The user's choice reaches
-- validate_transaction, which signs the hash with ML-DSA-87, verifies the signature, wipes the
-- intermediates in NVM and sends the first chunk; the host then asks for the other chunks.
--
-- Files:
--   Prelude, Prelude/*: shared names, Boolean tests, lists, bit operations, outcomes, byte strings.
--   Rlp, Rlp/Tx: src/mldsa87/rlp_decode.c (parse_rlp_item, parse_rlp_list_header, decode_ledger_tx).
--     Rlp/Consumed is about the int that parse_rlp_item returns. Rlp/Encode is the encoding they are measured against; the other children of Rlp prove.
--   TxFormat: src/ui/tx_format.c; its children prove.
--   Keccak, Keccak/Hashes: src/mldsa87/keccakf.c, shake256.c, shake128.c, keccak256.c. Keccak/Padding
--     is the sponge as a specification, Keccak/Sponge and Keccak/Output the refinement.
--   Address: src/address_format.c.
--   Word32: the 32-bit and 64-bit arithmetic of the lattice code.
--   Reduce, Rounding, Ntt: src/mldsa87/reduce.c, rounding.c, ntt.c and the table of constant.c; their
--     children prove (Rounding/Recovery the law of the hints, Ntt/Roots what the table holds).
--   Poly, Poly/Arith: src/mldsa87/poly.c; its samplers are in Sign/Samplers. Poly/Packing, Poly/ZPacking,
--     Poly/Sampling and Poly/Arith/Norm prove.
--   Polyvec: src/mldsa87/polyvec.c; Polyvec/Packed is about poly_vec_k_pack_w1.
--   Signature: pack_sig_volatile and unpack_sig_volatile of src/mldsa87/sign.c; its children prove,
--     and Signature/Whole puts them together.
--   Sign: the rest of src/mldsa87/sign.c. Sign/Samplers samples polynomials, Sign/Volatile has the
--     routines on vectors in NVM, Sign/Keys crypto_sign_keypair, Sign/Signing crypto_sign_optimized,
--     Sign/Verifying crypto_verify_optimized. Sign/Streams
--     and Sign/Matrix are about the streams of the samplers, Sign/Frame about what key generation writes;
--     Shapes, Lengths, Vectors, Hinted, Exhausted
--     and Attempt prove what Accepted (of signing) and Checked (of verification) put together.
--   App: src/types.h, src/globals.h, src/sw.h and the interfaces Sdk and MlDsa. App/Send is
--     src/helper/send_response.c, App/Address src/address.c, App/Display the reviews of src/ui,
--     App/Validate src/ui/action/validate.c and the review_choice callbacks, App/Handlers src/handler,
--     App/Dispatcher src/apdu/dispatcher.c, App/Main src/app_main.c and the switches of
--     src/ui/menu_nbgl.c, App/Wipe nvm_zero and wipe_nvm_secrets of src/mldsa87/sign.c. Their children
--     prove.
--   Examples: an SDK and a signature scheme with all that is asked of them, and the theorems there.
--
-- How the state corresponds: the C globals G_context, N_storage, the pending screen and the answers sent
-- are the fields of one World; a handler is a function from a World to a World, and a run is a list of
-- events (a command, a choice, a switch). A read through a pointer is an Outcome: a value, the error
-- return, or a fault, the read outside the buffer. size_t has 32 or 64 bits in the parser
-- and 32 in the formatting of amounts, the int that counts an item's bytes has 32, uint32_t and uint64_t wrap
-- around as written out; uint8_t values are numbers, taken to be bytes where a theorem says so.
--
-- In the lattice code an int32_t is its bit pattern, a polynomial the list of its coefficients, and a
-- routine gives what it writes: Nvm has the polynomials of N_storage that signing works in.
--
-- Fuel: nvm_zero runs its loop at most len times, which is enough since every round moves on; the loop
-- of uint8_array_to_decimal runs at most 97 times, as in the C code, enough for 40 bytes. The samplers
-- read from SHAKE until they have enough; they may take as many refills as there is fuel, and have no
-- result (none) where that is not enough. The 814 attempts of signing are counted, as in the C code.
--
-- Parameters: the SDK's buffer, parsing and key derivation functions (Sdk). For the application's
-- theorems ML-DSA-87 is the interface MlDsa, whose key generation writes t1 and the public key, as
-- Sign/Frame shows of its code; Sign models that code by itself, with the derived bytes and the fresh
-- randomness as arguments. Sending an answer is taken to succeed. Not modelled: the pages of
-- the user interface, PRINTF, null pointers, the clearing of secrets in RAM.
pub mod Prelude
pub mod Rlp
pub mod TxFormat
pub mod Keccak
pub mod Address
pub mod Word32
pub mod Reduce
pub mod Rounding
pub mod Ntt
pub mod Poly
pub mod Polyvec
pub mod Signature
pub mod Sign
pub mod App
mod Examples
