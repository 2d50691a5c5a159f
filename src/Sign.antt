-- ===== src/Sign.antt =====
-- ML-DSA-87: src/mldsa87/sign.c. The low-RAM routines, with the parts of N_storage that they write.
-- Their inlined loops are those of poly.c, and have the names of these here. A sampler reads a
-- stream until it has enough; it runs on fuel, `none` where that many refills were not enough.
pub mod Samplers
pub mod Volatile
pub mod Keys
pub mod Frame
pub mod Signing
pub mod Verifying
pub mod Shapes
pub mod Lengths
pub mod Vectors
pub mod Hinted
pub mod Exhausted
pub mod Streams
pub mod Matrix
pub mod Attempt
pub mod Accepted
pub mod Checked
use ledger_app_qrl_v.Prelude.{ℕ, List}

-- What the routines use of N_storage, as polynomials and bytes. `t0` and `buf_verify` are the two
-- views of the union `pack1`, of which only the one written last is read.
pub record Nvm : Type 0 where
  pub t1 : List (List ℕ)
  pub w1 : List (List ℕ)
  pub w0 : List (List ℕ)
  pub h : List (List ℕ)
  pub y : List (List ℕ)
  pub z : List (List ℕ)
  pub cp : List ℕ
  pub t0 : List (List ℕ)
  pub buf_verify : List ℕ
  pub sig : List ℕ
  pub pk : List ℕ
