-- ===== src/Io.antt =====
-- `std::io` as the crate uses it: errors, results as values, and polls.
pub mod Streams
pub mod Drive
use simple_http.Base.{ℕ, ◌⊎◌}
use simple_http.Base.Bytes.{Bytes}

-- `io::ErrorKind`; `external` is any kind that only code outside the crate makes.
pub data ErrorKind : Type 0 where
  other invalid_input would_block : ErrorKind
  external : ℕ → ErrorKind

pub record IoError : Type 0 where
  pub kind : ErrorKind
  pub message : Bytes

-- `io::Result<T>`, where it is stored and not returned
abbrev pub IoResult : Type 0 → Type 0
IoResult A = IoError ⊎ A

pub data Poll {ℓ} (A : Type ℓ) : Type ℓ where
  pending : Poll A
  ready : A → Poll A

-- A reader: polled with the length of the buffer, it answers with the bytes that it has put at
-- the front of the buffer, and goes on.
pub record AsyncRead : Type 1 where
  pub Reader : Type 0
  pub poll_read : Reader → ℕ → Poll (IoResult Bytes) × Reader
