-- ===== src/Codec.antt =====
-- Readers over a byte slice, and the codec interface that stands for the `bitcoin` crate's traits
-- `Encodable` and `Decodable`, which the crates `types` and `receipts` implement for their types.
pub mod Bytes
pub mod Bitcoin
use lrc.Common.{ℕ, ◌≡◌, List, ◌++◌, String}
use lrc.Outcome.{Result, ok, err}
use lrc.Outcome

-- A `Cursor` or `&mut R`: the bytes not yet read go in and come out.
abbrev pub Reader : Type 0 → Type 0 → Type 0
Reader E A = List ℕ → Result E (A × List ℕ)

infixl 5 ◌>>=◌
abbrev pub ◌>>=◌ : {E A B : Type 0} → Reader E A → (A → Reader E B) → Reader E B
◌>>=◌ m f bs = Outcome.◌>>=◌ (m bs) (λ p. f p.0 p.1)

abbrev pub pure : {E A : Type 0} → A → Reader E A
pure a bs = ok (a, bs)

abbrev pub fail : {E A : Type 0} → E → Reader E A
fail e bs = err e

-- Run a computation that reads nothing.
abbrev pub lift : {E A : Type 0} → Result E A → Reader E A
lift (ok a) bs = ok (a, bs)
lift (err e) bs = err e

-- `bitcoin::consensus::encode::Error`, in the variants that the program makes or passes on. `io`
-- stands for `Error::Io`, whatever its kind.
pub data EncodeError : Type 0 where
  io : EncodeError
  parse_failed : String → EncodeError

-- What is written by `consensus_encode`, and `consensus_decode`. A write into memory cannot fail;
-- the number of bytes that `consensus_encode` returns beside is the length of the list.
pub record Codec (A : Type 0) : Type 0 where
  pub encode : A → List ℕ
  pub decode : Reader EncodeError A

-- Decoding what was encoded gives the value back and leaves whatever follows.
abbrev pub RoundTrips : {A : Type 0} → Codec A → (A → Type 0) → Type 0
RoundTrips {A} c P = (a : A) → P a → (rest : List ℕ) → c.decode (c.encode a ++ rest) ≡ ok (a, rest)
