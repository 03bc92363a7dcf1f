-- ===== src/Decoding.antt =====
-- encoding.rs: the canonical reader, as the bytes that are left and the offset of the next. The
-- sum of an offset and a length is taken not to overflow a `usize`: it does not before memory ends.
pub mod RoundTrip
use coupery_ksnf.Base.{
  ℕ, zero, suc, ◌+◌, ◌*◌, ◌≡◌, Bool, true, false, List, [], ◌∷◌, length, head?, leb, if◌then◌else◌,
}
use coupery_ksnf.Outcome.{Result, ok, err, ◌>>=◌, or_fail, unexpected_end, trailing_bytes}

pub record Decoder : Type 0 where
  pub left : List ℕ
  pub offset : ℕ

-- `from_be_bytes`, with the value of the bytes before.
unfoldable pub from_be_bytes : ℕ → List ℕ → ℕ
from_be_bytes high [] = high
from_be_bytes high (b ∷ bs) = from_be_bytes (high * 256 + b) bs

abbrev pub take : ℕ → List ℕ → List ℕ
take zero bytes = []
take (suc n) [] = []
take (suc n) (b ∷ bs) = b ∷ take n bs

abbrev pub drop : ℕ → List ℕ → List ℕ
drop zero bytes = bytes
drop (suc n) [] = []
drop (suc n) (b ∷ bs) = drop n bs

-- `Decoder::for_profile`
abbrev pub decoder : List ℕ → Decoder
decoder input = record { left = input; offset = 0 }

-- `Decoder::read_slice`, and `read` at a fixed length.
unfoldable pub read_slice : ℕ → Decoder → Result (List ℕ × Decoder)
read_slice len d =
    if leb len (length d.left)
    then ok (take len d.left, record { left = drop len d.left; offset = d.offset + len })
    else err (unexpected_end d.offset len)

-- `Decoder::get_u8`, `get_u16`, `get_u32`, `get_u64`, and `get_fixed` of an identifier: `width`
-- bytes as a number.
unfoldable pub get_number : ℕ → Decoder → Result (ℕ × Decoder)
unfolding read_slice from_be_bytes
get_number width d = do (bytes, rest) ← read_slice width d; ok (from_be_bytes 0 bytes, rest)

-- `Decoder::get_bytes`
unfoldable pub get_bytes : Decoder → Result (List ℕ × Decoder)
unfolding get_number
get_bytes d = do (len, rest) ← get_number 4 d; read_slice len rest

-- `Decoder::finish`
unfoldable pub finish : Decoder → Result (Unit {0})
finish d = elim d.left [ [] ↦ ok tt | b ∷ bs ↦ err (trailing_bytes d.offset) ]
