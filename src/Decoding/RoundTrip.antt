-- ===== src/Decoding/RoundTrip.antt =====
-- What the writer has written, the reader reads.
use coupery_ksnf.Base.{
  ℕ, zero, suc, ◌+◌, ◌*◌, ◌/◌, ◌%◌, ◌^◌, ◌<◌, ◌≡◌, refl, ◌∙◌, ap, subst, List, [], ◌∷◌, ◌++◌,
  length, length-append, arith,
}
use coupery_ksnf.Outcome.{ok, >>=-ok}
use coupery_ksnf.Encoding.{to_be_bytes}
use coupery_ksnf.Decoding.{from_be_bytes, take, drop, read_slice, get_number}

from_be_bytes-append :
    (high : ℕ) (bs : List ℕ) (b : ℕ)
    → from_be_bytes high (bs ++ b ∷ []) ≡ from_be_bytes high bs * 256 + b
unfolding from_be_bytes
from_be_bytes-append high [] b = refl
from_be_bytes-append high (c ∷ bs) b = from_be_bytes-append (high * 256 + c) bs b

pub length-to_be_bytes : (width n : ℕ) → length (to_be_bytes width n) ≡ width
unfolding to_be_bytes
length-to_be_bytes zero n = refl
length-to_be_bytes (suc width) n =
    length-append (to_be_bytes width (n / 256)) (n % 256 ∷ [])
    ∙ omega (arith, length-to_be_bytes width (n / 256))

quotient_lt : (n bound : ℕ) → n < 256 * bound → n / 256 < bound
quotient_lt n bound h = omega arith

pub from_be_bytes-to_be_bytes :
    (width n : ℕ) → n < 256 ^ width → from_be_bytes 0 (to_be_bytes width n) ≡ n
unfolding to_be_bytes from_be_bytes
from_be_bytes-to_be_bytes zero n h = omega arith
from_be_bytes-to_be_bytes (suc width) n h =
    from_be_bytes-append 0 (to_be_bytes width (n / 256)) (n % 256)
    ∙ omega (
      arith,
      from_be_bytes-to_be_bytes width (n / 256) (quotient_lt n (256 ^ width) (grind arith)),
    )

take-append : (xs ys : List ℕ) → take (length xs) (xs ++ ys) ≡ xs
take-append [] ys = refl
take-append (x ∷ xs) ys = ap (λ l. x ∷ l) (take-append xs ys)

drop-append : (xs ys : List ℕ) → drop (length xs) (xs ++ ys) ≡ ys
drop-append [] ys = refl
drop-append (x ∷ xs) ys = drop-append xs ys

pub read_slice-append :
    (n : ℕ) (xs ys : List ℕ) (offset : ℕ)
    → length xs ≡ n
    → read_slice n (record { left = xs ++ ys; offset = offset })
      ≡ ok (xs, record { left = ys; offset = offset + n })
unfolding read_slice
read_slice-append n xs ys offset h =
    subst
      (λ m.
        read_slice m (record { left = xs ++ ys; offset = offset })
        ≡ ok (xs, record { left = ys; offset = offset + m }))
      h (ground (arith, length-append xs ys, take-append xs ys, drop-append xs ys))

pub get_number-to_be_bytes :
    (width n : ℕ) (rest : List ℕ) (offset : ℕ)
    → n < 256 ^ width
    → get_number width (record { left = to_be_bytes width n ++ rest; offset = offset })
      ≡ ok (n, record { left = rest; offset = offset + width })
unfolding get_number
get_number-to_be_bytes width n rest offset h =
    >>=-ok (read_slice width (record { left = to_be_bytes width n ++ rest; offset = offset })) _
      (read_slice-append width (to_be_bytes width n) rest offset (length-to_be_bytes width n))
      (ap (λ x. ok (x, record { left = rest; offset = offset + width }))
        (from_be_bytes-to_be_bytes width n h))
