-- ===== src/Encoding.antt =====
-- encoding.rs: the canonical writer. A writer's state is the list of the bytes written, and a
-- method that writes appends to it; here each method is the list that it appends.
use coupery_ksnf.Base.{ℕ, zero, suc, ◌/◌, ◌%◌, ◌^◌, List, [], ◌∷◌, ◌++◌, length, ltb, if◌then◌else◌}
use coupery_ksnf.Outcome.{Result, ok, err, length_overflow}

-- `to_be_bytes`: the low `width` bytes of a number, the most significant first.
unfoldable pub to_be_bytes : ℕ → ℕ → List ℕ
to_be_bytes zero n = []
to_be_bytes (suc width) n = to_be_bytes width (n / 256) ++ (n % 256) ∷ []

abbrev pub put_u8 : ℕ → List ℕ
put_u8 n = n ∷ []

abbrev pub put_u16 : ℕ → List ℕ
put_u16 = to_be_bytes 2

abbrev pub put_u32 : ℕ → List ℕ
put_u32 = to_be_bytes 4

abbrev pub put_u64 : ℕ → List ℕ
put_u64 = to_be_bytes 8

-- `put_fixed` of an identifier's 32 bytes.
abbrev pub put_id : ℕ → List ℕ
put_id = to_be_bytes 32

unfoldable pub put_bytes : List ℕ → Result (List ℕ)
put_bytes bytes =
    if ltb (length bytes) (2 ^ 32)
    then ok (put_u32 (length bytes) ++ bytes)
    else err length_overflow

-- `u16::try_from(count)`
unfoldable pub count_u16 : ℕ → Result ℕ
count_u16 n = if ltb n (2 ^ 16) then ok n else err length_overflow

-- A loop that writes each value of a list.
abbrev pub concat_map : {A : Type 0} → (A → List ℕ) → List A → List ℕ
concat_map write [] = []
concat_map write (x ∷ xs) = write x ++ concat_map write xs
