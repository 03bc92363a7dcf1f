-- ===== src/Reader/Reads.antt =====
-- What a reader takes from the front of its input, one rule for each way to build a reader.
use coupery_ksnf.Base.{
  ℕ, ◌+◌, ◌^◌, ◌<◌, ◌≡◌, refl, sym, ◌∙◌, ap, subst, Bool, false, List, [], ◌∷◌, ◌++◌, length,
  length-append, arith,
}
use coupery_ksnf.Outcome.{Error, Result, ok, fail_if}
use coupery_ksnf.Encoding.{to_be_bytes, put_bytes, concat_map}
use coupery_ksnf.Decoding.{Decoder, decoder, read_slice, get_number, get_bytes, finish}
use coupery_ksnf.Decoding.RoundTrip.{read_slice-append, get_number-to_be_bytes, length-to_be_bytes}
use coupery_ksnf.Reader.{Reader, give, lift, reject, ◌>>=◌, ◌>>◌, read_many, read_all}

-- `m` takes `bytes` from the front of any input and returns `x`.
pub record Reads {A : Type 0} (m : Reader A) (bytes : List ℕ) (x : A) : Type 0 where
  pub at :
      (rest : List ℕ) (offset : ℕ)
      → m (record { left = bytes ++ rest; offset = offset })
        ≡ ok (x, record { left = rest; offset = offset + length bytes })

append_nil : {A : Type 0} (xs : List A) → xs ++ [] ≡ xs
append_nil [] = refl
append_nil (x ∷ xs) = ap (λ l. x ∷ l) (append_nil xs)

append_assoc : {A : Type 0} (xs ys zs : List A) → (xs ++ ys) ++ zs ≡ xs ++ (ys ++ zs)
append_assoc [] ys zs = refl
append_assoc (x ∷ xs) ys zs = ap (λ l. x ∷ l) (append_assoc xs ys zs)

pub Reads-give : {A : Type 0} (x : A) → Reads (give x) [] x
unfolding give
Reads-give x = record {
  at = λ rest offset. ap (λ n. ok (x, record { left = rest; offset = n })) (omega arith);
}

pub Reads-lift : {A : Type 0} (r : Result A) (x : A) → r ≡ ok x → Reads (lift r) [] x
unfolding lift
Reads-lift r x h = record { at = λ rest offset. ground (arith, h) }

pub Reads-bind :
    {A B : Type 0} {m : Reader A} (f : A → Reader B) {bytes later : List ℕ} {x : A} {y : B}
    → Reads m bytes x
    → Reads (f x) later y
    → Reads (m >>= f) (bytes ++ later) y
unfolding ◌>>=◌
Reads-bind {A} {B} {m} f {bytes} {later} {x} {y} first next = record {
  at = λ rest offset.
      subst
        (λ l.
          (m >>= f) (record { left = l; offset = offset })
          ≡ ok (y, record { left = rest; offset = offset + length (bytes ++ later) }))
        (sym (append_assoc bytes later rest))
        (ground (
          arith,
          first.at (later ++ rest) offset,
          next.at rest (offset + length bytes),
          length-append bytes later,
        ));
}

-- The last step that reads.
pub Reads-last :
    {A B : Type 0} {m : Reader A} (f : A → Reader B) {bytes : List ℕ} {x : A} {y : B}
    → Reads m bytes x
    → Reads (f x) [] y
    → Reads (m >>= f) bytes y
Reads-last {A} {B} {m} f {bytes} {x} {y} first next =
    subst (λ l. Reads (m >>= f) l y) (append_nil bytes) (Reads-bind f first next)

-- The last step of a reader, whose result only wraps what was read.
pub Reads-end :
    {A B : Type 0} {m : Reader A} (f : A → B) {bytes : List ℕ} {x : A}
    → Reads m bytes x
    → Reads (m >>= λ a. give (f a)) bytes (f x)
Reads-end {A} {B} {m} f {bytes} {x} first = Reads-last (λ a. give (f a)) first (Reads-give (f x))

-- A step that reads nothing.
pub Reads-lift_bind :
    {A B : Type 0} (r : Result A) (f : A → Reader B) (bytes : List ℕ) (x : A) (y : B)
    → r ≡ ok x
    → Reads (f x) bytes y
    → Reads (lift r >>= f) bytes y
Reads-lift_bind r f bytes x y h next = Reads-bind f (Reads-lift r x h) next

-- A guard that passes.
pub Reads-reject :
    {B : Type 0} (c : Bool) (e : Error) (n : Reader B) (bytes : List ℕ) (y : B)
    → c ≡ false
    → Reads n bytes y
    → Reads (reject c e >> n) bytes y
Reads-reject c e n bytes y h next =
    Reads-lift_bind (fail_if c e) (λ _. n) bytes tt y (ground (arith, h)) next

pub Reads-read_slice :
    (n : ℕ) (bytes : List ℕ) → length bytes ≡ n → Reads (read_slice n) bytes bytes
Reads-read_slice n bytes h = record {
  at = λ rest offset.
      read_slice-append n bytes rest offset h
      ∙ ap (λ k. ok (bytes, record { left = rest; offset = offset + k })) (sym h);
}

pub Reads-get_number :
    (width n : ℕ) → n < 256 ^ width → Reads (get_number width) (to_be_bytes width n) n
Reads-get_number width n h = record {
  at = λ rest offset.
      get_number-to_be_bytes width n rest offset h
      ∙ ap (λ k. ok (n, record { left = rest; offset = offset + k }))
          (sym (length-to_be_bytes width n));
}

-- A step whose result another check makes of what was read.
pub Reads-check :
    {A B : Type 0} (m : Reader A) (check : A → Result B) (bytes : List ℕ) (x : A) (y : B)
    → Reads m bytes x
    → check x ≡ ok y
    → Reads (m >>= λ a. lift (check a)) bytes y
Reads-check m check bytes x y first h =
    Reads-last (λ a. lift (check a)) first (Reads-lift (check x) y h)

get_bytes-bind : (d : Decoder) → get_bytes d ≡ (get_number 4 >>= read_slice) d
unfolding get_bytes ◌>>=◌
get_bytes-bind d = ground arith

-- A byte string that `put_bytes` has framed.
pub Reads-get_bytes :
    (bytes framed : List ℕ) → put_bytes bytes ≡ ok framed → Reads get_bytes framed bytes
unfolding put_bytes
Reads-get_bytes bytes framed h =
    let short : length bytes < 2 ^ 32 = ground arith in
    let is : to_be_bytes 4 (length bytes) ++ bytes ≡ framed = ground arith in
    subst (λ l. Reads get_bytes l bytes) is
      (record {
        at = λ rest offset.
            get_bytes-bind _
            ∙ (Reads-bind read_slice (Reads-get_number 4 (length bytes) (omega (arith, short)))
                  (Reads-read_slice (length bytes) bytes refl)).at
                rest offset;
      })

-- `m` reads each value from the bytes that `write` writes for it.
abbrev pub EachReads : {A : Type 0} → Reader A → (A → List ℕ) → List A → Type 0
EachReads m write [] = Unit
EachReads m write (x ∷ xs) = Reads m (write x) x × EachReads m write xs

pub Reads-read_many :
    {A : Type 0} (m : Reader A) (write : A → List ℕ) (xs : List A)
    → EachReads m write xs
    → Reads (read_many (length xs) m) (concat_map write xs) xs
unfolding read_many
Reads-read_many m write [] each = Reads-give []
Reads-read_many {A} m write (x ∷ xs) (first, each) =
    Reads-bind _ first (Reads-end (λ ys. x ∷ ys) (Reads-read_many m write xs each))

-- A reader on exactly its bytes.
pub Reads-read_all :
    {A : Type 0} (m : Reader A) (bytes : List ℕ) (x : A) → Reads m bytes x → read_all m bytes ≡ ok x
unfolding read_all finish
Reads-read_all m bytes x h =
    let whole : m (decoder bytes) ≡ ok (x, record { left = []; offset = length bytes }) =
      ap (λ l. m (record { left = l; offset = 0 })) (sym (append_nil bytes))
      ∙ h.at [] 0
      ∙ ap (λ n. ok (x, record { left = []; offset = n })) (omega arith) in
    ground (arith, whole)
