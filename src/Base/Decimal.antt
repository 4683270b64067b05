-- ===== src/Base/Decimal.antt =====
-- Decimal text: `std::ostream << uint64_t` and `std::to_string`, and the digit loops that read it.
use gateway_poc.Base.{
  ℕ, zero, suc, ◌+◌, ◌-◌, ◌*◌, ◌/◌, ◌%◌, ◌^◌, ◌≤◌, ◌<◌, ◌≡◌, refl, ap, Bool, false, ◌&&◌, [], ◌∷◌,
  ◌++◌, arith, ltb, leb, if◌then◌else◌, All, replicate, length,
}
use gateway_poc.Base.Bytes.{Bytes}

-- The digits of `n` in front of `out`; more rounds than `n` are enough.
digits_of : ℕ → ℕ → Bytes → Bytes
digits_of zero n out = out
digits_of (suc rounds) n out =
    let rest = digits_of rounds (n / 10) ((b'0' + n % 10) ∷ out) in
    if ltb n 10 then (b'0' + n) ∷ out else rest

unfoldable pub to_string : ℕ → Bytes
unfolding digits_of
to_string n = digits_of (suc n) n []

-- `std::setw(w) << std::setfill('0')`: never cuts a longer text.
unfoldable pub pad : ℕ → Bytes → Bytes
pad w s = replicate (w - length s) b'0' ++ s

-- `std::isdigit`
abbrev pub is_digit : ℕ → Bool
is_digit c = leb b'0' c && leb c b'9'

abbrev pub IsDigit : ℕ → Type 0
IsDigit c = (b'0' ≤ c) × (c ≤ b'9')

-- The text is at an end, or goes on with a byte that is no digit.
abbrev pub EndsNumber : Bytes → Type 0
EndsNumber [] = Unit {0}
EndsNumber (c ∷ s) = is_digit c ≡ false

-- `for (; i < len && isdigit(str[i]); ++i) n = n * 10 + (str[i] - '0');` in `uint64_t`, over the
-- bytes from `i` on: the number, and the bytes where the loop stopped.
unfoldable pub read_digits : ℕ → Bytes → ℕ × Bytes
read_digits n [] = (n, [])
read_digits n (c ∷ s) =
    if is_digit c then read_digits ((n * 10 + (c - b'0')) % 2 ^ 64) s else (n, c ∷ s)

read-digits_of :
    (rounds n : ℕ) (out : Bytes)
    → n < rounds
    → n < 2 ^ 64
    → read_digits 0 (digits_of rounds n out) ≡ read_digits n out
unfolding digits_of read_digits
read-digits_of zero n out h fits = absurd (omega arith)
read-digits_of (suc rounds) n out h fits =
    ground (arith, read-digits_of rounds (n / 10) ((b'0' + n % 10) ∷ out))

digits_of-append :
    (rounds n : ℕ) (out rest : Bytes)
    → digits_of rounds n out ++ rest ≡ digits_of rounds n (out ++ rest)
unfolding digits_of
digits_of-append zero n out rest = refl
digits_of-append (suc rounds) n out rest =
    ground (arith, digits_of-append rounds (n / 10) ((b'0' + n % 10) ∷ out) rest)

read-end : (n : ℕ) (rest : Bytes) → EndsNumber rest → read_digits n rest ≡ (n, rest)
unfolding read_digits
read-end n [] h = refl
read-end n (c ∷ s) h = ground arith

-- A printed number is read back, whatever text follows it.
pub read-to_string :
    (n : ℕ) (rest : Bytes)
    → n < 2 ^ 64
    → EndsNumber rest
    → read_digits 0 (to_string n ++ rest) ≡ (n, rest)
unfolding to_string
read-to_string n rest fits h =
    rw (digits_of-append (suc n) n [] rest, read-digits_of (suc n) n rest (omega arith) fits)
      (read-end n rest h)

-- Zeros in front are skipped.
read-zeros : (k : ℕ) (s : Bytes) → read_digits 0 (replicate k b'0' ++ s) ≡ read_digits 0 s
unfolding read_digits
read-zeros zero s = refl
read-zeros (suc k) s = read-zeros k s

append-replicate :
    (k : ℕ) (s rest : Bytes) → (replicate k b'0' ++ s) ++ rest ≡ replicate k b'0' ++ (s ++ rest)
append-replicate zero s rest = refl
append-replicate (suc k) s rest = ap (◌∷◌ b'0') (append-replicate k s rest)

-- Zeros in front do not matter: a padded number is read back.
pub read-pad :
    (w n : ℕ) (rest : Bytes)
    → n < 2 ^ 64
    → EndsNumber rest
    → read_digits 0 (pad w (to_string n) ++ rest) ≡ (n, rest)
unfolding pad
read-pad w n rest fits h =
    let k = w - length (to_string n) in
    rw (append-replicate k (to_string n) rest, read-zeros k (to_string n ++ rest))
      (read-to_string n rest fits h)

digits_of-IsDigit :
    (rounds n : ℕ) (out : Bytes) → All IsDigit out → All IsDigit (digits_of rounds n out)
unfolding digits_of
digits_of-IsDigit zero n out h = h
digits_of-IsDigit (suc rounds) n out h =
    ground (arith, digits_of-IsDigit rounds (n / 10) ((b'0' + n % 10) ∷ out))

pub to_string-IsDigit : (n : ℕ) → All IsDigit (to_string n)
unfolding to_string
to_string-IsDigit n = digits_of-IsDigit (suc n) n [] tt

to_string_max : read_digits 0 (to_string 18446744073709551615) ≡ (18446744073709551615, [])
unfolding to_string read_digits
to_string_max = refl
