-- ===== src/Common/Strings/Decimal.antt =====
-- Decimal text: `std::to_string` of an unsigned number, as the option replies use it.
use native.Mathlib.Nat.{pow-suc}
use server_fw.Prelude.{
  ◌^◌, ℕ, zero, suc, ◌+◌, ◌/◌, ◌%◌, ◌<◌, ◌≤◌, ◌≡◌, ◌∙◌, ap, true, [], ◌∷◌, ltb, if◌then◌else◌, ok,
  inl, inr, Bool-cases, ltb→lt, le→leb, arith, length,
}
use server_fw.Prelude.Text.{Bytes, NoZero}
use server_fw.Common.Strings.{
  digits_value, is_digit_str, all_digits, is_digit, stoi_digits, int_max,
}

-- The digits of `n` in front of `out`; each round takes the last one off.
dec : ℕ → ℕ → Bytes → Bytes
dec zero n out = out
dec (suc fuel) n out =
    let digit = b'0' + n % 10 in
    let rest = dec fuel (n / 10) (digit ∷ out) in if ltb n 10 then digit ∷ out else rest

unfoldable pub to_string : ℕ → Bytes
unfolding dec
to_string n = dec (suc n) n []

digits_value-dec :
    (fuel n : ℕ) (out : Bytes) → n < fuel → digits_value 0 (dec fuel n out) ≡ digits_value n out
unfolding dec
digits_value-dec zero n out h = absurd (omega arith)
digits_value-dec (suc fuel) n out h = elim (Bool-cases (ltb n 10)) [
  | inl small ↦ rw small (ap (λ (v : ℕ). digits_value v out) (omega (arith, ltb→lt n 10 small)))
  | inr large ↦ rw large (
      digits_value-dec fuel (n / 10) ((b'0' + n % 10) ∷ out) (ground arith)
      ∙ ap (λ (v : ℕ). digits_value v out) (omega arith))
]

all_digits-dec :
    (fuel n : ℕ) (out : Bytes) → n < fuel → all_digits true (dec fuel n out) ≡ all_digits true out
unfolding dec all_digits is_digit
all_digits-dec zero n out h = absurd (omega arith)
all_digits-dec (suc fuel) n out h =
    ground (arith, all_digits-dec fuel (n / 10) ((b'0' + n % 10) ∷ out))

length-dec-le : (fuel n : ℕ) (out : Bytes) → length out ≤ length (dec fuel n out)
unfolding dec
length-dec-le zero n out = omega arith
length-dec-le (suc fuel) n out = ground (arith, length-dec-le fuel (n / 10) ((b'0' + n % 10) ∷ out))

NoZero-dec : (fuel n : ℕ) (out : Bytes) → NoZero out → NoZero (dec fuel n out)
unfolding dec
NoZero-dec zero n out h = h
NoZero-dec (suc fuel) n out h =
    ground (arith, NoZero-dec fuel (n / 10) ((b'0' + n % 10) ∷ out) (omega arith, h))

pub NoZero-to_string : (n : ℕ) → NoZero (to_string n)
unfolding to_string
NoZero-to_string n = NoZero-dec (suc n) n [] tt

pub is_digit_str-to_string : (n : ℕ) → is_digit_str (to_string n) ≡ true
unfolding to_string is_digit_str dec is_digit
is_digit_str-to_string n = ground (
  arith,
  all_digits-dec (suc n) n [] (omega arith),
  length-dec-le n (n / 10) ((b'0' + n % 10) ∷ []),
)

pub digits_value-to_string : (n : ℕ) → digits_value 0 (to_string n) ≡ n
unfolding to_string
digits_value-to_string n = digits_value-dec (suc n) n [] (omega arith)

-- What `std::to_string` writes, `std::stoi` reads back, for every value that an `int` holds.
pub stoi_digits-to_string : (n : ℕ) → n ≤ int_max → stoi_digits (to_string n) ≡ ok n
unfolding stoi_digits
stoi_digits-to_string n h = rw (digits_value-to_string n, le→leb n int_max h)

length-dec :
    (k fuel n : ℕ) (out : Bytes)
    → n < 10 ^ suc k
    → n < fuel
    → length (dec fuel n out) ≤ suc k + length out
unfolding dec
length-dec k zero n out h f = absurd (omega arith)
length-dec zero (suc fuel) n out h f = ground arith
length-dec (suc k) (suc fuel) n out h f =
    ground (
      arith,
      length-dec k fuel (n / 10) ((b'0' + n % 10) ∷ out) (omega (arith, pow-suc 10 (suc k))),
    )

-- A number below a power of ten has no more digits than that power.
pub length-to_string-below : (k n : ℕ) → n < 10 ^ suc k → length (to_string n) ≤ suc k
unfolding to_string
length-to_string-below k n h = omega (arith, length-dec k (suc n) n [] h)

-- Ten digits are enough for an `int`.
pub length-to_string : (n : ℕ) → n ≤ int_max → length (to_string n) ≤ 10
unfolding to_string
length-to_string n h = omega (arith, length-dec 9 (suc n) n [])
