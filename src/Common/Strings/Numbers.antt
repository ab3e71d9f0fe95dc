-- ===== src/Common/Strings/Numbers.antt =====
-- `std::stoul` and `std::stoi` of any text, as source/tftpAddr.cpp and source/tftpSettings.cpp call
-- them, in base 8 or 10. An `int` is its pattern of 32 bits.
use server_fw.Prelude.{
  ℕ, ◌+◌, ◌-◌, ◌*◌, ◌%◌, ◌^◌, ◌<◌, ◌≤◌, ◌≡◌, refl, ap, ◌∙◌, arith, Bool, true, false, ◌&&◌, ◌||◌,
  [], ◌∷◌, length, ltb, leb, ◌==◌, if◌then◌else◌, Result, ok, err, invalid_argument, out_of_range,
}
use server_fw.Prelude.Text.{Bytes}
use server_fw.Common.Strings.{is_digit, is_digit_str, all_digits, digits_value, int_max}
use server_fw.Common.Strings.Decimal.{to_string, is_digit_str-to_string, digits_value-to_string}

-- `std::isspace`
abbrev pub is_space : ℕ → Bool
is_space c = c == b' ' || (leb 9 c && leb c 13)

abbrev pub skip_spaces : Bytes → Bytes
skip_spaces [] = []
skip_spaces (c ∷ cs) = let rest = skip_spaces cs in if is_space c then rest else c ∷ cs

-- Whether a minus stands in front, and the text behind the sign.
abbrev pub sign : Bytes → Bool × Bytes
sign [] = (false, [])
sign (c ∷ cs) = if c == b'-' then (true, cs) else if c == b'+' then (false, cs) else (false, c ∷ cs)

-- The digits of a base in front of a text.
abbrev pub digit_run : ℕ → Bytes → Bytes
digit_run base [] = []
digit_run base (c ∷ cs) =
    let rest = digit_run base cs in if leb b'0' c && ltb (c - b'0') base then c ∷ rest else []

abbrev pub value_in : ℕ → ℕ → Bytes → ℕ
value_in base acc [] = acc
value_in base acc (c ∷ cs) = value_in base (acc * base + (c - b'0')) cs

abbrev number : ℕ → Bytes → Bool × Bytes
number base s = let (minus, cs) = sign (skip_spaces s) in (minus, digit_run base cs)

-- The value of `strtoul`: a number with a minus is negated.
abbrev as_unsigned : Bool → ℕ → Result ℕ
as_unsigned minus v =
    if leb v (2 ^ 64 - 1) then ok (if minus then (2 ^ 64 - v) % 2 ^ 64 else v) else err out_of_range

abbrev as_int : Bool → ℕ → Result ℕ
as_int minus v =
    if leb v (if minus then 2 ^ 31 else int_max)
    then ok (if minus then (2 ^ 32 - v) % 2 ^ 32 else v)
    else err out_of_range

unfoldable pub stoul : Bytes → Result ℕ
stoul s =
    let (minus, digits) = number 10 s in
    if length digits == 0 then err invalid_argument else as_unsigned minus (value_in 10 0 digits)

unfoldable pub stoi : ℕ → Bytes → Result ℕ
stoi base s =
    let (minus, digits) = number base s in
    if length digits == 0 then err invalid_argument else as_int minus (value_in base 0 digits)

value_in-ten : (acc : ℕ) (s : Bytes) → value_in 10 acc s ≡ digits_value acc s
value_in-ten acc [] = refl
value_in-ten acc (c ∷ cs) = value_in-ten (acc * 10 + (c - b'0')) cs

pub all_digits-false : (s : Bytes) → all_digits false s ≡ false
unfolding all_digits
all_digits-false [] = refl
all_digits-false (c ∷ cs) = all_digits-false cs

digit_run-all : (s : Bytes) → all_digits true s ≡ true → digit_run 10 s ≡ s
unfolding all_digits is_digit
digit_run-all [] h = refl
digit_run-all (c ∷ cs) h = ground (arith, digit_run-all cs, all_digits-false cs)

number-digits : (s : Bytes) → is_digit_str s ≡ true → number 10 s ≡ (false, s)
unfolding is_digit_str all_digits is_digit
number-digits [] h = ground arith
number-digits (c ∷ cs) h = ground (arith, digit_run-all (c ∷ cs), all_digits-false cs)

-- A text of digits stands for its number, if that is below 2 ^ 64.
pub stoul-digits :
    (s : Bytes)
    → is_digit_str s ≡ true
    → digits_value 0 s < 2 ^ 64
    → stoul s ≡ ok (digits_value 0 s)
unfolding stoul is_digit_str
stoul-digits s h b = ground (arith, number-digits s h, value_in-ten 0 s)

pub stoul-to_string : (n : ℕ) → n < 2 ^ 64 → stoul (to_string n) ≡ ok n
stoul-to_string n h =
    stoul-digits (to_string n) (is_digit_str-to_string n) (omega (arith, digits_value-to_string n))
    ∙ ap ok (digits_value-to_string n)

-- A number that an `int` holds is read back by `std::stoi` as well.
pub stoi-to_string : (n : ℕ) → n ≤ int_max → stoi 10 (to_string n) ≡ ok n
unfolding stoi is_digit_str
stoi-to_string n h = ground (
  arith,
  number-digits (to_string n) (is_digit_str-to_string n),
  is_digit_str-to_string n,
  value_in-ten 0 (to_string n),
  digits_value-to_string n,
)

-- A result of `std::stoi` is the pattern of an `int`.
pub stoi_bound : (base : ℕ) (s : Bytes) {v : ℕ} → stoi base s ≡ ok v → v < 2 ^ 32
unfolding stoi
stoi_bound base s e = ground arith
