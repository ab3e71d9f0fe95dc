-- ===== src/Common/Strings.antt =====
-- source/tftpCommon.cpp: `do_lower` and `is_digit_str`, with the character functions of the C
-- locale; and `std::stoi`, `std::to_string` on what these let through.
pub mod Decimal
pub mod Numbers
use server_fw.Prelude.{
  ℕ, ◌+◌, ◌-◌, ◌*◌, ◌^◌, Bool, true, false, ◌&&◌, [], ◌∷◌, map, length, leb, ◌==◌, if◌then◌else◌,
  Result, ok, err, out_of_range,
}
use server_fw.Prelude.Text.{Bytes}

-- `std::tolower`
unfoldable pub to_lower : ℕ → ℕ
to_lower c = if leb b'A' c && leb c b'Z' then c + 32 else c

unfoldable pub do_lower : Bytes → Bytes
unfolding to_lower
do_lower val = map to_lower val

-- `std::isdigit`
unfoldable pub is_digit : ℕ → Bool
is_digit c = leb b'0' c && leb c b'9'

-- The `std::accumulate` of `is_digit_str`.
unfoldable pub all_digits : Bool → Bytes → Bool
all_digits l [] = l
all_digits l (c ∷ cs) = all_digits (l && is_digit c) cs

unfoldable pub is_digit_str : Bytes → Bool
unfolding all_digits is_digit
is_digit_str val = if length val == 0 then false else all_digits true val

-- The number that a string of digits stands for.
abbrev pub digits_value : ℕ → Bytes → ℕ
digits_value acc [] = acc
digits_value acc (c ∷ cs) = digits_value (acc * 10 + (c - b'0')) cs

abbrev pub int_max : ℕ
int_max = 2 ^ 31 - 1

-- `std::stoi` of a string of digits.
unfoldable pub stoi_digits : Bytes → Result ℕ
stoi_digits s = if leb (digits_value 0 s) int_max then ok (digits_value 0 s) else err out_of_range
