-- ===== src/SmBuf.antt =====
-- source/tftpSmBuf.h and source/tftpSmBuf.cpp: class `SmBuf`, a byte vector that is read and written
-- at an offset. A buffer is the list of its bytes; a method that changes it returns the new one.
-- `size_t` sums wrap at 2 ^ 64. The integer type `T` of a template is given by its `sizeof`, and a
-- value of it by its bit pattern.
pub mod Words
pub mod Texts
use server_fw.Prelude.{
  ℕ, zero, suc, ◌+◌, ◌-◌, ◌*◌, ◌/◌, ◌%◌, ◌^◌, Bool, true, false, ◌&&◌, ◌||◌, List, [], ◌∷◌, ◌++◌,
  reverse, length, take, drop, slice, put, get_elem?, ltb, leb, ◌==◌, if◌then◌else◌, Result, ok,
  err, ◌>>=◌, ◌>>◌, guard, invalid_argument, undefined, some, Option,
}
use server_fw.Prelude.Text.{Bytes, text_eq}

abbrev pub size_mod : ℕ
size_mod = 2 ^ 64

unfoldable pub is_valid : Bytes → ℕ → ℕ → Bool
is_valid buf offset t_size =
    ltb offset (length buf) && leb ((offset + t_size) % size_mod) (length buf)

unfoldable pub check_offset : Bytes → ℕ → ℕ → Result (Unit {0})
check_offset buf offset t_size = guard (is_valid buf offset t_size) invalid_argument

-- A number from its bytes, the lowest first, and back.
abbrev pub le_value : Bytes → ℕ
le_value [] = 0
le_value (b ∷ bs) = b + 256 * le_value bs

abbrev pub to_le : ℕ → ℕ → Bytes
to_le zero val = []
to_le (suc n) val = (val % 256) ∷ to_le n (val / 256)

-- The same with the highest byte first, as `be16toh` and `htobe16` have it.
abbrev pub be_value : Bytes → ℕ
be_value bs = le_value (reverse bs)

abbrev pub to_be : ℕ → ℕ → Bytes
to_be n val = reverse (to_le n val)

-- The sizes that the `switch` of each accessor has a case for.
abbrev pub is_int_size : ℕ → Bool
is_int_size n = n == 1 || n == 2 || n == 4 || n == 8

unfoldable pub get_be : ℕ → Bytes → ℕ → Result ℕ
unfolding check_offset
get_be n buf offset = do
  check_offset buf offset n
  guard (is_int_size n) invalid_argument
  ok (be_value (slice buf offset n))

unfoldable pub get_le : ℕ → Bytes → ℕ → Result ℕ
unfolding check_offset
get_le n buf offset = do
  check_offset buf offset n
  guard (is_int_size n) invalid_argument
  ok (le_value (slice buf offset n))

-- The new buffer and the returned size.
unfoldable pub set_be : ℕ → Bytes → ℕ → ℕ → Result (Bytes × ℕ)
unfolding check_offset
set_be n buf offset val = do
  check_offset buf offset n
  guard (is_int_size n) invalid_argument
  ok (put buf offset (to_be n val), n)

unfoldable pub set_le : ℕ → Bytes → ℕ → ℕ → Result (Bytes × ℕ)
unfolding check_offset
set_le n buf offset val = do
  check_offset buf offset n
  guard (is_int_size n) invalid_argument
  ok (put buf offset (to_le n val), n)

-- `std::find` of zero: the bytes in front of it.
abbrev pub until_zero : Bytes → Bytes
until_zero [] = []
until_zero (c ∷ cs) = if c == 0 then [] else c ∷ until_zero cs

-- A length of 0 means up to the end. A range whose end wraps in front of its begin has no
-- defined result.
unfoldable pub get_string : Bytes → ℕ → ℕ → Result Bytes
unfolding check_offset
get_string buf offset buf_len = do
  check_offset buf offset buf_len
  guard (leb (offset + buf_len) (length buf)) undefined
  ok (until_zero (if buf_len == 0 then drop offset buf else slice buf offset buf_len))

-- The text that is copied, and the zero behind it.
abbrev pub stored_text : Bytes → Bool → Bytes
stored_text str check_zero_end = if check_zero_end then until_zero str ++ 0 ∷ [] else str

unfoldable pub set_string : Bytes → ℕ → Bytes → Bool → Result (Bytes × ℕ)
unfolding check_offset
set_string buf offset str check_zero_end = do
  let text = stored_text str check_zero_end
  check_offset buf offset (length text)
  ok (put buf offset text, length text)

unfoldable pub eqv_string : Bytes → ℕ → Bytes → Bool → Bool
unfolding is_valid
eqv_string buf offset str check_zero_end =
    is_valid buf offset (length str + (if check_zero_end then 1 else 0))
    && text_eq (slice buf offset (length str)) str
    && (if check_zero_end then text_eq (slice buf (offset + length str) 1) (0 ∷ []) else true)
