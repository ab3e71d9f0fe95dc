-- ===== src/SmBufEx.antt =====
-- source/tftpSmBufEx.h and source/tftpSmBufEx.cpp: class `SmBufEx`, a buffer that values are pushed
-- to, one behind the other. The methods that return nothing return the new object.
pub mod Contents
use server_fw.Prelude.{
  ℕ, ◌+◌, ◌%◌, ◌≤◌, Bool, true, false, not, ◌&&◌, List, [], ◌∷◌, length, take, replicate, leb, ltb,
  if◌then◌else◌, Result, ok, err, ◌>>=◌, ◌>>◌, invalid_argument,
}
use server_fw.Prelude.Text.{Bytes}
use server_fw.SmBuf.{size_mod, set_be, set_le, set_string}

pub record SmBufEx : Type 0 where
  pub buf : Bytes
  pub data_size : ℕ
  pub val_int_bigendian : Bool
  pub val_str_zeroend : Bool

-- The constructor; the vector starts as zeros.
unfoldable pub smbuf_ex : ℕ → Bool → Bool → SmBufEx
smbuf_ex buf_size is_int_be is_str_zero = record {
  buf = replicate buf_size 0;
  data_size = 0;
  val_int_bigendian = is_int_be;
  val_str_zeroend = is_str_zero;
}

-- The defaults of its last two arguments.
abbrev pub default_buf_int_bigendian : Bool
default_buf_int_bigendian = true

abbrev pub default_buf_str_zeroend : Bool
default_buf_str_zeroend = true

abbrev pub clear : SmBufEx → SmBufEx
clear b = record b { data_size = 0 }

abbrev pub is_bigendian : SmBufEx → Bool
is_bigendian b = b.val_int_bigendian

abbrev pub is_littleendian : SmBufEx → Bool
is_littleendian b = not b.val_int_bigendian

abbrev pub is_zeroend : SmBufEx → Bool
is_zeroend b = b.val_str_zeroend

abbrev pub set_bigendian : SmBufEx → SmBufEx
set_bigendian b = record b { val_int_bigendian = true }

abbrev pub set_littleendian : SmBufEx → SmBufEx
set_littleendian b = record b { val_int_bigendian = false }

abbrev pub set_zeroend : SmBufEx → SmBufEx
set_zeroend b = record b { val_str_zeroend = true }

abbrev pub set_not_zeroend : SmBufEx → SmBufEx
set_not_zeroend b = record b { val_str_zeroend = false }

unfoldable pub data_size_reset : SmBufEx → ℕ → Result SmBufEx
data_size_reset b new_size =
    if ltb (length b.buf) new_size
    then err invalid_argument
    else ok (record b { data_size = new_size })

-- An argument of `push_data`: an integer, by the size of its type and its bit pattern, or a text.
pub data Item : Type 0 where
  int : ℕ → ℕ → Item
  text : Bytes → Item

abbrev advance : SmBufEx → Bytes × ℕ → Bool × SmBufEx
advance b (new_buf, len) = (true, record b { buf = new_buf; data_size = b.data_size + len })

push_int : SmBufEx → ℕ → ℕ → Result (Bool × SmBufEx)
push_int b n val = do
  w ← if is_bigendian b then set_be n b.buf b.data_size val else set_le n b.buf b.data_size val
  ok (advance b w)

push_text : SmBufEx → Bytes → Result (Bool × SmBufEx)
push_text b str = do w ← set_string b.buf b.data_size str b.val_str_zeroend; ok (advance b w)

unfoldable pub push_item : SmBufEx → Item → Result (Bool × SmBufEx)
unfolding push_int push_text
push_item b (int n val) =
    if leb ((b.data_size + n) % size_mod) (length b.buf) then push_int b n val else ok (false, b)
push_item b (text str) =
    if leb ((b.data_size + length str) % size_mod) (length b.buf)
    then push_text b str
    else ok (false, b)

-- The fold over the arguments: all are pushed, also behind one that failed.
unfoldable pub push_all : Bool → SmBufEx → List Item → Result (Bool × SmBufEx)
push_all ret b [] = ok (ret, b)
push_all ret b (i ∷ is) = do r ← push_item b i; push_all (r.0 && ret) r.1 is

unfoldable pub push_data : SmBufEx → List Item → Result (Bool × SmBufEx)
unfolding push_all
push_data b args = push_all true b args
