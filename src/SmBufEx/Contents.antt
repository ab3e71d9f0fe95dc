-- ===== src/SmBufEx/Contents.antt =====
-- What a `SmBufEx` holds: the first `data_size` bytes of its buffer. A push appends to them.
use server_fw.Prelude.{
  ℕ, ◌⊎◌, ◌+◌, ◌^◌, ◌<◌, ◌≤◌, ◌≡◌, refl, sym, ap, ◌∙◌, arith, Bool, true, false, List, [], ◌∷◌,
  ◌++◌, length, take, put, length-append, length-put, take-put, ok, err, invalid_argument,
  if◌then◌else◌, append_assoc, append-nil,
}
use server_fw.Prelude.Text.{Bytes, NoZero}
use server_fw.SmBuf.{is_int_size, stored_text, until_zero, to_be, to_le, set_string, is_valid}
use server_fw.SmBuf.Words.{Fits, set_be_lem, set_le_lem, length-to_be, length-to_le}
use server_fw.SmBuf.Texts.{set_string_lem, until_zero-NoZero}
use server_fw.SmBufEx.{SmBufEx, Item, int, text, push_item, push_all, push_data, data_size_reset}

abbrev pub contents : SmBufEx → Bytes
contents b = take b.data_size b.buf

-- Within its buffer, which is no longer than a vector can be.
pub record IsValid (b : SmBufEx) : Type 0 where
  pub fits : Fits b.buf
  pub within : b.data_size ≤ length b.buf

-- The bytes that an argument adds.
abbrev pub encode : Bool → Bool → Item → Bytes
encode big zero_end (int n val) = if big then to_be n val else to_le n val
encode big zero_end (text str) = stored_text str zero_end

abbrev pub encode_all : Bool → Bool → List Item → Bytes
encode_all big zero_end [] = []
encode_all big zero_end (i ∷ is) = encode big zero_end i ++ encode_all big zero_end is

-- An integer's type has one of the four sizes; a text holds no zero byte.
abbrev pub IsItem : Item → Type 0
IsItem (int n val) = is_int_size n ≡ true
IsItem (text str) = NoZero str

abbrev pub AllItems : List Item → Type 0
AllItems [] = Unit {0}
AllItems (i ∷ is) = IsItem i × AllItems is

-- The buffer after `block` was appended.
abbrev pub extend : SmBufEx → Bytes → SmBufEx
extend b block = record b {
  buf = put b.buf b.data_size block;
  data_size = b.data_size + length block;
}

pub extend-IsValid :
    (b : SmBufEx) (block : Bytes)
    → IsValid b
    → b.data_size + length block ≤ length b.buf
    → IsValid (extend b block)
extend-IsValid b block v h = record {
  fits = omega (arith, length-put b.buf b.data_size block, v.fits);
  within = omega (arith, length-put b.buf b.data_size block);
}

pub contents-extend :
    (b : SmBufEx) (block : Bytes)
    → b.data_size + length block ≤ length b.buf
    → contents (extend b block) ≡ contents b ++ block
contents-extend b block h = take-put b.buf b.data_size block h

length-encode_int : (big z : Bool) (n val : ℕ) → length (encode big z (int n val)) ≡ n
length-encode_int true z n val = length-to_be n val
length-encode_int false z n val = length-to_le n val

length-le-stored : (str : Bytes) (z : Bool) → NoZero str → length str ≤ length (stored_text str z)
length-le-stored str true h =
    omega (arith, length-append (until_zero str) (0 ∷ []), ap length (until_zero-NoZero str h))
length-le-stored str false h = omega arith

-- A push with room for its bytes appends them.
pub push_item_lem :
    (b : SmBufEx) (i : Item)
    → IsValid b
    → IsItem i
    → b.data_size < length b.buf
    → b.data_size + length (encode b.val_int_bigendian b.val_str_zeroend i) ≤ length b.buf
    → push_item b i ≡ ok (true, extend b (encode b.val_int_bigendian b.val_str_zeroend i))
unfolding push_item
push_item_lem b (int n val) v s o h = ground (
  arith,
  length-encode_int b.val_int_bigendian b.val_str_zeroend n val,
  set_be_lem n b.buf b.data_size val v.fits s,
  set_le_lem n b.buf b.data_size val v.fits s,
  length-to_be n val,
  length-to_le n val,
)
push_item_lem b (text str) v s o h = ground (
  arith,
  length-le-stored str b.val_str_zeroend s,
  set_string_lem b.buf b.data_size str b.val_str_zeroend v.fits o h,
)

-- The outcome of a `push_data` that appended `block`.
pub record Appended (b : SmBufEx) (block : Bytes) (c : SmBufEx) : Type 0 where
  pub appended : contents c ≡ contents b ++ block
  pub valid : IsValid c
  pub same_size : length c.buf ≡ length b.buf
  pub counted : c.data_size ≡ b.data_size + length block
  pub same_order : c.val_int_bigendian ≡ b.val_int_bigendian
  pub same_end : c.val_str_zeroend ≡ b.val_str_zeroend

Appended-nil : (b : SmBufEx) → IsValid b → Appended b [] b
Appended-nil b v = record {
  appended = sym (append-nil (contents b));
  valid = v;
  same_size = refl;
  counted = omega arith;
  same_order = refl;
  same_end = refl;
}

Appended-append :
    (b c : SmBufEx) (block rest : Bytes)
    → b.data_size + length block ≤ length b.buf
    → Appended (extend b block) rest c
    → Appended b (block ++ rest) c
Appended-append b c block rest h a = record {
  appended =
      a.appended
      ∙ ap (λ (xs : Bytes). xs ++ rest) (contents-extend b block h)
      ∙ append_assoc (contents b) block rest;
  valid = a.valid;
  same_size = a.same_size ∙ length-put b.buf b.data_size block;
  counted = omega (arith, a.counted, length-append block rest);
  same_order = a.same_order;
  same_end = a.same_end;
}

push_all_lem :
    (items : List Item) (b : SmBufEx)
    → IsValid b
    → AllItems items
    → b.data_size + length (encode_all b.val_int_bigendian b.val_str_zeroend items) < length b.buf
    → (c : SmBufEx) × (push_all true b items ≡ ok (true, c))
      × Appended b (encode_all b.val_int_bigendian b.val_str_zeroend items) c
unfolding push_all
push_all_lem [] b v s h = (b, refl, Appended-nil b v)
push_all_lem (i ∷ is) b v s h =
    let (c, e, a) = push_all_lem is (extend b block) (extend-IsValid b block v room) s.1 later in
    (c, rw (push_item_lem b i v s.0 (omega arith) room) e, Appended-append b c block _ room a)
  where
    block : Bytes
    block = encode b.val_int_bigendian b.val_str_zeroend i

    rest : Bytes
    rest = encode_all b.val_int_bigendian b.val_str_zeroend is

    room : b.data_size + length block ≤ length b.buf
    room = omega (arith, length-append block rest)

    later : b.data_size + length block + length rest < length (put b.buf b.data_size block)
    later = omega (arith, length-append block rest, length-put b.buf b.data_size block)

-- `push_data` with room for the bytes of all its arguments, and one byte to spare, succeeds and
-- appends these bytes in order to what the buffer held: integers in the buffer's byte order, texts
-- with a zero behind them if the buffer is set so. The buffer keeps its size and flags. The
-- buffer is valid, integer types have one of the four sizes, and no text holds a zero byte.
pub contents-push_data :
    (b : SmBufEx) (items : List Item)
    → IsValid b
    → AllItems items
    → b.data_size + length (encode_all b.val_int_bigendian b.val_str_zeroend items) < length b.buf
    → (c : SmBufEx) × (push_data b items ≡ ok (true, c))
      × Appended b (encode_all b.val_int_bigendian b.val_str_zeroend items) c
unfolding push_data
contents-push_data b items v s h = push_all_lem items b v s h

-- Without room a push changes nothing and returns false: an integer when its bytes do not fit
-- behind the data, a text when its bytes without the zero do not.
pub push_item_no_room :
    (b : SmBufEx) (n val : ℕ) (str : Bytes)
    → IsValid b
    → is_int_size n ≡ true
    → length str < 2 ^ 63
    → length b.buf < b.data_size + n
    → length b.buf < b.data_size + length str
    → (push_item b (int n val) ≡ ok (false, b)) × (push_item b (text str) ≡ ok (false, b))
unfolding push_item
push_item_no_room b n val str v s f h k = ground arith

-- A text without a zero byte that fits to the last byte, in a buffer that ends texts with zero, has
-- no room for that zero: the push throws `std::invalid_argument` instead of returning false. The
-- empty text at a full buffer is such a text.
pub push_item_exact_fit :
    (b : SmBufEx) (str : Bytes)
    → IsValid b
    → b.val_str_zeroend ≡ true
    → NoZero str
    → b.data_size + length str ≡ length b.buf
    → push_item b (text str) ≡ err invalid_argument
unfolding push_item set_string is_valid
push_item_exact_fit b str v z s h =
    ground (arith, length-append (until_zero str) (0 ∷ []), ap length (until_zero-NoZero str s))

-- `data_size_reset` accepts exactly the sizes within the buffer, and throws at any other.
pub data_size_reset_lem :
    (b : SmBufEx) (n : ℕ)
    → ((n ≤ length b.buf) × (data_size_reset b n ≡ ok (record b { data_size = n })))
      ⊎ ((length b.buf < n) × (data_size_reset b n ≡ err invalid_argument))
unfolding data_size_reset
data_size_reset_lem b n = ground arith
