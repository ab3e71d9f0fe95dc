-- ===== src/SmBuf/Words.antt =====
-- The integer accessors of `SmBuf`: what is written is read back, and nothing else moves.
use native.Mathlib.Nat.{pow-suc}
use mathlib.Core.List.{reverse-reverse}
use server_fw.Prelude.{
  ℕ, zero, suc, ◌+◌, ◌/◌, ◌^◌, ◌<◌, ◌≤◌, ◌≡◌, ◌⊎◌, refl, ap, ◌∙◌, arith, true, length, slice, put,
  get_elem?, length-reverse, length-put, slice-put, get_elem?-put, Result, ok, err,
  invalid_argument, subst,
}
use server_fw.Prelude.Text.{Bytes}
use server_fw.SmBuf.{
  is_valid, le_value, to_le, be_value, to_be, is_int_size, get_be, get_le, set_be, set_le,
}

-- No vector is longer than `max_size()`.
abbrev pub Fits : Bytes → Type 0
Fits buf = length buf < 2 ^ 63

pub length-to_le : (n val : ℕ) → length (to_le n val) ≡ n
length-to_le zero val = refl
length-to_le (suc n) val = ap suc (length-to_le n (val / 256))

pub length-to_be : (n val : ℕ) → length (to_be n val) ≡ n
length-to_be n val = length-reverse (to_le n val) ∙ length-to_le n val

pub le_value-to_le : (n val : ℕ) → val < 256 ^ n → le_value (to_le n val) ≡ val
le_value-to_le zero val h = omega arith
le_value-to_le (suc n) val h =
    omega (arith, le_value-to_le n (val / 256) (omega (arith, pow-suc 256 n)), pow-suc 256 n)

pub be_value-to_be : (n val : ℕ) → val < 256 ^ n → be_value (to_be n val) ≡ val
be_value-to_be n val h = ap le_value (reverse-reverse (to_le n val)) ∙ le_value-to_le n val h

pub is_valid-le :
    (buf : Bytes) (offset n : ℕ)
    → Fits buf
    → n < 2 ^ 63
    → is_valid buf offset n ≡ true
    → offset + n ≤ length buf
unfolding is_valid
is_valid-le buf offset n f h v = ground arith

pub is_valid_of_le :
    (buf : Bytes) (offset n : ℕ)
    → Fits buf
    → offset < length buf
    → offset + n ≤ length buf
    → is_valid buf offset n ≡ true
unfolding is_valid
is_valid_of_le buf offset n f h v = ground arith

is_int_size-le : (n : ℕ) → is_int_size n ≡ true → n ≤ 8
is_int_size-le n h = ground arith

-- The outcome of a write of `n` bytes of `val` at `offset`, for `put` of a fixed block.
pub record Written (get : Bytes → ℕ → Result ℕ) (n : ℕ) (buf : Bytes) (offset val : ℕ)
    (out : Bytes × ℕ) : Type 0 where
  pub read_back : get out.0 offset ≡ ok val
  pub returned : out.1 ≡ n
  pub same_size : length out.0 ≡ length buf
  pub others : (i : ℕ) → (i < offset) ⊎ (offset + n ≤ i) → get_elem? out.0 i ≡ get_elem? buf i

-- A block that fits is written whole.
pub set_be_lem :
    (n : ℕ) (buf : Bytes) (offset val : ℕ)
    → Fits buf
    → is_int_size n ≡ true
    → offset + n ≤ length buf
    → set_be n buf offset val ≡ ok (put buf offset (to_be n val), n)
unfolding set_be
set_be_lem n buf offset val f s h = rw (is_valid_of_le buf offset n f (ground arith) h, s)

pub set_le_lem :
    (n : ℕ) (buf : Bytes) (offset val : ℕ)
    → Fits buf
    → is_int_size n ≡ true
    → offset + n ≤ length buf
    → set_le n buf offset val ≡ ok (put buf offset (to_le n val), n)
unfolding set_le
set_le_lem n buf offset val f s h = rw (is_valid_of_le buf offset n f (ground arith) h, s)

get_be_lem :
    (n : ℕ) (buf : Bytes) (offset : ℕ)
    → Fits buf
    → is_int_size n ≡ true
    → offset + n ≤ length buf
    → get_be n buf offset ≡ ok (be_value (slice buf offset n))
unfolding get_be
get_be_lem n buf offset f s h = rw (is_valid_of_le buf offset n f (ground arith) h, s)

get_le_lem :
    (n : ℕ) (buf : Bytes) (offset : ℕ)
    → Fits buf
    → is_int_size n ≡ true
    → offset + n ≤ length buf
    → get_le n buf offset ≡ ok (le_value (slice buf offset n))
unfolding get_le
get_le_lem n buf offset f s h = rw (is_valid_of_le buf offset n f (ground arith) h, s)

slice-put_block :
    (buf : Bytes) (offset n : ℕ) (block : Bytes)
    → length block ≡ n
    → offset + n ≤ length buf
    → slice (put buf offset block) offset n ≡ block
slice-put_block buf offset n block e h =
    subst (λ k. slice (put buf offset block) offset k ≡ block) e
      (slice-put buf offset block (omega arith))

-- All but the value that is read back is the same for every block of `n` bytes.
written :
    (get : Bytes → ℕ → Result ℕ) (n : ℕ) (buf : Bytes) (offset val : ℕ) (block : Bytes)
    → length block ≡ n
    → offset + n ≤ length buf
    → get (put buf offset block) offset ≡ ok val
    → Written get n buf offset val (put buf offset block, n)
written get n buf offset val block e h r = record {
  read_back = r;
  returned = refl;
  same_size = length-put buf offset block;
  others = λ i side. get_elem?-put buf offset block i (omega arith);
}

module _ (n : ℕ) (buf : Bytes) (offset val : ℕ) (f : Fits buf) (s : is_int_size n ≡ true)
    (v : val < 256 ^ n) (h : offset + n ≤ length buf) where
  -- A big-endian value that fits its type, written inside the buffer, is read back as it was; the
  -- call returns its size, the buffer keeps its length, and no byte outside the value changes.
  pub get_be-set_be :
      (out : Bytes × ℕ) × (set_be n buf offset val ≡ ok out)
      × Written (get_be n) n buf offset val out
  get_be-set_be = (
    (put buf offset (to_be n val), n),
    set_be_lem n buf offset val f s h,
    written (get_be n) n buf offset val (to_be n val) (length-to_be n val) h (
        get_be_lem n (put buf offset (to_be n val)) offset
          (omega (arith, length-put buf offset (to_be n val))) s
          (omega (arith, length-put buf offset (to_be n val)))
        ∙ ap ok (
            ap be_value (slice-put_block buf offset n (to_be n val) (length-to_be n val) h)
            ∙ be_value-to_be n val v)),
  )

  -- A little-endian value that fits its type, written inside the buffer, is read back as it was;
  -- the call returns its size, the buffer keeps its length, and no byte outside the value changes.
  pub get_le-set_le :
      (out : Bytes × ℕ) × (set_le n buf offset val ≡ ok out)
      × Written (get_le n) n buf offset val out
  get_le-set_le = (
    (put buf offset (to_le n val), n),
    set_le_lem n buf offset val f s h,
    written (get_le n) n buf offset val (to_le n val) (length-to_le n val) h (
        get_le_lem n (put buf offset (to_le n val)) offset
          (omega (arith, length-put buf offset (to_le n val))) s
          (omega (arith, length-put buf offset (to_le n val)))
        ∙ ap ok (
            ap le_value (slice-put_block buf offset n (to_le n val) (length-to_le n val) h)
            ∙ le_value-to_le n val v)),
  )

-- Past the end of the buffer every integer accessor of either byte order throws
-- `std::invalid_argument`, for all four sizes of a type.
pub accessors_out_of_range :
    (n : ℕ) (buf : Bytes) (offset val : ℕ)
    → Fits buf
    → is_int_size n ≡ true
    → length buf < offset + n
    → (get_be n buf offset ≡ err invalid_argument)
      × (get_le n buf offset ≡ err invalid_argument)
      × (set_be n buf offset val ≡ err invalid_argument)
      × (set_le n buf offset val ≡ err invalid_argument)
unfolding get_be get_le set_be set_le is_valid
accessors_out_of_range n buf offset val f s h = ground arith
