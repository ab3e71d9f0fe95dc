-- ===== src/Tests/Buffers.antt =====
-- Buffers: source/tftpSmBuf.cpp, source/tftpSmBufEx.cpp and source/tftpAddr.cpp at concrete inputs.
use server_fw.Prelude.{◌≡◌, refl, arith, true, List, [], ◌∷◌, ok}
use server_fw.Prelude.Text.{Bytes}
use server_fw.SmBufEx.{SmBufEx, Item, int, text, push_data}
use server_fw.SmBufEx.Contents.{IsValid, Appended, encode_all, contents-push_data}

abbrev eight : Bytes
eight = 1 ∷ 2 ∷ 3 ∷ 4 ∷ 5 ∷ 6 ∷ 7 ∷ 8 ∷ []

abbrev small : SmBufEx
small = record { buf = eight; data_size = 2; val_int_bigendian = true; val_str_zeroend = true }

small-IsValid : IsValid small
small-IsValid = record { fits = omega arith; within = omega arith }

abbrev two_items : List Item
two_items = int 2 6 ∷ text (b'a' ∷ []) ∷ []

contents-push_data_example :
    (c : SmBufEx) × (push_data small two_items ≡ ok (true, c))
    × Appended small (encode_all true true two_items) c
contents-push_data_example =
    contents-push_data small two_items small-IsValid (refl, (((λ e. absurd (omega arith)), tt), tt))
      (omega arith)

abbrev six : Bytes
six = b'a' ∷ b'b' ∷ b'c' ∷ b'd' ∷ b'e' ∷ b'f' ∷ []
