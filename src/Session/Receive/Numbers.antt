-- ===== src/Session/Receive/Numbers.antt =====
-- Packets of the client, by their block numbers.
use server_fw.Prelude.{
  ℕ, ◌+◌, ◌-◌, ◌*◌, ◌≤◌, ◌≡◌, ◌≢◌, ap, ◌∙◌, subst, arith, Bool, true, ◌∷◌, ◌++◌, length, take, drop,
  slice, put, Result, ok, ◌>>=◌, drop-put, length-put, take-append, take,
}
use server_fw.Prelude.Text.{Bytes}
use server_fw.Addr.{Addr, same_addr}
use server_fw.SmBufEx.{SmBufEx, data_size_reset}
use server_fw.SmBuf.{get_be}
use server_fw.SmBuf.Words.{Fits, is_valid_of_le}
use server_fw.DataMgr.File.Blocks.{take-all}
use server_fw.Session.{Session}
use server_fw.Session.Packets.Layout.{IsLocal}
use server_fw.Session.Receive.{packet, received, receive_no_wait, dispatch}

-- The buffer after a packet arrived, its bytes in front of what stood there.
abbrev pub arrived : SmBufEx → Bytes → SmBufEx
arrived b bytes = record b { buf = put b.buf 0 bytes; data_size = length bytes }

-- A packet with a header: the high byte of the operation is zero.
abbrev pub framed : ℕ → ℕ → ℕ → Bytes → Bytes
framed op hi lo payload = 0 ∷ op ∷ hi ∷ lo ∷ payload

get_be_two :
    (x y hi lo : ℕ) (xs : Bytes)
    → Fits (x ∷ y ∷ hi ∷ lo ∷ xs)
    → get_be 2 (x ∷ y ∷ hi ∷ lo ∷ xs) 2 ≡ ok (hi * 256 + lo)
unfolding get_be
get_be_two x y hi lo xs f =
    rw (is_valid_of_le (x ∷ y ∷ hi ∷ lo ∷ xs) 2 2 f (omega arith) (omega arith))
      (ap ok (omega arith))

get_be_zero :
    (x y : ℕ) (xs : Bytes) → Fits (x ∷ y ∷ xs) → get_be 2 (x ∷ y ∷ xs) 0 ≡ ok (x * 256 + y)
unfolding get_be
get_be_zero x y xs f =
    rw (is_valid_of_le (x ∷ y ∷ xs) 0 2 f (omega arith) (omega arith)) (ap ok (omega arith))

module _ (accepts : Bool) (s : Session) (b : SmBufEx) (a : Addr) (op hi lo : ℕ) (payload : Bytes)
    (l : IsLocal b) (short : length payload ≤ 65531) (client : same_addr a s.cl_addr ≡ true) where
  abbrev bytes : Bytes
  bytes = framed op hi lo payload

  whole : put b.buf 0 bytes ≡ bytes ++ drop (length bytes) b.buf
  whole =
      let none_before : 0 + length bytes ≡ length bytes = omega arith in
      drop-put b.buf 0 bytes (omega (arith, l.size))
      ∙ ap (λ (n : ℕ). bytes ++ drop n b.buf) none_before

  fits : Fits (put b.buf 0 bytes)
  fits = omega (arith, l.size, length-put b.buf 0 bytes)

  op_read : get_be 2 (put b.buf 0 bytes) 0 ≡ ok op
  op_read =
      ap (λ (xs : Bytes). get_be 2 xs 0) whole
      ∙ get_be_zero 0 op _ (subst Fits whole fits)
      ∙ ap ok (omega arith)

  blk_read : get_be 2 (put b.buf 0 bytes) 2 ≡ ok (hi * 256 + lo)
  blk_read =
      ap (λ (xs : Bytes). get_be 2 xs 2) whole ∙ get_be_two 0 op hi lo _ (subst Fits whole fits)

  cut : take (length b.buf) bytes ≡ bytes
  cut = take-all (length b.buf) bytes (omega (arith, l.size))

  counted :
      data_size_reset (record b { buf = put b.buf 0 bytes }) (length bytes) ≡ ok (arrived b bytes)
  unfolding data_size_reset
  counted = ground (arith, l.size, length-put b.buf 0 bytes)

  dispatched :
      op ≢ 5
      → received accepts s (arrived b bytes) a (length bytes)
        ≡ dispatch accepts s (arrived b bytes) (length bytes) op (hi * 256 + lo)
  unfolding received
  dispatched h = ground (arith, op_read, blk_read, client)

  -- A packet of the client is dispatched by its operation and its block number.
  pub receive_framed :
      op ≢ 5
      → receive_no_wait accepts (packet a bytes) s b
        ≡ dispatch accepts s (arrived b bytes) (length bytes) op (hi * 256 + lo)
  unfolding receive_no_wait
  receive_framed h =
      ap
        (λ (xs : Bytes). data_size_reset (record b { buf = put b.buf 0 xs }) (length xs) >>= λ b'.
          received accepts s b' a (length xs))
        cut
      ∙ ap (λ (m : Result SmBufEx). m >>= λ b'. received accepts s b' a (length bytes)) counted
      ∙ dispatched h

  -- Its payload.
  pub payload-arrived : slice (arrived b bytes).buf 4 (length bytes - 4) ≡ payload
  payload-arrived =
      let four_less : length bytes - 4 ≡ length payload = omega arith in
      ap (λ (xs : Bytes). slice xs 4 (length bytes - 4)) whole
      ∙ ap (λ (n : ℕ). take n (payload ++ drop (length bytes) b.buf)) four_less
      ∙ take-append payload _
