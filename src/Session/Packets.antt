-- ===== src/Session/Packets.antt =====
-- source/tftpSession.cpp: the packets that a session builds in its buffer.
pub mod Layout
pub mod Reply
pub mod Data
pub mod Told
pub mod Total
use server_fw.Prelude.{
  ℕ, ◌+◌, Bool, true, false, [], ◌∷◌, List, length, put, ltb, leb, if◌then◌else◌, Option, none,
  some, Result, ok, err, ◌>>=◌, ◌>>◌, guard, undefined,
}
use server_fw.Prelude.Text.{Bytes, codes}
use server_fw.Common.Strings.Decimal.{to_string}
use server_fw.Options.{
  Options, was_set_blksize, was_set_timeout, was_set_tsize, was_set_windowsize, name_blksize,
  name_timeout, name_tsize, name_windowsize, blksize, timeout, tsize,
}
use server_fw.Options
use server_fw.SmBufEx.{SmBufEx, clear, Item, int, text, push_data, data_size_reset}
use server_fw.DataMgr.File.{DataMgrFile, ReadOut, read}
use server_fw.Session.{
  Session, was_error, set_error_if_first, reported, blk_num_local, block_size, position,
}

-- `push_data` where its result is not used.
abbrev pub pushed : SmBufEx → List Item → Result SmBufEx
pushed b items = push_data b items >>= λ r. ok r.1

-- One option of the reply, if it was set: its name and its value, in two calls.
abbrev push_option : Bool → Bytes → ℕ → SmBufEx → Result SmBufEx
push_option true name value b = do
  b' ← pushed b (text name ∷ [])
  pushed b' (text (to_string value) ∷ [])
push_option false name value b = ok b

unfoldable pub construct_opt_reply : Options → SmBufEx → Result SmBufEx
construct_opt_reply o buf = do
  b0 ← pushed (clear buf) (int 2 6 ∷ [])
  b1 ← push_option (was_set_blksize o) name_blksize (blksize o) b0
  b2 ← push_option (was_set_timeout o) name_timeout (timeout o) b1
  b3 ← push_option (was_set_tsize o) name_tsize (tsize o) b2
  b4 ← push_option (was_set_windowsize o) name_windowsize (Options.windowsize o) b3
  ok (if ltb b4.data_size 4 then clear b4 else b4)

abbrev pub undefined_error : Session → Session
undefined_error s =
    if was_error s then s else record s { error_code = 0; error_message = codes "Undefined error" }

unfoldable pub construct_error : Session → SmBufEx → Result (Session × SmBufEx)
construct_error s buf =
    let s' = undefined_error s in
    do
      b ← pushed (clear buf) (int 2 5 ∷ int 2 s'.error_code ∷ text s'.error_message ∷ [])
      ok (s', b)

unfoldable pub construct_ack : Session → SmBufEx → Result SmBufEx
construct_ack s buf = pushed (clear buf) (int 2 4 ∷ int 2 (blk_num_local s) ∷ [])

-- What `construct_data` does with the outcome of the read, behind a header of `b.data_size` bytes.
abbrev pub take_block : Session → SmBufEx → ReadOut → Result (Session × SmBufEx)
take_block s b out =
    let s' = record (reported s out.report) { file_man = some out.mgr } in
    let b' = record b { buf = put b.buf b.data_size out.block } in
    elim out.result [
      | none ↦ ok (set_error_if_first s' 0 (codes "Failed prepare data to send"), b')
      | some ret ↦ data_size_reset b' (b.data_size + ret) >>= λ c. ok (s', c)
    ]

-- The iterators of a block must stay within the buffer.
unfoldable pub construct_data : Session → DataMgrFile → SmBufEx → Result (Session × SmBufEx)
construct_data s m buf = do
  b ← pushed (clear buf) (int 2 3 ∷ int 2 (blk_num_local s) ∷ [])
  guard (leb (b.data_size + block_size s) (length b.buf)) undefined
  out ← read m (block_size s) (position s)
  take_block s b out
