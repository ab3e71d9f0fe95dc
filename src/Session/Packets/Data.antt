-- ===== src/Session/Packets/Data.antt =====
-- The DATA packet: its bytes, and the block sizes that leave the buffer.
use server_fw.Prelude.{
  ℕ, ◌+◌, ◌-◌, ◌≤◌, ◌≡◌, ◌⊎◌, drop, refl, sym, ap, ◌∙◌, arith, [], ◌∷◌, ◌++◌, length, slice, min,
  length-append, length-take, length-drop, length-put, ok, err, some, none, undefined, subst,
  le→leb, lt→leb,
}
use server_fw.Prelude.Text.{Bytes}
use server_fw.SmBufEx.{SmBufEx, clear, int, data_size_reset}
use server_fw.SmBufEx.Contents.{extend, extend-IsValid, contents-extend}
use server_fw.DataMgr.File.{DataMgrFile, ReadOut}
use server_fw.DataMgr.File.Blocks.{IsReading, IsGood, read-IsBlock}
use server_fw.Session.{Session, blk_num_local, block_size, position}
use server_fw.Session.Packets.{pushed, construct_data, take_block}
use server_fw.Session.Packets.Layout.{IsLocal, Holds, word, clear-Holds, pushed-Holds}

pub header :
    (s : Session) (b : SmBufEx)
    → IsLocal b
    → (c : SmBufEx) × (pushed (clear b) (int 2 3 ∷ int 2 (blk_num_local s) ∷ []) ≡ ok c)
      × Holds c (0 ∷ 3 ∷ word (blk_num_local s))
header s b l =
    pushed-Holds (clear b) [] (int 2 3 ∷ int 2 (blk_num_local s) ∷ []) (clear-Holds b l)
      (refl, (refl, tt)) (omega arith)

-- Block sizes from 65532 up, which a client may ask for, do not fit into the buffer behind the
-- header: building a DATA packet has no defined behaviour, whatever the file holds.
pub construct_data_overrun :
    (s : Session) (m : DataMgrFile) (b : SmBufEx)
    → IsLocal b
    → 65532 ≤ block_size s
    → construct_data s m b ≡ err undefined
unfolding construct_data
construct_data_overrun s m b l h =
    let (c, e, p) = header s b l in
    rw e (
      rw
        (lt→leb (length c.buf) (c.data_size + block_size s)
          (omega (arith, p.counted, p.local.size)))
        refl)

-- The bytes behind the header for a read that went well.
take_block-Holds :
    (s : Session) (b : SmBufEx) (head : Bytes) (out : ReadOut)
    → Holds b head
    → out.result ≡ some (length out.block)
    → out.report ≡ none
    → length head + length out.block ≤ 65535
    → (c : SmBufEx) × (take_block s b out ≡ ok (record s { file_man = some out.mgr }, c))
      × Holds c (head ++ out.block)
unfolding data_size_reset
take_block-Holds s b head out h r q room = (
  extend b out.block,
  step,
  record {
    local = record {
      valid = extend-IsValid b out.block h.local.valid fits;
      size = length-put b.buf b.data_size out.block ∙ h.local.size;
      big = h.local.big;
      ended = h.local.ended;
    };
    held = contents-extend b out.block fits ∙ ap (λ (xs : Bytes). xs ++ out.block) h.held;
    counted = omega (arith, h.counted, length-append head out.block);
  },
)
  where
    fits : b.data_size + length out.block ≤ length b.buf
    fits = omega (arith, h.counted, h.local.size)

    step : take_block s b out ≡ ok (record s { file_man = some out.mgr }, extend b out.block)
    step = ground (arith, fits, length-put b.buf b.data_size out.block)

-- A DATA packet that was built: the block number and the block of the file at the session's
-- position, as much of it as there is.
pub record IsData (s : Session) (m : DataMgrFile) (s' : Session) (m' : DataMgrFile) (c : SmBufEx)
    : Type 0 where
  pub same_session : s' ≡ record s { file_man = some m' }
  pub bytes :
      Holds c
        (0 ∷ 3 ∷ (word (blk_num_local s) ++ slice m.file_in.content (position s) (block_size s)))
  pub sized : c.data_size ≡ 4 + min (length m.file_in.content - position s) (block_size s)
  pub reading : IsReading m'
  pub same_file : m'.file_in.content ≡ m.file_in.content
  pub stays_good :
      (position s + block_size s ≤ length m.file_in.content)
        ⊎ (position s ≡ length m.file_in.content)
      → IsGood m'.file_in

length-slice : (xs : Bytes) (p n : ℕ) → length (slice xs p n) ≡ min (length xs - p) n
length-slice xs p n = omega (arith, length-take n (drop p xs), length-drop p xs)

-- With a good stream and a block size that the buffer has room for, every block up to the end of the
-- file is built as a DATA packet of the session's block number.
pub construct_data-IsData :
    (s : Session) (m : DataMgrFile) (b : SmBufEx)
    → IsLocal b
    → IsReading m
    → IsGood m.file_in
    → block_size s ≤ 65531
    → position s ≤ length m.file_in.content
    → (s' : Session) × (m' : DataMgrFile) × (c : SmBufEx) × (construct_data s m b ≡ ok (s', c))
      × IsData s m s' m' c
unfolding construct_data
construct_data-IsData s m b l r g n h =
    let (b0, e0, p0) = header s b l in
    let (out, e1, k) = read-IsBlock m (block_size s) (position s) r g h in
    let size = ap length k.stored ∙ length-slice m.file_in.content (position s) (block_size s) in
    let (c, e2, p) =
      take_block-Holds s b0 (0 ∷ 3 ∷ word (blk_num_local s)) out p0 (k.counted ∙ ap some (sym size))
        k.silent (omega (arith, size)) in
    (
      record s { file_man = some out.mgr },
      out.mgr,
      c,
      rw e0 (
          rw
            (le→leb (b0.data_size + block_size s) (length b0.buf)
              (omega (arith, p0.counted, p0.local.size)))
            (rw e1 e2)),
      record {
        same_session = refl;
        bytes = subst (λ (xs : Bytes). Holds c (0 ∷ 3 ∷ (word (blk_num_local s) ++ xs))) k.stored p;
        sized = omega (arith, p.counted, size);
        reading = k.reading;
        same_file = k.same_file;
        stays_good = k.stays_good;
      },
    )
