-- ===== src/Session/Packets/Total.antt =====
-- DATA packets at any position of a file, and from a stream in any condition.
use server_fw.Prelude.{
  ℕ, ◌+◌, ◌^◌, ◌<◌, ◌≤◌, ◌≡◌, ◌⊎◌, inl, inr, refl, ap, ◌∙◌, arith, true, Bool-cases, Option, ◌∷◌,
  [], length, min, put, ok, some, none, ◌==◌, le→leb, length-put,
}
use server_fw.Prelude.Text.{Bytes, codes}
use server_fw.Common.{SrvReq}
use server_fw.SmBufEx.{SmBufEx, data_size_reset}
use server_fw.DataMgr.Streams.{InStream}
use server_fw.DataMgr.File.{DataMgrFile, ReadOut, read, read_left, bytes_left, seek_if_moved}
use server_fw.DataMgr.Streams.{tellg}
use server_fw.Session.{
  Session, blk_num_local, block_size, position, set_error_if_first, reported, was_error,
}
use server_fw.Session.Packets.{construct_data, take_block}
use server_fw.Session.Packets.Layout.{IsLocal, Holds, word}
use server_fw.Session.Packets.Data.{header}
use server_fw.Session.Packets.Told.{
  IsTold, IsTold-set, IsTold-reported, same_reported, error_same, noted,
}

-- What a read leaves, whatever it gave.
record IsRead (buf_size : ℕ) (out : ReadOut) : Type 0 where
  pub kind : out.mgr.request_type ≡ SrvReq.read
  pub sized : (out.result ≡ none) ⊎ ((n : ℕ) × (out.result ≡ some n) × (n ≤ buf_size))
  pub report : (out.report ≡ none) ⊎ (out.report ≡ some (0, codes "Server read stream not opened"))

read_left_total :
    (m : DataMgrFile) (s : InStream) (buf_size : ℕ) (left : Option ℕ)
    → m.request_type ≡ SrvReq.read
    → IsRead buf_size (read_left m s buf_size left)
read_left_total m s buf_size none k = record { kind = k; sized = inl refl; report = inl refl }
read_left_total m s buf_size (some left) k = elim (Bool-cases (left == 0)) [
  | inl c ↦ record {
    kind = ground (arith, c);
    sized = inr (0, ground (arith, c), omega arith);
    report = inl (ground (arith, c));
  }
  | inr c ↦ record {
    kind = ground (arith, c);
    sized = inr (min left buf_size, ground (arith, c), omega arith);
    report = inl (ground (arith, c));
  }
]

read_open :
    (m : DataMgrFile) (buf_size position : ℕ)
    → m.request_type ≡ SrvReq.read
    → m.file_in.is_open ≡ true
    → read m buf_size position
      ≡ ok (
          read_left m
            (seek_if_moved (tellg m.file_in) position)
            buf_size
            (bytes_left m.file_size position))
unfolding read
read_open m buf_size position k o = rw k (rw o refl)

read_total :
    (m : DataMgrFile) (buf_size position : ℕ)
    → m.request_type ≡ SrvReq.read
    → (out : ReadOut) × (read m buf_size position ≡ ok out) × IsRead buf_size out
unfolding read
read_total m buf_size position k = elim (Bool-cases m.file_in.is_open) [
  | inl c ↦ (
    read_left m (seek_if_moved (tellg m.file_in) position) buf_size
        (bytes_left m.file_size position),
    read_open m buf_size position k c,
    read_left_total m (seek_if_moved (tellg m.file_in) position) buf_size
        (bytes_left m.file_size position) k,
  )
  | inr c ↦ (
    record {
      result = none;
      block = [];
      mgr = m;
      report = some (0, codes "Server read stream not opened");
    },
    rw k (rw c refl),
    record { kind = k; sized = inl refl; report = inr refl },
  )
]

-- What building a DATA packet leaves, whatever came of it.
pub record IsBuilt (s s' : Session) (c : SmBufEx) : Type 0 where
  pub m : DataMgrFile
  pub file : s'.file_man ≡ some m
  pub kind : m.request_type ≡ SrvReq.read
  pub local : IsLocal c
  pub same_stat : s'.stat ≡ s.stat
  pub same_opt : s'.opt ≡ s.opt
  pub told : IsTold s'

-- The session that took the manager and the report of a read.
abbrev reads : Session → ReadOut → Session
reads s out = record (reported s out.report) { file_man = some out.mgr }

abbrev filled : SmBufEx → ReadOut → SmBufEx
filled b out = record b { buf = put b.buf b.data_size out.block }

filled-IsLocal : (b : SmBufEx) (out : ReadOut) → IsLocal b → IsLocal (filled b out)
filled-IsLocal b out l = record {
  valid = record {
    fits = omega (arith, l.valid.fits, length-put b.buf b.data_size out.block);
    within = omega (arith, l.valid.within, length-put b.buf b.data_size out.block);
  };
  size = length-put b.buf b.data_size out.block ∙ l.size;
  big = l.big;
  ended = l.ended;
}

failed_block :
    (s : Session) (b : SmBufEx) (out : ReadOut)
    → out.result ≡ none
    → take_block s b out
      ≡ ok (set_error_if_first (reads s out) 0 (codes "Failed prepare data to send"), filled b out)
failed_block s b out e = rw e refl

failed-IsBuilt :
    (s : Session) (b : SmBufEx) (out : ReadOut)
    → IsLocal b
    → IsTold s
    → IsRead (block_size s) out
    → IsBuilt s
        (set_error_if_first (reads s out) 0 (codes "Failed prepare data to send"))
        (filled b out)
failed-IsBuilt s b out l t r =
    let why = codes "Failed prepare data to send" in
    let told = IsTold-reported s out.report t r.report in
    let same = same_reported s out.report in
    let kept = error_same (reads s out) 0 why in
    record {
      m = out.mgr;
      file = kept.2;
      kind = r.kind;
      local = filled-IsLocal b out l;
      same_stat = kept.0 ∙ same.0;
      same_opt = kept.1 ∙ same.1;
      told =
          IsTold-set (reads s out) 0 why (record { text = told.text; brief = told.brief })
            (omega arith) (omega arith);
    }

take_block_total :
    (s : Session) (b : SmBufEx) (head : Bytes) (out : ReadOut)
    → Holds b head
    → length head + block_size s ≤ 65535
    → IsTold s
    → IsRead (block_size s) out
    → (s' : Session) × (c : SmBufEx) × (take_block s b out ≡ ok (s', c)) × IsBuilt s s' c
unfolding data_size_reset
take_block_total s b head out h room t r =
    let told = IsTold-reported s out.report t r.report in
    let same = same_reported s out.report in
    let local = filled-IsLocal b out h.local in
    elim r.sized [
      | inl e ↦ (
        set_error_if_first (reads s out) 0 (codes "Failed prepare data to send"),
        filled b out,
        failed_block s b out e,
        failed-IsBuilt s b out h.local t r,
      )
      | inr (n, e, less) ↦
          let fits : b.data_size + n ≤ length (filled b out).buf =
            omega (arith, h.counted, local.size, room, less) in
          (
            reads s out,
            record (filled b out) { data_size = b.data_size + n },
            rw e (ground (arith, fits)),
            record {
              m = out.mgr;
              file = refl;
              kind = r.kind;
              local = record {
                valid = record { fits = local.valid.fits; within = fits };
                size = local.size;
                big = local.big;
                ended = local.ended;
              };
              same_stat = same.0;
              same_opt = same.1;
              told = record { text = told.text; brief = told.brief };
            },
          )
    ]

-- A DATA packet is built in a defined way at every position, within the file or not.
pub construct_data_total :
    (s : Session) (m : DataMgrFile) (b : SmBufEx)
    → IsLocal b
    → m.request_type ≡ SrvReq.read
    → block_size s ≤ 65531
    → IsTold s
    → (s' : Session) × (c : SmBufEx) × (construct_data s m b ≡ ok (s', c)) × IsBuilt s s' c
unfolding construct_data
construct_data_total s m b l k n t =
    let (b0, e0, p0) = header s b l in
    let (out, e1, r) = read_total m (block_size s) (position s) k in
    let (s', c, e2, built) =
      take_block_total s b0 (0 ∷ 3 ∷ word (blk_num_local s)) out p0 (omega (arith, n)) t r in
    (
      s',
      c,
      rw e0 (
          rw
            (le→leb (b0.data_size + block_size s) (length b0.buf)
              (omega (arith, p0.counted, p0.local.size)))
            (rw e1 e2)),
      built,
    )

none_left :
    (file_size position : ℕ)
    → file_size < position
    → position < 2 ^ 63
    → bytes_left file_size position ≡ none
none_left file_size position h p = ground arith

read_beyond :
    (m : DataMgrFile) (buf_size position : ℕ)
    → m.request_type ≡ SrvReq.read
    → m.file_in.is_open ≡ true
    → m.file_size < position
    → position < 2 ^ 63
    → (out : ReadOut) × (read m buf_size position ≡ ok out)
      × IsRead buf_size out
      × (out.result ≡ none)
read_beyond m buf_size position k o h p =
    let s = seek_if_moved (tellg m.file_in) position in
    (
      record { result = none; block = []; mgr = record m { file_in = s }; report = none },
      read_open m buf_size position k o
          ∙ ap (λ (x : Option ℕ). ok (read_left m s buf_size x))
              (none_left m.file_size position h p),
      record { kind = k; sized = inl refl; report = inl refl },
      refl,
    )

-- Beyond the end of the file an error is noted instead.
pub construct_data_beyond :
    (s : Session) (m : DataMgrFile) (b : SmBufEx)
    → IsLocal b
    → m.request_type ≡ SrvReq.read
    → m.file_in.is_open ≡ true
    → m.file_size < position s
    → position s < 2 ^ 63
    → block_size s ≤ 65531
    → IsTold s
    → (s' : Session) × (c : SmBufEx) × (construct_data s m b ≡ ok (s', c))
      × IsBuilt s s' c
      × (was_error s' ≡ true)
unfolding construct_data
construct_data_beyond s m b l k o h q n t =
    let (b0, e0, p0) = header s b l in
    let (out, e1, r, failed) = read_beyond m (block_size s) (position s) k o h q in
    (
      set_error_if_first (reads s out) 0 (codes "Failed prepare data to send"),
      filled b0 out,
      rw e0 (
          rw
            (le→leb (b0.data_size + block_size s) (length b0.buf)
              (omega (arith, p0.counted, p0.local.size)))
            (rw e1 (failed_block s b0 out failed))),
      failed-IsBuilt s b0 out p0.local t r,
      noted (reads s out) (codes "Failed prepare data to send") (omega arith),
    )
