-- ===== src/DataMgr/File/Blocks.antt =====
-- What a block read or written through `DataMgrFile` is, and what a stream that has failed gives.
use server_fw.Prelude.{
  ℕ, zero, suc, ◌+◌, ◌-◌, ◌^◌, ◌<◌, ◌≤◌, ◌≡◌, ◌≢◌, ◌⊎◌, inl, inr, refl, sym, ap, ◌∙◌, arith, Bool,
  true, false, [], ◌∷◌, length, take, drop, slice, length-drop, min, ok, err, some, none,
  stream_failure,
}
use server_fw.Prelude.Text.{Bytes}
use server_fw.Common.{SrvReq}
use server_fw.DataMgr.Streams.{InStream, tellg, seekg, read_in, seekp, write_out, overwrite}
use server_fw.DataMgr.File.{DataMgrFile, ReadOut, WriteOut, read, write}

-- The manager of an open file that is sent, with the size that it noted at the start.
pub record IsReading (m : DataMgrFile) : Type 0 where
  pub kind : m.request_type ≡ SrvReq.read
  pub opened : m.file_in.is_open ≡ true
  pub noted : m.file_size ≡ length m.file_in.content
  pub small : length m.file_in.content < 2 ^ 63

-- The stream has not met the end of its file.
pub record IsGood (s : InStream) : Type 0 where
  pub no_eof : s.eofbit ≡ false
  pub no_fail : s.failbit ≡ false

pub drop-all : (n : ℕ) (xs : Bytes) → length xs ≤ n → drop n xs ≡ []
drop-all zero [] h = refl
drop-all zero (x ∷ xs) h = absurd (omega arith)
drop-all (suc n) [] h = refl
drop-all (suc n) (x ∷ xs) h = drop-all n xs (omega arith)

pub take-all : (n : ℕ) (xs : Bytes) → length xs ≤ n → take n xs ≡ xs
take-all zero [] h = refl
take-all zero (x ∷ xs) h = absurd (omega arith)
take-all (suc n) [] h = refl
take-all (suc n) (x ∷ xs) h = ap (◌∷◌ x) (take-all n xs (omega arith))

three_ways :
    (p n size : ℕ)
    → p ≤ size
    → (p ≡ size) ⊎ (((p < size) × (p + n ≤ size)) ⊎ ((p < size) × (size < p + n)))
three_ways p n size h = omega arith

pub take-nil : (n : ℕ) → take {A = ℕ} n [] ≡ []
take-nil zero = refl
take-nil (suc n) = refl

pub pos_length : (xs : Bytes) → xs ≢ [] → 0 < length xs
pos_length [] h = absurd (h refl)
pos_length (x ∷ xs) h = omega arith

-- A block that was read: the bytes of the file from `position` on, `buf_size` of them or up to the
-- end; a full block leaves the stream good.
pub record IsBlock (m : DataMgrFile) (buf_size position : ℕ) (out : ReadOut) : Type 0 where
  pub counted : out.result ≡ some (min (length m.file_in.content - position) buf_size)
  pub stored : out.block ≡ slice m.file_in.content position buf_size
  pub silent : out.report ≡ none
  pub reading : IsReading out.mgr
  pub same_file : out.mgr.file_in.content ≡ m.file_in.content
  pub stays_good :
      (position + buf_size ≤ length m.file_in.content) ⊎ (position ≡ length m.file_in.content)
      → IsGood out.mgr.file_in

abbrev block_out : DataMgrFile → InStream → ℕ → Bytes → ReadOut
block_out m s n block = record {
  result = some n;
  block = block;
  mgr = record m { file_in = s };
  report = none;
}

-- The stream after a seek, and after a read that met the end.
abbrev at : InStream → ℕ → InStream
at s position = record s { eofbit = false; pos = position }

abbrev ended : InStream → ℕ → InStream
ended s position = record s {
  pos = position + length (drop position s.content);
  eofbit = true;
  failbit = true;
}

module _ (m : DataMgrFile) (buf_size position : ℕ) (r : IsReading m) (g : IsGood m.file_in) where
  open m use {file_in}

  read_full :
      position < length file_in.content
      → position + buf_size ≤ length file_in.content
      → read m buf_size position
        ≡ ok (
            block_out m
              (at file_in (position + buf_size))
              buf_size
              (slice file_in.content position buf_size))
  unfolding read seekg read_in tellg
  read_full i h = ground arith

  read_short :
      position < length file_in.content
      → length file_in.content < position + buf_size
      → read m buf_size position
        ≡ ok (
            block_out m
              (ended file_in position)
              (length file_in.content - position)
              (drop position file_in.content))
  unfolding read seekg read_in tellg
  read_short i h = ground arith

  read_end :
      position ≡ length file_in.content
      → read m buf_size position ≡ ok (block_out m (at file_in position) 0 [])
  unfolding read seekg read_in tellg
  read_end e = ground arith

  at-IsReading :
      (s : InStream)
      → s.is_open ≡ true
      → s.content ≡ file_in.content
      → IsReading (record m { file_in = s })
  at-IsReading s o e = record {
    kind = r.kind;
    opened = o;
    noted = r.noted ∙ ap length (sym e);
    small = omega (arith, r.small, ap length e);
  }

  -- A good stream gives the block at every position of the file, up to its end, in any order of the
  -- blocks.
  pub read-IsBlock :
      position ≤ length file_in.content
      → (out : ReadOut) × (read m buf_size position ≡ ok out) × IsBlock m buf_size position out
  read-IsBlock h = elim (three_ways position buf_size (length file_in.content) h) [
    | inl e ↦ (
      _,
      read_end e,
      record {
        counted = ap some (omega arith);
        stored = sym (
            ap (take buf_size) (drop-all position file_in.content (omega arith))
            ∙ take-nil buf_size);
        silent = refl;
        reading = at-IsReading (at file_in position) r.opened refl;
        same_file = refl;
        stays_good = λ _. record { no_eof = refl; no_fail = g.no_fail };
      },
    )
    | inr (inl (i, k)) ↦ (
      _,
      read_full i k,
      record {
        counted = ap some (omega arith);
        stored = refl;
        silent = refl;
        reading = at-IsReading (at file_in (position + buf_size)) r.opened refl;
        same_file = refl;
        stays_good = λ _. record { no_eof = refl; no_fail = g.no_fail };
      },
    )
    | inr (inr (i, k)) ↦ (
      _,
      read_short i k,
      record {
        counted = ap some (omega arith);
        stored = sym (take-all buf_size _ (omega (arith, length-drop position file_in.content)));
        silent = refl;
        reading = at-IsReading (ended file_in position) r.opened refl;
        same_file = refl;
        stays_good = λ k'. absurd (omega arith);
      },
    )
  ]

-- A stream that has failed, as it does when the last block is shorter than asked for, still reports
-- the size of the block at any position inside the file, and stores no byte of it.
pub read_after_failure :
    (m : DataMgrFile) (buf_size position : ℕ)
    → IsReading m
    → m.file_in.failbit ≡ true
    → position < length m.file_in.content
    → (out : ReadOut) × (read m buf_size position ≡ ok out)
      × (out.result ≡ some (min (length m.file_in.content - position) buf_size))
      × (out.block ≡ [])
      × (out.mgr.file_in.failbit ≡ true)
unfolding read seekg read_in tellg
read_after_failure m buf_size position r g h = (
  record {
    result = some (min (length m.file_in.content - position) buf_size);
    block = [];
    mgr = record m { file_in = record m.file_in { failbit = true; eofbit = false } };
    report = none;
  },
  ground arith,
  refl,
  refl,
  refl,
)

pub record IsWriting (m : DataMgrFile) : Type 0 where
  pub kind : m.request_type ≡ SrvReq.write
  pub opened : m.file_out.is_open ≡ true
  pub no_bad : m.file_out.badbit ≡ false
  pub inside : m.file_out.pos < 2 ^ 63

-- A block that the file takes is written at its position, whatever the position before.
pub write_lem :
    (m : DataMgrFile) (block : Bytes) (position : ℕ)
    → IsWriting m
    → block ≢ []
    → position < 2 ^ 63
    → (out : WriteOut) × (write true m block position ≡ ok out)
      × (out.result ≡ some (length block))
      × (out.mgr.file_out.content ≡ overwrite m.file_out.content position block)
      × (out.mgr.file_out.pos ≡ position + length block)
      × (out.mgr.file_out.badbit ≡ false)
      × (out.report ≡ none)
unfolding write seekp write_out
write_lem m block position w h p = (
  record {
    result = some (length block);
    mgr = record m {
      file_out = record m.file_out {
        content = overwrite m.file_out.content position block;
        pos = position + length block;
      };
    };
    report = none;
  },
  ground (arith, pos_length block h),
  refl,
  refl,
  refl,
  w.no_bad,
  refl,
)

-- After a write the stream is ready for the next.
pub write-IsWriting :
    (m : DataMgrFile) (block : Bytes) (position : ℕ) {out : WriteOut}
    → IsWriting m
    → block ≢ []
    → position + length block < 2 ^ 63
    → write true m block position ≡ ok out
    → IsWriting out.mgr
unfolding write seekp write_out
write-IsWriting m block position {out} w h p e = ground (arith, pos_length block h)

-- A position that is negative as a `streampos` makes the write throw out of the data manager: the
-- stream is set to throw on `failbit`, and `write` catches nothing.
pub write_negative_position :
    (accepts : Bool) (m : DataMgrFile) (block : Bytes) (position : ℕ)
    → IsWriting m
    → block ≢ []
    → 2 ^ 63 ≤ position
    → write accepts m block position ≡ err stream_failure
unfolding write seekp
write_negative_position accepts m block position w h p = ground (arith, pos_length block h)
