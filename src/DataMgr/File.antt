-- ===== src/DataMgr/File.antt =====
-- source/tftpDataMgrFile.cpp: `DataMgrFile`, its state and the transfer of blocks. A result is
-- `none` for a negative `ssize_t`.
pub mod Blocks
pub mod Appending
pub mod Search
pub mod Opening
use server_fw.Prelude.{
  ℕ, ◌+◌, ◌-◌, ◌^◌, Bool, true, false, not, ◌&&◌, ◌||◌, [], ◌∷◌, length, min, ltb, leb, ◌==◌,
  if◌then◌else◌, Option, none, some, Result, ok, err, ◌>>=◌, ◌>>◌, guard, runtime_error,
}
use server_fw.Prelude.Text.{Bytes, codes}
use server_fw.Common.{SrvReq}
use server_fw.DataMgr.{Report}
use server_fw.DataMgr.Streams.{
  InStream, OutStream, closed_in, closed_out, tellg, seekg, read_in, tellp, seekp, write_out,
  is_pos,
}
use server_fw.SmBuf.{size_mod}

pub record DataMgrFile : Type 0 where
  pub request_type : SrvReq
  pub file_size : ℕ
  pub filename : Bytes
  pub file_in : InStream
  pub file_out : OutStream

-- The constructors of `DataMgr` and `DataMgrFile`.
abbrev pub data_mgr_file : DataMgrFile
data_mgr_file = record {
  request_type = SrvReq.unknown;
  file_size = 0;
  filename = [];
  file_in = closed_in;
  file_out = closed_out;
}

abbrev pub is_read : SrvReq → Bool
is_read SrvReq.read = true
is_read _ = false

abbrev pub is_write : SrvReq → Bool
is_write SrvReq.write = true
is_write _ = false

pub active : DataMgrFile → Bool
active m =
    (is_read m.request_type && m.file_in.is_open) || (is_write m.request_type && m.file_out.is_open)

-- What a call of `read` leaves: its result, the bytes stored in the caller's buffer, the manager,
-- and the error handed to the session.
pub record ReadOut : Type 0 where
  pub result : Option ℕ
  pub block : Bytes
  pub mgr : DataMgrFile
  pub report : Report

-- `static_cast<ssize_t>(file_size_) - (ssize_t)position`
abbrev pub bytes_left : ℕ → ℕ → Option ℕ
bytes_left file_size position =
    if is_pos position
    then (if leb position file_size then some (file_size - position) else none)
    else some (file_size + (size_mod - position))

-- `curr_pos != (ssize_t)position`, and the seek if so.
abbrev pub seek_if_moved : Option ℕ × InStream → ℕ → InStream
seek_if_moved (none, s) position = if position == size_mod - 1 then s else seekg s position
seek_if_moved (some curr_pos, s) position = if curr_pos == position then s else seekg s position

abbrev pub read_left : DataMgrFile → InStream → ℕ → Option ℕ → ReadOut
read_left m s buf_size none = record {
  result = none;
  block = [];
  mgr = record m { file_in = s };
  report = none;
}
read_left m s buf_size (some left) =
    if left == 0
    then record { result = some 0; block = []; mgr = record m { file_in = s }; report = none }
    else (let (block, s') = read_in s buf_size in
        record {
          result = some (min left buf_size);
          block = block;
          mgr = record m { file_in = s' };
          report = none;
        })

unfoldable pub read : DataMgrFile → ℕ → ℕ → Result ReadOut
unfolding tellg
read m buf_size position = do
  guard (is_read m.request_type) runtime_error
  if m.file_in.is_open
      then ok (
          read_left m (seek_if_moved (tellg m.file_in) position) buf_size
            (bytes_left m.file_size position))
      else ok (record {
        result = none;
        block = [];
        mgr = m;
        report = some (0, codes "Server read stream not opened");
      })

pub record WriteOut : Type 0 where
  pub result : Option ℕ
  pub mgr : DataMgrFile
  pub report : Report

-- `file_out_.tellp() != (ssize_t)position`
abbrev pub moved : OutStream → ℕ → Bool
moved s position = elim (tellp s) [
  | none ↦ not (position == size_mod - 1)
  | some p ↦ not (p == position)
]

abbrev write_failed : DataMgrFile → OutStream → Bytes → WriteOut
write_failed m s why = record {
  result = none;
  mgr = record m { file_out = s };
  report = some (0, why);
}

-- The write, at a stream that stands at `position`, and the check behind it.
abbrev write_block : Bool → DataMgrFile → OutStream → Bytes → ℕ → WriteOut
write_block accepts m s block position =
    let s' = write_out accepts s block in
    elim (tellp s') [
      | none ↦ write_failed m s' (codes "Server write stream failed - no writed data")
      | some end_pos ↦ record {
        result = some (end_pos - position);
        mgr = record m { file_out = s' };
        report = none;
      }
    ]

write_at : Bool → DataMgrFile → Bytes → ℕ → Result WriteOut
unfolding tellp
write_at accepts m block position = do
  s ← if moved m.file_out position then seekp m.file_out position else ok m.file_out
  if moved s position
      then ok (write_failed m s (codes "Server write stream seek failed"))
      else ok (write_block accepts m s block position)

unfoldable pub write : Bool → DataMgrFile → Bytes → ℕ → Result WriteOut
unfolding write_at
write accepts m block position = do
  guard (is_write m.request_type) runtime_error
  if m.file_out.is_open
      then (if length block == 0
          then ok (record { result = some 0; mgr = m; report = none })
          else write_at accepts m block position)
      else ok (write_failed m m.file_out (codes "Server write stream not opened"))
