-- ===== src/Tests/Files.antt =====
-- Files: source/tftpDataMgrFile.cpp at concrete files.
use server_fw.Prelude.{
  ◌-◌, ◌≡◌, ◌⊎◌, ◌↔◌, refl, arith, min, true, false, [], ◌∷◌, length, some, none, ok,
}
use server_fw.Prelude.Text.{Bytes, codes}
use server_fw.Common.{SrvReq}
use server_fw.Options.{Options, options}
use server_fw.Settings.{settings, get_root_dir, get_serach_dir}
use server_fw.DataMgr.Streams.{open_in, open_out}
use server_fw.DataMgr.File.{DataMgrFile, data_mgr_file, ReadOut, read}
use server_fw.DataMgr.File.Blocks.{IsReading, IsBlock, IsWriting, read-IsBlock, read_after_failure}
use server_fw.DataMgr.File.Search.{Files, match_md5, full_search_name}
use server_fw.DataMgr.File.Search.Found.{
  NoneHas, AllHex, IsFirst, full_search_name_order, match_md5_iff,
}
use server_fw.DataMgr.File.Opening.{find_file}

abbrev pub five : Bytes
five = 1 ∷ 2 ∷ 3 ∷ 4 ∷ 5 ∷ []

abbrev pub reader : DataMgrFile
reader = record data_mgr_file { request_type = SrvReq.read; file_size = 5; file_in = open_in five }

pub reader-IsReading : IsReading reader
reader-IsReading = record { kind = refl; opened = refl; noted = refl; small = omega arith }

abbrev failed_reader : DataMgrFile
failed_reader = record reader { file_in = record (open_in five) { failbit = true } }

abbrev pub writer : DataMgrFile
writer = record data_mgr_file { request_type = SrvReq.write; file_out = open_out }

pub writer-IsWriting : IsWriting writer
writer-IsWriting = record { kind = refl; opened = refl; no_bad = refl; inside = omega arith }

read-IsBlock_example : (out : ReadOut) × (read reader 2 4 ≡ ok out) × IsBlock reader 2 4 out
read-IsBlock_example =
    read-IsBlock reader 2 4 reader-IsReading (record { no_eof = refl; no_fail = refl })
      (omega arith)

read_after_failure_example :
    (out : ReadOut) × (read failed_reader 2 1 ≡ ok out)
    × (out.result ≡ some (min (length five - 1) 2))
    × (out.block ≡ [])
    × (out.mgr.file_in.failbit ≡ true)
read_after_failure_example =
    read_after_failure failed_reader 2 1
      (record { kind = refl; opened = refl; noted = refl; small = omega arith }) refl (omega arith)

-- A system on which every name is a regular file with the same five bytes.
abbrev pub same_files : Files
same_files = record {
  exists = λ path. true;
  is_regular_file = λ path. true;
  is_directory = λ path. false;
  content = λ path. five;
  listing = λ path. [];
  open_error = λ path. none;
  create_error = λ path. none;
}

abbrev pub read_request : Options
read_request = record options { request_type = SrvReq.read; filename = codes "f" }

pub finds : find_file same_files settings (codes "f") ≡ some (codes "f")
unfolding find_file full_search_name match_md5 get_root_dir
finds = refl

full_search_name_order_example :
    ((full_search_name same_files settings (codes "f") ≡ none)
      × NoneHas same_files (codes "f") (get_root_dir settings ∷ get_serach_dir settings))
    ⊎ ((file : Bytes) × (full_search_name same_files settings (codes "f") ≡ some file)
        × IsFirst same_files (codes "f") (get_root_dir settings ∷ get_serach_dir settings) file)
full_search_name_order_example = full_search_name_order same_files settings (codes "f")

match_md5_iff_example : (match_md5 (codes "0123456789abcdef0123456789ABCDEF") ≡ true) ↔ (
    (length (codes "0123456789abcdef0123456789ABCDEF") ≡ 32)
    × AllHex (codes "0123456789abcdef0123456789ABCDEF"))
match_md5_iff_example = match_md5_iff (codes "0123456789abcdef0123456789ABCDEF")
