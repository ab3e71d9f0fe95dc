-- ===== src/DataMgr/File/Opening.antt =====
-- source/tftpDataMgrFile.cpp: `DataMgrFile::init` and `DataMgrFile::close`.
pub mod Mode
use server_fw.Prelude.{
  ℕ, ◌+◌, ◌*◌, ◌/◌, ◌%◌, ◌^◌, ◌<◌, ◌≡◌, ◌⊎◌, inl, inr, refl, arith, Bool, true, false, ◌||◌, [],
  length, ltb, ◌==◌, if◌then◌else◌, Option, none, some, sym, ap, subst, ◌∙◌, Result, ok, err,
  stream_failure,
}
use server_fw.Prelude.Text.{Bytes, codes}
use server_fw.Common.{SrvReq}
use server_fw.Common.Users.{Accounts, get_uid_by_name, get_gid_by_name}
use server_fw.Options.{Options}
use server_fw.Settings.{Settings, get_root_dir}
use server_fw.DataMgr.{Report}
use server_fw.DataMgr.Streams.{closed_in, open_in, open_out}
use server_fw.DataMgr.File.{DataMgrFile, data_mgr_file, is_write}
use server_fw.DataMgr.File.Blocks.{IsReading, IsGood, IsWriting}
use server_fw.DataMgr.File.Search.{Files, match_md5, full_search_md5, full_search_name, path_join}

-- The result, the manager, and the error handed to the session.
pub record Init : Type 0 where
  pub ret : Bool
  pub mgr : DataMgrFile
  pub report : Report

-- The file that a read request means: by its MD5 sum, if the name is one and leads to a file, or else
-- by its name.
unfoldable pub find_file : Files → Settings → Bytes → Option Bytes
find_file fs s name =
    let by_name = full_search_name fs s name in
    if match_md5 name
    then elim (full_search_md5 fs s name) [ none ↦ by_name | some file ↦ some file ]
    else by_name

-- After a failed open the stream is closed while it still throws on a failure: that leaves `init`.
abbrev init_read : Files → DataMgrFile → Option Bytes → Result Init
init_read fs m none = ok (record {
  ret = false;
  mgr = record m { filename = [] };
  report = some (1, codes "File not found");
})
init_read fs m (some file) = elim (fs.open_error file) [
  | some what ↦ err stream_failure
  | none ↦ ok (record {
    ret = true;
    mgr = record m {
      filename = file;
      file_in = open_in (fs.content file);
      file_size = length (fs.content file);
    };
    report = none;
  })
]

abbrev init_write : Files → DataMgrFile → Bytes → Init
init_write fs m file =
    if fs.exists file
    then record {
      ret = false;
      mgr = record m { filename = file };
      report = some (6, codes "File already exists");
    }
    else elim (fs.create_error file) [
      | some what ↦ record {
        ret = false;
        mgr = record m { filename = file };
        report = some (0, what);
      }
      | none ↦ record {
        ret = true;
        mgr = record m { filename = file; file_out = open_out };
        report = none;
      }
    ]

-- `init` of a manager that was just constructed.
unfoldable pub init : Files → Settings → Options → Result Init
init fs s o =
    let m = record data_mgr_file { request_type = o.request_type } in
    elim o.request_type [
      | SrvReq.unknown ↦ ok (record { ret = false; mgr = m; report = none })
      | SrvReq.read ↦ init_read fs m (find_file fs s o.filename)
      | SrvReq.write ↦ ok (init_write fs m (path_join (get_root_dir s) o.filename))
    ]

-- Bit `k` of a mode.
abbrev pub bit : ℕ → ℕ → Bool
bit mode k = mode / 2 ^ k % 2 == 1

abbrev flag : ℕ → ℕ → ℕ
flag mode k = if bit mode k then 2 ^ k else 0

-- `curr_perm`: the read and write bits of the user, the group and the others.
unfoldable pub curr_perm : ℕ → ℕ
curr_perm mode =
    flag mode 8 + flag mode 7 + (flag mode 5 + flag mode 4) + (flag mode 2 + flag mode 1)

-- What `close` leaves, and the calls of `chown`, with the numbers of the user and the group, and of
-- `permissions`.
pub record Closed : Type 0 where
  pub mgr : DataMgrFile
  pub chown : Option (ℕ × ℕ)
  pub chmod : Option ℕ

unfoldable pub close : Accounts → Settings → DataMgrFile → Closed
unfolding curr_perm
close accounts s m =
    let m' = record m {
      file_in = record (m.file_in) { is_open = false };
      file_out = record (m.file_out) { is_open = false };
    } in
    if is_write m.request_type
    then record {
      mgr = m';
      chown =
          (if ltb 0 (length s.file_chown_user) || ltb 0 (length s.file_chown_grp)
            then some (
              get_uid_by_name accounts s.file_chown_user,
              get_gid_by_name accounts s.file_chown_grp,
            )
            else none);
      chmod = some (curr_perm s.file_chmod);
    }
    else record { mgr = m'; chown = none; chmod = none }

-- A manager that is ready to read a file from its start, in whole.
pub record Opened (content : Bytes) (r : Init) : Type 0 where
  pub granted : r.ret ≡ true
  pub reads : IsReading r.mgr
  pub good : IsGood r.mgr.file_in
  pub same : r.mgr.file_in.content ≡ content
  pub at_start : r.mgr.file_in.pos ≡ 0
  pub silent : r.report ≡ none

-- A read request that is granted opens the file that was found.
pub init_of_read :
    (fs : Files) (s : Settings) (o : Options) (file : Bytes)
    → o.request_type ≡ SrvReq.read
    → find_file fs s o.filename ≡ some file
    → fs.open_error file ≡ none
    → length (fs.content file) < 2 ^ 63
    → (r : Init) × (init fs s o ≡ ok r) × Opened (fs.content file) r
unfolding init
init_of_read fs s o file h f e n =
    let m : DataMgrFile = record data_mgr_file {
      request_type = SrvReq.read;
      filename = file;
      file_in = open_in (fs.content file);
      file_size = length (fs.content file);
    } in
    (
      record { ret = true; mgr = m; report = none },
      ground (arith, h, f, e),
      record {
        granted = refl;
        reads = record { kind = refl; opened = refl; noted = refl; small = n };
        good = record { no_eof = refl; no_fail = refl };
        same = refl;
        at_start = refl;
        silent = refl;
      },
    )

-- A file that was found and cannot be opened.
pub init_unopened :
    (fs : Files) (s : Settings) (o : Options) (file : Bytes) {what : Bytes}
    → o.request_type ≡ SrvReq.read
    → find_file fs s o.filename ≡ some file
    → fs.open_error file ≡ some what
    → init fs s o ≡ err stream_failure
unfolding init
init_unopened fs s o file {what} h f e = ground (arith, h, f, e)

-- A manager that is ready to write to an empty file.
pub record Created (name : Bytes) (r : Init) : Type 0 where
  pub granted : r.ret ≡ true
  pub named : r.mgr.filename ≡ name
  pub writes : IsWriting r.mgr
  pub empty : r.mgr.file_out.content ≡ []
  pub silent : r.report ≡ none

pub init_of_write :
    (fs : Files) (s : Settings) (o : Options)
    → o.request_type ≡ SrvReq.write
    → fs.exists (path_join (get_root_dir s) o.filename) ≡ false
    → fs.create_error (path_join (get_root_dir s) o.filename) ≡ none
    → (r : Init) × (init fs s o ≡ ok r) × Created (path_join (get_root_dir s) o.filename) r
unfolding init
init_of_write fs s o h x c =
    let m : DataMgrFile = record data_mgr_file {
      request_type = SrvReq.write;
      filename = path_join (get_root_dir s) o.filename;
      file_out = open_out;
    } in
    (
      record { ret = true; mgr = m; report = none },
      ground (arith, h, x, c),
      record {
        granted = refl;
        named = refl;
        writes = record { kind = refl; opened = refl; no_bad = refl; inside = omega arith };
        empty = refl;
        silent = refl;
      },
    )

-- A write request whose name is taken.
pub init_exists :
    (fs : Files) (s : Settings) (o : Options)
    → o.request_type ≡ SrvReq.write
    → fs.exists (path_join (get_root_dir s) o.filename) ≡ true
    → (m : DataMgrFile) × (m.request_type ≡ SrvReq.write)
      × (m.file_out.content ≡ [])
      × (m.filename ≡ path_join (get_root_dir s) o.filename)
      × (init fs s o
          ≡ ok (record { ret = false; mgr = m; report = some (6, codes "File already exists") }))
unfolding init
init_exists fs s o h x = (
  record data_mgr_file {
    request_type = SrvReq.write;
    filename = path_join (get_root_dir s) o.filename;
  },
  refl,
  refl,
  refl,
  ground (arith, h, x),
)
