-- ===== src/Settings.antt =====
-- source/tftpSettings.h and source/tftpSettings.cpp: the settings that `Settings::create` gives; and
-- source/tftpBase.cpp: the getters through which the parts of the server read them.
pub mod Load
pub mod Getters
pub mod Help
use server_fw.Prelude.{ℕ, Bool, false, List, [], ◌∷◌, ◌++◌, length, ltb, leb, ◌==◌, if◌then◌else◌}
use server_fw.Prelude.Text.{Bytes, codes}
use server_fw.Common.{LogLvl}
use server_fw.Common.Names.{log_lvl_code}
use server_fw.Addr.{Addr, clear, af_inet, set_family, set_port}

-- Without the callback for messages, which the log alone calls.
pub record Settings : Type 0 where
  pub is_daemon : Bool
  pub local_base : Addr
  pub root_dir : Bytes
  pub backup_dirs : List Bytes
  pub lib_dir : Bytes
  pub lib_name : Bytes
  pub db : Bytes
  pub user : Bytes
  pub pass : Bytes
  pub role : Bytes
  pub dialect : ℕ
  pub use_syslog : ℕ
  pub retransmit_count : ℕ
  pub file_chown_user : Bytes
  pub file_chown_grp : Bytes
  pub file_chmod : ℕ

-- The constructor.
abbrev pub settings : Settings
settings = record {
  is_daemon = false;
  local_base = set_port (set_family clear af_inet) 69;
  root_dir = [];
  backup_dirs = [];
  lib_dir = [];
  lib_name = codes "libfbclient.so";
  db = [];
  user = [];
  pass = [];
  role = [];
  dialect = 3;
  use_syslog = 6;
  retransmit_count = 3;
  file_chown_user = [];
  file_chown_grp = [];
  file_chmod = 436;
}

-- Whether a text ends in a slash.
abbrev pub fin_slash : Bytes → Bool
fin_slash [] = false
fin_slash (c ∷ []) = c == b'/'
fin_slash (c ∷ (d ∷ cs)) = fin_slash (d ∷ cs)

abbrev with_slash : Bytes → Bytes
with_slash dir = dir ++ (if fin_slash dir then [] else codes "/")

unfoldable pub get_root_dir : Settings → Bytes
get_root_dir s = if ltb 0 (length s.root_dir) then with_slash s.root_dir else []

unfoldable pub get_lib_dir : Settings → Bytes
get_lib_dir s = with_slash s.lib_dir

-- `get_serach_dir` copies the list.
abbrev pub get_serach_dir : Settings → List Bytes
get_serach_dir s = s.backup_dirs

abbrev pub get_connection : Settings → Bytes × Bytes × Bytes × Bytes × ℕ
get_connection s = (s.db, s.user, s.pass, s.role, s.dialect)

-- Whether a message of a level goes to the system's log.
abbrev pub is_logged : Settings → LogLvl → Bool
is_logged s lvl = leb (log_lvl_code lvl) s.use_syslog
