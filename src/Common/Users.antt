-- ===== src/Common/Users.antt =====
-- source/tftpCommon.cpp: `get_uid_by_name` and `get_gid_by_name`. The functions `getpwnam_r` and
-- `getgrnam_r` of the C library are a parameter.
use server_fw.Prelude.{ℕ, Option, none, some}
use server_fw.Prelude.Text.{Bytes}
use server_fw.SmBuf.{until_zero}

-- The entry for a name, `none` where the result is null.
pub record Accounts : Type 0 where
  pub passwd : Bytes → Option ℕ
  pub group : Bytes → Option ℕ

abbrev or_root : Option ℕ → ℕ
or_root none = 0
or_root (some id) = id

abbrev pub get_uid_by_name : Accounts → Bytes → ℕ
get_uid_by_name accounts name = or_root (accounts.passwd (until_zero name))

abbrev pub get_gid_by_name : Accounts → Bytes → ℕ
get_gid_by_name accounts name = or_root (accounts.group (until_zero name))
