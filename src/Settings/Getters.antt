-- ===== src/Settings/Getters.antt =====
-- source/tftpBase.h and source/tftpBase.cpp: class `Base`, the constructor and the getters that copy a
-- setting. Their locks leave no trace, since the settings do not change while the server runs.
use server_fw.Prelude.{ℕ, Bool, List, Option, none, some, Result}
use server_fw.Prelude.Text.{Bytes}
use server_fw.Addr.{Addr}
use server_fw.Addr.Text.{Inet, str}
use server_fw.Settings.{Settings, settings}
use server_fw.Settings.Load
use server_fw.Settings.Help
use server_fw.Settings.Load.{Answer}

-- `Base(const pSettings &)`: a null pointer gives new settings.
abbrev pub base : Option Settings → Settings
base none = settings
base (some sett) = sett

-- The assignment: the settings of the source are shared from then on.
abbrev pub base_assign : Settings → Settings → Settings
base_assign s src = src

abbrev pub server_addr : Settings → Addr
server_addr s = s.local_base

abbrev pub get_lib_name_fb : Settings → Bytes
get_lib_name_fb s = s.lib_name

abbrev pub get_retransmit_count : Settings → ℕ
get_retransmit_count s = s.retransmit_count

abbrev pub get_local_base_str : Inet → Settings → Bytes
get_local_base_str net s = str net s.local_base

abbrev pub get_is_daemon : Settings → Bool
get_is_daemon s = s.is_daemon

abbrev pub get_file_chmod : Settings → ℕ
get_file_chmod s = s.file_chmod

abbrev pub get_file_chown_user : Settings → Bytes
get_file_chown_user s = s.file_chown_user

abbrev pub get_file_chown_grp : Settings → Bytes
get_file_chown_grp s = s.file_chown_grp

-- `load_options`, which hands its arguments on.
abbrev pub load_options : Inet → Settings → ℕ → List Answer → Result (Bool × Settings)
load_options = Load.load_options

-- `out_help` and `out_id`, which hand the stream on.
abbrev pub out_help : Settings → Bytes → Bytes
out_help s app = Help.out_help app

abbrev pub out_id : Settings → Bytes
out_id s = Help.out_id
