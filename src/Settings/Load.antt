-- ===== src/Settings/Load.antt =====
-- source/tftpSettings.cpp: `load_options`. The function `getopt_long` of the C library is a parameter:
-- the list of what its calls give until it gives -1.
pub mod Named
pub mod Kept
pub mod Answers
use server_fw.Prelude.{
  ℕ, ◌%◌, ◌^◌, ◌≡◌, Bool, true, false, ◌||◌, List, [], ◌∷◌, ◌++◌, ltb, ◌==◌, if◌then◌else◌, Option,
  none, some, Result, ok, err, ◌>>=◌, ◌>>◌,
}
use server_fw.Prelude.Text.{Bytes, codes}
use server_fw.Common.Strings.Numbers.{stoul, stoi}
use server_fw.Addr.Text.{Inet}
use server_fw.Addr.Parse.{set_string}
use server_fw.Settings.{Settings}

-- The return value, the index that a long option stores, and `optarg`, which may be null.
pub record Answer : Type 0 where
  pub opt : ℕ
  pub long_index : ℕ
  pub optarg : Option Bytes

abbrev pub opt_string : Bytes
opt_string = codes "l:L:s:S:h?"

-- A row of `longOpts`: the name, whether an argument is required, and the value to return.
pub record LongOpt : Type 0 where
  pub name : Bytes
  pub required : Bool
  pub val : ℕ

abbrev row : Bytes → Bool → ℕ → LongOpt
row name required val = record { name = name; required = required; val = val }

-- `longOpts` without its last row, which ends it.
abbrev pub long_opts : List LongOpt
long_opts =
    row (codes "listen") true b'l'
    ∷ row (codes "ip") true b'l'
    ∷ row (codes "syslog") true b's'
    ∷ row (codes "help") false b'h'
    ∷ row (codes "lib-dir") true 0
    ∷ row (codes "lib-name") true 0
    ∷ row (codes "root-dir") true 0
    ∷ row (codes "search") true 0
    ∷ row (codes "fb-db") true 0
    ∷ row (codes "fb-user") true 0
    ∷ row (codes "fb-pass") true 0
    ∷ row (codes "fb-role") true 0
    ∷ row (codes "fb-dialect") true 0
    ∷ row (codes "daemon") false 0
    ∷ row (codes "retransmit") true 0
    ∷ row (codes "file-chuser") true 0
    ∷ row (codes "file-chgrp") true 0
    ∷ row (codes "file-chmod") true 0
    ∷ []

-- `LOG_PRI`
abbrev log_pri : ℕ → ℕ
log_pri p = p % 8

-- The two `try` blocks: a number that cannot be read leaves the setting.
abbrev pub or_else : ℕ → Result ℕ → ℕ
or_else old (err _) = old
or_else old (ok new) = new

-- The inner `switch`, on an argument that is not null.
abbrev pub long_value : Settings → ℕ → Bytes → Result Settings
long_value s long_index arg =
    if long_index == 4
    then ok (record s { lib_dir = arg })
    else if long_index == 5
    then ok (record s { lib_name = arg })
    else if long_index == 6
    then ok (record s { root_dir = arg })
    else if long_index == 7
    then ok (record s { backup_dirs = s.backup_dirs ++ arg ∷ [] })
    else if long_index == 8
    then ok (record s { db = arg })
    else if long_index == 9
    then ok (record s { user = arg })
    else if long_index == 10
    then ok (record s { pass = arg })
    else if long_index == 11
    then ok (record s { role = arg })
    else if long_index == 12
    then ok (record s { dialect = or_else s.dialect (stoul arg >>= λ v. ok (v % 2 ^ 16)) })
    else if long_index == 14
    then ok (record s {
      retransmit_count = or_else s.retransmit_count (stoul arg >>= λ v. ok (v % 2 ^ 16));
    })
    else if long_index == 15
    then ok (record s { file_chown_user = arg })
    else if long_index == 16
    then ok (record s { file_chown_grp = arg })
    else if long_index == 17
    then stoi 8 arg >>= (λ mode. ok (record s { file_chmod = mode }))
    else ok s

abbrev pub long_option : Settings → ℕ → Option Bytes → Result Settings
long_option s long_index optarg =
    if long_index == 13
    then ok (record s { is_daemon = true })
    else elim optarg [ none ↦ ok s | some arg ↦ long_value s long_index arg ]

abbrev pub listen : Inet → Settings → Option Bytes → Settings
listen net s none = s
listen net s (some arg) = record s { local_base = (set_string net s.local_base arg).1 }

abbrev pub syslog_level : Settings → Option Bytes → Settings
syslog_level s none = s
syslog_level s (some arg) = record s {
  use_syslog = or_else s.use_syslog (stoi 10 arg >>= λ v. ok (log_pri v));
}

abbrev pub is_help : ℕ → Bool
is_help opt = opt == b'h' || opt == b'H' || opt == b'?'

-- One turn of the loop, on the settings and the result so far.
unfoldable pub option : Inet → Bool × Settings → Answer → Result (Bool × Settings)
option net (ret, s) a =
    if a.opt == b'l'
    then ok (ret, listen net s a.optarg)
    else if a.opt == b's' || a.opt == b'S'
    then ok (ret, syslog_level s a.optarg)
    else if is_help a.opt
    then ok (false, s)
    else if a.opt == 0
    then long_option s a.long_index a.optarg >>= (λ s'. ok (ret, s'))
    else ok (ret, s)

abbrev pub options : Inet → Bool × Settings → List Answer → Result (Bool × Settings)
options net r [] = ok r
options net r (a ∷ answers) = option net r a >>= λ r'. options net r' answers

-- Without an argument on the command line no option is read.
unfoldable pub load_options : Inet → Settings → ℕ → List Answer → Result (Bool × Settings)
unfolding option
load_options net s argc answers =
    let s' = record s { backup_dirs = [] } in
    if ltb 1 argc then options net (true, s') answers else ok (true, s')
