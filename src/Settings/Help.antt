-- ===== src/Settings/Help.antt =====
-- source/tftpSettings.cpp: the texts that `out_help` and `out_id` put into their stream.
pub mod Names
use server_fw.Prelude.{ℕ, List, [], ◌∷◌, ◌++◌}
use server_fw.Prelude.Text.{Bytes, codes}
use server_fw.Common.Strings.Decimal.{to_string}

-- source/tftpCommon.h and source/tftpSettings.h, `constants`.
abbrev pub app_version : Bytes
app_version = codes "0.2.1"

abbrev default_tftp_port : ℕ
default_tftp_port = 69

abbrev default_fb_dialect : ℕ
default_fb_dialect = 3

abbrev default_tftp_syslog_lvl : ℕ
default_tftp_syslog_lvl = 6

abbrev default_fb_lib_name : Bytes
default_fb_lib_name = codes "libfbclient.so"

-- Each line is ended by `std::endl`.
abbrev pub lines : List Bytes → Bytes
lines [] = []
lines (l ∷ ls) = l ++ 10 ∷ lines ls

pub out_id : Bytes
out_id = lines (
    (codes "Simple tftp firmware server 'server-fw' v"
      ++ (app_version ++ codes " licensed GPL-3.0"))
    ∷ codes "(c) 2019-2021 Vitaliy.V.Shirinkin, e-mail: vitaliy.shirinkin@gmail.com"
    ∷ [])

-- The lines that do not depend on the name of the program.
abbrev pub option_lines : List Bytes
option_lines =
    codes "Possible options:"
    ∷ codes "  {-h|-H|-?|--help} Show help message"
    ∷ codes "  {-l|-L|--ip|--listen} {<IPv4>|[<IPv6>]}[:port] Listening address and port"
    ∷ (codes "    (default 0.0.0.0:" ++ (to_string default_tftp_port ++ codes ")"))
    ∷ codes "    Sample IPv4: 192.168.0.1:69"
    ∷ codes "    Sample IPv6: [::1]:69"
    ∷ (codes "  {-s|-S|--syslog} <0...7> SYSLOG level flooding (default "
        ++ (to_string default_tftp_syslog_lvl ++ codes ")"))
    ∷ codes "  --lib-dir <directory> System library directory"
    ∷ (codes "  --lib-name <name> Firebird library filename (default "
        ++ (default_fb_lib_name ++ codes ")"))
    ∷ codes "  --root-dir <directory> Server root directory"
    ∷ codes "  --search <directory> Directory for recursive search by md5 sum (may be much)"
    ∷ codes "  --fb-db <database> Firebird access database name"
    ∷ codes "  --fb-user <username> Firebird access user name"
    ∷ codes "  --fb-pass <password> Firebird access password"
    ∷ codes "  --fb-role <role> Firebird access role"
    ∷ (codes "  --fb-dialect <1...3> Firebird server dialect (default "
        ++ (to_string default_fb_dialect ++ codes ")"))
    ∷ codes "  --daemon Run as daemon"
    ∷ codes "  --retransmit <N> Maximum retransmit count if fail"
    ∷ codes "  --file-chuser <user name> Set user owner for created files (default root)"
    ∷ codes "  --file-chgrp <group name> Set group owner for created files (default root)"
    ∷ codes "    Warning: if user/group not exist then use root"
    ∷ codes "  --file-chmod <permissions> Set permissions for created files (default 0664)"
    ∷ codes "    Warning: can set only r/w bits - maximum 0666; can't set x-bits and superbits"
    ∷ []

abbrev pub intro_lines : Bytes → List Bytes
intro_lines app =
    codes "Some features:"
    ∷ codes "  - Recursive search requested files by md5 sum in search directory"
    ∷ codes "  - Use Firebird SQL server as file storage (optional requirement)"
    ∷ (codes "Usage: "
        ++ (app ++ codes " [<option1> [<option1 argument>]] [<option2> [<option2 argument>]] ... "))
    ∷ []

-- The lines of the help, for the name of the program.
abbrev pub help_lines : Bytes → List Bytes
help_lines app = intro_lines app ++ option_lines

pub out_help : Bytes → Bytes
out_help app = out_id ++ lines (help_lines app)
