-- ===== src/Settings/Load/Named.antt =====
-- source/tftpSettings.cpp: the names of the options and what they set.
use server_fw.Prelude.{
  ℕ, ◌+◌, ◌^◌, ◌<◌, ◌≡◌, refl, arith, Bool, true, List, [], ◌∷◌, ◌++◌, if◌then◌else◌, Option, none,
  some, Result, ok, err, invalid_argument,
}
use server_fw.Prelude.Text.{Bytes, codes, text_eq}
use server_fw.Common.Strings.Numbers.{stoul, stoul-to_string, stoi-to_string}
use server_fw.Common.Strings.Decimal.{to_string}
use server_fw.Addr.Text.{Inet}
use server_fw.Addr.Parse.{set_string}
use server_fw.Settings.{Settings}
use server_fw.Settings.Load.{Answer, LongOpt, long_opts, option}

-- What `getopt_long` gives for a long name in full: the value of its row and the row's index.
abbrev pub answer_from : ℕ → List LongOpt → Bytes → Option Bytes → Option Answer
answer_from i [] name arg = none
answer_from i (o ∷ os) name arg =
    if text_eq o.name name
    then some (record { opt = o.val; long_index = i; optarg = arg })
    else answer_from (i + 1) os name arg

abbrev pub named : Bytes → Bytes → Option Answer
named name arg = answer_from 0 long_opts name (some arg)

-- The settings after a long option that is in the table.
abbrev pub given : Inet → Settings → Bytes → Bytes → Option (Result (Bool × Settings))
given net s name arg = elim (named name arg) [
  | none ↦ none
  | some a ↦ some (option net (true, s) a)
]

abbrev pub done : Settings → Option (Result (Bool × Settings))
done s = some (ok (true, s))

-- Each name of the table sets the setting that it names, and no other: the numbers of the `case`
-- labels are those of the rows.
pub long_opts_lem :
    (net : Inet) (s : Settings) (arg : Bytes)
    → (given net s (codes "lib-dir") arg ≡ done (record s { lib_dir = arg }))
      × (given net s (codes "lib-name") arg ≡ done (record s { lib_name = arg }))
      × (given net s (codes "root-dir") arg ≡ done (record s { root_dir = arg }))
      × (given net s (codes "search") arg
          ≡ done (record s { backup_dirs = s.backup_dirs ++ arg ∷ [] }))
      × (given net s (codes "fb-db") arg ≡ done (record s { db = arg }))
      × (given net s (codes "fb-user") arg ≡ done (record s { user = arg }))
      × (given net s (codes "fb-pass") arg ≡ done (record s { pass = arg }))
      × (given net s (codes "fb-role") arg ≡ done (record s { role = arg }))
      × (given net s (codes "daemon") arg ≡ done (record s { is_daemon = true }))
      × (given net s (codes "file-chuser") arg ≡ done (record s { file_chown_user = arg }))
      × (given net s (codes "file-chgrp") arg ≡ done (record s { file_chown_grp = arg }))
      × (given net s (codes "listen") arg
          ≡ done (record s { local_base = (set_string net s.local_base arg).1 }))
      × (given net s (codes "ip") arg ≡ given net s (codes "listen") arg)
unfolding option text_eq
long_opts_lem net s arg =
    (refl, refl, refl, refl, refl, refl, refl, refl, refl, refl, refl, refl, refl)

-- The options `--fb-dialect`, `--retransmit` and `--syslog` set their number, if the argument is one that
-- the setting holds; the first two leave the setting if no number can be read; `-L` sets nothing,
-- whatever its argument.
pub option_numbers :
    (net : Inet) (s : Settings) (n : ℕ) (arg : Bytes)
    → (n < 2 ^ 16
        → given net s (codes "fb-dialect") (to_string n) ≡ done (record s { dialect = n }))
      × (n < 2 ^ 16
          → given net s (codes "retransmit") (to_string n)
            ≡ done (record s { retransmit_count = n }))
      × (n < 8 → given net s (codes "syslog") (to_string n) ≡ done (record s { use_syslog = n }))
      × (stoul arg ≡ err invalid_argument
          → (given net s (codes "fb-dialect") arg ≡ done s)
            × (given net s (codes "retransmit") arg ≡ done s))
      × (option net (true, s) (record { opt = b'L'; long_index = 0; optarg = some arg })
          ≡ ok (true, s))
unfolding option text_eq
option_numbers net s n arg = (
  λ h. ground (arith, stoul-to_string n (omega arith)),
  λ h. ground (arith, stoul-to_string n (omega arith)),
  λ h. ground (arith, stoi-to_string n (omega arith)),
  λ e. (ground (arith, e), ground (arith, e)),
  refl,
)
