-- ===== src/Tests/Startup.antt =====
-- The command line: source/tftpSettings.cpp and source/server-fw.cpp at a few options.
use server_fw.Prelude.{
  ℕ, ◌≡◌, refl, arith, Bool, true, List, [], ◌∷◌, ◌++◌, leb, some, none, Fault, ok, err,
}
use server_fw.Prelude.Text.{Bytes, codes}
use server_fw.Common.Strings.Numbers.{stoi}
use server_fw.Settings.{Settings, settings}
use server_fw.Settings.Load.{Answer, option, load_options}
use server_fw.Settings.Load.Answers.{Loaded, load_options-Loaded}
use server_fw.Main.{Forked, Host, Action, main}
use server_fw.Main.Exits.{Exit, main-Exit, main_bad_mode}
use server_fw.Tests.Addresses.{net}

abbrev long : ℕ → Bytes → Answer
long i arg = record { opt = 0; long_index = i; optarg = some arg }

abbrev line : List Answer
line = long 7 (codes "/a") ∷ long 17 (codes "664") ∷ long 7 (codes "/b") ∷ []

load_options-Loaded_example :
    (r : Bool × Settings) × (load_options net settings 7 line ≡ ok r)
    × Loaded true (record settings { backup_dirs = [] }) line r
unfolding stoi
load_options-Loaded_example = load_options-Loaded net settings 7 line (omega arith) refl

-- A daemon whose child is found to have ended at the third look.
abbrev host : Host
host = record {
  net = net;
  argc = 2;
  answers = record { opt = 0; long_index = 13; optarg = none } ∷ [];
  fork = Forked.parent;
  chdir_ok = true;
  gone = λ wc. leb 2 wc;
  sys = record { new_socket = some 3; bind_ok = true };
}

as_daemon :
    load_options net settings 2 host.answers ≡ ok (true, record settings { is_daemon = true })
unfolding load_options option
as_daemon = refl

main-Exit_example :
    (code : ℕ) × (actions : List Action) × (main host ≡ ok (code, actions))
    × Exit host true (record settings { is_daemon = true }) code actions
main-Exit_example = main-Exit host true (record settings { is_daemon = true }) as_daemon

abbrev bad_mode : Host
bad_mode = record host {
  argc = 8;
  answers = line ++ long 17 (codes "rw") ∷ long 7 (codes "/c") ∷ [];
}

main_bad_mode_example : (f : Fault) × (main bad_mode ≡ err f)
unfolding stoi
main_bad_mode_example =
    main_bad_mode bad_mode line (long 7 (codes "/c") ∷ []) (long 17 (codes "rw")) refl (omega arith)
      refl refl
