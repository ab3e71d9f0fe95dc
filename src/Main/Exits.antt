-- ===== src/Main/Exits.antt =====
-- source/server-fw.cpp: what `main` returns, and when the server runs.
use server_fw.Prelude.{
  ℕ, zero, suc, ◌+◌, ◌<◌, ◌≡◌, refl, ap, ◌∙◌, arith, Bool, true, false, not, ◌&&◌, ◌||◌, List, [],
  ◌∷◌, ◌++◌, ◌==◌, Fault, ok, err,
}
use server_fw.Settings.{Settings, settings}
use server_fw.Settings.Load.{Answer, load_options}
use server_fw.Settings.Load.Kept.{is_ok, all_readable, readable, mode_text}
use server_fw.Settings.Load.Answers.{value_of, load_options_bad_mode}
use server_fw.Settings.Getters.{get_is_daemon}
use server_fw.Srv
use server_fw.Srv.{srv}
use server_fw.Main.{Forked, Host, Action, wait_daemon, wait_fuel, main}

-- Whether one of so many calls, from one on, finds the daemon ended.
abbrev pub some_gone : ℕ → (ℕ → Bool) → ℕ → Bool
some_gone zero gone wc = false
some_gone (suc n) gone wc = gone wc || some_gone n gone (wc + 1)

waited :
    (fuel : ℕ) (gone : ℕ → Bool) (wc : ℕ)
    → wc + suc fuel ≡ wait_fuel
    → wait_daemon (suc fuel) gone wc ≡ ok (some_gone (suc fuel) gone wc)
unfolding wait_daemon
waited zero gone wc h = ground arith
waited (suc fuel) gone wc h = ground (arith, waited fuel gone (wc + 1) (omega arith))

-- The parent's loop ends after at most 26 calls of `waitpid`, and says that the daemon failed exactly
-- if one of these finds it ended.
pub wait_daemon_lem : (gone : ℕ → Bool) → wait_daemon wait_fuel gone 0 ≡ ok (some_gone 26 gone 0)
wait_daemon_lem gone = waited 25 gone 0 refl

-- Whether the loop of the server ran.
abbrev pub looped : List Action → Bool
looped [] = false
looped (Action.main_loop s ∷ more) = true
looped (a ∷ more) = looped more

abbrev pub is_child : Forked → Bool
is_child Forked.child = true
is_child _ = false

abbrev pub is_parent : Forked → Bool
is_parent Forked.parent = true
is_parent _ = false

-- Whether this process is the one that serves.
abbrev pub is_server : Host → Settings → Bool
is_server host st = not (get_is_daemon st) || is_child host.fork

-- What `main` gives for options that were read.
pub record Exit (host : Host) (loaded : Bool) (st : Settings) (code : ℕ) (done : List Action)
    : Type 0 where
  pub served : looped done ≡ (loaded && is_server host st && (Srv.init host.sys (srv st)).0)
  pub succeeded : (code == 0) ≡ (looped done || (loaded && get_is_daemon st && is_parent host.fork))
  pub or_failed : (code == 1) ≡ not (code == 0)

main_ok :
    (host : Host) (loaded : Bool) (st : Settings)
    → load_options host.net settings host.argc host.answers ≡ ok (loaded, st)
    → is_ok (main host) ≡ true
unfolding main
main_ok host loaded st e = ground (arith, e, wait_daemon_lem host.gone)

-- Once the options are read, `main` returns 0 or 1. The loop of the server runs exactly if no help was
-- asked for, the process is a daemon's child or needs no daemon, and the server's start succeeds. The
-- code is 0 exactly if it ran, or in the parent of a daemon, also when the daemon was found to have
-- failed.
pub main-Exit :
    (host : Host) (loaded : Bool) (st : Settings)
    → load_options host.net settings host.argc host.answers ≡ ok (loaded, st)
    → (code : ℕ) × (done : List Action) × (main host ≡ ok (code, done))
      × Exit host loaded st code done
unfolding main
main-Exit host loaded st e =
    let ((code, done), q) = value_of (main host) (main_ok host loaded st e) in
    (
      code,
      done,
      q,
      record {
        served = ground (arith, e, q, wait_daemon_lem host.gone);
        succeeded = ground (arith, e, q, wait_daemon_lem host.gone);
        or_failed = ground (arith, e, q, wait_daemon_lem host.gone);
      },
    )

-- A `--file-chmod` without an octal number ends the program with an exception: `main` returns nothing.
pub main_bad_mode :
    (host : Host) (before after : List Answer) (a : Answer)
    → host.answers ≡ before ++ a ∷ after
    → 1 < host.argc
    → all_readable before ≡ true
    → readable (mode_text a) ≡ false
    → (f : Fault) × (main host ≡ err f)
unfolding main
main_bad_mode host before after a e h b bad =
    let (f, q) = load_options_bad_mode host.net settings host.argc before after a h b bad in
    let thrown : load_options host.net settings host.argc host.answers ≡ err f =
      ap (load_options host.net settings host.argc) e ∙ q in
    (f, ground (arith, thrown))
