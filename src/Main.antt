-- ===== src/Main.antt =====
-- source/server-fw.cpp: `main`. What the system answers to its calls comes in as a record; what `main`
-- does, besides what it returns, is the list of its actions.
pub mod Exits
use server_fw.Prelude.{
  ℕ, zero, suc, ◌+◌, Bool, true, false, not, ◌&&◌, List, [], ◌∷◌, ◌++◌, ltb, ◌==◌, if◌then◌else◌,
  Option, none, some, Result, ok, err, ◌>>=◌, no_fuel,
}
use server_fw.Addr.Text.{Inet}
use server_fw.Settings.{Settings, settings}
use server_fw.Settings.Load.{Answer}
use server_fw.Settings.Getters.{base, get_is_daemon, load_options}
use server_fw.Srv
use server_fw.Srv.{Srv, Sys, srv}

-- `fork` failed, gave 0 to the child, or the child's number to the parent.
pub data Forked : Type 0 where
  failed child parent : Forked

-- `gone` is whether the call of `waitpid`, counted from 0, gives something other than 0.
pub record Host : Type 0 where
  pub net : Inet
  pub argc : ℕ
  pub answers : List Answer
  pub fork : Forked
  pub chdir_ok : Bool
  pub gone : ℕ → Bool
  pub sys : Sys

-- What `main` has done: the help or the version on the output; the failures that it notes; the child's
-- calls of `umask` and `setsid`, and of `close`; what the parent tells of the daemon; and the loop of
-- the server.
pub data Action : Type 0 where
  out_help out_id fork_error detached chdir_error closed daemon_started daemon_failed : Action
  main_loop : Srv → Action
  init_failed : Action

abbrev pub fake_exit_code : ℕ
fake_exit_code = 1000

abbrev pub exit_success : ℕ
exit_success = 0

abbrev pub exit_failure : ℕ
exit_failure = 1

-- The loop of the parent: whether the daemon was found to have ended. `wc` counts the waits.
pub wait_daemon : ℕ → (ℕ → Bool) → ℕ → Result Bool
wait_daemon zero gone wc = err no_fuel
wait_daemon (suc fuel) gone wc =
    let rest = wait_daemon fuel gone (wc + 1) in
    if gone wc then ok true else if ltb 25 (wc + 1) then ok false else rest

-- Turns enough for the waits.
abbrev pub wait_fuel : ℕ
wait_fuel = 26

-- The last part: the server starts and loops, if no exit code was set.
abbrev serve : Host → Srv → List Action → ℕ × List Action
serve host server done =
    let (ret, server') = Srv.init host.sys server in
    if ret
    then (fake_exit_code, done ++ main_loop server' ∷ [])
    else (exit_failure, done ++ init_failed ∷ [])

abbrev detach : Host → List Action
detach host = detached ∷ (if host.chdir_ok then closed ∷ [] else chdir_error ∷ closed ∷ [])

-- The branch that starts a daemon.
abbrev as_daemon : Host → Srv → Result (ℕ × List Action)
as_daemon host server = elim host.fork [
  | Forked.failed ↦ ok (exit_failure, fork_error ∷ [])
  | Forked.child ↦ ok (serve host server (detach host))
  | Forked.parent ↦ wait_daemon wait_fuel host.gone 0 >>= λ wp.
      ok (exit_success, (if wp then daemon_failed else daemon_started) ∷ [])
]

abbrev real_code : ℕ × List Action → ℕ × List Action
real_code (exit_code, done) =
    (if exit_code == fake_exit_code then exit_success else exit_code, done)

-- The code that `main` returns and what it did; the server's new settings are those of the constructor.
unfoldable pub main : Host → Result (ℕ × List Action)
main host = do
  (loaded, st) ← load_options host.net (base none) host.argc host.answers
  let server = srv st
  r ←
      (if loaded
        then (if get_is_daemon st
            then as_daemon host server
            else ok (serve host server (out_id ∷ [])))
        else ok (exit_failure, out_help ∷ []))
  ok (real_code r)
