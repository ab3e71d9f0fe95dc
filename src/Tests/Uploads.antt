-- ===== src/Tests/Uploads.antt =====
-- Write requests: source/tftpSession.cpp at a short file, and at a client that stops.
use server_fw.Prelude.{
  ℕ, ◌+◌, ◌-◌, ◌≡◌, refl, arith, false, List, [], ◌∷◌, ok, err, some, none, undefined,
}
use server_fw.Prelude.Text.{codes}
use server_fw.Common.{SrvReq, State}
use server_fw.Options.{Options}
use server_fw.Settings.{Settings, settings}
use server_fw.DataMgr.File.Search.{Files}
use server_fw.Session.{Session, session, was_error}
use server_fw.Session.Packets.Layout.{smbuf_ex-IsLocal}
use server_fw.Session.Receive.{again}
use server_fw.Session.Run.{Env, Input, Loop, rounds}
use server_fw.Session.Run.Service.{file_env}
use server_fw.Session.Run.Receiving.{ack_packets}
use server_fw.Session.Run.Receiving.Silence.{Turn, inputs, IsWaiting, silence_ends, silence_endless}
use server_fw.Session.Run.Receiving.Upload.{data_packet}
use server_fw.Session.Run.Ending.{run, run_without_socket}
use server_fw.Common.Users.{Accounts}
use server_fw.Tests.Files.{five, same_files, read_request}
use server_fw.Tests.Sessions.{client, receiver, at_now, loop}

-- A system without files, on which each can be created.
abbrev pub no_files : Files
no_files = record same_files { exists = λ path. false }

abbrev write_request : Options
write_request = record read_request { request_type = SrvReq.write }

abbrev asked : Session
asked = record session { opt = write_request }

abbrev one_block : List (Input × Input)
one_block = (at_now 3 (data_packet client 1 five), at_now 4 again) ∷ []

receiver-IsWaiting : IsWaiting (loop receiver)
unfolding was_error
receiver-IsWaiting = record {
  state = refl;
  write = refl;
  not_last = refl;
  local = smbuf_ex-IsLocal;
  no_error = refl;
  limit = omega arith;
}

-- Two looks at the socket within the timeout, and the rounds after it.
abbrev silent : ℕ → Turn
silent t = record {
  polls = at_now (t + 1) again ∷ at_now (t + 2) again ∷ [];
  late = at_now (t + 90) again;
  retry = at_now (t + 91) again;
  ackn = at_now (t + 100) again;
}

abbrev four_turns : List Turn
four_turns = silent 0 ∷ silent 100 ∷ silent 200 ∷ silent 300 ∷ []

silence_ends_example :
    (l : Loop) × (rounds (file_env same_files settings) (inputs four_turns) (loop receiver)
      ≡ ok (l, ack_packets 1 (3 - 0)))
    × (l.session.stat ≡ State.finish)
silence_ends_example =
    silence_ends (file_env same_files settings) four_turns (loop receiver) receiver-IsWaiting
      (omega arith) (omega arith) (ground arith) (omega arith)

abbrev unlimited : Env
unlimited = record (file_env same_files settings) { retransmit_count = 65535 }

silence_endless_example :
    (l : Loop) × (rounds unlimited (inputs four_turns) (loop receiver) ≡ ok (l, ack_packets 1 4))
    × IsWaiting l
silence_endless_example =
    silence_endless unlimited four_turns (loop receiver) receiver-IsWaiting refl (ground arith)

-- A system that knows one user.
abbrev pub accounts : Accounts
accounts = record { passwd = λ name. some 1000; group = λ name. none }

abbrev pub owned : Settings
owned = record settings { file_chown_user = codes "tftp" }

run_without_socket_example :
    run accounts settings
      (record (file_env no_files settings) { bind_ok = false })
      (at_now 0 again ∷ [])
      asked
    ≡ err undefined
run_without_socket_example =
    run_without_socket accounts settings (record (file_env no_files settings) { bind_ok = false })
      (at_now 0 again) [] asked refl refl refl
