-- ===== src/Tests/Hostile.antt =====
-- Clients that are silent or break the protocol: source/tftpSession.cpp at a small file.
use server_fw.Prelude.{
  ℕ, ◌+◌, ◌<◌, ◌≡◌, ◌⊎◌, refl, arith, true, List, [], ◌∷◌, ◌++◌, take, length, replicate, ok, some,
}
use server_fw.Prelude.Text.{Bytes, codes}
use server_fw.Common.{State, SrvReq}
use server_fw.Settings.{settings, get_root_dir}
use server_fw.DataMgr.File.Search.{Files, path_join, full_search_name, match_md5}
use server_fw.DataMgr.File.Opening.{Closed, find_file}
use server_fw.Session.Run.Sending.{data_bytes}
use server_fw.Session.Run.Ending.{run}
use server_fw.Session.Run.Ending.Refused.{Shut, run_exists}
use server_fw.SmBufEx.{SmBufEx, smbuf_ex, clear, int}
use server_fw.DataMgr.File.{DataMgrFile}
use server_fw.Session.{Session, session, was_error}
use server_fw.Session.Packets.{pushed, construct_opt_reply}
use server_fw.Session.Receive.{again, failed}
use server_fw.Session.Run.{Input, Loop, start, rounds}
use server_fw.Session.Run.Exchange.{ack}
use server_fw.Session.Run.Service.{file_env}
use server_fw.Session.Run.Negotiation.{reply_packet}
use server_fw.Session.Run.Negotiation.Lost.{reply_lost}
use server_fw.Session.Run.Receiving.Upload.{data_packet}
use server_fw.Session.Run.Safety.Proper.{AreBlocks}
use server_fw.Session.Run.Safety.Reads.{read_safe}
use server_fw.Session.Run.Safety.Late.{Attempt, inputs}
use server_fw.Session.Run.Safety.Unanswered.{read_silent}
use server_fw.Tests.Files.{five, same_files, finds, read_request}
use server_fw.Tests.Uploads.{accounts, owned}
use server_fw.Tests.Sessions.{client, at_now, two_bytes, two_bytes-AreInts}

abbrev plain : Session
plain = record session { opt = read_request }

-- A DATA packet, an acknowledgement of a block far away, and a socket that fails.
abbrev nonsense : List Input
nonsense =
    at_now 1 again
    ∷ at_now 2 (data_packet client 9 five)
    ∷ at_now 3 (ack client 77)
    ∷ at_now 4 failed
    ∷ []

read_safe_example :
    (l : Loop) × (sent : List Bytes) × (rounds
        (file_env same_files settings)
        (at_now 0 again ∷ at_now 0 again ∷ nonsense)
        (start plain)
      ≡ ok (l, sent))
    × AreBlocks five 512 sent
unfolding was_error
read_safe_example =
    read_safe same_files settings (at_now 0 again) (at_now 0 again) nonsense plain (codes "f") refl
      refl refl refl finds refl (omega arith) (omega arith) (omega arith) (omega arith)

abbrev asked : Session
asked = record session { opt = two_bytes }

reply_lost_example :
    (b : SmBufEx) × (c : SmBufEx) × (l : Loop) × (m : DataMgrFile) × (construct_opt_reply two_bytes
        (smbuf_ex 0xffff true true)
      ≡ ok b)
    × (pushed (clear b) (int 2 3 ∷ int 2 0 ∷ []) ≡ ok c)
    × (rounds
          (file_env same_files settings)
          (at_now 0 again
            ∷ at_now 0 again
            ∷ at_now 100 again
            ∷ at_now 101 again
            ∷ at_now 102 again
            ∷ [])
          (start asked)
        ≡ ok (l, reply_packet asked ∷ take (4 + 2) c.buf ∷ []))
    × (l.session.file_man ≡ some m)
    × (m.file_in.failbit ≡ true)
unfolding was_error
reply_lost_example =
    reply_lost same_files settings (at_now 0 again) (at_now 0 again) (at_now 100 again)
      (at_now 101 again) (at_now 102 again) asked (codes "f") refl refl refl two_bytes-AreInts refl
      finds refl (omega arith) (omega arith) (omega arith) (omega arith) refl (omega arith)
      (omega arith)

-- A file of two blocks.
abbrev long_content : Bytes
long_content = replicate 600 7

abbrev long_files : Files
long_files = record same_files { content = λ path. long_content }

long_finds : find_file long_files settings (codes "f") ≡ some (codes "f")
unfolding find_file full_search_name match_md5 get_root_dir
long_finds = refl

-- A block that is not acknowledged: two looks at the socket within ten seconds, and one after them.
abbrev unanswered : ℕ → Attempt
unanswered now = record {
  send = at_now now again;
  polls = at_now (now + 5) again ∷ at_now (now + 10) again ∷ [];
  late = at_now (now + 11) again;
  retry = at_now (now + 11) again;
}

abbrev attempts : List Attempt
attempts = unanswered 0 ∷ unanswered 11 ∷ unanswered 22 ∷ unanswered 33 ∷ []

read_silent_example :
    (l : Loop) × (sent : List Bytes) × (rounds
        (file_env long_files settings)
        (at_now 0 again ∷ at_now 0 again ∷ inputs attempts (at_now 44 again ∷ []))
        (start plain)
      ≡ ok (l, sent))
    × (l.session.stat ≡ State.finish)
    × ((sent ≡ replicate 4 (data_bytes 1 (take 512 long_content))) ⊎ (length long_content < 512))
unfolding was_error
read_silent_example =
    read_silent long_files settings (at_now 0 again) (at_now 0 again) attempts (at_now 44 again) []
      plain (codes "f") refl refl refl refl long_finds refl (omega arith) (omega arith)
      (omega arith) refl (omega arith) (omega arith) (ground arith) refl

-- A file that the server may not read.
abbrev closed_files : Files
closed_files = record same_files { open_error = λ path. some (codes "Permission denied") }

abbrev uploader : Session
uploader = record session { opt = record read_request { request_type = SrvReq.write } }

run_exists_example :
    (c : Closed) × (run accounts owned
        (file_env same_files owned)
        (at_now 0 again ∷ at_now 1 again ∷ nonsense)
        uploader
      ≡ ok ((0 ∷ 5 ∷ 0 ∷ 6 ∷ (codes "File already exists" ++ 0 ∷ [])) ∷ [], some c))
    × Shut accounts owned (path_join (get_root_dir owned) (codes "f")) c
unfolding was_error
run_exists_example =
    run_exists accounts same_files owned (at_now 0 again) (at_now 1 again) nonsense uploader refl
      refl refl refl
