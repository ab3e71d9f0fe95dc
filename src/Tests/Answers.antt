-- ===== src/Tests/Answers.antt =====
-- From the packet to the file: source/tftpSrv.cpp and source/tftpSession.cpp at a small file.
use server_fw.Prelude.{◌≡◌, ◌≢◌, refl, arith, [], ◌∷◌, ◌++◌, replicate, some, ok}
use server_fw.Prelude.Text.{codes}
use server_fw.Common.{SrvReq, State}
use server_fw.Options.Request.RoundTrip.{Sent, packet, IsSent}
use server_fw.Settings.{settings, get_root_dir}
use server_fw.DataMgr.File.Search.{path_join}
use server_fw.DataMgr.File.Opening.{Closed}
use server_fw.Session.{Session}
use server_fw.Session.Receive.{again}
use server_fw.Session.Run.{Input, start, rounds}
use server_fw.Session.Run
use server_fw.Session.Run.Exchange.{ack}
use server_fw.Session.Run.Transfer.{flat, data_packets, joined, blocks}
use server_fw.Session.Run.Service.{file_env}
use server_fw.Session.Run.Receiving.{ack_packets}
use server_fw.Session.Run.Receiving.Upload.{data_packet}
use server_fw.Session.Run.Ending.{run, Delivery}
use server_fw.Srv.{Loop, reap, round, srv}
use server_fw.Srv.Answers.{answer_read, answer_write}
use server_fw.Tests.Files.{five, same_files, finds}
use server_fw.Tests.Sessions.{client, at_now}
use server_fw.Tests.Uploads.{no_files, accounts}

abbrev request : SrvReq → Sent
request kind = record { kind = kind; filename = codes "f"; mode = codes "octet"; opts = [] }

request-IsSent : (kind : SrvReq) → kind ≢ SrvReq.unknown → IsSent (request kind)
request-IsSent kind h = record {
  is_request = h;
  has_filename = λ e. cc;
  has_mode = λ e. cc;
  filename_text = ground arith;
  mode_text = ground arith;
  opts_text = tt;
}

-- A server without sessions.
abbrev serving : Loop
serving = record { server = srv settings; pkt_buf = replicate 40 0 }

answer_read_example :
    (l : Loop) × (s : Session) × (round (some (client, packet (request SrvReq.read))) serving
      ≡ ok l)
    × (l.server.sessions ≡ reap ([] ++ s ∷ []))
    × (e : Run.Loop) × (rounds
          (file_env same_files settings)
          (at_now 0 again ∷ at_now 0 again ∷ flat ((at_now 0 again, at_now 1 (ack client 1)) ∷ []))
          (start s)
        ≡ ok (e, data_packets 1 (blocks five 512 0 1)))
    × (joined (blocks five 512 0 1) ≡ five)
    × (e.session.stat ≡ State.finish)
answer_read_example =
    answer_read same_files serving client (request SrvReq.read) (at_now 0 again) (at_now 0 again)
      ((at_now 0 again, at_now 1 (ack client 1)) ∷ []) (codes "f")
      (request-IsSent SrvReq.read (λ e. cc)) refl refl (omega arith) (omega arith) (omega arith)
      finds refl (omega arith) (refl, tt) (omega arith) (omega arith)

answer_write_example :
    (l : Loop) × (s : Session) × (round (some (client, packet (request SrvReq.write))) serving
      ≡ ok l)
    × (l.server.sessions ≡ reap ([] ++ s ∷ []))
    × (c : Closed) × (run accounts settings
          (file_env no_files settings)
          (at_now 0 again
            ∷ at_now 1 again
            ∷ at_now 2 again
            ∷ flat ((at_now 3 (data_packet client 1 five), at_now 4 again) ∷ []))
          s
        ≡ ok (ack_packets 0 2, some c))
    × Delivery accounts settings (path_join (get_root_dir settings) (codes "f")) five c
answer_write_example =
    answer_write accounts no_files serving client (request SrvReq.write) (at_now 0 again)
      (at_now 1 again) (at_now 2 again)
      ((at_now 3 (data_packet client 1 five), at_now 4 again) ∷ []) five
      (request-IsSent SrvReq.write (λ e. cc)) refl refl (omega arith) (omega arith) (omega arith)
      refl refl (omega arith) (refl, refl, tt) (omega arith) (omega arith)
