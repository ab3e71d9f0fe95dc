-- ===== src/Tests/Windows.antt =====
-- Windows: source/tftpSession.cpp at requests that ask for several blocks to a window.
use server_fw.Prelude.{
  ℕ, ◌%◌, ◌^◌, ◌<◌, ◌≡◌, refl, arith, true, List, [], ◌∷◌, ◌++◌, replicate, slice, ok, some, none,
}
use server_fw.Prelude.Text.{codes}
use server_fw.Common.{SrvReq, State}
use server_fw.Options.{Options}
use server_fw.Settings.{settings, get_root_dir}
use server_fw.DataMgr.File.Search.{path_join}
use server_fw.DataMgr.File.Opening.{Closed}
use server_fw.Session.{Session, session, was_error}
use server_fw.Session.Packets.Layout.{word}
use server_fw.Session.Packets.Reply.{AreInts}
use server_fw.Session.Receive.{again}
use server_fw.Session.Run.{Input, Loop, start, rounds}
use server_fw.Session.Run.Sending.{data_bytes}
use server_fw.Session.Run.Exchange.{ack}
use server_fw.Session.Run.Service.{file_env}
use server_fw.Session.Run.Negotiation.{reply_packet}
use server_fw.Session.Run.Negotiation.Window.{window_endless}
use server_fw.Session.Run.Receiving.Upload.{data_packet}
use server_fw.Session.Run.Receiving.Windows.{turns, window_acks}
use server_fw.Session.Run.Ending.{run, Delivery}
use server_fw.Session.Run.Ending.Negotiated.{run_write_options, window_left_open}
use server_fw.Tests.Files.{five, same_files, finds}
use server_fw.Tests.Sessions.{client, at_now, same_client, two_bytes}
use server_fw.Tests.Uploads.{no_files, accounts, owned}

-- Blocks of two bytes, in windows of some number of them.
abbrev windows : SrvReq → ℕ → Options
windows kind n = record two_bytes { request_type = kind; windowsize_opt = (true, n) }

abbrev asks : SrvReq → ℕ → Session
asks kind n = record session { opt = windows kind n }

windows-AreInts : (kind : SrvReq) (n : ℕ) → n < 2 ^ 31 → AreInts (windows kind n)
windows-AreInts kind n h = record {
  blksize_int = omega arith;
  timeout_int = omega arith;
  tsize_int = omega arith;
  windowsize_int = omega arith;
}

window_endless_example :
    (l : Loop) × (rounds
        (file_env same_files settings)
        (at_now 0 again
          ∷ at_now 0 again
          ∷ at_now 0 (ack client 0)
          ∷ at_now 1 again
          ∷ at_now 2 (ack client 1)
          ∷ [])
        (start (asks SrvReq.read 2))
      ≡ ok (l, reply_packet (asks SrvReq.read 2) ∷ replicate 2 (data_bytes 1 (slice five 0 2))))
    × (l.session.stat ≡ State.data_tx)
unfolding was_error
window_endless_example =
    window_endless same_files settings (at_now 0 again) (at_now 0 again) (at_now 0 (ack client 0))
      (at_now 1 again ∷ at_now 2 (ack client 1) ∷ []) (asks SrvReq.read 2) (codes "f") client refl
      refl refl (windows-AreInts SrvReq.read 2 (omega arith)) refl finds refl (omega arith)
      (omega arith) (omega arith) (omega arith) (omega arith) same_client refl

-- The three blocks of a file of five bytes.
abbrev sent_blocks : List (Input × Input)
sent_blocks =
    (at_now 2 (data_packet client 1 (1 ∷ 2 ∷ [])), at_now 3 again)
    ∷ (at_now 4 (data_packet client 2 (3 ∷ 4 ∷ [])), at_now 5 again)
    ∷ (at_now 6 (data_packet client 3 (5 ∷ [])), at_now 7 again)
    ∷ []

run_write_options_example :
    (c : Closed) × (run accounts owned
        (file_env no_files owned)
        (at_now 0 again ∷ at_now 1 again ∷ turns 3 1 sent_blocks)
        (asks SrvReq.write 3)
      ≡ ok (reply_packet (asks SrvReq.write 3) ∷ window_acks 3 1 3, some c))
    × Delivery accounts owned (path_join (get_root_dir owned) (codes "f")) five c
unfolding was_error
run_write_options_example =
    run_write_options accounts no_files owned (at_now 0 again) (at_now 1 again) sent_blocks
      (asks SrvReq.write 3) five client refl refl refl
      (windows-AreInts SrvReq.write 3 (omega arith)) refl refl refl (omega arith) (omega arith)
      (omega arith) same_client (refl, refl, (refl, refl, (refl, refl, tt))) (omega arith)
      (omega arith) refl

window_left_open_example :
    (run accounts owned
        (file_env no_files owned)
        (at_now 0 again ∷ at_now 1 again ∷ turns 2 1 sent_blocks)
        (asks SrvReq.write 2)
      ≡ ok (reply_packet (asks SrvReq.write 2) ∷ window_acks 2 1 3, none))
    × (c : Closed) × (run accounts owned
          (file_env no_files owned)
          (at_now 0 again
            ∷ at_now 1 again
            ∷ (turns 2 1 sent_blocks
                ++ at_now 100 again ∷ at_now 101 again ∷ at_now 102 again ∷ []))
          (asks SrvReq.write 2)
        ≡ ok (
          reply_packet (asks SrvReq.write 2)
              ∷ (window_acks 2 1 3 ++ (0 ∷ 4 ∷ word (4 % 2 ^ 16)) ∷ []),
          some c,
        ))
    × Delivery accounts owned (path_join (get_root_dir owned) (codes "f")) five c
unfolding was_error
window_left_open_example =
    window_left_open accounts no_files owned (at_now 0 again) (at_now 1 again) sent_blocks
      (at_now 100 again) (at_now 101 again) (at_now 102 again) (asks SrvReq.write 2) five client
      refl refl refl (windows-AreInts SrvReq.write 2 (omega arith)) refl refl refl (omega arith)
      (omega arith) (omega arith) same_client (refl, refl, (refl, refl, (refl, refl, tt)))
      (omega arith) (omega arith) (omega arith) (omega arith) refl (omega arith) (omega arith)
