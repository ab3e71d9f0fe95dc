-- ===== src/Tests/Replies.antt =====
-- Options: source/tftpSession.cpp at a read request that asks for blocks of two bytes.
use server_fw.Prelude.{◌≡◌, refl, arith, ◌∷◌, ok}
use server_fw.Prelude.Text.{codes}
use server_fw.Common.{State}
use server_fw.Settings.{settings}
use server_fw.Session.{Session, session, was_error}
use server_fw.Session.Receive.{again}
use server_fw.Session.Run.{Loop, start, rounds}
use server_fw.Session.Run.Exchange.{ack}
use server_fw.Session.Run.Transfer.{flat, data_packets, joined, blocks}
use server_fw.Session.Run.Service.{file_env}
use server_fw.Session.Run.Negotiation.{reply_packet, serve_read_options}
use server_fw.Tests.Files.{five, same_files, finds}
use server_fw.Tests.Sessions.{
  client, at_now, same_client, two_bytes, two_bytes-AreInts, three_turns,
}

abbrev asked : Session
asked = record session { opt = two_bytes }

serve_read_options_example :
    (l : Loop) × (rounds
        (file_env same_files settings)
        (at_now 0 again ∷ at_now 0 again ∷ at_now 0 (ack client 0) ∷ flat three_turns)
        (start asked)
      ≡ ok (l, reply_packet asked ∷ data_packets 1 (blocks five 2 0 3)))
    × (joined (blocks five 2 0 3) ≡ five)
    × (l.session.stat ≡ State.finish)
unfolding was_error
serve_read_options_example =
    serve_read_options same_files settings (at_now 0 again) (at_now 0 again)
      (at_now 0 (ack client 0)) three_turns asked (codes "f") client refl refl refl
      two_bytes-AreInts refl finds refl (omega arith) (omega arith) (omega arith) refl same_client
      refl (refl, (refl, (refl, tt))) (omega arith) (omega arith)
