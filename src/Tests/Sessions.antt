-- ===== src/Tests/Sessions.antt =====
-- Sessions: source/tftpSession.cpp at concrete packets and rounds.
use server_fw.Prelude.{
  ℕ, ◌+◌, ◌*◌, ◌≡◌, refl, arith, true, false, List, [], ◌∷◌, some, ok, err, undefined,
  stream_failure,
}
use server_fw.Prelude.Text.{text_eq}
use server_fw.Common.{SrvReq, State, TripleResult}
use server_fw.Addr
use server_fw.Addr.{Addr, same_addr}
use server_fw.Options.{Options, options}
use server_fw.Options.Request.{apply_options, option_bytes}
use server_fw.Settings.{settings}
use server_fw.SmBufEx.{SmBufEx, smbuf_ex, data_size_reset}
use server_fw.DataMgr.Streams.{overwrite}
use server_fw.DataMgr.File.{DataMgrFile}
use server_fw.Session.{Session, session, switch_to, was_error, block_size, position}
use server_fw.Session.Packets.{construct_data, construct_opt_reply}
use server_fw.Session.Packets.Layout.{Holds, smbuf_ex-IsLocal}
use server_fw.Session.Packets.Reply.{
  AreInts, reply_pairs, construct_opt_reply-Holds, apply_options-reply_pairs,
}
use server_fw.Session.Packets.Data.{construct_data_overrun}
use server_fw.SmBuf.{get_be, is_valid, check_offset}
use server_fw.Session.Receive.{
  received, Rx, again, failed, packet, Received, rx_stage, receive_no_wait,
}
use server_fw.Session.Receive.Numbers.{framed}
use server_fw.Session.Receive.Blocks.{foreign_packet_ignored}
use server_fw.Session.Receive.Stored.{at_stage, receive_data_packet, receive_data_negative}
use server_fw.Session.Run.{
  Input, Loop, start, init, on_need_init, step, step_in, rounds, on_data_rx, on_ack_rx,
}
use server_fw.Session.Run.Moves.{moves, step-moves, receive_failure_silent}
use server_fw.Session.Run.Sending.{IsSending}
use server_fw.Session.Run.Exchange.{ack}
use server_fw.Session.Run.Transfer.{flat, blocks, data_packets, transfer}
use server_fw.Session.Run.Service.{file_env}
use server_fw.Tests.Files.{
  five, reader, reader-IsReading, writer, writer-IsWriting, same_files, read_request,
}

abbrev local : SmBufEx
local = smbuf_ex 0xffff true true

abbrev pub client : Addr
client = Addr.clear

-- Blocks of two bytes.
abbrev pub two_bytes : Options
two_bytes = record read_request { blksize_opt = (true, 2) }

abbrev sender : Session
sender = record session { stat = State.data_tx; stage = 1; opt = two_bytes; file_man = some reader }

abbrev pub receiver : Session
receiver = record session {
  stat = State.data_rx;
  stage = 1;
  opt = record two_bytes { request_type = SrvReq.write };
  file_man = some writer;
}

abbrev pub at_now : ℕ → Rx → Input
at_now now rx = record { now = now; rx = rx; accepts = true }

abbrev pub loop : Session → Loop
loop s = record {
  session = s;
  last_blk_processed = false;
  retr_count = 0;
  local_buf = local;
  oper_time = 0;
}

sending : IsSending (loop sender) reader 0
unfolding was_error
sending = record {
  state = refl;
  file = refl;
  reading = reader-IsReading;
  good = record { no_eof = refl; no_fail = refl };
  local = smbuf_ex-IsLocal;
  no_error = refl;
  stage_is = refl;
  roomy = omega arith;
  nonzero = omega arith;
}

abbrev pub three_turns : List (Input × Input)
three_turns =
    (at_now 0 again, at_now 1 (ack client 1))
    ∷ (at_now 2 again, at_now 3 (ack client 2))
    ∷ (at_now 4 again, at_now 5 (ack client 3))
    ∷ []

pub same_client : same_addr client client ≡ true
unfolding same_addr Addr.clear text_eq
same_client = refl

transfer_example :
    (l : Loop) × (rounds (file_env same_files settings) (flat three_turns) (loop sender)
      ≡ ok (l, data_packets 1 (blocks five (block_size sender) 0 3)))
    × (l.session.stat ≡ State.finish)
transfer_example =
    transfer (file_env same_files settings) three_turns (loop sender) reader 0 client sending
      (record { window = refl; client = same_client }) (refl, (refl, (refl, tt))) (omega arith)
      (omega arith) (omega arith)

abbrev asked : Session
asked = record session { opt = read_request }

abbrev large_blocks : Session
large_blocks = record sender { opt = record two_bytes { blksize_opt = (true, 65532) } }

construct_data_overrun_example : construct_data large_blocks reader local ≡ err undefined
construct_data_overrun_example =
    construct_data_overrun large_blocks reader local smbuf_ex-IsLocal (omega arith)

pub two_bytes-AreInts : AreInts two_bytes
two_bytes-AreInts = record {
  blksize_int = omega arith;
  timeout_int = omega arith;
  tsize_int = omega arith;
  windowsize_int = omega arith;
}

construct_opt_reply-Holds_example :
    (c : SmBufEx) × (construct_opt_reply two_bytes local ≡ ok c)
    × Holds c (0 ∷ 6 ∷ option_bytes (reply_pairs two_bytes))
construct_opt_reply-Holds_example =
    construct_opt_reply-Holds two_bytes local smbuf_ex-IsLocal two_bytes-AreInts refl

apply_options-reply_pairs_example :
    apply_options options (reply_pairs two_bytes) ≡ ok (record options { blksize_opt = (true, 2) })
apply_options-reply_pairs_example = apply_options-reply_pairs two_bytes two_bytes-AreInts (record {
  blksize_dflt = λ e. cc;
  timeout_dflt = λ e. refl;
  tsize_dflt = λ e. refl;
  windowsize_dflt = λ e. refl;
})

no_socket_step :
    step
      (record (file_env same_files settings) { socket_ok = false })
      (at_now 0 again)
      (start asked)
    ≡ ok (record (start asked) { session = record asked { stat = State.finish } }, [])
unfolding step_in on_need_init init switch_to
no_socket_step = refl

step-moves_example : moves State.need_init State.finish ≡ true
step-moves_example =
    step-moves (record (file_env same_files settings) { socket_ok = false }) (at_now 0 again)
      (start asked) {l' = record (start asked) { session = record asked { stat = State.finish } }}
      {sent = []} no_socket_step

receive_failure_silent_example :
    ((receiver.stat ≡ State.data_rx)
      → (l : Loop) × (on_data_rx (at_now 0 failed) (loop receiver) ≡ ok (l, []))
        × (l.session.stat ≡ State.finish))
    × ((receiver.stat ≡ State.ack_rx)
        → (l : Loop) × (on_ack_rx (at_now 0 failed) (loop receiver) ≡ ok (l, []))
          × (l.session.stat ≡ State.finish))
unfolding receive_no_wait
receive_failure_silent_example =
    receive_failure_silent (at_now 0 failed) (loop receiver)
      (record { result = TripleResult.fail; session = receiver; buf = local }) refl refl

-- The stage of block number 2 while block 1 is awaited, and that of number 0.
stage_two : rx_stage receiver (0 * 256 + 2) ≡ some 2
unfolding rx_stage
stage_two = refl

stage_zero : rx_stage receiver (0 * 256 + 0) ≡ some 0
unfolding rx_stage
stage_zero = refl

receive_data_packet_example :
    (r : Received) × (m : DataMgrFile) × (receive_no_wait true
        (packet client (framed 3 0 2 (7 ∷ [])))
        receiver
        local
      ≡ ok r)
    × (r.result ≡ TripleResult.ok)
    × (r.session ≡ record receiver { stage = 2; file_man = some m })
    × (m.file_out.content ≡ overwrite [] (position (at_stage receiver 2)) (7 ∷ []))
receive_data_packet_example =
    receive_data_packet receiver local client 0 2 (7 ∷ []) writer 2 smbuf_ex-IsLocal (omega arith)
      same_client refl refl writer-IsWriting (λ e. cc) stage_two (omega arith) (omega arith)

receive_data_negative_example :
    receive_no_wait true (packet client (framed 3 0 0 (7 ∷ []))) receiver local ≡ err stream_failure
receive_data_negative_example =
    receive_data_negative receiver local client 0 0 (7 ∷ []) writer 0 smbuf_ex-IsLocal (omega arith)
      same_client refl refl writer-IsWriting (λ e. cc) stage_zero true (omega arith) (omega arith)

abbrev worn : Loop
worn = record (loop (record receiver { stat = State.retransmit })) { retr_count = 3 }

abbrev stranger : Addr
stranger = record { bytes = []; data_size = 0 }

other_client : same_addr stranger client ≡ false
unfolding same_addr Addr.clear text_eq
other_client = refl

abbrev four : SmBufEx
four = record {
  buf = 1 ∷ 2 ∷ 3 ∷ 4 ∷ [];
  data_size = 0;
  val_int_bigendian = true;
  val_str_zeroend = true;
}

abbrev passed_over : Received
passed_over = record {
  result = TripleResult.nop;
  session = receiver;
  buf = record four { buf = 0 ∷ 3 ∷ 0 ∷ 1 ∷ []; data_size = 4 };
}

passes : receive_no_wait true (packet stranger (0 ∷ 3 ∷ 0 ∷ 1 ∷ [])) receiver four ≡ ok passed_over
unfolding receive_no_wait received data_size_reset get_be is_valid check_offset same_addr Addr.clear
    text_eq
passes = refl

foreign_packet_ignored_example :
    (passed_over.result ≡ TripleResult.nop) × (passed_over.session ≡ receiver)
foreign_packet_ignored_example =
    foreign_packet_ignored true stranger (0 ∷ 3 ∷ 0 ∷ 1 ∷ []) receiver four passed_over other_client
      passes
