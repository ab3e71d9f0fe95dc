-- ===== src/Session/Receive.antt =====
-- source/tftpSession.cpp: `receive_no_wait`, one look at the socket.
pub mod Blocks
pub mod Numbers
pub mod Stored
pub mod Acks
use server_fw.Prelude.{
  ℕ, ◌+◌, ◌-◌, Bool, true, false, not, ◌&&◌, [], ◌∷◌, length, take, slice, put, ltb, leb, ◌==◌,
  if◌then◌else◌, Option, none, some, Result, ok, err, ◌>>=◌, ◌>>◌, undefined,
}
use server_fw.Prelude.Text.{Bytes, codes}
use server_fw.Common.{State, TripleResult}
use server_fw.Addr.{Addr, same_addr}
use server_fw.SmBuf.{get_be, get_string, size_mod}
use server_fw.SmBufEx.{SmBufEx, data_size_reset}
use server_fw.DataMgr.File.{WriteOut, write}
use server_fw.Session.{
  Session, set_error_if_first, reported, blk_num_local, block_size, position, same_state,
}

-- What `recvfrom` gives: nothing yet (`EAGAIN`), another error, or a packet and its sender.
pub data Rx : Type 0 where
  again failed : Rx
  packet : Addr → Bytes → Rx

-- The result, the session and the buffer.
pub record Received : Type 0 where
  pub result : TripleResult
  pub session : Session
  pub buf : SmBufEx

-- `(ssize_t)stage_ + (ssize_t)rx_blk - (ssize_t)blk_num_local()`, `none` if it is negative.
unfoldable pub rx_stage : Session → ℕ → Option ℕ
rx_stage s rx_blk =
    if leb (blk_num_local s) (s.stage + rx_blk)
    then some (s.stage + rx_blk - blk_num_local s)
    else none

-- The two tests on `rx_stage`, with the text of the error.
abbrev pub check_stage : Session → Option ℕ → Bytes → Bool × Session
check_stage s none why = (false, set_error_if_first s 0 why)
check_stage s (some n) why =
    if ltb (s.stage + 1) n then (false, set_error_if_first s 0 why) else (true, s)

-- `Switch blk`: the stage follows a block number that is not the awaited one.
abbrev pub follow : Session → ℕ → Option ℕ → Session
follow s rx_blk none = s
follow s rx_blk (some n) = if blk_num_local s == rx_blk then s else record s { stage = n }

abbrev stored : Session → SmBufEx → WriteOut → Received
stored s b out =
    let s' = record (reported s out.report) { file_man = some out.mgr } in
    elim out.result [
      | none ↦ record {
        result = TripleResult.fail;
        session = set_error_if_first s' 0 (codes "Error when try to store data");
        buf = b;
      }
      | some size ↦ record { result = TripleResult.ok; session = s'; buf = b }
    ]

-- A DATA packet of `rx_pkt_size` bytes in state `data_rx`.
unfoldable pub receive_data : Bool → Session → SmBufEx → ℕ → ℕ → Result Received
unfolding rx_stage
receive_data accepts s b rx_pkt_size rx_blk =
    let (fine, s0) = check_stage s (rx_stage s rx_blk) (codes "Error received number data block") in
    let s1 = follow s0 rx_blk (rx_stage s rx_blk) in
    elim fine [
      | false ↦ ok (record { result = TripleResult.fail; session = s0; buf = b })
      | true ↦ elim s1.file_man [
        | none ↦ err undefined
        | some m ↦ do
          out ← write accepts m (slice b.buf 4 (rx_pkt_size - 4)) (position s1)
          ok (stored s1 b out)
      ]
    ]

-- An ACK packet in state `ack_rx`.
unfoldable pub receive_ack : Session → SmBufEx → ℕ → Received
unfolding rx_stage
receive_ack s b rx_blk =
    let (fine, s0) = check_stage s (rx_stage s rx_blk) (codes "Error received number ack block") in
    if fine
    then record {
      result = TripleResult.ok;
      session = follow s0 rx_blk (rx_stage s rx_blk);
      buf = b;
    }
    else record { result = TripleResult.fail; session = s0; buf = b }

abbrev pub ignored : Session → SmBufEx → Received
ignored s b = record { result = TripleResult.nop; session = s; buf = b }

-- A packet of the client.
abbrev pub dispatch : Bool → Session → SmBufEx → ℕ → ℕ → ℕ → Result Received
dispatch accepts s b rx_pkt_size rx_op rx_blk =
    if rx_op == 3 && same_state s.stat State.data_rx
    then receive_data accepts s b rx_pkt_size rx_blk
    else if rx_op == 4 && same_state s.stat State.ack_rx
    then ok (receive_ack s b rx_blk)
    else ok (ignored s b)

-- A number of the header, 0 in a packet without one.
abbrev pub header : SmBufEx → ℕ → ℕ → Result ℕ
header b rx_pkt_size offset = if ltb 3 rx_pkt_size then get_be 2 b.buf offset else ok 0

-- The text of an ERROR packet, for the log.
abbrev pub error_text : SmBufEx → ℕ → Result Bytes
error_text b rx_op = if rx_op == 5 then get_string b.buf 4 0 else ok []

unfoldable pub received : Bool → Session → SmBufEx → Addr → ℕ → Result Received
received accepts s b rx_client rx_pkt_size = do
  rx_op ← header b rx_pkt_size 0
  rx_blk ← header b rx_pkt_size 2
  text ← error_text b rx_op
  if same_addr rx_client s.cl_addr
      then dispatch accepts s b rx_pkt_size rx_op rx_blk
      else ok (ignored s b)

-- `accepts` is whether the file takes a block. A packet longer than the buffer is cut.
unfoldable pub receive_no_wait : Bool → Rx → Session → SmBufEx → Result Received
unfolding received
receive_no_wait accepts again s b = ok (ignored s b)
receive_no_wait accepts failed s b =
    ok (record { result = TripleResult.fail; session = s; buf = b })
receive_no_wait accepts (packet rx_client bytes) s b =
    let given = take (length b.buf) bytes in
    do
      b' ← data_size_reset (record b { buf = put b.buf 0 given }) (length given)
      received accepts s b' rx_client (length given)
