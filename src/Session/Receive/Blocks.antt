-- ===== src/Session/Receive/Blocks.antt =====
-- What `receive_no_wait` does with block numbers, and what it leaves alone.
use server_fw.Prelude.{ℕ, ◌≡◌, ◌≢◌, arith, Bool, false, length, take, ok, >>=-eq-ok, none}
use server_fw.Prelude.Text.{Bytes}
use server_fw.Common.{TripleResult}
use server_fw.Addr.{Addr, same_addr}
use server_fw.SmBufEx.{SmBufEx, data_size_reset}
use server_fw.Session.{Session, set_error_if_first}
use server_fw.Session.Receive.{
  Rx, again, failed, packet, Received, rx_stage, receive_data, receive_ack, received,
  receive_no_wait, dispatch, header, error_text,
}

-- A receive leaves the state, the options and the addresses of the session alone.
pub record Keeps (s t : Session) : Type 0 where
  pub same_stat : t.stat ≡ s.stat
  pub same_opt : t.opt ≡ s.opt
  pub same_client : t.cl_addr ≡ s.cl_addr

receive_data-Keeps :
    (accepts : Bool) (s : Session) (b : SmBufEx) (size rx_blk : ℕ) {r : Received}
    → receive_data accepts s b size rx_blk ≡ ok r
    → Keeps s r.session
unfolding receive_data set_error_if_first
receive_data-Keeps accepts s b size rx_blk e = ground arith

receive_ack-Keeps :
    (s : Session) (b : SmBufEx) (rx_blk : ℕ) → Keeps s (receive_ack s b rx_blk).session
unfolding receive_ack set_error_if_first
receive_ack-Keeps s b rx_blk = ground arith

dispatch-Keeps :
    (accepts : Bool) (s : Session) (b : SmBufEx) (size op blk : ℕ) {r : Received}
    → dispatch accepts s b size op blk ≡ ok r
    → Keeps s r.session
dispatch-Keeps accepts s b size op blk {r} e =
    ground (arith, receive_ack-Keeps s b blk, receive_data-Keeps accepts s b size blk {r = r})

received-Keeps :
    (accepts : Bool) (s : Session) (b : SmBufEx) (a : Addr) (size : ℕ) {r : Received}
    → received accepts s b a size ≡ ok r
    → Keeps s r.session
unfolding received
received-Keeps accepts s b a size {r} e =
    let (op, _, e1) = >>=-eq-ok (header b size 0) _ e in
    let (blk, _, e2) = >>=-eq-ok (header b size 2) _ e1 in
    let (text, _, e3) = >>=-eq-ok (error_text b op) _ e2 in
    ground (arith, dispatch-Keeps accepts s b size op blk {r = r})

pub receive_no_wait-Keeps :
    (accepts : Bool) (rx : Rx) (s : Session) (b : SmBufEx) {r : Received}
    → receive_no_wait accepts rx s b ≡ ok r
    → Keeps s r.session
unfolding receive_no_wait
receive_no_wait-Keeps accepts again s b e = ground arith
receive_no_wait-Keeps accepts failed s b e = ground arith
receive_no_wait-Keeps accepts (packet a bytes) s b e =
    let (b', _, k) = >>=-eq-ok (data_size_reset _ _) _ e in
    received-Keeps accepts s b' a (length (take (length b.buf) bytes)) k

-- The stage that a block number stands for is never below zero, so the tests for a number that is
-- too old never fire: an old number takes the stage back.
pub rx_stage-ne-none : (s : Session) (rx_blk : ℕ) → rx_stage s rx_blk ≢ none
unfolding rx_stage
rx_stage-ne-none s rx_blk = ground arith

-- A packet of another address or port is passed over, whatever it holds: if the receive does not throw,
-- it gives no result, and the session stays as it was.
pub foreign_packet_ignored :
    (accepts : Bool) (a : Addr) (bytes : Bytes) (s : Session) (b : SmBufEx) (r : Received)
    → same_addr a s.cl_addr ≡ false
    → receive_no_wait accepts (packet a bytes) s b ≡ ok r
    → (r.result ≡ TripleResult.nop) × (r.session ≡ s)
unfolding receive_no_wait received
foreign_packet_ignored accepts a bytes s b r h e =
    let (b', _, e0) = >>=-eq-ok (data_size_reset _ _) _ e in
    let (op, _, e1) = >>=-eq-ok (header b' (length (take (length b.buf) bytes)) 0) _ e0 in
    let (blk, _, e2) = >>=-eq-ok (header b' (length (take (length b.buf) bytes)) 2) _ e1 in
    let (text, _, e3) = >>=-eq-ok (error_text b' op) _ e2 in ground arith
