-- ===== src/Session/Run.antt =====
-- source/tftpSession.cpp: `init` and the main loop `run`, a round of it for each input.
pub mod Steps
pub mod Moves
pub mod Sending
pub mod Exchange
pub mod Transfer
pub mod Service
pub mod Negotiation
pub mod Receiving
pub mod Ending
pub mod Frame
pub mod Safety
use server_fw.Prelude.{
  ℕ, ◌+◌, ◌%◌, ◌^◌, Bool, true, false, not, ◌&&◌, ◌||◌, List, [], ◌∷◌, ◌++◌, length, take, ltb,
  ◌==◌, if◌then◌else◌, Option, none, some, Result, ok, err, ◌>>=◌, ◌>>◌, guard, undefined,
}
use server_fw.Prelude.Text.{Bytes, codes}
use server_fw.Common.{SrvReq, State, TripleResult}
use server_fw.Common.Strings.{int_max}
use server_fw.Options.{Options, was_set_any, timeout}
use server_fw.SmBufEx.{SmBufEx, smbuf_ex}
use server_fw.DataMgr.{Report}
use server_fw.DataMgr.File.{DataMgrFile}
use server_fw.DataMgr.File.Opening.{Init}
use server_fw.Session.{
  Session, to, is_finished, was_error, set_error_if_first, reported, is_window_close, block_size,
}
use server_fw.Session.Packets.{construct_opt_reply, construct_error, construct_data, construct_ack}
use server_fw.Session.Receive.{Rx, Received, receive_no_wait}

-- What the environment answers once: `socket`, `bind`, the opening of the file, and the setting.
pub record Env : Type 0 where
  pub socket_ok : Bool
  pub bind_ok : Bool
  pub open_file : Options → Result Init
  pub retransmit_count : ℕ

-- What it answers in a round: the clock, the socket, and whether the file takes a block.
pub record Input : Type 0 where
  pub now : ℕ
  pub rx : Rx
  pub accepts : Bool

-- The session with the local variables of `run`.
pub record Loop : Type 0 where
  pub session : Session
  pub last_blk_processed : Bool
  pub retr_count : ℕ
  pub local_buf : SmBufEx
  pub oper_time : ℕ

-- A round gives the next state and the packets handed to `sendto`.
abbrev pub Round : Type 0
Round = Result (Loop × List Bytes)

abbrev opened : Session → Init → Session
opened s o =
    let s' = record (reported s o.report) { file_man = some o.mgr } in
    if o.ret
    then s'
    else set_error_if_first s' 0 (codes "Unknown stream initialize error; break session")

unfoldable pub init : Env → Session → Result (Bool × Session)
init env s =
    if env.socket_ok && env.bind_ok
    then env.open_file s.opt >>= (λ o. ok (true, opened s o))
    else ok (false, s)

-- `transmit_no_wait`: an empty buffer is not sent.
abbrev pub transmit_no_wait : SmBufEx → List Bytes
transmit_no_wait b = if b.data_size == 0 then [] else take b.data_size b.buf ∷ []

abbrev pub with_session : Loop → Session → Loop
with_session l s = record l { session = s }

-- `timeout() + 1` overflows at the largest `int`.
abbrev timeout_pass : Loop → ℕ → Result Bool
timeout_pass l now = do
  guard (not (timeout l.session.opt == int_max)) undefined
  ok (ltb now (l.oper_time + (timeout l.session.opt + 1)))

unfoldable pub on_need_init : Env → Loop → Round
on_need_init env l = init env l.session >>= λ r.
    let (ret, s) = r in
    let next =
      (if ret
        then (if was_error s then State.error_and_stop else State.ack_options)
        else State.finish) in
    ok (with_session l (to s next), [])

pub on_error_and_stop : Loop → Round
on_error_and_stop l =
    if was_error l.session
    then construct_error l.session l.local_buf >>= (λ r.
      ok (record l { session = to r.0 State.finish; local_buf = r.1 }, transmit_no_wait r.1))
    else ok (with_session l (to l.session State.finish), [])

-- The inner `switch` of `ack_options`.
abbrev after_options : Session → Session
after_options s = elim s.opt.request_type [
  | SrvReq.unknown ↦ to s State.error_and_stop
  | SrvReq.read ↦
      if was_set_any s.opt
      then record (to s State.ack_rx) { stage = 0 }
      else record (to s State.data_tx) { stage = 1 }
  | SrvReq.write ↦
      if was_set_any s.opt
      then record (to s State.data_rx) { stage = 1 }
      else to (record s { stage = 0 }) State.ack_tx
]

pub on_ack_options : Input → Loop → Round
on_ack_options i l =
    let done = λ (b : SmBufEx). record l {
      session = after_options l.session;
      local_buf = b;
      oper_time = i.now;
    } in
    if was_set_any l.session.opt
    then construct_opt_reply l.session.opt l.local_buf >>= (λ b. ok (done b, transmit_no_wait b))
    else ok (done l.local_buf, [])

-- After a block was built.
abbrev pub after_data : Input → Loop → Session → SmBufEx → Round
after_data i l s b =
    let last = not (b.data_size == block_size s + 4) in
    if not (was_error s) && ltb 0 b.data_size
    then (if is_window_close s s.stage || last
        then ok (
          record l {
            session = to s State.ack_rx;
            last_blk_processed = last;
            local_buf = b;
            oper_time = i.now;
          },
          transmit_no_wait b,
        )
        else ok (
          record l { session = s; last_blk_processed = last; local_buf = b },
          transmit_no_wait b,
        ))
    else ok (record l { session = to s State.error_and_stop; local_buf = b }, [])

pub on_data_tx : Input → Loop → Round
on_data_tx i l = elim l.session.file_man [
  | none ↦ err undefined
  | some m ↦ construct_data l.session m l.local_buf >>= λ r. after_data i l r.0 r.1
]

-- The branches on a receive that gave nothing or failed are those of both receiving states.
abbrev pub wait_or_retransmit : Input → Loop → Round
wait_or_retransmit i l = do
  pass ← timeout_pass l i.now
  ok (if pass then l else with_session l (to l.session State.retransmit), [])

abbrev after_rx : Input → Loop → Session → SmBufEx → Loop
after_rx i l s b =
    let last = not (b.data_size == block_size s + 4) in
    if is_window_close s s.stage
    then record l { session = to s State.ack_tx; last_blk_processed = last; local_buf = b }
    else record l {
      session = record s { stage = s.stage + 1 };
      last_blk_processed = last;
      local_buf = b;
      oper_time = i.now;
    }

pub on_data_rx : Input → Loop → Round
on_data_rx i l = do
  r ← receive_no_wait i.accepts i.rx l.session l.local_buf
  let l' = record l { session = r.session; local_buf = r.buf }
  elim r.result [
    | TripleResult.nop ↦ wait_or_retransmit i l'
    | TripleResult.ok ↦ ok (after_rx i l r.session r.buf, [])
    | TripleResult.fail ↦ ok (with_session l' (to r.session State.error_and_stop), [])
  ]

pub on_ack_tx : Input → Loop → Round
on_ack_tx i l = do
  b ← construct_ack l.session l.local_buf
  let s = record l.session { stage = l.session.stage + 1 }
  ok (
    (if l.last_blk_processed
        then record l { session = to s State.finish; local_buf = b }
        else record l { session = to s State.data_rx; local_buf = b; oper_time = i.now }),
    transmit_no_wait b,
  )

abbrev pub after_ack : Input → Loop → Session → SmBufEx → Loop
after_ack i l s b =
    if l.last_blk_processed
    then record l { session = to s State.finish; local_buf = b }
    else record l {
      session = record (to s State.data_tx) { stage = s.stage + 1 };
      local_buf = b;
      oper_time = i.now;
    }

pub on_ack_rx : Input → Loop → Round
on_ack_rx i l = do
  r ← receive_no_wait i.accepts i.rx l.session l.local_buf
  let l' = record l { session = r.session; local_buf = r.buf }
  elim r.result [
    | TripleResult.nop ↦ wait_or_retransmit i l'
    | TripleResult.ok ↦ ok (after_ack i l r.session r.buf, [])
    | TripleResult.fail ↦ ok (with_session l' (to r.session State.error_and_stop), [])
  ]

abbrev pub resumed : Session → Session
resumed s = elim s.opt.request_type [
  | SrvReq.unknown ↦ to s State.error_and_stop
  | SrvReq.read ↦ to s State.data_tx
  | SrvReq.write ↦ to s State.ack_tx
]

pub on_retransmit : Env → Input → Loop → Round
on_retransmit env i l =
    let count = (l.retr_count + 1) % 2 ^ 16 in
    if ltb env.retransmit_count count
    then ok (record l { session = to l.session State.error_and_stop; retr_count = count }, [])
    else ok (record l { session = resumed l.session; retr_count = count; oper_time = i.now }, [])

-- One round of the main loop.
unfoldable pub step_in : State → Env → Input → Loop → Round
step_in State.need_init env i l = on_need_init env l
step_in State.error_and_stop env i l = on_error_and_stop l
step_in State.ack_options env i l = on_ack_options i l
step_in State.data_tx env i l = on_data_tx i l
step_in State.data_rx env i l = on_data_rx i l
step_in State.ack_tx env i l = on_ack_tx i l
step_in State.ack_rx env i l = on_ack_rx i l
step_in State.retransmit env i l = on_retransmit env i l
step_in State.finish env i l = ok (l, [])

abbrev pub step : Env → Input → Loop → Round
step env i l = step_in l.session.stat env i l

-- The local variables at the start.
abbrev pub start : Session → Loop
start s = record {
  session = record s { stage = 0 };
  last_blk_processed = false;
  retr_count = 0;
  local_buf = smbuf_ex 0xffff true true;
  oper_time = 0;
}

-- The rounds for a list of inputs, and the packets sent.
pub rounds : Env → List Input → Loop → Round
rounds env [] l = ok (l, [])
rounds env (i ∷ is) l = do
  (l', sent) ← step env i l
  (l'', later) ← rounds env is l'
  ok (l'', sent ++ later)
