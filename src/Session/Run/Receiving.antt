-- ===== src/Session/Run/Receiving.antt =====
-- source/tftpSession.cpp: timeouts of `run`.
pub mod Silence
pub mod Upload
pub mod Blocks
pub mod Stored
pub mod Windows
pub mod Serving
pub mod Negotiated
use server_fw.Prelude.{
  ℕ, zero, suc, ◌+◌, ◌%◌, ◌^◌, ◌<◌, ◌≤◌, ◌≡◌, refl, sym, ap, ◌∙◌, arith, false, List, [], ◌∷◌, ◌++◌,
  ok, ◌>>=◌,
}
use server_fw.Prelude.Text.{Bytes}
use server_fw.Common.{SrvReq, State}
use server_fw.Common.Strings.{int_max}
use server_fw.Options.{timeout}
use server_fw.SmBufEx.{SmBufEx}
use server_fw.Session.{switch_to, was_error}
use server_fw.Session.Packets.Layout.{IsLocal, word, construct_ack-Holds}
use server_fw.Session.Receive.{again, receive_no_wait}
use server_fw.Session.Run.Steps.{prefixed, in_state, rounds_one}
use server_fw.Session.Run.{
  Round, Env, Input, Loop, on_data_rx, on_ack_tx, on_error_and_stop, on_retransmit, step, step_in,
  rounds,
}

-- The session after a retransmit that was granted.
abbrev pub resent : Env → Input → Loop → State → Loop
resent env i l st = record l {
  session = record l.session { stat = st };
  retr_count = (l.retr_count + 1) % 2 ^ 16;
  oper_time = i.now;
}

pub retransmit_granted :
    (env : Env) (i : Input) (l : Loop)
    → l.session.stat ≡ State.retransmit
    → (l.retr_count + 1) % 2 ^ 16 ≤ env.retransmit_count
    → l.session.opt.request_type ≡ SrvReq.write
    → on_retransmit env i l ≡ ok (resent env i l State.ack_tx, [])
unfolding on_retransmit switch_to
retransmit_granted env i l h n w = ground arith

pub timed_out :
    (i : Input) (l : Loop)
    → l.session.stat ≡ State.data_rx
    → i.rx ≡ again
    → timeout l.session.opt < int_max
    → l.oper_time + timeout l.session.opt < i.now
    → on_data_rx i l ≡ ok (record l { session = record l.session { stat = State.retransmit } }, [])
unfolding on_data_rx receive_no_wait switch_to
timed_out i l h e t n = ground (arith, e)

-- The session after an acknowledgement that is not the last.
abbrev acked : Input → Loop → SmBufEx → Loop
acked i l b = record l {
  session = record l.session { stat = State.data_rx; stage = l.session.stage + 1 };
  local_buf = b;
  oper_time = i.now;
}

-- The acknowledgements of the stages from one on.
abbrev pub ack_packets : ℕ → ℕ → List Bytes
ack_packets stage zero = []
ack_packets stage (suc n) = (0 ∷ 4 ∷ word (stage % 2 ^ 16)) ∷ ack_packets (suc stage) n

ack_sent :
    (i : Input) (l : Loop)
    → IsLocal l.local_buf
    → l.session.stat ≡ State.ack_tx
    → l.last_blk_processed ≡ false
    → (b : SmBufEx) × IsLocal b
      × (on_ack_tx i l ≡ ok (acked i l b, (0 ∷ 4 ∷ word (l.session.stage % 2 ^ 16)) ∷ []))
unfolding on_ack_tx switch_to
ack_sent i l v h n =
    let (b, e, p) = construct_ack-Holds l.session l.local_buf v in
    (b, p.local, ground (arith, e, p.counted, p.held))

-- A write request whose block does not come: in the three rounds after the timeout, while
-- retransmits are left, the session acknowledges the block it has not received and goes on to await
-- the next. `stage` is the block that was awaited.
pub timeout_acknowledges :
    (env : Env) (i j k : Input) (l : Loop)
    → IsLocal l.local_buf
    → l.session.stat ≡ State.data_rx
    → l.session.opt.request_type ≡ SrvReq.write
    → l.last_blk_processed ≡ false
    → i.rx ≡ again
    → timeout l.session.opt < int_max
    → l.oper_time + timeout l.session.opt < i.now
    → (l.retr_count + 1) % 2 ^ 16 ≤ env.retransmit_count
    → (l' : Loop) × (rounds env (i ∷ j ∷ k ∷ []) l
        ≡ ok (l', (0 ∷ 4 ∷ word (l.session.stage % 2 ^ 16)) ∷ []))
      × (l'.session ≡ record l.session { stage = l.session.stage + 1 })
unfolding rounds step_in
timeout_acknowledges env i j k l v h w f e t n c =
    let l1 : Loop = record l { session = record l.session { stat = State.retransmit } } in
    let l2 = resent env j l1 State.ack_tx in
    let (b, _, p) = ack_sent k l2 v refl f in
    (
      acked k l2 b,
      rounds_one env i (j ∷ k ∷ []) l (in_state env i l State.data_rx h ∙ timed_out i l h e t n)
          ∙ ap (prefixed []) (
              rounds_one env j (k ∷ []) l1 (retransmit_granted env j l1 refl c w)
              ∙ ap (prefixed []) (rounds_one env k [] l2 p)),
      ap (λ (x : State). record l.session { stat = x; stage = l.session.stage + 1 }) (sym h),
    )

pub stopped :
    (env : Env) (i : Input) (l : Loop)
    → l.session.stat ≡ State.retransmit
    → env.retransmit_count < (l.retr_count + 1) % 2 ^ 16
    → on_retransmit env i l
      ≡ ok (resent env (record i { now = l.oper_time }) l State.error_and_stop, [])
unfolding on_retransmit switch_to
stopped env i l h n = ground arith

pub ended :
    (l : Loop)
    → l.session.stat ≡ State.error_and_stop
    → was_error l.session ≡ false
    → on_error_and_stop l ≡ ok (record l { session = record l.session { stat = State.finish } }, [])
unfolding on_error_and_stop switch_to
ended l h e = ground arith

-- A retransmit beyond the count of the setting, which is compared as a `uint16_t`, stops the session:
-- it finishes in the round after, and tells the client nothing if no error was noted.
pub retransmit_limit :
    (env : Env) (i j : Input) (l : Loop)
    → l.session.stat ≡ State.retransmit
    → env.retransmit_count < (l.retr_count + 1) % 2 ^ 16
    → was_error l.session ≡ false
    → (l' : Loop) × (rounds env (i ∷ j ∷ []) l ≡ ok (l', [])) × (l'.session.stat ≡ State.finish)
unfolding rounds step_in was_error
retransmit_limit env i j l h n e =
    let l1 = resent env (record i { now = l.oper_time }) l State.error_and_stop in
    let l2 : Loop = record l1 { session = record l.session { stat = State.finish } } in
    (
      l2,
      rounds_one env i (j ∷ []) l (in_state env i l State.retransmit h ∙ stopped env i l h n)
          ∙ ap (prefixed []) (rounds_one env j [] l1 (ended l1 refl e)),
      refl,
    )
