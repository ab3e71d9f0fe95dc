-- ===== src/Session.antt =====
-- source/tftpSession.h and source/tftpSession.cpp: class `Session`, one transfer. The socket is the
-- environment's; log messages are left out.
pub mod Packets
pub mod Receive
pub mod Run
pub mod Prepare
use server_fw.Prelude.{
  ℕ, ◌+◌, ◌-◌, ◌*◌, ◌%◌, ◌^◌, Bool, true, false, ◌&&◌, ◌||◌, [], ◌∷◌, length, ltb, ◌==◌,
  if◌then◌else◌, Option, none, some,
}
use server_fw.Prelude.Text.{Bytes, codes}
use server_fw.Common.{State}
use server_fw.Addr.{Addr}
use server_fw.Addr
use server_fw.Options.{Options, options, blksize}
use server_fw.Options
use server_fw.DataMgr.{Report}
use server_fw.DataMgr.File.{DataMgrFile}
use server_fw.SmBuf.{size_mod}

-- `file_man` is `none` for the null pointer.
pub record Session : Type 0 where
  pub stat : State
  pub my_addr : Addr
  pub cl_addr : Addr
  pub stage : ℕ
  pub error_code : ℕ
  pub error_message : Bytes
  pub opt : Options
  pub file_man : Option DataMgrFile

-- The constructor.
abbrev pub session : Session
session = record {
  stat = State.need_init;
  my_addr = Addr.clear;
  cl_addr = Addr.clear;
  stage = 0;
  error_code = 0;
  error_message = [];
  opt = options;
  file_man = none;
}

-- The move assignment, with what it leaves of the other session: the message, the options and the data
-- manager are swapped, the rest is copied.
abbrev pub move_assign : Session → Session → Session × Session
move_assign s val =
    (val, record val { error_message = s.error_message; opt = s.opt; file_man = s.file_man })

-- The `switch` of `switch_to`, for two different states.
abbrev pub may_switch : State → State → Bool
may_switch State.need_init State.finish = true
may_switch State.need_init State.error_and_stop = true
may_switch State.need_init State.ack_options = true
may_switch State.need_init State.data_tx = true
may_switch State.need_init State.ack_tx = true
may_switch State.error_and_stop State.finish = true
may_switch State.ack_options State.data_rx = true
may_switch State.ack_options State.data_tx = true
may_switch State.ack_options State.ack_rx = true
may_switch State.ack_options State.ack_tx = true
may_switch State.data_tx State.ack_rx = true
may_switch State.data_tx State.error_and_stop = true
may_switch State.data_rx State.ack_tx = true
may_switch State.data_rx State.retransmit = true
may_switch State.ack_tx State.data_rx = true
may_switch State.ack_tx State.finish = true
may_switch State.ack_rx State.data_tx = true
may_switch State.ack_rx State.retransmit = true
may_switch State.ack_rx State.finish = true
may_switch State.retransmit State.data_tx = true
may_switch State.retransmit State.ack_tx = true
may_switch State.retransmit State.error_and_stop = true
may_switch _ _ = false

-- `==` of two states.
abbrev pub same_state : State → State → Bool
same_state State.need_init State.need_init = true
same_state State.error_and_stop State.error_and_stop = true
same_state State.ack_options State.ack_options = true
same_state State.data_tx State.data_tx = true
same_state State.data_rx State.data_rx = true
same_state State.ack_tx State.ack_tx = true
same_state State.ack_rx State.ack_rx = true
same_state State.retransmit State.retransmit = true
same_state State.finish State.finish = true
same_state _ _ = false

-- The result, and the session; a switch that is refused ends it.
unfoldable pub switch_to : Session → State → Bool × Session
switch_to s new_state =
    if same_state s.stat new_state || may_switch s.stat new_state
    then (true, record s { stat = new_state })
    else (false, record s { stat = State.finish })

-- `switch_to` where its result is not used.
abbrev pub to : Session → State → Session
to s new_state = (switch_to s new_state).1

abbrev pub is_finished : Session → Bool
is_finished s = same_state s.stat State.finish

-- The `int` of the option, as a `uint16_t`.
abbrev pub block_size : Session → ℕ
block_size s = blksize s.opt % 2 ^ 16

abbrev pub blk_num_local : Session → ℕ
blk_num_local s = s.stage % 2 ^ 16

-- The option is an `int` that is not negative.
abbrev pub windowsize : Session → ℕ
windowsize s = if ltb (Options.windowsize s.opt) 1 then 1 else Options.windowsize s.opt

unfoldable pub is_window_close : Session → ℕ → Bool
is_window_close s curr_stage = curr_stage % windowsize s == 0

unfoldable pub step_back_window : Session → ℕ → ℕ
step_back_window s curr_stage =
    let new_stage =
      if ltb 0 curr_stage
      then (if ltb 1 (windowsize s) then curr_stage - curr_stage % windowsize s else curr_stage - 1)
      else curr_stage in
    if ltb 0 curr_stage && new_stage == 0 then 1 else new_stage

-- `(stage_ - 1U) * block_size()`
abbrev pub position : Session → ℕ
position s = (s.stage + size_mod - 1) % size_mod * block_size s % size_mod

unfoldable pub was_error : Session → Bool
was_error s = ltb 0 s.error_code || ltb 0 (length s.error_message)

unfoldable pub set_error_if_first : Session → ℕ → Bytes → Session
unfolding was_error
set_error_if_first s e_cod e_msg =
    if was_error s then s else record s { error_code = e_cod; error_message = e_msg }

-- The callback that the data manager has.
abbrev pub reported : Session → Report → Session
reported s none = s
reported s (some (e_cod, e_msg)) = set_error_if_first s e_cod e_msg
