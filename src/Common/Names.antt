-- ===== src/Common/Names.antt =====
-- source/tftpCommon.h: the overloads of `to_string` and the log levels' numbers.
use server_fw.Prelude.{ℕ}
use server_fw.Prelude.Text.{Bytes, codes}
use server_fw.Common.{SrvReq, TransfMode, LogLvl, State, TripleResult}

unfoldable pub srv_req_to_string : SrvReq → Bytes
srv_req_to_string SrvReq.unknown = codes "unknown"
srv_req_to_string SrvReq.read = codes "read"
srv_req_to_string SrvReq.write = codes "write"

-- `mail` has no case in the source, and falls to the default.
unfoldable pub transf_mode_to_string : TransfMode → Bytes
transf_mode_to_string TransfMode.unknown = codes "unknown"
transf_mode_to_string TransfMode.netascii = codes "netascii"
transf_mode_to_string TransfMode.octet = codes "octet"
transf_mode_to_string TransfMode.binary = codes "binary"
transf_mode_to_string TransfMode.mail = codes "UNK_TRANSF_MODE"

unfoldable pub log_lvl_to_string : LogLvl → Bytes
log_lvl_to_string LogLvl.emerg = codes "emerg"
log_lvl_to_string LogLvl.alert = codes "alert"
log_lvl_to_string LogLvl.crit = codes "crit"
log_lvl_to_string LogLvl.err = codes "err"
log_lvl_to_string LogLvl.warning = codes "warning"
log_lvl_to_string LogLvl.notice = codes "notice"
log_lvl_to_string LogLvl.info = codes "info"
log_lvl_to_string LogLvl.debug = codes "debug"

unfoldable pub state_to_string : State → Bytes
state_to_string State.need_init = codes "need_init"
state_to_string State.error_and_stop = codes "error_and_stop"
state_to_string State.ack_options = codes "ack_options"
state_to_string State.data_tx = codes "data_tx"
state_to_string State.data_rx = codes "data_rx"
state_to_string State.ack_tx = codes "ack_tx"
state_to_string State.ack_rx = codes "ack_rx"
state_to_string State.retransmit = codes "retransmit"
state_to_string State.finish = codes "finish"

unfoldable pub triple_result_to_string : TripleResult → Bytes
triple_result_to_string TripleResult.nop = codes "nop"
triple_result_to_string TripleResult.ok = codes "ok"
triple_result_to_string TripleResult.fail = codes "fail"

-- `(int)lvl`.
unfoldable pub log_lvl_code : LogLvl → ℕ
log_lvl_code LogLvl.emerg = 0
log_lvl_code LogLvl.alert = 1
log_lvl_code LogLvl.crit = 2
log_lvl_code LogLvl.err = 3
log_lvl_code LogLvl.warning = 4
log_lvl_code LogLvl.notice = 5
log_lvl_code LogLvl.info = 6
log_lvl_code LogLvl.debug = 7
