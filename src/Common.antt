-- ===== src/Common.antt =====
-- source/tftpCommon.h: the enumerations that the classes share. Their texts for log messages are in
-- Names, the helpers on strings in Strings.
pub mod Names
pub mod Strings
pub mod Users

pub data SrvReq : Type 0 where
  unknown read write : SrvReq

pub data TransfMode : Type 0 where
  unknown netascii octet binary mail : TransfMode

pub data LogLvl : Type 0 where
  emerg alert crit err warning notice info debug : LogLvl

pub data State : Type 0 where
  need_init error_and_stop ack_options data_tx data_rx ack_tx ack_rx retransmit finish : State

pub data TripleResult : Type 0 where
  nop ok fail : TripleResult
