-- ===== src/DataMgr.antt =====
-- source/tftpDataMgr.h, source/tftpDataMgr.cpp, source/tftpDataMgrFile.h and
-- source/tftpDataMgrFile.cpp: the manager of the file that a session sends or receives.
pub mod Streams
pub mod File
use server_fw.Prelude.{ℕ, Option}
use server_fw.Prelude.Text.{Bytes}

-- The error that a call hands to the session by its callback: a code and a text.
abbrev pub Report : Type 0
Report = Option (ℕ × Bytes)
