-- ===== src/Session/Run/Safety.antt =====
-- source/tftpSession.cpp: rounds of a read request, whatever packets come and whatever the file gives.
pub mod Ways
pub mod Total
pub mod Proper
pub mod Waits
pub mod Sends
pub mod Reads
pub mod Late
pub mod Silence
pub mod Repeats
pub mod Unanswered
use server_fw.Prelude.{
  ℕ, ◌+◌, ◌%◌, ◌^◌, ◌<◌, ◌≤◌, ◌≡◌, ◌⊎◌, inl, inr, refl, sym, ap, ◌∙◌, subst, arith, Bool, true,
  false, Bool-cases, List, [], ◌∷◌, ◌++◌, length, ltb, ◌==◌, some, ok, not, ◌&&◌, ◌||◌,
}
use server_fw.Prelude.Text.{Bytes, NoZero}
use server_fw.Common.{SrvReq, State, TripleResult}
use server_fw.Common.Strings.{int_max}
use server_fw.Options.{timeout}
use server_fw.SmBufEx.{SmBufEx}
use server_fw.DataMgr.File.{DataMgrFile}
use server_fw.Session.{
  Session, to, switch_to, was_error, block_size, is_window_close, set_error_if_first,
}
use server_fw.Session.Packets.{undefined_error}
use server_fw.Session.Packets.Layout.{IsLocal, Holds, word, construct_error-Holds}
use server_fw.Session.Packets.Told.{IsTold}
use server_fw.Session.Packets.Total.{IsBuilt, construct_data_total}
use server_fw.Session.Receive.{Received, receive_no_wait}
use server_fw.Session.Receive.Acks.{AckOutcome, ack_outcome}
use server_fw.Session.Receive.Stored.{at_stage}
use server_fw.Session.Run.{
  Env, Input, Loop, Round, step, step_in, on_error_and_stop, on_data_tx, on_ack_rx, on_retransmit,
  transmit_no_wait, after_data, after_ack, wait_or_retransmit, resumed, rounds, with_session,
}
use server_fw.Session.Run.Sending.{on_data_tx-built, after_send, send_again}
use server_fw.Session.Run.Receiving.{ended}
use server_fw.Session.Run.Steps.{in_state, rounds_none, rounds_one, prefixed-ok, finish_stays}

-- What a session that sends keeps in each of its states.
pub record IsReader (l : Loop) : Type 0 where
  pub m : DataMgrFile
  pub file : l.session.file_man ≡ some m
  pub kind : m.request_type ≡ SrvReq.read
  pub local : IsLocal l.local_buf
  pub roomy : block_size l.session ≤ 65531
  pub asked : l.session.opt.request_type ≡ SrvReq.read
  pub limit : timeout l.session.opt < int_max
  pub told : IsTold l.session

-- A session that is to tell an error, or just to stop.
pub record IsStopping (l : Loop) : Type 0 where
  pub state : l.session.stat ≡ State.error_and_stop
  pub local : IsLocal l.local_buf
  pub told : IsTold l.session

pub data Alive (l : Loop) : Type 0 where
  sends : l.session.stat ≡ State.data_tx → IsReader l → Alive l
  waits : l.session.stat ≡ State.ack_rx → IsReader l → Alive l
  retries : l.session.stat ≡ State.retransmit → IsReader l → Alive l
  stops : IsStopping l → Alive l
  finished : l.session.stat ≡ State.finish → Alive l

-- A round and what it leaves.
abbrev pub Steps : Env → Input → Loop → Type 0
Steps env i l = (l' : Loop) × (p : List Bytes) × (step env i l ≡ ok (l', p)) × Alive l'

pub IsReader-built :
    (l l' : Loop) (s : Session) (b : SmBufEx)
    → IsReader l
    → IsBuilt l.session s b
    → l'.local_buf ≡ b
    → l'.session.file_man ≡ s.file_man
    → l'.session.opt ≡ s.opt
    → l'.session.error_message ≡ s.error_message
    → IsReader l'
IsReader-built l l' s b r t f m o w = record {
  m = t.m;
  file = m ∙ t.file;
  kind = t.kind;
  local = subst IsLocal (sym f) t.local;
  roomy = ground (arith, r.roomy, o, t.same_opt);
  asked = ground (arith, r.asked, o, t.same_opt);
  limit = ground (arith, r.limit, o, t.same_opt);
  told = record {
    text = subst NoZero (sym w) t.told.text;
    brief = omega (arith, t.told.brief, ap length w);
  };
}

pub IsReader-kept :
    (l l' : Loop)
    → IsReader l
    → IsLocal l'.local_buf
    → l'.session.file_man ≡ l.session.file_man
    → l'.session.opt ≡ l.session.opt
    → l'.session.error_message ≡ l.session.error_message
    → IsReader l'
IsReader-kept l l' r v m o w = record {
  m = r.m;
  file = m ∙ r.file;
  kind = r.kind;
  local = v;
  roomy = ground (arith, r.roomy, o);
  asked = ground (arith, r.asked, o);
  limit = ground (arith, r.limit, o);
  told = record {
    text = subst NoZero (sym w) r.told.text;
    brief = omega (arith, r.told.brief, ap length w);
  };
}
