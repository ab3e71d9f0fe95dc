-- ===== src/Session/Run/Frame.antt =====
-- source/tftpSession.cpp: what no round of `run` changes.
use server_fw.Prelude.{
  ◌≡◌, refl, arith, List, [], Result, ok, err, ◌>>=◌, Option, some, none, undefined, subst,
}
use server_fw.Prelude.Text.{Bytes}
use server_fw.Common.{State, TripleResult}
use server_fw.SmBufEx.{SmBufEx}
use server_fw.DataMgr.File.{DataMgrFile}
use server_fw.Session.{Session, to, switch_to, set_error_if_first}
use server_fw.Session.Packets.{construct_data, construct_error}
use server_fw.Session.Receive.{Received, receive_no_wait}
use server_fw.Session.Receive.Blocks.{Keeps, receive_no_wait-Keeps}
use server_fw.Session.Run.{
  Env, Input, Loop, Round, init, step, step_in, on_need_init, on_error_and_stop, on_ack_options,
  on_data_tx, on_data_rx, on_ack_tx, on_ack_rx, on_retransmit, after_data, wait_or_retransmit,
  after_rx, after_ack,
}

-- The request that a session serves.
pub record SameRequest (s t : Session) : Type 0 where
  pub same_opt : t.opt ≡ s.opt
  pub same_client : t.cl_addr ≡ s.cl_addr

abbrev Kept : Session → Round → Type 0
Kept s (ok (l, sent)) = SameRequest s l.session
Kept s (err e) = Unit {0}

bind-Kept {ℓ} :
    {A : Type ℓ} (s : Session) (m : Result A) (f : A → Round)
    → ((a : A) → m ≡ ok a → Kept s (f a))
    → Kept s (m >>= f)
bind-Kept s (ok a) f h = h a refl
bind-Kept s (err e) f h = tt

need_init-Kept : (env : Env) (l : Loop) → Kept l.session (on_need_init env l)
unfolding on_need_init switch_to init set_error_if_first
need_init-Kept env l = ground arith

error_and_stop-Kept : (l : Loop) → Kept l.session (on_error_and_stop l)
unfolding on_error_and_stop switch_to construct_error
error_and_stop-Kept l = ground arith

ack_options-Kept : (i : Input) (l : Loop) → Kept l.session (on_ack_options i l)
unfolding on_ack_options switch_to
ack_options-Kept i l = ground arith

construct_data-Kept :
    (s : Session) (m : DataMgrFile) (b : SmBufEx) {s' : Session} {c : SmBufEx}
    → construct_data s m b ≡ ok (s', c)
    → SameRequest s s'
unfolding construct_data set_error_if_first
construct_data-Kept s m b {s'} {c} e = ground arith

after_data-Kept :
    (i : Input) (l : Loop) (s : Session) (b : SmBufEx)
    → SameRequest l.session s
    → Kept l.session (after_data i l s b)
unfolding switch_to
after_data-Kept i l s b v = ground (arith, v.same_opt, v.same_client)

data_tx-Kept : (i : Input) (l : Loop) → Kept l.session (on_data_tx i l)
unfolding on_data_tx
data_tx-Kept i l = with_file l.session.file_man
  where
    with_file :
        (o : Option DataMgrFile)
        → Kept l.session (elim o [
          | none ↦ err undefined
          | some m ↦ construct_data l.session m l.local_buf >>= λ r. after_data i l r.0 r.1
        ])
    with_file none = tt
    with_file (some m) =
        bind-Kept l.session (construct_data l.session m l.local_buf) _
          λ r q. after_data-Kept i l r.0 r.1 (construct_data-Kept l.session m l.local_buf q)

received_data-Kept :
    (i : Input) (l : Loop) (r : Received)
    → SameRequest l.session r.session
    → Kept l.session (elim r.result [
      | TripleResult.nop ↦
          wait_or_retransmit i (record l { session = r.session; local_buf = r.buf })
      | TripleResult.ok ↦ ok (after_rx i l r.session r.buf, [])
      | TripleResult.fail ↦
          ok (record l { session = to r.session State.error_and_stop; local_buf = r.buf }, [])
    ])
unfolding switch_to
received_data-Kept i l r v = ground (arith, v.same_opt, v.same_client)

received_ack-Kept :
    (i : Input) (l : Loop) (r : Received)
    → SameRequest l.session r.session
    → Kept l.session (elim r.result [
      | TripleResult.nop ↦
          wait_or_retransmit i (record l { session = r.session; local_buf = r.buf })
      | TripleResult.ok ↦ ok (after_ack i l r.session r.buf, [])
      | TripleResult.fail ↦
          ok (record l { session = to r.session State.error_and_stop; local_buf = r.buf }, [])
    ])
unfolding switch_to
received_ack-Kept i l r v = ground (arith, v.same_opt, v.same_client)

request : (s t : Session) → Keeps s t → SameRequest s t
request s t k = record { same_opt = k.same_opt; same_client = k.same_client }

ack_rx-Kept : (i : Input) (l : Loop) → Kept l.session (on_ack_rx i l)
unfolding on_ack_rx
ack_rx-Kept i l =
    bind-Kept l.session (receive_no_wait i.accepts i.rx l.session l.local_buf) _ λ r q.
      received_ack-Kept i l r
        (request l.session r.session (receive_no_wait-Keeps i.accepts i.rx l.session l.local_buf q))

data_rx-Kept : (i : Input) (l : Loop) → Kept l.session (on_data_rx i l)
unfolding on_data_rx
data_rx-Kept i l =
    bind-Kept l.session (receive_no_wait i.accepts i.rx l.session l.local_buf) _ λ r q.
      received_data-Kept i l r
        (request l.session r.session (receive_no_wait-Keeps i.accepts i.rx l.session l.local_buf q))

ack_tx-Kept : (i : Input) (l : Loop) → Kept l.session (on_ack_tx i l)
unfolding on_ack_tx switch_to
ack_tx-Kept i l = ground arith

retransmit-Kept : (env : Env) (i : Input) (l : Loop) → Kept l.session (on_retransmit env i l)
unfolding on_retransmit switch_to
retransmit-Kept env i l = ground arith

step_in-Kept : (st : State) (env : Env) (i : Input) (l : Loop) → Kept l.session (step_in st env i l)
unfolding step_in
step_in-Kept State.need_init env i l = need_init-Kept env l
step_in-Kept State.error_and_stop env i l = error_and_stop-Kept l
step_in-Kept State.ack_options env i l = ack_options-Kept i l
step_in-Kept State.data_tx env i l = data_tx-Kept i l
step_in-Kept State.data_rx env i l = data_rx-Kept i l
step_in-Kept State.ack_tx env i l = ack_tx-Kept i l
step_in-Kept State.ack_rx env i l = ack_rx-Kept i l
step_in-Kept State.retransmit env i l = retransmit-Kept env i l
step_in-Kept State.finish env i l = record { same_opt = refl; same_client = refl }

-- No round changes the request that the session serves, nor its client.
pub step-SameRequest :
    (env : Env) (i : Input) (l : Loop) {l' : Loop} {sent : List Bytes}
    → step env i l ≡ ok (l', sent)
    → SameRequest l.session l'.session
step-SameRequest env i l e = subst (Kept l.session) e (step_in-Kept l.session.stat env i l)
