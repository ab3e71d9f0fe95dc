-- ===== src/Session/Run/Moves.antt =====
-- The states that the rounds of `run` lead through.
use server_fw.Prelude.{
  ◌≡◌, refl, ◌∙◌, arith, Bool, true, false, List, [], Result, ok, err, ◌>>=◌, Option, some, none,
  undefined, subst, if◌then◌else◌,
}
use server_fw.Prelude.Text.{Bytes}
use server_fw.Common.{State, TripleResult}
use server_fw.SmBufEx.{SmBufEx}
use server_fw.DataMgr.File.{DataMgrFile}
use server_fw.Session.{Session, to, switch_to, set_error_if_first, was_error}
use server_fw.Session.Packets.{construct_data, construct_error}
use server_fw.Session.Receive.{Received, receive_no_wait}
use server_fw.Session.Receive.Blocks.{receive_no_wait-Keeps}
use server_fw.Session.Run.{
  Env, Input, Loop, Round, init, step, step_in, on_need_init, on_error_and_stop, on_ack_options,
  on_data_tx, on_data_rx, on_ack_tx, on_ack_rx, on_retransmit, after_data, wait_or_retransmit,
  after_rx, after_ack,
}

-- The moves of the rounds. A receive that fails, in `data_rx` or `ack_rx`, has no way to
-- `error_and_stop`.
abbrev pub moves : State → State → Bool
moves State.need_init State.error_and_stop = true
moves State.need_init State.ack_options = true
moves State.need_init State.finish = true
moves State.error_and_stop State.finish = true
moves State.ack_options State.ack_rx = true
moves State.ack_options State.data_tx = true
moves State.ack_options State.data_rx = true
moves State.ack_options State.ack_tx = true
moves State.ack_options State.finish = true
moves State.data_tx State.data_tx = true
moves State.data_tx State.ack_rx = true
moves State.data_tx State.error_and_stop = true
moves State.data_rx State.data_rx = true
moves State.data_rx State.retransmit = true
moves State.data_rx State.ack_tx = true
moves State.data_rx State.finish = true
moves State.ack_tx State.data_rx = true
moves State.ack_tx State.finish = true
moves State.ack_rx State.ack_rx = true
moves State.ack_rx State.retransmit = true
moves State.ack_rx State.data_tx = true
moves State.ack_rx State.finish = true
moves State.retransmit State.data_tx = true
moves State.retransmit State.ack_tx = true
moves State.retransmit State.error_and_stop = true
moves State.finish State.finish = true
moves _ _ = false

-- A round that ends well makes one of the moves.
abbrev Moved : State → Round → Type 0
Moved st (ok (l, sent)) = moves st l.session.stat ≡ true
Moved st (err e) = Unit {0}

bind-Moved {ℓ} :
    {A : Type ℓ} (st : State) (m : Result A) (f : A → Round)
    → ((a : A) → m ≡ ok a → Moved st (f a))
    → Moved st (m >>= f)
bind-Moved st (ok a) f h = h a refl
bind-Moved st (err e) f h = tt

init-stat : (env : Env) (s : Session) {r : Bool × Session} → init env s ≡ ok r → r.1.stat ≡ s.stat
unfolding init set_error_if_first
init-stat env s e = ground arith

begun-Moved :
    (l : Loop) (ret : Bool) (s : Session)
    → s.stat ≡ State.need_init
    → Moved State.need_init (
        ok (
          record l {
            session = to s (
                if ret
                then (if was_error s then State.error_and_stop else State.ack_options)
                else State.finish);
          },
          [],
        ))
unfolding switch_to
begun-Moved l ret s e = ground arith

need_init-Moved :
    (env : Env) (l : Loop)
    → l.session.stat ≡ State.need_init
    → Moved State.need_init (on_need_init env l)
unfolding on_need_init
need_init-Moved env l e =
    bind-Moved State.need_init (init env l.session) _
      λ r q. begun-Moved l r.0 r.1 (init-stat env l.session q ∙ e)

error_and_stop-Moved :
    (l : Loop)
    → l.session.stat ≡ State.error_and_stop
    → Moved State.error_and_stop (on_error_and_stop l)
unfolding on_error_and_stop switch_to construct_error
error_and_stop-Moved l e = ground arith

ack_options-Moved :
    (i : Input) (l : Loop)
    → l.session.stat ≡ State.ack_options
    → Moved State.ack_options (on_ack_options i l)
unfolding on_ack_options switch_to
ack_options-Moved i l e = ground arith

construct_data-stat :
    (s : Session) (m : DataMgrFile) (b : SmBufEx) {s' : Session} {c : SmBufEx}
    → construct_data s m b ≡ ok (s', c)
    → s'.stat ≡ s.stat
unfolding construct_data set_error_if_first
construct_data-stat s m b {s'} {c} e = ground arith

after_data-Moved :
    (i : Input) (l : Loop) (s : Session) (b : SmBufEx)
    → s.stat ≡ State.data_tx
    → Moved State.data_tx (after_data i l s b)
unfolding switch_to
after_data-Moved i l s b e = ground arith

data_tx-Moved :
    (i : Input) (l : Loop) → l.session.stat ≡ State.data_tx → Moved State.data_tx (on_data_tx i l)
unfolding on_data_tx
data_tx-Moved i l e = with_file l.session.file_man
  where
    with_file :
        (o : Option DataMgrFile)
        → Moved State.data_tx (elim o [
          | none ↦ err undefined
          | some m ↦ construct_data l.session m l.local_buf >>= λ r. after_data i l r.0 r.1
        ])
    with_file none = tt
    with_file (some m) =
        bind-Moved State.data_tx (construct_data l.session m l.local_buf) _
          λ r q. after_data-Moved i l r.0 r.1 (construct_data-stat l.session m l.local_buf q ∙ e)

received_data-Moved :
    (i : Input) (l : Loop) (r : Received)
    → r.session.stat ≡ State.data_rx
    → Moved State.data_rx (elim r.result [
      | TripleResult.nop ↦
          wait_or_retransmit i (record l { session = r.session; local_buf = r.buf })
      | TripleResult.ok ↦ ok (after_rx i l r.session r.buf, [])
      | TripleResult.fail ↦
          ok (record l { session = to r.session State.error_and_stop; local_buf = r.buf }, [])
    ])
unfolding switch_to
received_data-Moved i l r e = ground arith

received_ack-Moved :
    (i : Input) (l : Loop) (r : Received)
    → r.session.stat ≡ State.ack_rx
    → Moved State.ack_rx (elim r.result [
      | TripleResult.nop ↦
          wait_or_retransmit i (record l { session = r.session; local_buf = r.buf })
      | TripleResult.ok ↦ ok (after_ack i l r.session r.buf, [])
      | TripleResult.fail ↦
          ok (record l { session = to r.session State.error_and_stop; local_buf = r.buf }, [])
    ])
unfolding switch_to
received_ack-Moved i l r e = ground arith

ack_rx-Moved :
    (i : Input) (l : Loop) → l.session.stat ≡ State.ack_rx → Moved State.ack_rx (on_ack_rx i l)
unfolding on_ack_rx
ack_rx-Moved i l e =
    bind-Moved State.ack_rx (receive_no_wait i.accepts i.rx l.session l.local_buf) _ λ r q.
      received_ack-Moved i l r
        ((receive_no_wait-Keeps i.accepts i.rx l.session l.local_buf q).same_stat ∙ e)

data_rx-Moved :
    (i : Input) (l : Loop) → l.session.stat ≡ State.data_rx → Moved State.data_rx (on_data_rx i l)
unfolding on_data_rx
data_rx-Moved i l e =
    bind-Moved State.data_rx (receive_no_wait i.accepts i.rx l.session l.local_buf) _ λ r q.
      received_data-Moved i l r
        ((receive_no_wait-Keeps i.accepts i.rx l.session l.local_buf q).same_stat ∙ e)

ack_tx-Moved :
    (i : Input) (l : Loop) → l.session.stat ≡ State.ack_tx → Moved State.ack_tx (on_ack_tx i l)
unfolding on_ack_tx switch_to
ack_tx-Moved i l e = ground arith

retransmit-Moved :
    (env : Env) (i : Input) (l : Loop)
    → l.session.stat ≡ State.retransmit
    → Moved State.retransmit (on_retransmit env i l)
unfolding on_retransmit switch_to
retransmit-Moved env i l e = ground arith

step_in-Moved :
    (st : State) (env : Env) (i : Input) (l : Loop)
    → l.session.stat ≡ st
    → Moved st (step_in st env i l)
unfolding step_in
step_in-Moved State.need_init env i l e = need_init-Moved env l e
step_in-Moved State.error_and_stop env i l e = error_and_stop-Moved l e
step_in-Moved State.ack_options env i l e = ack_options-Moved i l e
step_in-Moved State.data_tx env i l e = data_tx-Moved i l e
step_in-Moved State.data_rx env i l e = data_rx-Moved i l e
step_in-Moved State.ack_tx env i l e = ack_tx-Moved i l e
step_in-Moved State.ack_rx env i l e = ack_rx-Moved i l e
step_in-Moved State.retransmit env i l e = retransmit-Moved env i l e
step_in-Moved State.finish env i l e = rw e refl

-- Every round that ends without a throw makes one of the moves of the table: `finish` is never left,
-- nothing but `finish` follows `error_and_stop`, and that state is entered only from the start, from
-- sending data and from a retransmit, so never after a receive that failed.
pub step-moves :
    (env : Env) (i : Input) (l : Loop) {l' : Loop} {sent : List Bytes}
    → step env i l ≡ ok (l', sent)
    → moves l.session.stat l'.session.stat ≡ true
step-moves env i l e = subst (Moved l.session.stat) e (step_in-Moved l.session.stat env i l refl)

-- A receive that fails ends the session in the same round, in either receiving state: no ERROR packet
-- is sent, nor any other.
pub receive_failure_silent :
    (i : Input) (l : Loop) (r : Received)
    → receive_no_wait i.accepts i.rx l.session l.local_buf ≡ ok r
    → r.result ≡ TripleResult.fail
    → ((l.session.stat ≡ State.data_rx)
        → (l' : Loop) × (on_data_rx i l ≡ ok (l', [])) × (l'.session.stat ≡ State.finish))
      × ((l.session.stat ≡ State.ack_rx)
          → (l' : Loop) × (on_ack_rx i l ≡ ok (l', [])) × (l'.session.stat ≡ State.finish))
unfolding on_data_rx on_ack_rx switch_to
receive_failure_silent i l r e f =
    let k = (receive_no_wait-Keeps i.accepts i.rx l.session l.local_buf e).same_stat in
    let stopped : Loop = record l {
      session = record r.session { stat = State.finish };
      local_buf = r.buf;
    } in
    (λ st. (stopped, ground arith, refl), λ st. (stopped, ground arith, refl))
