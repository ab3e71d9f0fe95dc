-- ===== src/Session/Run/Safety/Late.antt =====
-- source/tftpSession.cpp: the rounds of a read request in which no packet comes.
use server_fw.Prelude.{
  ℕ, suc, ◌+◌, ◌%◌, ◌^◌, ◌<◌, ◌≤◌, ◌≡◌, ◌⊎◌, inl, inr, refl, ap, ◌∙◌, arith, true, Bool-cases, List,
  [], ◌∷◌, ltb, not, ◌&&◌, ok, ◌++◌,
}
use server_fw.Prelude.Text.{Bytes}
use server_fw.Common.{State}
use server_fw.Options.{timeout}
use server_fw.SmBufEx.{SmBufEx}
use server_fw.Session.{Session, switch_to, was_error, windowsize, is_window_close}
use server_fw.Session.Packets.Total.{construct_data_total}
use server_fw.Session.Receive.{again, receive_no_wait}
use server_fw.Common.Strings.{int_max}
use server_fw.Session.Run.Receiving.Silence.{IsPolled}
use server_fw.Session.Run.{
  Env, Input, Loop, step, step_in, after_data, transmit_no_wait, on_ack_rx, rounds,
}
use server_fw.Session.Run.Sending.{on_data_tx-built, after_send}
use server_fw.Session.Run.Exchange.{single_window}
use server_fw.Session.Run.Negotiation.Lost.{not_acknowledged, retried}
use server_fw.Session.Run.Receiving.{resent, stopped}
use server_fw.Session.Run.Receiving.Blocks.{window_of}
use server_fw.Session.Run.Steps.{in_state, rounds_one, prefixed-nil}
use server_fw.Session.Run.Safety.{IsReader, IsStopping, IsReader-built, IsReader-kept}

-- One block with a client that is silent: the round that sends it, rounds that look at the socket
-- within the timeout, the first that comes later, and the one after it, which does not look.
pub record Attempt : Type 0 where
  pub send : Input
  pub polls : List Input
  pub late : Input
  pub retry : Input

abbrev pub inputs : List Attempt → List Input → List Input
inputs [] rest = rest
inputs (t ∷ ts) rest = t.send ∷ (t.polls ++ t.late ∷ t.retry ∷ inputs ts rest)

abbrev pub AreUnanswered : ℕ → List Attempt → Type 0
AreUnanswered wait [] = Unit {0}
AreUnanswered wait (t ∷ ts) =
    IsPolled wait t.send.now t.polls
    × (t.late.rx ≡ again)
    × (t.send.now + wait < t.late.now)
    × AreUnanswered wait ts

-- What the rounds of a silent client keep.
pub record IsTimed (env : Env) (wait : ℕ) (l : Loop) : Type 0 where
  pub reader : IsReader l
  pub window : windowsize l.session ≡ 1
  pub waits : timeout l.session.opt ≡ wait
  pub counted : l.retr_count ≤ env.retransmit_count
  pub limit : env.retransmit_count < 65535

-- A session that awaits the acknowledgement of a block since a time.
pub record IsAwaiting (env : Env) (wait now count : ℕ) (l : Loop) : Type 0 where
  pub state : l.session.stat ≡ State.ack_rx
  pub timed : IsTimed env wait l
  pub clock : l.oper_time ≡ now
  pub same_count : l.retr_count ≡ count

-- With one block to a window each block is awaited, or the session stops.
closed_ways :
    (i : Input) (l : Loop) (s : Session) (b : SmBufEx)
    → s.stat ≡ State.data_tx
    → is_window_close s s.stage ≡ true
    → (p : List Bytes) × ((after_data i l s b ≡ ok (after_send i l s b, p))
        ⊎ (after_data i l s b
            ≡ ok (
              record l { session = record s { stat = State.error_and_stop }; local_buf = b },
              p,
            )))
unfolding switch_to
closed_ways i l s b h d = elim (Bool-cases (not (was_error s) && ltb 0 b.data_size)) [
  | inl c ↦ (transmit_no_wait b, inl (rw c (rw d (rw h refl))))
  | inr c ↦ ([], inr (rw c (rw h refl)))
]

pub sends_ways :
    (env : Env) (wait : ℕ) (i : Input) (l : Loop)
    → l.session.stat ≡ State.data_tx
    → IsTimed env wait l
    → (l' : Loop) × (p : List Bytes) × (step env i l ≡ ok (l', p))
      × (IsAwaiting env wait i.now l.retr_count l' ⊎ IsStopping l')
unfolding step_in
sends_ways env wait i l h v =
    let r = v.reader in
    let (s, b, e, t) =
      construct_data_total l.session r.m l.local_buf r.local r.kind r.roomy r.told in
    let begun = in_state env i l State.data_tx h ∙ on_data_tx-built i l r.m s b r.file e in
    let single = ap window_of t.same_opt ∙ v.window in
    let (p, ways) = closed_ways i l s b (t.same_stat ∙ h) (single_window s single) in
    elim ways [
      | inl k ↦ (
        after_send i l s b,
        p,
        begun ∙ k,
        inl (record {
          state = refl;
          timed = record {
            reader = IsReader-built l (after_send i l s b) s b r t refl refl refl refl;
            window = single;
            waits = ap timeout t.same_opt ∙ v.waits;
            counted = v.counted;
            limit = v.limit;
          };
          clock = refl;
          same_count = refl;
        }),
      )
      | inr k ↦ (
        record l { session = record s { stat = State.error_and_stop }; local_buf = b },
        p,
        begun ∙ k,
        inr (record {
          state = refl;
          local = t.local;
          told = record { text = t.told.text; brief = t.told.brief };
        }),
      )
    ]

poll :
    (i : Input) (l : Loop)
    → l.session.stat ≡ State.ack_rx
    → i.rx ≡ again
    → timeout l.session.opt < int_max
    → i.now ≤ l.oper_time + timeout l.session.opt
    → on_ack_rx i l ≡ ok (l, [])
unfolding on_ack_rx receive_no_wait
poll i l h e t n = ground (arith, e)

-- The looks at the socket within the timeout change nothing.
pub polled :
    (env : Env) (wait : ℕ) (is rest : List Input) (l : Loop)
    → l.session.stat ≡ State.ack_rx
    → IsTimed env wait l
    → IsPolled wait l.oper_time is
    → rounds env (is ++ rest) l ≡ rounds env rest l
unfolding step_in
polled env wait [] rest l h v s = refl
polled env wait (i ∷ is) rest l h v s =
    rounds_one env i (is ++ rest) l (
      in_state env i l State.ack_rx h ∙ poll i l h s.0 v.reader.limit (omega (arith, s.1, v.waits)))
    ∙ prefixed-nil (rounds env (is ++ rest) l)
    ∙ polled env wait is rest l h v s.2

abbrev pub timed_out : Loop → Loop
timed_out l = record l { session = record l.session { stat = State.retransmit } }

pub waits_late :
    (env : Env) (wait : ℕ) (i : Input) (l : Loop)
    → l.session.stat ≡ State.ack_rx
    → IsTimed env wait l
    → i.rx ≡ again
    → l.oper_time + wait < i.now
    → step env i l ≡ ok (timed_out l, [])
unfolding step_in
waits_late env wait i l h v quiet later =
    in_state env i l State.ack_rx h
    ∙ not_acknowledged i l h quiet v.reader.limit (omega (arith, later, v.waits))

-- The session that sends once more after a timeout, and the one that has no retransmit left.
abbrev pub resending : Env → Input → Loop → Loop
resending env i l = resent env i (timed_out l) State.data_tx

abbrev pub giving_up : Env → Input → Loop → Loop
giving_up env i l = resent env (record i { now = l.oper_time }) (timed_out l) State.error_and_stop

pub retry_more :
    (env : Env) (wait : ℕ) (i : Input) (l : Loop)
    → IsTimed env wait l
    → l.retr_count < env.retransmit_count
    → (step env i (timed_out l) ≡ ok (resending env i l, []))
      × IsTimed env wait (resending env i l)
      × ((resending env i l).retr_count ≡ suc l.retr_count)
unfolding step_in
retry_more env wait i l v more =
    let counts : (l.retr_count + 1) % 2 ^ 16 ≡ suc l.retr_count = omega (arith, more, v.limit) in
    (
      retried env i (timed_out l) refl (omega (arith, more, counts)) v.reader.asked,
      record {
        reader = IsReader-kept l (resending env i l) v.reader v.reader.local refl refl refl;
        window = v.window;
        waits = v.waits;
        counted = omega (arith, more, counts);
        limit = v.limit;
      },
      counts,
    )

pub retry_last :
    (env : Env) (wait : ℕ) (i : Input) (l : Loop)
    → IsTimed env wait l
    → l.retr_count ≡ env.retransmit_count
    → (step env i (timed_out l) ≡ ok (giving_up env i l, [])) × IsStopping (giving_up env i l)
unfolding step_in
retry_last env wait i l v over = (
  stopped env i (timed_out l) refl (omega (arith, over, v.limit)),
  record {
    state = refl;
    local = v.reader.local;
    told = record { text = v.reader.told.text; brief = v.reader.told.brief };
  },
)
