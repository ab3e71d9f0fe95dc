-- ===== src/Session/Run/Safety/Ways.antt =====
-- source/tftpSession.cpp: what a round of a read request may do, in each state.
use server_fw.Prelude.{
  ℕ, ◌+◌, ◌%◌, ◌^◌, ◌<◌, ◌≤◌, ◌≡◌, ◌⊎◌, inl, inr, refl, sym, ap, ◌∙◌, subst, arith, true, false,
  Bool-cases, List, [], ◌∷◌, ◌++◌, length, ltb, ◌==◌, ok, not, ◌&&◌, ◌||◌,
}
use server_fw.Prelude.Text.{Bytes, NoZero}
use server_fw.Common.{SrvReq, State, TripleResult}
use server_fw.Common.Strings.{int_max}
use server_fw.Options.{timeout}
use server_fw.SmBufEx.{SmBufEx}
use server_fw.Session.{Session, switch_to, was_error, block_size, is_window_close}
use server_fw.Session.Packets.{undefined_error}
use server_fw.Session.Packets.Layout.{IsLocal, Holds, word, construct_error-Holds}
use server_fw.Session.Receive.{Received, receive_no_wait}
use server_fw.Session.Receive.Acks.{ack_outcome}
use server_fw.Session.Receive.Stored.{at_stage}
use server_fw.Session.Run.{
  Env, Input, Loop, step, step_in, on_error_and_stop, on_ack_rx, on_retransmit, transmit_no_wait,
  after_data, after_ack, wait_or_retransmit,
}
use server_fw.Session.Run.Sending.{after_send, send_again}
use server_fw.Session.Run.Receiving.{ended}
use server_fw.Session.Run.Steps.{in_state}
use server_fw.Session.Run.Safety.{IsStopping}

-- The three ways of a round that built a packet.
pub after_data_ways :
    (i : Input) (l : Loop) (s : Session) (b : SmBufEx)
    → s.stat ≡ State.data_tx
    → (p : List Bytes) × ((after_data i l s b ≡ ok (after_send i l s b, p))
        ⊎ ((after_data i l s b ≡ ok (send_again l s b, p))
            ⊎ (after_data i l s b
                ≡ ok (
                  record l { session = record s { stat = State.error_and_stop }; local_buf = b },
                  p,
                ))))
unfolding switch_to
after_data_ways i l s b h = elim (Bool-cases (not (was_error s) && ltb 0 b.data_size)) [
  | inl c ↦ elim (Bool-cases (is_window_close s s.stage || not (b.data_size == block_size s + 4))) [
    | inl d ↦ (transmit_no_wait b, inl (rw c (rw d (rw h refl))))
    | inr d ↦ (transmit_no_wait b, inr (inl (rw c (rw d refl))))
  ]
  | inr c ↦ ([], inr (inr (rw c (rw h refl))))
]

-- The wait goes on, or times out.
wait_ways :
    (i : Input) (l : Loop)
    → l.session.stat ≡ State.ack_rx
    → timeout l.session.opt < int_max
    → (wait_or_retransmit i l ≡ ok (l, []))
      ⊎ (wait_or_retransmit i l
          ≡ ok (record l { session = record l.session { stat = State.retransmit } }, []))
unfolding switch_to
wait_ways i l h n = elim (Bool-cases (ltb i.now (l.oper_time + (timeout l.session.opt + 1)))) [
  | inl c ↦ inl (ground (arith, c))
  | inr c ↦ inr (ground (arith, c))
]

-- The session whose acknowledgement did not come in time.
abbrev pub late : Loop → SmBufEx → Loop
late l b = record l { session = record l.session { stat = State.retransmit }; local_buf = b }

-- The session that is told of a stage, and goes on to the next.
abbrev pub told_of : Input → Loop → ℕ → SmBufEx → Loop
told_of i l n b = record l {
  session = record l.session { stat = State.data_tx; stage = n + 1 };
  local_buf = b;
  oper_time = i.now;
}

-- The ways of a round that looks for an acknowledgement.
abbrev pub AckWays : Input → Loop → Type 0
AckWays i l =
    (b : SmBufEx) × IsLocal b
    × ((on_ack_rx i l ≡ ok (record l { local_buf = b }, []))
        ⊎ ((on_ack_rx i l ≡ ok (late l b, []))
            ⊎ (((n : ℕ) × (n ≤ l.session.stage + 1)
                  × (l.last_blk_processed ≡ false)
                  × (on_ack_rx i l ≡ ok (told_of i l n b, [])))
                ⊎ ((s : Session) × (s.stat ≡ State.finish)
                    × (on_ack_rx i l ≡ ok (record l { session = s; local_buf = b }, []))))))

nothing_came :
    (i : Input) (l : Loop) (r : Received)
    → receive_no_wait i.accepts i.rx l.session l.local_buf ≡ ok r
    → r.result ≡ TripleResult.nop
    → r.session ≡ l.session
    → on_ack_rx i l ≡ wait_or_retransmit i (record l { local_buf = r.buf })
unfolding on_ack_rx
nothing_came i l r e n s = rw e (
    rw n
      (ap (λ (x : Session). wait_or_retransmit i (record l { session = x; local_buf = r.buf })) s))

ack_came :
    (i : Input) (l : Loop) (r : Received) (n : ℕ)
    → receive_no_wait i.accepts i.rx l.session l.local_buf ≡ ok r
    → r.result ≡ TripleResult.ok
    → r.session ≡ at_stage l.session n
    → on_ack_rx i l ≡ ok (after_ack i l (at_stage l.session n) r.buf, [])
unfolding on_ack_rx
ack_came i l r n e k s = rw e (rw k (ap (λ (x : Session). ok (after_ack i l x r.buf, [])) s))

failure_came :
    (i : Input) (l : Loop) (r : Received)
    → receive_no_wait i.accepts i.rx l.session l.local_buf ≡ ok r
    → r.result ≡ TripleResult.fail
    → r.session.stat ≡ State.ack_rx
    → on_ack_rx i l
      ≡ ok (record l { session = record r.session { stat = State.finish }; local_buf = r.buf }, [])
unfolding on_ack_rx switch_to
failure_came i l r e k s = rw e (rw k (rw s refl))

after_ack_ways :
    (i : Input) (l : Loop) (n : ℕ) (b : SmBufEx)
    → l.session.stat ≡ State.ack_rx
    → ((l.last_blk_processed ≡ false) × (after_ack i l (at_stage l.session n) b ≡ told_of i l n b))
      ⊎ (after_ack i l (at_stage l.session n) b ≡ record l {
        session = record (at_stage l.session n) { stat = State.finish };
        local_buf = b;
      })
unfolding switch_to
after_ack_ways i l n b h = elim (Bool-cases l.last_blk_processed) [
  | inl c ↦ inr (ground (arith, c))
  | inr c ↦ inl (c, ground (arith, c))
]

pub ack_ways :
    (i : Input) (l : Loop)
    → l.session.stat ≡ State.ack_rx
    → IsLocal l.local_buf
    → timeout l.session.opt < int_max
    → AckWays i l
ack_ways i l h v t =
    let (r, e, outcome, local) = ack_outcome i.accepts i.rx l.session l.local_buf v h in
    (
      r.buf,
      local,
      elim outcome [
        | inl (n, s) ↦ elim (wait_ways i (record l { local_buf = r.buf }) h t) [
          | inl w ↦ inl (nothing_came i l r e n s ∙ w)
          | inr w ↦ inr (inl (nothing_came i l r e n s ∙ w))
        ]
        | inr (inl (k, n, less, s)) ↦
            let came = ack_came i l r n e k s in
            elim (after_ack_ways i l n r.buf h) [
              | inl (c, w) ↦ inr (inr (inl (n, less, c, came ∙ ap (λ (x : Loop). ok (x, [])) w)))
              | inr w ↦ inr (
                  inr (
                    inr (
                      record (at_stage l.session n) { stat = State.finish },
                      refl,
                      came ∙ ap (λ (x : Loop). ok (x, [])) w,
                    )))
            ]
        | inr (inr (k, s)) ↦ inr (
            inr (
              inr (record r.session { stat = State.finish }, refl, failure_came i l r e k (s ∙ h))))
      ],
    )

-- A retransmit is granted, or the session is to stop.
pub retransmit_ways :
    (env : Env) (i : Input) (l : Loop)
    → l.session.stat ≡ State.retransmit
    → l.session.opt.request_type ≡ SrvReq.read
    → (c : ℕ) × ((on_retransmit env i l
          ≡ ok (
            record l {
              session = record l.session { stat = State.data_tx };
              retr_count = c;
              oper_time = i.now;
            },
            [],
          ))
        ⊎ (on_retransmit env i l
            ≡ ok (
              record l {
                session = record l.session { stat = State.error_and_stop };
                retr_count = c;
              },
              [],
            )))
unfolding on_retransmit switch_to
retransmit_ways env i l h q =
    let c = (l.retr_count + 1) % 2 ^ 16 in
    elim (Bool-cases (ltb env.retransmit_count c)) [
      | inl d ↦ (c, inr (ground (arith, d)))
      | inr d ↦ (c, inl (ground (arith, d)))
    ]

-- An ERROR packet.
abbrev pub error_packet : Session → Bytes
error_packet s = 0 ∷ 5 ∷ (word s.error_code ++ (s.error_message ++ 0 ∷ []))

pub error_told :
    (l : Loop)
    → IsStopping l
    → was_error l.session ≡ true
    → (b : SmBufEx) × (on_error_and_stop l
        ≡ ok (
          record l { session = record l.session { stat = State.finish }; local_buf = b },
          error_packet l.session ∷ [],
        ))
unfolding on_error_and_stop switch_to
error_told l v c =
    let same : undefined_error l.session ≡ l.session = rw c refl in
    let (b, e, p) =
      construct_error-Holds l.session l.local_buf v.local
        (subst (λ (s : Session). NoZero s.error_message) (sym same) v.told.text)
        (omega (arith, v.told.brief, ap (λ (s : Session). length s.error_message) same)) in
    let told : Holds b (error_packet l.session) =
      subst (λ (s : Session). Holds b (error_packet s)) same p in
    let built = e ∙ ap (λ (s : Session). ok (s, b)) same in
    (b, ground (arith, c, v.state, built, told.counted, told.held))

-- It tells the error that was noted, if any, and finishes.
pub stop_ways :
    (env : Env) (i : Input) (l : Loop)
    → IsStopping l
    → (l' : Loop) × (l'.session.stat ≡ State.finish)
      × ((step env i l ≡ ok (l', [])) ⊎ (step env i l ≡ ok (l', error_packet l.session ∷ [])))
unfolding step_in on_error_and_stop switch_to
stop_ways env i l v =
    let begun = in_state env i l State.error_and_stop v.state in
    elim (Bool-cases (was_error l.session)) [
      | inl c ↦
          let (b, e) = error_told l v c in
          (
            record l { session = record l.session { stat = State.finish }; local_buf = b },
            refl,
            inr (begun ∙ e),
          )
      | inr c ↦ (
        record l { session = record l.session { stat = State.finish } },
        refl,
        inl (begun ∙ ended l v.state c),
      )
    ]

pub finish_step :
    (env : Env) (i : Input) (l : Loop) → l.session.stat ≡ State.finish → step env i l ≡ ok (l, [])
unfolding step_in
finish_step env i l h = in_state env i l State.finish h
