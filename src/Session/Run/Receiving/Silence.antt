-- ===== src/Session/Run/Receiving/Silence.antt =====
-- source/tftpSession.cpp: a client that stops answering in a write request.
use server_fw.Prelude.{
  ℕ, zero, suc, ◌+◌, ◌-◌, ◌%◌, ◌^◌, ◌<◌, ◌≤◌, ◌≡◌, refl, ap, ◌∙◌, arith, false, List, [], ◌∷◌, ◌++◌,
  length, ok,
}
use server_fw.Common.{SrvReq, State}
use server_fw.Common.Strings.{int_max}
use server_fw.Options.{timeout}
use server_fw.Session.{was_error}
use server_fw.Session.Packets.Layout.{IsLocal, word}
use server_fw.Session.Receive.{again, receive_no_wait}
use server_fw.Session.Run.Steps.{
  finish_stays, prefixed-nil, prefixed, prefixed-ok, prefixed-prefixed, in_state, rounds_one,
  rounds_two,
}
use server_fw.Session.Run.{Env, Input, Loop, Round, on_data_rx, step_in, rounds}
use server_fw.Session.Run.Receiving.{
  ack_packets, resent, acked, retransmit_granted, timed_out, ack_sent, stopped, ended,
}

-- What a client that is silent lets happen: rounds that look at the socket within the timeout, the first
-- that comes later, and the two after it, which do not look at the socket.
pub record Turn : Type 0 where
  pub polls : List Input
  pub late : Input
  pub retry : Input
  pub ackn : Input

abbrev pub inputs : List Turn → List Input
inputs [] = []
inputs (t ∷ ts) = t.polls ++ t.late ∷ t.retry ∷ t.ackn ∷ inputs ts

-- No packet comes, from a time on and with the clock of each round.
abbrev pub IsPolled : ℕ → ℕ → List Input → Type 0
IsPolled limit last [] = Unit {0}
IsPolled limit last (i ∷ is) = (i.rx ≡ again) × (i.now ≤ last + limit) × IsPolled limit last is

abbrev pub IsSilent : ℕ → ℕ → List Turn → Type 0
IsSilent limit last [] = Unit {0}
IsSilent limit last (t ∷ ts) =
    IsPolled limit last t.polls
    × (t.late.rx ≡ again)
    × (last + limit < t.late.now)
    × IsSilent limit t.ackn.now ts

-- A session that awaits a block of a write request.
pub record IsWaiting (l : Loop) : Type 0 where
  pub state : l.session.stat ≡ State.data_rx
  pub write : l.session.opt.request_type ≡ SrvReq.write
  pub not_last : l.last_blk_processed ≡ false
  pub local : IsLocal l.local_buf
  pub no_error : was_error l.session ≡ false
  pub limit : timeout l.session.opt < int_max

-- One timeout that is granted a retransmit: three rounds, and the session waits again.
module _ (env : Env) (i j k : Input) (rest : List Input) (l : Loop) (v : IsWaiting l)
    (c : (l.retr_count + 1) % 2 ^ 16 ≤ env.retransmit_count) (quiet : i.rx ≡ again)
    (late : l.oper_time + timeout l.session.opt < i.now) where
  abbrev asked_again : Loop
  asked_again =
      resent env j (record l { session = record l.session { stat = State.retransmit } })
        State.ack_tx

  -- The packets of the cycle and the session after it.
  record Cycle (l' : Loop) : Type 0 where
    waits : IsWaiting l'
    next_stage : l'.session.stage ≡ l.session.stage + 1
    counted : l'.retr_count ≡ (l.retr_count + 1) % 2 ^ 16
    same_opt : l'.session.opt ≡ l.session.opt
    clock : l'.oper_time ≡ k.now
    run :
        rounds env (i ∷ j ∷ k ∷ rest) l
        ≡ prefixed ((0 ∷ 4 ∷ word (l.session.stage % 2 ^ 16)) ∷ []) (rounds env rest l')

  cycle : (l' : Loop) × Cycle l'
  unfolding was_error step_in
  cycle =
      let (b, local, e) = ack_sent k asked_again v.local refl v.not_last in
      (
        acked k asked_again b,
        record {
          waits = record {
            state = refl;
            write = v.write;
            not_last = v.not_last;
            local = local;
            no_error = v.no_error;
            limit = v.limit;
          };
          next_stage = refl;
          counted = refl;
          same_opt = refl;
          clock = refl;
          run =
              rounds_two env i j (k ∷ rest) l
                (in_state env i l State.data_rx v.state ∙ timed_out i l v.state quiet v.limit late)
                (retransmit_granted env j _ refl c v.write)
              ∙ ap (prefixed []) (rounds_one env k rest asked_again e)
              ∙ prefixed-prefixed [] ((0 ∷ 4 ∷ word (l.session.stage % 2 ^ 16)) ∷ []) _;
        },
      )

-- A session that used its retransmits up ends in the three rounds after the timeout.
used_up :
    (env : Env) (i j k : Input) (rest : List Input) (l : Loop)
    → IsWaiting l
    → env.retransmit_count < (l.retr_count + 1) % 2 ^ 16
    → i.rx ≡ again
    → l.oper_time + timeout l.session.opt < i.now
    → (l' : Loop) × (rounds env (i ∷ j ∷ k ∷ rest) l ≡ ok (l', []))
      × (l'.session.stat ≡ State.finish)
unfolding was_error step_in
used_up env i j k rest l v c quiet late =
    let l1 : Loop = record l { session = record l.session { stat = State.retransmit } } in
    let l2 = resent env (record j { now = l1.oper_time }) l1 State.error_and_stop in
    let l3 : Loop = record l2 { session = record l.session { stat = State.finish } } in
    (
      l3,
      rounds_two env i j (k ∷ rest) l
            (in_state env i l State.data_rx v.state ∙ timed_out i l v.state quiet v.limit late)
            (stopped env j l1 refl c)
          ∙ prefixed-ok [] [] _ (
              rounds_one env k rest l2 (ended l2 refl v.no_error)
              ∙ prefixed-ok [] [] _ (finish_stays env rest l3 refl)),
      refl,
    )

poll :
    (i : Input) (l : Loop)
    → l.session.stat ≡ State.data_rx
    → i.rx ≡ again
    → timeout l.session.opt < int_max
    → i.now ≤ l.oper_time + timeout l.session.opt
    → on_data_rx i l ≡ ok (l, [])
unfolding on_data_rx receive_no_wait
poll i l h e t n = ground (arith, e)

polled :
    (env : Env) (is rest : List Input) (l : Loop)
    → IsWaiting l
    → IsPolled (timeout l.session.opt) l.oper_time is
    → rounds env (is ++ rest) l ≡ rounds env rest l
unfolding step_in
polled env [] rest l v s = refl
polled env (i ∷ is) rest l v s =
    rounds_one env i (is ++ rest) l
      (in_state env i l State.data_rx v.state ∙ poll i l v.state s.0 v.limit s.1)
    ∙ prefixed-nil (rounds env (is ++ rest) l)
    ∙ polled env is rest l v s.2

IsSilent-from :
    (l l' : Loop) (k : Input) (ts : List Turn)
    → l'.session.opt ≡ l.session.opt
    → l'.oper_time ≡ k.now
    → IsSilent (timeout l.session.opt) k.now ts
    → IsSilent (timeout l'.session.opt) l'.oper_time ts
IsSilent-from l l' k ts o c s = rw o (rw c s)

-- One turn in front of others.
acknowledged :
    (env : Env) (t : Turn) (ts : List Turn) (l l1 l' : Loop) (n : ℕ)
    → IsWaiting l
    → IsPolled (timeout l.session.opt) l.oper_time t.polls
    → (m : Round)
    → rounds env (t.late ∷ t.retry ∷ t.ackn ∷ inputs ts) l
      ≡ prefixed ((0 ∷ 4 ∷ word (l.session.stage % 2 ^ 16)) ∷ []) m
    → l1.session.stage ≡ l.session.stage + 1
    → m ≡ ok (l', ack_packets l1.session.stage n)
    → rounds env (inputs (t ∷ ts)) l ≡ ok (l', ack_packets l.session.stage (suc n))
acknowledged env t ts l l1 l' n v s m run next e =
    polled env t.polls (t.late ∷ t.retry ∷ t.ackn ∷ inputs ts) l v s
    ∙ run
    ∙ prefixed-ok ((0 ∷ 4 ∷ word (l.session.stage % 2 ^ 16)) ∷ []) _ m e
    ∙ ap (λ (x : ℕ). ok (l', (0 ∷ 4 ∷ word (l.session.stage % 2 ^ 16)) ∷ ack_packets x n))
        (next ∙ omega arith)

silence_of :
    (n : ℕ) (env : Env) (ts : List Turn) (l : Loop)
    → IsWaiting l
    → env.retransmit_count < 2 ^ 16 - 1
    → l.retr_count + n ≡ env.retransmit_count
    → IsSilent (timeout l.session.opt) l.oper_time ts
    → n < length ts
    → (l' : Loop) × (rounds env (inputs ts) l ≡ ok (l', ack_packets l.session.stage n))
      × (l'.session.stat ≡ State.finish)
silence_of n env [] l v r c s h = absurd (omega arith)
silence_of zero env (t ∷ ts) l v r c s h =
    let (l', e, done) = used_up env t.late t.retry t.ackn (inputs ts) l v (omega arith) s.1 s.2 in
    (l', polled env t.polls (t.late ∷ t.retry ∷ t.ackn ∷ inputs ts) l v s.0 ∙ e, done)
silence_of (suc n) env (t ∷ ts) l v r c s h =
    let (l1, y) = cycle env t.late t.retry t.ackn (inputs ts) l v (omega arith) s.1 s.2 in
    let (l', e, done) =
      silence_of n env ts l1 y.waits r (omega (arith, y.counted))
        (IsSilent-from l l1 t.ackn ts y.same_opt y.clock s.3) (omega arith) in
    (
      l',
      acknowledged env t ts l l1 l' n v s.0 (rounds env (inputs ts) l1) y.run y.next_stage e,
      done,
    )

-- A client that falls silent in a write request does not keep the session: whatever the times at which
-- its rounds look at the socket, the session finishes once the timeout has passed once more than it
-- has retransmits left, if the setting is below the largest `uint16_t`. On the way it acknowledges
-- as many blocks as it had retransmits left, none of which it received.
pub silence_ends :
    (env : Env) (ts : List Turn) (l : Loop)
    → IsWaiting l
    → env.retransmit_count < 2 ^ 16 - 1
    → l.retr_count ≤ env.retransmit_count
    → IsSilent (timeout l.session.opt) l.oper_time ts
    → env.retransmit_count - l.retr_count < length ts
    → (l' : Loop) × (rounds env (inputs ts) l
        ≡ ok (l', ack_packets l.session.stage (env.retransmit_count - l.retr_count)))
      × (l'.session.stat ≡ State.finish)
silence_ends env ts l v r c =
    silence_of (env.retransmit_count - l.retr_count) env ts l v r (omega arith)

wrapped_limit : (retr_count : ℕ) → (retr_count + 1) % 2 ^ 16 ≤ 2 ^ 16 - 1
wrapped_limit retr_count = omega arith

-- With the largest `uint16_t` as its setting the count never exceeds it, since it wraps: however often
-- the timeout passes, the session goes on to wait, and acknowledges a block each time.
pub silence_endless :
    (env : Env) (ts : List Turn) (l : Loop)
    → IsWaiting l
    → env.retransmit_count ≡ 2 ^ 16 - 1
    → IsSilent (timeout l.session.opt) l.oper_time ts
    → (l' : Loop) × (rounds env (inputs ts) l ≡ ok (l', ack_packets l.session.stage (length ts)))
      × IsWaiting l'
unfolding rounds
silence_endless env [] l v r s = (l, refl, v)
silence_endless env (t ∷ ts) l v r s =
    let (l1, y) =
      cycle env t.late t.retry t.ackn (inputs ts) l v (omega (arith, wrapped_limit l.retr_count))
        s.1 s.2 in
    let (l', e, w) =
      silence_endless env ts l1 y.waits r (IsSilent-from l l1 t.ackn ts y.same_opt y.clock s.3) in
    (
      l',
      acknowledged env t ts l l1 l' (length ts) v s.0 (rounds env (inputs ts) l1) y.run y.next_stage
          e,
      w,
    )
