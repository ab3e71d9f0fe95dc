-- ===== src/Session/Run/Safety/Silence.antt =====
-- source/tftpSession.cpp: a client that is silent in a read request.
use server_fw.Prelude.{
  ℕ, zero, suc, ◌+◌, ◌<◌, ◌≡◌, inl, inr, refl, sym, ◌∙◌, arith, subst, List, [], ◌∷◌, ◌++◌, length,
  ok,
}
use server_fw.Prelude.Text.{Bytes}
use server_fw.Common.{State}
use server_fw.Session.Receive.{again}
use server_fw.Session.Run.{Env, Input, Loop, step, rounds}
use server_fw.Session.Run.Steps.{rounds_one, prefixed-ok, prefixed-nil, finish_stays}
use server_fw.Session.Run.Safety.{IsStopping}
use server_fw.Session.Run.Safety.Ways.{stop_ways, error_packet}
use server_fw.Session.Run.Receiving.Silence.{IsPolled}
use server_fw.Session.Run.Safety.Late.{
  Attempt, inputs, AreUnanswered, IsTimed, IsAwaiting, sends_ways, polled, timed_out, waits_late,
  resending, retry_more, retry_last,
}

-- A run that ends the session.
abbrev pub Ends : Env → List Input → Loop → Type 0
Ends env is l =
    (l' : Loop) × (p : List Bytes) × (rounds env is l ≡ ok (l', p))
    × (l'.session.stat ≡ State.finish)

pub then-Ends :
    (env : Env) (i : Input) (is : List Input) (l l1 : Loop) (p : List Bytes)
    → step env i l ≡ ok (l1, p)
    → Ends env is l1
    → Ends env (i ∷ is) l
then-Ends env i is l l1 p e (l2, q, f, done) =
    (l2, p ++ q, rounds_one env i is l e ∙ prefixed-ok p q (rounds env is l1) f, done)

stopping-Ends :
    (env : Env) (before : List Input) (i : Input) (after : List Input) (l : Loop)
    → IsStopping l
    → Ends env (before ++ i ∷ after) l
stopping-Ends env [] i after l v =
    let (l', done, ways) = stop_ways env i l v in
    let rest : Ends env after l' = (l', [], finish_stays env after l' done, done) in
    elim ways [
      | inl e ↦ then-Ends env i after l l' [] e rest
      | inr e ↦ then-Ends env i after l l' (error_packet l.session ∷ []) e rest
    ]
stopping-Ends env (k ∷ before) i after l v =
    let (l', done, ways) = stop_ways env k l v in
    let rest : Ends env (before ++ i ∷ after) l' =
      (l', [], finish_stays env (before ++ i ∷ after) l' done, done) in
    elim ways [
      | inl e ↦ then-Ends env k (before ++ i ∷ after) l l' [] e rest
      | inr e ↦ then-Ends env k (before ++ i ∷ after) l l' (error_packet l.session ∷ []) e rest
    ]

-- The rounds after the one that sent, in which the timeout passes: nothing is sent.
pub waits-run :
    (env : Env) (wait count : ℕ) (t : Attempt) (is : List Input) (l : Loop)
    → IsAwaiting env wait t.send.now count l
    → IsPolled wait t.send.now t.polls
    → t.late.rx ≡ again
    → t.send.now + wait < t.late.now
    → rounds env (t.polls ++ t.late ∷ t.retry ∷ is) l ≡ rounds env (t.retry ∷ is) (timed_out l)
waits-run env wait count t is l v p quiet later =
    polled env wait t.polls (t.late ∷ t.retry ∷ is) l v.state v.timed
      (subst (λ (x : ℕ). IsPolled wait x t.polls) (sym v.clock) p)
    ∙ rounds_one env t.late (t.retry ∷ is) l
        (waits_late env wait t.late l v.state v.timed quiet (omega (arith, later, v.clock)))
    ∙ prefixed-nil (rounds env (t.retry ∷ is) (timed_out l))

waits-Ends :
    (env : Env) (wait count : ℕ) (t : Attempt) (is : List Input) (l : Loop)
    → IsAwaiting env wait t.send.now count l
    → IsPolled wait t.send.now t.polls
    → t.late.rx ≡ again
    → t.send.now + wait < t.late.now
    → Ends env (t.retry ∷ is) (timed_out l)
    → Ends env (t.polls ++ t.late ∷ t.retry ∷ is) l
waits-Ends env wait count t is l v p quiet later (l', q, e, done) =
    (l', q, waits-run env wait count t is l v p quiet later ∙ e, done)

-- From any state, and whatever the stream of the file gives.
pub silence_of :
    (n : ℕ) (env : Env) (wait : ℕ) (ts : List Attempt) (e : Input) (rest : List Input) (l : Loop)
    → l.session.stat ≡ State.data_tx
    → IsTimed env wait l
    → l.retr_count + n ≡ env.retransmit_count
    → AreUnanswered wait ts
    → length ts ≡ suc n
    → Ends env (inputs ts (e ∷ rest)) l
silence_of n env wait [] e rest l h v c s k = absurd (omega arith)
silence_of zero env wait (t ∷ (u ∷ ts)) e rest l h v c s k = absurd (omega arith)
silence_of (suc n) env wait (t ∷ []) e rest l h v c s k = absurd (omega arith)
silence_of zero env wait (t ∷ []) e rest l h v c (p, quiet, later, _) k =
    let (l1, q, sends, ways) = sends_ways env wait t.send l h v in
    then-Ends env t.send (t.polls ++ t.late ∷ t.retry ∷ e ∷ rest) l l1 q sends (elim ways [
      | inr stop ↦ stopping-Ends env t.polls t.late (t.retry ∷ e ∷ rest) l1 stop
      | inl w ↦
          let (gives_up, stop) =
            retry_last env wait t.retry l1 w.timed (omega (arith, c, w.same_count)) in
          waits-Ends env wait l.retr_count t (e ∷ rest) l1 w p quiet later (
            then-Ends env t.retry (e ∷ rest) (timed_out l1) _ [] gives_up
              (stopping-Ends env [] e rest _ stop))
    ])
silence_of (suc n) env wait (t ∷ (u ∷ ts)) e rest l h v c (p, quiet, later, more) k =
    let (l1, q, sends, ways) = sends_ways env wait t.send l h v in
    let left = inputs (u ∷ ts) (e ∷ rest) in
    then-Ends env t.send (t.polls ++ t.late ∷ t.retry ∷ left) l l1 q sends (elim ways [
      | inr stop ↦ stopping-Ends env t.polls t.late (t.retry ∷ left) l1 stop
      | inl w ↦
          let (resends, timed, counts) =
            retry_more env wait t.retry l1 w.timed (omega (arith, c, w.same_count)) in
          waits-Ends env wait l.retr_count t left l1 w p quiet later (
            then-Ends env t.retry left (timed_out l1) (resending env t.retry l1) [] resends (
              silence_of n env wait (u ∷ ts) e rest (resending env t.retry l1) refl timed
                (omega (arith, counts, w.same_count, c)) more (omega (arith, k))))
    ])
