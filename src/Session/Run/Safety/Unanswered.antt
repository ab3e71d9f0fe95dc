-- ===== src/Session/Run/Safety/Unanswered.antt =====
-- source/tftpSession.cpp: whole runs of a read request whose client is silent from the start.
use server_fw.Prelude.{
  ℕ, suc, ◌+◌, ◌*◌, ◌^◌, ◌<◌, ◌≤◌, ◌≡◌, ◌⊎◌, inl, inr, refl, ap, ◌∙◌, arith, false, some, none,
  List, [], ◌∷◌, length, ok, slice, take, replicate,
}
use server_fw.Prelude.Text.{Bytes}
use server_fw.Common.{SrvReq, State}
use server_fw.Common.Strings.{int_max}
use server_fw.Options.{timeout, was_set_any}
use server_fw.Settings.{Settings}
use server_fw.DataMgr.File.{DataMgrFile}
use server_fw.DataMgr.File.Search.{Files}
use server_fw.DataMgr.File.Opening.{find_file, init_of_read}
use server_fw.Session.{Session, was_error, block_size, windowsize}
use server_fw.Session.Run.Receiving.Silence.{}
use server_fw.Session.Run.{Env, Input, Loop, start, step_in, rounds}
use server_fw.Session.Run.Receiving.{}
use server_fw.Session.Run.Sending.{IsSending, data_bytes, sent}
use server_fw.Session.Run.Service.{file_env, prepared, ready, no_options, ready-IsSending, nothing}
use server_fw.Session.Run.Steps.{rounds_two, prefixed-ok}
use server_fw.Session.Run.Safety.Late.{Attempt, inputs, AreUnanswered, IsTimed}
use server_fw.Session.Run.Safety.Reads.{ready-IsReader}
use server_fw.Session.Run.Safety.Silence.{silence_of}
use server_fw.Session.Run.Safety.Repeats.{repeats_of}

ready-IsTimed :
    (env : Env) (k : Input) (s : Session) (m : DataMgrFile)
    → m.request_type ≡ SrvReq.read
    → was_error s ≡ false
    → block_size s ≤ 65531
    → s.opt.request_type ≡ SrvReq.read
    → windowsize s ≡ 1
    → timeout s.opt < int_max
    → env.retransmit_count < 65535
    → IsTimed env (timeout s.opt) (ready k s m)
ready-IsTimed env k s m q e b r v t few = record {
  reader = ready-IsReader k s m q e b r t;
  window = v;
  waits = refl;
  counted = omega arith;
  limit = few;
}

-- The silence after the two rounds of preparation.
silent_from :
    (env : Env) (k : Input) (ts : List Attempt) (e : Input) (rest : List Input) (s : Session)
    (m : DataMgrFile) (content : Bytes)
    → m.file_in.content ≡ content
    → IsSending (ready k s m) m 0
    → IsTimed env (timeout s.opt) (ready k s m)
    → AreUnanswered (timeout s.opt) ts
    → length ts ≡ suc env.retransmit_count
    → (l : Loop) × (sent : List Bytes) × (rounds env (inputs ts (e ∷ rest)) (ready k s m)
        ≡ ok (l, sent))
      × (l.session.stat ≡ State.finish)
      × ((sent ≡ replicate (suc env.retransmit_count) (data_bytes 1 (take (block_size s) content)))
          ⊎ (length content < block_size s))
silent_from env k ts e rest s m content c v w silent enough =
    let sizes : (0 * block_size s + block_size s ≤ length content)
        ⊎ (length content < block_size s) =
      omega arith in
    elim sizes [
      | inl full ↦
          let (l, run, done) =
            repeats_of env.retransmit_count env (timeout s.opt) ts e rest content (block_size s)
              (ready k s m) m 0 c refl v w full (omega arith) silent enough in
          (
            l,
            _,
            run,
            done,
            inl (
                ap
                  (λ (p : ℕ).
                    replicate (suc env.retransmit_count)
                      (data_bytes 1 (slice content p (block_size s))))
                  (nothing (block_size s))),
          )
      | inr short ↦
          let (l, sent, run, done) =
            silence_of env.retransmit_count env (timeout s.opt) ts e rest (ready k s m) refl w
              (omega arith) silent enough in
          (l, sent, run, done, inr short)
    ]

-- A read request without options, with one block to a window, whose client is silent from the start,
-- ends: the session sends the first block, looks at the socket as often as it may until the timeout
-- has passed, and sends the same block again, once for each retransmit of the setting; in the next
-- round after the last timeout it finishes, whatever comes then, and sends nothing more. If the file
-- is shorter than a block, the session finishes as well, and of its packets nothing is said. The
-- session is new, the sockets work and the file is found and can be opened, its block size fits the
-- buffer, the timeout is below the largest `int`, and the setting for retransmits is below 65535.
pub read_silent :
    (fs : Files) (st : Settings) (i k : Input) (ts : List Attempt) (e : Input) (rest : List Input)
    (s : Session) (file : Bytes)
    → s.stat ≡ State.need_init
    → was_error s ≡ false
    → was_set_any s.opt ≡ false
    → s.opt.request_type ≡ SrvReq.read
    → find_file fs st s.opt.filename ≡ some file
    → fs.open_error file ≡ none
    → length (fs.content file) < 2 ^ 63
    → block_size s ≤ 65531
    → 0 < block_size s
    → windowsize s ≡ 1
    → timeout s.opt < int_max
    → st.retransmit_count < 65535
    → AreUnanswered (timeout s.opt) ts
    → length ts ≡ suc st.retransmit_count
    → (l : Loop) × (sent : List Bytes) × (rounds
          (file_env fs st)
          (i ∷ k ∷ inputs ts (e ∷ rest))
          (start s)
        ≡ ok (l, sent))
      × (l.session.stat ≡ State.finish)
      × ((sent
            ≡ replicate
                (suc st.retransmit_count)
                (data_bytes 1 (take (block_size s) (fs.content file))))
          ⊎ (length (fs.content file) < block_size s))
unfolding step_in
read_silent fs st i k ts e rest s file h clean w r f o n b p v t few silent enough =
    let (got, opens, v0) = init_of_read fs st s.opt file r f o n in
    let m = got.mgr in
    let env = file_env fs st in
    let (l, sent, run, done, packets) =
      silent_from env k ts e rest s m (fs.content file) v0.same
        (ready-IsSending k s m v0.reads v0.good clean b p)
        (ready-IsTimed env k s m v0.reads.kind clean b r v t few) silent enough in
    (
      l,
      sent,
      rounds_two env i k (inputs ts (e ∷ rest)) (start s)
            (ap (λ (x : State). step_in x env i (start s)) h
              ∙ prepared env s got refl refl h clean opens v0.granted v0.silent)
            (no_options k _ refl w r)
          ∙ prefixed-ok [] sent _ run,
      done,
      packets,
    )
