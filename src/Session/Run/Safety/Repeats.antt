-- ===== src/Session/Run/Safety/Repeats.antt =====
-- source/tftpSession.cpp: the block that a silent client is sent again and again.
use server_fw.Prelude.{
  ℕ, zero, suc, ◌+◌, ◌*◌, ◌<◌, ◌≤◌, ◌≡◌, inl, refl, ap, ◌∙◌, arith, false, some, List, [], ◌∷◌,
  ◌++◌, length, ok, slice, replicate,
}
use server_fw.Prelude.Text.{Bytes}
use server_fw.Common.{State}
use server_fw.Options.{}
use server_fw.SmBufEx.{SmBufEx}
use server_fw.DataMgr.File.{DataMgrFile}
use server_fw.DataMgr.File.Opening.{}
use server_fw.Session.{was_error, block_size}
use server_fw.Session.Receive.{again}
use server_fw.Session.Run.Receiving.Silence.{IsPolled}
use server_fw.Session.Run.{Env, Input, Loop, step_in, rounds}
use server_fw.Session.Run.Exchange.{single_window}
use server_fw.Session.Run.Receiving.{ended}
use server_fw.Session.Run.Sending.{IsSending, Built, data_bytes, after_send, data_tx_round}
use server_fw.Session.Run.Steps.{
  in_state, rounds_one, rounds_two, prefixed, prefixed-ok, prefixed-nil, finish_stays,
}
use server_fw.Session.Run.Transfer.{block_sent}
use server_fw.Session.Run.Safety.Late.{
  Attempt, inputs, AreUnanswered, IsTimed, IsAwaiting, timed_out, resending, giving_up, retry_more,
  retry_last,
}
use server_fw.Session.Run.Safety.Silence.{waits-run}

-- The session that sent a block of the file.
abbrev offered : Input → Loop → DataMgrFile → SmBufEx → Loop
offered i l m b = after_send i l (record l.session { file_man = some m }) b

offered-IsAwaiting :
    (env : Env) (wait : ℕ) (i : Input) (l : Loop) (m : DataMgrFile) (j : ℕ) (v : IsSending l m j)
    (inside : j * block_size l.session ≤ length m.file_in.content) (m' : DataMgrFile) (b : SmBufEx)
    → Built i l m j v inside m' b
    → IsTimed env wait l
    → IsAwaiting env wait i.now l.retr_count (offered i l m' b)
offered-IsAwaiting env wait i l m j v inside m' b r w = record {
  state = refl;
  timed = record {
    reader = record {
      m = m';
      file = refl;
      kind = r.reading'.kind;
      local = r.local';
      roomy = w.reader.roomy;
      asked = w.reader.asked;
      limit = w.reader.limit;
      told = record { text = w.reader.told.text; brief = w.reader.told.brief };
    };
    window = w.window;
    waits = w.waits;
    counted = w.counted;
    limit = w.limit;
  };
  clock = refl;
  same_count = refl;
}

-- Once more the block of the same stage.
again-IsSending :
    (env : Env) (i k : Input) (l : Loop) (m : DataMgrFile) (j : ℕ) (v : IsSending l m j)
    (inside : j * block_size l.session ≤ length m.file_in.content) (m' : DataMgrFile) (b : SmBufEx)
    → Built i l m j v inside m' b
    → j * block_size l.session + block_size l.session ≤ length m.file_in.content
    → IsSending (resending env k (offered i l m' b)) m' j
unfolding was_error
again-IsSending env i k l m j v inside m' b r full = record {
  state = refl;
  file = refl;
  reading = r.reading';
  good = r.good' (inl full);
  local = r.local';
  no_error = v.no_error;
  stage_is = v.stage_is;
  roomy = v.roomy;
  nonzero = v.nonzero;
}

-- A session with no retransmit left finishes in silence.
gives_up :
    (env : Env) (wait : ℕ) (k e : Input) (rest : List Input) (l : Loop)
    → IsTimed env wait l
    → l.retr_count ≡ env.retransmit_count
    → was_error l.session ≡ false
    → (l' : Loop) × (rounds env (k ∷ e ∷ rest) (timed_out l) ≡ ok (l', []))
      × (l'.session.stat ≡ State.finish)
unfolding was_error step_in
gives_up env wait k e rest l v over clean =
    let l1 = giving_up env k l in
    let l2 : Loop = record l1 { session = record l1.session { stat = State.finish } } in
    (
      l2,
      rounds_two env k e rest (timed_out l) (retry_last env wait k l v over).0
            (in_state env e l1 State.error_and_stop refl ∙ ended l1 refl clean)
          ∙ prefixed-ok [] [] _ (finish_stays env rest l2 refl),
      refl,
    )

-- One attempt, up to the round behind its timeout.
attempt :
    (env : Env) (wait : ℕ) (t : Attempt) (is : List Input) (content : Bytes) (size : ℕ) (l : Loop)
    (m : DataMgrFile) (j : ℕ)
    → m.file_in.content ≡ content
    → block_size l.session ≡ size
    → (v : IsSending l m j) → IsTimed env wait l
    → (inside : j * block_size l.session ≤ length m.file_in.content)
    → IsPolled wait t.send.now t.polls
    → t.late.rx ≡ again
    → t.send.now + wait < t.late.now
    → (m' : DataMgrFile) × (b : SmBufEx) × Built t.send l m j v inside m' b
      × (rounds env (t.send ∷ (t.polls ++ t.late ∷ t.retry ∷ is)) l
          ≡ prefixed
              (data_bytes (suc j) (slice content (j * size) size) ∷ [])
              (rounds env (t.retry ∷ is) (timed_out (offered t.send l m' b))))
unfolding step_in
attempt env wait t is content size l m j c z v w inside p quiet later =
    let (m', b, r, q) =
      (data_tx_round t.send l m j v inside).0 (single_window l.session w.window) in
    let l1 = offered t.send l m' b in
    (
      m',
      b,
      r,
      rounds_one env t.send (t.polls ++ t.late ∷ t.retry ∷ is) l
            (in_state env t.send l State.data_tx v.state ∙ q)
          ∙ ap (λ (x : Bytes). prefixed (x ∷ []) (rounds env (t.polls ++ t.late ∷ t.retry ∷ is) l1))
              (block_sent t.send l m j v inside c z)
          ∙ ap (prefixed (data_bytes (suc j) (slice content (j * size) size) ∷ [])) (
              waits-run env wait l.retr_count t is l1
                (offered-IsAwaiting env wait t.send l m j v inside m' b r w) p quiet later),
    )

-- Each attempt sends the same block.
pub repeats_of :
    (n : ℕ) (env : Env) (wait : ℕ) (ts : List Attempt) (e : Input) (rest : List Input)
    (content : Bytes) (size : ℕ) (l : Loop) (m : DataMgrFile) (j : ℕ)
    → m.file_in.content ≡ content
    → block_size l.session ≡ size
    → IsSending l m j
    → IsTimed env wait l
    → j * size + size ≤ length content
    → l.retr_count + n ≡ env.retransmit_count
    → AreUnanswered wait ts
    → length ts ≡ suc n
    → (l' : Loop) × (rounds env (inputs ts (e ∷ rest)) l
        ≡ ok (l', replicate (suc n) (data_bytes (suc j) (slice content (j * size) size))))
      × (l'.session.stat ≡ State.finish)
unfolding was_error
repeats_of n env wait [] e rest content size l m j c z v w full count s k = absurd (omega arith)
repeats_of zero env wait (t ∷ (u ∷ ts)) e rest content size l m j c z v w full count s k =
    absurd (omega arith)
repeats_of (suc n) env wait (t ∷ []) e rest content size l m j c z v w full count s k =
    absurd (omega arith)
repeats_of zero env wait (t ∷ []) e rest content size l m j c z v w full count (p, quiet, later, _)
      k =
    let inside : j * block_size l.session ≤ length m.file_in.content =
      omega (arith, full, ap length c, ap (◌*◌ j) z) in
    let (m', b, r, run) =
      attempt env wait t (e ∷ rest) content size l m j c z v w inside p quiet later in
    let a = offered-IsAwaiting env wait t.send l m j v inside m' b r w in
    let (l', over, done) =
      gives_up env wait t.retry e rest (offered t.send l m' b) a.timed (omega (arith, count))
        v.no_error in
    (
      l',
      run ∙ prefixed-ok (data_bytes (suc j) (slice content (j * size) size) ∷ []) [] _ over,
      done,
    )
repeats_of (suc n) env wait (t ∷ (u ∷ ts)) e rest content size l m j c z v w full count
      (p, quiet, later, more) k =
    let product : j * block_size l.session ≡ j * size = ap (◌*◌ j) z in
    let inside : j * block_size l.session ≤ length m.file_in.content =
      omega (arith, full, ap length c, product) in
    let whole : j * block_size l.session + block_size l.session ≤ length m.file_in.content =
      omega (arith, full, ap length c, product, z) in
    let left = inputs (u ∷ ts) (e ∷ rest) in
    let block = data_bytes (suc j) (slice content (j * size) size) in
    let (m', b, r, run) = attempt env wait t left content size l m j c z v w inside p quiet later in
    let l1 = offered t.send l m' b in
    let a = offered-IsAwaiting env wait t.send l m j v inside m' b r w in
    let (resends, timed, counts) = retry_more env wait t.retry l1 a.timed (omega (arith, count)) in
    let (l', later_run, done) =
      repeats_of n env wait (u ∷ ts) e rest content size (resending env t.retry l1) m' j
        (r.same_file ∙ c) z (again-IsSending env t.send t.retry l m j v inside m' b r whole) timed
        full (omega (arith, counts, count)) more (omega (arith, k)) in
    (
      l',
      run
          ∙ ap (prefixed (block ∷ [])) (
              rounds_one env t.retry left (timed_out l1) resends
              ∙ prefixed-nil (rounds env left (resending env t.retry l1)))
          ∙ prefixed-ok (block ∷ []) (replicate (suc n) block) _ later_run,
      done,
    )
