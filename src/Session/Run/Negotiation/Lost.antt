-- ===== src/Session/Run/Negotiation/Lost.antt =====
-- source/tftpSession.cpp: a read request whose reply to the options is not acknowledged in time.
use server_fw.Prelude.{
  ℕ, suc, ◌+◌, ◌-◌, ◌*◌, ◌%◌, ◌^◌, ◌<◌, ◌≤◌, ◌≡◌, refl, sym, ap, ◌∙◌, arith, true, false, [], ◌∷◌,
  length, take, put, zero, some, none, ok, le→leb,
}
use server_fw.Prelude.Text.{Bytes}
use server_fw.Common.{SrvReq, State}
use server_fw.Common.Strings.{int_max}
use server_fw.Options.{was_set_any, timeout}
use server_fw.Settings.{Settings}
use server_fw.SmBuf.{size_mod}
use server_fw.SmBufEx.{SmBufEx, smbuf_ex, clear, int, data_size_reset}
use server_fw.DataMgr.Streams.{tellg, seekg, read_in}
use server_fw.DataMgr.File.{DataMgrFile, read, bytes_left}
use server_fw.DataMgr.File.Blocks.{IsReading, IsGood}
use server_fw.DataMgr.File.Search.{Files}
use server_fw.DataMgr.File.Opening.{find_file, init_of_read}
use server_fw.Session.{Session, switch_to, was_error, block_size, position, is_window_close}
use server_fw.Session.Packets.{pushed, construct_opt_reply, construct_data, take_block}
use server_fw.Session.Packets.Layout.{IsLocal, Holds, smbuf_ex-IsLocal}
use server_fw.Session.Packets.Data.{header}
use server_fw.Session.Packets.Reply.{AreInts}
use server_fw.Session.Receive.{again, receive_no_wait}
use server_fw.Session.Run.{
  Input, Loop, start, step_in, rounds, after_data, on_ack_rx, on_retransmit, Env,
}
use server_fw.Session.Run.Steps.{prefixed-ok, rounds_none, rounds_one, rounds_two}
use server_fw.Session.Run.Service.{file_env, prepared}
use server_fw.Session.Run.Negotiation.{reply_packet, replied, reply_of}
use server_fw.Session.Run.Sending.{after_send, on_data_tx-built}
use server_fw.Session.Run.Receiving.{resent}

bytes_before :
    (file_size n : ℕ)
    → 0 < n
    → n ≤ 65531
    → bytes_left file_size (size_mod - n) ≡ some (file_size + n)
bytes_before file_size n p h = ground arith

stale_read :
    (m : DataMgrFile) (n : ℕ)
    → IsReading m
    → IsGood m.file_in
    → m.file_in.pos ≡ 0
    → 0 < n
    → n ≤ 65531
    → read m n (size_mod - n)
      ≡ ok (record {
        result = some n;
        block = [];
        mgr = record m { file_in = record m.file_in { failbit = true; eofbit = false } };
        report = none;
      })
unfolding read tellg seekg read_in
stale_read m n r g z p h = ground (arith, bytes_before m.file_size n p h)

stage_zero :
    (s : Session)
    → s.stage ≡ 0
    → 0 < block_size s
    → block_size s ≤ 65531
    → position s ≡ size_mod - block_size s
stage_zero s e p h =
    ap (λ (x : ℕ). (x + size_mod - 1) % size_mod * block_size s % size_mod) e
    ∙ wraps (block_size s) p h
  where
    wraps :
        (n : ℕ) → 0 < n → n ≤ 65531 → (0 + size_mod - 1) % size_mod * n % size_mod ≡ size_mod - n
    wraps n p h = omega arith

-- The manager once its stream has failed.
abbrev broken : DataMgrFile → DataMgrFile
broken m = record m { file_in = record m.file_in { failbit = true; eofbit = false } }

-- A DATA packet header over whatever the buffer holds.
abbrev stale : SmBufEx → ℕ → SmBufEx
stale c n = record c { data_size = 4 + n }

put-nil : (xs : Bytes) (n : ℕ) → put xs n [] ≡ xs
put-nil [] n = refl
put-nil (x ∷ xs) zero = refl
put-nil (x ∷ xs) (suc n) = ap (◌∷◌ x) (put-nil xs n)

stale_block :
    (s : Session) (c : SmBufEx) (m : DataMgrFile) (n : ℕ) (head : Bytes)
    → Holds c head
    → length head ≡ 4
    → n ≤ 65531
    → take_block s c (record { result = some n; block = []; mgr = broken m; report = none })
      ≡ ok (record s { file_man = some (broken m) }, stale c n)
unfolding data_size_reset
stale_block s c m n head h four less =
    ground (arith, put-nil c.buf c.data_size, h.counted, h.local.size)

stale_data :
    (s : Session) (m : DataMgrFile) (b : SmBufEx)
    → IsLocal b
    → IsReading m
    → IsGood m.file_in
    → m.file_in.pos ≡ 0
    → s.stage ≡ 0
    → 0 < block_size s
    → block_size s ≤ 65531
    → (c : SmBufEx) × (pushed (clear b) (int 2 3 ∷ int 2 0 ∷ []) ≡ ok c)
      × (construct_data s m b
          ≡ ok (record s { file_man = some (broken m) }, stale c (block_size s)))
unfolding construct_data
stale_data s m b l r g z e p h =
    let (c, pushes, k) = header s b l in
    (
      c,
      ap (λ (x : ℕ). pushed (clear b) (int 2 3 ∷ int 2 (x % 2 ^ 16) ∷ [])) (sym e) ∙ pushes,
      rw pushes (
          rw
            (le→leb (c.data_size + block_size s) (length c.buf)
              (omega (arith, k.counted, k.local.size)))
            (rw
              (ap (read m (block_size s)) (stage_zero s e p h)
                ∙ stale_read m (block_size s) r g z p h)
              (stale_block s c m (block_size s) _ k refl h))),
    )

pub not_acknowledged :
    (i : Input) (l : Loop)
    → l.session.stat ≡ State.ack_rx
    → i.rx ≡ again
    → timeout l.session.opt < int_max
    → l.oper_time + timeout l.session.opt < i.now
    → on_ack_rx i l ≡ ok (record l { session = record l.session { stat = State.retransmit } }, [])
unfolding on_ack_rx receive_no_wait switch_to
not_acknowledged i l h e t n = ground (arith, e)

pub retried :
    (env : Env) (i : Input) (l : Loop)
    → l.session.stat ≡ State.retransmit
    → (l.retr_count + 1) % 2 ^ 16 ≤ env.retransmit_count
    → l.session.opt.request_type ≡ SrvReq.read
    → on_retransmit env i l ≡ ok (resent env i l State.data_tx, [])
unfolding on_retransmit switch_to
retried env i l h n r = ground arith

after_data-stale :
    (i : Input) (l : Loop) (s : Session) (b : SmBufEx)
    → s.stat ≡ State.data_tx
    → was_error s ≡ false
    → s.stage ≡ 0
    → b.data_size ≡ 4 + block_size s
    → after_data i l s b ≡ ok (after_send i l s b, take b.data_size b.buf ∷ [])
unfolding switch_to is_window_close
after_data-stale i l s b h e z n = ground (arith, z)

-- A read request with options whose client is silent after the reply until the timeout has passed: the
-- session does not send the reply again, but a DATA packet of number 0 and of the size of a block,
-- which holds no byte of the file: the header is put over the buffer of the reply, and what stood
-- there follows. The stream of the file has failed from then on. The session is new, on a system whose
-- sockets work and where the file is found and can be opened, the numbers of its options are those of
-- an `int`, its block size fits the buffer, the timeout is below the largest `int`, and the settings
-- grant a retransmit.
pub reply_lost :
    (fs : Files) (st : Settings) (i k late retry resend : Input) (s : Session) (file : Bytes)
    → s.stat ≡ State.need_init
    → was_error s ≡ false
    → was_set_any s.opt ≡ true
    → AreInts s.opt
    → s.opt.request_type ≡ SrvReq.read
    → find_file fs st s.opt.filename ≡ some file
    → fs.open_error file ≡ none
    → length (fs.content file) < 2 ^ 63
    → block_size s ≤ 65531
    → 0 < block_size s
    → 0 < st.retransmit_count
    → late.rx ≡ again
    → timeout s.opt < int_max
    → k.now + timeout s.opt < late.now
    → (b : SmBufEx) × (c : SmBufEx) × (l : Loop) × (m : DataMgrFile) × (construct_opt_reply s.opt
          (smbuf_ex 0xffff true true)
        ≡ ok b)
      × (pushed (clear b) (int 2 3 ∷ int 2 0 ∷ []) ≡ ok c)
      × (rounds (file_env fs st) (i ∷ k ∷ late ∷ retry ∷ resend ∷ []) (start s)
          ≡ ok (l, reply_packet s ∷ take (4 + block_size s) c.buf ∷ []))
      × (l.session.file_man ≡ some m)
      × (m.file_in.failbit ≡ true)
unfolding step_in was_error
reply_lost fs st i k late retry resend s file h e any ints r f o n b p count quiet t after =
    let (got, opens, v0) = init_of_read fs st s.opt file r f o n in
    let m = got.mgr in
    let env = file_env fs st in
    let l0 : Loop = record (start s) {
      session = record s { stat = State.ack_options; stage = 0; file_man = some m };
    } in
    let (buf, local, built, reply) = reply_of k l0 refl smbuf_ex-IsLocal ints any r in
    let l1 = replied k l0 buf in
    let l2 : Loop = record l1 { session = record l1.session { stat = State.retransmit } } in
    let l3 = resent env retry l2 State.data_tx in
    let (c, pushes, stales) =
      stale_data l3.session m buf local v0.reads v0.good v0.at_start refl p b in
    let l4 =
      after_send resend l3 (record l3.session { file_man = some (broken m) })
        (stale c (block_size s)) in
    (
      buf,
      c,
      l4,
      broken m,
      built,
      pushes,
      rounds_two env i k (late ∷ retry ∷ resend ∷ []) (start s)
            (ap (λ (x : State). step_in x env i (start s)) h
              ∙ prepared env s got refl refl h e opens v0.granted v0.silent)
            reply
          ∙ prefixed-ok (reply_packet s ∷ []) (take (4 + block_size s) c.buf ∷ []) _ (
              rounds_two env late retry (resend ∷ []) l1
                (not_acknowledged late l1 refl quiet t after)
                (retried env retry l2 refl (omega (arith, count)) r)
              ∙ prefixed-ok [] (take (4 + block_size s) c.buf ∷ []) _ (
                  rounds_one env resend [] l3 (
                    on_data_tx-built resend l3 m (record l3.session { file_man = some (broken m) })
                      (stale c (block_size s)) refl stales
                    ∙ after_data-stale resend l3 (record l3.session { file_man = some (broken m) })
                        (stale c (block_size s)) refl e refl refl)
                  ∙ prefixed-ok (take (4 + block_size s) c.buf ∷ []) [] _ (rounds_none env l4))),
      refl,
      refl,
    )
