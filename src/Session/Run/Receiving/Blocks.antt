-- ===== src/Session/Run/Receiving/Blocks.antt =====
-- source/tftpSession.cpp: a block of a write request that is stored, and what the session does next.
use server_fw.Prelude.{
  ℕ, suc, ◌+◌, ◌*◌, ◌%◌, ◌^◌, ◌<◌, ◌≤◌, ◌≡◌, refl, sym, ap, ◌∙◌, arith, true, false, not, List, [],
  ◌∷◌, ◌++◌, length, length-append, ◌==◌, ltb, if◌then◌else◌, ok, some,
}
use server_fw.Prelude.Text.{Bytes}
use server_fw.Common.{State}
use server_fw.Addr.{Addr, same_addr}
use server_fw.Options.{Options, blksize}
use server_fw.Options
use server_fw.SmBufEx.{SmBufEx}
use server_fw.DataMgr.File.{DataMgrFile}
use server_fw.DataMgr.File.Blocks.{IsWriting}
use server_fw.Session.{switch_to, was_error, block_size}
use server_fw.Session.Packets.Layout.{IsLocal, word, construct_ack-Holds}
use server_fw.Session.Run.{Env, Input, Loop, on_ack_tx, step_in, rounds}
use server_fw.Session.Run.Steps.{prefixed, in_state, rounds_one, rounds_two}
use server_fw.Session.Run.Receiving.{acked, ack_sent}
use server_fw.Session.Run.Receiving.Upload.{
  data_packet, IsReceiving, kept, passed, closes, window_test, after_rx-kept, after_rx-passed,
  received,
}

-- The session after the last acknowledgement.
abbrev pub completed : Loop → SmBufEx → Loop
completed l b = record l {
  session = record l.session { stat = State.finish; stage = l.session.stage + 1 };
  local_buf = b;
}

pub last_ack_sent :
    (i : Input) (l : Loop)
    → IsLocal l.local_buf
    → l.session.stat ≡ State.ack_tx
    → l.last_blk_processed ≡ true
    → (b : SmBufEx) × IsLocal b
      × (on_ack_tx i l ≡ ok (completed l b, (0 ∷ 4 ∷ word (l.session.stage % 2 ^ 16)) ∷ []))
unfolding on_ack_tx switch_to
last_ack_sent i l v h n =
    let (b, e, p) = construct_ack-Holds l.session l.local_buf v in
    (b, p.local, ground (arith, e, p.counted, p.held))

pub size_test :
    (x y : ℕ) → (x ≡ y → not (x + 4 == y + 4) ≡ false) × (x < y → not (x + 4 == y + 4) ≡ true)
size_test x y = ground arith

abbrev pub block_of : Options → ℕ
block_of o = blksize o % 2 ^ 16

abbrev pub window_of : Options → ℕ
window_of o = if ltb (Options.windowsize o) 1 then 1 else Options.windowsize o

next_size : (j size : ℕ) → suc j * size ≡ j * size + size
next_size j size = grind arith

-- A block that closes its window and its acknowledgement, in the two rounds after which the next is
-- awaited, or which are the last.
module _ (env : Env) (i k : Input) (rest : List Input) (l : Loop) (m : DataMgrFile) (j w : ℕ)
    (a : Addr) (block : Bytes) (v : IsReceiving a w l m j)
    (short : length block ≤ block_size l.session)
    (room : j * block_size l.session + block_size l.session < 2 ^ 63)
    (rx : i.rx ≡ data_packet a l.session.stage block) (accepts : i.accepts ≡ true) where
  -- What a stored block leaves in any case.
  pub record After (l' : Loop) (m' : DataMgrFile) : Type 0 where
    pub writing : IsWriting m'
    pub file : l'.session.file_man ≡ some m'
    pub local : IsLocal l'.local_buf
    pub same_name : m'.filename ≡ m.filename
    pub appended : m'.file_out.content ≡ m.file_out.content ++ block
    pub same_opt : l'.session.opt ≡ l.session.opt
    pub same_client : l'.session.cl_addr ≡ l.session.cl_addr
    pub same_count : l'.retr_count ≡ l.retr_count
    pub same_error : was_error l'.session ≡ was_error l.session
    pub next_stage : l'.session.stage ≡ suc (suc j)

  grown :
      (m' : DataMgrFile)
      → m'.file_out.content ≡ m.file_out.content ++ block
      → length block ≡ block_size l.session
      → length m'.file_out.content ≡ suc j * block_size l.session
  grown m' appended full =
      ap length appended
      ∙ omega (
        arith,
        length-append m.file_out.content block,
        v.whole,
        full,
        next_size j (block_size l.session),
      )

  -- A full block leaves a session that awaits the next.
  pub full-IsReceiving :
      (l' : Loop) (m' : DataMgrFile)
      → After l' m'
      → l'.session.stat ≡ State.data_rx
      → length block ≡ block_size l.session
      → IsReceiving a w l' m' (suc j)
  full-IsReceiving l' m' r h full =
      let sized : block_size l'.session ≡ block_size l.session = ap block_of r.same_opt in
      record {
        state = h;
        file = r.file;
        writing = r.writing;
        local = r.local;
        stage_is = r.next_stage;
        roomy = omega (arith, sized, v.roomy);
        nonzero = omega (arith, sized, v.nonzero);
        whole = grown m' r.appended full ∙ ap (◌*◌ (suc j)) (sym sized);
        window = ap window_of r.same_opt ∙ v.window;
        client = ap (same_addr a) r.same_client ∙ v.client;
      }

  abbrev pub ack_of_stage : Bytes
  ack_of_stage = 0 ∷ 4 ∷ word (l.session.stage % 2 ^ 16)

  pub full_block :
      closes w (suc j) ≡ true
      → length block ≡ block_size l.session
      → (l' : Loop) × (m' : DataMgrFile) × After l' m'
        × (l'.session.stat ≡ State.data_rx)
        × (rounds env (i ∷ k ∷ rest) l ≡ prefixed (ack_of_stage ∷ []) (rounds env rest l'))
  unfolding step_in was_error
  full_block shuts full =
      let (m', b, r) = received i l m j w a block v short room rx accepts in
      let (c, local, e) =
        ack_sent k (kept l m' b block) r.local' refl
          ((size_test (length block) (block_size l.session)).0 full) in
      (
        acked k (kept l m' b block) c,
        m',
        record {
          writing = r.writing';
          file = refl;
          local = local;
          same_name = r.same_name;
          appended = r.appended;
          same_opt = refl;
          same_client = refl;
          same_count = refl;
          same_error = refl;
          next_stage = omega (arith, v.stage_is);
        },
        refl,
        rounds_two env i k rest l
            (in_state env i l State.data_rx v.state
              ∙ r.round
              ∙ ap (λ (x : Loop). ok (x, []))
                  (after_rx-kept i l m' b block v.state
                    (window_test l.session w (suc j) v.window v.stage_is ∙ shuts) r.counted))
            e,
      )

  pub last_block :
      closes w (suc j) ≡ true
      → length block < block_size l.session
      → (l' : Loop) × (m' : DataMgrFile) × After l' m'
        × (l'.session.stat ≡ State.finish)
        × (l'.last_blk_processed ≡ true)
        × (rounds env (i ∷ k ∷ rest) l ≡ prefixed (ack_of_stage ∷ []) (rounds env rest l'))
  unfolding step_in was_error
  last_block shuts less =
      let (m', b, r) = received i l m j w a block v short room rx accepts in
      let last = (size_test (length block) (block_size l.session)).1 less in
      let (c, local, e) = last_ack_sent k (kept l m' b block) r.local' refl last in
      (
        completed (kept l m' b block) c,
        m',
        record {
          writing = r.writing';
          file = refl;
          local = local;
          same_name = r.same_name;
          appended = r.appended;
          same_opt = refl;
          same_client = refl;
          same_count = refl;
          same_error = refl;
          next_stage = omega (arith, v.stage_is);
        },
        refl,
        last,
        rounds_two env i k rest l
            (in_state env i l State.data_rx v.state
              ∙ r.round
              ∙ ap (λ (x : Loop). ok (x, []))
                  (after_rx-kept i l m' b block v.state
                    (window_test l.session w (suc j) v.window v.stage_is ∙ shuts) r.counted))
            e,
      )

  -- A block within its window takes one round, and nothing is sent.
  pub inner_block :
      closes w (suc j) ≡ false
      → (l' : Loop) × (m' : DataMgrFile) × After l' m'
        × (l'.session.stat ≡ State.data_rx)
        × (l'.last_blk_processed ≡ not (length block + 4 == block_size l.session + 4))
        × (l'.oper_time ≡ i.now)
        × (rounds env (i ∷ rest) l ≡ prefixed [] (rounds env rest l'))
  unfolding step_in was_error
  inner_block goes_on =
      let (m', b, r) = received i l m j w a block v short room rx accepts in
      (
        passed i l m' b block,
        m',
        record {
          writing = r.writing';
          file = refl;
          local = r.local';
          same_name = r.same_name;
          appended = r.appended;
          same_opt = refl;
          same_client = refl;
          same_count = refl;
          same_error = refl;
          next_stage = omega (arith, v.stage_is);
        },
        v.state,
        refl,
        refl,
        rounds_one env i rest l (
            in_state env i l State.data_rx v.state
            ∙ r.round
            ∙ ap (λ (x : Loop). ok (x, []))
                (after_rx-passed i l m' b block
                  (window_test l.session w (suc j) v.window v.stage_is ∙ goes_on) r.counted)),
      )
