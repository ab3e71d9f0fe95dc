-- ===== src/Session/Run/Sending.antt =====
-- A file that is sent: the rounds of a read request with one block to a window.
use server_fw.Prelude.{
  ℕ, suc, ◌+◌, ◌-◌, ◌*◌, ◌%◌, ◌^◌, ◌<◌, ◌≤◌, ◌≡◌, ◌⊎◌, ap, ◌∙◌, subst, arith, Bool, true, false,
  not, [], ◌∷◌, ◌++◌, length, slice, min, ◌==◌, ok, some,
}
use server_fw.Prelude.Text.{Bytes}
use server_fw.Common.{State}
use server_fw.SmBuf.{size_mod}
use server_fw.SmBufEx.{SmBufEx}
use server_fw.DataMgr.File.{DataMgrFile}
use server_fw.DataMgr.File.Blocks.{IsReading, IsGood}
use server_fw.Session.{Session, switch_to, was_error, block_size, position, is_window_close}
use server_fw.Session.Packets.{construct_data}
use server_fw.Session.Packets.Layout.{IsLocal, Holds, word}
use server_fw.Session.Packets.Data.{construct_data-IsData}
use server_fw.Session.Run.{Input, Loop, on_data_tx, after_data}

-- A session about to send the block of its stage, `suc j`, from the stream of `m`.
pub record IsSending (l : Loop) (m : DataMgrFile) (j : ℕ) : Type 0 where
  pub state : l.session.stat ≡ State.data_tx
  pub file : l.session.file_man ≡ some m
  pub reading : IsReading m
  pub good : IsGood m.file_in
  pub local : IsLocal l.local_buf
  pub no_error : was_error l.session ≡ false
  pub stage_is : l.session.stage ≡ suc j
  pub roomy : block_size l.session ≤ 65531
  pub nonzero : 0 < block_size l.session

-- The position of a stage, where the product does not wrap.
pub position-suc :
    (s : Session) (j : ℕ)
    → s.stage ≡ suc j
    → j < 2 ^ 63
    → j * block_size s < 2 ^ 63
    → position s ≡ j * block_size s
position-suc s j e h k =
    ap (λ (x : ℕ). x * block_size s % size_mod) back ∙ small (j * block_size s) k
  where
    back : (s.stage + size_mod - 1) % size_mod ≡ j
    back = omega (arith, e)

    small : (x : ℕ) → x < 2 ^ 63 → x % size_mod ≡ x
    small x q = omega arith

pub below : (j n : ℕ) → 0 < n → j * n < 2 ^ 63 → j < 2 ^ 63
below j n p h = grind arith

-- The packet of a block.
abbrev pub data_bytes : ℕ → Bytes → Bytes
data_bytes stage block = 0 ∷ 3 ∷ (word (stage % 2 ^ 16) ++ block)

abbrev pub is_short : Session → SmBufEx → Bool
is_short s b = not (b.data_size == block_size s + 4)

-- What a round of `data_tx` leaves.
abbrev pub after_send : Input → Loop → Session → SmBufEx → Loop
after_send i l s b = record l {
  session = record s { stat = State.ack_rx };
  last_blk_processed = is_short s b;
  local_buf = b;
  oper_time = i.now;
}

abbrev pub send_again : Loop → Session → SmBufEx → Loop
send_again l s b = record l { session = s; last_blk_processed = is_short s b; local_buf = b }

pub after_data-closed :
    (i : Input) (l : Loop) (s : Session) (b : SmBufEx) (bytes : Bytes)
    → Holds b (0 ∷ bytes)
    → s.stat ≡ State.data_tx
    → was_error s ≡ false
    → is_window_close s s.stage ≡ true
    → after_data i l s b ≡ ok (after_send i l s b, (0 ∷ bytes) ∷ [])
unfolding switch_to
after_data-closed i l s b bytes h e n w = ground (arith, h.counted, h.held)

pub after_data-open :
    (i : Input) (l : Loop) (s : Session) (b : SmBufEx) (bytes : Bytes)
    → Holds b (0 ∷ bytes)
    → s.stat ≡ State.data_tx
    → was_error s ≡ false
    → is_window_close s s.stage ≡ false
    → b.data_size ≡ block_size s + 4
    → after_data i l s b ≡ ok (send_again l s b, (0 ∷ bytes) ∷ [])
after_data-open i l s b bytes h e n w f = ground (arith, h.counted, h.held)

-- `on_data_tx` once the packet was built.
pub on_data_tx-built :
    (i : Input) (l : Loop) (m : DataMgrFile) (s : Session) (b : SmBufEx)
    → l.session.file_man ≡ some m
    → construct_data l.session m l.local_buf ≡ ok (s, b)
    → on_data_tx i l ≡ after_data i l s b
unfolding on_data_tx
on_data_tx-built i l m s b e q = ground arith

module _ (i : Input) (l : Loop) (m : DataMgrFile) (j : ℕ) (v : IsSending l m j)
    (inside : j * block_size l.session ≤ length m.file_in.content) where
  open m use {file_in}

  abbrev pub bs : ℕ
  bs = block_size l.session

  pub at : position l.session ≡ j * bs
  at =
      position-suc l.session j v.stage_is (below j bs v.nonzero (omega (arith, v.reading.small)))
        (omega (arith, v.reading.small))

  -- The session after the block was taken from the file.
  abbrev pub taken : DataMgrFile → Session
  taken m' = record l.session { file_man = some m' }

  abbrev pub sent : Bytes
  sent = data_bytes l.session.stage (slice file_in.content (j * bs) bs)

  -- What a round of `data_tx` does, in a window that closes with this block and in one that does not.
  pub record Built (m' : DataMgrFile) (b : SmBufEx) : Type 0 where
    pub local' : IsLocal b
    pub reading' : IsReading m'
    pub same_file : m'.file_in.content ≡ file_in.content
    pub good' :
        (j * bs + bs ≤ length file_in.content) ⊎ (j * bs ≡ length file_in.content)
        → IsGood m'.file_in
    pub sized : b.data_size ≡ 4 + min (length file_in.content - j * bs) bs
    pub held : Holds b sent
    pub round : on_data_tx i l ≡ after_data i l (taken m') b

  pub data_tx-Built : (m' : DataMgrFile) × (b : SmBufEx) × Built m' b
  data_tx-Built =
      let (s, m', b, e, d) =
        construct_data-IsData l.session m l.local_buf v.local v.reading v.good v.roomy
          (omega (arith, at, inside)) in
      (
        m',
        b,
        record {
          local' = d.bytes.local;
          reading' = d.reading;
          same_file = d.same_file;
          good' = λ k. d.stays_good (omega (arith, at, k));
          sized = d.sized ∙ ap (λ (p : ℕ). 4 + min (length file_in.content - p) bs) at;
          held =
              subst (λ (p : ℕ). Holds b (data_bytes l.session.stage (slice file_in.content p bs)))
                at d.bytes;
          round =
              on_data_tx-built i l m s b v.file e
              ∙ ap (λ (x : Session). after_data i l x b) d.same_session;
        },
      )

  -- A block that closes its window is sent, and its acknowledgement awaited; the block is the last if
  -- the file ends within it. One that does not close its window, though the file goes on, is sent
  -- and the session stays as it was, at the same stage.
  pub data_tx_round :
      ((is_window_close l.session l.session.stage ≡ true)
        → (m' : DataMgrFile) × (b : SmBufEx) × Built m' b
          × (on_data_tx i l ≡ ok (after_send i l (taken m') b, sent ∷ [])))
      × ((is_window_close l.session l.session.stage ≡ false)
          → j * bs + bs ≤ length file_in.content
          → (m' : DataMgrFile) × (b : SmBufEx) × Built m' b
            × (on_data_tx i l ≡ ok (send_again l (taken m') b, sent ∷ [])))
  unfolding was_error is_window_close
  data_tx_round =
      let (m', b, r) = data_tx-Built in
      (
        λ w. (m', b, r, r.round ∙ after_data-closed i l (taken m') b _ r.held v.state v.no_error w),
        λ w k. (
          m',
          b,
          r,
          r.round
              ∙ after_data-open i l (taken m') b _ r.held v.state v.no_error w
                  (omega (arith, r.sized)),
        ),
      )
