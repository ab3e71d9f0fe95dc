-- ===== src/Session/Run/Receiving/Upload.antt =====
-- source/tftpSession.cpp: a block that is received and acknowledged, the two rounds of a write request.
use server_fw.Prelude.{
  ℕ, suc, ◌+◌, ◌*◌, ◌/◌, ◌%◌, ◌^◌, ◌<◌, ◌≤◌, ◌≡◌, refl, sym, ap, ◌∙◌, arith, Bool, true, false, not,
  [], ◌++◌, length, ◌==◌, ok, some,
}
use server_fw.Prelude.Text.{Bytes}
use server_fw.Common.{State}
use server_fw.Addr.{Addr, same_addr}
use server_fw.SmBufEx.{SmBufEx}
use server_fw.DataMgr.File.{DataMgrFile, write}
use server_fw.DataMgr.File.Blocks.{IsWriting}
use server_fw.DataMgr.File.Appending.{write-Appended}
use server_fw.Session.{Session, switch_to, block_size, position, windowsize, is_window_close}
use server_fw.Session.Packets.Layout.{IsLocal}
use server_fw.Session.Receive.{Rx, packet, rx_stage, receive_no_wait}
use server_fw.Session.Receive.Numbers.{arrived, framed}
use server_fw.Session.Receive.Stored.{data_taken, taken}
use server_fw.Session.Run.{Input, Loop, on_data_rx, after_rx}
use server_fw.Session.Run.Sending.{position-suc, below}
use server_fw.Session.Run.Exchange.{arrived-IsLocal}

-- The DATA packet of a stage.
abbrev pub data_packet : Addr → ℕ → Bytes → Rx
data_packet a stage block = packet a (framed 3 (stage / 256 % 256) (stage % 256) block)

-- A session that awaits the block of its stage, `suc j`, and stored those before it through `m`, with
-- `w` blocks to a window.
pub record IsReceiving (a : Addr) (w : ℕ) (l : Loop) (m : DataMgrFile) (j : ℕ) : Type 0 where
  pub state : l.session.stat ≡ State.data_rx
  pub file : l.session.file_man ≡ some m
  pub writing : IsWriting m
  pub local : IsLocal l.local_buf
  pub stage_is : l.session.stage ≡ suc j
  pub roomy : block_size l.session ≤ 65531
  pub nonzero : 0 < block_size l.session
  pub whole : length m.file_out.content ≡ j * block_size l.session
  pub window : windowsize l.session ≡ w
  pub client : same_addr a l.session.cl_addr ≡ true

awaited : (s : Session) → rx_stage s (s.stage / 256 % 256 * 256 + s.stage % 256) ≡ some s.stage
unfolding rx_stage
awaited s = ground (arith, number s.stage)
  where
    number : (n : ℕ) → n / 256 % 256 * 256 + n % 256 ≡ n % 2 ^ 16
    number n = omega arith

-- The session once the block is stored, which is acknowledged next.
abbrev pub kept : Loop → DataMgrFile → SmBufEx → Bytes → Loop
kept l m b block = record l {
  session = record l.session { stat = State.ack_tx; file_man = some m };
  last_blk_processed = not (length block + 4 == block_size l.session + 4);
  local_buf = b;
}

pub after_rx-kept :
    (i : Input) (l : Loop) (m : DataMgrFile) (b : SmBufEx) (block : Bytes)
    → l.session.stat ≡ State.data_rx
    → is_window_close l.session l.session.stage ≡ true
    → b.data_size ≡ length block + 4
    → after_rx i l (record l.session { file_man = some m }) b ≡ kept l m b block
unfolding is_window_close switch_to
after_rx-kept i l m b block h w e = ground (arith, w, e)

-- The session once a block is stored that does not close its window: the next is awaited.
abbrev pub passed : Input → Loop → DataMgrFile → SmBufEx → Bytes → Loop
passed i l m b block = record l {
  session = record l.session { stage = l.session.stage + 1; file_man = some m };
  last_blk_processed = not (length block + 4 == block_size l.session + 4);
  local_buf = b;
  oper_time = i.now;
}

pub after_rx-passed :
    (i : Input) (l : Loop) (m : DataMgrFile) (b : SmBufEx) (block : Bytes)
    → is_window_close l.session l.session.stage ≡ false
    → b.data_size ≡ length block + 4
    → after_rx i l (record l.session { file_man = some m }) b ≡ passed i l m b block
unfolding is_window_close
after_rx-passed i l m b block w e = ground (arith, w, e)

-- Whether a block closes its window.
abbrev pub closes : ℕ → ℕ → Bool
closes w stage = stage % w == 0

pub window_test :
    (s : Session) (w stage : ℕ)
    → windowsize s ≡ w
    → s.stage ≡ stage
    → is_window_close s s.stage ≡ closes w stage
unfolding is_window_close
window_test s w stage e f = rw e (rw f refl)

on_data_rx-taken :
    (i : Input) (l : Loop) (m : DataMgrFile) (b : SmBufEx)
    → receive_no_wait i.accepts i.rx l.session l.local_buf ≡ ok (taken l.session m b)
    → on_data_rx i l ≡ ok (after_rx i l (record l.session { file_man = some m }) b, [])
unfolding on_data_rx
on_data_rx-taken i l m b e = rw e refl

module _ (i : Input) (l : Loop) (m : DataMgrFile) (j w : ℕ) (a : Addr) (block : Bytes)
    (v : IsReceiving a w l m j) (short : length block ≤ block_size l.session)
    (room : j * block_size l.session + block_size l.session < 2 ^ 63)
    (rx : i.rx ≡ data_packet a l.session.stage block) (accepts : i.accepts ≡ true) where
  at : position l.session ≡ j * block_size l.session
  at =
      position-suc l.session j v.stage_is
        (below j (block_size l.session) v.nonzero (omega (arith, room))) (omega (arith, room))

  -- What the round in `data_rx` leaves.
  pub record Kept (m' : DataMgrFile) (b : SmBufEx) : Type 0 where
    pub writing' : IsWriting m'
    pub same_name : m'.filename ≡ m.filename
    pub appended : m'.file_out.content ≡ m.file_out.content ++ block
    pub local' : IsLocal b
    pub counted : b.data_size ≡ length block + 4
    pub round : on_data_rx i l ≡ ok (after_rx i l (record l.session { file_man = some m' }) b, [])

  pub received : (m' : DataMgrFile) × (b : SmBufEx) × Kept m' b
  received =
      let (out, e, p) =
        write-Appended m block (position l.session) v.writing (at ∙ sym v.whole)
          (omega (arith, at, short, room)) in
      let b =
        arrived l.local_buf
          (framed 3 (l.session.stage / 256 % 256) (l.session.stage % 256) block) in
      (
        out.mgr,
        b,
        record {
          writing' = p.writing;
          appended = p.appended;
          same_name = p.same_name;
          local' = arrived-IsLocal l.local_buf _ v.local (omega (arith, short, v.roomy));
          counted = omega arith;
          round = on_data_rx-taken i l out.mgr b (
              ap (λ (x : Rx). receive_no_wait i.accepts x l.session l.local_buf) rx
              ∙ data_taken l.session l.local_buf a (l.session.stage / 256 % 256)
                  (l.session.stage % 256) block m l.session.stage (length block) i.accepts out
                  v.local (omega (arith, short, v.roomy)) v.client v.state v.file
                  (awaited l.session) (omega arith)
                  (ap (λ (x : Bool). write x m block (position l.session)) accepts ∙ e) p.counted
                  p.silent);
        },
      )
