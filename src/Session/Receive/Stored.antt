-- ===== src/Session/Receive/Stored.antt =====
-- DATA packets: which are stored, and where; and ACK packets: which are taken.
use server_fw.Prelude.{
  ℕ, ◌+◌, ◌-◌, ◌*◌, ◌^◌, ◌<◌, ◌≤◌, ◌≡◌, ◌≢◌, refl, ap, ◌∙◌, arith, Bool, true, [], length, slice,
  Result, ok, err, ◌>>=◌, some, none, stream_failure,
}
use server_fw.Prelude.Text.{Bytes}
use server_fw.Common.{State, TripleResult}
use server_fw.Addr.{Addr, same_addr}
use server_fw.SmBufEx.{SmBufEx}
use server_fw.DataMgr.Streams.{overwrite}
use server_fw.DataMgr.File.{DataMgrFile, WriteOut, write}
use server_fw.DataMgr.File.Blocks.{IsWriting, write_lem, write_negative_position}
use server_fw.Session.{Session, position}
use server_fw.Session.Packets.Layout.{IsLocal}
use server_fw.Session.Receive.{
  Rx, packet, Received, rx_stage, receive_data, receive_no_wait, dispatch, follow, stored,
}
use server_fw.Session.Receive.Numbers.{arrived, framed, receive_framed, payload-arrived}

-- The session at another stage.
abbrev pub at_stage : Session → ℕ → Session
at_stage s n = record s { stage = n }

pub follow-at_stage :
    (s : Session) (blk n : ℕ) → rx_stage s blk ≡ some n → follow s blk (some n) ≡ at_stage s n
unfolding rx_stage
follow-at_stage s blk n e = ground arith

receive_data_stored :
    (accepts : Bool) (s : Session) (b : SmBufEx) (size blk n : ℕ) (m : DataMgrFile)
    → rx_stage s blk ≡ some n
    → n ≤ s.stage + 1
    → s.file_man ≡ some m
    → receive_data accepts s b size blk ≡ (
        write accepts m (slice b.buf 4 (size - 4)) (position (at_stage s n)) >>= λ out.
        ok (stored (at_stage s n) b out))
unfolding receive_data
receive_data_stored accepts s b size blk n m e h f = ground (arith, follow-at_stage s blk n e)

dispatch_data :
    (accepts : Bool) (s : Session) (b : SmBufEx) (size blk : ℕ)
    → s.stat ≡ State.data_rx
    → dispatch accepts s b size 3 blk ≡ receive_data accepts s b size blk
dispatch_data accepts s b size blk h = rw h

abbrev pub taken : Session → DataMgrFile → SmBufEx → Received
taken t m b = record { result = TripleResult.ok; session = record t { file_man = some m }; buf = b }

stored-taken :
    (t : Session) (b : SmBufEx) (out : WriteOut) (k : ℕ)
    → out.result ≡ some k
    → out.report ≡ none
    → stored t b out ≡ taken t out.mgr b
stored-taken t b out k e r = ground arith

-- A DATA packet whose number stands for a stage, in a session that waits for it.
pub data_dispatched :
    (s : Session) (b : SmBufEx) (a : Addr) (hi lo : ℕ) (payload : Bytes) (m : DataMgrFile) (n : ℕ)
    → IsLocal b
    → length payload ≤ 65531
    → same_addr a s.cl_addr ≡ true
    → s.stat ≡ State.data_rx
    → s.file_man ≡ some m
    → rx_stage s (hi * 256 + lo) ≡ some n
    → n ≤ s.stage + 1
    → (accepts : Bool)
    → receive_no_wait accepts (packet a (framed 3 hi lo payload)) s b ≡ (
        write accepts m payload (position (at_stage s n)) >>= λ out.
        ok (stored (at_stage s n) (arrived b (framed 3 hi lo payload)) out))
data_dispatched s b a hi lo payload m n l short client waits opened e h accepts =
    receive_framed accepts s b a 3 hi lo payload l short client (λ q. absurd (omega arith))
    ∙ dispatch_data accepts s _ _ (hi * 256 + lo) waits
    ∙ receive_data_stored accepts s (arrived b (framed 3 hi lo payload)) _ (hi * 256 + lo) n m e h
        opened
    ∙ ap
        (λ (xs : Bytes). write accepts m xs (position (at_stage s n)) >>= λ out.
          ok (stored (at_stage s n) (arrived b (framed 3 hi lo payload)) out))
        (payload-arrived accepts s b a 3 hi lo payload l short client)

-- Such a packet, when its block was written.
pub data_taken :
    (s : Session) (b : SmBufEx) (a : Addr) (hi lo : ℕ) (payload : Bytes) (m : DataMgrFile) (n k : ℕ)
    (accepts : Bool) (out : WriteOut)
    → IsLocal b
    → length payload ≤ 65531
    → same_addr a s.cl_addr ≡ true
    → s.stat ≡ State.data_rx
    → s.file_man ≡ some m
    → rx_stage s (hi * 256 + lo) ≡ some n
    → n ≤ s.stage + 1
    → write accepts m payload (position (at_stage s n)) ≡ ok out
    → out.result ≡ some k
    → out.report ≡ none
    → receive_no_wait accepts (packet a (framed 3 hi lo payload)) s b
      ≡ ok (taken (at_stage s n) out.mgr (arrived b (framed 3 hi lo payload)))
data_taken s b a hi lo payload m n k accepts out l short client waits opened e h written q silent =
    data_dispatched s b a hi lo payload m n l short client waits opened e h accepts
    ∙ ap
        (λ (x : Result WriteOut).
          x >>= λ out. ok (stored (at_stage s n) (arrived b (framed 3 hi lo payload)) out))
        written
    ∙ ap ok (stored-taken (at_stage s n) _ out k q silent)

module _ (s : Session) (b : SmBufEx) (a : Addr) (hi lo : ℕ) (payload : Bytes) (m : DataMgrFile)
    (n : ℕ) (l : IsLocal b) (short : length payload ≤ 65531) (client : same_addr a s.cl_addr ≡ true)
    (waits : s.stat ≡ State.data_rx) (opened : s.file_man ≡ some m) (w : IsWriting m)
    (full : payload ≢ []) (e : rx_stage s (hi * 256 + lo) ≡ some n) where
  abbrev data_packet : Rx
  data_packet = packet a (framed 3 hi lo payload)

  -- In a session that awaits a block, with its file ready to be written and a disk that takes the
  -- block: a DATA packet of the client that is not empty and fits the buffer, and whose number stands
  -- for a stage up to one past the awaited one, with a position below 2 ^ 63, is stored at that position
  -- in the file, whatever was stored before, and the session goes on from that stage. So the awaited
  -- block is stored in its place, an old one takes the session back, and one that follows a lost
  -- block is taken as well: the lost block is not asked for.
  pub receive_data_packet :
      n ≤ s.stage + 1
      → position (at_stage s n) < 2 ^ 63
      → (r : Received) × (m' : DataMgrFile) × (receive_no_wait true data_packet s b ≡ ok r)
        × (r.result ≡ TripleResult.ok)
        × (r.session ≡ record s { stage = n; file_man = some m' })
        × (m'.file_out.content ≡ overwrite m.file_out.content (position (at_stage s n)) payload)
  receive_data_packet h p =
      let (out, e1, q, content, _, _, silent) =
        write_lem m payload (position (at_stage s n)) w full p in
      (
        taken (at_stage s n) out.mgr (arrived b (framed 3 hi lo payload)),
        out.mgr,
        data_taken s b a hi lo payload m n _ true out l short client waits opened e h e1 q silent,
        refl,
        refl,
        content,
      )

  -- In a session that awaits a block, with its file ready to be written: a DATA packet of the client that
  -- is not empty and fits the buffer, and whose number stands for a stage with a negative position, as
  -- number 0 does while the first block is awaited, makes the receive throw out of the session.
  pub receive_data_negative :
      (accepts : Bool)
      → n ≤ s.stage + 1
      → 2 ^ 63 ≤ position (at_stage s n)
      → receive_no_wait accepts data_packet s b ≡ err stream_failure
  receive_data_negative accepts h p =
      data_dispatched s b a hi lo payload m n l short client waits opened e h accepts
      ∙ ap
          (λ (x : Result WriteOut).
            x >>= λ out. ok (stored (at_stage s n) (arrived b (framed 3 hi lo payload)) out))
          (write_negative_position accepts m payload (position (at_stage s n)) w full p)
