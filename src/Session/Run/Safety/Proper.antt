-- ===== src/Session/Run/Safety/Proper.antt =====
-- source/tftpSession.cpp: the packets of a read request, and a session that sends no others.
use server_fw.Prelude.{
  ℕ, suc, ◌+◌, ◌*◌, ◌<◌, ◌≤◌, ◌≡◌, ◌⊎◌, ◌∙◌, arith, false, List, [], ◌∷◌, length, slice, some, ok,
}
use server_fw.Prelude.Text.{Bytes}
use server_fw.Common.{State}
use server_fw.DataMgr.File.{DataMgrFile}
use server_fw.DataMgr.File.Blocks.{IsReading, IsGood}
use server_fw.Session.{was_error, block_size}
use server_fw.Session.Packets.Layout.{IsLocal}
use server_fw.Session.Run.{Env, Input, Loop, step}
use server_fw.Session.Run.Sending.{data_bytes}
use server_fw.Session.Run.Safety.{IsReader, IsReader-kept, IsStopping, Alive}

-- A packet with a block of a file, under the number that the block has.
pub record IsBlockOf (content : Bytes) (size k : ℕ) (p : Bytes) : Type 0 where
  pub inside : k * size ≤ length content
  pub bytes : p ≡ data_bytes (suc k) (slice content (k * size) size)

-- Packets of which each is a full block of the file, up to one that is the last block, and after which
-- nothing is said, or an ERROR packet, which ends them.
abbrev pub AreBlocks : Bytes → ℕ → List Bytes → Type 0
AreBlocks content size [] = Unit {0}
AreBlocks content size (p ∷ ps) =
    ((k : ℕ) × IsBlockOf content size k p
      × (k * size + size ≤ length content)
      × AreBlocks content size ps)
    ⊎ (((k : ℕ) × IsBlockOf content size k p × (length content < k * size + size))
        ⊎ ((rest : Bytes) × (p ≡ 0 ∷ 5 ∷ rest) × (ps ≡ [])))

-- A session whose stream is as good as at the start, at the block `suc j`.
pub record IsFresh (content : Bytes) (size j : ℕ) (l : Loop) : Type 0 where
  pub reader : IsReader l
  pub m : DataMgrFile
  pub file : l.session.file_man ≡ some m
  pub reading : IsReading m
  pub good : IsGood m.file_in
  pub same : m.file_in.content ≡ content
  pub sized : block_size l.session ≡ size
  pub nonzero : 0 < size
  pub no_error : was_error l.session ≡ false
  pub staged : l.session.stage ≡ suc j

-- In each state, how far its block may lie.
pub data Fresh (content : Bytes) (size : ℕ) (l : Loop) : Type 0 where
  sends :
      l.session.stat ≡ State.data_tx
      → (j : ℕ) → IsFresh content size j l
      → j * size ≤ length content + size
      → Fresh content size l
  waits :
      l.session.stat ≡ State.ack_rx
      → (j : ℕ) → IsFresh content size j l
      → j * size + size ≤ length content
      → Fresh content size l
  retries :
      l.session.stat ≡ State.retransmit
      → (j : ℕ) → IsFresh content size j l
      → j * size + size ≤ length content
      → Fresh content size l

-- A round of such a session: a block at most, after which it is as before, or the last block, or the
-- end.
abbrev pub FreshStep : Bytes → ℕ → Env → Input → Loop → Type 0
FreshStep content size env i l =
    (l' : Loop) × (p : List Bytes) × (step env i l ≡ ok (l', p))
    × (((p ≡ []) × Fresh content size l')
        ⊎ (((x : Bytes) × (k : ℕ) × (p ≡ x ∷ [])
              × IsBlockOf content size k x
              × (((k * size + size ≤ length content) × Fresh content size l')
                  ⊎ ((length content < k * size + size) × Alive l')))
            ⊎ ((p ≡ []) × (IsStopping l' ⊎ (l'.session.stat ≡ State.finish)))))

pub IsFresh-kept :
    (content : Bytes) (size j j' : ℕ) (l l' : Loop)
    → IsFresh content size j l
    → IsLocal l'.local_buf
    → l'.session.file_man ≡ l.session.file_man
    → l'.session.opt ≡ l.session.opt
    → l'.session.error_message ≡ l.session.error_message
    → l'.session.error_code ≡ l.session.error_code
    → l'.session.stage ≡ suc j'
    → IsFresh content size j' l'
unfolding was_error
IsFresh-kept content size j j' l l' v local f o w c s = record {
  reader = IsReader-kept l l' v.reader local f o w;
  m = v.m;
  file = f ∙ v.file;
  reading = v.reading;
  good = v.good;
  same = v.same;
  sized = ground (arith, v.sized, o);
  nonzero = v.nonzero;
  no_error = ground (arith, v.no_error, w, c);
  staged = s;
}
