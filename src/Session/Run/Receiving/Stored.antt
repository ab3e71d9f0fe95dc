-- ===== src/Session/Run/Receiving/Stored.antt =====
-- source/tftpSession.cpp: what is stored of an uploaded file after each of its blocks.
use Prim.Native.Nat.add
use server_fw.Prelude.{
  ℕ, zero, suc, ◌+◌, ◌-◌, ◌*◌, ◌%◌, ◌^◌, ◌<◌, ◌≤◌, ◌≡◌, sym, ap, ◌∙◌, arith, true, false, List, [],
  ◌∷◌, ◌++◌, length, length-take, length-drop, min, slice, take, drop, some, inl, inr, Bool,
  Bool-cases, if◌then◌else◌,
}
use server_fw.Prelude.Text.{Bytes}
use server_fw.Common.{State}
use server_fw.Addr.{Addr}
use server_fw.DataMgr.File.{DataMgrFile}
use server_fw.DataMgr.File.Blocks.{IsWriting, take-all, take-nil}
use server_fw.Session.{was_error, block_size}
use server_fw.Session.Packets.Layout.{IsLocal, word}
use server_fw.Session.Run.{Env, Input, Loop, rounds}
use server_fw.Session.Run.Steps.{prefixed}
use server_fw.Session.Run.Receiving.Upload.{data_packet, IsReceiving, closes}
use server_fw.Session.Run.Receiving.Blocks.{
  After, full-IsReceiving, full_block, last_block, inner_block, size_test, block_of,
}

pub take-slice : (a b : ℕ) (xs : Bytes) → take a xs ++ slice xs a b ≡ take (a + b) xs
take-slice zero b xs = ap (λ (n : ℕ). take n xs) (omega arith)
take-slice (suc a) b [] = take-nil b ∙ sym (take-nil (suc a + b))
take-slice (suc a) b (x ∷ xs) = rw add.suc (ap (◌∷◌ x) (take-slice a b xs))

pub spread : (j n size : ℕ) → (j + n) * size ≡ j * size + n * size
spread j n size = grind arith

pub length-slice :
    (xs : Bytes) (p n : ℕ)
    → (p + n ≤ length xs → length (slice xs p n) ≡ n)
      × (length xs < p + n → p ≤ length xs → length (slice xs p n) < n)
      × (length (slice xs p n) ≤ n)
length-slice xs p n =
    let e : length (slice xs p n) ≡ min n (length xs - p) =
      length-take n (drop p xs) ∙ ap (min n) (length-drop p xs) in
    (λ h. omega (arith, e), λ h q. omega (arith, e), omega (arith, e))

-- What is received of a file once the blocks before one are.
pub record IsPart (file : Bytes) (size : ℕ) (l : Loop) (m : DataMgrFile) (j : ℕ) : Type 0 where
  pub sized : block_size l.session ≡ size
  pub part : m.file_out.content ≡ take (j * size) file

next-IsPart :
    (file : Bytes) (size : ℕ) (m m' : DataMgrFile) (j : ℕ)
    → m.file_out.content ≡ take (j * size) file
    → m'.file_out.content ≡ m.file_out.content ++ slice file (j * size) size
    → m'.file_out.content ≡ take (suc j * size) file
next-IsPart file size m m' j e f =
    f
    ∙ ap (λ (xs : Bytes). xs ++ slice file (j * size) size) e
    ∙ take-slice (j * size) size file
    ∙ ap (λ (n : ℕ). take n file) (omega (arith, spread j 1 size, spread 1 j size))

-- The session once every block of a file is stored: it has finished if the last block closed its window,
-- and awaits one more otherwise.
pub record Stored (shut : Bool) (clock stage : ℕ) (l0 l : Loop) (name file : Bytes) : Type 0 where
  pub mgr : DataMgrFile
  pub writing : IsWriting mgr
  pub file_man : l.session.file_man ≡ some mgr
  pub filename : mgr.filename ≡ name
  pub content : mgr.file_out.content ≡ file
  pub local : IsLocal l.local_buf
  pub over : l.last_blk_processed ≡ true
  pub state : l.session.stat ≡ (if shut then State.finish else State.data_rx)
  pub next_stage : l.session.stage ≡ stage
  pub same_opt : l.session.opt ≡ l0.session.opt
  pub same_count : l.retr_count ≡ l0.retr_count
  pub same_error : was_error l.session ≡ was_error l0.session
  pub clocked : shut ≡ false → l.oper_time ≡ clock

-- What a run from a later session stored, a run from an earlier one did.
pub Stored-from :
    (shut : Bool) (clock stage : ℕ) (l0 l1 l : Loop) (name name' file : Bytes)
    → l1.session.opt ≡ l0.session.opt
    → l1.retr_count ≡ l0.retr_count
    → was_error l1.session ≡ was_error l0.session
    → name' ≡ name
    → Stored shut clock stage l1 l name' file
    → Stored shut clock stage l0 l name file
unfolding was_error
Stored-from shut clock stage l0 l1 l name name' file o r e n s = record {
  mgr = s.mgr;
  writing = s.writing;
  file_man = s.file_man;
  filename = s.filename ∙ n;
  content = s.content;
  local = s.local;
  over = s.over;
  state = s.state;
  next_stage = s.next_stage;
  same_opt = s.same_opt ∙ o;
  same_count = s.same_count ∙ r;
  same_error = s.same_error ∙ e;
  clocked = s.clocked;
}

module _ (file : Bytes) (size w : ℕ) (env : Env) (i k : Input) (rest : List Input) (l : Loop)
    (m : DataMgrFile) (j : ℕ) (a : Addr) (p : IsPart file size l m j) (v : IsReceiving a w l m j)
    (rx : i.rx ≡ data_packet a (suc j) (slice file (j * size) size)) (takes : i.accepts ≡ true)
    (room : length file + size < 2 ^ 63) (inside : j * size ≤ length file) where
  abbrev pub block : Bytes
  block = slice file (j * size) size

  pub short : length block ≤ block_size l.session
  short = omega (arith, p.sized, (length-slice file (j * size) size).2)

  pub roomy : j * block_size l.session + block_size l.session < 2 ^ 63
  roomy = omega (arith, room, inside, p.sized, ap (◌*◌ j) p.sized)

  pub staged : i.rx ≡ data_packet a l.session.stage block
  staged = rx ∙ ap (λ (x : ℕ). data_packet a x block) (sym v.stage_is)

  abbrev pub Next : Loop → DataMgrFile → Type 0
  Next = After env i k rest l m j w a block v short roomy staged takes

  -- The block that ends the file.
  pub ends_file :
      length file < j * size + size
      → (l' : Loop) × Stored (closes w (suc j)) i.now (suc (suc j)) l l' m.filename file
        × (closes w (suc j) ≡ true
            → rounds env (i ∷ k ∷ rest) l
              ≡ prefixed ((0 ∷ 4 ∷ word (l.session.stage % 2 ^ 16)) ∷ []) (rounds env rest l'))
        × (closes w (suc j) ≡ false → rounds env (i ∷ rest) l ≡ prefixed [] (rounds env rest l'))
  unfolding was_error
  ends_file h =
      let less : length block < block_size l.session =
        omega (arith, p.sized, (length-slice file (j * size) size).1 h inside) in
      let stored =
        λ (l' : Loop) (m' : DataMgrFile) (r : Next l' m') (o : l'.last_blk_processed ≡ true)
            (s : l'.session.stat ≡ (if closes w (suc j) then State.finish else State.data_rx))
            (c : closes w (suc j) ≡ false → l'.oper_time ≡ i.now).
          let x : Stored (closes w (suc j)) i.now (suc (suc j)) l l' m.filename file = record {
            mgr = m';
            writing = r.writing;
            file_man = r.file;
            filename = r.same_name;
            content =
                next-IsPart file size m m' j p.part r.appended
                ∙ take-all _ file (omega (arith, h, spread 1 j size));
            local = r.local;
            over = o;
            state = s;
            next_stage = r.next_stage;
            same_opt = r.same_opt;
            same_count = r.same_count;
            same_error = r.same_error;
            clocked = c;
          } in
          x in
      elim (Bool-cases (closes w (suc j))) [
        | inl c ↦
            let (l', m', r, s, o, e) =
              last_block env i k rest l m j w a block v short roomy staged takes c less in
            (l', stored l' m' r o (rw c s) (λ f. cc), λ _. e, λ f. cc)
        | inr c ↦
            let (l', m', r, s, o, z, e) =
              inner_block env i k rest l m j w a block v short roomy staged takes c in
            (
              l',
              stored l' m' r (o ∙ (size_test (length block) (block_size l.session)).1 less) (rw c s)
                  (λ _. z),
              λ f. cc,
              λ _. e,
            )
      ]

  -- A block that does not.
  pub goes_on :
      j * size + size ≤ length file
      → (l' : Loop) × (m' : DataMgrFile) × IsReceiving a w l' m' (suc j)
        × IsPart file size l' m' (suc j)
        × Next l' m'
        × (closes w (suc j) ≡ true
            → rounds env (i ∷ k ∷ rest) l
              ≡ prefixed ((0 ∷ 4 ∷ word (l.session.stage % 2 ^ 16)) ∷ []) (rounds env rest l'))
        × (closes w (suc j) ≡ false → rounds env (i ∷ rest) l ≡ prefixed [] (rounds env rest l'))
  goes_on h =
      let full : length block ≡ block_size l.session =
        (length-slice file (j * size) size).0 h ∙ sym p.sized in
      let receives = full-IsReceiving env i k rest l m j w a block v short roomy staged takes in
      let part = λ (l' : Loop) (m' : DataMgrFile) (r : Next l' m').
        let x : IsPart file size l' m' (suc j) = record {
          sized = ap block_of r.same_opt ∙ p.sized;
          part = next-IsPart file size m m' j p.part r.appended;
        } in
        x in
      elim (Bool-cases (closes w (suc j))) [
        | inl c ↦
            let (l', m', r, s, e) =
              full_block env i k rest l m j w a block v short roomy staged takes c full in
            (l', m', receives l' m' r s full, part l' m' r, r, λ _. e, λ f. cc)
        | inr c ↦
            let (l', m', r, s, _, _, e) =
              inner_block env i k rest l m j w a block v short roomy staged takes c in
            (l', m', receives l' m' r s full, part l' m' r, r, λ f. cc, λ _. e)
      ]
