-- ===== src/Session/Run/Receiving/Windows.antt =====
-- source/tftpSession.cpp: the blocks of an uploaded file, window after window.
use server_fw.Prelude.{
  ℕ, zero, suc, ◌+◌, ◌*◌, ◌%◌, ◌^◌, ◌<◌, ◌≤◌, ◌≡◌, ap, subst, ◌∙◌, arith, true, false, List, [],
  ◌∷◌, length, ok, inl, inr, Bool-cases, if◌then◌else◌,
}
use server_fw.Prelude.Text.{Bytes}
use server_fw.Addr.{Addr}
use server_fw.DataMgr.File.{DataMgrFile}
use server_fw.Session.Packets.Layout.{word}
use server_fw.Session.Run.{Env, Input, Loop, rounds}
use server_fw.Session.Run.Steps.{rounds_none, prefixed, prefixed-ok}
use server_fw.Session.Run.Transfer.{blocks}
use server_fw.Session.Run.Receiving.Upload.{data_packet, IsReceiving, closes}
use server_fw.Session.Run.Receiving.Stored.{IsPart, spread, Stored, Stored-from, ends_file, goes_on}

-- For each block a round in which its packet comes and the file takes it, and a round to acknowledge,
-- from the stage of the first on.
abbrev pub Delivered : Addr → ℕ → List (Input × Input) → List Bytes → Type 0
Delivered a stage [] [] = Unit {0}
Delivered a stage ((i, k) ∷ ps) (x ∷ xs) =
    (i.rx ≡ data_packet a stage x) × (i.accepts ≡ true) × Delivered a (suc stage) ps xs
Delivered a stage _ _ = ⊥

-- The rounds in which the blocks come: one for a block, and one more to acknowledge the last of a
-- window.
abbrev pub turns : ℕ → ℕ → List (Input × Input) → List Input
turns w stage [] = []
turns w stage ((i, k) ∷ ps) =
    let rest = turns w (suc stage) ps in if closes w stage then i ∷ k ∷ rest else i ∷ rest

-- The acknowledgements: of the last block of each window.
abbrev pub window_acks : ℕ → ℕ → ℕ → List Bytes
window_acks w stage zero = []
window_acks w stage (suc n) =
    let rest = window_acks w (suc stage) n in
    if closes w stage then (0 ∷ 4 ∷ word (stage % 2 ^ 16)) ∷ rest else rest

-- The time at which the last block comes.
abbrev pub last_now : List (Input × Input) → ℕ
last_now [] = 0
last_now ((i, k) ∷ []) = i.now
last_now (p ∷ q ∷ qs) = last_now (q ∷ qs)

-- The first block of a run and the rest of it.
then_blocks :
    (w stage : ℕ) (i k : Input) (ps : List (Input × Input)) (n : ℕ) (env : Env) (l l1 l' : Loop)
    (stage' : ℕ)
    → stage' ≡ stage
    → (closes w stage ≡ true
        → rounds env (i ∷ k ∷ turns w (suc stage) ps) l
          ≡ prefixed
              ((0 ∷ 4 ∷ word (stage' % 2 ^ 16)) ∷ [])
              (rounds env (turns w (suc stage) ps) l1))
    → (closes w stage ≡ false
        → rounds env (i ∷ turns w (suc stage) ps) l
          ≡ prefixed [] (rounds env (turns w (suc stage) ps) l1))
    → rounds env (turns w (suc stage) ps) l1 ≡ ok (l', window_acks w (suc stage) n)
    → rounds env (turns w stage ((i, k) ∷ ps)) l ≡ ok (l', window_acks w stage (suc n))
then_blocks w stage i k ps n env l l1 l' stage' s shut inner later =
    elim (Bool-cases (closes w stage)) [
      | inl c ↦ rw c (
          shut c
          ∙ prefixed-ok ((0 ∷ 4 ∷ word (stage' % 2 ^ 16)) ∷ []) (window_acks w (suc stage) n)
              (rounds env (turns w (suc stage) ps) l1) later
          ∙ ap (λ (x : ℕ). ok (l', (0 ∷ 4 ∷ word (x % 2 ^ 16)) ∷ window_acks w (suc stage) n)) s)
      | inr c ↦ rw c (
          inner c
          ∙ prefixed-ok [] (window_acks w (suc stage) n) (rounds env (turns w (suc stage) ps) l1)
              later)
    ]

-- The blocks of a file from one on, received in a session with any window.
pub upload_windows :
    (file : Bytes) (size w : ℕ) (env : Env) (ps : List (Input × Input)) (l : Loop) (m : DataMgrFile)
    (j : ℕ) (a : Addr)
    → IsPart file size l m j
    → IsReceiving a w l m j
    → Delivered a (suc j) ps (blocks file size j (length ps))
    → length file + size < 2 ^ 63
    → j * size ≤ length file
    → (j + length ps) * size ≤ length file + size
    → length file < (j + length ps) * size
    → (l' : Loop) × (rounds env (turns w (suc j) ps) l ≡ ok (l', window_acks w (suc j) (length ps)))
      × Stored (closes w (j + length ps)) (last_now ps) (suc (j + length ps)) l l' m.filename file
upload_windows file size w env [] l m j a p v d n h0 h1 h2 = absurd (omega arith)
upload_windows file size w env ((i, k) ∷ []) l m j a p v (e, t, _) n h0 h1 h2 =
    let (l', s, shut, inner) =
      ends_file file size w env i k [] l m j a p v e t n h0 (omega (arith, h2, spread j 1 size)) in
    (
      l',
      then_blocks w (suc j) i k [] 0 env l l' l' l.session.stage v.stage_is shut inner
          (rounds_none env l'),
      subst (λ (x : ℕ). Stored (closes w x) i.now (suc x) l l' m.filename file) (omega arith) s,
    )
upload_windows file size w env ((i, k) ∷ (q ∷ qs)) l m j a p v (e, t, es) n h0 h1 h2 =
    let more = suc (length qs) in
    let enough : j * size + size ≤ length file = omega (arith, h1, spread j (suc more) size) in
    let (l1, m1, v1, p1, r, shut, inner) =
      goes_on file size w env i k (turns w (suc (suc j)) (q ∷ qs)) l m j a p v e t n h0 enough in
    let (l', run, s) =
      upload_windows file size w env (q ∷ qs) l1 m1 (suc j) a p1 v1 es n
        (omega (arith, enough, spread 1 j size))
        (omega (arith, h1, spread j (suc more) size, spread (suc j) more size))
        (omega (arith, h2, spread j (suc more) size, spread (suc j) more size)) in
    (
      l',
      then_blocks w (suc j) i k (q ∷ qs) more env l l1 l' l.session.stage v.stage_is shut inner run,
      subst (λ (x : ℕ). Stored (closes w x) (last_now (q ∷ qs)) (suc x) l l' m.filename file)
          (omega arith)
          (Stored-from (closes w (suc j + more)) (last_now (q ∷ qs)) (suc (suc j + more)) l l1 l'
            m.filename m1.filename file r.same_opt r.same_count r.same_error r.same_name s),
    )
