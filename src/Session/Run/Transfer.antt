-- ===== src/Session/Run/Transfer.antt =====
-- source/tftpSession.cpp: a whole read request, block by block, each acknowledged.
use server_fw.Prelude.{
  ℕ, zero, suc, ◌+◌, ◌*◌, ◌<◌, ◌≤◌, ◌≡◌, inl, refl, sym, ap, ◌∙◌, subst, arith, true, false, List,
  [], ◌∷◌, ◌++◌, length, slice, take, drop, drop-drop, ok, some,
}
use server_fw.Prelude.Text.{Bytes}
use server_fw.Common.{State}
use server_fw.Addr.{Addr, same_addr}
use server_fw.SmBufEx.{SmBufEx}
use server_fw.DataMgr.File.{DataMgrFile}
use server_fw.DataMgr.File.Blocks.{drop-all}
use server_fw.Session.{switch_to, was_error, block_size, windowsize}
use server_fw.Session.Run.{Env, Input, Loop, rounds}
use server_fw.Session.Run.Steps.{prefixed-ok}
use server_fw.Session.Run.Sending.{IsSending, Built, data_bytes, sent}
use server_fw.Session.Run.Exchange.{ack, answered, exchanged, exchange, arrived-IsLocal}

-- A round to send and a round to be acknowledged, for each stage from the given one on.
abbrev pub Acknowledged : Addr → ℕ → List (Input × Input) → Type 0
Acknowledged a stage [] = Unit {0}
Acknowledged a stage ((i, k) ∷ ps) = (k.rx ≡ ack a stage) × Acknowledged a (suc stage) ps

abbrev pub flat : List (Input × Input) → List Input
flat [] = []
flat ((i, k) ∷ ps) = i ∷ k ∷ flat ps

-- The blocks of a file of a block size, from one on.
abbrev pub blocks : Bytes → ℕ → ℕ → ℕ → List Bytes
blocks content size j zero = []
blocks content size j (suc n) = slice content (j * size) size ∷ blocks content size (suc j) n

abbrev pub data_packets : ℕ → List Bytes → List Bytes
data_packets stage [] = []
data_packets stage (x ∷ xs) = data_bytes stage x ∷ data_packets (suc stage) xs

-- What a transfer asks of the session besides `IsSending`, and keeps.
pub record IsSingle (a : Addr) (l : Loop) : Type 0 where
  pub window : windowsize l.session ≡ 1
  pub client : same_addr a l.session.cl_addr ≡ true

exchanged-IsSending :
    (i k : Input) (l : Loop) (m : DataMgrFile) (j : ℕ) (v : IsSending l m j)
    (inside : j * block_size l.session ≤ length m.file_in.content) (m' : DataMgrFile) (b : SmBufEx)
    → Built i l m j v inside m' b
    → j * block_size l.session + block_size l.session ≤ length m.file_in.content
    → exchanged i k l m' b ≡ record l {
      session = record l.session { file_man = some m'; stage = l.session.stage + 1 };
      last_blk_processed = false;
      local_buf = answered b l.session.stage;
      oper_time = k.now;
    }
unfolding switch_to
exchanged-IsSending i k l m j v inside m' b r full = ground (arith, r.sized, v.state)

exchanged-finish :
    (i k : Input) (l : Loop) (m : DataMgrFile) (j : ℕ) (v : IsSending l m j)
    (inside : j * block_size l.session ≤ length m.file_in.content) (m' : DataMgrFile) (b : SmBufEx)
    → Built i l m j v inside m' b
    → length m.file_in.content < j * block_size l.session + block_size l.session
    → (exchanged i k l m' b).session.stat ≡ State.finish
unfolding switch_to
exchanged-finish i k l m j v inside m' b r short = ground (arith, r.sized)

next-IsSending :
    (i k : Input) (l : Loop) (m : DataMgrFile) (j : ℕ) (v : IsSending l m j)
    (inside : j * block_size l.session ≤ length m.file_in.content) (m' : DataMgrFile) (b : SmBufEx)
    → Built i l m j v inside m' b
    → j * block_size l.session + block_size l.session ≤ length m.file_in.content
    → IsSending (exchanged i k l m' b) m' (suc j)
unfolding was_error
next-IsSending i k l m j v inside m' b r full =
    subst (λ (x : Loop). IsSending x m' (suc j))
      (sym (exchanged-IsSending i k l m j v inside m' b r full))
      (record {
        state = v.state;
        file = refl;
        reading = r.reading';
        good = r.good' (inl full);
        local = arrived-IsLocal b _ r.local' (omega arith);
        no_error = v.no_error;
        stage_is = omega (arith, v.stage_is);
        roomy = v.roomy;
        nonzero = v.nonzero;
      })

next-IsSingle :
    (i k : Input) (l : Loop) (m' : DataMgrFile) (b : SmBufEx) (a : Addr)
    → IsSingle a l
    → IsSingle a (exchanged i k l m' b)
unfolding switch_to
next-IsSingle i k l m' b a s = ground (arith, s.window, s.client)

pub block_sent :
    (i : Input) (l : Loop) (m : DataMgrFile) (j : ℕ) (v : IsSending l m j)
    (inside : j * block_size l.session ≤ length m.file_in.content) {content : Bytes} {size : ℕ}
    → m.file_in.content ≡ content
    → block_size l.session ≡ size
    → sent i l m j v inside ≡ data_bytes (suc j) (slice content (j * size) size)
block_sent i l m j v inside {content} {size} c z =
    ap
      (λ (x : ℕ).
        data_bytes x (slice m.file_in.content (j * block_size l.session) (block_size l.session)))
      v.stage_is
    ∙ ap
        (λ (x : Bytes).
          data_bytes (suc j) (slice x (j * block_size l.session) (block_size l.session)))
        c
    ∙ ap (λ (x : ℕ). data_bytes (suc j) (slice content (j * x) x)) z

exchanged-block_size :
    (i k : Input) (l : Loop) (m' : DataMgrFile) (b : SmBufEx)
    → block_size (exchanged i k l m' b).session ≡ block_size l.session
unfolding switch_to
exchanged-block_size i k l m' b = ground arith

spread : (j n size : ℕ) → (j + n) * size ≡ j * size + n * size
spread j n size = grind arith

-- The transfer of a file with the given content, in blocks of the given size.
pub transfer_of :
    (content : Bytes) (size : ℕ) (env : Env) (ps : List (Input × Input)) (l : Loop)
    (m : DataMgrFile) (j : ℕ) (a : Addr)
    → m.file_in.content ≡ content
    → block_size l.session ≡ size
    → IsSending l m j
    → IsSingle a l
    → Acknowledged a (suc j) ps
    → j * size ≤ length content
    → (j + length ps) * size ≤ length content + size
    → length content < (j + length ps) * size
    → (l' : Loop) × (rounds env (flat ps) l
        ≡ ok (l', data_packets (suc j) (blocks content size j (length ps))))
      × (l'.session.stat ≡ State.finish)
unfolding rounds
transfer_of content size env [] l m j a c z v s k h0 h1 h2 = absurd (omega arith)
transfer_of content size env ((i, k) ∷ []) l m j a c z v s (e, _) h0 h1 h2 =
    let inside : j * block_size l.session ≤ length m.file_in.content =
      omega (arith, ap length c, ap (◌*◌ j) z) in
    let short : length m.file_in.content < j * block_size l.session + block_size l.session =
      omega (arith, ap length c, ap (◌*◌ j) z, z, spread j 1 size) in
    let (m', b, r, p) =
      exchange env i k l m j a [] v inside s.window s.client (e ∙ ap (ack a) (sym v.stage_is)) in
    (
      exchanged i k l m' b,
      p ∙ ap (λ (x : Bytes). ok (exchanged i k l m' b, x ∷ [])) (block_sent i l m j v inside c z),
      exchanged-finish i k l m j v inside m' b r short,
    )
transfer_of content size env ((i, k) ∷ (q ∷ qs)) l m j a c z v s (e, es) h0 h1 h2 =
    let inside : j * block_size l.session ≤ length m.file_in.content =
      omega (arith, ap length c, ap (◌*◌ j) z) in
    let enough : j * size + size ≤ length content =
      omega (arith, spread j (suc (suc (length qs))) size) in
    let full : j * block_size l.session + block_size l.session ≤ length m.file_in.content =
      omega (arith, ap length c, ap (◌*◌ j) z, z, enough) in
    let (m', b, r, p) =
      exchange env i k l m j a (flat (q ∷ qs)) v inside s.window s.client
        (e ∙ ap (ack a) (sym v.stage_is)) in
    let (l', rest, done) =
      transfer_of content size env (q ∷ qs) (exchanged i k l m' b) m' (suc j) a (r.same_file ∙ c)
        (exchanged-block_size i k l m' b ∙ z) (next-IsSending i k l m j v inside m' b r full)
        (next-IsSingle i k l m' b a s) es (omega (arith, enough))
        (omega
          (arith, h1, spread j (suc (suc (length qs))) size, spread (suc j) (suc (length qs)) size))
        (omega (
          arith,
          h2,
          spread j (suc (suc (length qs))) size,
          spread (suc j) (suc (length qs)) size,
        )) in
    (
      l',
      p
          ∙ prefixed-ok (sent i l m j v inside ∷ []) _ _ rest
          ∙ ap
              (λ (x : Bytes). ok (
                l',
                x ∷ data_packets (suc (suc j)) (blocks content size (suc j) (suc (length qs))),
              ))
              (block_sent i l m j v inside c z),
      done,
    )

-- A read request with one block to a window, from any stage on: if each block is acknowledged, the
-- session sends the rest of the file, block after block in DATA packets of successive numbers, and
-- finishes. The file ends within the last block, which is shorter than the others and may be empty.
pub transfer :
    (env : Env) (ps : List (Input × Input)) (l : Loop) (m : DataMgrFile) (j : ℕ) (a : Addr)
    → IsSending l m j
    → IsSingle a l
    → Acknowledged a (suc j) ps
    → j * block_size l.session ≤ length m.file_in.content
    → (j + length ps) * block_size l.session ≤ length m.file_in.content + block_size l.session
    → length m.file_in.content < (j + length ps) * block_size l.session
    → (l' : Loop) × (rounds env (flat ps) l
        ≡ ok (
          l',
          data_packets (suc j) (blocks m.file_in.content (block_size l.session) j (length ps)),
        ))
      × (l'.session.stat ≡ State.finish)
transfer env ps l m j a =
    transfer_of m.file_in.content (block_size l.session) env ps l m j a refl refl

-- The bytes of the blocks.
abbrev pub joined : List Bytes → Bytes
joined [] = []
joined (x ∷ xs) = x ++ joined xs

slice-rest : (n : ℕ) (xs : Bytes) → take n xs ++ drop n xs ≡ xs
slice-rest zero xs = refl
slice-rest (suc n) [] = refl
slice-rest (suc n) (x ∷ xs) = ap (◌∷◌ x) (slice-rest n xs)

-- The blocks of a file, as many as reach its end, make up the file from the first of them on: nothing
-- is lost, doubled or moved between them.
pub joined-blocks :
    (content : Bytes) (size j n : ℕ)
    → length content ≤ (j + n) * size
    → joined (blocks content size j n) ≡ drop (j * size) content
joined-blocks content size j zero h = sym (drop-all (j * size) content (omega arith))
joined-blocks content size j (suc n) h =
    ap (◌++◌ (slice content (j * size) size)) (
      joined-blocks content size (suc j) n
        (omega (arith, h, spread (suc j) n size, spread j (suc n) size)))
    ∙ ap (λ (xs : Bytes). slice content (j * size) size ++ xs)
        (ap (λ (p : ℕ). drop p content) (omega (arith, spread j 1 size))
          ∙ drop-drop (j * size) size content)
    ∙ slice-rest size (drop (j * size) content)
