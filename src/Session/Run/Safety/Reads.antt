-- ===== src/Session/Run/Safety/Reads.antt =====
-- source/tftpSession.cpp: all the packets of a read request, whatever comes from the client.
use server_fw.Prelude.{
  ℕ, ◌+◌, ◌^◌, ◌<◌, ◌≤◌, ◌≡◌, inl, inr, refl, ap, ◌∙◌, arith, false, List, [], ◌∷◌, ◌++◌, length,
  some, none, ok,
}
use server_fw.Prelude.Text.{Bytes, NoZero}
use server_fw.Common.{SrvReq, State}
use server_fw.Common.Strings.{int_max}
use server_fw.Options.{was_set_any, timeout}
use server_fw.Settings.{Settings}
use server_fw.DataMgr.File.{DataMgrFile}
use server_fw.DataMgr.File.Search.{Files}
use server_fw.DataMgr.File.Opening.{find_file, init_of_read}
use server_fw.Session.{Session, was_error, block_size}
use server_fw.Session.Packets.Layout.{smbuf_ex-IsLocal, word}
use server_fw.Session.Packets.Told.{IsTold}
use server_fw.Session.Run.{Env, Input, Loop, start, step, step_in, rounds}
use server_fw.Session.Run.Steps.{prefixed-ok, rounds_none, rounds_one, rounds_two, finish_stays}
use server_fw.Session.Run.Service.{file_env, prepared, ready, no_options}
use server_fw.Session.Run.Safety.{IsReader, IsStopping}
use server_fw.Session.Run.Safety.Ways.{stop_ways, error_packet}
use server_fw.Session.Run.Safety.Total.{rounds-Alive}
use server_fw.Session.Run.Safety.Proper.{AreBlocks, IsFresh, Fresh, FreshStep}
use server_fw.Session.Run.Safety.Sends.{fresh_step}

-- A run and its packets.
abbrev Blocks : Bytes → ℕ → Env → List Input → Loop → Type 0
Blocks content size env is l =
    (l' : Loop) × (p : List Bytes) × (rounds env is l ≡ ok (l', p)) × AreBlocks content size p

finish_Blocks :
    (content : Bytes) (size : ℕ) (env : Env) (is : List Input) (l : Loop)
    → l.session.stat ≡ State.finish
    → Blocks content size env is l
finish_Blocks content size env is l h = (l, [], finish_stays env is l h, tt)

stopping_Blocks :
    (content : Bytes) (size : ℕ) (env : Env) (is : List Input) (l : Loop)
    → IsStopping l
    → Blocks content size env is l
stopping_Blocks content size env [] l v = (l, [], rounds_none env l, tt)
stopping_Blocks content size env (i ∷ is) l v =
    let (l', f, ways) = stop_ways env i l v in
    let rest = finish_stays env is l' f in
    elim ways [
      | inl e ↦ (l', [], rounds_one env i is l e ∙ prefixed-ok [] [] _ rest, tt)
      | inr e ↦ (
        l',
        error_packet l.session ∷ [],
        rounds_one env i is l e ∙ prefixed-ok (error_packet l.session ∷ []) [] _ rest,
        inr (inr (word l.session.error_code ++ (l.session.error_message ++ 0 ∷ []), refl, refl)),
      )
    ]

-- After the rounds of a step, those that follow.
after_step :
    (env : Env) (i : Input) (is : List Input) (l l1 l2 : Loop) (p q : List Bytes)
    → step env i l ≡ ok (l1, p)
    → rounds env is l1 ≡ ok (l2, q)
    → rounds env (i ∷ is) l ≡ ok (l2, p ++ q)
after_step env i is l l1 l2 p q e f = rounds_one env i is l e ∙ prefixed-ok p q (rounds env is l1) f

follow_step :
    (content : Bytes) (size : ℕ) (env : Env) (i : Input) (is : List Input) (l : Loop)
    → ((l' : Loop) → Fresh content size l' → Blocks content size env is l')
    → FreshStep content size env i l
    → Blocks content size env (i ∷ is) l
follow_step content size env i is l later (l1, p, e, inl (z, v)) =
    let (l2, q, f, b) = later l1 v in
    (l2, q, after_step env i is l l1 l2 [] q (e ∙ ap (λ (x : List Bytes). ok (l1, x)) z) f, b)
follow_step content size env i is l later (l1, p, e, inr (inl (x, k, z, b, inl (full, v)))) =
    let (l2, q, f, bs) = later l1 v in
    (
      l2,
      x ∷ q,
      after_step env i is l l1 l2 (x ∷ []) q (e ∙ ap (λ (y : List Bytes). ok (l1, y)) z) f,
      inl (k, b, full, bs),
    )
follow_step content size env i is l later (l1, p, e, inr (inl (x, k, z, b, inr (less, a)))) =
    let (l2, q, f, _) = rounds-Alive env is l1 a in
    (
      l2,
      x ∷ q,
      after_step env i is l l1 l2 (x ∷ []) q (e ∙ ap (λ (y : List Bytes). ok (l1, y)) z) f,
      inr (inl (k, b, less)),
    )
follow_step content size env i is l later (l1, p, e, inr (inr (z, inl v))) =
    let (l2, q, f, b) = stopping_Blocks content size env is l1 v in
    (l2, q, after_step env i is l l1 l2 [] q (e ∙ ap (λ (x : List Bytes). ok (l1, x)) z) f, b)
follow_step content size env i is l later (l1, p, e, inr (inr (z, inr v))) =
    let (l2, q, f, b) = finish_Blocks content size env is l1 v in
    (l2, q, after_step env i is l l1 l2 [] q (e ∙ ap (λ (x : List Bytes). ok (l1, x)) z) f, b)

rounds-AreBlocks :
    (content : Bytes) (size : ℕ) (env : Env) (is : List Input) (l : Loop)
    → length content + size < 2 ^ 63
    → Fresh content size l
    → Blocks content size env is l
rounds-AreBlocks content size env [] l room v = (l, [], rounds_none env l, tt)
rounds-AreBlocks content size env (i ∷ is) l room v =
    follow_step content size env i is l (λ l' w. rounds-AreBlocks content size env is l' room w)
      (fresh_step content size env i l room v)

no_text : (why : Bytes) → length why ≡ 0 → NoZero why × (length why < 100)
no_text [] h = (tt, omega arith)
no_text (x ∷ xs) h = absurd (omega arith)

clean-IsTold : (s : Session) → was_error s ≡ false → IsTold s
unfolding was_error
clean-IsTold s e =
    let (z, b) = no_text s.error_message (ground (arith, e)) in record { text = z; brief = b }

pub ready-IsReader :
    (k : Input) (s : Session) (m : DataMgrFile)
    → m.request_type ≡ SrvReq.read
    → was_error s ≡ false
    → block_size s ≤ 65531
    → s.opt.request_type ≡ SrvReq.read
    → timeout s.opt < int_max
    → IsReader (ready k s m)
ready-IsReader k s m q e b r t =
    let told = clean-IsTold s e in
    record {
      m = m;
      file = refl;
      kind = q;
      local = smbuf_ex-IsLocal;
      roomy = b;
      asked = r;
      limit = t;
      told = record { text = told.text; brief = told.brief };
    }

-- A read request without options, whatever the client sends and however long it is silent: the run
-- is defined, and its packets are full blocks of the file that was found, each under the number that
-- the block has in it, until one is the last block, which ends the file, or until an ERROR packet,
-- after which none follows. Of the packets after the last block nothing is said. The session is new,
-- the sockets work and the file can be opened, its block size fits the buffer, and the timeout is
-- below the largest `int`.
pub read_safe :
    (fs : Files) (st : Settings) (i k : Input) (is : List Input) (s : Session) (file : Bytes)
    → s.stat ≡ State.need_init
    → was_error s ≡ false
    → was_set_any s.opt ≡ false
    → s.opt.request_type ≡ SrvReq.read
    → find_file fs st s.opt.filename ≡ some file
    → fs.open_error file ≡ none
    → length (fs.content file) + block_size s < 2 ^ 63
    → block_size s ≤ 65531
    → 0 < block_size s
    → timeout s.opt < int_max
    → (l : Loop) × (sent : List Bytes) × (rounds (file_env fs st) (i ∷ k ∷ is) (start s)
        ≡ ok (l, sent))
      × AreBlocks (fs.content file) (block_size s) sent
unfolding step_in was_error
read_safe fs st i k is s file h e w r f o n b p t =
    let (got, opens, v0) = init_of_read fs st s.opt file r f o (omega (arith, n)) in
    let m = got.mgr in
    let env = file_env fs st in
    let fresh : IsFresh (fs.content file) (block_size s) 0 (ready k s m) = record {
      reader = ready-IsReader k s m v0.reads.kind e b r t;
      m = m;
      file = refl;
      reading = v0.reads;
      good = v0.good;
      same = v0.same;
      sized = refl;
      nonzero = p;
      no_error = e;
      staged = refl;
    } in
    let (l, sent, run, proper) =
      rounds-AreBlocks (fs.content file) (block_size s) env is (ready k s m) n
        (Fresh.sends refl 0 fresh (omega arith)) in
    (
      l,
      sent,
      rounds_two env i k is (start s)
            (ap (λ (x : State). step_in x env i (start s)) h
              ∙ prepared env s got refl refl h e opens v0.granted v0.silent)
            (no_options k _ refl w r)
          ∙ prefixed-ok [] sent _ run,
      proper,
    )
