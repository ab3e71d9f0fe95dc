-- ===== src/DataMgr/File/Appending.antt =====
-- source/tftpDataMgrFile.cpp: blocks that `write` puts at the end of the file.
use server_fw.Prelude.{
  ℕ, ◌+◌, ◌-◌, ◌^◌, ◌<◌, ◌≡◌, ◌≢◌, refl, sym, ap, ◌∙◌, arith, true, [], ◌∷◌, ◌++◌, length, drop,
  replicate, append-nil, ok, some, none,
}
use server_fw.Prelude.Text.{Bytes}
use server_fw.DataMgr.Streams.{seekp, write_out, overwrite}
use server_fw.DataMgr.File.{DataMgrFile, WriteOut, write}
use server_fw.DataMgr.File.Blocks.{
  IsWriting, pos_length, take-all, drop-all, write_lem, write-IsWriting,
}

gone : (n : ℕ) → n - n ≡ 0
gone n = omega arith

overwrite-length :
    (content block : Bytes) (p : ℕ)
    → p ≡ length content
    → overwrite content p block ≡ content ++ block
overwrite-length content block p e =
    ap (λ (n : ℕ). overwrite content n block) e
    ∙ ap
        (λ (xs : Bytes).
          (xs ++ replicate (length content - length content) 0)
          ++ (block ++ drop (length content + length block) content))
        (take-all (length content) content (omega arith))
    ∙ ap
        (λ (n : ℕ).
          (content ++ replicate n 0) ++ (block ++ drop (length content + length block) content))
        (gone (length content))
    ∙ ap (λ (xs : Bytes). (content ++ []) ++ (block ++ xs))
        (drop-all (length content + length block) content (omega arith))
    ∙ ap (λ (xs : Bytes). xs ++ (block ++ [])) (append-nil content)
    ∙ ap (λ (xs : Bytes). content ++ xs) (append-nil block)

write_nil :
    (m : DataMgrFile) (position : ℕ)
    → IsWriting m
    → write true m [] position ≡ ok (record { result = some 0; mgr = m; report = none })
unfolding write
write_nil m position w = ground arith

write-filename :
    (m : DataMgrFile) (block : Bytes) (position : ℕ) {out : WriteOut}
    → IsWriting m
    → block ≢ []
    → position + length block < 2 ^ 63
    → write true m block position ≡ ok out
    → out.mgr.filename ≡ m.filename
unfolding write seekp write_out
write-filename m block position {out} w h p e = ground (arith, pos_length block h)

-- What a write at the end of the file leaves.
pub record Appended (m : DataMgrFile) (block : Bytes) (out : WriteOut) : Type 0 where
  pub writing : IsWriting out.mgr
  pub appended : out.mgr.file_out.content ≡ m.file_out.content ++ block
  pub counted : out.result ≡ some (length block)
  pub same_name : out.mgr.filename ≡ m.filename
  pub silent : out.report ≡ none

-- A block, which may be empty, that is written at the end of the file is appended to it.
pub write-Appended :
    (m : DataMgrFile) (block : Bytes) (position : ℕ)
    → IsWriting m
    → position ≡ length m.file_out.content
    → position + length block < 2 ^ 63
    → (out : WriteOut) × (write true m block position ≡ ok out) × Appended m block out
write-Appended m [] position w e h = (
  record { result = some 0; mgr = m; report = none },
  write_nil m position w,
  record {
    writing = w;
    appended = sym (append-nil _);
    counted = refl;
    same_name = refl;
    silent = refl;
  },
)
write-Appended m (x ∷ xs) position w e h =
    let (out, p, q, content, _, _, silent) =
      write_lem m (x ∷ xs) position w (λ q. absurd (omega (arith, ap length q))) (omega arith) in
    (
      out,
      p,
      record {
        writing =
            write-IsWriting m (x ∷ xs) position w (λ q. absurd (omega (arith, ap length q))) h p;
        appended = content ∙ overwrite-length m.file_out.content (x ∷ xs) position e;
        counted = q;
        same_name =
            write-filename m (x ∷ xs) position w (λ q. absurd (omega (arith, ap length q))) h p;
        silent = silent;
      },
    )
