-- ===== src/Session/Packets/Layout.antt =====
-- The bytes of each packet that a session builds, from the layouts of RFC 1350 and RFC 2347.
use server_fw.Prelude.{
  ℕ, ◌+◌, ◌/◌, ◌%◌, ◌<◌, ◌≡◌, refl, ap, ◌∙◌, arith, Bool, true, [], ◌∷◌, ◌++◌, List, length,
  length-append, length-replicate, ok, append-nil, subst,
}
use server_fw.Prelude.Text.{Bytes, NoZero}
use server_fw.SmBuf.{until_zero}
use server_fw.SmBuf.Texts.{until_zero-NoZero}
use server_fw.SmBufEx.{SmBufEx, smbuf_ex, clear, Item, int, text}
use server_fw.SmBufEx.Contents.{IsValid, contents, encode_all, AllItems, contents-push_data}
use server_fw.Session.{Session, blk_num_local}
use server_fw.Session.Packets.{pushed, construct_ack, construct_error, undefined_error}

-- The buffer of `run`: 65535 bytes, numbers in network order, texts with their zero.
pub record IsLocal (b : SmBufEx) : Type 0 where
  pub valid : IsValid b
  pub size : length b.buf ≡ 65535
  pub big : b.val_int_bigendian ≡ true
  pub ended : b.val_str_zeroend ≡ true

-- A 16-bit number in network order.
abbrev pub word : ℕ → Bytes
word n = (n / 256 % 256) ∷ (n % 256) ∷ []

pub smbuf_ex-IsLocal : IsLocal (smbuf_ex 0xffff true true)
unfolding smbuf_ex
smbuf_ex-IsLocal = record {
  valid = record { fits = omega (arith, length-replicate {A = ℕ} 65535 0); within = omega arith };
  size = length-replicate {A = ℕ} 65535 0;
  big = refl;
  ended = refl;
}

-- What `pushed` leaves in such a buffer.
pub record Holds (b : SmBufEx) (bytes : Bytes) : Type 0 where
  pub local : IsLocal b
  pub held : contents b ≡ bytes
  pub counted : b.data_size ≡ length bytes

pub clear-Holds : (b : SmBufEx) → IsLocal b → Holds (clear b) []
clear-Holds b l = record {
  local = record {
    valid = record { fits = l.valid.fits; within = omega arith };
    size = l.size;
    big = l.big;
    ended = l.ended;
  };
  held = refl;
  counted = refl;
}

pub pushed-Holds :
    (b : SmBufEx) (bytes : Bytes) (items : List Item)
    → Holds b bytes
    → AllItems items
    → length bytes + length (encode_all true true items) < 65535
    → (c : SmBufEx) × (pushed b items ≡ ok c) × Holds c (bytes ++ encode_all true true items)
pushed-Holds b bytes items h a room =
    let (c, e, p) =
      contents-push_data b items h.local.valid a
        (omega (arith, ap length same, h.local.size, h.counted)) in
    (
      c,
      rw e refl,
      record {
        local = record {
          valid = p.valid;
          size = p.same_size ∙ h.local.size;
          big = p.same_order ∙ h.local.big;
          ended = p.same_end ∙ h.local.ended;
        };
        held =
            p.appended
            ∙ ap (λ (xs : Bytes). xs ++ encode_all b.val_int_bigendian b.val_str_zeroend items)
                h.held
            ∙ ap (◌++◌ bytes) same;
        counted = omega (
          arith,
          p.counted,
          h.counted,
          ap length same,
          length-append bytes (encode_all true true items),
        );
      },
    )
  where
    same : encode_all b.val_int_bigendian b.val_str_zeroend items ≡ encode_all true true items
    same =
        ap (λ (x : Bool). encode_all x b.val_str_zeroend items) h.local.big
        ∙ ap (λ (x : Bool). encode_all true x items) h.local.ended

pub construct_ack-Holds :
    (s : Session) (b : SmBufEx)
    → IsLocal b
    → (c : SmBufEx) × (construct_ack s b ≡ ok c) × Holds c (0 ∷ 4 ∷ word (blk_num_local s))
unfolding construct_ack
construct_ack-Holds s b l =
    pushed-Holds (clear b) [] (int 2 4 ∷ int 2 (blk_num_local s) ∷ []) (clear-Holds b l)
      (refl, (refl, tt)) (omega arith)

pub text_item : (str : Bytes) → NoZero str → encode_all true true (text str ∷ []) ≡ str ++ 0 ∷ []
text_item str z =
    append-nil (until_zero str ++ 0 ∷ [])
    ∙ ap (λ (xs : Bytes). xs ++ 0 ∷ []) (until_zero-NoZero str z)

-- The packet of an error holds its code and its text, ended by a zero; a session without an error
-- takes code 0 and the text "Undefined error" first. The text holds no zero and leaves room in the
-- buffer.
pub construct_error-Holds :
    (s : Session) (b : SmBufEx)
    → IsLocal b
    → NoZero (undefined_error s).error_message
    → length (undefined_error s).error_message < 65530
    → (c : SmBufEx) × (construct_error s b ≡ ok (undefined_error s, c))
      × Holds c (
          0
          ∷ 5
          ∷ (word (undefined_error s).error_code ++ ((undefined_error s).error_message ++ 0 ∷ [])))
unfolding construct_error
construct_error-Holds s b l z h =
    let e = undefined_error s in
    let (c, q, p) =
      pushed-Holds (clear b) [] (int 2 5 ∷ int 2 e.error_code ∷ text e.error_message ∷ [])
        (clear-Holds b l) (refl, (refl, (z, tt)))
        (omega (
          arith,
          ap length (text_item e.error_message z),
          length-append e.error_message (0 ∷ []),
        )) in
    (
      c,
      rw q refl,
      subst (λ (xs : Bytes). Holds c (0 ∷ 5 ∷ (word e.error_code ++ xs)))
          (text_item e.error_message z) p,
    )
