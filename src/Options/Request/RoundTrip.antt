-- ===== src/Options/Request/RoundTrip.antt =====
-- `buffer_parse` of the packet that a client writes, with anything behind it in the buffer.
use server_fw.Prelude.{
  ℕ, suc, ◌+◌, ◌≤◌, ◌≡◌, ◌≢◌, refl, sym, ap, ◌∙◌, arith, true, false, [], ◌∷◌, ◌++◌, length,
  length-append, append_assoc, ◌==◌, Result, ok, ◌>>=◌, le→leb,
}
use server_fw.Prelude.Text.{Bytes, NoZero}
use server_fw.Common.{SrvReq}
use server_fw.Common.Strings.{do_lower}
use server_fw.SmBuf.{get_string, get_be}
use server_fw.SmBuf.Words.{Fits, is_valid_of_le}
use server_fw.Options.{
  Options, options, parse_options, sub_size, buffer_parse, parse_request_type, parse_filename,
  parse_mode, parse_rest, mode_of_name,
}
use server_fw.Options.Request.{
  Pairs, option_bytes, AllNoZero, apply_options, get_string_at, parse_options-option_bytes,
}

abbrev pub op_code : SrvReq → ℕ
op_code SrvReq.unknown = 0
op_code SrvReq.read = 1
op_code SrvReq.write = 2

-- What a client sends: operation, file name, mode and options.
pub record Sent : Type 0 where
  pub kind : SrvReq
  pub filename : Bytes
  pub mode : Bytes
  pub opts : Pairs

abbrev pub packet : Sent → Bytes
packet r = 0 ∷ op_code r.kind ∷ (r.filename ++ 0 ∷ (r.mode ++ 0 ∷ option_bytes r.opts))

pub record IsSent (r : Sent) : Type 0 where
  pub is_request : r.kind ≢ SrvReq.unknown
  pub has_filename : r.filename ≢ []
  pub has_mode : r.mode ≢ []
  pub filename_text : NoZero r.filename
  pub mode_text : NoZero r.mode
  pub opts_text : AllNoZero r.opts

-- The object before the options are read.
abbrev pub plain : Sent → Options
plain r = record options {
  request_type = r.kind;
  filename = r.filename;
  transfer_mode = mode_of_name (do_lower r.mode);
}

pub get_be_op : (op : ℕ) (xs : Bytes) → Fits (0 ∷ op ∷ xs) → get_be 2 (0 ∷ op ∷ xs) 0 ≡ ok op
unfolding get_be
get_be_op op xs f =
    rw (is_valid_of_le (0 ∷ op ∷ xs) 0 2 f (omega arith) (omega arith)) (ap ok (omega arith))

length-le-option_bytes : (opts : Pairs) → length opts ≤ length (option_bytes opts)
length-le-option_bytes [] = omega arith
length-le-option_bytes ((n, v) ∷ r) = omega (
  arith,
  length-append n (0 ∷ (v ++ 0 ∷ option_bytes r)),
  length-append v (0 ∷ option_bytes r),
  length-le-option_bytes r,
)

length-ne-zero : (xs : Bytes) → xs ≢ [] → (length xs == 0) ≡ false
length-ne-zero [] h = absurd (h refl)
length-ne-zero (x ∷ xs) h = ground arith

parse_mode_read :
    (buf : Bytes) (size : ℕ) (o : Options) (pos : ℕ) (m : Bytes)
    → get_string buf pos (sub_size size pos) ≡ ok m
    → m ≢ []
    → parse_mode buf size o pos
      ≡ parse_rest buf size
          (record o { transfer_mode = mode_of_name (do_lower m) })
          (pos + length m + 1)
unfolding parse_mode
parse_mode_read buf size o pos m e h = rw e (rw (length-ne-zero m h))

pub parse_filename_read :
    (buf : Bytes) (size : ℕ) (o : Options) (pos : ℕ) (name : Bytes)
    → get_string buf pos (sub_size size pos) ≡ ok name
    → name ≢ []
    → parse_filename buf size o pos
      ≡ parse_mode buf size (record o { filename = name }) (pos + length name + 1)
unfolding parse_filename
parse_filename_read buf size o pos name e h = rw e (rw (length-ne-zero name h))

pub parse_request_type_read :
    (buf : Bytes) (size : ℕ) (kind : SrvReq)
    → kind ≢ SrvReq.unknown
    → get_be 2 buf 0 ≡ ok (op_code kind)
    → parse_request_type buf size options
      ≡ parse_filename buf size (record options { request_type = kind }) 2
unfolding parse_request_type
parse_request_type_read buf size SrvReq.unknown h e = absurd (h refl)
parse_request_type_read buf size SrvReq.read h e = rw e
parse_request_type_read buf size SrvReq.write h e = rw e

pub buffer_parse_long :
    (buf : Bytes) (size : ℕ)
    → 2 ≤ size
    → buffer_parse buf size ≡ parse_request_type buf size options
unfolding buffer_parse
buffer_parse_long buf size h = rw (le→leb 2 size h)

module _ (r : Sent) (rest : Bytes) (w : IsSent r) (f : Fits (packet r ++ rest)) where
  buf : Bytes
  buf = packet r ++ rest

  size : ℕ
  size = length (packet r)

  before_mode : Bytes
  before_mode = 0 ∷ op_code r.kind ∷ (r.filename ++ 0 ∷ [])

  before_opts : Bytes
  unfolding before_mode
  before_opts = before_mode ++ (r.mode ++ 0 ∷ [])

  abbrev mode_pos : ℕ
  mode_pos = 2 + length r.filename + 1

  abbrev opts_pos : ℕ
  opts_pos = mode_pos + length r.mode + 1

  size_lem : size ≡ opts_pos + length (option_bytes r.opts)
  unfolding size
  size_lem = omega (
    arith,
    length-append r.filename (0 ∷ (r.mode ++ 0 ∷ option_bytes r.opts)),
    length-append r.mode (0 ∷ option_bytes r.opts),
  )

  length-before_mode : length before_mode ≡ mode_pos
  unfolding before_mode
  length-before_mode = omega (arith, length-append r.filename (0 ∷ []))

  length-before_opts : length before_opts ≡ opts_pos
  unfolding before_opts
  length-before_opts = omega (
    arith,
    length-append before_mode (r.mode ++ 0 ∷ []),
    length-append r.mode (0 ∷ []),
    length-before_mode,
  )

  size-le : size ≤ length buf
  unfolding size buf
  size-le = omega (arith, length-append (packet r) rest)

  read_op : get_be 2 buf 0 ≡ ok (op_code r.kind)
  unfolding buf
  read_op = get_be_op (op_code r.kind) _ f

  read_filename : get_string buf 2 (sub_size size 2) ≡ ok r.filename
  unfolding buf
  read_filename =
      get_string_at buf (0 ∷ op_code r.kind ∷ []) r.filename
        ((r.mode ++ 0 ∷ option_bytes r.opts) ++ rest) size 2 (simp append_assoc) refl f
        w.filename_text (omega (arith, size_lem)) size-le

  read_mode : get_string buf mode_pos (sub_size size mode_pos) ≡ ok r.mode
  unfolding buf before_mode
  read_mode =
      get_string_at buf before_mode r.mode (option_bytes r.opts ++ rest) size mode_pos
        (simp append_assoc) (sym length-before_mode) f w.mode_text (omega (arith, size_lem)) size-le

  read_opts : parse_options (suc size) buf size (plain r) opts_pos ≡ apply_options (plain r) r.opts
  unfolding buf before_opts
  read_opts =
      parse_options-option_bytes r.opts (suc size) buf size before_opts rest (plain r) opts_pos
        (simp append_assoc) (omega (arith, size_lem, length-before_opts)) (sym length-before_opts) f
        w.opts_text (omega (arith, size_lem, length-le-option_bytes r.opts))

  -- The packet of a read or write request with a name, a mode and any options, none of them with
  -- a zero byte, is parsed to exactly these: the mode is recognised in any case, and the options
  -- take effect in the order of the packet, the last one of a name winning, numbers only; if one
  -- value is too large for an `int`, the parse throws. What stands behind the packet is not read.
  pub buffer_parse-packet :
      buffer_parse (packet r ++ rest) (length (packet r))
      ≡ (apply_options (plain r) r.opts >>= λ o. ok (true, o))
  unfolding parse_rest buf size
  buffer_parse-packet =
      buffer_parse_long buf size (omega arith)
      ∙ parse_request_type_read buf size r.kind w.is_request read_op
      ∙ parse_filename_read buf size _ 2 r.filename read_filename w.has_filename
      ∙ parse_mode_read buf size _ mode_pos r.mode read_mode w.has_mode
      ∙ ap (λ (p : Result Options). p >>= λ o. ok (true, o)) read_opts
