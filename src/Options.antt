-- ===== src/Options.antt =====
-- source/tftpOptions.h and source/tftpOptions.cpp: class `Options`, the parsed request of a client.
-- The logging callback of `buffer_parse` changes nothing and is left out. Positions are sums of
-- lengths of texts read from one buffer, so they stay below 2 ^ 64; a difference may wrap.
pub mod Request
pub mod Refusals
pub mod Accepted
use server_fw.Prelude.{
  ℕ, zero, suc, ◌+◌, ◌-◌, ◌%◌, Bool, true, false, ◌||◌, [], ◌∷◌, length, ltb, leb, ◌==◌,
  if◌then◌else◌, Result, ok, err, ◌>>=◌, no_fuel,
}
use server_fw.Prelude.Text.{Bytes, codes, text_eq}
use server_fw.Common.{SrvReq, TransfMode}
use server_fw.Common.Strings.{do_lower, is_digit_str, stoi_digits}
use server_fw.SmBuf.{size_mod, get_be, get_string}

-- `OptInt`: whether the option was given, and its value.
abbrev pub OptInt : Type 0
OptInt = Bool × ℕ

pub record Options : Type 0 where
  pub request_type : SrvReq
  pub filename : Bytes
  pub transfer_mode : TransfMode
  pub blksize_opt : OptInt
  pub timeout_opt : OptInt
  pub tsize_opt : OptInt
  pub windowsize_opt : OptInt

abbrev pub dflt_blksize : ℕ
dflt_blksize = 512

abbrev pub dflt_timeout : ℕ
dflt_timeout = 10

abbrev pub dflt_tsize : ℕ
dflt_tsize = 0

abbrev pub dflt_windowsize : ℕ
dflt_windowsize = 1

-- The default constructor.
abbrev pub options : Options
options = record {
  request_type = SrvReq.unknown;
  filename = [];
  transfer_mode = TransfMode.unknown;
  blksize_opt = (false, dflt_blksize);
  timeout_opt = (false, dflt_timeout);
  tsize_opt = (false, dflt_tsize);
  windowsize_opt = (false, dflt_windowsize);
}

abbrev pub blksize : Options → ℕ
blksize o = o.blksize_opt.1

abbrev pub timeout : Options → ℕ
timeout o = o.timeout_opt.1

abbrev pub tsize : Options → ℕ
tsize o = o.tsize_opt.1

abbrev pub windowsize : Options → ℕ
windowsize o = o.windowsize_opt.1

abbrev pub was_set_blksize : Options → Bool
was_set_blksize o = o.blksize_opt.0

abbrev pub was_set_timeout : Options → Bool
was_set_timeout o = o.timeout_opt.0

abbrev pub was_set_tsize : Options → Bool
was_set_tsize o = o.tsize_opt.0

abbrev pub was_set_windowsize : Options → Bool
was_set_windowsize o = o.windowsize_opt.0

abbrev pub was_set_any : Options → Bool
was_set_any o = was_set_blksize o || was_set_timeout o || was_set_tsize o || was_set_windowsize o

abbrev pub name_blksize : Bytes
name_blksize = codes "blksize"

abbrev pub name_timeout : Bytes
name_timeout = codes "timeout"

abbrev pub name_tsize : Bytes
name_tsize = codes "tsize"

abbrev pub name_windowsize : Bytes
name_windowsize = codes "windowsize"

-- The outcome of a parse: the result and the object.
abbrev pub Parsed : Type 0
Parsed = Result (Bool × Options)

-- The difference of two `size_t`.
abbrev pub sub_size : ℕ → ℕ → ℕ
sub_size a b = (a + size_mod - b) % size_mod

-- The chain of comparisons of a lowered mode name.
unfoldable pub mode_of_name : Bytes → TransfMode
mode_of_name curr_mod =
    if text_eq curr_mod (codes "netascii")
    then TransfMode.netascii
    else if text_eq curr_mod (codes "octet")
    then TransfMode.octet
    else if text_eq curr_mod (codes "binary")
    then TransfMode.binary
    else if text_eq curr_mod (codes "mail")
    then TransfMode.mail
    else TransfMode.unknown

-- The chain of comparisons of a lowered option name, at a value.
unfoldable pub set_option : Options → Bytes → ℕ → Options
set_option o str_opt val =
    if text_eq str_opt name_blksize
    then record o { blksize_opt = (true, val) }
    else if text_eq str_opt name_timeout
    then record o { timeout_opt = (true, val) }
    else if text_eq str_opt name_tsize
    then record o { tsize_opt = (true, val) }
    else if text_eq str_opt name_windowsize
    then record o { windowsize_opt = (true, val) }
    else o

-- One option: a value that is no number is passed over, one that is no `int` throws.
unfoldable pub apply_option : Options → Bytes → Bytes → Result Options
apply_option o str_opt str_val =
    if is_digit_str str_val
    then stoi_digits str_val >>= (λ val. ok (set_option o (do_lower str_opt) val))
    else ok o

-- The loop over the options, on fuel.
unfoldable pub parse_options : ℕ → Bytes → ℕ → Options → ℕ → Result Options
parse_options zero buf buf_size o curr_pos = err no_fuel
parse_options (suc fuel) buf buf_size o curr_pos = elim (ltb curr_pos buf_size) [
  | false ↦ ok o
  | true ↦ do
    str_opt ← get_string buf curr_pos (sub_size buf_size curr_pos)
    let val_pos = curr_pos + length str_opt + 1
    elim (leb buf_size val_pos) [
      | true ↦ ok o
      | false ↦ do
        str_val ← get_string buf val_pos (sub_size buf_size val_pos)
        o' ← apply_option o str_opt str_val
        parse_options fuel buf buf_size o' (val_pos + length str_val + 1)
    ]
]

pub parse_rest : Bytes → ℕ → Options → ℕ → Parsed
parse_rest buf buf_size o curr_pos = do
  o' ← parse_options (suc buf_size) buf buf_size o curr_pos
  ok (true, o')

-- The transfer mode, and what follows it.
pub parse_mode : Bytes → ℕ → Options → ℕ → Parsed
unfolding parse_rest
parse_mode buf buf_size o curr_pos = do
  curr_mod ← get_string buf curr_pos (sub_size buf_size curr_pos)
  if length curr_mod == 0
      then ok (false, o)
      else parse_rest buf buf_size (record o { transfer_mode = mode_of_name (do_lower curr_mod) })
          (curr_pos + length curr_mod + 1)

-- The file name, and what follows it.
pub parse_filename : Bytes → ℕ → Options → ℕ → Parsed
unfolding parse_mode
parse_filename buf buf_size o curr_pos = do
  filename ← get_string buf curr_pos (sub_size buf_size curr_pos)
  if length filename == 0
      then ok (false, record o { filename = filename })
      else parse_mode buf buf_size (record o { filename = filename })
          (curr_pos + length filename + 1)

-- The request type, and what follows it.
pub parse_request_type : Bytes → ℕ → Options → Parsed
unfolding parse_filename
parse_request_type buf buf_size o = do
  rq_type ← get_be 2 buf 0
  if rq_type == 1
      then parse_filename buf buf_size (record o { request_type = SrvReq.read }) 2
      else if rq_type == 2
      then parse_filename buf buf_size (record o { request_type = SrvReq.write }) 2
      else ok (false, o)

unfoldable pub buffer_parse : Bytes → ℕ → Parsed
unfolding parse_request_type
buffer_parse buf buf_size =
    if leb 2 buf_size then parse_request_type buf buf_size options else ok (false, options)
