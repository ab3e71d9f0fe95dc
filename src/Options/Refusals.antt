-- ===== src/Options/Refusals.antt =====
-- How `buffer_parse` ends on packets that are no well-formed request.
use server_fw.Prelude.{
  ℕ, zero, suc, ◌+◌, ◌-◌, ◌<◌, ◌≤◌, ◌≡◌, ◌≢◌, ◌⊎◌, inl, inr, refl, ap, ◌∙◌, arith, true, false, [],
  ◌∷◌, ◌++◌, length, length-append, ltb, leb, if◌then◌else◌, Bool-cases, ltb→lt, Result, ok, err,
  ◌>>=◌, >>=-eq-ok, Fault, out_of_range, undefined, invalid_argument, no_fuel, take,
}
use server_fw.Prelude.Text.{Bytes, NoZero}
use server_fw.Common.{SrvReq}
use server_fw.Common.Strings.{do_lower, is_digit_str, stoi_digits, digits_value, int_max}
use server_fw.SmBuf.{get_string, get_be, is_valid, until_zero}
use server_fw.SmBuf.Words.{Fits}
use server_fw.SmBuf.Texts.{get_string_within}
use server_fw.Options.{
  Options, options, apply_option, parse_options, sub_size, buffer_parse, parse_mode, parse_filename,
  parse_rest, mode_of_name,
}
use server_fw.Options.Request.{Pairs, apply_options}
use server_fw.Options.Request.RoundTrip.{
  op_code, Sent, packet, IsSent, plain, buffer_parse-packet, buffer_parse_long, get_be_op,
  parse_request_type_read, parse_filename_read,
}

pub apply_options-append :
    (before after : Pairs) (o o' : Options)
    → apply_options o before ≡ ok o'
    → apply_options o (before ++ after) ≡ apply_options o' after
apply_options-append [] after o o' e = ground arith
apply_options-append ((n, v) ∷ r) after o o' e =
    let (o'', q, e') = >>=-eq-ok (apply_option o n v) (λ m. apply_options m r) e in
    rw q (apply_options-append r after o'' o' e')

apply_option_overflow :
    (o : Options) (n v : Bytes)
    → is_digit_str v ≡ true
    → int_max < digits_value 0 v
    → apply_option o n v ≡ err out_of_range
unfolding apply_option stoi_digits
apply_option_overflow o n v d h = ground arith

-- A well-formed request in which one option, known or not, has a number above the largest `int` for
-- its value makes the parse throw `std::out_of_range`, whatever follows; the values before it are
-- such that their options are read without a throw.
pub buffer_parse_overflow :
    (r : Sent) (rest : Bytes) (before after : Pairs) (n v : Bytes) (o : Options)
    → IsSent r
    → Fits (packet r ++ rest)
    → r.opts ≡ before ++ (n, v) ∷ after
    → apply_options (plain r) before ≡ ok o
    → is_digit_str v ≡ true
    → int_max < digits_value 0 v
    → buffer_parse (packet r ++ rest) (length (packet r)) ≡ err out_of_range
buffer_parse_overflow r rest before after n v o w f e b d h =
    buffer_parse-packet r rest w f
    ∙ ap (λ (m : Result Options). m >>= λ o. ok (true, o))
        (ap (apply_options (plain r)) e
          ∙ apply_options-append before ((n, v) ∷ after) (plain r) o b
          ∙ ap (λ (m : Result Options). m >>= λ o'. apply_options o' after)
              (apply_option_overflow o n v d h))

-- A packet shorter than its operation, or with an operation that is neither a read nor a write, is
-- refused with the object as it is constructed.
pub buffer_parse_no_request :
    (buf : Bytes) (size : ℕ)
    → (size < 2) ⊎ ((op : ℕ) × (get_be 2 buf 0 ≡ ok op) × (op ≢ 1) × (op ≢ 2))
    → buffer_parse buf size ≡ ok (false, options)
unfolding buffer_parse
buffer_parse_no_request buf size (inl h) = ground arith
buffer_parse_no_request buf size (inr (op, e, a, b)) = ground arith

-- The end that a read behind the packet has: the length wraps around.
abbrev pub overrun : Bytes → ℕ → Fault
overrun buf size = if ltb (size + 1) (length buf) then undefined else invalid_argument

get_string-overrun :
    (buf : Bytes) (size : ℕ)
    → Fits buf
    → size ≤ length buf
    → get_string buf (size + 1) (sub_size size (size + 1)) ≡ err (overrun buf size)
unfolding get_string is_valid
get_string-overrun buf size f h = ground arith

until_zero-take_all :
    (str rest : Bytes) → NoZero str → until_zero (take (length str) (str ++ rest)) ≡ str
until_zero-take_all [] rest z = refl
until_zero-take_all (c ∷ cs) rest z = ground (arith, until_zero-take_all cs rest z.1)

parse_mode-overrun :
    (buf : Bytes) (size : ℕ) (o : Options)
    → Fits buf
    → size ≤ length buf
    → parse_mode buf size o (size + 1) ≡ err (overrun buf size)
unfolding parse_mode
parse_mode-overrun buf size o f h = rw (get_string-overrun buf size f h)

pos_length : (xs : Bytes) → xs ≢ [] → 0 < length xs
pos_length [] h = absurd (h refl)
pos_length (x ∷ xs) h = omega arith

-- A read or write request whose file name is not ended by a zero within the packet never parses:
-- the mode is looked for behind the packet's end with a length that wraps around, and the call has
-- no defined behaviour, or throws `std::invalid_argument` where the packet fills the buffer.
pub buffer_parse_unterminated :
    (kind : SrvReq) (name rest : Bytes)
    → kind ≢ SrvReq.unknown
    → name ≢ []
    → NoZero name
    → Fits (0 ∷ op_code kind ∷ (name ++ rest))
    → let buf = 0 ∷ op_code kind ∷ (name ++ rest) in
      buffer_parse buf (2 + length name) ≡ err (overrun buf (2 + length name))
buffer_parse_unterminated kind name rest k ne z f =
    buffer_parse_long buf size (omega arith)
    ∙ parse_request_type_read buf size kind k (get_be_op (op_code kind) _ f)
    ∙ parse_filename_read buf size _ 2 name read_name ne
    ∙ parse_mode-overrun buf size _ f (omega (arith, length-append name rest))
  where
    buf : Bytes
    buf = 0 ∷ op_code kind ∷ (name ++ rest)

    size : ℕ
    size = 2 + length name

    read_name : get_string buf 2 (sub_size size 2) ≡ ok name
    read_name =
        ap (λ (k : ℕ). get_string buf 2 k) (omega (arith, length-append name rest))
        ∙ get_string_within buf 2 (length name) f (pos_length name ne)
            (omega (arith, length-append name rest))
        ∙ ap ok (until_zero-take_all name rest z)

bind-ne-no_fuel {ℓ κ} :
    {A : Type ℓ} {B : Type κ} (m : Result A) (g : A → Result B)
    → m ≢ err no_fuel
    → ((a : A) → g a ≢ err no_fuel)
    → (m >>= g) ≢ err no_fuel
bind-ne-no_fuel (ok a) g h k e = k a e
bind-ne-no_fuel (err x) g h k e = h cc

get_string-ne-no_fuel : (buf : Bytes) (pos n : ℕ) → get_string buf pos n ≢ err no_fuel
unfolding get_string
get_string-ne-no_fuel buf pos n = ground arith

get_be-ne-no_fuel : (n : ℕ) (buf : Bytes) (pos : ℕ) → get_be n buf pos ≢ err no_fuel
unfolding get_be
get_be-ne-no_fuel n buf pos = ground arith

apply_option-ne-no_fuel : (o : Options) (n v : Bytes) → apply_option o n v ≢ err no_fuel
unfolding apply_option stoi_digits
apply_option-ne-no_fuel o n v = ground arith

parse_options_fuel :
    (fuel : ℕ) (buf : Bytes) (size : ℕ) (o : Options) (pos : ℕ)
    → size - pos < fuel
    → parse_options fuel buf size o pos ≢ err no_fuel
unfolding parse_options
parse_options_fuel zero buf size o pos h = absurd (omega arith)
parse_options_fuel (suc fuel) buf size o pos h = elim (Bool-cases (ltb pos size)) [
  | inr out ↦ ground arith
  | inl more ↦
      rw (more, parse_options)
        (bind-ne-no_fuel (get_string buf pos (sub_size size pos)) _
          (get_string-ne-no_fuel buf pos _)
          λ n. elim (Bool-cases (leb size (pos + length n + 1))) [
            | inl last ↦ rw last (λ e. cc)
            | inr next ↦ rw next (
                bind-ne-no_fuel (get_string buf (pos + length n + 1) _) _
                  (get_string-ne-no_fuel buf _ _)
                  λ v. bind-ne-no_fuel (apply_option o n v) _ (apply_option-ne-no_fuel o n v) λ o'.
                    parse_options_fuel fuel buf size o' (pos + length n + 1 + length v + 1)
                      (omega (arith, ltb→lt pos size more)))
          ])
]

parse_rest-ne-no_fuel :
    (buf : Bytes) (size : ℕ) (o : Options) (pos : ℕ) → parse_rest buf size o pos ≢ err no_fuel
unfolding parse_rest
parse_rest-ne-no_fuel buf size o pos =
    bind-ne-no_fuel (parse_options (suc size) buf size o pos) _
      (parse_options_fuel (suc size) buf size o pos (omega arith)) λ o' e. cc

parse_mode-ne-no_fuel :
    (buf : Bytes) (size : ℕ) (o : Options) (pos : ℕ) → parse_mode buf size o pos ≢ err no_fuel
unfolding parse_mode
parse_mode-ne-no_fuel buf size o pos =
    bind-ne-no_fuel (get_string buf pos (sub_size size pos)) _ (get_string-ne-no_fuel buf pos _)
      λ m. ground (
        arith,
        parse_rest-ne-no_fuel buf size (record o { transfer_mode = mode_of_name (do_lower m) })
            (pos + length m + 1),
      )

parse_filename-ne-no_fuel :
    (buf : Bytes) (size : ℕ) (o : Options) (pos : ℕ) → parse_filename buf size o pos ≢ err no_fuel
unfolding parse_filename
parse_filename-ne-no_fuel buf size o pos =
    bind-ne-no_fuel (get_string buf pos (sub_size size pos)) _ (get_string-ne-no_fuel buf pos _)
      λ m.
        ground
          (arith, parse_mode-ne-no_fuel buf size (record o { filename = m }) (pos + length m + 1))

-- The parse of every packet ends: the loop over the options needs no more rounds than the packet
-- has bytes, and one.
pub buffer_parse-ne-no_fuel : (buf : Bytes) (size : ℕ) → buffer_parse buf size ≢ err no_fuel
unfolding buffer_parse
buffer_parse-ne-no_fuel buf size = elim (Bool-cases (leb 2 size)) [
  | inr short ↦ rw short (λ e. cc)
  | inl long ↦ rw long (
      bind-ne-no_fuel (get_be 2 buf 0) _ (get_be-ne-no_fuel 2 buf 0) λ op. ground (
        arith,
        parse_filename-ne-no_fuel buf size (record options { request_type = SrvReq.read }) 2,
        parse_filename-ne-no_fuel buf size (record options { request_type = SrvReq.write }) 2,
      ))
]
