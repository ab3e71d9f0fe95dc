-- ===== src/Session/Packets/Reply.antt =====
-- The confirmation of options: its bytes, and what a reader of it gets.
use server_fw.Prelude.{
  ℕ, ◌+◌, ◌<◌, ◌≤◌, ◌≡◌, refl, sym, ap, ◌∙◌, arith, true, false, [], ◌∷◌, ◌++◌, length,
  length-append, ok, append-nil, append_assoc, subst, if◌then◌else◌, ltb,
}
use server_fw.Prelude.Text.{Bytes, NoZero, text_eq}
use server_fw.Common.Strings.{int_max, do_lower}
use server_fw.Common.Strings.Decimal.{
  to_string, NoZero-to_string, length-to_string, is_digit_str-to_string, stoi_digits-to_string,
}
use server_fw.Options.{
  Options, options, OptInt, name_blksize, name_timeout, name_tsize, name_windowsize, was_set_any,
  apply_option, set_option, dflt_blksize, dflt_timeout, dflt_tsize, dflt_windowsize,
}
use server_fw.Options.Refusals.{apply_options-append}
use server_fw.Options.Request.{Pairs, option_bytes, apply_options}
use server_fw.SmBufEx.{SmBufEx, clear, int, text}
use server_fw.SmBufEx.Contents.{encode_all}
use server_fw.Session.Packets.{pushed, push_option, construct_opt_reply}
use server_fw.Session.Packets.Layout.{IsLocal, Holds, clear-Holds, pushed-Holds, text_item}

-- An option in the reply.
abbrev pair : OptInt → Bytes → Pairs
pair (true, value) name = (name, to_string value) ∷ []
pair (false, value) name = []

abbrev pub reply_pairs : Options → Pairs
reply_pairs o =
    pair o.blksize_opt name_blksize
    ++ (pair o.timeout_opt name_timeout
        ++ (pair o.tsize_opt name_tsize ++ pair o.windowsize_opt name_windowsize))

-- The values are those of an `int`.
pub record AreInts (o : Options) : Type 0 where
  pub blksize_int : o.blksize_opt.1 ≤ int_max
  pub timeout_int : o.timeout_opt.1 ≤ int_max
  pub tsize_int : o.tsize_opt.1 ≤ int_max
  pub windowsize_int : o.windowsize_opt.1 ≤ int_max

option_bytes-append : (p q : Pairs) → option_bytes (p ++ q) ≡ option_bytes p ++ option_bytes q
option_bytes-append [] q = refl
option_bytes-append ((n, v) ∷ r) q = simp (option_bytes-append r q, append_assoc)

push_option-Holds :
    (b : SmBufEx) (bytes : Bytes) (opt : OptInt) (name : Bytes)
    → Holds b bytes
    → NoZero name
    → length name ≤ 10
    → opt.1 ≤ int_max
    → length bytes < 65000
    → (c : SmBufEx) × (push_option opt.0 name opt.1 b ≡ ok c)
      × Holds c (bytes ++ option_bytes (pair opt name))
      × (length (bytes ++ option_bytes (pair opt name)) ≤ length bytes + 22)
push_option-Holds b bytes (false, value) name h z n v room =
    (b, refl, rw append-nil h, omega (arith, ap length (append-nil bytes)))
push_option-Holds b bytes (true, value) name h z n v room =
    let value_text = to_string value in
    let (c, e, p) =
      pushed-Holds b bytes (text name ∷ []) h (z, tt)
        (omega (arith, ap length (text_item name z), length-append name (0 ∷ []))) in
    let q = subst (λ (xs : Bytes). Holds c (bytes ++ xs)) (text_item name z) p in
    let (c', e', p') =
      pushed-Holds c (bytes ++ (name ++ 0 ∷ [])) (text value_text ∷ []) q
        (NoZero-to_string value, tt) room' in
    (c', rw e e', subst (Holds c') whole p', omega (arith, ap length whole, size, digits))
  where
    digits : length (to_string value) ≤ 10
    digits = length-to_string value v

    whole :
        (bytes ++ (name ++ 0 ∷ [])) ++ encode_all true true (text (to_string value) ∷ [])
        ≡ bytes ++ (name ++ 0 ∷ (to_string value ++ 0 ∷ []))
    whole =
        ap (◌++◌ (bytes ++ (name ++ 0 ∷ []))) (text_item (to_string value) (NoZero-to_string value))
        ∙ simp append_assoc

    size :
        length (bytes ++ (name ++ 0 ∷ (to_string value ++ 0 ∷ [])))
        ≡ length bytes + length name + length (to_string value) + 2
    size = omega (
      arith,
      length-append bytes (name ++ 0 ∷ (to_string value ++ 0 ∷ [])),
      length-append name (0 ∷ (to_string value ++ 0 ∷ [])),
      length-append (to_string value) (0 ∷ []),
    )

    room' :
        length (bytes ++ (name ++ 0 ∷ []))
          + length (encode_all true true (text (to_string value) ∷ []))
        < 65535
    room' = omega (
      arith,
      digits,
      length-append bytes (name ++ 0 ∷ []),
      length-append name (0 ∷ []),
      ap length (text_item (to_string value) (NoZero-to_string value)),
      length-append (to_string value) (0 ∷ []),
    )

data_size_four :
    (b : SmBufEx) (bytes : Bytes)
    → Holds b bytes
    → 4 ≤ length bytes
    → (if ltb b.data_size 4 then clear b else b) ≡ b
data_size_four b bytes h k = ground (arith, h.counted)

construct_opt_reply_steps :
    (o : Options) (b b0 b1 b2 b3 b4 : SmBufEx) (bytes : Bytes)
    → pushed (clear b) (int 2 6 ∷ []) ≡ ok b0
    → push_option o.blksize_opt.0 name_blksize o.blksize_opt.1 b0 ≡ ok b1
    → push_option o.timeout_opt.0 name_timeout o.timeout_opt.1 b1 ≡ ok b2
    → push_option o.tsize_opt.0 name_tsize o.tsize_opt.1 b2 ≡ ok b3
    → push_option o.windowsize_opt.0 name_windowsize o.windowsize_opt.1 b3 ≡ ok b4
    → Holds b4 bytes
    → 4 ≤ length bytes
    → construct_opt_reply o b ≡ ok b4
unfolding construct_opt_reply
construct_opt_reply_steps o b b0 b1 b2 b3 b4 bytes e0 e1 e2 e3 e4 h k =
    rw e0 (rw e1 (rw e2 (rw e3 (rw e4 (ap ok (data_size_four b4 bytes h k))))))

reply_bytes :
    (o : Options)
    → (((0 ∷ 6 ∷ [] ++ option_bytes (pair o.blksize_opt name_blksize))
            ++ option_bytes (pair o.timeout_opt name_timeout))
          ++ option_bytes (pair o.tsize_opt name_tsize))
        ++ option_bytes (pair o.windowsize_opt name_windowsize)
      ≡ 0 ∷ 6 ∷ option_bytes (reply_pairs o)
reply_bytes o = simp (option_bytes-append, append_assoc)

pair_size :
    (opt : OptInt) (name : Bytes) (rest : Bytes)
    → opt.0 ≡ true
    → 2 ≤ length (option_bytes (pair opt name) ++ rest)
pair_size (true, v) name rest h = omega (
  arith,
  length-append (name ++ 0 ∷ (to_string v ++ 0 ∷ [])) rest,
  length-append name (0 ∷ (to_string v ++ 0 ∷ [])),
  length-append (to_string v) (0 ∷ []),
)
pair_size (false, v) name rest h = cc

reply_size :
    (o : Options) → was_set_any o ≡ true → 4 ≤ length (0 ∷ 6 ∷ option_bytes (reply_pairs o))
reply_size o h = ground arith

-- A reply to options that were set: the operation 6, then the name and the value of each option that
-- was set, in a fixed order, each with its zero. The values are those of an `int`.
pub construct_opt_reply-Holds :
    (o : Options) (b : SmBufEx)
    → IsLocal b
    → AreInts o
    → was_set_any o ≡ true
    → (c : SmBufEx) × (construct_opt_reply o b ≡ ok c)
      × Holds c (0 ∷ 6 ∷ option_bytes (reply_pairs o))
construct_opt_reply-Holds o b l v any =
    let (b0, e0, h0) =
      pushed-Holds (clear b) [] (int 2 6 ∷ []) (clear-Holds b l) (refl, tt) (omega arith) in
    let (b1, e1, h1, s1) =
      push_option-Holds b0 (0 ∷ 6 ∷ []) o.blksize_opt name_blksize h0 (omega arith) (omega arith)
        v.blksize_int (omega arith) in
    let (b2, e2, h2, s2) =
      push_option-Holds b1 _ o.timeout_opt name_timeout h1 (omega arith) (omega arith) v.timeout_int
        (omega (arith, s1)) in
    let (b3, e3, h3, s3) =
      push_option-Holds b2 _ o.tsize_opt name_tsize h2 (omega arith) (omega arith) v.tsize_int
        (omega (arith, s1, s2)) in
    let (b4, e4, h4, s4) =
      push_option-Holds b3 _ o.windowsize_opt name_windowsize h3 (omega arith) (omega arith)
        v.windowsize_int (omega (arith, s1, s2, s3)) in
    (
      b4,
      construct_opt_reply_steps o b b0 b1 b2 b3 b4 _ e0 e1 e2 e3 e4
          (subst (Holds b4) (reply_bytes o) h4) (reply_size o any),
      subst (Holds b4) (reply_bytes o) h4,
    )

-- The options as a reader of the reply takes them, who starts from the defaults.
pub record IsNegotiated (o : Options) : Type 0 where
  pub blksize_dflt : o.blksize_opt.0 ≡ false → o.blksize_opt.1 ≡ dflt_blksize
  pub timeout_dflt : o.timeout_opt.0 ≡ false → o.timeout_opt.1 ≡ dflt_timeout
  pub tsize_dflt : o.tsize_opt.0 ≡ false → o.tsize_opt.1 ≡ dflt_tsize
  pub windowsize_dflt : o.windowsize_opt.0 ≡ false → o.windowsize_opt.1 ≡ dflt_windowsize

apply-blksize :
    (o : Options) (opt : OptInt)
    → opt.1 ≤ int_max
    → (opt.0 ≡ false → o.blksize_opt ≡ opt)
    → apply_options o (pair opt name_blksize) ≡ ok (record o { blksize_opt = opt })
unfolding apply_option set_option text_eq do_lower
apply-blksize o (true, v) h k = rw (is_digit_str-to_string v, stoi_digits-to_string v h)
apply-blksize o (false, v) h k = ap (λ (x : OptInt). ok (record o { blksize_opt = x })) (k refl)

apply-timeout :
    (o : Options) (opt : OptInt)
    → opt.1 ≤ int_max
    → (opt.0 ≡ false → o.timeout_opt ≡ opt)
    → apply_options o (pair opt name_timeout) ≡ ok (record o { timeout_opt = opt })
unfolding apply_option set_option text_eq do_lower
apply-timeout o (true, v) h k = rw (is_digit_str-to_string v, stoi_digits-to_string v h)
apply-timeout o (false, v) h k = ap (λ (x : OptInt). ok (record o { timeout_opt = x })) (k refl)

apply-tsize :
    (o : Options) (opt : OptInt)
    → opt.1 ≤ int_max
    → (opt.0 ≡ false → o.tsize_opt ≡ opt)
    → apply_options o (pair opt name_tsize) ≡ ok (record o { tsize_opt = opt })
unfolding apply_option set_option text_eq do_lower
apply-tsize o (true, v) h k = rw (is_digit_str-to_string v, stoi_digits-to_string v h)
apply-tsize o (false, v) h k = ap (λ (x : OptInt). ok (record o { tsize_opt = x })) (k refl)

apply-windowsize :
    (o : Options) (opt : OptInt)
    → opt.1 ≤ int_max
    → (opt.0 ≡ false → o.windowsize_opt ≡ opt)
    → apply_options o (pair opt name_windowsize) ≡ ok (record o { windowsize_opt = opt })
unfolding apply_option set_option text_eq do_lower
apply-windowsize o (true, v) h k = rw (is_digit_str-to_string v, stoi_digits-to_string v h)
apply-windowsize o (false, v) h k =
    ap (λ (x : OptInt). ok (record o { windowsize_opt = x })) (k refl)

dflt_opt : (opt : OptInt) (d : ℕ) → (opt.0 ≡ false → opt.1 ≡ d) → opt.0 ≡ false → (false, d) ≡ opt
dflt_opt (true, v) d h e = cc
dflt_opt (false, v) d h e = ap (λ (x : ℕ). (false, x)) (sym (h refl))

-- A reader of the reply that starts from the defaults, and takes options as `buffer_parse` does, gets
-- exactly the four options of the session, given and not given alike: the values are those of an
-- `int`, and an option that was not given has its default.
pub apply_options-reply_pairs :
    (o : Options)
    → AreInts o
    → IsNegotiated o
    → apply_options options (reply_pairs o)
      ≡ ok (record options {
        blksize_opt = o.blksize_opt;
        timeout_opt = o.timeout_opt;
        tsize_opt = o.tsize_opt;
        windowsize_opt = o.windowsize_opt;
      })
apply_options-reply_pairs o v n =
    apply_options-append (pair o.blksize_opt name_blksize) _ options _
      (apply-blksize options o.blksize_opt v.blksize_int (dflt_opt _ _ n.blksize_dflt))
    ∙ apply_options-append (pair o.timeout_opt name_timeout) _ _ _
        (apply-timeout _ o.timeout_opt v.timeout_int (dflt_opt _ _ n.timeout_dflt))
    ∙ apply_options-append (pair o.tsize_opt name_tsize) _ _ _
        (apply-tsize _ o.tsize_opt v.tsize_int (dflt_opt _ _ n.tsize_dflt))
    ∙ apply-windowsize _ o.windowsize_opt v.windowsize_int (dflt_opt _ _ n.windowsize_dflt)
