-- ===== src/Options/Request/Meaning.antt =====
-- What a request packet means, without the comparisons of the parse.
use server_fw.Prelude.{
  ℕ, ◌≡◌, inl, inr, refl, sym, ap, ◌∙◌, arith, subst, Bool, true, false, Bool-cases, List, [], ◌∷◌,
  ◌++◌, length, if◌then◌else◌, Option, none, some, Result, ok, err, ◌>>=◌, >>=-congr,
}
use server_fw.Prelude.Text.{Bytes, codes, text_eq, text_eq_iff}
use server_fw.Common.{TransfMode}
use server_fw.Common.Strings.{do_lower, is_digit_str, stoi_digits}
use server_fw.SmBuf.Words.{Fits}
use server_fw.Options.{
  Options, OptInt, options, buffer_parse, mode_of_name, set_option, apply_option,
}
use server_fw.Options.Request.{Pairs, apply_options}
use server_fw.Options.Request.RoundTrip.{Sent, packet, IsSent, plain, buffer_parse-packet}

-- The names of the transfer modes.
abbrev modes : List (Bytes × TransfMode)
modes =
    (codes "netascii", TransfMode.netascii)
    ∷ (codes "octet", TransfMode.octet)
    ∷ (codes "binary", TransfMode.binary)
    ∷ (codes "mail", TransfMode.mail)
    ∷ []

abbrev mode_in : List (Bytes × TransfMode) → Bytes → TransfMode
mode_in [] name = TransfMode.unknown
mode_in ((n, m) ∷ ms) name = if text_eq name n then m else mode_in ms name

mode_of_name-in : (name : Bytes) → mode_of_name name ≡ mode_in modes name
unfolding mode_of_name
mode_of_name-in name = refl

-- An option of a packet that has a number, by its lowered name.
abbrev Numbers : Type 0
Numbers = List (Bytes × ℕ)

-- The options that have a number, in their order; the first that is too large for an `int` throws.
abbrev pub numbers : Pairs → Result Numbers
numbers [] = ok []
numbers ((n, v) ∷ r) =
    if is_digit_str v
    then stoi_digits v >>= (λ x. numbers r >>= λ xs. ok ((do_lower n, x) ∷ xs))
    else numbers r

-- The number of the last option of a name.
abbrev pub last_of : Bytes → Numbers → Option ℕ
last_of name [] = none
last_of name ((n, x) ∷ xs) = elim (last_of name xs) [
  | some y ↦ some y
  | none ↦ if text_eq n name then some x else none
]

abbrev pub given : OptInt → Option ℕ → OptInt
given old none = old
given old (some x) = (true, x)

-- What the numbers make of the options.
abbrev pub granted : Options → Numbers → Options
granted o xs = record o {
  blksize_opt = given o.blksize_opt (last_of (codes "blksize") xs);
  timeout_opt = given o.timeout_opt (last_of (codes "timeout") xs);
  tsize_opt = given o.tsize_opt (last_of (codes "tsize") xs);
  windowsize_opt = given o.windowsize_opt (last_of (codes "windowsize") xs);
}

given_last :
    (same : Bool) (x : ℕ) (old : OptInt) (later : Option ℕ)
    → given (if same then (true, x) else old) later
      ≡ given old (elim later [ some y ↦ some y | none ↦ if same then some x else none ])
given_last true x old none = refl
given_last true x old (some y) = refl
given_last false x old none = refl
given_last false x old (some y) = refl

-- A name is that of one option at most.
apart : (name a b : Bytes) → text_eq name a ≡ true → text_eq a b ≡ false → text_eq name b ≡ false
apart name a b e f = subst (λ (x : Bytes). text_eq x b ≡ false) (sym ((text_eq_iff name a).0 e)) f

-- What one option sets.
set_one : Options → Bytes → ℕ → Options
set_one o n x = record o {
  blksize_opt = if text_eq n (codes "blksize") then (true, x) else o.blksize_opt;
  timeout_opt = if text_eq n (codes "timeout") then (true, x) else o.timeout_opt;
  tsize_opt = if text_eq n (codes "tsize") then (true, x) else o.tsize_opt;
  windowsize_opt = if text_eq n (codes "windowsize") then (true, x) else o.windowsize_opt;
}

set_option-one : (o : Options) (n : Bytes) (x : ℕ) → set_option o n x ≡ set_one o n x
unfolding set_option set_one text_eq
set_option-one o n x = elim (Bool-cases (text_eq n (codes "blksize"))) [
  | inl e ↦ rw e (
      rw (apart n (codes "blksize") (codes "timeout") e refl) (
        rw (apart n (codes "blksize") (codes "tsize") e refl)
          (rw (apart n (codes "blksize") (codes "windowsize") e refl) refl)))
  | inr a ↦ elim (Bool-cases (text_eq n (codes "timeout"))) [
    | inl e ↦ rw a (
        rw e (
          rw (apart n (codes "timeout") (codes "tsize") e refl)
            (rw (apart n (codes "timeout") (codes "windowsize") e refl) refl)))
    | inr b ↦ elim (Bool-cases (text_eq n (codes "tsize"))) [
      | inl e ↦ rw a (rw b (rw e (rw (apart n (codes "tsize") (codes "windowsize") e refl) refl)))
      | inr c ↦ ground (arith, a, b, c)
    ]
  ]
]

granted-set_option :
    (o : Options) (n : Bytes) (x : ℕ) (xs : Numbers)
    → granted (set_option o n x) xs ≡ granted o ((n, x) ∷ xs)
unfolding set_one
granted-set_option o n x xs =
    ap (λ (p : Options). granted p xs) (set_option-one o n x)
    ∙ rw (given_last (text_eq n (codes "blksize")) x o.blksize_opt (last_of (codes "blksize") xs)) (
        rw (given_last (text_eq n (codes "timeout")) x o.timeout_opt (last_of (codes "timeout") xs))
          (rw (given_last (text_eq n (codes "tsize")) x o.tsize_opt (last_of (codes "tsize") xs)) (
            rw
              (given_last (text_eq n (codes "windowsize")) x o.windowsize_opt
                (last_of (codes "windowsize") xs))
              refl)))

bind-last :
    (o : Options) (n : Bytes) (x : ℕ) (m : Result Numbers)
    → (m >>= λ xs. ok (granted (set_option o n x) xs))
      ≡ ((m >>= λ xs. ok ((n, x) ∷ xs)) >>= λ xs. ok (granted o xs))
bind-last o n x (err e) = refl
bind-last o n x (ok xs) = ap ok (granted-set_option o n x xs)

one_option :
    (o : Options) (n v : Bytes) (rest : Result Numbers)
    → (apply_option o n v >>= λ p. rest >>= λ xs. ok (granted p xs)) ≡ (
        (if is_digit_str v
          then stoi_digits v >>= (λ x. rest >>= λ xs. ok ((do_lower n, x) ∷ xs))
          else rest)
        >>= λ xs. ok (granted o xs))
unfolding apply_option
one_option o n v rest = elim (Bool-cases (is_digit_str v)) [
  | inr a ↦ rw a refl
  | inl a ↦ rw a (number (stoi_digits v))
]
  where
    number :
        (m : Result ℕ)
        → ((m >>= λ x. ok (set_option o (do_lower n) x)) >>= λ p. rest >>= λ xs. ok (granted p xs))
          ≡ ((m >>= λ x. rest >>= λ xs. ok ((do_lower n, x) ∷ xs)) >>= λ xs. ok (granted o xs))
    number (err e) = refl
    number (ok x) = bind-last o (do_lower n) x rest

apply_options-granted :
    (o : Options) (opts : Pairs) → apply_options o opts ≡ (numbers opts >>= λ xs. ok (granted o xs))
apply_options-granted o [] = refl
apply_options-granted o ((n, v) ∷ r) =
    >>=-congr (apply_option o n v) _ _ (λ p. apply_options-granted p r)
    ∙ one_option o n v (numbers r)

-- What a request asks for: the defaults, but for the number of the last option of each name.
abbrev pub asked : Sent → Numbers → Options
asked r xs = record options {
  request_type = r.kind;
  filename = r.filename;
  transfer_mode = mode_in modes (do_lower r.mode);
  blksize_opt = given (false, 512) (last_of (codes "blksize") xs);
  timeout_opt = given (false, 10) (last_of (codes "timeout") xs);
  tsize_opt = given (false, 0) (last_of (codes "tsize") xs);
  windowsize_opt = given (false, 1) (last_of (codes "windowsize") xs);
}

asked-granted : (r : Sent) (xs : Numbers) → granted (plain r) xs ≡ asked r xs
asked-granted r xs = rw (mode_of_name-in (do_lower r.mode)) refl

-- What the parse gives of a packet that it accepts.
abbrev accepted : Options → Result (Bool × Options)
accepted o = ok (true, o)

told :
    (r : Sent) (m : Result Numbers)
    → ((m >>= λ xs. ok (granted (plain r) xs)) >>= accepted) ≡ (m >>= λ xs. accepted (asked r xs))
told r (err e) = refl
told r (ok xs) = ap accepted (asked-granted r xs)

-- The packet of a read or write request with a name, a mode and any options, none of them with a zero
-- byte, is parsed to exactly these: the mode is `netascii`, `octet`, `binary` or `mail`, in letters
-- of any case, or else unknown; an option whose value is no number is passed over, and of those with
-- a number the last one of each name counts, again in letters of any case, and a name that is not
-- one of the four counts for nothing. If one number is too large for an `int`, the parse throws.
-- What stands behind the packet is not read.
pub buffer_parse-asked :
    (r : Sent) (rest : Bytes)
    → IsSent r
    → Fits (packet r ++ rest)
    → buffer_parse (packet r ++ rest) (length (packet r))
      ≡ (numbers r.opts >>= λ xs. ok (true, asked r xs))
buffer_parse-asked r rest w f =
    buffer_parse-packet r rest w f
    ∙ ap (λ (m : Result Options). m >>= accepted) (apply_options-granted (plain r) r.opts)
    ∙ told r (numbers r.opts)
