-- ===== src/Options/Accepted.antt =====
-- source/tftpOptions.cpp: what `buffer_parse` grants of a packet that it accepts, whatever the packet.
use server_fw.Prelude.{
  ℕ, zero, suc, ◌+◌, ◌<◌, ◌≡◌, ◌≢◌, ◌⊎◌, inl, inr, sym, ap, ◌∙◌, arith, subst, Bool, true, false,
  Bool-cases, length, ltb, leb, ◌==◌, if◌then◌else◌, Result, ok, >>=-eq-ok,
}
use server_fw.Prelude.Text.{Bytes}
use server_fw.Common.{SrvReq}
use server_fw.Common.Strings.{do_lower}
use server_fw.SmBuf.{get_be, get_string}
use server_fw.Options.{
  Options, options, set_option, apply_option, parse_options, parse_rest, parse_mode, parse_filename,
  parse_request_type, buffer_parse, sub_size, mode_of_name,
}

-- The same request for the same file.
record SameFile (o p : Options) : Type 0 where
  same_kind : p.request_type ≡ o.request_type
  same_name : p.filename ≡ o.filename

set_option-SameFile : (o : Options) (name : Bytes) (val : ℕ) → SameFile o (set_option o name val)
unfolding set_option
set_option-SameFile o name val = ground arith

apply_option-SameFile :
    (o : Options) (name val : Bytes) {p : Options} → apply_option o name val ≡ ok p → SameFile o p
unfolding apply_option set_option
apply_option-SameFile o name val {p} e = ground arith

parse_options-SameFile :
    (fuel : ℕ) (buf : Bytes) (size : ℕ) (o : Options) (pos : ℕ) {p : Options}
    → parse_options fuel buf size o pos ≡ ok p
    → SameFile o p
unfolding parse_options
parse_options-SameFile zero buf size o pos {p} e = absurd (ground (arith, e))
parse_options-SameFile (suc fuel) buf size o pos {p} e = elim (Bool-cases (ltb pos size)) [
  | inr over ↦ ground (arith, over, e)
  | inl more ↦
      let (name, _, e1) =
        >>=-eq-ok (get_string buf pos (sub_size size pos)) _ (rw (parse_options, more) at e) in
      elim (Bool-cases (leb size (pos + length name + 1))) [
        | inl over ↦ ground (arith, over, e1)
        | inr inside ↦
            let (val, _, e2) =
              >>=-eq-ok
                (get_string buf (pos + length name + 1) (sub_size size (pos + length name + 1))) _
                (rw inside at e1) in
            let (o', e3, e4) = >>=-eq-ok (apply_option o name val) _ e2 in
            let v = apply_option-SameFile o name val e3 in
            let w =
              parse_options-SameFile fuel buf size o' (pos + length name + 1 + length val + 1) e4 in
            record { same_kind = w.same_kind ∙ v.same_kind; same_name = w.same_name ∙ v.same_name }
      ]
]

-- A request that names a file.
pub record IsRequest (o : Options) : Type 0 where
  pub known : o.request_type ≢ SrvReq.unknown
  pub named : 0 < length o.filename

same-IsRequest : (o p : Options) → SameFile o p → IsRequest o → IsRequest p
same-IsRequest o p w v = record {
  known = λ q. v.known (sym w.same_kind ∙ q);
  named = omega (arith, v.named, ap length w.same_name);
}

parse_rest-IsRequest :
    (buf : Bytes) (size : ℕ) (o : Options) (pos : ℕ) {p : Options}
    → IsRequest o
    → parse_rest buf size o pos ≡ ok (true, p)
    → IsRequest p
unfolding parse_rest
parse_rest-IsRequest buf size o pos {p} v e =
    let (o', q, r) = >>=-eq-ok (parse_options (suc size) buf size o pos) _ e in
    let same : p ≡ o' = ground (arith, r) in
    subst IsRequest (sym same)
      (same-IsRequest o o' (parse_options-SameFile (suc size) buf size o pos q) v)

-- A test whose one branch is a refusal was not met if the packet was accepted.
refused_if :
    (refuse : Bool) (o : Options) (m : Result (Bool × Options)) {p : Options}
    → (if refuse then ok (false, o) else m) ≡ ok (true, p)
    → (refuse ≡ false) × (m ≡ ok (true, p))
refused_if refuse o m e = (ground arith, ground arith)

parse_mode-IsRequest :
    (buf : Bytes) (size : ℕ) (o : Options) (pos : ℕ) {p : Options}
    → IsRequest o
    → parse_mode buf size o pos ≡ ok (true, p)
    → IsRequest p
unfolding parse_mode
parse_mode-IsRequest buf size o pos {p} v e =
    let (mode, _, e1) = >>=-eq-ok (get_string buf pos (sub_size size pos)) _ e in
    let o' : Options = record o { transfer_mode = mode_of_name (do_lower mode) } in
    let (_, e2) =
      refused_if (length mode == 0) o (parse_rest buf size o' (pos + length mode + 1)) e1 in
    parse_rest-IsRequest buf size o' (pos + length mode + 1)
      (record { known = v.known; named = v.named }) e2

parse_filename-IsRequest :
    (buf : Bytes) (size : ℕ) (o : Options) (pos : ℕ) {p : Options}
    → o.request_type ≢ SrvReq.unknown
    → parse_filename buf size o pos ≡ ok (true, p)
    → IsRequest p
unfolding parse_filename
parse_filename-IsRequest buf size o pos {p} v e =
    let (name, _, e1) = >>=-eq-ok (get_string buf pos (sub_size size pos)) _ e in
    let o' : Options = record o { filename = name } in
    let (some_name, e2) =
      refused_if (length name == 0) o' (parse_mode buf size o' (pos + length name + 1)) e1 in
    parse_mode-IsRequest buf size o' (pos + length name + 1)
      (record { known = v; named = ground (arith, some_name) }) e2

two_kinds :
    (kind : ℕ) (m n : Result (Bool × Options)) {p : Options}
    → (if kind == 1 then m else if kind == 2 then n else ok (false, options)) ≡ ok (true, p)
    → (m ≡ ok (true, p)) ⊎ (n ≡ ok (true, p))
two_kinds kind m n e = ground arith

first_word :
    (buf : Bytes) (size : ℕ) {p : Options}
    → buffer_parse buf size ≡ ok (true, p)
    → (kind : ℕ) × ((if kind == 1
          then parse_filename buf size (record options { request_type = SrvReq.read }) 2
          else if kind == 2
          then parse_filename buf size (record options { request_type = SrvReq.write }) 2
          else ok (false, options))
        ≡ ok (true, p))
unfolding buffer_parse parse_request_type
first_word buf size {p} e =
    let long : leb 2 size ≡ true = ground (arith, e) in
    let (kind, _, q) = >>=-eq-ok (get_be 2 buf 0) _ (rw (buffer_parse, long) at e) in (kind, q)

-- Whatever the packet: what `buffer_parse` accepts is a read or a write request and names a file.
pub buffer_parse-IsRequest :
    (buf : Bytes) (size : ℕ) {p : Options} → buffer_parse buf size ≡ ok (true, p) → IsRequest p
buffer_parse-IsRequest buf size {p} e =
    let o1 : Options = record options { request_type = SrvReq.read } in
    let o2 : Options = record options { request_type = SrvReq.write } in
    let (kind, q) = first_word buf size e in
    elim (two_kinds kind (parse_filename buf size o1 2) (parse_filename buf size o2 2) q) [
      | inl r ↦ parse_filename-IsRequest buf size o1 2 (λ k. cc) r
      | inr r ↦ parse_filename-IsRequest buf size o2 2 (λ k. cc) r
    ]
