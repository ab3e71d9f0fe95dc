-- ===== src/DataMgr/Streams.antt =====
-- The file streams of the C++ library, as far as the data manager uses them: `std::ifstream` over a
-- file whose content does not change, and `std::ofstream` that throws on `failbit`.
use server_fw.Prelude.{
  ℕ, ◌+◌, ◌-◌, ◌^◌, Bool, true, false, ◌||◌, [], ◌++◌, length, take, drop, slice, replicate, ltb,
  leb, if◌then◌else◌, Option, none, some, Result, ok, err, stream_failure,
}
use server_fw.Prelude.Text.{Bytes}

pub record InStream : Type 0 where
  pub is_open : Bool
  pub content : Bytes
  pub pos : ℕ
  pub eofbit : Bool
  pub failbit : Bool

-- A stream that was never opened.
abbrev pub closed_in : InStream
closed_in = record { is_open = false; content = []; pos = 0; eofbit = false; failbit = false }

abbrev pub open_in : Bytes → InStream
open_in content = record {
  is_open = true;
  content = content;
  pos = 0;
  eofbit = false;
  failbit = false;
}

-- A position that a `streampos` holds as a number that is not negative.
abbrev pub is_pos : ℕ → Bool
is_pos position = ltb position (2 ^ 63)

-- `none` is the position -1. The sentry sets `failbit` at the end of the file too.
unfoldable pub tellg : InStream → Option ℕ × InStream
tellg s = if s.eofbit || s.failbit then (none, record s { failbit = true }) else (some s.pos, s)

-- Takes `eofbit` back; a stream that has failed stays where it is.
unfoldable pub seekg : InStream → ℕ → InStream
seekg s position =
    if s.failbit
    then record s { eofbit = false }
    else if is_pos position
    then record s { eofbit = false; pos = position }
    else record s { eofbit = false; failbit = true }

-- The bytes stored, and the stream. A stream that is not good gives none; too few bytes set both
-- bits.
unfoldable pub read_in : InStream → ℕ → Bytes × InStream
read_in s n =
    if s.eofbit || s.failbit
    then ([], record s { failbit = true })
    else if leb (s.pos + n) (length s.content)
    then (slice s.content s.pos n, record s { pos = s.pos + n })
    else (
      drop s.pos s.content,
      record s { pos = s.pos + length (drop s.pos s.content); eofbit = true; failbit = true },
    )

pub record OutStream : Type 0 where
  pub is_open : Bool
  pub content : Bytes
  pub pos : ℕ
  pub badbit : Bool

abbrev pub closed_out : OutStream
closed_out = record { is_open = false; content = []; pos = 0; badbit = false }

-- A file that is created.
abbrev pub open_out : OutStream
open_out = record { is_open = true; content = []; pos = 0; badbit = false }

unfoldable pub tellp : OutStream → Option ℕ
tellp s = if s.badbit then none else some s.pos

-- A position that the file refuses sets `failbit`, which throws.
unfoldable pub seekp : OutStream → ℕ → Result OutStream
seekp s position =
    if s.badbit
    then ok s
    else if is_pos position
    then ok (record s { pos = position })
    else err stream_failure

-- The bytes of a file after a write; a gap is filled with zeros.
abbrev pub overwrite : Bytes → ℕ → Bytes → Bytes
overwrite content pos block =
    (take pos content ++ replicate (pos - length content) 0)
    ++ (block ++ drop (pos + length block) content)

-- `accepts` is whether the file takes the bytes.
unfoldable pub write_out : Bool → OutStream → Bytes → OutStream
write_out accepts s block =
    if s.badbit
    then s
    else if accepts
    then record s { content = overwrite s.content s.pos block; pos = s.pos + length block }
    else record s { badbit = true }
