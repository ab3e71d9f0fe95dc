-- ===== src/Tests/Requests.antt =====
-- Requests: source/tftpOptions.cpp at concrete packets.
use server_fw.Prelude.{
  ◌≡◌, ◌≢◌, refl, arith, true, [], ◌∷◌, ◌++◌, length, ok, err, ◌>>=◌, no_fuel, out_of_range,
}
use server_fw.Prelude.Text.{codes}
use server_fw.Common.{SrvReq}
use server_fw.Common.Strings.{is_digit_str, all_digits, is_digit}
use server_fw.Options.{buffer_parse}
use server_fw.Options.Request.RoundTrip.{Sent, IsSent, packet, plain}
use server_fw.Options.Request.Meaning.{numbers, asked, buffer_parse-asked}
use server_fw.Options.Refusals.{
  overrun, buffer_parse_overflow, buffer_parse_unterminated, buffer_parse-ne-no_fuel,
}

-- A read of `f` in mode `Octet` with a block size.
abbrev pub request : Sent
request = record {
  kind = SrvReq.read;
  filename = codes "f";
  mode = codes "Octet";
  opts = (codes "BlkSize", codes "1024") ∷ [];
}

pub request-IsSent : IsSent request
request-IsSent = record {
  is_request = λ e. cc;
  has_filename = λ e. cc;
  has_mode = λ e. cc;
  filename_text = ground arith;
  mode_text = ground arith;
  opts_text = ground arith;
}

abbrev too_large : Sent
too_large = record request { opts = (codes "x", codes "2147483648") ∷ [] }

too_large-IsSent : IsSent too_large
too_large-IsSent = record {
  is_request = λ e. cc;
  has_filename = λ e. cc;
  has_mode = λ e. cc;
  filename_text = ground arith;
  mode_text = ground arith;
  opts_text = ground arith;
}

buffer_parse-asked_example :
    buffer_parse (packet request ++ 9 ∷ []) (length (packet request))
    ≡ (numbers request.opts >>= λ xs. ok (true, asked request xs))
buffer_parse-asked_example = buffer_parse-asked request (9 ∷ []) request-IsSent (omega arith)

buffer_parse_overflow_example :
    buffer_parse (packet too_large ++ []) (length (packet too_large)) ≡ err out_of_range
unfolding is_digit_str all_digits is_digit
buffer_parse_overflow_example =
    buffer_parse_overflow too_large [] [] [] (codes "x") (codes "2147483648") (plain too_large)
      too_large-IsSent (omega arith) refl refl refl (omega arith)

buffer_parse_unterminated_example :
    buffer_parse (0 ∷ 1 ∷ (codes "abc" ++ 0 ∷ [])) 5
    ≡ err (overrun (0 ∷ 1 ∷ (codes "abc" ++ 0 ∷ [])) 5)
buffer_parse_unterminated_example =
    buffer_parse_unterminated SrvReq.read (codes "abc") (0 ∷ []) (λ e. cc) (λ e. cc) (ground arith)
      (omega arith)

buffer_parse-ne-no_fuel_example : buffer_parse (packet request) 20 ≢ err no_fuel
buffer_parse-ne-no_fuel_example = buffer_parse-ne-no_fuel (packet request) 20
