-- ===== src/Tests/Server.antt =====
-- The server: source/tftpSrv.cpp at concrete requests.
use server_fw.Prelude.{
  ◌≡◌, inl, inr, refl, arith, true, false, [], ◌∷◌, ◌++◌, replicate, some, ok, none,
}
use server_fw.Prelude.Text.{text_eq}
use server_fw.Common.{State}
use server_fw.Common.Strings.{do_lower, to_lower, is_digit_str, all_digits, is_digit, stoi_digits}
use server_fw.Addr
use server_fw.Options.{Options, apply_option, set_option}
use server_fw.Options.Request.{apply_options}
use server_fw.Options.Request.RoundTrip.{packet, plain}
use server_fw.Settings.{settings}
use server_fw.Session.{Session, session}
use server_fw.Srv.{srv, Sys, Loop, reap, round, reaped}
use server_fw.Srv.Rounds.{requested, round-packet}
use server_fw.Srv.Threads.{Step, Reach, Has, AllAsked, unfinished_stays, Reach-AllAsked}
use server_fw.Session.Run.Frame.{SameRequest}
use server_fw.Tests.Requests.{request, request-IsSent}

abbrev over : Session
over = record session { stat = State.finish }

abbrev no_bind : Sys
no_bind = record { new_socket = some 3; bind_ok = false }

abbrev waiting : Loop
waiting = record { server = srv settings; pkt_buf = replicate 40 0 }

abbrev requested_options : Options
requested_options = record (plain request) { blksize_opt = (true, 1024) }

reads_options : apply_options (plain request) request.opts ≡ ok requested_options
unfolding apply_option set_option text_eq do_lower to_lower is_digit_str all_digits is_digit
    stoi_digits
reads_options = refl

-- One session runs and one is over.
abbrev busy : Loop
busy = record waiting { server = record (srv settings) { sessions = over ∷ session ∷ [] } }

idle_round : round none busy ≡ ok (reaped busy.pkt_buf busy.server)
unfolding round
idle_round = refl

unfinished_stays_example :
    (t : Session) × Has t (reap (over ∷ session ∷ [])) × SameRequest session t
unfinished_stays_example =
    unfinished_stays busy (reaped busy.pkt_buf busy.server) session
      (Step.listen busy (reaped busy.pkt_buf busy.server) none idle_round) (inr (inl refl)) refl

abbrev heard :
    (l : Loop) × (round (some (Addr.clear, packet request)) waiting ≡ ok l)
    × (l.server.sessions ≡ reap ([] ++ requested settings Addr.clear requested_options ∷ []))
heard =
    round-packet waiting Addr.clear request requested_options request-IsSent reads_options
      (omega arith) (omega arith) (omega arith)

Reach-AllAsked_example : AllAsked heard.0.server.sessions
Reach-AllAsked_example =
    Reach-AllAsked waiting heard.0
      (Reach.next Reach.here
        (Step.listen waiting heard.0 (some (Addr.clear, packet request)) heard.1))
      refl
