-- ===== src/Smux/Session/Sends/Run.antt =====
-- What a session sends over a whole history.
use revese_server.Base.{ℕ, ◌<◌, Bool, All, IsByte, length, arith, refl}
use revese_server.Base.Int.{pos_part}
use revese_server.Smux.Frame.{Sendable}
use revese_server.Smux.Config.{Config}
use revese_server.Smux.Stream.{
  set_deadline as set_stream_deadline, set_read_deadline, set_write_deadline,
}
use revese_server.Smux.Session.{Session, new_session, set_deadline}
use revese_server.Smux.Session.Machine.{
  Step, opening, accepting, receiving, offering, parking, closing, pinging, ticking, timing,
  delaying, closing_stream, reading, waking, writing, handing, resuming, delaying_stream,
  commanding, Reach, here, then_step,
}
use revese_server.Smux.Session.Sends.{Fit, silent-Fit, put-Fit, new_session-Fit}
use revese_server.Smux.Session.Sends.Steps.{
  close-Fit, open_stream-Fit, accept_stream-Fit, offer_accept-Fit, handle_frame-Fit,
}
use revese_server.Smux.Session.Sends.Writing.{
  write-Fit, hand-Fit, write_wait-Fit, write_custom_cmd-Fit,
}
use revese_server.Smux.Session.Sends.Calls.{
  ping-Fit, tick_ping-Fit, tick_timeout-Fit, close_stream-Fit, read_pass-Fit, read_wait-Fit,
}

-- What comes from outside: ids of four bytes, data of bytes, and custom commands of the protocol only.
abbrev pub Sound : {s t : Session} → Step s t → Type 0
Sound (receiving env s f) = f.sid < 4294967296
Sound (writing s p bytes c rs t n e h q) = All IsByte bytes
Sound (handing s p bytes before f after h q) = All IsByte bytes
Sound (commanding env s cmd bytes) = (cmd < 7) × (length bytes < 65528) × All IsByte bytes
Sound st = Unit {0}

unfoldable pub AllSound : {s t : Session} → Reach s t → Type 0
AllSound here = Unit {0}
AllSound (then_step r st) = Sound st × AllSound r

Step-Fit : {s t : Session} (st : Step s t) → Sound st → Fit s → Fit t
unfolding set_deadline set_stream_deadline set_read_deadline set_write_deadline
Step-Fit (opening env s) o h = open_stream-Fit env s h
Step-Fit (accepting c s) o h = accept_stream-Fit c s h
Step-Fit (receiving env s f) o h = handle_frame-Fit env s f o h
Step-Fit (offering env s p) o h = offer_accept-Fit env s p h
Step-Fit (parking s) o h = silent-Fit {s = s} (ground arith) refl h
Step-Fit (closing s) o h = close-Fit s h
Step-Fit (pinging env s) o h = ping-Fit env s h
Step-Fit (ticking env s) o h = tick_ping-Fit env s h
Step-Fit (timing s) o h = tick_timeout-Fit s h
Step-Fit (delaying d s) o h = silent-Fit {s = s} (ground arith) refl h
Step-Fit (closing_stream env s p t e b q) o h = close_stream-Fit env s p t e q h
Step-Fit (reading env s p len b) o h = read_pass-Fit env s p len h
Step-Fit (waking c s p t b q) o h = read_wait-Fit c s p t q h
Step-Fit (writing s p bytes c rs t n e b q) o h = write-Fit s p bytes c rs t n e b o q h
Step-Fit (handing s p bytes before f after b q) o h = hand-Fit s p bytes before f after b o q h
Step-Fit (resuming c s p t b q) o h = write_wait-Fit c s p t q h
Step-Fit (delaying_stream d s p b) o h =
    put-Fit s p (set_stream_deadline d (s.objects p)) refl refl h
Step-Fit (commanding env s cmd bytes) (c, l, bs) h = write_custom_cmd-Fit env s cmd bytes c l bs h

Reach-Fit : {s t : Session} (r : Reach s t) → AllSound r → Fit s → Fit t
unfolding AllSound
Reach-Fit here o h = h
Reach-Fit (then_step r st) (o, os) h = Step-Fit st o (Reach-Fit r os h)

-- Every frame that a session ever hands to its send loop is one that the other end's receive loop reads
-- back: of the version, with one of the seven commands, a stream id of four bytes, and at most 65527 bytes of
-- data. MaxFrameSize is between 1 and 65527, the frames that arrive have ids of four bytes, the data of
-- Writes is made of bytes, and custom commands keep to the same limits.
pub sent-Sendable :
    (c : Config) (client : Bool) (now : ℕ) (t : Session) (r : Reach (new_session c client now) t)
    → 0 < pos_part c.max_frame_size
    → pos_part c.max_frame_size < 65528
    → AllSound r
    → All Sendable t.sent
sent-Sendable c client now t r low high o =
    (Reach-Fit r o (new_session-Fit c client now low high)).sent
