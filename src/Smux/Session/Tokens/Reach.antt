-- ===== src/Smux/Session/Tokens/Reach.antt =====
-- The account over any history of a session.
use revese_server.Base.{length, ◌≤◌, Bool, IsI32, ℕ, ◌+◌, ◌%◌, ◌≡◌, refl, arith}
use revese_server.Base.Int.{ℤ, pos, negsuc, int32_of}
use revese_server.Base.Maps.{lookup}
use revese_server.Smux.Stream.{set_deadline as set_stream_deadline, set_read_deadline}
use revese_server.Smux.Session.Recv.{ping, tick_ping}
use revese_server.Smux.Config.{Config}
use revese_server.Smux.Session.{Session, new_session, set_deadline, notify_bucket}
use revese_server.Smux.Session.Machine.{
  Step, opening, accepting, receiving, offering, parking, closing, pinging, ticking, timing,
  delaying, closing_stream, reading, waking, writing, handing, resuming, delaying_stream,
  commanding, Reach, here, then_step,
}
use revese_server.Smux.Session.Tokens.{Owes, Owes-wider, buffered, Same-Owes}
use revese_server.Smux.Session.Tokens.Flow.{put-Same}
use revese_server.Smux.Session.Kept.{Reach-Kept}
use revese_server.Smux.Session.Tokens.Steps.{
  plain-Owes, close-Owes, open_stream-Owes, accept_stream-Owes, handle_frame-Owes,
  offer_accept-Owes,
}
use revese_server.Smux.Session.Tokens.Conn.{
  close_stream-Owes, read_pass-Owes, read_wait-Owes, write_wait-Owes, write-Owes, ping-Owes,
  tick_timeout-Owes, write_custom_cmd-Owes,
}

-- The bytes that a step can add to the buffers.
abbrev pub arriving : {s t : Session} → Step s t → ℕ
arriving (receiving env s f) = length f.payload
arriving st = 0

-- No step loses a token or makes one up.
pub Step-Owes :
    {cap : ℕ} {s t : Session} (st : Step s t)
    → buffered s.next_ptr s.objects + arriving st ≤ cap
    → Owes cap s 0
    → Owes cap t 0
unfolding set_deadline tick_ping notify_bucket set_stream_deadline set_read_deadline
Step-Owes (opening env s) room o = open_stream-Owes env s o
Step-Owes (accepting c s) room o = accept_stream-Owes c s o
Step-Owes (receiving env s f) room o = handle_frame-Owes env s f room o
Step-Owes (offering env s p) room o = offer_accept-Owes env s p o
Step-Owes (parking s) room o = plain-Owes s _ refl refl refl refl refl o
Step-Owes (closing s) room o = close-Owes s o
Step-Owes (pinging env s) room o = ping-Owes env s o
Step-Owes (ticking env s) room o =
    plain-Owes (ping env s) _ refl refl refl refl refl (ping-Owes env s o)
Step-Owes (timing s) room o = tick_timeout-Owes s o
Step-Owes (delaying t s) room o = plain-Owes s _ refl refl refl refl refl o
Step-Owes (closing_stream env s p t e h q) room o = close_stream-Owes env s p q o
Step-Owes (reading env s p len h) room o = read_pass-Owes env s p len h o
Step-Owes (waking c s p t h q) room o = read_wait-Owes c s p q o
Step-Owes (writing s p bytes c rs t n e h q) room o = write-Owes s p bytes c rs q o
Step-Owes (handing s p bytes before f after h q) room o = plain-Owes s _ refl refl refl refl refl o
Step-Owes (resuming c s p t h q) room o = write_wait-Owes c s p q o
Step-Owes (delaying_stream d s p h) room o = Same-Owes s _ 0 (put-Same s p _ refl) o
Step-Owes (commanding env s cmd bytes) room o = write_custom_cmd-Owes env s cmd bytes o

-- Those of a history.
unfoldable arrived_total : {s t : Session} → Reach s t → ℕ
arrived_total here = 0
arrived_total (then_step r st) = arrived_total r + arriving st

Reach-Owes :
    {cap : ℕ} {s t : Session} (r : Reach s t) → Owes cap s 0 → Owes (cap + arrived_total r) t 0
unfolding arrived_total
Reach-Owes {cap} {s} here o = Owes-wider cap (cap + 0) s 0 (omega arith) o
Reach-Owes {cap} (then_step {t} r st) o =
    let before = Reach-Owes r o in
    Step-Owes st (omega (arith, before.room)) (
      Owes-wider (cap + arrived_total r) (cap + (arrived_total r + arriving st)) t 0 (omega arith)
        before)

int32_of-IsI32 : (n : ℤ) → IsI32 (int32_of n)
int32_of-IsI32 (pos n) = omega arith
int32_of-IsI32 (negsuc n) = omega arith

pub new_session-Owes :
    {cap : ℕ} (c : Config) (client : Bool) (now : ℕ) → Owes cap (new_session c client now) 0
unfolding new_session buffered lookup
new_session-Owes c client now = record {
  valid = λ sid p l. absurd (ground arith);
  in_range = int32_of-IsI32 c.max_receive_buffer;
  account = omega (arith, int32_of-IsI32 c.max_receive_buffer);
  room = omega arith;
}

-- After any history of a new session, the bucket and the bytes in the buffers of all its streams
-- make up MaxReceiveBuffer again, in int32 arithmetic: no token is lost and none is made up.
pub tokens_conserved :
    (c : Config) (client : Bool) (now : ℕ) (t : Session)
    → Reach (new_session c client now) t
    → (t.bucket + buffered t.next_ptr t.objects) % 4294967296 ≡ int32_of c.max_receive_buffer
unfolding new_session
tokens_conserved c client now t r =
    ground (
      arith,
      (Reach-Owes {cap = 0} r (new_session-Owes c client now)).account,
      (Reach-Kept r).config,
    )
