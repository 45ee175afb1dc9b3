-- ===== src/Smux/Session/Refine/Run.antt =====
-- Every history of a session is a history of the map of Spec.
use revese_server.Base.{
  sym, subst, Option, ◌≡◌, Bool, ℕ, List, refl, arith, some, [], ◌∷◌, inl, inr,
}
use revese_server.Base.Maps.{lookup}
use revese_server.Smux.Config.{Config}
use revese_server.Smux.Stream.{
  set_deadline as set_stream_deadline, set_read_deadline, set_write_deadline,
}
use revese_server.Smux.Session.{
  Session, new_session, put_stream, write_frame, write_custom_cmd, notify_bucket, close,
  set_deadline,
}
use revese_server.Smux.Session.Open.{
  open_stream, accept_stream, accept_from, AcceptChoice, take_stream, take_deadline, take_die,
  Error,
}
use revese_server.Smux.Session.Recv.{ping, tick_ping, tick_timeout}
use revese_server.Smux.Session.Conn.{
  read_pass, read_wait, write_wait, write, WaitChoice, woken, FrameReply,
}
use revese_server.Smux.Session.Conn.Cases.{write_cases}
use revese_server.Smux.Session.Machine.{
  Step, opening, accepting, receiving, offering, parking, closing, pinging, ticking, timing,
  delaying, closing_stream, reading, waking, writing, handing, resuming, delaying_stream,
  commanding, Reach, here, then_step,
}
use revese_server.Smux.Session.Spec.{Event, quiet, Trace, start, then_does, no_streams}
use revese_server.Smux.Session.Refine.{view, Named, Alike, Refines, Alike-Refines}
use revese_server.Smux.Session.Refine.Ops.{offer_accept-Alike, close-Alike}
use revese_server.Smux.Session.Refine.Conn.{
  frame_event, handle_frame-Refines, open_event, open_stream-Refines,
}
use revese_server.Smux.Session.Refine.Reads.{
  close_event, close_stream-Refines, read_event, read_pass-Refines,
}

accept_stream-Alike : (c : AcceptChoice) (s : Session) → Alike s (accept_stream c s).0
unfolding accept_stream accept_from
accept_stream-Alike take_stream s = ground arith
accept_stream-Alike take_deadline s = ground arith
accept_stream-Alike take_die s = ground arith

read_wait-Alike :
    (c : WaitChoice) (s : Session) (p : ℕ) {t : Session} → read_wait c s p ≡ woken t → Alike s t
unfolding read_wait
read_wait-Alike WaitChoice.take_event s p e = ground arith
read_wait-Alike WaitChoice.take_deadline s p e = absurd (ground arith)
read_wait-Alike WaitChoice.take_die s p e = absurd (ground arith)

write_wait-Alike :
    (c : WaitChoice) (s : Session) (p : ℕ) {t : Session} → write_wait c s p ≡ woken t → Alike s t
unfolding write_wait
write_wait-Alike WaitChoice.take_event s p e = ground arith
write_wait-Alike WaitChoice.take_deadline s p e = absurd (ground arith)
write_wait-Alike WaitChoice.take_die s p e = absurd (ground arith)

Alike-trans : (s t u : Session) → Alike s t → Alike t u → Alike s u
Alike-trans s t u a b = record {
  streams = cc (a.streams, b.streams);
  ptr = omega (arith, a.ptr, b.ptr);
  ids = λ q. cc (a.ids q, b.ids q);
  buffers = λ q. cc (a.buffers q, b.buffers q);
}

sent-Alike : (s t : Session) → t ≡ record s { sent = t.sent } → Alike s t
sent-Alike s t e = subst (Alike s) (sym e) (ground arith)

write-Alike :
    (s : Session) (p : ℕ) (bytes : List ℕ) (c : WaitChoice) (rs : List FrameReply) {t : Session}
    {m : ℕ} {e : Option Error}
    → write s p bytes c rs ≡ some (t, m, e)
    → Alike s t
write-Alike s p bytes c rs {t} q = elim (write_cases s p bytes c rs q) [
  | inl same ↦ subst (Alike s) (sym same) (ground arith)
  | inr (u, inl same, e) ↦ subst (λ v. Alike v t) same (sent-Alike u t e)
  | inr (u, inr w, e) ↦ Alike-trans s u t (write_wait-Alike c s p w) (sent-Alike u t e)
]

tick_timeout-Alike : (s : Session) → Alike s (tick_timeout s)
unfolding tick_timeout
tick_timeout-Alike s = ground (arith, close-Alike s)

-- The event of a step, which its inputs and the answer of its call tell.
abbrev pub event : {s t : Session} → Step s t → Event
event (opening env s) = open_event (open_stream env s)
event (receiving env s f) = frame_event f
event (closing_stream env s p t e h q) = close_event (s.objects p)
event (reading env s p len h) = read_event s p (read_pass env s p len)
event (accepting c s) = quiet
event (offering env s p) = quiet
event (parking s) = quiet
event (closing s) = quiet
event (pinging env s) = quiet
event (ticking env s) = quiet
event (timing s) = quiet
event (delaying t s) = quiet
event (waking c s p t h q) = quiet
event (writing s p bytes c rs t n e h q) = quiet
event (handing s p bytes before f after h q) = quiet
event (resuming c s p t h q) = quiet
event (delaying_stream d s p h) = quiet
event (commanding env s cmd bytes) = quiet

abbrev pub events : {s t : Session} → Reach s t → List Event
events here = []
events (then_step r st) = event st ∷ events r

Step-Refines : {s t : Session} (st : Step s t) → Named s → Refines s (event st) t
unfolding ping tick_ping notify_bucket set_deadline set_stream_deadline set_read_deadline
    set_write_deadline write_custom_cmd write_frame
Step-Refines (opening env s) n = open_stream-Refines env s n
Step-Refines (accepting c s) n = Alike-Refines s (accept_stream c s).0 (accept_stream-Alike c s) n
Step-Refines (receiving env s f) n = handle_frame-Refines env s f n
Step-Refines (offering env s p) n = Alike-Refines s _ (offer_accept-Alike env s p) n
Step-Refines (parking s) n = Alike-Refines s _ (ground arith) n
Step-Refines (closing s) n = Alike-Refines s (close s).0 (close-Alike s) n
Step-Refines (pinging env s) n = Alike-Refines s (ping env s) (ground arith) n
Step-Refines (ticking env s) n = Alike-Refines s (tick_ping env s) (ground arith) n
Step-Refines (timing s) n = Alike-Refines s (tick_timeout s) (tick_timeout-Alike s) n
Step-Refines (delaying t s) n = Alike-Refines s (set_deadline s t) (ground arith) n
Step-Refines (closing_stream env s p t e h q) n = close_stream-Refines env s p {e = e} q n
Step-Refines (reading env s p len h) n = read_pass-Refines env s p len n
Step-Refines (waking c s p t h q) n = Alike-Refines s t (read_wait-Alike c s p q) n
Step-Refines (writing s p bytes c rs t k e h q) n =
    Alike-Refines s t (write-Alike s p bytes c rs q) n
Step-Refines (handing s p bytes before f after h q) n = Alike-Refines s _ (ground arith) n
Step-Refines (resuming c s p t h q) n = Alike-Refines s t (write_wait-Alike c s p q) n
Step-Refines (delaying_stream d s p h) n =
    Alike-Refines s (put_stream s p (set_stream_deadline d (s.objects p))) (ground arith) n
Step-Refines (commanding env s cmd bytes) n =
    Alike-Refines s (write_custom_cmd env s cmd bytes).0 (ground arith) n

pub new_session-Named : (c : Config) (client : Bool) (now : ℕ) → Named (new_session c client now)
unfolding new_session lookup
new_session-Named c client now = record {
  exists = λ sid p l. absurd (ground arith);
  name = λ sid p l. absurd (ground arith);
}

pub Reach-Refines :
    (c : Config) (client : Bool) (now : ℕ) (t : Session) (r : Reach (new_session c client now) t)
    → Trace no_streams (events r) (view t) × Named t
unfolding new_session lookup
Reach-Refines c client now _ here = (start (λ k. refl), new_session-Named c client now)
Reach-Refines c client now t (then_step {t = s} r st) =
    let (trace, n) = Reach-Refines c client now s r in
    let step = Step-Refines st n in (then_does (event st) trace step.does, step.named)

-- A session refines a map from stream ids to byte queues: in every history of a new session, each step
-- does to the buffers of the open streams what its event does to the map. A PSH appends its data to the
-- queue of its stream, if that is open, and a Read of an open stream gets what is at the front of its
-- queue; a SYN and OpenStream make an empty queue, Close, or a Read that finds the peer's FIN, removes
-- one, and no other call, frame or tick changes any.
pub session_refines :
    (c : Config) (client : Bool) (now : ℕ) (t : Session) (r : Reach (new_session c client now) t)
    → Trace no_streams (events r) (view t)
session_refines c client now t r = (Reach-Refines c client now t r).0
