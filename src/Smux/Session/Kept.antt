-- ===== src/Smux/Session/Kept.antt =====
-- What no operation of a session undoes: its configuration, the objects that exist, and its end.
use revese_server.Base.{
  ◌∙◌, false, ℕ, ◌≤◌, ◌<◌, ◌≡◌, Bool, true, List, Option, some, arith, inl, inr, Option-cases, sym,
  subst,
}
use revese_server.Smux.Frame.{Frame}
use revese_server.Smux.Stream.{set_deadline as set_stream_deadline}
use revese_server.Smux.Session.{
  Session, Env, write_frame, write_custom_cmd, alloc_stream, close, detach, stream_closed,
  return_tokens, notify_bucket, set_deadline,
}
use revese_server.Smux.Session.Flow.{push_bytes, send_pause, send_resume, stream_return_tokens}
use revese_server.Smux.Session.Open.{
  open_stream, register, accept_from, accept_stream, AcceptChoice, take_stream, take_deadline,
  take_die, Error,
}
use revese_server.Smux.Session.Recv.{
  Handled, offer_accept, handle_nop, handle_syn, handle_fin, handle_psh, handle_ful, handle_emp,
  handle_ack, wake_reader, handle_frame, ping, tick_ping, tick_timeout,
}
use revese_server.Smux.Session.Recv.Cases.{
  HandledBy, by_nop, by_syn, by_fin, by_psh, by_ful, by_emp, by_ack, by_close, handle_frame_cases,
  arrived,
}
use revese_server.Smux.Session.Conn.{
  close_stream, read_pass, take_bytes, read_wait, write_wait, WaitChoice, woken, FrameReply, write,
}
use revese_server.Smux.Session.Conn.Cases.{write_cases}
use revese_server.Smux.Session.Machine.{
  handled_state, pass_state, Step, opening, accepting, receiving, offering, parking, closing,
  pinging, ticking, timing, delaying, closing_stream, reading, waking, writing, handing, resuming,
  delaying_stream, commanding, Reach, here, then_step,
}

pub record Kept (s t : Session) : Type 0 where
  pub config : t.config ≡ s.config
  pub objects : s.next_ptr ≤ t.next_ptr
  pub end : s.die ≡ true → t.die ≡ true
  pub conn_end : s.conn_closed ≡ true → t.conn_closed ≡ true
  pub gone : s.go_away ≡ true → t.go_away ≡ true
  pub range : s.next_stream_id < 4294967296 → t.next_stream_id < 4294967296
  pub ids : s.next_stream_id < 4294967296 → t.go_away ≡ false → s.next_stream_id ≤ t.next_stream_id

Kept-trans : {s t u : Session} → Kept s t → Kept t u → Kept s u
Kept-trans a b = record {
  config = cc (a.config, b.config);
  objects = omega (arith, a.objects, b.objects);
  end = λ h. b.end (a.end h);
  conn_end = λ h. b.conn_end (a.conn_end h);
  gone = λ h. b.gone (a.gone h);
  range = λ h. b.range (a.range h);
  ids = λ h g. ground (arith, a.range h, a.gone, b.ids (a.range h) g, a.ids h);
}

-- What every operation but a frame and the timeout tick does to dataReady: nothing.
record Steady (s t : Session) : Type 0 where
  kept : Kept s t
  ready : t.data_ready ≡ s.data_ready

Steady-trans : {s t u : Session} → Steady s t → Steady t u → Steady s u
Steady-trans a b = record { kept = Kept-trans a.kept b.kept; ready = b.ready ∙ a.ready }

push_bytes-Steady :
    (env : Env) (s : Session) (p : ℕ) (bytes : List ℕ) → Steady s (push_bytes env s p bytes)
unfolding push_bytes send_pause write_frame
push_bytes-Steady env s p bytes = ground arith

stream_return_tokens-Steady :
    (env : Env) (s : Session) (p n : ℕ) → Steady s (stream_return_tokens env s p n)
unfolding stream_return_tokens send_resume write_frame
stream_return_tokens-Steady env s p n = ground arith

close-Steady : (s : Session) → Steady s (close s).0
unfolding close
close-Steady s = ground arith

HandledBy-Steady :
    (env : Env) (s : Session) (f : Frame) {h : Handled}
    → HandledBy env s f h
    → Steady s (handled_state h)
unfolding handle_nop handle_syn handle_fin handle_psh handle_ful handle_emp handle_ack offer_accept
    alloc_stream wake_reader write_frame
HandledBy-Steady env s f (by_nop _ e) = ground arith
HandledBy-Steady env s f (by_syn _ e) = ground arith
HandledBy-Steady env s f (by_fin _ e) = ground arith
HandledBy-Steady env s f (by_psh _ e) = grind (arith, push_bytes-Steady)
HandledBy-Steady env s f (by_ful _ e) = ground arith
HandledBy-Steady env s f (by_emp _ e) = ground arith
HandledBy-Steady env s f (by_ack _ e) = ground arith
HandledBy-Steady env s f (by_close _ e) = ground (arith, close-Steady s)

handle_frame-Kept :
    (env : Env) (s : Session) (f : Frame)
    → Kept s (handled_state (handle_frame env s f))
      × ((handled_state (handle_frame env s f)).data_ready ≡ true)
handle_frame-Kept env s f =
    let h = HandledBy-Steady env (arrived s) f (handle_frame_cases env s f) in
    (Kept-trans {t = arrived s} (ground arith) h.kept, h.ready)

open_stream-Steady : (env : Env) (s : Session) → Steady s (open_stream env s).0
unfolding open_stream register write_frame alloc_stream
open_stream-Steady env s = ground arith

accept_stream-Steady : (c : AcceptChoice) (s : Session) → Steady s (accept_stream c s).0
unfolding accept_stream accept_from
accept_stream-Steady take_stream s = ground arith
accept_stream-Steady take_deadline s = ground arith
accept_stream-Steady take_die s = ground arith

close_stream-Steady :
    (env : Env) (s : Session) (p : ℕ) {t : Session} {e : Option Error}
    → close_stream env s p ≡ some (t, e)
    → Steady s t
unfolding close_stream stream_closed detach write_frame return_tokens
close_stream-Steady env s p q = ground arith

read_pass-Steady :
    (env : Env) (s : Session) (p len : ℕ) → Steady s (pass_state s (read_pass env s p len))
unfolding read_pass take_bytes return_tokens
read_pass-Steady env s p len = elim (Option-cases (close_stream env s p)) [
  | inl panic ↦ grind (arith, stream_return_tokens-Steady)
  | inr ((t, e), closed) ↦
      grind (arith, stream_return_tokens-Steady, close_stream-Steady env s p closed)
]

read_wait-Steady :
    (c : WaitChoice) (s : Session) (p : ℕ) {t : Session} → read_wait c s p ≡ woken t → Steady s t
unfolding read_wait
read_wait-Steady WaitChoice.take_event s p e = ground arith
read_wait-Steady WaitChoice.take_deadline s p e = absurd (ground arith)
read_wait-Steady WaitChoice.take_die s p e = absurd (ground arith)

write_wait-Steady :
    (c : WaitChoice) (s : Session) (p : ℕ) {t : Session} → write_wait c s p ≡ woken t → Steady s t
unfolding write_wait
write_wait-Steady WaitChoice.take_event s p e = ground arith
write_wait-Steady WaitChoice.take_deadline s p e = absurd (ground arith)
write_wait-Steady WaitChoice.take_die s p e = absurd (ground arith)

Steady-of_sent : (s t : Session) → t ≡ record s { sent = t.sent } → Steady s t
Steady-of_sent s t e = subst (Steady s) (sym e) (ground arith)

write-Steady :
    (s : Session) (p : ℕ) (bytes : List ℕ) (c : WaitChoice) (rs : List FrameReply) {t : Session}
    {m : ℕ} {e : Option Error}
    → write s p bytes c rs ≡ some (t, m, e)
    → Steady s t
write-Steady s p bytes c rs {t} q = elim (write_cases s p bytes c rs q) [
  | inl same ↦ subst (Steady s) (sym same) (ground arith)
  | inr (u, inl same, e) ↦ subst (λ v. Steady v t) same (Steady-of_sent u t e)
  | inr (u, inr w, e) ↦ Steady-trans (write_wait-Steady c s p w) (Steady-of_sent u t e)
]

ping-Steady : (env : Env) (s : Session) → Steady s (ping env s)
unfolding ping write_frame
ping-Steady env s = ground arith

-- dataReady after a step, from dataReady before it.
abbrev pub ready_after : {s t : Session} → Step s t → Bool → Bool
ready_after (receiving env s f) b = true
ready_after (timing s) b = false
ready_after st b = b

steady : {s t : Session} → Steady s t → Kept s t × (t.data_ready ≡ s.data_ready)
steady h = (h.kept, h.ready)

-- Each step keeps them.
pub Step-Kept :
    {s t : Session} (st : Step s t) → Kept s t × (t.data_ready ≡ ready_after st s.data_ready)
unfolding set_deadline tick_ping notify_bucket set_stream_deadline tick_timeout offer_accept
    write_custom_cmd write_frame
Step-Kept (opening env s) = steady (open_stream-Steady env s)
Step-Kept (accepting c s) = steady (accept_stream-Steady c s)
Step-Kept (receiving env s f) = handle_frame-Kept env s f
Step-Kept (offering env s p) = steady (ground arith)
Step-Kept (parking s) = steady (ground arith)
Step-Kept (closing s) = steady (close-Steady s)
Step-Kept (pinging env s) = steady (ping-Steady env s)
Step-Kept (ticking env s) =
    steady (Steady-trans {t = ping env s} (ping-Steady env s) (ground arith))
Step-Kept (timing s) =
    (ground (arith, (close-Steady s).kept), ground (arith, (close-Steady s).ready))
Step-Kept (delaying t s) = steady (ground arith)
Step-Kept (closing_stream env s p t e h q) = steady (close_stream-Steady env s p q)
Step-Kept (reading env s p len h) = steady (read_pass-Steady env s p len)
Step-Kept (waking c s p t h q) = steady (read_wait-Steady c s p q)
Step-Kept (writing s p bytes c rs t n e h q) = steady (write-Steady s p bytes c rs q)
Step-Kept (handing s p bytes before f after h q) = steady (ground arith)
Step-Kept (resuming c s p t h q) = steady (write_wait-Steady c s p q)
Step-Kept (delaying_stream d s p h) = steady (ground arith)
Step-Kept (commanding env s cmd bytes) = steady (ground arith)

-- A history of steps keeps them.
pub Reach-Kept : {s t : Session} → Reach s t → Kept s t
Reach-Kept here = ground arith
Reach-Kept (then_step r st) = Kept-trans (Reach-Kept r) (Step-Kept st).0
