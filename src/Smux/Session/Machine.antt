-- ===== src/Smux/Session/Machine.antt =====
-- Every operation of a session and of its streams as a step between states, whoever calls it: the
-- program above, the receive loop or the keepalive timer. A history is any sequence of steps.
use revese_server.Base.{ℕ, ◌<◌, ◌≡◌, ◌++◌, false, List, [], ◌∷◌, Option, some}
use revese_server.Smux.Frame.{Frame, cmd_psh}
use revese_server.Smux.Stream.{split, set_deadline as set_stream_deadline}
use revese_server.Smux.Session.{Session, Env, put_stream, write_custom_cmd, close, set_deadline}
use revese_server.Smux.Session.Open.{open_stream, accept_stream, AcceptChoice, Error}
use revese_server.Smux.Session.Recv.{
  Handled, next, waits, ended, offer_accept, handle_frame, ping, tick_ping, tick_timeout,
}
use revese_server.Smux.Session.Conn.{
  close_stream, read_pass, ReadPass, got, read_error, must_wait, read_panic, read_wait, write_wait,
  WaitChoice, woken, FrameReply, write,
}

-- The state that the handling of a frame leaves.
abbrev pub handled_state : Handled → Session
handled_state (next s) = s
handled_state (waits s p) = s
handled_state (ended s) = s

-- The state that a pass of Read leaves.
abbrev pub pass_state : Session → ReadPass → Session
pass_state s (got t bytes) = t
pass_state s (read_error t e) = t
pass_state s (must_wait t) = t
pass_state s read_panic = s

-- A caller holds a pointer only to an object that exists. Critical sections are atomic: what one
-- goroutine does under a lock, and a Read with the tokens that it returns, is one step. A Write that nothing
-- interrupts is one step (writing); one that others interrupt is a step for its wait (resuming) and one
-- for each frame that it hands over (handing).
pub data Step : Session → Session → Type 0 where
  opening : (env : Env) (s : Session) → Step s (open_stream env s).0
  accepting : (c : AcceptChoice) (s : Session) → Step s (accept_stream c s).0
  receiving : (env : Env) (s : Session) (f : Frame) → Step s (handled_state (handle_frame env s f))
  offering : (env : Env) (s : Session) (p : ℕ) → Step s (handled_state (offer_accept env s p))
  parking : (s : Session) → Step s (record s { bucket_notify = false })
  closing : (s : Session) → Step s (close s).0
  pinging : (env : Env) (s : Session) → Step s (ping env s)
  ticking : (env : Env) (s : Session) → Step s (tick_ping env s)
  timing : (s : Session) → Step s (tick_timeout s)
  delaying : (t : Option ℕ) (s : Session) → Step s (set_deadline s t)
  closing_stream :
      (env : Env) (s : Session) (p : ℕ) (t : Session) (e : Option Error)
      → p < s.next_ptr
      → close_stream env s p ≡ some (t, e)
      → Step s t
  reading :
      (env : Env) (s : Session) (p len : ℕ)
      → p < s.next_ptr
      → Step s (pass_state s (read_pass env s p len))
  waking :
      (c : WaitChoice) (s : Session) (p : ℕ) (t : Session)
      → p < s.next_ptr
      → read_wait c s p ≡ woken t
      → Step s t
  writing :
      (s : Session) (p : ℕ) (bytes : List ℕ) (c : WaitChoice) (replies : List FrameReply)
      (t : Session) (n : ℕ) (e : Option Error)
      → p < s.next_ptr
      → write s p bytes c replies ≡ some (t, n, e)
      → Step s t
  handing :
      (s : Session) (p : ℕ) (bytes : List ℕ) (before : List Frame) (f : Frame) (after : List Frame)
      → p < s.next_ptr
      → split (s.objects p) bytes cmd_psh (s.objects p).id ≡ before ++ (f ∷ after)
      → Step s (record s { sent = s.sent ++ (f ∷ []) })
  resuming :
      (c : WaitChoice) (s : Session) (p : ℕ) (t : Session)
      → p < s.next_ptr
      → write_wait c s p ≡ woken t
      → Step s t
  delaying_stream :
      (d : Option ℕ) (s : Session) (p : ℕ)
      → p < s.next_ptr
      → Step s (put_stream s p (set_stream_deadline d (s.objects p)))
  commanding :
      (env : Env) (s : Session) (cmd : ℕ) (bytes : List ℕ)
      → Step s (write_custom_cmd env s cmd bytes).0

pub data Reach (s : Session) : Session → Type 0 where
  here : Reach s s
  then_step : {t u : Session} → Reach s t → Step t u → Reach s u
