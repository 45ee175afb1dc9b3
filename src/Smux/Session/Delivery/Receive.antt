-- ===== src/Smux/Session/Delivery/Receive.antt =====
-- A PSH frame for an open stream, handled by the receive loop.
use revese_server.Base.{
  ◌⊎◌, length, sub32, ◌==◌, true, ◌++◌, some, if◌then◌else◌, arith, List, ◌≡◌, ℕ,
}
use revese_server.Smux.Session.{ℕ, Session, Env, write_frame}
use revese_server.Smux.Frame.{Frame, cmd_psh}
use revese_server.Smux.Session.Flow.{push_bytes, push_outcome, send_pause, book_bytes, adapt_guess}
use revese_server.Smux.Session.Recv.{handle_frame, handle_psh, next, wake_reader}
use revese_server.Smux.Stream.{Stream, notify_read_event}
use revese_server.Smux.Config.{Config}
use revese_server.Base.Maps.{lookup}

push_outcome-buffer :
    (env : Env) (config : Config) (st : Stream) (n : ℕ)
    → (push_outcome env config st n).0.buffer ≡ st.buffer
unfolding push_outcome book_bytes adapt_guess
push_outcome-buffer env config st n = ground arith

-- What a push does to the part of the state that the delivery of data depends on.
push_bytes-effect :
    (env : Env) (s : Session) (p q : ℕ) (bytes : List ℕ)
    → let t = push_bytes env s p bytes in
      ((t.objects q).buffer
        ≡ (if q == p then (s.objects p).buffer ++ bytes else (s.objects q).buffer))
      × (t.streams ≡ s.streams)
      × (t.bucket ≡ s.bucket)
unfolding push_bytes send_pause write_frame
push_bytes-effect env s p q bytes = ground (
  arith,
  push_outcome-buffer env s.config (record (s.objects p) { buffer = (s.objects p).buffer ++ bytes })
      (length bytes),
)

-- A PSH frame for an open stream appends its data to the stream's buffer and takes as many tokens;
-- no other buffer changes.
pub record Pushed (s : Session) (p : ℕ) (bytes : List ℕ) (t : Session) : Type 0 where
  pub buffer : (t.objects p).buffer ≡ (s.objects p).buffer ++ bytes
  pub others : (q : ℕ) → (q ≡ p) ⊎ ((t.objects q).buffer ≡ (s.objects q).buffer)
  pub streams : t.streams ≡ s.streams
  pub bucket : t.bucket ≡ sub32 s.bucket (length bytes)

pub handle_frame-Pushed :
    (env : Env) (s : Session) (f : Frame) (p : ℕ)
    → f.cmd ≡ cmd_psh
    → lookup f.sid s.streams ≡ some p
    → (t : Session) × (handle_frame env s f ≡ next t) × Pushed s p f.payload t
unfolding handle_frame handle_psh wake_reader notify_read_event
handle_frame-Pushed env s f p c l = (
  wake_reader u p,
  ground arith,
  record {
    buffer = ground (arith, push_bytes-effect env s' p p f.payload);
    others = λ q. ground (arith, push_bytes-effect env s' p q f.payload);
    streams = ground (arith, push_bytes-effect env s' p p f.payload);
    bucket = ground (arith, push_bytes-effect env s' p p f.payload);
  },
)
  where
    s' : Session
    s' = record s { data_ready = true; bucket = sub32 s.bucket (length f.payload) }

    u : Session
    u = push_bytes env s' p f.payload
