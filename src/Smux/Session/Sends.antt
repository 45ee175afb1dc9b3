-- ===== src/Smux/Session/Sends.antt =====
-- The frames that a session of lib/smux/session.go hands to its send loop, and what they are made of.
pub mod Steps
pub mod Calls
pub mod Writing
pub mod Run
use revese_server.Base.{
  if-both, ℕ, suc, ◌+◌, ◌<◌, ◌≡◌, ◌∙◌, ◌⊎◌, ◌++◌, Bool, ◌&&◌, true, not, if◌then◌else◌, false, List,
  [], ◌∷◌, Option, none, some, refl, sym, subst, arith, inl, inr, Bool-cases, Option-cases, All,
  All-append, IsByte, length, ap,
}
use revese_server.Base.Int.{pos_part}
use revese_server.Base.Maps.{lookup}
use revese_server.Smux.Frame.{
  Frame, IsFrame, Sendable, new_frame, cmd_syn, cmd_fin, cmd_psh, cmd_nop, cmd_ack, cmd_ful,
  cmd_emp,
}
use revese_server.Smux.Config.{Config}
use revese_server.Smux.Stream.{
  Stream, new_stream, split, session_close, recycle_tokens, notify_read_event, mark_rst,
  pause_write, resume_write, set_deadline as set_stream_deadline, set_read_deadline,
  set_write_deadline,
}
use revese_server.Smux.Stream.Split.{IsPiece, split_lem}
use revese_server.Smux.Session.{
  Session, Env, new_session, put_stream, alloc_stream, write_frame, write_custom_cmd, notify_bucket,
  return_tokens, close, close_streams, update, stream_closed, detach, set_deadline,
}
use revese_server.Smux.Session.Flow.{
  push_bytes, push_outcome, book_bytes, adapt_guess, send_pause, send_resume, stream_return_tokens,
  read_outcome,
}

-- The parts of a state that later frames are made of.
pub record Shaped (s : Session) : Type 0 where
  pub ids : (p : ℕ) → (s.objects p).id < 4294967296
  pub sizes : (p : ℕ) → (s.objects p).frame_size < 65528
  pub cut : (p : ℕ) → p < s.next_ptr → 0 < (s.objects p).frame_size
  pub low : 0 < pos_part s.config.max_frame_size
  pub high : pos_part s.config.max_frame_size < 65528

pub record Fit (s : Session) : Type 0 where
  pub shaped : Shaped s
  pub sent : All Sendable s.sent

-- Steps that make no new stream.
pub record Keeps (s t : Session) : Type 0 where
  pub config : t.config ≡ s.config
  pub ptr : t.next_ptr ≡ s.next_ptr
  pub ids : (p : ℕ) → (t.objects p).id ≡ (s.objects p).id
  pub sizes : (p : ℕ) → (t.objects p).frame_size ≡ (s.objects p).frame_size

pub Keeps-Shaped : {s t : Session} → Keeps s t → Shaped s → Shaped t
Keeps-Shaped {s} {t} k h = record {
  ids = λ p. rw (k.ids p) (h.ids p);
  sizes = λ p. rw (k.sizes p) (h.sizes p);
  cut = λ p b. rw (k.sizes p) (h.cut p (ground (arith, b, k.ptr)));
  low = rw k.config h.low;
  high = rw k.config h.high;
}

pub alloc-Shaped :
    (env : Env) (s : Session) (sid : ℕ)
    → sid < 4294967296
    → Shaped s
    → Shaped (alloc_stream env s sid)
unfolding alloc_stream new_stream
alloc-Shaped env s sid i h = record {
  ids = λ p. ground (arith, i, h.ids p);
  sizes = λ p. ground (arith, h.sizes p, h.high);
  cut = λ p b. ground (arith, b, h.cut p, h.low);
  low = h.low;
  high = h.high;
}

-- Frames without data.
pub bare-Sendable : (cmd sid : ℕ) → cmd < 7 → sid < 4294967296 → Sendable (new_frame cmd sid)
unfolding new_frame
bare-Sendable cmd sid c i = record {
  ver = refl;
  cmd = c;
  words = record {
    ver_byte = omega arith;
    cmd_byte = omega (arith, c);
    sid_word = i;
    data_bytes = tt;
  };
  short = omega arith;
}

pub write_frame-sent :
    (env : Env) (s : Session) (f : Frame)
    → All Sendable s.sent
    → Sendable f
    → All Sendable (write_frame env s f).0.sent
unfolding write_frame
write_frame-sent env s f h g = elim (Bool-cases (s.die && not env.taken)) [
  | inl e ↦ rw e h
  | inr e ↦ rw e (All-append Sendable s.sent (f ∷ []) h (g, tt))
]

pub write_frame-Keeps : (env : Env) (s : Session) (f : Frame) → Keeps s (write_frame env s f).0
unfolding write_frame
write_frame-Keeps env s f = ground arith

pub write_frame-Fit :
    (env : Env) (s : Session) (f : Frame) → Sendable f → Fit s → Fit (write_frame env s f).0
write_frame-Fit env s f g h = record {
  shaped = Keeps-Shaped (write_frame-Keeps env s f) h.shaped;
  sent = write_frame-sent env s f h.sent g;
}

-- Steps that send nothing and make no new stream.
pub silent-Fit : {s t : Session} → Keeps s t → t.sent ≡ s.sent → Fit s → Fit t
silent-Fit k e h = record { shaped = Keeps-Shaped k h.shaped; sent = rw e h.sent }

pub new_session-Fit :
    (c : Config) (client : Bool) (now : ℕ)
    → 0 < pos_part c.max_frame_size
    → pos_part c.max_frame_size < 65528
    → Fit (new_session c client now)
unfolding new_session new_stream
new_session-Fit c client now low high = record {
  shaped = record {
    ids = λ p. omega arith;
    sizes = λ p. omega arith;
    cut = λ p b. absurd (omega (arith, b));
    low = low;
    high = high;
  };
  sent = tt;
}

-- The flow control of a stream.
push_outcome-kept :
    (env : Env) (config : Config) (st : Stream) (n : ℕ)
    → ((push_outcome env config st n).0.id ≡ st.id)
      × ((push_outcome env config st n).0.frame_size ≡ st.frame_size)
unfolding push_outcome book_bytes adapt_guess
push_outcome-kept env config st n = ground arith

put-Keeps :
    (s : Session) (p : ℕ) (st : Stream)
    → st.id ≡ (s.objects p).id
    → st.frame_size ≡ (s.objects p).frame_size
    → Keeps s (put_stream s p st)
put-Keeps s p st i z = record {
  config = refl;
  ptr = refl;
  ids = λ q. ground (arith, i);
  sizes = λ q. ground (arith, z);
}

pub put-Fit :
    (s : Session) (p : ℕ) (st : Stream)
    → st.id ≡ (s.objects p).id
    → st.frame_size ≡ (s.objects p).frame_size
    → Fit s
    → Fit (put_stream s p st)
put-Fit s p st i z = silent-Fit (put-Keeps s p st i z) refl

send_pause-Fit : (env : Env) (s : Session) (p : ℕ) → Fit s → Fit (send_pause env s p)
unfolding send_pause
send_pause-Fit env s p h =
    let st = record (s.objects p) { empflag = false } in
    let full = bare-Sendable cmd_ful (s.objects p).id (omega arith) (h.shaped.ids p) in
    if-both Fit (s.objects p).empflag
      (write_frame env (put_stream s p st) (new_frame cmd_ful (s.objects p).id)).0 s
      (write_frame-Fit env (put_stream s p st) (new_frame cmd_ful (s.objects p).id) full
        (put-Fit s p st refl refl h))
      h

send_resume-Fit : (env : Env) (s : Session) (p : ℕ) → Fit s → Fit (send_resume env s p)
unfolding send_resume
send_resume-Fit env s p h =
    let st = record (s.objects p) { empflag = true } in
    let empty = bare-Sendable cmd_emp (s.objects p).id (omega arith) (h.shaped.ids p) in
    if-both Fit (s.objects p).empflag s
      (write_frame env (put_stream s p st) (new_frame cmd_emp (s.objects p).id)).0 h
      (write_frame-Fit env (put_stream s p st) (new_frame cmd_emp (s.objects p).id) empty
        (put-Fit s p st refl refl h))

pub push_bytes-Fit :
    (env : Env) (s : Session) (p : ℕ) (bytes : List ℕ) → Fit s → Fit (push_bytes env s p bytes)
unfolding push_bytes
push_bytes-Fit env s p bytes h =
    let st = record (s.objects p) { buffer = (s.objects p).buffer ++ bytes } in
    let out = push_outcome env s.config st (length bytes) in
    let (i, z) = push_outcome-kept env s.config st (length bytes) in
    let put : Fit (put_stream s p out.0) = put-Fit s p out.0 i z h in
    if-both Fit out.1 (send_pause env (put_stream s p out.0) p) (put_stream s p out.0)
      (send_pause-Fit env (put_stream s p out.0) p put) put

pub stream_return_tokens-Fit :
    (env : Env) (s : Session) (p n : ℕ) → Fit s → Fit (stream_return_tokens env s p n)
unfolding stream_return_tokens read_outcome
stream_return_tokens-Fit env s p n h =
    let out = read_outcome env s.rtt (s.objects p) n in
    let t = put_stream s p out.0 in
    let put : Fit t = put-Fit s p out.0 refl refl h in
    if-both Fit (not s.config.enable_stream_buffer) s (if out.1 then send_resume env t p else t) h
      (if-both Fit out.1 (send_resume env t p) t (send_resume-Fit env t p put) put)
