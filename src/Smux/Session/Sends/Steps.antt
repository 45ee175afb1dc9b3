-- ===== src/Smux/Session/Sends/Steps.antt =====
-- What the handlers of frames, OpenStream and AcceptStream send.
use revese_server.Base.{
  if-both, ℕ, ◌+◌, ◌%◌, ◌==◌, ◌<◌, ◌≡◌, true, if◌then◌else◌, List, [], ◌∷◌, refl, arith, inl, inr,
  Option-cases, length, sub32,
}
use revese_server.Base.Maps.{lookup, insert}
use revese_server.Smux.Frame.{Frame, new_frame, cmd_syn, cmd_ack}
use revese_server.Smux.Stream.{
  Stream, session_close, notify_read_event, mark_rst, pause_write, resume_write,
}
use revese_server.Smux.Session.{
  Session, Env, alloc_stream, write_frame, close, close_streams, update,
}
use revese_server.Smux.Session.Flow.{push_bytes}
use revese_server.Smux.Session.Open.{
  accept_failed, accept_waits, OpenResult, AcceptResult, opened, refused, conn_failed, broken_pipe,
  go_away_error, open_stream, register, accept_from, accept_stream, AcceptChoice, take_stream,
  take_deadline, take_die,
}
use revese_server.Smux.Session.Recv.{
  Handled, offer_accept, handle_nop, handle_syn, handle_fin, handle_psh, handle_ful, handle_emp,
  handle_ack, wake_reader, handle_frame,
}
use revese_server.Smux.Session.Recv.Cases.{
  HandledBy, by_nop, by_syn, by_fin, by_psh, by_ful, by_emp, by_ack, by_close, handle_frame_cases,
  arrived,
}
use revese_server.Smux.Session.Machine.{handled_state}
use revese_server.Smux.Session.Sends.{
  Fit, alloc-Shaped, bare-Sendable, write_frame-Fit, silent-Fit, put-Fit, push_bytes-Fit,
}

close_streams-kept :
    (m : List (ℕ × ℕ)) (o : ℕ → Stream) (q : ℕ)
    → ((close_streams m o q).id ≡ (o q).id) × ((close_streams m o q).frame_size ≡ (o q).frame_size)
unfolding close_streams session_close
close_streams-kept [] o q = (refl, refl)
close_streams-kept ((sid, p) ∷ m) o q =
    ground (arith, close_streams-kept m (update o p (session_close (o p))) q)

pub close-Fit : (s : Session) → Fit s → Fit (close s).0
unfolding close
close-Fit s h =
    silent-Fit {s = s}
      (record {
        config = ground arith;
        ptr = ground arith;
        ids = λ q. ground (arith, close_streams-kept s.streams s.objects q);
        sizes = λ q. ground (arith, close_streams-kept s.streams s.objects q);
      })
      (ground arith) h

-- OpenStream.
alloc-Fit :
    (env : Env) (s : Session) (sid : ℕ) → sid < 4294967296 → Fit s → Fit (alloc_stream env s sid)
unfolding alloc_stream
alloc-Fit env s sid i h = record {
  shaped = unfold alloc_stream in alloc-Shaped env s sid i h.shaped;
  sent = h.sent;
}

register-Fit :
    (env : Env) (s : Session) (sid : ℕ) → sid < 4294967296 → Fit s → Fit (register env s sid).0
unfolding register
register-Fit env s sid i h =
    let out = write_frame env (alloc_stream env s sid) (new_frame cmd_syn sid) in
    let told : Fit out.0 =
      write_frame-Fit env (alloc_stream env s sid) (new_frame cmd_syn sid)
        (bare-Sendable cmd_syn sid (omega arith) i) (alloc-Fit env s sid i h) in
    if-both (λ (x : Session × OpenResult). Fit x.0) out.1
      (record out.0 { streams = insert sid s.next_ptr out.0.streams }, opened s.next_ptr)
      (out.0, refused conn_failed) (silent-Fit {s = out.0} (ground arith) refl told) told

pub open_stream-Fit : (env : Env) (s : Session) → Fit s → Fit (open_stream env s).0
unfolding open_stream
open_stream-Fit env s h =
    let sid = (s.next_stream_id + 2) % 4294967296 in
    let t = record s { next_stream_id = sid } in
    let opens : Fit (register env t sid).0 =
      register-Fit env t sid (omega arith) (silent-Fit {s = s} (ground arith) refl h) in
    let gone : Session × OpenResult = (record t { go_away = true }, refused go_away_error) in
    let inner = if sid == sid % 2 then gone else register env t sid in
    let away = if s.go_away then (s, refused go_away_error) else inner in
    if-both (λ (x : Session × OpenResult). Fit x.0) s.die (s, refused broken_pipe) away h
      (if-both (λ (x : Session × OpenResult). Fit x.0) s.go_away (s, refused go_away_error) inner h
        (if-both (λ (x : Session × OpenResult). Fit x.0) (sid == sid % 2) gone (register env t sid)
          (silent-Fit {s = s} (ground arith) refl h) opens))

-- AcceptStream and the offer to it.
accept_from-Fit : (s : Session) (ps : List ℕ) → Fit s → Fit (accept_from s ps).0
unfolding accept_from
accept_from-Fit s [] h = h
accept_from-Fit s (p ∷ ps) h = silent-Fit {s = s} (ground arith) refl h

pub accept_stream-Fit : (c : AcceptChoice) (s : Session) → Fit s → Fit (accept_stream c s).0
unfolding accept_stream accept_from
accept_stream-Fit take_stream s h = accept_from-Fit s s.ch_accepts h
accept_stream-Fit take_deadline s h = elim (Option-cases s.deadline) [
  | inl e ↦ ground (arith, e, h)
  | inr (d, e) ↦ ground (arith, e, h)
]
accept_stream-Fit take_die s h =
    if-both (λ (x : Session × AcceptResult). Fit x.0) s.die (s, accept_failed broken_pipe)
      (s, accept_waits) h h

pub offer_accept-Fit :
    (env : Env) (s : Session) (p : ℕ) → Fit s → Fit (handled_state (offer_accept env s p))
unfolding offer_accept
offer_accept-Fit env s p h =
    silent-Fit {s = s}
      (record {
        config = ground arith;
        ptr = ground arith;
        ids = λ q. ground arith;
        sizes = λ q. ground arith;
      })
      (ground arith) h

-- The handlers of frames.
handle_nop-Fit :
    (env : Env) (s : Session) (f : Frame) → f.sid < 4294967296 → Fit s → Fit (handle_nop env s f)
unfolding handle_nop
handle_nop-Fit env s f i h =
    if-both Fit s.config.enable_stream_buffer (write_frame env s (new_frame cmd_ack f.sid)).0 s
      (write_frame-Fit env s (new_frame cmd_ack f.sid) (bare-Sendable cmd_ack f.sid (omega arith) i)
        h)
      h

handle_syn-Fit :
    (env : Env) (s : Session) (f : Frame)
    → f.sid < 4294967296
    → Fit s
    → Fit (handled_state (handle_syn env s f))
unfolding handle_syn
handle_syn-Fit env s f i h =
    let t = alloc_stream env s f.sid in
    let u = record t { streams = insert f.sid s.next_ptr t.streams } in
    elim (Option-cases (lookup f.sid s.streams)) [
      | inl e ↦
          rw (e, handled_state)
            (offer_accept-Fit env u s.next_ptr
              (silent-Fit {s = t} (ground arith) refl (alloc-Fit env s f.sid i h)))
      | inr (p, e) ↦ rw (e, handled_state) h
    ]

handle_fin-Fit : (s : Session) (f : Frame) → Fit s → Fit (handle_fin s f)
unfolding handle_fin notify_read_event mark_rst
handle_fin-Fit s f h = elim (Option-cases (lookup f.sid s.streams)) [
  | inl e ↦ rw (e, handle_fin) h
  | inr (p, e) ↦
      rw (e, handle_fin) (put-Fit s p (notify_read_event (mark_rst (s.objects p))) refl refl h)
]

wake_reader-Fit : (s : Session) (p : ℕ) → Fit s → Fit (wake_reader s p)
unfolding wake_reader notify_read_event
wake_reader-Fit s p h = put-Fit s p (notify_read_event (s.objects p)) refl refl h

handle_psh-Fit : (env : Env) (s : Session) (f : Frame) → Fit s → Fit (handle_psh env s f)
unfolding handle_psh
handle_psh-Fit env s f h = elim (Option-cases (lookup f.sid s.streams)) [
  | inl e ↦ rw (e, handle_psh) h
  | inr (p, e) ↦
      let t = record s { bucket = sub32 s.bucket (length f.payload) } in
      rw (e, handle_psh)
        (wake_reader-Fit (push_bytes env t p f.payload) p
          (push_bytes-Fit env t p f.payload (silent-Fit {s = s} (ground arith) refl h)))
]

handle_ful-Fit : (s : Session) (f : Frame) → Fit s → Fit (handle_ful s f)
unfolding handle_ful pause_write
handle_ful-Fit s f h = elim (Option-cases (lookup f.sid s.streams)) [
  | inl e ↦ rw (e, handle_ful) h
  | inr (p, e) ↦ rw (e, handle_ful) (put-Fit s p (pause_write (s.objects p)) refl refl h)
]

handle_emp-Fit : (s : Session) (f : Frame) → Fit s → Fit (handle_emp s f)
unfolding handle_emp resume_write notify_read_event
handle_emp-Fit s f h = elim (Option-cases (lookup f.sid s.streams)) [
  | inl e ↦ rw (e, handle_emp) h
  | inr (p, e) ↦
      rw (e, handle_emp) (put-Fit s p (notify_read_event (resume_write (s.objects p))) refl refl h)
]

handle_ack-Fit : (env : Env) (s : Session) (f : Frame) → Fit s → Fit (handle_ack env s f)
unfolding handle_ack
handle_ack-Fit env s f h = silent-Fit {s = s} (ground arith) (ground arith) h

HandledBy-Fit :
    (env : Env) (s : Session) (f : Frame) {h : Handled}
    → f.sid < 4294967296
    → HandledBy env s f h
    → Fit s
    → Fit (handled_state h)
HandledBy-Fit env s f i (by_nop _ e) k = rw e (handle_nop-Fit env s f i k)
HandledBy-Fit env s f i (by_syn _ e) k = rw e (handle_syn-Fit env s f i k)
HandledBy-Fit env s f i (by_fin _ e) k = rw e (handle_fin-Fit s f k)
HandledBy-Fit env s f i (by_psh _ e) k = rw e (handle_psh-Fit env s f k)
HandledBy-Fit env s f i (by_ful _ e) k = rw e (handle_ful-Fit s f k)
HandledBy-Fit env s f i (by_emp _ e) k = rw e (handle_emp-Fit s f k)
HandledBy-Fit env s f i (by_ack _ e) k = rw e (handle_ack-Fit env s f k)
HandledBy-Fit env s f i (by_close _ e) k = rw e (close-Fit s k)

pub handle_frame-Fit :
    (env : Env) (s : Session) (f : Frame)
    → f.sid < 4294967296
    → Fit s
    → Fit (handled_state (handle_frame env s f))
handle_frame-Fit env s f i h =
    HandledBy-Fit env (arrived s) f i (handle_frame_cases env s f)
      (silent-Fit {s = s} (ground arith) refl h)
