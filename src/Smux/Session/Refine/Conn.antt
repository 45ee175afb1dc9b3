-- ===== src/Smux/Session/Refine/Conn.antt =====
-- What the calls of a stream, and the frames that arrive, do to the map of Spec.
use revese_server.Base.{
  ◌%◌, ◌+◌, Bool, drop, ◌==◌, ◌≡◌, ℕ, if◌then◌else◌, refl, arith, some, true, false, inl, inr,
  Option-cases,
}
use revese_server.Smux.Session.Open.{
  broken_pipe, go_away_error, conn_failed, open_stream, register, OpenResult, opened, refused,
}
use revese_server.Smux.Session.Refine.{
  as_event, unused-Refines, Named, Touches, Alike, Refines, Alike-Refines, Refines-before,
}
use revese_server.Smux.Session.Recv.{
  handle_nop, handle_fin, handle_ful, handle_emp, handle_ack, Handled, handle_frame,
}
use revese_server.Base.Maps.{lookup, insert, lookup-erase}
use revese_server.Smux.Frame.{Frame, new_frame, cmd_psh, cmd_syn}
use revese_server.Smux.Stream.{recycle_tokens}
use revese_server.Smux.Session.{
  Session, Env, put_stream, alloc_stream, write_frame, return_tokens, detach, close,
}
use revese_server.Smux.Session.Flow.{stream_return_tokens, send_resume, read_outcome}
use revese_server.Smux.Session.Recv.Cases.{
  HandledBy, by_nop, by_syn, by_fin, by_psh, by_ful, by_emp, by_ack, by_close, handle_frame_cases,
  arrived,
}
use revese_server.Smux.Session.Conn.{take_bytes}
use revese_server.Smux.Session.Machine.{handled_state}
use revese_server.Smux.Session.Spec.{Event, quiet, offered, started, pushed, removed}
use revese_server.Smux.Session.Refine.Ops.{
  handle_psh-Refines, handle_syn-Refines, handle_nop-Alike, handle_fin-Alike, handle_ful-Alike,
  handle_emp-Alike, handle_ack-Alike, close-Alike, alloc-Refines,
}

-- The event of a frame that arrives.
abbrev pub frame_event : Frame → Event
frame_event f =
    if f.cmd == cmd_psh
    then pushed f.sid f.payload
    else if f.cmd == cmd_syn
    then offered f.sid
    else quiet

HandledBy-Refines :
    (env : Env) (s : Session) (f : Frame) (h : Handled)
    → HandledBy env s f h
    → Named s
    → Refines s (frame_event f) (handled_state h)
HandledBy-Refines env s f h (by_nop c e) n =
    as_event s (handled_state h) (frame_event f) quiet (ground arith)
      (rw e (Alike-Refines s (handle_nop env s f) (handle_nop-Alike env s f) n))
HandledBy-Refines env s f h (by_syn c e) n =
    as_event s (handled_state h) (frame_event f) (offered f.sid) (ground arith)
      (rw e (handle_syn-Refines env s f n))
HandledBy-Refines env s f h (by_fin c e) n =
    as_event s (handled_state h) (frame_event f) quiet (ground arith)
      (rw e (Alike-Refines s (handle_fin s f) (handle_fin-Alike s f) n))
HandledBy-Refines env s f h (by_psh c e) n =
    as_event s (handled_state h) (frame_event f) (pushed f.sid f.payload) (ground arith)
      (rw e (handle_psh-Refines env s f n))
HandledBy-Refines env s f h (by_ful c e) n =
    as_event s (handled_state h) (frame_event f) quiet (ground arith)
      (rw e (Alike-Refines s (handle_ful s f) (handle_ful-Alike s f) n))
HandledBy-Refines env s f h (by_emp c e) n =
    as_event s (handled_state h) (frame_event f) quiet (ground arith)
      (rw e (Alike-Refines s (handle_emp s f) (handle_emp-Alike s f) n))
HandledBy-Refines env s f h (by_ack c e) n =
    as_event s (handled_state h) (frame_event f) quiet (ground arith)
      (rw e (Alike-Refines s (handle_ack env s f) (handle_ack-Alike env s f) n))
HandledBy-Refines env s f h (by_close c e) n =
    as_event s (handled_state h) (frame_event f) quiet (ground arith)
      (rw e (Alike-Refines s (close s).0 (close-Alike s) n))

pub handle_frame-Refines :
    (env : Env) (s : Session) (f : Frame)
    → Named s
    → Refines s (frame_event f) (handled_state (handle_frame env s f))
handle_frame-Refines env s f n =
    Refines-before s (arrived s) (handled_state (handle_frame env s f)) (frame_event f)
      (ground arith)
      (HandledBy-Refines env (arrived s) f (handle_frame env s f) (handle_frame_cases env s f)
        (record { exists = n.exists; name = n.name }))

-- The event of OpenStream.
abbrev pub open_event : Session × OpenResult → Event
open_event (t, opened p) = started t.next_stream_id
open_event (t, refused e) = quiet

-- What an outcome of OpenStream does, whatever its tests say.
abbrev Opens : Session → Session × OpenResult → Type 0
Opens s x = Refines s (open_event x) x.0

either-Opens :
    (s : Session) (b : Bool) (x y : Session × OpenResult)
    → Opens s x
    → Opens s y
    → Opens s (if b then x else y)
either-Opens s true x y h k = h
either-Opens s false x y h k = k

register-Opens :
    (env : Env) (s : Session) (sid : ℕ)
    → s.next_stream_id ≡ sid
    → Named s
    → Opens s (register env s sid)
unfolding register write_frame alloc_stream
register-Opens env s sid h n =
    let (u, written) = write_frame env (alloc_stream env s sid) (new_frame cmd_syn sid) in
    let t = record u { streams = insert sid s.next_ptr u.streams } in
    either-Opens s written (t, opened s.next_ptr) (u, refused conn_failed)
      (as_event s t (started t.next_stream_id) (started sid) (ground arith)
        (alloc-Refines env s t sid (ground arith) (ground arith) (ground arith) n))
      (unused-Refines s u (ground arith) (ground arith) (λ q l. ground arith) n)

pub open_stream-Refines :
    (env : Env) (s : Session)
    → Named s
    → Refines s (open_event (open_stream env s)) (open_stream env s).0
unfolding open_stream
open_stream-Refines env s n =
    let sid = (s.next_stream_id + 2) % 4294967296 in
    let next_id = record s { next_stream_id = sid } in
    let overflown = record s { next_stream_id = sid; go_away = true } in
    let still = Alike-Refines s s (ground arith) n in
    let full : Session × OpenResult = (overflown, refused go_away_error) in
    let rest : Session × OpenResult = if sid == sid % 2 then full else register env next_id sid in
    let next_alike : Alike s next_id = ground arith in
    let next_named : Named next_id = record { exists = n.exists; name = n.name } in
    let tail : Opens s rest =
      either-Opens s (sid == sid % 2) full (register env next_id sid)
        (Alike-Refines s overflown (ground arith) n)
        (Refines-before s next_id (register env next_id sid).0
          (open_event (register env next_id sid)) next_alike
          (register-Opens env next_id sid refl next_named)) in
    either-Opens s s.die (s, refused broken_pipe)
      (if s.go_away then (s, refused go_away_error) else rest) still
      (either-Opens s s.go_away (s, refused go_away_error) rest still tail)

stream_return_tokens-Alike :
    (env : Env) (s : Session) (p n : ℕ) → Alike s (stream_return_tokens env s p n)
unfolding stream_return_tokens send_resume read_outcome write_frame
stream_return_tokens-Alike env s p n = ground arith

pub take_bytes-Touches :
    (env : Env) (s : Session) (p n : ℕ)
    → Touches s p (drop n (s.objects p).buffer) (take_bytes env s p n)
unfolding take_bytes return_tokens
take_bytes-Touches env s p n = record {
  streams = cc rest.streams;
  ptr = omega (arith, rest.ptr);
  ids = λ q. ground (arith, rest.ids q);
  buffers = λ q. ground (arith, rest.buffers q);
}
  where
    t : Session
    t =
        return_tokens
          (put_stream s p (record (s.objects p) { buffer = drop n (s.objects p).buffer })) n

    rest : Alike t (stream_return_tokens env t p n)
    rest = stream_return_tokens-Alike env t p n

pub detach-Refines :
    (s : Session) (sid p : ℕ)
    → Named s
    → lookup sid s.streams ≡ some p
    → Refines s (removed sid) (detach s sid p)
unfolding detach recycle_tokens return_tokens
detach-Refines s sid p n l = record {
  does = λ k. elim (Option-cases (lookup k s.streams)) [
    | inl e ↦ ground (arith, e, lookup-erase sid k s.streams)
    | inr (q, e) ↦ ground (arith, e, lookup-erase sid k s.streams, n.name k q e, n.name sid p l)
  ];
  named = record {
    exists = λ k q e. ground (arith, e, lookup-erase sid k s.streams, n.exists k q);
    name = λ k q e. ground (arith, e, lookup-erase sid k s.streams, n.name k q);
  };
}
