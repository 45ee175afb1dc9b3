-- ===== src/Smux/Session/Refine/Ops.antt =====
-- What the operations of a session do to the map of Spec.
use revese_server.Base.{
  sym, subst, sub32, length, ◌++◌, suc, ◌≡◌, List, ℕ, refl, arith, none, some, [], ◌∷◌, inl, inr,
  Option-cases,
}
use revese_server.Smux.Session.{
  Config, Session, Env, update, alloc_stream, write_frame, close, close_streams,
}
use revese_server.Base.Maps.{lookup, insert, lookup-insert}
use revese_server.Smux.Frame.{Frame}
use revese_server.Smux.Stream.{
  Stream, new_stream, notify_read_event, mark_rst, pause_write, resume_write, session_close,
}
use revese_server.Smux.Session.Flow.{push_bytes, push_outcome, send_pause, book_bytes, adapt_guess}
use revese_server.Smux.Session.Recv.{
  handle_nop, handle_syn, handle_fin, handle_psh, handle_ful, handle_emp, handle_ack, wake_reader,
  offer_accept,
}
use revese_server.Smux.Session.Machine.{handled_state}
use revese_server.Smux.Session.Spec.{Sets, offered, started, pushed, join, or_new}
use revese_server.Smux.Session.Refine.{
  Refines-before, Refines-after, view, Named, Touches, Alike, Refines, Touches-Sets, Touches-Named,
}

-- A new object under an id, whatever the id led to before.
pub alloc-Refines :
    (env : Env) (s t : Session) (sid : ℕ)
    → t.streams ≡ insert sid s.next_ptr s.streams
    → t.next_ptr ≡ suc s.next_ptr
    → t.objects ≡ (alloc_stream env s sid).objects
    → Named s
    → Refines s (started sid) t
unfolding alloc_stream new_stream
alloc-Refines env s t sid a b c n = record {
  does = λ k. elim (Option-cases (lookup k s.streams)) [
    | inl e ↦ ground (arith, a, b, c, e, lookup-insert s.streams sid k s.next_ptr)
    | inr (q, e) ↦
        ground (arith, a, b, c, e, n.exists k q e, lookup-insert s.streams sid k s.next_ptr)
  ];
  named = record {
    exists =
        λ k q l. ground (arith, a, b, l, n.exists k q, lookup-insert s.streams sid k s.next_ptr);
    name = λ k q l.
        ground (arith, a, c, l, n.exists k q, n.name k q, lookup-insert s.streams sid k s.next_ptr);
  };
}

push_outcome-kept :
    (env : Env) (config : Config) (st : Stream) (n : ℕ)
    → ((push_outcome env config st n).0.buffer ≡ st.buffer)
      × ((push_outcome env config st n).0.id ≡ st.id)
unfolding push_outcome book_bytes adapt_guess
push_outcome-kept env config st n = ground arith

push_bytes-Touches :
    (env : Env) (s : Session) (p : ℕ) (bytes : List ℕ)
    → Touches s p ((s.objects p).buffer ++ bytes) (push_bytes env s p bytes)
unfolding push_bytes send_pause write_frame
push_bytes-Touches env s p bytes =
    let kept =
      push_outcome-kept env s.config
        (record (s.objects p) { buffer = (s.objects p).buffer ++ bytes }) (length bytes) in
    record {
      streams = ground arith;
      ptr = ground arith;
      ids = λ q. ground (arith, kept);
      buffers = λ q. ground (arith, kept);
    }

pub write_frame-Alike : (env : Env) (s : Session) (f : Frame) → Alike s (write_frame env s f).0
unfolding write_frame
write_frame-Alike env s f = ground arith

wake_reader-Alike : (s : Session) (p : ℕ) → Alike s (wake_reader s p)
unfolding wake_reader notify_read_event
wake_reader-Alike s p = ground arith

pub offer_accept-Alike :
    (env : Env) (s : Session) (p : ℕ) → Alike s (handled_state (offer_accept env s p))
unfolding offer_accept
offer_accept-Alike env s p = ground arith

pub handle_nop-Alike : (env : Env) (s : Session) (f : Frame) → Alike s (handle_nop env s f)
unfolding handle_nop write_frame
handle_nop-Alike env s f = ground arith

pub handle_fin-Alike : (s : Session) (f : Frame) → Alike s (handle_fin s f)
unfolding handle_fin notify_read_event mark_rst
handle_fin-Alike s f = ground arith

pub handle_ful-Alike : (s : Session) (f : Frame) → Alike s (handle_ful s f)
unfolding handle_ful pause_write
handle_ful-Alike s f = ground arith

pub handle_emp-Alike : (s : Session) (f : Frame) → Alike s (handle_emp s f)
unfolding handle_emp notify_read_event resume_write
handle_emp-Alike s f = ground arith

pub handle_ack-Alike : (env : Env) (s : Session) (f : Frame) → Alike s (handle_ack env s f)
unfolding handle_ack
handle_ack-Alike env s f = ground arith

close_streams-kept :
    (m : List (ℕ × ℕ)) (o : ℕ → Stream) (q : ℕ)
    → ((close_streams m o q).buffer ≡ (o q).buffer) × ((close_streams m o q).id ≡ (o q).id)
unfolding close_streams session_close
close_streams-kept [] o q = (refl, refl)
close_streams-kept ((sid, p) ∷ m) o q =
    ground (arith, close_streams-kept m (update o p (session_close (o p))) q)

pub close-Alike : (s : Session) → Alike s (close s).0
unfolding close
close-Alike s = record {
  streams = ground arith;
  ptr = ground arith;
  ids = λ q. ground (arith, close_streams-kept s.streams s.objects q);
  buffers = λ q. ground (arith, close_streams-kept s.streams s.objects q);
}

psh_there :
    (env : Env) (s : Session) (f : Frame) (p : ℕ)
    → Named s
    → lookup f.sid s.streams ≡ some p
    → Refines s (pushed f.sid f.payload) (
        wake_reader
          (push_bytes env (record s { bucket = sub32 s.bucket (length f.payload) }) p f.payload)
          p)
psh_there env s f p n e =
    Refines-before s paid (wake_reader t p) (pushed f.sid f.payload) paid_alike (
      Refines-after paid t (wake_reader t p) (pushed f.sid f.payload) pushes
        (wake_reader-Alike t p))
  where
    paid : Session
    paid = record s { bucket = sub32 s.bucket (length f.payload) }

    t : Session
    t = push_bytes env paid p f.payload

    paid_alike : Alike s paid
    paid_alike = ground arith

    whole : List ℕ
    whole = (s.objects p).buffer ++ f.payload

    touches : Touches paid p whole t
    touches = push_bytes-Touches env paid p f.payload

    paid_named : Named paid
    paid_named = record { exists = n.exists; name = n.name }

    pushes : Refines paid (pushed f.sid f.payload) t
    pushes = record {
      does =
          subst (λ v. Sets (view paid) f.sid (join v f.payload) (view t)) (sym held)
            (Touches-Sets paid t f.sid p whole paid_named e touches);
      named = Touches-Named paid t p whole touches paid_named;
    }
      where
        held : view paid f.sid ≡ some (s.objects p).buffer
        held = ground (arith, e)

pub handle_psh-Refines :
    (env : Env) (s : Session) (f : Frame)
    → Named s
    → Refines s (pushed f.sid f.payload) (handle_psh env s f)
unfolding handle_psh
handle_psh-Refines env s f n = elim (Option-cases (lookup f.sid s.streams)) [
  | inl e ↦ rw (e, handle_psh) (record { does = λ k. ground (arith, e); named = n })
  | inr (p, e) ↦ rw (e, handle_psh) (psh_there env s f p n e)
]

syn_new :
    (env : Env) (s : Session) (f : Frame)
    → Named s
    → lookup f.sid s.streams ≡ none
    → let u = record (alloc_stream env s f.sid) {
      streams = insert f.sid s.next_ptr (alloc_stream env s f.sid).streams;
    } in
      Refines s (offered f.sid) (handled_state (offer_accept env u s.next_ptr))
unfolding alloc_stream
syn_new env s f n e =
    Refines-after s u (handled_state (offer_accept env u s.next_ptr)) (offered f.sid)
      (record {
        does = subst (λ v. Sets (view s) f.sid (or_new v) (view u)) (sym held) fresh.does;
        named = fresh.named;
      })
      (offer_accept-Alike env u s.next_ptr)
  where
    u : Session
    u = record (alloc_stream env s f.sid) {
      streams = insert f.sid s.next_ptr (alloc_stream env s f.sid).streams;
    }

    fresh : Refines s (started f.sid) u
    fresh = alloc-Refines env s u f.sid refl refl refl n

    held : view s f.sid ≡ none
    held = ground (arith, e)

pub handle_syn-Refines :
    (env : Env) (s : Session) (f : Frame)
    → Named s
    → Refines s (offered f.sid) (handled_state (handle_syn env s f))
unfolding handle_syn
handle_syn-Refines env s f n = elim (Option-cases (lookup f.sid s.streams)) [
  | inl e ↦ rw (e, handled_state, handle_syn) (syn_new env s f n e)
  | inr (p, e) ↦
      rw (e, handled_state, handle_syn) (record { does = λ k. ground (arith, e); named = n })
]
