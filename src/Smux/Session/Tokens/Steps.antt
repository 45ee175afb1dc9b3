-- ===== src/Smux/Session/Tokens/Steps.antt =====
-- The account through every operation of a session and of its streams.
use revese_server.Base.{
  ◌≤◌, ℕ, ◌+◌, ◌-◌, ◌%◌, ◌<◌, ◌≡◌, refl, Bool, arith, length, ◌==◌, Bool-cases, inl, inr,
  Option-cases, sub32,
}
use revese_server.Base.Maps.{lookup, insert}
use revese_server.Smux.Frame.{Frame, new_frame, cmd_syn}
use revese_server.Smux.Stream.{mark_rst, notify_read_event, pause_write, resume_write}
use revese_server.Smux.Session.{Session, Env, write_frame, alloc_stream, close}
use revese_server.Smux.Session.Open.{
  open_stream, register, accept_from, accept_stream, AcceptChoice, take_stream, take_deadline,
  take_die,
}
use revese_server.Smux.Session.Recv.{
  Handled, offer_accept, handle_nop, handle_syn, handle_fin, handle_psh, handle_ful, handle_emp,
  handle_ack, wake_reader, handle_frame,
}
use revese_server.Smux.Session.Recv.Cases.{
  HandledBy, by_nop, by_syn, by_fin, by_psh, by_ful, by_emp, by_ack, by_close, handle_frame_cases,
  arrived,
}
use revese_server.Smux.Session.Machine.{handled_state}
use revese_server.Smux.Session.Tokens.{buffered, Owes, Same, Same-Owes}
use revese_server.Smux.Session.Tokens.Flow.{
  put-Same, write_frame-Same, close-Same, alloc_stream-Owes, insert-valid, push_bytes-Owes,
}

-- States with the same bucket, store and map.
Same-of :
    (s t : Session)
    → t.bucket ≡ s.bucket
    → t.next_ptr ≡ s.next_ptr
    → t.streams ≡ s.streams
    → t.config ≡ s.config
    → t.objects ≡ s.objects
    → Same s t
Same-of s t b n m c o = record {
  bucket = b;
  next_ptr = n;
  streams = m;
  config = c;
  buffers = λ q. cc;
}

pub plain-Owes :
    {cap : ℕ} (s t : Session)
    → t.bucket ≡ s.bucket
    → t.next_ptr ≡ s.next_ptr
    → t.streams ≡ s.streams
    → t.config ≡ s.config
    → t.objects ≡ s.objects
    → Owes cap s 0
    → Owes cap t 0
plain-Owes s t b n m c o = Same-Owes s t 0 (Same-of s t b n m c o)

insert-Owes :
    {cap : ℕ} (s : Session) (sid p k : ℕ)
    → p < s.next_ptr
    → Owes cap s k
    → Owes cap (record s { streams = insert sid p s.streams }) k
insert-Owes s sid p k h o = record {
  valid = insert-valid s sid p h o.valid;
  in_range = o.in_range;
  account = o.account;
  room = o.room;
}

pub close-Owes : {cap : ℕ} (s : Session) → Owes cap s 0 → Owes cap (close s).0 0
close-Owes {cap} s = Same-Owes _ _ 0 (close-Same s)

pub write_frame-Owes :
    {cap : ℕ} (env : Env) (s : Session) (f : Frame)
    → Owes cap s 0
    → Owes cap (write_frame env s f).0 0
write_frame-Owes {cap} env s f = Same-Owes _ _ 0 (write_frame-Same env s f)

handle_psh-Owes :
    {cap : ℕ} (env : Env) (s : Session) (f : Frame)
    → buffered s.next_ptr s.objects + length f.payload ≤ cap
    → Owes cap s 0
    → Owes cap (handle_psh env s f) 0
unfolding handle_psh wake_reader notify_read_event
handle_psh-Owes {cap} env s f room o = elim (Option-cases (lookup f.sid s.streams)) [
  | inl l ↦ rw (l, handle_psh) o
  | inr (p, l) ↦
      let s' : Session = record s { bucket = sub32 s.bucket (length f.payload) } in
      let owed : Owes cap s' (length f.payload) = record {
        valid = o.valid;
        in_range = omega arith;
        account = omega (arith, o.account, o.in_range);
        room = room;
      } in
      rw (l, handle_psh)
        (Same-Owes _ _ 0 (put-Same _ p _ refl)
          (push_bytes-Owes env s' p f.payload (o.valid f.sid p l) owed))
]

offer_accept-Same :
    (env : Env) (s : Session) (p : ℕ) → Same s (handled_state (offer_accept env s p))
unfolding offer_accept
offer_accept-Same env s p = record {
  bucket = ground arith;
  next_ptr = ground arith;
  streams = ground arith;
  config = ground arith;
  buffers = λ q. ground arith;
}

pub offer_accept-Owes :
    {cap : ℕ} (env : Env) (s : Session) (p : ℕ)
    → Owes cap s 0
    → Owes cap (handled_state (offer_accept env s p)) 0
offer_accept-Owes env s p = Same-Owes s _ 0 (offer_accept-Same env s p)

handle_syn-Owes :
    {cap : ℕ} (env : Env) (s : Session) (f : Frame)
    → Owes cap s 0
    → Owes cap (handled_state (handle_syn env s f)) 0
unfolding handle_syn alloc_stream
handle_syn-Owes {cap} env s f o = elim (Option-cases (lookup f.sid s.streams)) [
  | inl l ↦
      rw (l, handle_syn)
        (Same-Owes _ _ 0 (offer_accept-Same env _ s.next_ptr) (
          insert-Owes (alloc_stream env s f.sid) f.sid s.next_ptr 0 (omega arith)
            (alloc_stream-Owes env s f.sid 0 o)))
  | inr (p, l) ↦ rw (l, handle_syn) o
]

handle_fin-Owes : {cap : ℕ} (s : Session) (f : Frame) → Owes cap s 0 → Owes cap (handle_fin s f) 0
unfolding handle_fin mark_rst notify_read_event
handle_fin-Owes {cap} s f o = elim (Option-cases (lookup f.sid s.streams)) [
  | inl l ↦ rw (l, handle_fin) o
  | inr (p, l) ↦ rw (l, handle_fin) (Same-Owes _ _ 0 (put-Same s p _ refl) o)
]

handle_ful-Owes : {cap : ℕ} (s : Session) (f : Frame) → Owes cap s 0 → Owes cap (handle_ful s f) 0
unfolding handle_ful pause_write
handle_ful-Owes {cap} s f o = elim (Option-cases (lookup f.sid s.streams)) [
  | inl l ↦ rw (l, handle_ful) o
  | inr (p, l) ↦ rw (l, handle_ful) (Same-Owes _ _ 0 (put-Same s p _ refl) o)
]

handle_emp-Owes : {cap : ℕ} (s : Session) (f : Frame) → Owes cap s 0 → Owes cap (handle_emp s f) 0
unfolding handle_emp resume_write notify_read_event
handle_emp-Owes {cap} s f o = elim (Option-cases (lookup f.sid s.streams)) [
  | inl l ↦ rw (l, handle_emp) o
  | inr (p, l) ↦ rw (l, handle_emp) (Same-Owes _ _ 0 (put-Same s p _ refl) o)
]

handle_ack-Owes :
    {cap : ℕ} (env : Env) (s : Session) (f : Frame) → Owes cap s 0 → Owes cap (handle_ack env s f) 0
unfolding handle_ack
handle_ack-Owes env s f o = elim (Bool-cases (f.sid == s.rtt_sn)) [
  | inl e ↦ rw (e, handle_ack) (Same-Owes s _ 0 unchanged o)
  | inr e ↦ rw (e, handle_ack) o
]
  where
    unchanged : Same s (record s { rtt = env.now - s.rtt_test + 1 })
    unchanged = record {
      bucket = refl;
      next_ptr = refl;
      streams = refl;
      config = refl;
      buffers = λ q. refl;
    }

handle_nop-Owes :
    {cap : ℕ} (env : Env) (s : Session) (f : Frame) → Owes cap s 0 → Owes cap (handle_nop env s f) 0
unfolding handle_nop
handle_nop-Owes env s f o = elim (Bool-cases s.config.enable_stream_buffer) [
  | inl e ↦ simp e (write_frame-Owes env s _ o)
  | inr e ↦ simp e o
]

HandledBy-Owes :
    {cap : ℕ} (env : Env) (s : Session) (f : Frame) {h : Handled}
    → HandledBy env s f h
    → buffered s.next_ptr s.objects + length f.payload ≤ cap
    → Owes cap s 0
    → Owes cap (handled_state h) 0
HandledBy-Owes env s f (by_nop _ e) room o = rw e (handle_nop-Owes env s f o)
HandledBy-Owes env s f (by_syn _ e) room o = rw e (handle_syn-Owes env s f o)
HandledBy-Owes env s f (by_fin _ e) room o = rw e (handle_fin-Owes s f o)
HandledBy-Owes env s f (by_psh _ e) room o = rw e (handle_psh-Owes env s f room o)
HandledBy-Owes env s f (by_ful _ e) room o = rw e (handle_ful-Owes s f o)
HandledBy-Owes env s f (by_emp _ e) room o = rw e (handle_emp-Owes s f o)
HandledBy-Owes env s f (by_ack _ e) room o = rw e (handle_ack-Owes env s f o)
HandledBy-Owes env s f (by_close _ e) room o = rw e (close-Owes s o)

-- A frame of any kind leaves the account as it was.
pub handle_frame-Owes :
    {cap : ℕ} (env : Env) (s : Session) (f : Frame)
    → buffered s.next_ptr s.objects + length f.payload ≤ cap
    → Owes cap s 0
    → Owes cap (handled_state (handle_frame env s f)) 0
handle_frame-Owes env s f room o =
    HandledBy-Owes env (arrived s) f (handle_frame_cases env s f) room
      (plain-Owes s _ refl refl refl refl refl o)

register-Owes :
    {cap : ℕ} (env : Env) (s : Session) (sid : ℕ) → Owes cap s 0 → Owes cap (register env s sid).0 0
unfolding register
register-Owes {cap} env s sid o = elim (Bool-cases w.1) [
  | inl e ↦ rw (e, register) (insert-Owes w.0 sid s.next_ptr 0 room wrote)
  | inr e ↦ rw (e, register) wrote
]
  where
    w : Session × Bool
    w = write_frame env (alloc_stream env s sid) (new_frame cmd_syn sid)

    wrote : Owes cap w.0 0
    wrote = write_frame-Owes env _ _ (alloc_stream-Owes env s sid 0 o)

    room : s.next_ptr < w.0.next_ptr
    room =
        unfold alloc_stream in
        omega
          (arith, (write_frame-Same env (alloc_stream env s sid) (new_frame cmd_syn sid)).next_ptr)

pub open_stream-Owes :
    {cap : ℕ} (env : Env) (s : Session) → Owes cap s 0 → Owes cap (open_stream env s).0 0
unfolding open_stream
open_stream-Owes env s o = elim (Bool-cases s.die) [
  | inl dead ↦ simp dead o
  | inr live ↦ elim (Bool-cases s.go_away) [
    | inl gone ↦ simp (live, gone) o
    | inr some_left ↦ elim (Bool-cases (sid == sid % 2)) [
      | inl over ↦ simp (live, some_left, over) (plain-Owes s _ refl refl refl refl refl o)
      | inr new ↦
          simp (live, some_left, new)
            (register-Owes env _ sid (plain-Owes s _ refl refl refl refl refl o))
    ]
  ]
]
  where
    sid : ℕ
    sid = (s.next_stream_id + 2) % 4294967296

pub accept_stream-Owes :
    {cap : ℕ} (c : AcceptChoice) (s : Session) → Owes cap s 0 → Owes cap (accept_stream c s).0 0
unfolding accept_stream accept_from
accept_stream-Owes take_stream s o =
    plain-Owes s _ (ground arith) (ground arith) (ground arith) (ground arith) (ground arith) o
accept_stream-Owes take_deadline s o =
    plain-Owes s _ (ground arith) (ground arith) (ground arith) (ground arith) (ground arith) o
accept_stream-Owes take_die s o =
    plain-Owes s _ (ground arith) (ground arith) (ground arith) (ground arith) (ground arith) o
