-- ===== src/Smux/Session/Delivery/Demux.antt =====
-- The frames of many streams, in whatever order they come, read by one receive loop.
use revese_server.Base.{
  append_assoc, ◌++◌, All, ap, subst, length-append, sub32, Bool-cases, Option-cases, ◌∙◌, ◌≤◌,
  ◌==◌, ◌+◌, ◌<◌, arith, length, if◌then◌else◌, ℕ, List, ◌≡◌, Option, false, some, refl, inl, inr,
  [], ◌∷◌, suc,
}
use revese_server.Base.Maps.{lookup}
use revese_server.Smux.Frame.{Sendable, Frame, cmd_psh, cmd_syn, wire_bytes, read_frame, frame}
use revese_server.Smux.Frame.RoundTrip.{read_frame-frame_bytes}
use revese_server.Smux.Session.{Session, Env, write_frame, alloc_stream}
use revese_server.Smux.Session.Flow.{push_bytes, send_pause}
use revese_server.Smux.Session.Recv.{
  Handled, next, handled, handle_frame, handle_nop, handle_syn, handle_fin, handle_psh, handle_ful,
  handle_emp, handle_ack, wake_reader, offer_accept, recv_round, recv_rounds,
}
use revese_server.Smux.Session.Recv.Cases.{
  HandledBy, by_nop, by_syn, by_fin, by_psh, by_ful, by_emp, by_ack, by_close, handle_frame_cases,
  arrived,
}
use revese_server.Smux.Session.Machine.{handled_state}
use revese_server.Smux.Session.Spec.{Mux, Does, join, or_new, quiet, offered, pushed}
use revese_server.Smux.Session.Refine.{view, Named}
use revese_server.Smux.Session.Refine.Conn.{frame_event, handle_frame-Refines}
use revese_server.Smux.Session.Delivery.Wire.{wire_bytes-cons}
use revese_server.Smux.Sender.Order.{is_queued, select}

-- What a frame of a stream does to the bytes that the stream holds, if it is there.
abbrev pub feed_frame : Option (List ℕ) → Frame → Option (List ℕ)
feed_frame q f =
    if f.cmd == cmd_psh then join q f.payload else if f.cmd == cmd_syn then or_new q else q

unfoldable pub feed : Option (List ℕ) → List Frame → Option (List ℕ)
feed q [] = q
feed q (f ∷ fs) = feed (feed_frame q f) fs

-- An open session with room for n streams in its accept queue and tokens for b bytes.
pub record Room (s : Session) (n b : ℕ) : Type 0 where
  pub live : s.die ≡ false
  pub places : length s.ch_accepts + n ≤ 1024
  pub low : b < s.bucket
  pub high : s.bucket < 2147483648

unfoldable pub data_size : List Frame → ℕ
data_size [] = 0
data_size (f ∷ fs) = length f.payload + data_size fs

push_bytes_keeps :
    (env : Env) (s : Session) (p : ℕ) (bytes : List ℕ)
    → let t = push_bytes env s p bytes in
      (t.die ≡ s.die) × (t.ch_accepts ≡ s.ch_accepts) × (t.bucket ≡ s.bucket)
unfolding push_bytes send_pause write_frame
push_bytes_keeps env s p bytes = ground arith

handle_syn-Room :
    (env : Env) (s : Session) (f : Frame) (n b : ℕ)
    → Room s (suc n) (length f.payload + b)
    → (t : Session) × (handle_syn env s f ≡ next t) × Room t n b
unfolding handle_syn offer_accept alloc_stream
handle_syn-Room env s f n b r = elim (Option-cases (lookup f.sid s.streams)) [
  | inl l ↦ (
    handled_state (handle_syn env s f),
    ground (arith, l, r.live, r.places),
    ground
        (arith, l, r.live, r.places, r.low, r.high, length-append s.ch_accepts (s.next_ptr ∷ [])),
  )
  | inr (p, l) ↦ (s, ground (arith, l), ground (arith, r.live, r.places, r.low, r.high))
]

handle_psh-Room :
    (env : Env) (s : Session) (f : Frame) (n b : ℕ)
    → Room s (suc n) (length f.payload + b)
    → Room (handle_psh env s f) n b
unfolding handle_psh wake_reader
handle_psh-Room env s f n b r = elim (Option-cases (lookup f.sid s.streams)) [
  | inl l ↦ ground (arith, l, r.live, r.places, r.low, r.high)
  | inr (p, l) ↦ ground (
    arith,
    l,
    r.live,
    r.places,
    r.low,
    r.high,
    push_bytes_keeps env (record s { bucket = sub32 s.bucket (length f.payload) }) p f.payload,
  )
]

HandledBy-Room :
    (env : Env) (s : Session) (f : Frame) (h : Handled) (n b : ℕ)
    → HandledBy env s f h
    → f.cmd < 7
    → Room s (suc n) (length f.payload + b)
    → (t : Session) × (h ≡ next t) × Room t n b
unfolding handle_nop handle_syn handle_fin handle_psh handle_ful handle_emp handle_ack offer_accept
    alloc_stream wake_reader write_frame
HandledBy-Room env s f h n b (by_nop _ e) c r =
    (handle_nop env s f, e, ground (arith, r.live, r.places, r.low, r.high))
HandledBy-Room env s f h n b (by_syn _ e) c r =
    let (t, q, room) = handle_syn-Room env s f n b r in (t, e ∙ q, room)
HandledBy-Room env s f h n b (by_fin _ e) c r =
    (handle_fin s f, e, ground (arith, r.live, r.places, r.low, r.high))
HandledBy-Room env s f h n b (by_psh _ e) c r =
    (handle_psh env s f, e, handle_psh-Room env s f n b r)
HandledBy-Room env s f h n b (by_ful _ e) c r =
    (handle_ful s f, e, ground (arith, r.live, r.places, r.low, r.high))
HandledBy-Room env s f h n b (by_emp _ e) c r =
    (handle_emp s f, e, ground (arith, r.live, r.places, r.low, r.high))
HandledBy-Room env s f h n b (by_ack _ e) c r =
    (handle_ack env s f, e, ground (arith, r.live, r.places, r.low, r.high))
HandledBy-Room env s f h n b (by_close d e) c r = absurd (omega (arith, c, d))

handle_frame-Room :
    (env : Env) (s : Session) (f : Frame) (n b : ℕ)
    → f.cmd < 7
    → Room s (suc n) (length f.payload + b)
    → (t : Session) × (handle_frame env s f ≡ next t) × Room t n b
handle_frame-Room env s f n b c r =
    HandledBy-Room env (arrived s) f (handle_frame env s f) n b (handle_frame_cases env s f) c
      (record { live = r.live; places = r.places; low = r.low; high = r.high })

-- What an id leads to after a frame.
frame_map :
    (m m' : Mux) (f : Frame)
    → Does m (frame_event f) m'
    → (sid : ℕ) → m' sid ≡ (if is_queued sid f then feed_frame (m sid) f else m sid)
frame_map m m' f d sid = elim (Bool-cases (f.cmd == cmd_psh)) [
  | inl e ↦
      let d' : Does m (pushed f.sid f.payload) m' =
        subst (λ v. Does m v m') {y = pushed f.sid f.payload} (ground (arith, e)) d in
      ground (arith, e, d' sid)
  | inr n ↦ elim (Bool-cases (f.cmd == cmd_syn)) [
    | inl e ↦
        let d' : Does m (offered f.sid) m' =
          subst (λ v. Does m v m') {y = offered f.sid} (ground (arith, n, e)) d in
        ground (arith, n, e, d' sid)
    | inr n' ↦
        let d' : Does m quiet m' = subst (λ v. Does m v m') {y = quiet} (ground (arith, n, n')) d in
        ground (arith, n, n', d' sid)
  ]
]

feed-select :
    (m m' : Mux) (f : Frame) (fs : List Frame)
    → Does m (frame_event f) m'
    → (sid : ℕ) → feed (m' sid) (select sid fs) ≡ feed (m sid) (select sid (f ∷ fs))
unfolding feed select
feed-select m m' f fs d sid = elim (Bool-cases (is_queued sid f)) [
  | inl e ↦
      rw (e, select) (ap (λ q. feed q (select sid fs)) (ground (arith, frame_map m m' f d sid, e)))
  | inr e ↦
      rw (e, select) (ap (λ q. feed q (select sid fs)) (ground (arith, frame_map m m' f d sid, e)))
]

-- The frames of many streams, encoded one after the other and read by the receive loop of an open session
-- with room for as many streams and tokens for all data. The loop goes through all of them, whatever
-- their order, and what each stream id then leads to is what its own frames, in their order, make of
-- what it led to before: a SYN makes an empty buffer, and a PSH appends its data.
pub recv_rounds-demux :
    (envs : ℕ → Env) (s : Session) (fs : List Frame) (w rest : List ℕ)
    → Named s
    → All Sendable fs
    → Room s (length fs) (data_size fs)
    → wire_bytes fs ≡ some w
    → (t : Session) × (recv_rounds (length fs) envs s (w ++ rest) ≡ handled (next t) rest)
      × Named t
      × ((sid : ℕ) → view t sid ≡ feed (view s sid) (select sid fs))
unfolding recv_rounds recv_round data_size feed select
recv_rounds-demux envs s [] w rest n g r e =
    (s, unfold wire_bytes in ground (arith, e), n, λ sid. refl)
recv_rounds-demux envs s (f ∷ fs) w rest n (g, gs) r e =
    let (b, bs, eb, ebs, ew) = wire_bytes-cons f fs w e in
    let env = envs (length fs) in
    let read : read_frame (b ++ (bs ++ rest)) ≡ frame f (bs ++ rest) =
      read_frame-frame_bytes f b (bs ++ rest) g.ver g.words g.short eb in
    let (u, h, room) = handle_frame-Room env s f (length fs) (data_size fs) g.cmd r in
    let refined = handle_frame-Refines env s f n in
    let named : Named u = subst (λ x. Named (handled_state x)) h refined.named in
    let does : Does (view s) (frame_event f) (view u) =
      subst (λ x. Does (view s) (frame_event f) (view (handled_state x))) h refined.does in
    let (t, q, named', views) = recv_rounds-demux envs u fs bs rest named gs room ebs in
    (
      t,
      ground (arith, r.live, r.low, r.high, read, h, q, ew, append_assoc b bs rest),
      named',
      λ sid. views sid ∙ feed-select (view s) (view u) f fs does sid,
    )
