-- ===== src/Smux/Session/Recv.antt =====
-- recvLoop and keepalive of lib/smux/session.go.
pub mod Cases
use revese_server.Base.{
  zero, ℕ, suc, ◌+◌, ◌-◌, ◌%◌, Bool, true, false, not, List, [], ◌∷◌, ◌++◌, Option, none, some,
  ◌==◌, ltb, length, add32, sub32, lt32, if◌then◌else◌, ◌&&◌, ◌||◌,
}
use revese_server.Base.Maps.{lookup, insert}
use revese_server.Smux.Frame.{
  Frame, new_frame, cmd_syn, cmd_fin, cmd_psh, cmd_nop, cmd_ack, cmd_ful, cmd_emp, read_frame,
  ReadResult, frame, failed, panicked,
}
use revese_server.Smux.Config.{Config}
use revese_server.Smux.Stream.{Stream, mark_rst, notify_read_event, pause_write, resume_write}
use revese_server.Smux.Session.{
  Session, Env, put_stream, alloc_stream, write_frame, notify_bucket, close, default_accept_backlog,
}
use revese_server.Smux.Session.Flow.{push_bytes}

-- What the handling of a frame comes to: the loop goes on, it waits for room in the accept queue for
-- the object of that number with the stream lock held, or it has closed the session and returned.
pub data Handled : Type 0 where
  next : Session → Handled
  waits : Session → ℕ → Handled
  ended : Session → Handled

-- select { case s.chAccepts <- stream: case <-s.die: }. `taken` chooses where both are ready.
unfoldable pub offer_accept : Env → Session → ℕ → Handled
offer_accept env s p =
    if ltb (length s.ch_accepts) default_accept_backlog && (not s.die || env.taken)
    then next (record s { ch_accepts = s.ch_accepts ++ (p ∷ []) })
    else if s.die
    then next s
    else waits s p

unfoldable pub handle_nop : Env → Session → Frame → Session
handle_nop env s f =
    if s.config.enable_stream_buffer then (write_frame env s (new_frame cmd_ack f.sid)).0 else s

unfoldable pub handle_syn : Env → Session → Frame → Handled
handle_syn env s f = elim (lookup f.sid s.streams) [
  | some p ↦ next s
  | none ↦
      let p = s.next_ptr in
      let s' = alloc_stream env s f.sid in
      offer_accept env (record s' { streams = insert f.sid p s'.streams }) p
]

unfoldable pub handle_fin : Session → Frame → Session
handle_fin s f = elim (lookup f.sid s.streams) [
  | none ↦ s
  | some p ↦ put_stream s p (notify_read_event (mark_rst (s.objects p)))
]

unfoldable pub wake_reader : Session → ℕ → Session
wake_reader s p = put_stream s p (notify_read_event (s.objects p))

unfoldable pub handle_psh : Env → Session → Frame → Session
handle_psh env s f = elim (lookup f.sid s.streams) [
  | none ↦ s
  | some p ↦
      wake_reader
        (push_bytes env (record s { bucket = sub32 s.bucket (length f.payload) }) p f.payload) p
]

unfoldable pub handle_ful : Session → Frame → Session
handle_ful s f = elim (lookup f.sid s.streams) [
  | none ↦ s
  | some p ↦ put_stream s p (pause_write (s.objects p))
]

unfoldable pub handle_emp : Session → Frame → Session
handle_emp s f = elim (lookup f.sid s.streams) [
  | none ↦ s
  | some p ↦ put_stream s p (notify_read_event (resume_write (s.objects p)))
]

unfoldable pub handle_ack : Env → Session → Frame → Session
handle_ack env s f = if f.sid == s.rtt_sn then record s { rtt = env.now - s.rtt_test + 1 } else s

-- The switch of recvLoop, after dataReady is set.
unfoldable pub handle_frame : Env → Session → Frame → Handled
handle_frame env s f =
    let s' = record s { data_ready = true } in
    if f.cmd == cmd_nop
    then next (handle_nop env s' f)
    else if f.cmd == cmd_syn
    then handle_syn env s' f
    else if f.cmd == cmd_fin
    then next (handle_fin s' f)
    else if f.cmd == cmd_psh
    then next (handle_psh env s' f)
    else if f.cmd == cmd_ful
    then next (handle_ful s' f)
    else if f.cmd == cmd_emp
    then next (handle_emp s' f)
    else if f.cmd == cmd_ack
    then next (handle_ack env s' f)
    else ended (close s').0

-- One round of recvLoop on the bytes that the connection still delivers.
pub data Round : Type 0 where
  no_tokens : Session → Round
  handled : Handled → List ℕ → Round
  crashed : Session → Round

-- With no tokens the loop waits on bucketNotify, and takes the token that lies there.
unfoldable pub recv_round : Env → Session → List ℕ → Round
recv_round env s input =
    if not (lt32 0 s.bucket) && not s.die
    then no_tokens (record s { bucket_notify = false })
    else elim (read_frame input) [
      | frame f rest ↦ handled (handle_frame env s f) rest
      | failed e ↦ handled (ended (close s).0) input
      | panicked ↦ crashed s
    ]

-- n rounds of recvLoop, or fewer if it stops: round n of what is left runs in the environment envs n.
unfoldable pub recv_rounds : ℕ → (ℕ → Env) → Session → List ℕ → Round
recv_rounds zero envs s input = handled (next s) input
recv_rounds (suc n) envs s input = elim (recv_round (envs n) s input) [
  | no_tokens t ↦ no_tokens t
  | handled h rest ↦ elim h [
    | next t ↦ recv_rounds n envs t rest
    | waits t p ↦ handled (waits t p) rest
    | ended t ↦ handled (ended t) rest
  ]
  | crashed t ↦ crashed t
]

-- The ping of keepalive, at its start and at each tick; the tick also signals recvLoop.
unfoldable pub ping : Env → Session → Session
ping env s =
    let sn = (s.rtt_sn + 1) % 4294967296 in
    (write_frame env (record s { rtt_test = env.now; rtt_sn = sn }) (new_frame cmd_nop sn)).0

unfoldable pub tick_ping : Env → Session → Session
unfolding ping
tick_ping env s = notify_bucket (ping env s)

-- The timeout tick: the session closes unless a frame has arrived since the last one.
unfoldable pub tick_timeout : Session → Session
tick_timeout s = if s.data_ready then record s { data_ready = false } else (close s).0
