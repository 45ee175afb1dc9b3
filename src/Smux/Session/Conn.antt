-- ===== src/Smux/Session/Conn.antt =====
-- Read, Write and Close of lib/smux/stream.go, on the stream behind a pointer.
pub mod Cases
pub mod Contract
pub mod Writer
use revese_server.Base.{
  ℕ, zero, suc, ◌+◌, ◌-◌, Bool, true, false, not, List, [], ◌∷◌, ◌++◌, Option, none, some, ◌==◌,
  ltb, length, take, drop, if◌then◌else◌, ◌&&◌,
}
use revese_server.Smux.Frame.{Frame, new_frame, cmd_fin, cmd_psh}
use revese_server.Smux.Stream.{Stream, split}
use revese_server.Smux.Session.{Session, Env, put_stream, write_frame, return_tokens, stream_closed}
use revese_server.Smux.Session.Flow.{stream_return_tokens}
use revese_server.Smux.Session.Open.{Error, broken_pipe, conn_failed, timed_out, eof}

-- Close. `none` is the panic of streamClosed on an id that the map does not hold; an answer `none` in
-- the pair is a nil error.
unfoldable pub close_stream : Env → Session → ℕ → Option (Session × Option Error)
close_stream env s p =
    let st = s.objects p in
    if st.die
    then some (s, if st.rstflag then none else some broken_pipe)
    else elim (stream_closed (put_stream s p (record st { die = true })) st.id) [
      | none ↦ none
      | some s' ↦
          let (s'', written) = write_frame env s' (new_frame cmd_fin st.id) in
          some (s'', if written then none else some conn_failed)
    ]

-- What one pass of Read comes to, up to its select: bytes, an error, or a wait.
pub data ReadPass : Type 0 where
  got : Session → List ℕ → ReadPass
  read_error : Session → Error → ReadPass
  must_wait : Session → ReadPass
  read_panic : ReadPass

-- The buffer gives min(len(b), buffer.Len()) bytes; the tokens go back to session and stream.
unfoldable pub take_bytes : Env → Session → ℕ → ℕ → Session
take_bytes env s p n =
    let st = s.objects p in
    stream_return_tokens env
      (return_tokens (put_stream s p (record st { buffer = drop n st.buffer })) n) p n

-- One pass of the loop READ, for a slice of `len` bytes.
unfoldable pub read_pass : Env → Session → ℕ → ℕ → ReadPass
read_pass env s p len =
    let st = s.objects p in
    let bytes = take len st.buffer in
    if ltb 0 (length bytes)
    then got (take_bytes env s p (length bytes)) bytes
    else if ltb 0 (length st.buffer)
    then got s []
    else if st.rstflag
    then elim (close_stream env s p) [ none ↦ read_panic | some (s', e) ↦ read_error s' eof ]
    else must_wait s

-- What the select of Read takes: a token, which starts the next pass, a deadline or the stream's end.
pub data WaitChoice : Type 0 where
  take_event take_deadline take_die : WaitChoice

pub data Waited : Type 0 where
  woken : Session → Waited
  wait_error : Error → Waited
  still_waits : Waited

unfoldable pub read_wait : WaitChoice → Session → ℕ → Waited
read_wait take_event s p =
    if (s.objects p).ch_read_event
    then woken (put_stream s p (record (s.objects p) { ch_read_event = false }))
    else still_waits
read_wait take_deadline s p = elim (s.objects p).read_deadline [
  | none ↦ still_waits
  | some d ↦ wait_error timed_out
]
read_wait take_die s p = if (s.objects p).die then wait_error broken_pipe else still_waits

-- The wait of Write on a paused stream: bucketNotify, the stream's end or the deadline.
unfoldable pub write_wait : WaitChoice → Session → ℕ → Waited
write_wait take_event s p =
    if (s.objects p).bucket_notify
    then woken (put_stream s p (record (s.objects p) { bucket_notify = false }))
    else still_waits
write_wait take_deadline s p = elim (s.objects p).write_deadline [
  | none ↦ still_waits
  | some d ↦ wait_error timed_out
]
write_wait take_die s p = if (s.objects p).die then wait_error broken_pipe else still_waits

-- What happens to one frame of Write: it is handed over and the send loop answers with the bytes
-- written and perhaps an error; or it is handed over and the stream ends, or the deadline passes,
-- before the answer; or that happens before it is handed over.
pub data FrameReply : Type 0 where
  answered : ℕ → Bool → FrameReply
  lost : Error → FrameReply
  not_taken : Error → FrameReply

-- The loop of Write: `replies` is what happens to each frame in turn; a frame with no reply waits.
-- The answer is the session, the bytes counted, and the error; `none` waits for ever.
unfoldable pub send_frames :
    Session → List Frame → List FrameReply → ℕ → Option (Session × ℕ × Option Error)
send_frames s [] replies n = some (s, n, none)
send_frames s (f ∷ fs) [] n = none
send_frames s (f ∷ fs) (answered k true ∷ rs) n =
    send_frames (record s { sent = s.sent ++ (f ∷ []) }) fs rs (n + k)
send_frames s (f ∷ fs) (answered k false ∷ rs) n =
    some (record s { sent = s.sent ++ (f ∷ []) }, n + k, some conn_failed)
send_frames s (f ∷ fs) (lost e ∷ rs) n = some (record s { sent = s.sent ++ (f ∷ []) }, n, some e)
send_frames s (f ∷ fs) (not_taken e ∷ rs) n = some (s, n, some e)

-- Write. A paused stream first waits, for what `choice` says; then its state is not looked at again.
unfoldable pub write :
    Session → ℕ → List ℕ → WaitChoice → List FrameReply → Option (Session × ℕ × Option Error)
write s p bytes choice replies =
    let st = s.objects p in
    let frames = split st bytes cmd_psh st.id in
    if st.die
    then some (s, 0, some broken_pipe)
    else if st.fulflag
    then elim (write_wait choice s p) [
      | woken s' ↦ send_frames s' frames replies 0
      | wait_error e ↦ some (s, 0, some e)
      | still_waits ↦ none
    ]
    else send_frames s frames replies 0
