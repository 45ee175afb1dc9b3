-- ===== src/Smux/Session/Flow.antt =====
-- The flow control of one stream, where it reaches into the session: pushBytes, returnTokens,
-- sendPause and sendResume of lib/smux/stream.go.

use revese_server.Base.{
  ℕ, ◌+◌, ◌-◌, ◌/◌, Bool, true, false, not, List, ◌++◌, length, ltb, add32, sub32, mul32, lt32,
  int32, if◌then◌else◌, ◌&&◌, ◌||◌, ◌==◌,
}
use revese_server.Base.Int.{int32_of}
use revese_server.Smux.Frame.{new_frame, cmd_ful, cmd_emp}
use revese_server.Smux.Config.{Config}
use revese_server.Smux.Stream.{Stream, time_add}
use revese_server.Smux.Session.{Session, Env, put_stream, write_frame}

-- sendPause: FUL goes out once, until the next sendResume. The answer of writeFrame is dropped.
unfoldable pub send_pause : Env → Session → ℕ → Session
send_pause env s p =
    let st = s.objects p in
    if st.empflag
    then (write_frame env (put_stream s p (record st { empflag = false }))
        (new_frame cmd_ful st.id)).0
    else s

-- sendResume: EMP goes out once, after a sendPause.
unfoldable pub send_resume : Env → Session → ℕ → Session
send_resume env s p =
    let st = s.objects p in
    if st.empflag
    then s
    else (write_frame env (put_stream s p (record st { empflag = true }))
        (new_frame cmd_emp st.id)).0

-- The part of pushBytes that books the bytes: `used` is the new bucket, and countRead starts anew.
unfoldable pub book_bytes : Stream → ℕ → Stream
book_bytes st n = record st { bucket = add32 st.bucket n; count_read = 0 }

-- lastReadOut is what had been read since the last push: then the guess of the need moves.
unfoldable pub adapt_guess : Env → ℕ → Stream → Stream
adapt_guess env last_read_out st = if last_read_out == 0 then st else record st {
  last_write = env.now;
  guess_bucket = env.blend st.guess_bucket st.guess_needed;
}

-- What pushBytes makes of the stream once the bytes are in its buffer, and whether it then calls
-- sendPause: on the hard limit, or when the boost is over and the guess is exceeded.
unfoldable pub push_outcome : Env → Config → Stream → ℕ → Stream × Bool
push_outcome env config st n =
    let booked = book_bytes st n in
    let adapted = adapt_guess env st.count_read booked in
    if not config.enable_stream_buffer
    then (st, false)
    else if lt32 (int32_of config.max_stream_buffer) booked.bucket
    then (booked, true)
    else if not (lt32 adapted.guess_bucket booked.bucket)
    then (record adapted { boost_timeout = time_add env.now config.boost_timeout }, false)
    else (adapted, ltb adapted.boost_timeout env.now)

-- pushBytes.
unfoldable pub push_bytes : Env → Session → ℕ → List ℕ → Session
push_bytes env s p bytes =
    let st = record (s.objects p) { buffer = (s.objects p).buffer ++ bytes } in
    let (st', pause) = push_outcome env s.config st (length bytes) in
    if pause then send_pause env (put_stream s p st') p else put_stream s p st'

-- What returnTokens makes of the stream after a read of n bytes, and whether it calls sendResume.
unfoldable pub read_outcome : Env → ℕ → Stream → ℕ → Stream × Bool
read_outcome env rtt st n =
    let used = sub32 st.bucket n in
    let total = add32 st.count_read n in
    let needed = mul32 total (int32 (rtt / (env.now - st.last_write + 1))) in
    (
      record st { bucket = used; count_read = total; guess_needed = needed },
      not (lt32 0 used) || (lt32 0 needed && not (lt32 needed used)),
    )

-- returnTokens of the stream.
unfoldable pub stream_return_tokens : Env → Session → ℕ → ℕ → Session
stream_return_tokens env s p n =
    let (st', resume) = read_outcome env s.rtt (s.objects p) n in
    if not s.config.enable_stream_buffer
    then s
    else if resume
    then send_resume env (put_stream s p st') p
    else put_stream s p st'
