-- ===== src/Tests/Endings.antt =====
-- Runs of the keepalive, of streams that end, and of a Write with its send loop, in lib/smux.
use revese_server.Base.{
  Option, arith, ℕ, ◌⊎◌, ◌<◌, List, length, ◌≤◌, ◌≡◌, refl, true, false, some, inr, [], ◌∷◌,
}
use revese_server.Base.Maps.{lookup, insert}
use revese_server.Smux.Frame.{new_frame, cmd_fin, cmd_psh}
use revese_server.Smux.Config.{default_config}
use revese_server.Smux.Stream.{new_stream, split, mark_rst, notify_read_event}
use revese_server.Smux.Session.{Session, new_session, alloc_stream, close, num_streams, write_frame}
use revese_server.Smux.Session.Flow.{push_bytes, push_outcome, book_bytes, adapt_guess, send_pause}
use revese_server.Smux.Session.Open.{
  Error, eof, broken_pipe, refused, open_stream, accept_failed, accept_stream, take_die,
}
use revese_server.Smux.Session.Recv.{
  tick_timeout, handle_frame, handle_syn, offer_accept, handle_psh, handle_fin, wake_reader,
}
use revese_server.Smux.Session.Conn.{
  WaitChoice, take_event, wait_error, read_wait, write_wait, write, FrameReply,
}
use revese_server.Smux.Session.Conn.Writer.{IsWriter, write_requests, write_served}
use revese_server.Smux.Session.Keepalive.{heard, watchdog}
use revese_server.Smux.Session.Machine.{handled_state}
use revese_server.Smux.Session.Delivery.Ending.{
  Finished, read_until, at_end, read_until_end, calls_after_close,
}
use revese_server.Tests.Sessions.{env, with_stream, with_data, history}
use revese_server.Tests.Flow.{small_conn}

watchdog_example :
    ((heard history ≡ false) × ((tick_timeout with_data).die ≡ true))
    ⊎ ((heard history ≡ true) × (tick_timeout with_data ≡ record with_data { data_ready = false }))
watchdog_example = watchdog default_config false 0 with_data history

abbrev peer_closed : Session
peer_closed = handled_state (handle_frame env with_data (new_frame cmd_fin 3))

peer_closed-Finished : Finished peer_closed 0
unfolding handle_frame handle_syn handle_fin alloc_stream insert offer_accept handle_psh
    default_config new_frame lookup push_bytes push_outcome book_bytes adapt_guess send_pause
    write_frame wake_reader notify_read_event new_stream new_session mark_rst
peer_closed-Finished = record { reset = refl; live = refl; there = refl }

two_left : length (peer_closed.objects 0).buffer < 3
unfolding handle_frame handle_syn handle_fin alloc_stream insert offer_accept handle_psh
    default_config new_frame lookup push_bytes push_outcome book_bytes adapt_guess send_pause
    write_frame wake_reader notify_read_event new_stream new_session mark_rst
two_left = omega arith

read_until_end_example :
    read_until 3 (λ i. env) peer_closed 0 1 ≡ at_end (peer_closed.objects 0).buffer eof
read_until_end_example =
    read_until_end 3 (λ i. env) peer_closed 0 1 (omega arith) peer_closed-Finished two_left

session_open : with_stream.die ≡ false
unfolding new_session handle_frame handle_syn alloc_stream insert offer_accept lookup new_frame
session_open = refl

stream_kept : lookup 3 with_stream.streams ≡ some 0
unfolding new_session handle_frame handle_syn alloc_stream insert offer_accept lookup new_frame
stream_kept = refl

abbrev one_byte : List ℕ
one_byte = 104 ∷ []

calls_after_close_example :
    (open_stream env (close with_stream).0 ≡ ((close with_stream).0, refused broken_pipe))
    × (accept_stream take_die (close with_stream).0
        ≡ ((close with_stream).0, accept_failed broken_pipe))
    × (write (close with_stream).0 0 one_byte take_event []
        ≡ some ((close with_stream).0, 0, some broken_pipe))
    × (read_wait WaitChoice.take_die (close with_stream).0 0 ≡ wait_error broken_pipe)
    × (write_wait WaitChoice.take_die (close with_stream).0 0 ≡ wait_error broken_pipe)
    × (((close with_stream).0.objects 0).buffer ≡ (with_stream.objects 0).buffer)
    × ((close with_stream).0.ch_accepts ≡ with_stream.ch_accepts)
    × (num_streams (close with_stream).0 ≡ 0)
calls_after_close_example =
    calls_after_close env with_stream 3 0 one_byte take_event [] session_open stream_kept

small_conn-IsWriter : IsWriter small_conn
small_conn-IsWriter = λ inner b. inr refl

frames_low : 0 < (with_stream.objects 0).frame_size
unfolding new_session handle_frame handle_syn alloc_stream insert offer_accept lookup new_frame
    new_stream default_config
frames_low = omega arith

frames_high : (with_stream.objects 0).frame_size ≤ 65536
unfolding new_session handle_frame handle_syn alloc_stream insert offer_accept lookup new_frame
    new_stream default_config
frames_high = omega arith

stream_live : (with_stream.objects 0).die ≡ false
unfolding new_session handle_frame handle_syn alloc_stream insert offer_accept lookup new_frame
    new_stream default_config
stream_live = refl

stream_free : (with_stream.objects 0).fulflag ≡ false
unfolding new_session handle_frame handle_syn alloc_stream insert offer_accept lookup new_frame
    new_stream default_config
stream_free = refl

write_served_example :
    (inner' : small_conn.State) × (rs : List FrameReply) × (t : Session) × (n : ℕ) × (e : Option
      Error)
    × (write_requests small_conn []
          (split (with_stream.objects 0) one_byte cmd_psh (with_stream.objects 0).id)
        ≡ some (inner', rs))
    × (write with_stream 0 one_byte take_event rs ≡ some (t, n, e))
    × (n ≤ length one_byte)
    × (((x : Error) × (e ≡ some x)) ⊎ (n ≡ length one_byte))
write_served_example =
    write_served small_conn [] with_stream 0 one_byte take_event small_conn-IsWriter frames_low
      frames_high (omega arith, tt) stream_live stream_free
