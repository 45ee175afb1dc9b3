-- ===== src/Tests/Pausing.antt =====
-- Data for a stream of lib/smux that goes over MaxStreamBuffer, and a Read that is quicker than the pause.
use revese_server.Base.{ℕ, ◌≡◌, ◌++◌, List, [], ◌∷◌, true, false, refl, arith}
use revese_server.Base.Int.{pos}
use revese_server.Base.Maps.{lookup}
use revese_server.Smux.Frame.{new_frame, cmd_ful}
use revese_server.Smux.Config.{Config, default_config}
use revese_server.Smux.Stream.{Stream, new_stream}
use revese_server.Smux.Session.{Session, new_session, alloc_stream, put_stream}
use revese_server.Smux.Session.Flow.{push_outcome, book_bytes, adapt_guess, send_pause}
use revese_server.Smux.Session.Recv.{handle_frame, handle_syn, offer_accept}
use revese_server.Smux.Session.Conn.{read_pass, got, must_wait}
use revese_server.Smux.Session.Machine.{handled_state}
use revese_server.Smux.Session.Delivery.Pausing.{stays_paused}
use revese_server.Tests.Sessions.{env, syn}

abbrev small_config : Config
small_config = record default_config { enable_stream_buffer = true; max_stream_buffer = pos 1 }

abbrev one_stream : Session
one_stream = handled_state (handle_frame env (new_session small_config false 0) syn)

abbrev two_bytes : List ℕ
two_bytes = 104 ∷ 105 ∷ []

abbrev pushed : Stream
pushed = (push_outcome env small_config (record (one_stream.objects 0) { buffer = two_bytes }) 2).0

live :
    (one_stream.die ≡ false)
    × ((one_stream.objects 0).empflag ≡ true)
    × ((one_stream.objects 0).rstflag ≡ false)
unfolding new_session handle_frame handle_syn offer_accept alloc_stream lookup new_frame new_stream
live = (refl, refl, refl)

to_pause :
    push_outcome env one_stream.config
      (record (one_stream.objects 0) { buffer = (one_stream.objects 0).buffer ++ two_bytes })
      2
    ≡ (pushed, true)
unfolding new_session handle_frame handle_syn offer_accept alloc_stream lookup new_frame new_stream
    push_outcome book_bytes adapt_guess default_config
to_pause = refl

stays_paused_example :
    (t : Session) × (read_pass env (put_stream one_stream 0 pushed) 0 8
      ≡ got t ((one_stream.objects 0).buffer ++ two_bytes))
    × ((send_pause env t 0).sent
        ≡ one_stream.sent ++ (new_frame cmd_ful (one_stream.objects 0).id ∷ []))
    × (((send_pause env t 0).objects 0).empflag ≡ false)
    × (((send_pause env t 0).objects 0).buffer ≡ [])
    × (read_pass env (send_pause env t 0) 0 8 ≡ must_wait (send_pause env t 0))
unfolding new_session handle_frame handle_syn offer_accept alloc_stream lookup new_frame new_stream
stays_paused_example =
    stays_paused env env env one_stream 0 8 8 two_bytes pushed live.0 live.1 live.2 to_pause
      (omega arith) (omega arith)
