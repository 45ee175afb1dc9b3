-- ===== src/Tests/Sessions.antt =====
-- Runs of lib/smux/session.go and stream.go.
use revese_server.Base.{
  ℕ, List, ◌++◌, some, none, refl, ◌⊎◌, ◌≤◌, ◌+◌, ◌%◌, ◌≡◌, [], ◌∷◌, true, false,
}
use revese_server.Base.Int.{int32_of, pos}
use revese_server.Base.{◌<◌, lt32, arith}
use revese_server.Smux.Frame.{Frame, new_frame, cmd_psh, cmd_syn}
use revese_server.Smux.Config.{default_config}
use revese_server.Smux.Session.{Session, Env, new_session, alloc_stream}
use revese_server.Smux.Session.Recv.{handle_frame, handle_syn, offer_accept}
use revese_server.Smux.Session.Conn.{write, send_frames, answered, take_event}
use revese_server.Smux.Session.Spec.{Trace, no_streams}
use revese_server.Smux.Session.Refine.{view}
use revese_server.Smux.Session.Refine.Run.{events, session_refines}
use revese_server.Smux.Stream.{split, split_loop, new_stream}
use revese_server.Base.Maps.{lookup, insert}
use revese_server.Smux.Session.Machine.{handled_state, Reach, here, then_step, receiving}
use revese_server.Smux.Session.Tokens.{buffered}
use revese_server.Smux.Session.Tokens.Reach.{tokens_conserved}
use revese_server.Smux.Session.Tokens.Bound.{Paced, buffers_bounded}

abbrev pub env : Env
env = record { now = 5; taken = false; written = true; blend = λ a b. a }

abbrev pub syn : Frame
syn = new_frame cmd_syn 3

abbrev pub psh : Frame
psh = record { ver = 1; cmd = cmd_psh; sid = 3; payload = 104 ∷ 105 ∷ [] }

abbrev pub fresh_session : Session
fresh_session = new_session default_config false 0

abbrev pub with_stream : Session
with_stream = handled_state (handle_frame env fresh_session syn)

abbrev pub with_data : Session
with_data = handled_state (handle_frame env with_stream psh)

pub history : Reach fresh_session with_data
history =
    then_step (then_step here (receiving env fresh_session syn)) (receiving env with_stream psh)

tokens_conserved_example :
    (with_data.bucket + buffered with_data.next_ptr with_data.objects) % 4294967296
    ≡ int32_of default_config.max_receive_buffer
tokens_conserved_example = tokens_conserved default_config false 0 with_data history

buffer_size : default_config.max_receive_buffer ≡ pos 16777216
unfolding default_config
buffer_size = refl

history-Paced : Paced history
unfolding Paced history new_session handle_frame handle_syn offer_accept alloc_stream lookup
    default_config new_frame
history-Paced = ((refl, omega arith), ((refl, omega arith), tt))

buffers_bounded_example :
    (buffered with_data.next_ptr with_data.objects ≤ 16777216 + 65534)
    × (((lt32 0 with_data.bucket ≡ true)
          × (buffered with_data.next_ptr with_data.objects < 16777216))
        ⊎ ((lt32 0 with_data.bucket ≡ false)
            × (16777216 ≤ buffered with_data.next_ptr with_data.objects)))
buffers_bounded_example =
    buffers_bounded default_config false 0 16777216 with_data history buffer_size (omega arith)
      (omega arith) history-Paced

session_refines_example : Trace no_streams (events history) (view with_data)
session_refines_example = session_refines default_config false 0 with_data history

abbrev one_byte : List ℕ
one_byte = 104 ∷ []

abbrev one_sent : Session
one_sent = record with_stream {
  sent = with_stream.sent ++ (record { ver = 1; cmd = cmd_psh; sid = 3; payload = 104 ∷ [] } ∷ []);
}

byte_sent :
    write with_stream 0 one_byte take_event (answered 1 true ∷ []) ≡ some (one_sent, 1, none)
unfolding write send_frames split split_loop new_session handle_frame handle_syn alloc_stream insert
    offer_accept lookup new_frame new_stream default_config
byte_sent = refl
