-- ===== src/Tests/Tunnel.antt =====
-- A client's two bytes on the way from hub.go to client.go.
use revese_server.Base.{
  ℕ, arith, [], ◌<◌, length, List, ◌++◌, ◌≡◌, ◌∷◌, concat, refl, some, none, true, false,
}
use revese_server.Programs.Hub
use revese_server.Programs.Client
use revese_server.Programs.Hub.{coded, published, upstream_init, Received}
use revese_server.Programs.Client.{connected, create_conn}
use revese_server.Programs.Settings.{normalise, smux_config}
use revese_server.Programs.Tunnel.Ends.{hub_to_client}
use revese_server.Smux.Frame.{Frame, new_frame, cmd_syn, cmd_psh, frame_bytes, wire_bytes}
use revese_server.Smux.Config.{default_config, verify_config}
use revese_server.Smux.Mux.{client, server}
use revese_server.Smux.Stream.{new_stream, split, split_loop}
use revese_server.Smux.Session.{Session, new_session, alloc_stream, write_frame}
use revese_server.Smux.Session.Open.{open_stream, opened, register}
use revese_server.Smux.Session.Conn.{take_event, answered, write, send_frames}
use revese_server.Smux.Session.Recv.{next, handled, recv_rounds}
use revese_server.Streamcoder.Coder.{
  Coder, new_coder, new_key_nonce, directions, writes, write as encrypt, reads,
}
use revese_server.Base.{subst, sym}
use revese_server.Base.Maps.{lookup, insert, erase}
use revese_server.Smux.Sender.{new_sender, enqueue, handle_request, collect}
use revese_server.Smux.Sender.Wake.{
  Waker, new_waker, after_request, notify, wake, turn, rest_if_done, Runs, start, request, notifies,
  wakes, takes_turn, rests,
}
use revese_server.Tests.Sessions.{env}
use revese_server.Tests.Coding.{
  counting, repeat, hash64, hash32, length-repeat, test_hub, test_client, test_settings,
}

abbrev hub_coder : Coder counting
hub_coder = record { enc = 2; dec = 2; nonce = repeat 32 2; dir = true }

abbrev client_coder : Coder counting
client_coder = record { enc = 2; dec = 2; nonce = repeat 32 2; dir = false }

abbrev hub_session : Session
hub_session = new_session (smux_config (normalise test_settings)) true 8

abbrev client_session : Session
client_session = new_session (smux_config (normalise test_settings)) false 9

abbrev opened_session : Session
opened_session = (open_stream env hub_session).0

abbrev two_bytes : List ℕ
two_bytes = 104 ∷ 105 ∷ []

abbrev written_session : Session
written_session = record opened_session {
  sent =
      opened_session.sent ++ (record { ver = 1; cmd = cmd_psh; sid = 3; payload = two_bytes } ∷ []);
}

abbrev wire_pieces : List (List ℕ)
wire_pieces =
    (1 ∷ 0 ∷ 0 ∷ 0 ∷ 3 ∷ 0 ∷ 0 ∷ 0 ∷ []) ∷ (1 ∷ 2 ∷ 2 ∷ 0 ∷ 3 ∷ 0 ∷ 0 ∷ 0 ∷ 104 ∷ 105 ∷ []) ∷ []

abbrev net_pieces : List (List ℕ)
net_pieces =
    (3 ∷ 3 ∷ 4 ∷ 5 ∷ 5 ∷ [])
    ∷ []
    ∷ (7 ∷ 8 ∷ 9 ∷ 11 ∷ 9 ∷ 14 ∷ 13 ∷ 13 ∷ 15 ∷ 16 ∷ 17 ∷ 122 ∷ 122 ∷ [])
    ∷ []

hub_ready :
    upstream_init counting hash64 hash32
      (Hub.run_config test_hub)
      (repeat 12 6)
      (record { bytes = repeat 12 5; failed = false })
      8
    ≡ published (coded hub_coder) (some hub_session)
unfolding upstream_init new_key_nonce new_coder directions client verify_config Hub.run_config
    normalise smux_config default_config
hub_ready = refl

client_ready :
    create_conn counting hash64 hash32
      (Client.run_config test_client)
      true
      (repeat 12 5)
      (record { bytes = repeat 12 6; failed = false })
      9
    ≡ connected (coded client_coder) (some client_session)
unfolding create_conn new_key_nonce new_coder directions server verify_config Client.run_config
    normalise smux_config default_config
client_ready = refl

stream_opened : open_stream env hub_session ≡ (opened_session, opened 0)
unfolding open_stream register new_session alloc_stream write_frame
stream_opened = refl

bytes_written :
    write opened_session 0 two_bytes take_event (answered 2 true ∷ [])
    ≡ some (written_session, 2, none)
unfolding write send_frames split split_loop open_stream register new_session alloc_stream
    write_frame new_stream new_frame normalise smux_config default_config insert
bytes_written = refl

frames_fit : (opened_session.objects 0).frame_size < 65528
unfolding open_stream register new_session alloc_stream write_frame new_stream normalise smux_config
    default_config insert
frames_fit = omega arith

few_bytes : length two_bytes < client_session.bucket
unfolding new_session normalise smux_config default_config
few_bytes = omega arith

bucket_positive : client_session.bucket < 2147483648
unfolding new_session normalise smux_config default_config
bucket_positive = omega arith

-- The send loop takes both frames in and passes them on.
abbrev syn_frame : Frame
syn_frame = new_frame cmd_syn 3

abbrev psh_frame : Frame
psh_frame = record { ver = 1; cmd = cmd_psh; sid = 3; payload = two_bytes }

abbrev syn_waits : Waker
syn_waits = after_request (new_waker 2) syn_frame (enqueue (new_sender 2) syn_frame)

abbrev both_wait : Waker
both_wait = after_request (notify syn_waits) psh_frame (enqueue (notify syn_waits).sender psh_frame)

abbrev collecting : Waker
collecting = wake (notify both_wait)

abbrev resting : Waker
resting = rest_if_done (turn (turn collecting 3) 3)

nothing_owed : ((new_waker 2).owes ≡ false) × ((notify syn_waits).owes ≡ false)
unfolding new_waker notify new_frame
nothing_owed = (refl, refl)

syn_taken : handle_request (new_waker 2).sender syn_frame ≡ some (enqueue (new_sender 2) syn_frame)
unfolding new_waker handle_request new_sender lookup new_frame
syn_taken = refl

psh_taken :
    handle_request (notify syn_waits).sender psh_frame
    ≡ some (enqueue (notify syn_waits).sender psh_frame)
unfolding new_waker handle_request new_sender lookup insert new_frame notify
psh_taken = refl

abbrev both_frames : List Frame
both_frames = syn_frame ∷ psh_frame ∷ []

loop-Runs : Runs 2 both_frames resting
loop-Runs = rests both_frames (turn (turn collecting 3) 3) (
    takes_turn both_frames (turn collecting 3) 3 (
      takes_turn both_frames collecting 3 (
        wakes both_frames (notify both_wait) (
          notifies both_frames both_wait (
            request (syn_frame ∷ []) (notify syn_waits) psh_frame
              (enqueue (notify syn_waits).sender psh_frame)
              (notifies (syn_frame ∷ []) syn_waits (
                request [] (new_waker 2) syn_frame (enqueue (new_sender 2) syn_frame) start
                  nothing_owed.0 syn_taken))
              nothing_owed.1 psh_taken)))))

all_written : written_session.sent ≡ both_frames
unfolding open_stream register new_session alloc_stream write_frame new_stream normalise smux_config
    default_config insert
all_written = refl

session-Runs : Runs 2 written_session.sent resting
session-Runs = subst (λ l. Runs 2 l resting) (sym all_written) loop-Runs

at_rest : (resting.owes ≡ false) × (resting.token ≡ false) × (resting.busy ≡ false)
unfolding new_waker notify wake turn rest_if_done collect new_sender lookup insert erase new_frame
at_rest = (refl, refl, refl)

on_wire : wire_bytes resting.sender.out ≡ some (concat wire_pieces)
unfolding wire_bytes frame_bytes new_waker notify wake turn rest_if_done collect new_sender lookup
    insert erase new_frame
on_wire = refl

on_net : concat net_pieces ≡ (writes counting hub_coder wire_pieces).1
unfolding writes encrypt
on_net = refl

hub_to_client_example :
    (s' : Session) × (recv_rounds
        (length written_session.sent)
        (λ i. env)
        client_session
        (reads counting client_coder net_pieces).1
      ≡ handled (next s') [])
    × (lookup (opened_session.objects 0).id s'.streams ≡ some 0)
    × ((s'.objects 0).buffer ≡ two_bytes)
hub_to_client_example =
    hub_to_client counting hash64 hash32 test_hub test_client (repeat 12 5) (repeat 12 6) 8 9
      hub_coder client_coder hub_session client_session opened_session written_session env 0 2
      two_bytes take_event (answered 2 true ∷ []) 2 resting wire_pieces net_pieces (λ i. env)
      (λ m. length-repeat 64 1) (λ m. length-repeat 32 2) refl (omega arith) (length-repeat 12 5)
      (length-repeat 12 6) hub_ready client_ready stream_opened bytes_written
      (omega arith, (omega arith, tt)) frames_fit few_bytes bucket_positive (omega arith)
      session-Runs at_rest.0 at_rest.1 at_rest.2 on_wire on_net
