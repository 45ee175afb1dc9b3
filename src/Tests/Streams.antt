-- ===== src/Tests/Streams.antt =====
-- Two streams of one session, whose frames leave the send loop in another order than they came.
use revese_server.Base.{
  ℕ, arith, [], ◌<◌, ◌≡◌, ◌∷◌, ◌++◌, length, List, concat, refl, some, none, true, false,
  append-nil, sym, subst,
}
use revese_server.Base.Int.{pos_part}
use revese_server.Base.Maps.{lookup, insert, erase}
use revese_server.Smux.Config.{default_config}
use revese_server.Smux.Frame.{Frame, new_frame, cmd_syn, cmd_psh, frame_bytes, wire_bytes}
use revese_server.Smux.Stream.{new_stream, split, split_loop}
use revese_server.Smux.Session.{Session, new_session, alloc_stream, write_frame}
use revese_server.Smux.Session.Open.{open_stream, register}
use revese_server.Smux.Session.Conn.{take_event, answered, write, send_frames}
use revese_server.Smux.Session.Recv.{next, handled, recv_rounds}
use revese_server.Smux.Session.Machine.{Reach, here, then_step, opening, writing}
use revese_server.Smux.Session.Refine.{view}
use revese_server.Smux.Session.Refine.Run.{new_session-Named}
use revese_server.Smux.Session.Delivery.Demux.{Room, feed}
use revese_server.Smux.Session.Sends.Run.{AllSound, sent-Sendable}
use revese_server.Smux.Sender.{new_sender, queue_of, has_room}
use revese_server.Smux.Sender.Order.{select, fin_last}
use revese_server.Smux.Sender.Loops.{
  Loops, new_loops, is_direct, send_queue, add_request, send_notify, take_notify, take_front,
  take_request, give_request, rest_collector, Interleaved, begins, queues, counts, notifies, wakes,
  takes, gives, rests,
}
use revese_server.Smux.Sender.Loops.Order.{kept_in_order, gone_at_rest}
use revese_server.Streamcoder.Coder.{writes, reads}
use revese_server.Programs.Tunnel.Streams.{streams_in_order, streams_delivered}
use revese_server.Tests.Sessions.{env}
use revese_server.Tests.Coding.{counting, client_end, server_end}
use revese_server.Smux.Frame.{Sendable}
use revese_server.Base.{All}

abbrev begun : Session
begun = new_session default_config true 0

abbrev one_open : Session
one_open = (open_stream env begun).0

abbrev two_open : Session
two_open = (open_stream env one_open).0

abbrev two_bytes : List ℕ
two_bytes = 104 ∷ 105 ∷ []

abbrev pub psh_five : Frame
psh_five = record { ver = 1; cmd = cmd_psh; sid = 5; payload = two_bytes }

abbrev written : Session
written = record two_open { sent = two_open.sent ++ (psh_five ∷ []) }

bytes_written :
    write two_open 1 two_bytes take_event (answered 2 true ∷ []) ≡ some (written, 2, none)
unfolding write send_frames split split_loop open_stream register new_session alloc_stream
    write_frame new_stream new_frame default_config insert
bytes_written = refl

stream_exists : 1 < two_open.next_ptr
unfolding open_stream register new_session alloc_stream write_frame new_stream default_config insert
stream_exists = omega arith

opened_twice : Reach begun two_open
opened_twice = then_step (then_step here (opening env begun)) (opening env one_open)

history : Reach begun written
history = then_step opened_twice (
    writing two_open 1 two_bytes take_event (answered 2 true ∷ []) written 2 none stream_exists
      bytes_written)

history-AllSound : AllSound history
unfolding AllSound history opened_twice
history-AllSound = ((omega arith, (omega arith, tt)), (tt, (tt, tt)))

abbrev syn_three : Frame
syn_three = new_frame cmd_syn 3

abbrev pub syn_five : Frame
syn_five = new_frame cmd_syn 5

abbrev handed : List Frame
handed = syn_three ∷ syn_five ∷ psh_five ∷ []

sent_all : written.sent ≡ handed
unfolding open_stream register new_session alloc_stream write_frame new_stream default_config insert
sent_all = refl

-- The send loop.
abbrev one_in : Loops
one_in = send_notify (add_request (send_queue (new_loops 2) syn_three))

abbrev two_in : Loops
two_in = send_notify (add_request (send_queue one_in syn_five))

abbrev three_in : Loops
three_in = send_notify (add_request (send_queue two_in psh_five))

-- Two SYNs have gone, and the collecting goroutine holds the data.
abbrev first_gone : Loops
first_gone = give_request (take_request (take_notify three_in) 5)

abbrev halfway : Loops
halfway = take_request (give_request (take_request first_gone 3)) 5

abbrev resting : Loops
resting = rest_collector (give_request halfway)

nothing_owed : ((new_loops 2).owes ≡ false) × (one_in.owes ≡ false) × (two_in.owes ≡ false)
unfolding new_loops send_notify add_request
nothing_owed = (refl, refl, refl)

for_queues :
    (is_direct (new_loops 2).sender syn_three ≡ false)
    × (is_direct one_in.sender syn_five ≡ false)
    × (is_direct two_in.sender psh_five ≡ false)
unfolding is_direct new_frame
for_queues = (refl, refl, refl)

room :
    (has_room (new_loops 2).sender 3 ≡ true)
    × (has_room one_in.sender 5 ≡ true)
    × (has_room two_in.sender 5 ≡ true)
unfolding new_loops send_notify add_request new_sender lookup insert new_frame
room = (refl, refl, refl)

-- One request, counted and notified.
pub takes_in :
    (size : ℕ) (fs : List Frame) (w : Loops) (f : Frame)
    → Interleaved size fs w
    → w.owes ≡ false
    → is_direct w.sender f ≡ false
    → has_room w.sender f.sid ≡ true
    → Interleaved size (fs ++ (f ∷ [])) (send_notify (add_request (send_queue w f)))
takes_in size fs w f r o d h =
    notifies (fs ++ (f ∷ [])) (add_request (send_queue w f))
      (counts (fs ++ (f ∷ [])) (send_queue w f) (queues fs w f r o d h))

handed-Interleaved : Interleaved 2 handed three_in
unfolding new_frame
handed-Interleaved =
    takes_in 2 (syn_three ∷ syn_five ∷ []) two_in psh_five
      (takes_in 2 (syn_three ∷ []) one_in syn_five
        (takes_in 2 [] (new_loops 2) syn_three begins nothing_owed.0 for_queues.0 room.0)
        nothing_owed.1 for_queues.1 room.1)
      nothing_owed.2 for_queues.2 room.2

halfway-Interleaved : Interleaved 2 handed halfway
halfway-Interleaved = takes handed (give_request (take_request first_gone 3)) 5 (
    gives handed (take_request first_gone 3) (
      takes handed first_gone 3 (
        gives handed (take_request (take_notify three_in) 5)
          (takes handed (take_notify three_in) 5 (wakes handed three_in handed-Interleaved)))))

resting-Interleaved : Interleaved 2 handed resting
resting-Interleaved = rests handed (give_request halfway) (gives handed halfway halfway-Interleaved)

at_rest : (resting.owes ≡ false) × (resting.token ≡ false) × (resting.busy ≡ false)
unfolding new_loops send_notify add_request take_notify take_request take_front give_request
    rest_collector new_sender lookup insert erase new_frame
at_rest = (refl, refl, refl)

fins_last : (sid : ℕ) → fin_last (select sid written.sent) ≡ true
unfolding select fin_last new_frame
fins_last sid = rw sent_all (ground arith)

-- The wire: SYN 5, SYN 3 and, at the end, the data.
abbrev syn_pieces : List (List ℕ)
syn_pieces = (1 ∷ 0 ∷ 0 ∷ 0 ∷ 5 ∷ 0 ∷ 0 ∷ 0 ∷ []) ∷ (1 ∷ 0 ∷ 0 ∷ 0 ∷ 3 ∷ 0 ∷ 0 ∷ 0 ∷ []) ∷ []

abbrev all_pieces : List (List ℕ)
all_pieces = syn_pieces ++ ((1 ∷ 2 ∷ 2 ∷ 0 ∷ 5 ∷ 0 ∷ 0 ∷ 0 ∷ 104 ∷ 105 ∷ []) ∷ [])

syns_on_wire : wire_bytes halfway.sender.out ≡ some (concat syn_pieces)
unfolding wire_bytes frame_bytes new_loops send_notify add_request take_notify take_request
    take_front give_request rest_collector new_sender lookup insert erase new_frame
syns_on_wire = refl

all_on_wire : wire_bytes resting.sender.out ≡ some (concat all_pieces)
unfolding wire_bytes frame_bytes new_loops send_notify add_request take_notify take_request
    take_front give_request rest_collector new_sender lookup insert erase new_frame
all_on_wire = refl

abbrev listening : Session
listening = new_session default_config false 9

syns-Room : Room listening (length halfway.sender.out) (length (concat syn_pieces))
unfolding new_session default_config new_loops send_notify add_request take_notify take_request
    take_front give_request rest_collector new_sender lookup insert erase new_frame
syns-Room = record { live = refl; places = omega arith; low = omega arith; high = omega arith }

all-Room : Room listening (length written.sent) (length (concat all_pieces))
unfolding new_session default_config
all-Room =
    rw sent_all
      (record { live = refl; places = omega arith; low = omega arith; high = omega arith })

size_low : 0 < pos_part default_config.max_frame_size
unfolding default_config
size_low = omega arith

size_high : pos_part default_config.max_frame_size < 65528
unfolding default_config
size_high = omega arith

sent-Sendable_example : All Sendable written.sent
sent-Sendable_example =
    sent-Sendable default_config true 0 written history size_low size_high history-AllSound

streams_in_order_example :
    (t : Session) × (recv_rounds
        (length halfway.sender.out)
        (λ i. env)
        listening
        (reads counting server_end ((writes counting client_end syn_pieces).1 ∷ [])).1
      ≡ handled (next t) [])
    × ((sid : ℕ)
        → feed (view listening sid) (select sid written.sent)
          ≡ feed (view t sid) (select sid halfway.hand ++ queue_of halfway.sender sid))
streams_in_order_example =
    streams_in_order counting default_config true 0 written history client_end server_end 2 halfway
      listening (λ i. env) syn_pieces ((writes counting client_end syn_pieces).1 ∷ []) size_low
      size_high history-AllSound refl (omega arith) fins_last
      (subst (λ l. Interleaved 2 l halfway) (sym sent_all) halfway-Interleaved) syns_on_wire
      (append-nil (writes counting client_end syn_pieces).1)
      (new_session-Named default_config false 9) syns-Room

streams_delivered_example :
    (t : Session) × (recv_rounds
        (length written.sent)
        (λ i. env)
        listening
        (reads counting server_end ((writes counting client_end all_pieces).1 ∷ [])).1
      ≡ handled (next t) [])
    × ((sid : ℕ) → view t sid ≡ feed (view listening sid) (select sid written.sent))
streams_delivered_example =
    streams_delivered counting default_config true 0 written history client_end server_end 2 resting
      listening (λ i. env) all_pieces ((writes counting client_end all_pieces).1 ∷ []) size_low
      size_high history-AllSound refl (omega arith) fins_last
      (subst (λ l. Interleaved 2 l resting) (sym sent_all) resting-Interleaved) at_rest.0 at_rest.1
      at_rest.2 all_on_wire (append-nil (writes counting client_end all_pieces).1)
      (new_session-Named default_config false 9) all-Room

handed-fins_last : (sid : ℕ) → fin_last (select sid handed) ≡ true
handed-fins_last sid = subst (λ l. fin_last (select sid l) ≡ true) sent_all (fins_last sid)

kept_in_order_example :
    select 5 handed
    ≡ (select 5 halfway.sender.out ++ select 5 halfway.hand) ++ queue_of halfway.sender 5
kept_in_order_example =
    kept_in_order 2 (omega arith) handed halfway 5 handed-fins_last halfway-Interleaved

gone_at_rest_example :
    ((k : ℕ) → queue_of resting.sender k ≡ [])
    × (length resting.sender.out ≡ length handed)
    × ((sid : ℕ) → select sid resting.sender.out ≡ select sid handed)
gone_at_rest_example =
    gone_at_rest 2 (omega arith) handed resting handed-fins_last resting-Interleaved at_rest.0
      at_rest.1 at_rest.2

-- What the two ids then lead to.
two_buffers :
    (feed (view listening 3) (select 3 handed) ≡ some [])
    × (feed (view listening 5) (select 5 handed) ≡ some two_bytes)
unfolding feed select new_session lookup new_frame
two_buffers = (refl, refl)
