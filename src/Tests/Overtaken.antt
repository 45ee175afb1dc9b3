-- ===== src/Tests/Overtaken.antt =====
-- A queue of the send loop of lib/smux/session.go that holds one request, and data that finds it full.
use revese_server.Base.{ℕ, ◌≡◌, ◌++◌, List, [], ◌∷◌, true, false, refl, arith}
use revese_server.Base.Maps.{lookup, insert}
use revese_server.Smux.Frame.{Frame, new_frame, cmd_psh}
use revese_server.Smux.Sender.{new_sender, queue_of, has_room}
use revese_server.Smux.Sender.Order.{select, fin_last}
use revese_server.Smux.Sender.Loops.{
  Loops, new_loops, is_direct, send_direct, send_queue, add_request, send_notify, take_notify,
  take_front, take_request, give_request, take_oldest, put_in, Interleaved, begins, wakes, takes,
}
use revese_server.Smux.Sender.Loops.Overtaking.{overtaken}
use revese_server.Tests.Streams.{takes_in, syn_five, psh_five}

abbrev one_in : Loops
one_in = send_notify (add_request (send_queue (new_loops 1) syn_five))

abbrev syn_held : Loops
syn_held = take_request (take_notify one_in) 5

abbrev full : Loops
full = send_notify (add_request (send_queue syn_held psh_five))

abbrev more_data : Frame
more_data = record { ver = 1; cmd = cmd_psh; sid = 5; payload = 33 ∷ [] }

abbrev handed : List Frame
handed = syn_five ∷ psh_five ∷ []

nothing_owed : ((new_loops 1).owes ≡ false) × (syn_held.owes ≡ false) × (full.owes ≡ false)
unfolding new_loops send_notify add_request take_notify take_request
nothing_owed = (refl, refl, refl)

for_queues :
    (is_direct (new_loops 1).sender syn_five ≡ false) × (is_direct syn_held.sender psh_five ≡ false)
unfolding is_direct new_frame
for_queues = (refl, refl)

room : (has_room (new_loops 1).sender 5 ≡ true) × (has_room syn_held.sender 5 ≡ true)
unfolding new_loops send_notify add_request take_notify take_request take_front new_sender lookup
    insert new_frame
room = (refl, refl)

no_room : has_room full.sender 5 ≡ false
unfolding new_loops send_notify add_request take_notify take_request take_front new_sender lookup
    insert new_frame
no_room = refl

held : full.hand ≡ syn_five ∷ []
unfolding new_loops send_notify add_request take_notify take_request take_front new_sender lookup
    insert new_frame
held = refl

waits : queue_of full.sender 5 ≡ psh_five ∷ []
unfolding new_loops send_notify add_request take_notify take_request take_front new_sender lookup
    insert new_frame
waits = refl

full-Interleaved : Interleaved 1 handed full
unfolding new_frame
full-Interleaved =
    takes_in 1 (syn_five ∷ []) syn_held psh_five
      (takes (syn_five ∷ []) (take_notify one_in) 5 (
        wakes (syn_five ∷ []) one_in
          (takes_in 1 [] (new_loops 1) syn_five begins nothing_owed.0 for_queues.0 room.0)))
      nothing_owed.1 for_queues.1 room.1

fins_last : (sid : ℕ) → fin_last (select sid handed) ≡ true
unfolding select fin_last new_frame
fins_last sid = ground arith

-- The data leaves before the SYN of its stream.
overtaken_example :
    (select 5 handed ≡ select 5 full.sender.out ++ (syn_five ∷ psh_five ∷ []))
    × (select 5
          (give_request (send_direct (put_in (take_oldest full 5) more_data) psh_five)).sender.out
        ≡ select 5 full.sender.out ++ (psh_five ∷ syn_five ∷ []))
    × (queue_of
          (give_request (send_direct (put_in (take_oldest full 5) more_data) psh_five)).sender
          5
        ≡ [] ++ (more_data ∷ []))
unfolding new_frame
overtaken_example =
    overtaken 1 handed full more_data psh_five syn_five [] (omega arith) fins_last full-Interleaved
      nothing_owed.2 refl no_room held refl waits
