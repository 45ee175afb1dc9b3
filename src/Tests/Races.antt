-- ===== src/Tests/Races.antt =====
-- A Close between two frames of a Write.
use revese_server.Base.{
  ℕ, arith, ◌==◌, if◌then◌else◌, ◌≡◌, ◌≢◌, ◌++◌, ◌<◌, [], ◌∷◌, length, some, none, refl, true,
}
use revese_server.Base.Maps.{lookup, insert}
use revese_server.Smux.Config.{default_config}
use revese_server.Smux.Frame.{Frame, new_frame, cmd_syn, cmd_fin, cmd_psh}
use revese_server.Smux.Stream.{new_stream, split, split_loop, recycle_tokens}
use revese_server.Smux.Session.{
  Session, new_session, alloc_stream, write_frame, stream_closed, detach,
}
use revese_server.Smux.Session.Open.{open_stream, register}
use revese_server.Smux.Session.Conn.{close_stream}
use revese_server.Smux.Session.Machine.{Reach, here, then_step, opening, closing_stream, handing}
use revese_server.Smux.Sender.{
  Sender, new_sender, queue_of, enqueue, handle_request, collect, collector,
}
use revese_server.Smux.Sender.Fifo.{Handed, nothing, requests, collects}
use revese_server.Smux.Sender.Stall.{fin_stalls}
use revese_server.Tests.Sessions.{env}

abbrev begun : Session
begun = new_session default_config true 0

abbrev opened : Session
opened = (open_stream env begun).0

abbrev syn_frame : Frame
syn_frame = new_frame cmd_syn 3

abbrev fin_frame : Frame
fin_frame = new_frame cmd_fin 3

abbrev psh_frame : Frame
psh_frame = record { ver = 1; cmd = cmd_psh; sid = 3; payload = 104 ∷ [] }

abbrev dead_stream : Session
dead_stream = record opened {
  objects = λ p. if p == 0 then record (opened.objects 0) { die = true } else opened.objects p;
}

abbrev closed : Session
closed = (write_frame env (detach dead_stream 3 0) fin_frame).0

close_returns : close_stream env opened 0 ≡ some (closed, none)
unfolding close_stream stream_closed detach recycle_tokens open_stream register new_session
    alloc_stream write_frame new_stream new_frame default_config insert lookup
close_returns = refl

stream_exists : (0 < opened.next_ptr) × (0 < closed.next_ptr)
unfolding detach recycle_tokens open_stream register new_session alloc_stream write_frame new_stream
    default_config insert
stream_exists = (omega arith, omega arith)

rest_of_write :
    split (closed.objects 0) (104 ∷ []) cmd_psh (closed.objects 0).id ≡ [] ++ (psh_frame ∷ [])
unfolding split split_loop detach recycle_tokens open_stream register new_session alloc_stream
    write_frame new_stream new_frame default_config insert
rest_of_write = refl

abbrev raced : Session
raced = record closed { sent = closed.sent ++ (psh_frame ∷ []) }

raced_history : Reach begun raced
raced_history =
    then_step
      (then_step (then_step here (opening env begun))
        (closing_stream env opened 0 closed none stream_exists.0 close_returns))
      (handing closed 0 (104 ∷ []) [] psh_frame [] stream_exists.1 rest_of_write)

data_behind_fin : raced.sent ≡ syn_frame ∷ fin_frame ∷ psh_frame ∷ []
unfolding detach recycle_tokens open_stream register new_session alloc_stream write_frame new_stream
    new_frame default_config insert
data_behind_fin = refl

-- The send loop takes these frames in; the SYN has left.
abbrev one_in : Sender
one_in = enqueue (new_sender 4) syn_frame

abbrev two_in : Sender
two_in = enqueue one_in fin_frame

abbrev all_in : Sender
all_in = enqueue two_in psh_frame

frames_taken :
    (handle_request (new_sender 4) syn_frame ≡ some one_in)
    × (handle_request one_in fin_frame ≡ some two_in)
    × (handle_request two_in psh_frame ≡ some all_in)
unfolding handle_request new_sender lookup insert new_frame
frames_taken = (refl, refl, refl)

abbrev syn_gone : Sender
syn_gone = collect all_in 3

syn_gone-Handed : Handed 4 (syn_frame ∷ fin_frame ∷ psh_frame ∷ []) syn_gone
syn_gone-Handed = collects (syn_frame ∷ fin_frame ∷ psh_frame ∷ []) all_in 3 (
    requests (syn_frame ∷ fin_frame ∷ []) two_in psh_frame all_in
      (requests (syn_frame ∷ []) one_in fin_frame two_in
        (requests [] (new_sender 4) syn_frame one_in nothing frames_taken.0) frames_taken.1)
      frames_taken.2)

fin_waits : queue_of syn_gone 3 ≡ fin_frame ∷ psh_frame ∷ []
unfolding collect new_sender lookup insert new_frame
fin_waits = refl

no_other : (j : ℕ) → j ≢ 3 → queue_of syn_gone j ≡ []
unfolding collect new_sender lookup insert new_frame
no_other j ne = ground (arith, ne)

two_counted : syn_gone.req_count ≡ length (fin_frame ∷ psh_frame ∷ [])
unfolding collect new_sender lookup insert new_frame
two_counted = refl

is_fin : fin_frame.cmd ≡ cmd_fin
unfolding new_frame
is_fin = refl

fin_stalls_example :
    ((collect syn_gone 3).out ≡ syn_gone.out ++ (fin_frame ∷ []))
    × ((j : ℕ) → queue_of (collect syn_gone 3) j ≡ [])
    × (collector 100 (collect syn_gone 3) ≡ none)
fin_stalls_example =
    fin_stalls syn_gone 3 fin_frame psh_frame [] 100 fin_waits is_fin no_other two_counted
