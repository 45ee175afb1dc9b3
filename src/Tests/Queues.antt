-- ===== src/Tests/Queues.antt =====
-- Runs of the send loop of lib/smux/session.go.
use revese_server.Base.{◌≡◌, refl, [], ◌∷◌, some}
use revese_server.Base.Maps.{lookup}
use revese_server.Smux.Frame.{Frame, cmd_fin, cmd_psh}
use revese_server.Smux.Sender.{Sender, new_sender, enqueue, handle_request}

abbrev pub data_frame : Frame
data_frame = record { ver = 1; cmd = cmd_psh; sid = 3; payload = 104 ∷ [] }

abbrev fin_frame : Frame
fin_frame = record { ver = 1; cmd = cmd_fin; sid = 3; payload = [] }

abbrev pub one_waits : Sender
one_waits = enqueue (new_sender 2) data_frame

abbrev both_wait : Sender
both_wait = enqueue one_waits fin_frame

pub data_taken : handle_request (new_sender 2) data_frame ≡ some one_waits
unfolding handle_request new_sender lookup
data_taken = refl
