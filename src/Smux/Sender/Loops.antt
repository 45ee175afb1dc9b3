-- ===== src/Smux/Sender/Loops.antt =====
-- The two goroutines of sendLoop in lib/smux/session.go that move requests, in small steps: each send,
-- receive and atomic operation between which the other goroutine can come in is a step of its own.
pub mod Hand
pub mod Order
pub mod Overtaking
use revese_server.Base.{
  ℕ, ◌-◌, ◌<◌, ◌≡◌, ◌++◌, Bool, true, false, not, ◌&&◌, ◌||◌, ◌==◌, leb, if◌then◌else◌, Option,
  none, some, List, [], ◌∷◌, refl,
}
use revese_server.Base.Maps.{lookup, insert, erase}
use revese_server.Smux.Frame.{Frame, cmd_syn, cmd_fin, cmd_psh}
use revese_server.Smux.Sender.{Sender, new_sender, queue_of, pass_on, enqueue, has_room}
use revese_server.Smux.Sender.Wake.{is_notified}

-- `hand` is the request that the collecting goroutine has taken and not yet sent on `writes`, if any.
-- `adding`: the loop has sent on a queue and not yet counted; `owes`: it has not yet come to its send on
-- writeNotify. reqCount of the source is req_count, and one more for the request in hand, and one less
-- for one that is not counted yet. `token` and `busy` as in Waker.
pub record Loops : Type 0 where
  pub sender : Sender
  pub hand : List Frame
  pub adding : Bool
  pub owes : Bool
  pub token : Bool
  pub busy : Bool

unfoldable pub new_loops : ℕ → Loops
new_loops size = record {
  sender = new_sender size;
  hand = [];
  adding = false;
  owes = false;
  token = false;
  busy = false;
}

abbrev pub is_none : Option (List Frame) → Bool
is_none none = true
is_none (some q) = false

abbrev pub is_empty : List Frame → Bool
is_empty [] = true
is_empty (f ∷ fs) = false

-- Whether the loop sends a request on `writes` itself, past the queues.
unfoldable pub is_direct : Sender → Frame → Bool
is_direct s f =
    if f.cmd == cmd_fin
    then is_none (lookup f.sid s.queues)
    else not (f.cmd == cmd_syn || f.cmd == cmd_psh)

-- writes <- request
abbrev pub send_direct : Loops → Frame → Loops
send_direct w f = record w { sender = pass_on w.sender f; owes = is_notified f }

-- queue <- request
abbrev pub send_queue : Loops → Frame → Loops
send_queue w f = record w { sender = enqueue w.sender f; adding = true; owes = true }

-- atomic.AddInt32(&reqCount, 1)
unfoldable pub add_request : Loops → Loops
add_request w = record w { adding = false }

-- The select on writeNotify.
unfoldable pub send_notify : Loops → Loops
send_notify w = if w.owes && not w.adding then record w { owes = false; token = true } else w

-- <-writeNotify
unfoldable pub take_notify : Loops → Loops
take_notify w = if w.token && not w.busy then record w { token = false; busy = true } else w

-- request := <-queue, and with a FIN the queue goes away.
unfoldable pub take_front : Sender → ℕ → List Frame → Sender
take_front s sid [] = s
take_front s sid (f ∷ q) = record s {
  queues = if f.cmd == cmd_fin then erase sid s.queues else insert sid q s.queues;
  req_count = s.req_count - 1;
}

abbrev pub first_of : List Frame → List Frame
first_of [] = []
first_of (f ∷ q) = f ∷ []

unfoldable pub take_request : Loops → ℕ → Loops
take_request w sid =
    if w.busy && is_empty w.hand
    then record w {
      sender = take_front w.sender sid (queue_of w.sender sid);
      hand = first_of (queue_of w.sender sid);
    }
    else w

-- writes <- request, and atomic.AddInt32(&reqCount, -1).
unfoldable pub give_request : Loops → Loops
give_request w = record w { sender = record w.sender { out = w.sender.out ++ w.hand }; hand = [] }

-- The loop condition reqCount > 0, where it fails.
unfoldable pub rest_collector : Loops → Loops
rest_collector w =
    if w.busy && is_empty w.hand && leb w.sender.req_count (if w.adding then 1 else 0)
    then record w { busy = false }
    else w

abbrev pub rest_of : List Frame → List Frame
rest_of [] = []
rest_of (f ∷ q) = q

-- The three steps of the loop with a request that finds its queue full: request2 := <-queue, then
-- queue <- request, then send_direct for request2.
unfoldable pub take_oldest : Loops → ℕ → Loops
take_oldest w sid = record w {
  sender = record w.sender {
    queues = insert sid (rest_of (queue_of w.sender sid)) w.sender.queues;
  };
}

unfoldable pub put_in : Loops → Frame → Loops
put_in w f = record w {
  sender = record w.sender {
    queues = insert f.sid (queue_of w.sender f.sid ++ (f ∷ [])) w.sender.queues;
  };
}

-- The goroutines run in any order, and no request finds its queue full. Overtaking
-- is about one that does.
pub data Interleaved (size : ℕ) : List Frame → Loops → Type 0 where
  begins : Interleaved size [] (new_loops size)
  directly :
      (fs : List Frame) (w : Loops) (f : Frame)
      → Interleaved size fs w
      → w.owes ≡ false
      → is_direct w.sender f ≡ true
      → Interleaved size (fs ++ (f ∷ [])) (send_direct w f)
  queues :
      (fs : List Frame) (w : Loops) (f : Frame)
      → Interleaved size fs w
      → w.owes ≡ false
      → is_direct w.sender f ≡ false
      → has_room w.sender f.sid ≡ true
      → Interleaved size (fs ++ (f ∷ [])) (send_queue w f)
  counts :
      (fs : List Frame) (w : Loops) → Interleaved size fs w → Interleaved size fs (add_request w)
  notifies :
      (fs : List Frame) (w : Loops) → Interleaved size fs w → Interleaved size fs (send_notify w)
  wakes :
      (fs : List Frame) (w : Loops) → Interleaved size fs w → Interleaved size fs (take_notify w)
  takes :
      (fs : List Frame) (w : Loops) (sid : ℕ)
      → Interleaved size fs w
      → Interleaved size fs (take_request w sid)
  gives :
      (fs : List Frame) (w : Loops) → Interleaved size fs w → Interleaved size fs (give_request w)
  rests :
      (fs : List Frame) (w : Loops) → Interleaved size fs w → Interleaved size fs (rest_collector w)
