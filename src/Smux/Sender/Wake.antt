-- ===== src/Smux/Sender/Wake.antt =====
-- The channel writeNotify of sendLoop in lib/smux/session.go: how its loop wakes the collecting goroutine.
use revese_server.Base.{
  ◌<◌, not, ◌||◌, ◌++◌, arith, ◌&&◌, List, ◌==◌, ◌⊎◌, Bool, ◌≡◌, if◌then◌else◌, ℕ, refl, true,
  false, some, inl, [], ◌∷◌,
}
use revese_server.Smux.Frame.{Frame, cmd_syn, cmd_fin, cmd_psh}
use revese_server.Smux.Sender.{Sender, new_sender, queue_of, handle_request, collect}
use revese_server.Smux.Sender.Order.{select, fin_last}
use revese_server.Smux.Sender.Fifo.{Handed, nothing, requests, collects}
use revese_server.Smux.Sender.Collector.{Handed-Booked, drained}

-- `owes`: the loop has handled a request and comes to its send on writeNotify. `token`: one lies there.
-- `busy`: the collecting goroutine has taken it and makes its passes.
pub record Waker : Type 0 where
  pub sender : Sender
  pub owes : Bool
  pub token : Bool
  pub busy : Bool

unfoldable pub new_waker : ℕ → Waker
new_waker size = record { sender = new_sender size; owes = false; token = false; busy = false }

-- Other commands go on to the next request with `continue`.
abbrev pub is_notified : Frame → Bool
is_notified f = f.cmd == cmd_syn || f.cmd == cmd_fin || f.cmd == cmd_psh

abbrev pub after_request : Waker → Frame → Sender → Waker
after_request w f s = record w { sender = s; owes = is_notified f }

-- The select on writeNotify, whose default does nothing where a token lies there.
unfoldable pub notify : Waker → Waker
notify w = if w.owes then record w { owes = false; token = true } else w

-- The collecting goroutine takes the token.
unfoldable pub wake : Waker → Waker
wake w = if w.token && not w.busy then record w { token = false; busy = true } else w

-- A turn of a pass for one stream id.
unfoldable pub turn : Waker → ℕ → Waker
turn w sid = if w.busy then record w { sender = collect w.sender sid } else w

-- The condition of the inner loop.
unfoldable pub rest_if_done : Waker → Waker
rest_if_done w = if w.busy && w.sender.req_count == 0 then record w { busy = false } else w

-- The loop handles a request, after its send for the one before, or it or the collecting goroutine goes on.
pub data Runs (size : ℕ) : List Frame → Waker → Type 0 where
  start : Runs size [] (new_waker size)
  request :
      (fs : List Frame) (w : Waker) (f : Frame) (s : Sender)
      → Runs size fs w
      → w.owes ≡ false
      → handle_request w.sender f ≡ some s
      → Runs size (fs ++ (f ∷ [])) (after_request w f s)
  notifies : (fs : List Frame) (w : Waker) → Runs size fs w → Runs size fs (notify w)
  wakes : (fs : List Frame) (w : Waker) → Runs size fs w → Runs size fs (wake w)
  takes_turn : (fs : List Frame) (w : Waker) (sid : ℕ) → Runs size fs w → Runs size fs (turn w sid)
  rests : (fs : List Frame) (w : Waker) → Runs size fs w → Runs size fs (rest_if_done w)

-- Nobody forgets a request that waits.
abbrev Awake : Waker → Type 0
Awake w = (w.sender.req_count ≡ 0) ⊎ ((w.owes || w.token || w.busy) ≡ true)

pub Runs-Handed :
    (size : ℕ) (fs : List Frame) (w : Waker) → Runs size fs w → Handed size fs w.sender
unfolding new_waker notify wake turn rest_if_done
Runs-Handed size _ _ start = nothing
Runs-Handed size _ _ (request fs w f s r o e) = requests fs w.sender f s (Runs-Handed size fs w r) e
Runs-Handed size _ _ (notifies fs w r) = ground (arith, Runs-Handed size fs w r)
Runs-Handed size _ _ (wakes fs w r) = ground (arith, Runs-Handed size fs w r)
Runs-Handed size _ _ (takes_turn fs w sid r) =
    ground (arith, Runs-Handed size fs w r, collects fs w.sender sid (Runs-Handed size fs w r))
Runs-Handed size _ _ (rests fs w r) = ground (arith, Runs-Handed size fs w r)

request_count :
    (s t : Sender) (f : Frame)
    → handle_request s f ≡ some t
    → is_notified f ≡ false
    → t.req_count ≡ s.req_count
unfolding handle_request
request_count s t f e n = ground (arith, e, n)

pub Runs-Awake : (size : ℕ) (fs : List Frame) (w : Waker) → Runs size fs w → Awake w
unfolding new_waker notify wake turn rest_if_done new_sender
Runs-Awake size _ _ start = inl refl
Runs-Awake size _ _ (request fs w f s r o e) =
    ground (arith, o, Runs-Awake size fs w r, request_count w.sender s f e)
Runs-Awake size _ _ (notifies fs w r) = ground (arith, Runs-Awake size fs w r)
Runs-Awake size _ _ (wakes fs w r) = ground (arith, Runs-Awake size fs w r)
Runs-Awake size _ _ (takes_turn fs w sid r) = ground (arith, Runs-Awake size fs w r)
Runs-Awake size _ _ (rests fs w r) = ground (arith, Runs-Awake size fs w r)

-- No wake-up is lost. In any run in which a request and a turn are one step each and no stream hands anything over
-- after its FIN, whenever the loop has sent its token, none lies in writeNotify, and the collecting goroutine is at rest, every
-- queue is empty and every frame that was handed over has left, those of each stream in order.
pub at_rest_all_sent :
    (size : ℕ) (fs : List Frame) (w : Waker)
    → 0 < size
    → ((sid : ℕ) → fin_last (select sid fs) ≡ true)
    → Runs size fs w
    → w.owes ≡ false
    → w.token ≡ false
    → w.busy ≡ false
    → ((k : ℕ) → queue_of w.sender k ≡ []) × ((sid : ℕ) → select sid w.sender.out ≡ select sid fs)
at_rest_all_sent size fs w p fins r owes token busy =
    let h = Runs-Handed size fs w r in
    let none_waits : w.sender.req_count ≡ 0 =
      ground (arith, owes, token, busy, Runs-Awake size fs w r) in
    drained size fs w.sender p h fins (Handed-Booked size fs w.sender p fins h) none_waits
