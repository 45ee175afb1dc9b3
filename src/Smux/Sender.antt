-- ===== src/Smux/Sender.antt =====
-- The queues of sendLoop in lib/smux/session.go: one for each stream, and the frames that have left them.
pub mod Order
pub mod Steps
pub mod Fifo
pub mod Drain
pub mod Total
pub mod Ids
pub mod Collector
pub mod Wake
pub mod Whole
pub mod Kinds
pub mod AnyOrder
pub mod Stall
pub mod TestMode
pub mod Loops
use revese_server.Base.{
  zero, Bool, ℕ, suc, ◌+◌, ◌-◌, Option, none, some, List, [], ◌∷◌, ◌++◌, length, ltb, ◌==◌,
  if◌then◌else◌,
}
use revese_server.Base.Maps.{lookup, insert, erase}
use revese_server.Smux.Frame.{Frame, cmd_syn, cmd_fin, cmd_psh}

-- `queues` is streamQueues and `out` what went to `writes`, in order; a full `writes` only delays. The
-- queue of a stream holds queue_size requests.
pub record Sender : Type 0 where
  pub queue_size : ℕ
  pub queues : List (ℕ × List Frame)
  pub out : List Frame
  pub req_count : ℕ

unfoldable pub new_sender : ℕ → Sender
new_sender size = record { queue_size = size; queues = []; out = []; req_count = 0 }

-- The queue of a stream; one that is not there is made before it is used.
abbrev pub or_empty : Option (List Frame) → List Frame
or_empty none = []
or_empty (some q) = q

abbrev pub queue_of : Sender → ℕ → List Frame
queue_of s sid = or_empty (lookup sid s.queues)

-- writes <- request
abbrev pub pass_on : Sender → Frame → Sender
pass_on s f = record s { out = s.out ++ (f ∷ []) }

-- queue <- request, and the count.
abbrev pub enqueue : Sender → Frame → Sender
enqueue s f = record s {
  queues = insert f.sid (queue_of s f.sid ++ (f ∷ [])) s.queues;
  req_count = suc s.req_count;
}

-- A full queue gives up its first request and takes the new one.
abbrev pub rotate : Sender → Frame → List Frame → Sender
rotate s f [] = s
rotate s f (g ∷ q) = pass_on (record s { queues = insert f.sid (q ++ (f ∷ [])) s.queues }) g

abbrev pub has_room : Sender → ℕ → Bool
has_room s sid = ltb (length (queue_of s sid)) s.queue_size

abbrev pub take_in : Sender → Frame → Sender
take_in s f = if has_room s f.sid then enqueue s f else rotate s f (queue_of s f.sid)

-- The loop of sendLoop for a request. `none`: a SYN waits for room.
unfoldable pub handle_request : Sender → Frame → Option Sender
handle_request s f =
    if f.cmd == cmd_syn
    then (if has_room s f.sid then some (enqueue s f) else none)
    else if f.cmd == cmd_fin
    then elim (lookup f.sid s.queues) [ none ↦ some (pass_on s f) | some q ↦ some (take_in s f) ]
    else if f.cmd == cmd_psh
    then some (take_in s f)
    else some (pass_on s f)

-- What the collecting goroutine does for one stream id: the first request leaves its queue, and with a
-- FIN the queue goes away.
abbrev pub dequeue : Sender → ℕ → List Frame → Sender
dequeue s sid [] = s
dequeue s sid (f ∷ q) = record (pass_on s f) {
  queues = if f.cmd == cmd_fin then erase sid s.queues else insert sid q s.queues;
  req_count = s.req_count - 1;
}

unfoldable pub collect : Sender → ℕ → Sender
collect s sid = dequeue s sid (queue_of s sid)

-- The keys of streamQueues, and sort.Slice on them.
unfoldable pub keys : List (ℕ × List Frame) → List ℕ
keys [] = []
keys ((sid, q) ∷ m) = sid ∷ keys m

unfoldable pub insert_sorted : ℕ → List ℕ → List ℕ
insert_sorted sid [] = sid ∷ []
insert_sorted sid (k ∷ ks) =
    let rest = insert_sorted sid ks in if ltb k sid then k ∷ rest else sid ∷ k ∷ ks

unfoldable pub sort_ids : List ℕ → List ℕ
sort_ids [] = []
sort_ids (sid ∷ ks) = insert_sorted sid (sort_ids ks)

-- One pass over the ids: a turn for each.
unfoldable pub collect_all : List ℕ → Sender → Sender
collect_all [] s = s
collect_all (sid ∷ ks) s = collect_all ks (collect s sid)

-- The collecting goroutine after a token of writeNotify: passes until reqCount is 0. `none`: the fuel
-- ran out.
unfoldable pub collector : ℕ → Sender → Option Sender
collector zero s = none
collector (suc fuel) s =
    let rest = collector fuel (collect_all (sort_ids (keys s.queues)) s) in
    if ltb 0 s.req_count then rest else some s
