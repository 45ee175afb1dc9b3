-- ===== src/Smux/Session.antt =====
-- lib/smux/session.go: the state of a session with its streams, and the operations on it that other
-- operations are made of. Streams are objects that the session's map and its callers share: they
-- live in a store, and a pointer is the number of an object.
pub mod Flow
pub mod Open
pub mod Recv
pub mod Conn
pub mod Machine
pub mod Tokens
pub mod Kept
pub mod Keepalive
pub mod Delivery
pub mod Spec
pub mod Refine
pub mod Sends
use revese_server.Base.{
  ℕ, suc, ◌+◌, ◌%◌, ◌≤◌, Bool, true, false, not, List, [], ◌∷◌, ◌++◌, Option, none, some, ltb, ◌==◌,
  length, add32, lt32, int32, if◌then◌else◌, ◌&&◌, ◌||◌,
}
use revese_server.Base.Int.{ℤ, pos_part, int32_of}
use revese_server.Base.Maps.{lookup, insert, erase}
use revese_server.Smux.Frame.{Frame, new_frame}
use revese_server.Smux.Config.{Config}
use revese_server.Smux.Stream.{Stream, new_stream, session_close, recycle_tokens}

-- `sent` holds, oldest first, the frames that were handed to the send loop over the channel
-- `writes`. `ch_accepts` holds the pointers of that channel. `next_ptr` is the first free number.
-- The fields EnableStreamBuffer, MaxStreamBuffer and BoostTimeout, which newSession copies and nothing
-- changes, are read from `config`.
pub record Session : Type 0 where
  pub config : Config
  pub next_stream_id : ℕ
  pub bucket : ℕ
  pub bucket_notify : Bool
  pub objects : ℕ → Stream
  pub next_ptr : ℕ
  pub streams : List (ℕ × ℕ)
  pub die : Bool
  pub ch_accepts : List ℕ
  pub data_ready : Bool
  pub go_away : Bool
  pub deadline : Option ℕ
  pub rtt_sn : ℕ
  pub rtt_test : ℕ
  pub rtt : ℕ
  pub sent : List Frame
  pub conn_closed : Bool

-- What a call reads from outside: the clock, what the select of writeFrame takes when the session has
-- died (`taken`: the send loop still received the request), whether the connection wrote the frame,
-- and the float32 arithmetic that moves the guess of a stream's need.
pub record Env : Type 0 where
  pub now : ℕ
  pub taken : Bool
  pub written : Bool
  pub blend : ℕ → ℕ → ℕ

abbrev pub default_accept_backlog : ℕ
default_accept_backlog = 1024

-- A write to the store.
abbrev pub update : (ℕ → Stream) → ℕ → Stream → ℕ → Stream
update objects p st q = if q == p then st else objects q

abbrev pub put_stream : Session → ℕ → Stream → Session
put_stream s p st = record s { objects = update s.objects p st }

-- newSession, for a checked configuration. The objects of a new store are never read.
unfoldable pub new_session : Config → Bool → ℕ → Session
new_session config client now = record {
  config = config;
  next_stream_id = if client then 1 else 0;
  bucket = int32_of config.max_receive_buffer;
  bucket_notify = false;
  objects = λ p. new_stream 0 0 config.boost_timeout config.max_stream_buffer now;
  next_ptr = 0;
  streams = [];
  die = false;
  ch_accepts = [];
  data_ready = false;
  go_away = false;
  deadline = none;
  rtt_sn = 0;
  rtt_test = 0;
  rtt = 0;
  sent = [];
  conn_closed = false;
}

-- new(Stream): newStream allocates the object at the first free number.
unfoldable pub alloc_stream : Env → Session → ℕ → Session
alloc_stream env s sid = record s {
  objects = update s.objects s.next_ptr (
      new_stream sid (pos_part s.config.max_frame_size) s.config.boost_timeout
        s.config.max_stream_buffer env.now);
  next_ptr = suc s.next_ptr;
}

-- writeFrame: the request is received by the send loop, or the session is dead. The answer is true
-- if the frame was written without an error.
unfoldable pub write_frame : Env → Session → Frame → Session × Bool
write_frame env s f =
    if s.die && not env.taken
    then (s, false)
    else (record s { sent = s.sent ++ (f ∷ []) }, env.written)

-- WriteCustomCMD.
unfoldable pub write_custom_cmd : Env → Session → ℕ → List ℕ → Session × Bool
write_custom_cmd env s cmd bytes =
    if s.die then (s, false) else write_frame env s (record (new_frame cmd 0) { payload = bytes })

unfoldable pub notify_bucket : Session → Session
notify_bucket s = record s { bucket_notify = true }

-- returnTokens of the session.
unfoldable pub return_tokens : Session → ℕ → Session
return_tokens s n =
    let bucket = add32 s.bucket n in
    record s { bucket = bucket; bucket_notify = if lt32 0 bucket then true else s.bucket_notify }

-- The loop of Close over the map.
unfoldable pub close_streams : List (ℕ × ℕ) → (ℕ → Stream) → ℕ → Stream
close_streams [] objects = objects
close_streams ((sid, p) ∷ m) objects =
    close_streams m (update objects p (session_close (objects p)))

-- Close. The answer is false for the error of a session that was closed before.
unfoldable pub close : Session → Session × Bool
close s = if s.die then (s, false) else (
  record s {
    die = true;
    objects = close_streams s.streams s.objects;
    bucket_notify = true;
    conn_closed = true;
  },
  true,
)

unfoldable pub is_closed : Session → Bool
is_closed s = s.die

unfoldable pub num_streams : Session → ℕ
num_streams s = if s.die then 0 else length s.streams

unfoldable pub set_deadline : Session → Option ℕ → Session
set_deadline s t = record s { deadline = t }

-- The body of streamClosed: the tokens of what the stream still buffers go back, and it leaves the map.
unfoldable pub detach : Session → ℕ → ℕ → Session
detach s sid p =
    let (n, st) = recycle_tokens (s.objects p) in
    let s' = put_stream s p st in
    let s'' = if ltb 0 n then return_tokens s' n else s' in
    record s'' { streams = erase sid s.streams }

-- streamClosed. `none` is the nil dereference of a stream id that the map does not hold.
unfoldable pub stream_closed : Session → ℕ → Option Session
stream_closed s sid = elim (lookup sid s.streams) [ none ↦ none | some p ↦ some (detach s sid p) ]
