-- ===== src/Smux/Stream.antt =====
-- lib/smux/stream.go: the state of one stream, and the methods that touch that state alone.
pub mod Split
use revese_server.Base.{
  ℕ, zero, suc, ◌+◌, ◌-◌, ◌≤◌, Bool, true, false, List, [], ◌∷◌, ◌++◌, Option, none, some, ltb,
  length, take, drop, if◌then◌else◌, ◌&&◌, ◌≡◌, refl, arith,
}
use revese_server.Base.Int.{ℤ, pos, negsuc, pos_part, neg_part, int32_of}
use revese_server.Smux.Frame.{Frame, new_frame}

-- Flags that hold 0 or 1 in the source are Booleans, and so are channels of capacity one: true while
-- a token waits. Instants are numbers of nanoseconds on the monotonic clock, and int32s are patterns.
-- `none` is a deadline that is not set.
pub record Stream : Type 0 where
  pub id : ℕ
  pub rstflag : Bool
  pub buffer : List ℕ
  pub frame_size : ℕ
  pub ch_read_event : Bool
  pub die : Bool
  pub read_deadline : Option ℕ
  pub write_deadline : Option ℕ
  pub bucket : ℕ
  pub bucket_notify : Bool
  pub fulflag : Bool
  pub empflag : Bool
  pub count_read : ℕ
  pub boost_timeout : ℕ
  pub guess_bucket : ℕ
  pub last_write : ℕ
  pub guess_needed : ℕ

-- time.Time.Add.
abbrev pub time_add : ℕ → ℤ → ℕ
time_add t d = t + pos_part d - neg_part d

-- newStream, with the fields that it reads of its session: BoostTimeout and MaxStreamBuffer.
unfoldable pub new_stream : ℕ → ℕ → ℤ → ℤ → ℕ → Stream
new_stream id frame_size boost max_stream_buffer now = record {
  id = id;
  rstflag = false;
  buffer = [];
  frame_size = frame_size;
  ch_read_event = false;
  die = false;
  read_deadline = none;
  write_deadline = none;
  bucket = 0;
  bucket_notify = false;
  fulflag = false;
  empflag = true;
  count_read = 0;
  boost_timeout = time_add now boost;
  guess_bucket = int32_of max_stream_buffer;
  last_write = now;
  guess_needed = 0;
}

-- notifyReadEvent: a send on the channel that gives up where a token already waits.
unfoldable pub notify_read_event : Stream → Stream
notify_read_event st = record st { ch_read_event = true }

unfoldable pub mark_rst : Stream → Stream
mark_rst st = record st { rstflag = true }

unfoldable pub pause_write : Stream → Stream
pause_write st = record st { fulflag = true }

-- resumeWrite: the token wakes a Write that waits.
unfoldable pub resume_write : Stream → Stream
resume_write st = record st {
  bucket_notify = if st.fulflag then true else st.bucket_notify;
  fulflag = false;
}

-- sessionClose
unfoldable pub session_close : Stream → Stream
session_close st = record st { die = true }

-- recycleTokens: what is left in the buffer is dropped, and its length returned.
unfoldable pub recycle_tokens : Stream → ℕ × Stream
recycle_tokens st = (length st.buffer, record st { buffer = [] })

unfoldable pub set_read_deadline : Option ℕ → Stream → Stream
set_read_deadline t st = record st { read_deadline = t }

unfoldable pub set_write_deadline : Option ℕ → Stream → Stream
set_write_deadline t st = record st { write_deadline = t }

unfoldable pub set_deadline : Option ℕ → Stream → Stream
unfolding set_read_deadline set_write_deadline
set_deadline t st = set_write_deadline t (set_read_deadline t st)

-- The loop of split: one frame of frameSize bytes a round. A round takes bytes off as long as
-- frameSize is positive, so the length of the slice is fuel enough.
unfoldable pub split_loop : ℕ → ℕ → ℕ → ℕ → List ℕ → List Frame
split_loop zero frame_size cmd sid bts = []
split_loop (suc fuel) frame_size cmd sid bts =
    let more =
      record (new_frame cmd sid) { payload = take frame_size bts }
      ∷ split_loop fuel frame_size cmd sid (drop frame_size bts) in
    let last = record (new_frame cmd sid) { payload = bts } ∷ [] in
    if ltb frame_size (length bts) then more else if ltb 0 (length bts) then last else []

unfoldable pub split : Stream → List ℕ → ℕ → ℕ → List Frame
split st bts cmd sid = split_loop (suc (length bts)) st.frame_size cmd sid bts
