-- ===== src/Smux/Config.antt =====
-- lib/smux/mux.go: the configuration of a session, its defaults and its check.
use revese_server.Base.{ℕ, ◌*◌, ◌==◌, Bool, false, if◌then◌else◌}
use revese_server.Base.Int.{ℤ, pos, negsuc, ltb_ℤ, leb_ℤ}

-- A time.Duration is a number of nanoseconds. `test` is the field Test.
pub record Config : Type 0 where
  pub keep_alive_interval : ℤ
  pub keep_alive_timeout : ℤ
  pub max_frame_size : ℤ
  pub max_receive_buffer : ℤ
  pub enable_stream_buffer : Bool
  pub max_stream_buffer : ℤ
  pub boost_timeout : ℤ
  pub write_request_queue_size : ℤ
  pub test : Bool

abbrev pub second : ℕ
second = 1000000000

unfoldable pub default_config : Config
default_config = record {
  keep_alive_interval = pos (2 * second);
  keep_alive_timeout = pos (30 * second);
  max_frame_size = pos 1400;
  max_receive_buffer = pos (16 * 1024 * 1024);
  enable_stream_buffer = false;
  max_stream_buffer = pos (8 * 1024 * 1024);
  boost_timeout = pos (10 * second);
  write_request_queue_size = pos 1024;
  test = false;
}

-- The errors of VerifyConfig in the order of its tests; `accepted` is nil.
pub data Verdict : Type 0 where
  accepted bad_interval bad_timeout small_frame large_frame bad_buffer bad_stream_buffer bad_queue :
      Verdict

-- config.KeepAliveInterval == 0
abbrev pub is_zero : ℤ → Bool
is_zero (pos n) = n == 0
is_zero (negsuc n) = false

unfoldable pub verify_config : Config → Verdict
verify_config c =
    if is_zero c.keep_alive_interval
    then bad_interval
    else if ltb_ℤ c.keep_alive_timeout c.keep_alive_interval
    then bad_timeout
    else if leb_ℤ c.max_frame_size (pos 0)
    then small_frame
    else if ltb_ℤ (pos 65535) c.max_frame_size
    then large_frame
    else if leb_ℤ c.max_receive_buffer (pos 0)
    then bad_buffer
    else if leb_ℤ c.max_stream_buffer (pos 0)
    then bad_stream_buffer
    else if leb_ℤ c.write_request_queue_size (pos 0)
    then bad_queue
    else accepted
