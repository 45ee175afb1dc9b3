-- ===== src/Programs/Settings.antt =====
-- The settings that the configuration files of hub.go and client.go share, and what main does with them.
pub mod Accepted
use revese_server.Base.{suc, ◌-◌, ltb, ◌||◌, ◌%◌, List, ℕ, Bool, ◌*◌, if◌then◌else◌, true, false}
use revese_server.Base.Int.{ℤ, pos, negsuc, ltb_ℤ, leb_ℤ}
use revese_server.Smux.Config.{Config, default_config}

pub record Settings : Type 0 where
  pub mux_buf : ℤ
  pub mux_stream_buf : ℤ
  pub stream_buf_en : Bool
  pub boost_timeout : ℤ
  pub pipe_buf : ℤ
  pub rw_buf : ℤ
  pub max_frame_size : ℤ
  pub key : List ℕ

abbrev pub normal_mux_buf : ℤ → ℤ
normal_mux_buf b = if leb_ℤ b (pos 0) then pos (64 * 1024 * 1024) else b

-- MuxStreamBuf, next to a MuxBuf that has its default already.
abbrev pub normal_stream_buf : ℤ → ℤ → ℤ
normal_stream_buf b n = if leb_ℤ n (pos 0) || ltb_ℤ b n then pos (16 * 1024) else n

abbrev pub normal_frame_size : ℤ → ℤ
normal_frame_size n = if leb_ℤ n (pos 0) || ltb_ℤ (pos 65535) n then pos 1400 else n

abbrev pub or_if_positive : ℕ → ℤ → ℤ
or_if_positive default n = if leb_ℤ n (pos 0) then pos default else n

-- The tests of main between reading the configuration and its use.
unfoldable pub normalise : Settings → Settings
normalise c = record c {
  mux_buf = normal_mux_buf c.mux_buf;
  mux_stream_buf = normal_stream_buf (normal_mux_buf c.mux_buf) c.mux_stream_buf;
  max_frame_size = normal_frame_size c.max_frame_size;
  pipe_buf = or_if_positive 4096 c.pipe_buf;
  boost_timeout = or_if_positive 10000 c.boost_timeout;
}

-- The int64 of a bit pattern.
abbrev pub int64_of : ℕ → ℤ
int64_of n = if ltb n 9223372036854775808 then pos n else negsuc (18446744073709551615 - n)

-- time.Duration(n) * time.Millisecond, which wraps around.
abbrev pub milliseconds : ℤ → ℤ
milliseconds (pos n) = int64_of (n * 1000000 % 18446744073709551616)
milliseconds (negsuc n) =
    int64_of
      ((18446744073709551616 - suc n * 1000000 % 18446744073709551616) % 18446744073709551616)

unfoldable pub smux_config : Settings → Config
smux_config c = record default_config {
  max_receive_buffer = c.mux_buf;
  max_frame_size = c.max_frame_size;
  max_stream_buffer = c.mux_stream_buf;
  enable_stream_buffer = c.stream_buf_en;
  boost_timeout = milliseconds c.boost_timeout;
}
