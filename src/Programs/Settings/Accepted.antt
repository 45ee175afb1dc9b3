-- ===== src/Programs/Settings/Accepted.antt =====
-- The settings that the programs run with are good ones.
use revese_server.Base.{true, ◌↔◌, ◌⊎◌, arith, ◌≡◌}
use revese_server.Base.Int.{pos, ◌≤ℤ◌, ltb_ℤ}
use revese_server.Smux.Config.{default_config, verify_config, accepted}
use revese_server.Programs.Settings.{Settings, normalise, smux_config}

-- VerifyConfig accepts what either program makes of its configuration file, whatever the file says.
pub normalise-accepted : (c : Settings) → verify_config (smux_config (normalise c)) ≡ accepted
unfolding verify_config normalise smux_config default_config
normalise-accepted c = ground arith

-- MuxBuf is kept where it is positive and is 64 MB otherwise. StreamBuf is kept where it is positive and not above
-- the MuxBuf that results, and is 16384 otherwise. So the stream buffer exceeds the buffer of its session, which the
-- test on StreamBuf is there to prevent, exactly where MuxBuf is positive and below 16384 and StreamBuf is not
-- from 1 to MuxBuf.
pub stream_buf_exceeds :
    (c : Settings)
    → (((pos 1 ≤ℤ c.mux_buf) × ((normalise c).mux_buf ≡ c.mux_buf))
        ⊎ ((c.mux_buf ≤ℤ pos 0) × ((normalise c).mux_buf ≡ pos 67108864)))
      × (((pos 1 ≤ℤ c.mux_stream_buf)
            × (c.mux_stream_buf ≤ℤ (normalise c).mux_buf)
            × ((normalise c).mux_stream_buf ≡ c.mux_stream_buf))
          ⊎ (((c.mux_stream_buf ≤ℤ pos 0) ⊎ (ltb_ℤ (normalise c).mux_buf c.mux_stream_buf ≡ true))
              × ((normalise c).mux_stream_buf ≡ pos 16384)))
      × ((ltb_ℤ (normalise c).mux_buf (normalise c).mux_stream_buf ≡ true) ↔ (
          (pos 1 ≤ℤ c.mux_buf)
          × (c.mux_buf ≤ℤ pos 16383)
          × ((c.mux_stream_buf ≤ℤ pos 0) ⊎ (ltb_ℤ c.mux_buf c.mux_stream_buf ≡ true))))
unfolding normalise
stream_buf_exceeds c = (ground arith, ground arith, (ground arith, ground arith))
