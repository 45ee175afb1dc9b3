-- ===== src/Tests/Running.antt =====
-- Runs of hub.go and client.go.
use revese_server.Base.{
  ◌≤◌, length, ◌++◌, ◌↔◌, ◌⊎◌, ℕ, ◌≡◌, refl, arith, [], ◌∷◌, true, false, some,
}
use revese_server.Base.Int.{negsuc, pos, ◌≤ℤ◌, ltb_ℤ}
use revese_server.Smux.Config.{verify_config, accepted}
use revese_server.Programs.Settings.{Settings, normalise, smux_config}
use revese_server.Programs.Settings.Accepted.{stream_buf_exceeds, normalise-accepted}
use revese_server.Programs.Hub.{HubState, send_session, serve_client}
use revese_server.Programs.Hub.Order.{Run, first, sends, serves_next, sessions_in_order}

abbrev odd_settings : Settings
odd_settings = record {
  mux_buf = pos 100;
  mux_stream_buf = pos 200;
  stream_buf_en = false;
  boost_timeout = negsuc 3;
  pipe_buf = pos 0;
  rw_buf = pos 0;
  max_frame_size = pos 70000;
  key = [];
}

normalise-accepted_example : verify_config (smux_config (normalise odd_settings)) ≡ accepted
normalise-accepted_example = normalise-accepted odd_settings

stream_buf_exceeds_example :
    (((pos 1 ≤ℤ odd_settings.mux_buf) × ((normalise odd_settings).mux_buf ≡ odd_settings.mux_buf))
      ⊎ ((odd_settings.mux_buf ≤ℤ pos 0) × ((normalise odd_settings).mux_buf ≡ pos 67108864)))
    × (((pos 1 ≤ℤ odd_settings.mux_stream_buf)
          × (odd_settings.mux_stream_buf ≤ℤ (normalise odd_settings).mux_buf)
          × ((normalise odd_settings).mux_stream_buf ≡ odd_settings.mux_stream_buf))
        ⊎ (((odd_settings.mux_stream_buf ≤ℤ pos 0)
              ⊎ (ltb_ℤ (normalise odd_settings).mux_buf odd_settings.mux_stream_buf ≡ true))
            × ((normalise odd_settings).mux_stream_buf ≡ pos 16384)))
    × ((ltb_ℤ (normalise odd_settings).mux_buf (normalise odd_settings).mux_stream_buf ≡ true) ↔ (
        (pos 1 ≤ℤ odd_settings.mux_buf)
        × (odd_settings.mux_buf ≤ℤ pos 16383)
        × ((odd_settings.mux_stream_buf ≤ℤ pos 0)
            ⊎ (ltb_ℤ odd_settings.mux_buf odd_settings.mux_stream_buf ≡ true))))
stream_buf_exceeds_example = stream_buf_exceeds odd_settings

-- The default stream buffer can be larger than the session's buffer.
small_mux_buf : (normalise odd_settings).mux_stream_buf ≡ pos 16384
unfolding normalise
small_mux_buf = refl

abbrev two_sessions : HubState ℕ
two_sessions = record { ch_admin = 2 ∷ []; sess = 1 }

abbrev second_session : HubState ℕ
second_session = record { ch_admin = []; sess = 2 }

next_served : serve_client true two_sessions ≡ some second_session
unfolding serve_client
next_served = refl

two_sent : Run (1 ∷ 2 ∷ []) [] two_sessions
unfolding send_session
two_sent = sends (1 ∷ []) [] (record { ch_admin = []; sess = 1 }) 2 (first 1) (omega arith)

sessions_in_order_example :
    (1 ∷ 2 ∷ [] ≡ (1 ∷ []) ++ (second_session.sess ∷ second_session.ch_admin))
    × (length second_session.ch_admin ≤ 2)
sessions_in_order_example =
    sessions_in_order (1 ∷ 2 ∷ []) (1 ∷ []) second_session
      (serves_next (1 ∷ 2 ∷ []) [] two_sessions second_session two_sent next_served)
