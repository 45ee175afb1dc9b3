-- ===== src/Programs/Client.antt =====
-- client.go: the program behind the firewall, which connects to the hub and serves its streams.
pub mod Reconnect
use revese_server.Base.{
  ◌==◌, length, not, Bool, if◌then◌else◌, none, some, Option, ℕ, List, [], ◌∷◌, ◌++◌, true, false,
}
use revese_server.Smux.Session.{Session}
use revese_server.Smux.Session.Open.{
  AcceptChoice, AcceptResult, accepted_stream, accept_failed, accept_waits, accept_stream,
}
use revese_server.Smux.Mux.{MuxResult, bad_config, made, server}
use revese_server.Streamcoder.Coder.{Cipher, Coder, new_coder, new_key_nonce}
use revese_server.Programs.Settings.{Settings, normalise, smux_config}
use revese_server.Programs.Hub.{Received, Transport, plain, coded}

pub record Config : Type 0 where
  pub target_addr : List ℕ
  pub hub_addr : List ℕ
  pub settings : Settings

-- The configuration that main runs with.
unfoldable pub run_config : Config → Config
run_config c = record c { settings = normalise c.settings }

module _ (cipher : Cipher) (sha512 sha256 : List ℕ → List ℕ) where
  -- What createConn returns: an error, or a session (nil is `none`) and the connection below it.
  pub data Created : Type 0 where
    failed : Created
    connected : Transport cipher sha512 sha256 → Option Session → Created

  abbrev created_plain : MuxResult → Created
  created_plain (bad_config v) = failed
  created_plain (made s) = connected plain (some s)

  -- With a key, the error of smux.Server goes to the inner `err` and is not looked at.
  abbrev created_coded : Coder cipher → MuxResult → Created
  created_coded c (bad_config v) = connected (coded c) none
  created_coded c (made s) = connected (coded c) (some s)

  -- createConn: `dialed` says whether net.Dial succeeded, `cnonce` is the nonce sent, `received` the answer.
  unfoldable pub create_conn : Config → Bool → List ℕ → Received → ℕ → Created
  create_conn c dialed cnonce received now =
      let session = server (some (smux_config c.settings)) now in
      if not dialed
      then failed
      else if length c.settings.key == 0
      then created_plain session
      else if not (length received.bytes == 12)
      then failed
      else if received.failed
      then failed
      else let (key, nonce) =
          new_key_nonce cipher sha512 sha256 c.settings.key cnonce received.bytes in
        elim (new_coder cipher key nonce false) [
          | none ↦ failed
          | some coder ↦ created_coded coder session
        ]

  -- waitConn, on the results of createConn one after the other. `none`: none of them is a session.
  unfoldable pub wait_conn : List Created → Option (Option Session)
  wait_conn [] = none
  wait_conn (failed ∷ rest) = wait_conn rest
  wait_conn (connected t s ∷ rest) = some s

-- What main does after AcceptStream: a new stream to serve, the next call, or waitConn.
pub data Round : Type 0 where
  serves : ℕ → Round
  calls_again : Round
  reconnects : Round
  waits : Round

abbrev after_accept : Session → AcceptResult → Round
after_accept s (accepted_stream p) = serves p
after_accept s (accept_failed e) = if s.die then reconnects else calls_again
after_accept s accept_waits = waits

unfoldable pub accept_round : AcceptChoice → Session → Session × Round
accept_round choice s = let (s', result) = accept_stream choice s in (s', after_accept s' result)
