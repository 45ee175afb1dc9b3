-- ===== src/Smux/Mux.antt =====
-- The two constructors of a session in lib/smux/mux.go.
use revese_server.Base.{none, some, Option}
use revese_server.Base.{true, false, ℕ, some, Bool, Option}
use revese_server.Smux.Config.{Config, default_config, verify_config, Verdict, accepted}
use revese_server.Smux.Session.{Session, new_session}

-- `none` is a nil configuration.
abbrev pub or_default : Option Config → Config
or_default none = default_config
or_default (some c) = c

-- The error of VerifyConfig, or the session.
pub data MuxResult : Type 0 where
  bad_config : Verdict → MuxResult
  made : Session → MuxResult

abbrev pub make_session : Bool → Config → ℕ → Verdict → MuxResult
make_session client c now accepted = made (new_session c client now)
make_session client c now v = bad_config v

-- Server and Client.
unfoldable pub server : Option Config → ℕ → MuxResult
server config now = make_session false (or_default config) now (verify_config (or_default config))

unfoldable pub client : Option Config → ℕ → MuxResult
client config now = make_session true (or_default config) now (verify_config (or_default config))
