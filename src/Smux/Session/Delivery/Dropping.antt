-- ===== src/Smux/Session/Delivery/Dropping.antt =====
-- Data and a FIN that come in between the look at the buffer and the look at rstflag in Read of lib/smux/stream.go.
use revese_server.Smux.Frame.{Frame}
use revese_server.Smux.Config.{Config}
use revese_server.Smux.Stream.{Stream}
use revese_server.Smux.Session.{Session}
