-- ===== src/Tests/Dropping.antt =====
-- Data and a FIN for a stream of lib/smux whose Read has just found nothing.
use revese_server.Smux.Frame.{Frame, new_frame, cmd_fin}
use revese_server.Smux.Session.{Session}

abbrev fin : Frame
fin = new_frame cmd_fin 3
