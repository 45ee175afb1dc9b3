-- ===== src/Tests/Layers.antt =====
-- Runs of the Coder over a connection.
use revese_server.Base.{[], ◌≡◌, List, ◌∷◌}
use revese_server.Streamcoder.Conn.{Call, reads, writes, closes, delays, calls}
use revese_server.Streamcoder.Coder.Layer.{
  CoderConn, coder_conn, encoded, decoded, layer_transparent,
}
use revese_server.Tests.Coding.{counting, client_end}
use revese_server.Tests.Flow.{small_conn}

abbrev two_way : List Call
two_way = writes (7 ∷ 8 ∷ []) ∷ reads 2 ∷ writes (9 ∷ []) ∷ delays 4 ∷ reads 1 ∷ closes ∷ []

abbrev coded_end : CoderConn counting small_conn
coded_end = record { inner = 1 ∷ 2 ∷ 3 ∷ []; coder = client_end }

layer_transparent_example :
    ((calls (coder_conn counting small_conn) coded_end two_way).0.inner
      ≡ (calls small_conn coded_end.inner
          (encoded counting small_conn coded_end.coder.enc two_way)).0)
    × ((calls (coder_conn counting small_conn) coded_end two_way).1
        ≡ decoded counting small_conn coded_end.coder.dec
            (calls small_conn coded_end.inner
              (encoded counting small_conn coded_end.coder.enc two_way)).1)
layer_transparent_example = layer_transparent counting small_conn coded_end two_way
