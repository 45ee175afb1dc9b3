-- ===== src/Programs/Tunnel/Ends.antt =====
-- From a Write on the hub to the buffer of the stream on the client, between the two ends that the handshake
-- makes.
use revese_server.Base.{
  refl, subst, ◌∙◌, sym, ap, [], concat, IsByte, arith, All, ◌<◌, ◌≤◌, length, ◌≡◌, ℕ, List, none,
  some, true, false,
}
use revese_server.Programs.Hub
use revese_server.Programs.Client
use revese_server.Programs.Hub.{Received, Transport, coded, published, upstream_init}
use revese_server.Programs.Client.{connected, create_conn}
use revese_server.Programs.Settings.{Settings, normalise, smux_config}
use revese_server.Programs.Handshake.{handshake_agrees}
use revese_server.Programs.Tunnel.Sent.{first_sent}
use revese_server.Smux.Sender.Wake.{Waker, Runs}
use revese_server.Programs.Tunnel.{open-FirstStream, first_write-sent, first_arrives}
use revese_server.Smux.Frame.{wire_bytes}
use revese_server.Smux.Config.{Config}
use revese_server.Smux.Session.{Session, Env, new_session}
use revese_server.Smux.Session.Open.{open_stream, opened}
use revese_server.Smux.Session.Conn.{WaitChoice, FrameReply, write}
use revese_server.Smux.Session.Recv.{next, handled, recv_rounds}
use revese_server.Streamcoder.Coder.{Cipher, Coder, writes, reads}
use revese_server.Base.Int.{pos_part}
use revese_server.Base.Maps.{lookup}

module _ (cipher : Cipher) (sha512 sha256 : List ℕ → List ℕ) where
  -- What the handshake has made of a hub and of a client is what handshake_agrees says.
  ends-agree :
      (hub : Hub.Config) (cl : Client.Config) (cnonce snonce : List ℕ) (t u : ℕ)
      (a b : Coder cipher) (h s : Session)
      → ((m : List ℕ) → length (sha512 m) ≡ 64)
      → ((m : List ℕ) → length (sha256 m) ≡ 32)
      → hub.settings.key ≡ cl.settings.key
      → 1 ≤ length hub.settings.key
      → length cnonce ≡ 12
      → length snonce ≡ 12
      → upstream_init cipher sha512 sha256
          (Hub.run_config hub)
          snonce
          (record { bytes = cnonce; failed = false })
          t
        ≡ published (coded a) (some h)
      → create_conn cipher sha512 sha256
          (Client.run_config cl)
          true
          cnonce
          (record { bytes = snonce; failed = false })
          u
        ≡ connected (coded b) (some s)
      → (h ≡ new_session (smux_config (normalise hub.settings)) true t)
        × (s ≡ new_session (smux_config (normalise cl.settings)) false u)
        × (a.enc ≡ b.dec)
  ends-agree hub cl cnonce snonce t u a b h s h512 h256 hkey hk hc hs ha hb =
      let (a', b', ea, eb, dual, back) =
        handshake_agrees cipher sha512 sha256 hub cl cnonce snonce t u h512 h256 hkey hk hc hs in
      ground (arith, ea, eb, ha, hb, dual)

  -- A new session of the client has no streams and nothing to accept.
  new-Ready :
      (c : Config) (now sid : ℕ)
      → (lookup sid (new_session c false now).streams ≡ none)
        × ((new_session c false now).die ≡ false)
        × (length (new_session c false now).ch_accepts < 1024)
        × ((new_session c false now).next_ptr ≡ 0)
  unfolding new_session lookup
  new-Ready c now sid = (refl, refl, omega arith, refl)

  frame_size-pos : (c : Settings) → 0 < pos_part (smux_config (normalise c)).max_frame_size
  unfolding smux_config normalise
  frame_size-pos c = ground arith

  -- A hub and a client have the same key and exchanged nonces of 12 bytes, and each has made a session
  -- over its Coder. The hub opens its first stream, and a Write on it, of bytes, returns no error. The
  -- hub's send loop, with queues of one place at least, was given the frames of both and has come to rest.
  -- What it passed on, written in pieces of any sizes, the hub's Coder encrypts, and the connection
  -- delivers that in pieces of any sizes. Then the client's receive loop, on what its Coder decrypts, goes
  -- through all of it, and has a stream of the id of the hub's, whose buffer is exactly what the hub's
  -- Write was given. The frame size is below 65528, and the client's bucket, positive as an int32, is
  -- larger than the data.
  pub hub_to_client :
      (hub : Hub.Config) (cl : Client.Config) (cnonce snonce : List ℕ) (t u : ℕ)
      (a b : Coder cipher) (h s h' h'' : Session) (env : Env) (p n : ℕ) (bts : List ℕ)
      (w : WaitChoice) (replies : List FrameReply) (size : ℕ) (q : Waker) (ws rs : List (List ℕ))
      (envs : ℕ → Env)
      → ((m : List ℕ) → length (sha512 m) ≡ 64)
      → ((m : List ℕ) → length (sha256 m) ≡ 32)
      → hub.settings.key ≡ cl.settings.key
      → 1 ≤ length hub.settings.key
      → length cnonce ≡ 12
      → length snonce ≡ 12
      → upstream_init cipher sha512 sha256
          (Hub.run_config hub)
          snonce
          (record { bytes = cnonce; failed = false })
          t
        ≡ published (coded a) (some h)
      → create_conn cipher sha512 sha256
          (Client.run_config cl)
          true
          cnonce
          (record { bytes = snonce; failed = false })
          u
        ≡ connected (coded b) (some s)
      → open_stream env h ≡ (h', opened p)
      → write h' p bts w replies ≡ some (h'', n, none)
      → All IsByte bts
      → (h'.objects p).frame_size < 65528
      → length bts < s.bucket
      → s.bucket < 2147483648
      → 0 < size
      → Runs size h''.sent q
      → q.owes ≡ false
      → q.token ≡ false
      → q.busy ≡ false
      → wire_bytes q.sender.out ≡ some (concat ws)
      → concat rs ≡ (writes cipher a ws).1
      → (s' : Session) × (recv_rounds (length h''.sent) envs s (reads cipher b rs).1
          ≡ handled (next s') [])
        × (lookup (h'.objects p).id s'.streams ≡ some 0)
        × ((s'.objects 0).buffer ≡ bts)
  hub_to_client hub cl cnonce snonce t u a b h s h' h'' env p n bts w replies size q ws rs envs h512
        h256 hkey hk hc hs ha hb ho hw bytes hi few small room_there runs owes token busy wire
        delivered =
      let (eh, es, dual) =
        ends-agree hub cl cnonce snonce t u a b h s h512 h256 hkey hk hc hs ha hb in
      let first =
        open-FirstStream (smux_config (normalise hub.settings)) t env h' p
          (ap (λ x. open_stream env x) (sym eh) ∙ ho) in
      let sent =
        first_write-sent (smux_config (normalise hub.settings)) h' h'' p n bts w replies first hw in
      let lo : 0 < (h'.objects p).frame_size =
        omega (arith, first.size, frame_size-pos hub.settings) in
      let out =
        first_sent size (h'.objects p) bts q room_there lo bytes
          (subst (λ l. Runs size l q) sent runs) owes token busy in
      let (l, d, room, ptr) = new-Ready (smux_config (normalise cl.settings)) u (h'.objects p).id in
      let (s', r, there, got) =
        first_arrives cipher a b (h'.objects p) s envs bts ws rs dual lo hi first.id bytes (rw es l)
          (rw es d) (rw es room) few small (subst (λ x. wire_bytes x ≡ some (concat ws)) out wire)
          delivered in
      let ptr' : s.next_ptr ≡ 0 = rw es ptr in
      (
        s',
        ap (λ x. recv_rounds (length x) envs s (reads cipher b rs).1) sent ∙ r,
        subst (λ k. lookup (h'.objects p).id s'.streams ≡ some k) ptr' there,
        subst (λ k. (s'.objects k).buffer ≡ bts) ptr' got,
      )
