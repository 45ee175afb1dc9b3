-- ===== src/Programs/Handshake.antt =====
-- The nonces that hub.go and client.go exchange, and what the two ends make of them.
use revese_server.Base.{subst, arith, ◌++◌, length, ◌≤◌, ◌≡◌, some, true, false, ℕ, List}
use revese_server.Programs.Hub
use revese_server.Programs.Client
use revese_server.Smux.Session.{Session, new_session}
use revese_server.Smux.Mux.{made, server, client}
use revese_server.Streamcoder.Coder.{Cipher, Coder, new_coder, new_key_nonce}
use revese_server.Streamcoder.Coder.Transfer.{new_coder_dual, new_coder-total}
use revese_server.Programs.Settings.{Settings, normalise, smux_config}
use revese_server.Programs.Settings.Accepted.{normalise-accepted}
use revese_server.Programs.Hub.{Received, Transport, plain, coded, published, upstream_init}
use revese_server.Programs.Client.{connected, create_conn}

-- What a program makes of a normalised configuration is a session.
client-made :
    (c : Settings) (now : ℕ)
    → client (some (smux_config (normalise c))) now
      ≡ made (new_session (smux_config (normalise c)) true now)
unfolding client
client-made c now = rw (normalise-accepted c)

server-made :
    (c : Settings) (now : ℕ)
    → server (some (smux_config (normalise c))) now
      ≡ made (new_session (smux_config (normalise c)) false now)
unfolding server
server-made c now = rw (normalise-accepted c)

module _ (cipher : Cipher) (sha512 sha256 : List ℕ → List ℕ) where
  hub-published :
      (c : Hub.Config) (cnonce snonce : List ℕ) (now : ℕ) (a : Coder cipher) (s : Session)
      → client (some (smux_config c.settings)) now ≡ made s
      → 1 ≤ length c.settings.key
      → length cnonce ≡ 12
      → new_coder cipher (sha512 c.settings.key) (sha256 (cnonce ++ snonce)) true ≡ some a
      → upstream_init cipher sha512 sha256 c snonce (record { bytes = cnonce; failed = false }) now
        ≡ published (coded a) (some s)
  unfolding upstream_init new_key_nonce
  hub-published c cnonce snonce now a s hs hk hc ha = rw (hs, hc, ha) ground arith

  client-connected :
      (c : Client.Config) (cnonce snonce : List ℕ) (now : ℕ) (b : Coder cipher) (s : Session)
      → server (some (smux_config c.settings)) now ≡ made s
      → 1 ≤ length c.settings.key
      → length snonce ≡ 12
      → new_coder cipher (sha512 c.settings.key) (sha256 (cnonce ++ snonce)) false ≡ some b
      → create_conn cipher sha512 sha256 c true cnonce
          (record { bytes = snonce; failed = false })
          now
        ≡ connected (coded b) (some s)
  unfolding create_conn new_key_nonce
  client-connected c cnonce snonce now b s hs hk hc hb = rw (hs, hc, hb) ground arith

  -- A hub and a client with the same key, that exchange nonces of 12 bytes: both get a session, from their
  -- own settings, over Coders of which each decrypts with the state that the other encrypts with.
  pub handshake_agrees :
      (hub : Hub.Config) (cl : Client.Config) (cnonce snonce : List ℕ) (t u : ℕ)
      → ((m : List ℕ) → length (sha512 m) ≡ 64)
      → ((m : List ℕ) → length (sha256 m) ≡ 32)
      → hub.settings.key ≡ cl.settings.key
      → 1 ≤ length hub.settings.key
      → length cnonce ≡ 12
      → length snonce ≡ 12
      → (a : Coder cipher) × (b : Coder cipher) × (upstream_init cipher sha512 sha256
            (Hub.run_config hub)
            snonce
            (record { bytes = cnonce; failed = false })
            t
          ≡ published (coded a) (some (new_session (smux_config (normalise hub.settings)) true t)))
        × (create_conn cipher sha512 sha256
              (Client.run_config cl)
              true
              cnonce
              (record { bytes = snonce; failed = false })
              u
            ≡ connected
                (coded b)
                (some (new_session (smux_config (normalise cl.settings)) false u)))
        × (a.enc ≡ b.dec)
        × (b.enc ≡ a.dec)
  unfolding Hub.run_config Client.run_config normalise
  handshake_agrees hub cl cnonce snonce t u h512 h256 hkey hk hc hs =
      let key = sha512 hub.settings.key in
      let nonce = sha256 (cnonce ++ snonce) in
      let (a, ha) =
        new_coder-total cipher key nonce true (omega (arith, h512 hub.settings.key))
          (omega (arith, h256 (cnonce ++ snonce))) in
      let (b, hb) =
        new_coder-total cipher key nonce false (omega (arith, h512 hub.settings.key))
          (omega (arith, h256 (cnonce ++ snonce))) in
      (
        a,
        b,
        hub-published (Hub.run_config hub) cnonce snonce t a
            (new_session (smux_config (normalise hub.settings)) true t) (client-made hub.settings t)
            hk hc ha,
        client-connected (Client.run_config cl) cnonce snonce u b
            (new_session (smux_config (normalise cl.settings)) false u) (server-made cl.settings u)
            (subst (λ k. 1 ≤ length k) hkey hk) hs
            (subst (λ k. new_coder cipher (sha512 k) nonce false ≡ some b) hkey hb),
        new_coder_dual cipher key nonce true a b ha hb,
        new_coder_dual cipher key nonce false b a hb ha,
      )
