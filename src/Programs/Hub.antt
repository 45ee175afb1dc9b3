-- ===== src/Programs/Hub.antt =====
-- hub.go: the program that takes connections from behind a firewall and gives them to its clients.
pub mod Order
use revese_server.Base.{
  not, ◌==◌, length, Bool, if◌then◌else◌, none, some, Option, ℕ, List, [], ◌∷◌, ◌++◌, true, false,
}
use revese_server.Smux.Session.{Session}
use revese_server.Smux.Mux.{MuxResult, bad_config, made, client}
use revese_server.Streamcoder.Coder.{Cipher, Coder, new_coder, new_key_nonce}
use revese_server.Programs.Settings.{Settings, normalise, smux_config}

pub record Config : Type 0 where
  pub local_addr : List ℕ
  pub up_stream_addr : List ℕ
  pub settings : Settings

-- The configuration that main runs with.
unfoldable pub run_config : Config → Config
run_config c = record c { settings = normalise c.settings }

-- What conn.Read of a nonce gives: n is the number of its bytes, `failed` says that err is not nil.
pub record Received : Type 0 where
  pub bytes : List ℕ
  pub failed : Bool

module _ (cipher : Cipher) (sha512 sha256 : List ℕ → List ℕ) where
  -- The connection below a session.
  pub data Transport : Type 0 where
    plain : Transport
    coded : Coder cipher → Transport

  -- What becomes of an accepted connection: closed, or a session (nil is `none`) is sent to chAdmin.
  pub data Outcome : Type 0 where
    closed : Outcome
    published : Transport → Option Session → Outcome

  abbrev publish_plain : MuxResult → Outcome
  publish_plain (bad_config v) = closed
  publish_plain (made s) = published plain (some s)

  -- With a key, the error of smux.Client goes to the inner `err` and is not looked at.
  abbrev publish_coded : Coder cipher → MuxResult → Outcome
  publish_coded c (bad_config v) = published (coded c) none
  publish_coded c (made s) = published (coded c) (some s)

  -- The body of the upstream loop for an accepted connection: `snonce` is the hub's nonce, which it has
  -- sent, and `received` the answer.
  unfoldable pub upstream_init : Config → List ℕ → Received → ℕ → Outcome
  upstream_init c snonce received now =
      let session = client (some (smux_config c.settings)) now in
      if length c.settings.key == 0
      then publish_plain session
      else if not (length received.bytes == 12)
      then closed
      else if received.failed
      then closed
      else let (key, nonce) =
          new_key_nonce cipher sha512 sha256 c.settings.key received.bytes snonce in
        elim (new_coder cipher key nonce true) [
          | none ↦ closed
          | some coder ↦ publish_coded coder session
        ]

-- The sessions sent to chAdmin and not yet received, with that of a sender that waits, and the session
-- that main gives to clients.
pub record HubState {ℓ} (A : Type ℓ) : Type ℓ where
  pub ch_admin : List A
  pub sess : A

module _ {ℓ} {A : Type ℓ} where
  -- The upstream loop waits in its send while the one place of the channel is taken.
  unfoldable pub send_session : A → HubState A → HubState A
  send_session x h = record h { ch_admin = h.ch_admin ++ (x ∷ []) }

  abbrev take_session : List A → Option (HubState A)
  take_session [] = none
  take_session (x ∷ xs) = some (record { ch_admin = xs; sess = x })

  -- main for one client: the session that handleClient gets is `sess` of the result. `is_closed` is what
  -- IsClosed of the session says now. `none`: main waits for a session.
  unfoldable pub serve_client : Bool → HubState A → Option (HubState A)
  serve_client is_closed h = if is_closed then take_session h.ch_admin else some h
