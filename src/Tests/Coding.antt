-- ===== src/Tests/Coding.antt =====
-- Runs of lib/streamcoder/streamcoder.go and of the handshake, with a small cipher that meets what is
-- relied on of chacha20.
use revese_server.Base.{
  concat, ◌<◌, ◌++◌, ◌%◌, length, List, ◌≡◌, ◌+◌, refl, arith, [], ◌∷◌, true, false, some, zero,
  suc,
}
use revese_server.Base.Int.{pos}
use Prim.Native.Nat.{ℕ, bit_xor}
use revese_server.Smux.Session.{new_session}
use revese_server.Streamcoder.Coder.{
  Cipher, Coder, new_coder, directions, writes, reads, write, re_key, new_key_nonce,
}
use revese_server.Streamcoder.Coder.Transfer.{coder_delivers, re_key_delivers}
use revese_server.Programs.Settings.{Settings, normalise, smux_config}
use revese_server.Programs.Hub
use revese_server.Programs.Client
use revese_server.Programs.Hub.{upstream_init, published, coded}
use revese_server.Programs.Client.{create_conn, connected}
use revese_server.Programs.Handshake.{handshake_agrees}

abbrev pub repeat : ℕ → ℕ → List ℕ
repeat zero b = []
repeat (suc n) b = b ∷ repeat n b

-- The key stream counts upwards from the state.
abbrev pub counting_xor : ℕ → List ℕ → List ℕ
counting_xor s [] = []
counting_xor s (b ∷ d) = bit_xor b ((s + 0) % 256) ∷ counting_xor (s + 1) d

abbrev pub first_byte : List ℕ → ℕ
first_byte [] = 0
first_byte (b ∷ bs) = b

pub add_assoc : (s m n : ℕ) → s + m + n ≡ s + (m + n)
add_assoc s m n = omega arith

pub byte_bound : (s i : ℕ) → (s + i) % 256 < 256
byte_bound s i = omega arith

pub rekeyed : (t : ℕ) (nonce : List ℕ) → some (first_byte nonce) ≡ some t → first_byte nonce ≡ t
rekeyed t nonce e = ground arith

abbrev pub counting : Cipher
counting = record {
  State = ℕ;
  new_cipher = λ key nonce. some (first_byte nonce);
  rekey = λ s key nonce. first_byte nonce;
  xor_key_stream = λ s d. (s + length d, counting_xor s d);
  stream = λ s i. (s + i) % 256;
  advance = λ s n. s + n;
  new_cipher_total = λ key nonce hk hn. (first_byte nonce, refl);
  rekey_like_new = λ s t key nonce e. rekeyed t nonce e;
  xor_advances = λ s d. refl;
  xor_nil = λ s. refl;
  xor_cons = λ s b d. refl;
  advance_zero = λ s. omega arith;
  advance_add = λ s m n. add_assoc s m n;
  stream_byte = λ s i. byte_bound s i;
}

abbrev test_key : List ℕ
test_key = repeat 64 3

abbrev pub test_nonce : List ℕ
test_nonce = repeat 12 4 ++ repeat 12 9

abbrev pub client_end : Coder counting
client_end = record { enc = 4; dec = 9; nonce = test_nonce; dir = true }

abbrev pub server_end : Coder counting
server_end = record { enc = 9; dec = 4; nonce = test_nonce; dir = false }

client_made : new_coder counting test_key test_nonce true ≡ some client_end
unfolding new_coder directions
client_made = refl

server_made : new_coder counting test_key test_nonce false ≡ some server_end
unfolding new_coder directions
server_made = refl

abbrev sent_pieces : List (List ℕ)
sent_pieces = (1 ∷ 2 ∷ []) ∷ (3 ∷ []) ∷ []

abbrev read_pieces : List (List ℕ)
read_pieces = (5 ∷ []) ∷ [] ∷ (7 ∷ 5 ∷ []) ∷ []

pieces_written : concat read_pieces ≡ (writes counting client_end sent_pieces).1
unfolding writes write
pieces_written = refl

coder_delivers_example : (reads counting server_end read_pieces).1 ≡ concat sent_pieces
coder_delivers_example =
    coder_delivers counting test_key test_nonce true client_end server_end sent_pieces read_pieces
      client_made server_made (omega arith, (omega arith, (omega arith, tt))) pieces_written

abbrev pub test_settings : Settings
test_settings = record {
  mux_buf = pos 0;
  mux_stream_buf = pos 0;
  stream_buf_en = true;
  boost_timeout = pos 0;
  pipe_buf = pos 0;
  rw_buf = pos 0;
  max_frame_size = pos 70000;
  key = 115 ∷ 51 ∷ [];
}

abbrev pub test_hub : Hub.Config
test_hub = record { local_addr = []; up_stream_addr = []; settings = test_settings }

abbrev pub test_client : Client.Config
test_client = record { target_addr = []; hub_addr = []; settings = test_settings }

pub length-repeat : (n b : ℕ) → length (repeat n b) ≡ n
length-repeat zero b = refl
length-repeat (suc n) b = omega (arith, length-repeat n b)

handshake_agrees_example :
    (a : Coder counting) × (b : Coder counting) × (upstream_init counting
        (λ m. repeat 64 1)
        (λ m. repeat 32 2)
        (Hub.run_config test_hub)
        (repeat 12 6)
        (record { bytes = repeat 12 5; failed = false })
        8
      ≡ published (coded a) (some (new_session (smux_config (normalise test_settings)) true 8)))
    × (create_conn counting
          (λ m. repeat 64 1)
          (λ m. repeat 32 2)
          (Client.run_config test_client)
          true
          (repeat 12 5)
          (record { bytes = repeat 12 6; failed = false })
          9
        ≡ connected (coded b) (some (new_session (smux_config (normalise test_settings)) false 9)))
    × (a.enc ≡ b.dec)
    × (b.enc ≡ a.dec)
handshake_agrees_example =
    handshake_agrees counting (λ m. repeat 64 1) (λ m. repeat 32 2) test_hub test_client
      (repeat 12 5) (repeat 12 6) 8 9 (λ m. length-repeat 64 1) (λ m. length-repeat 32 2) refl
      (omega arith) (length-repeat 12 5) (length-repeat 12 6)

abbrev new_key : List ℕ
new_key = 8 ∷ []

abbrev pub hash64 : List ℕ → List ℕ
hash64 m = repeat 64 1

abbrev pub hash32 : List ℕ → List ℕ
hash32 m = repeat 32 2

-- The two ends are out of step before the new key.
abbrev lost_server : Coder counting
lost_server = record server_end { dec = 77 }

rekeyed_pieces :
    concat read_pieces
    ≡ (writes counting (re_key counting hash64 hash32 client_end new_key) sent_pieces).1
unfolding writes write re_key directions new_key_nonce
rekeyed_pieces = refl

re_key_delivers_example :
    (reads counting (re_key counting hash64 hash32 lost_server new_key) read_pieces).1
    ≡ concat sent_pieces
re_key_delivers_example =
    re_key_delivers counting hash64 hash32 client_end lost_server new_key sent_pieces read_pieces
      (length-repeat 64 1) (omega arith) refl refl (omega arith, (omega arith, (omega arith, tt)))
      rekeyed_pieces
