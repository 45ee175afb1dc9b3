-- ===== src/Streamcoder/Coder.antt =====
-- lib/streamcoder/streamcoder.go: a connection encrypted with a stream cipher in each direction.
pub mod Transfer
pub mod Layer
use revese_server.Base.{
  ◌++◌, ◌<◌, ◌+◌, some, none, ◌≡◌, ◌||◌, length, ltb, drop, take, if◌then◌else◌, Option, ℕ, List,
  Bool, refl, [], ◌∷◌, zero, suc, true, false,
}
use Prim.Native.Nat.{ℕ, bit_xor}

-- What is relied on of lib/chacha20, a copy of another project, by its documentation: NewCipher takes
-- a key of 32 bytes with a nonce of 8, 12 or 24, and XORKeyStream xors its input with the next bytes
-- of the key stream that they determine. `stream s i` is byte i of the key stream from state s on.
pub record Cipher : Type 1 where
  pub State : Type 0
  pub new_cipher : List ℕ → List ℕ → Option State
  pub rekey : State → List ℕ → List ℕ → State
  pub xor_key_stream : State → List ℕ → State × List ℕ
  pub stream : State → ℕ → ℕ
  pub advance : State → ℕ → State
  pub new_cipher_total :
      (key nonce : List ℕ)
      → length key ≡ 32
      → length nonce ≡ 12
      → (s : State) × (new_cipher key nonce ≡ some s)
  pub rekey_like_new :
      (s t : State) (key nonce : List ℕ) → new_cipher key nonce ≡ some t → rekey s key nonce ≡ t
  pub xor_advances : (s : State) (d : List ℕ) → (xor_key_stream s d).0 ≡ advance s (length d)
  pub xor_nil : (s : State) → (xor_key_stream s []).1 ≡ []
  pub xor_cons :
      (s : State) (b : ℕ) (d : List ℕ)
      → (xor_key_stream s (b ∷ d)).1 ≡ bit_xor b (stream s 0) ∷ (xor_key_stream (advance s 1) d).1
  pub advance_zero : (s : State) → advance s 0 ≡ s
  pub advance_add : (s : State) (m n : ℕ) → advance (advance s m) n ≡ advance s (m + n)
  pub stream_byte : (s : State) (i : ℕ) → stream s i < 256

module _ (cipher : Cipher) where
  open cipher use {State, new_cipher, rekey, xor_key_stream}

  -- A Coder without its connection: the bytes that a Read delivers are an argument, those written a result.
  pub record Coder : Type 0 where
    pub enc : State
    pub dec : State
    pub nonce : List ℕ
    pub dir : Bool

  -- The halves of the key and of the nonce: key[0:32] with nonce[0:12], key[32:64] with nonce[12:24].
  abbrev pub first_half : List ℕ → List ℕ → List ℕ × List ℕ
  first_half key nonce = (take 32 key, take 12 nonce)

  abbrev pub second_half : List ℕ → List ℕ → List ℕ × List ℕ
  second_half key nonce = (take 32 (drop 32 key), take 12 (drop 12 nonce))

  -- The key and the nonce for encryption, then those for decryption.
  unfoldable pub directions : Bool → List ℕ → List ℕ → (List ℕ × List ℕ) × (List ℕ × List ℕ)
  directions client key nonce =
      if client
      then (first_half key nonce, second_half key nonce)
      else (second_half key nonce, first_half key nonce)

  -- NewCoder. `none` is its error, or the panic of a slice beyond a key or a nonce that is too short.
  unfoldable pub new_coder : List ℕ → List ℕ → Bool → Option Coder
  new_coder key nonce client =
      let ((ek, en), (dk, dn)) = directions client key nonce in
      if ltb (length key) 64 || ltb (length nonce) 24 then none else elim (new_cipher ek en) [
        | none ↦ none
        | some e ↦ elim (new_cipher dk dn) [
          | none ↦ none
          | some d ↦ some (record { enc = e; dec = d; nonce = nonce; dir = client })
        ]
      ]

  -- Write: what it hands to the connection, which is also what it leaves in the caller's slice, since
  -- the data is encrypted in place.
  unfoldable pub write : Coder → List ℕ → Coder × List ℕ
  write c plain = let (enc, out) = xor_key_stream c.enc plain in (record c { enc = enc }, out)

  -- Read, on the bytes that the connection delivered into the slice.
  unfoldable pub read : Coder → List ℕ → Coder × List ℕ
  read c delivered =
      let (dec, out) = xor_key_stream c.dec delivered in
      if ltb 0 (length delivered) then (record c { dec = dec }, out) else (c, delivered)

  -- Several writes or reads, one after the other.
  unfoldable pub writes : Coder → List (List ℕ) → Coder × List ℕ
  writes c [] = (c, [])
  writes c (d ∷ ds) =
      let (c', out) = write c d in let (c'', outs) = writes c' ds in (c'', out ++ outs)

  unfoldable pub reads : Coder → List (List ℕ) → Coder × List ℕ
  reads c [] = (c, [])
  reads c (d ∷ ds) = let (c', out) = read c d in let (c'', outs) = reads c' ds in (c'', out ++ outs)

  -- The hash functions of crypto/sha512 and crypto/sha256 are arguments.
  module _ (sha512 sha256 : List ℕ → List ℕ) where
    -- ReKey. The errors of the ciphers are dropped, as in the source.
    unfoldable pub re_key : Coder → List ℕ → Coder
    re_key c key =
        let ((ek, en), (dk, dn)) = directions c.dir (take 64 (sha512 key)) c.nonce in
        record c { enc = rekey c.enc ek en; dec = rekey c.dec dk dn }

    -- NewKeyNonce.
    unfoldable pub new_key_nonce : List ℕ → List ℕ → List ℕ → List ℕ × List ℕ
    new_key_nonce key cnonce snonce = (sha512 key, sha256 (cnonce ++ snonce))
