-- ===== src/Streamcoder/Coder/Layer.antt =====
-- The connection of lib/streamcoder/streamcoder.go: a Coder over the connection that it was given.
use revese_server.Base.{arith, Bool, length, ◌≡◌, ◌≤◌, ℕ, List, [], ◌∷◌, refl}
use revese_server.Streamcoder.Conn.{
  NetConn, Call, reads, writes, closes, delays, Answer, got, put, done, call, calls, set_deadline,
}
use revese_server.Streamcoder.Coder.{Cipher, Coder, read as decrypt, write as encrypt}

module _ (cipher : Cipher) (conn : NetConn) where
  -- The field In of Coder is `inner`.
  pub record CoderConn : Type 0 where
    pub inner : conn.State
    pub coder : Coder cipher

  unfoldable pub read : CoderConn → ℕ → CoderConn × List ℕ × Bool
  read c len =
      let (inner, bytes, failed) = conn.read c.inner len in
      let (coder, out) = decrypt cipher c.coder bytes in
      (record { inner = inner; coder = coder }, out, failed)

  unfoldable pub write : CoderConn → List ℕ → CoderConn × ℕ × Bool
  write c bytes =
      let (coder, out) = encrypt cipher c.coder bytes in
      let (inner, n, failed) = conn.write c.inner out in
      (record { inner = inner; coder = coder }, n, failed)

  unfoldable pub close : CoderConn → CoderConn × Bool
  close c = let (inner, failed) = conn.close c.inner in (record c { inner = inner }, failed)

  unfoldable pub set_read_deadline : CoderConn → ℕ → CoderConn × Bool
  set_read_deadline c t =
      let (inner, failed) = conn.set_read_deadline c.inner t in (record c { inner = inner }, failed)

  unfoldable pub set_write_deadline : CoderConn → ℕ → CoderConn × Bool
  set_write_deadline c t =
      let (inner, failed) = conn.set_write_deadline c.inner t in
      (record c { inner = inner }, failed)

  length-xor : (s : cipher.State) (d : List ℕ) → length (cipher.xor_key_stream s d).1 ≡ length d
  length-xor s [] = rw (cipher.xor_nil s) refl
  length-xor s (b ∷ d) = rw (cipher.xor_cons s b d) omega (arith, length-xor (cipher.advance s 1) d)

  length-decrypt : (c : Coder cipher) (d : List ℕ) → length (decrypt cipher c d).1 ≡ length d
  unfolding decrypt
  length-decrypt c d = ground (arith, length-xor c.dec d)

  pub read_bound : (c : CoderConn) (len : ℕ) → length (read c len).1 ≤ len
  unfolding read
  read_bound c len =
      omega (arith, conn.read_bound c.inner len, length-decrypt c.coder (conn.read c.inner len).1)

  pub write_bound : (c : CoderConn) (bytes : List ℕ) → (write c bytes).1 ≤ length bytes
  unfolding write encrypt
  write_bound c bytes = omega (
    arith,
    conn.write_bound c.inner (cipher.xor_key_stream c.coder.enc bytes).1,
    length-xor c.coder.enc bytes,
  )

  -- The wrapper is a connection again.
  abbrev pub coder_conn : NetConn
  coder_conn = record {
    State = CoderConn;
    read = read;
    write = write;
    close = close;
    set_read_deadline = set_read_deadline;
    set_write_deadline = set_write_deadline;
    read_bound = read_bound;
    write_bound = write_bound;
  }

  -- The calls with the data of each Write encrypted, with one key stream over all of them.
  unfoldable pub encoded : cipher.State → List Call → List Call
  encoded s [] = []
  encoded s (writes bytes ∷ ks) =
      let (s', out) = cipher.xor_key_stream s bytes in writes out ∷ encoded s' ks
  encoded s (reads len ∷ ks) = reads len ∷ encoded s ks
  encoded s (closes ∷ ks) = closes ∷ encoded s ks
  encoded s (delays t ∷ ks) = delays t ∷ encoded s ks

  -- The answers with what each Read got decrypted, with the other key stream.
  unfoldable pub decoded : cipher.State → List Answer → List Answer
  decoded s [] = []
  decoded s (got bytes failed ∷ as') =
      let (s', out) = cipher.xor_key_stream s bytes in got out failed ∷ decoded s' as'
  decoded s (put n failed ∷ as') = put n failed ∷ decoded s as'
  decoded s (done failed ∷ as') = done failed ∷ decoded s as'

  decrypt-xor :
      (c : Coder cipher) (d : List ℕ)
      → ((decrypt cipher c d).0 ≡ record c { dec = (cipher.xor_key_stream c.dec d).0 })
        × ((decrypt cipher c d).1 ≡ (cipher.xor_key_stream c.dec d).1)
  unfolding decrypt
  decrypt-xor c [] =
      ground (arith, cipher.xor_nil c.dec, cipher.xor_advances c.dec [], cipher.advance_zero c.dec)
  decrypt-xor c (b ∷ d) = ground arith

  delay_same :
      (c : CoderConn) (t : ℕ)
      → ((set_deadline coder_conn c t).0 ≡ record c { inner = (set_deadline conn c.inner t).0 })
        × ((set_deadline coder_conn c t).1 ≡ (set_deadline conn c.inner t).1)
  unfolding set_deadline set_read_deadline set_write_deadline
  delay_same c t = ground arith

  -- A sequence of calls of a Coder's connection is that of the connection below, with the data of the
  -- Writes encrypted with the one key stream and what the Reads got decrypted with the other, whatever order
  -- they come in; counts, errors, Close and deadlines are those of the connection below.
  pub layer_transparent :
      (c : CoderConn) (ks : List Call)
      → ((calls coder_conn c ks).0.inner ≡ (calls conn c.inner (encoded c.coder.enc ks)).0)
        × ((calls coder_conn c ks).1
            ≡ decoded c.coder.dec (calls conn c.inner (encoded c.coder.enc ks)).1)
  unfolding calls call set_deadline read write close set_read_deadline set_write_deadline encoded
      decoded encrypt
  layer_transparent c [] = (refl, refl)
  layer_transparent c (reads len ∷ ks) =
      let bytes = (conn.read c.inner len).1 in
      let rest =
        layer_transparent
          (record { inner = (conn.read c.inner len).0; coder = (decrypt cipher c.coder bytes).0 })
          ks in
      ground (arith, decrypt-xor c.coder bytes, rest)
  layer_transparent c (writes bytes ∷ ks) =
      let (enc, out) = cipher.xor_key_stream c.coder.enc bytes in
      ground (
        arith,
        layer_transparent
            (record { inner = (conn.write c.inner out).0; coder = record c.coder { enc = enc } })
            ks,
      )
  layer_transparent c (closes ∷ ks) =
      ground (arith, layer_transparent (record c { inner = (conn.close c.inner).0 }) ks)
  layer_transparent c (delays t ∷ ks) =
      ground (arith, delay_same c t, layer_transparent (set_deadline coder_conn c t).0 ks)
