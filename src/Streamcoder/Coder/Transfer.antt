-- ===== src/Streamcoder/Coder/Transfer.antt =====
-- The two ends of an encrypted connection.
use revese_server.Streamcoder.Coder.{
  re_key, Cipher, Coder, directions, new_coder, write, read, writes, reads,
}
use revese_server.Base.{
  ◌∙◌, concat, length-drop, drop, length-take, take, ◌≤◌, not, some, ◌+◌, IsByte, length, sym, All,
  ◌++◌, List, ◌&&◌, arith, ==_iff, ◌<◌, Bool, ◌≡◌, ◌==◌, ℕ, refl, [], ◌∷◌, zero, suc, true, false,
}
use Prim.Native.Nat.{ℕ, bit_xor}

-- A test on every number below a bound.
every_below : (ℕ → Bool) → ℕ → Bool
every_below test zero = true
every_below test (suc n) = every_below test n && test n

every_below-true : (test : ℕ → Bool) (n i : ℕ) → i < n → every_below test n ≡ true → test i ≡ true
unfolding every_below
every_below-true test zero i h e = elim h [ ]
every_below-true test (suc n) i h e = ground (arith, every_below-true test n i)

xor_bytes : every_below (λ k. every_below (λ b. bit_xor (bit_xor b k) k == b) 256) 256 ≡ true
unfolding every_below
xor_bytes = refl

xor_twice : (b k : ℕ) → b < 256 → k < 256 → bit_xor (bit_xor b k) k ≡ b
xor_twice b k hb hk =
    (==_iff _ b).0 (every_below-true _ 256 b hb (every_below-true _ 256 k hk xor_bytes))

suc_add : (n : ℕ) → 1 + n ≡ suc n
suc_add n = omega arith

module _ (cipher : Cipher) where
  open cipher use {
    State, new_cipher, xor_key_stream, stream, advance, xor_advances, xor_nil, xor_cons,
    advance_zero, advance_add, new_cipher_total, rekey, rekey_like_new, stream_byte,
  }

  abbrev xored : State → List ℕ → List ℕ
  xored s d = (xor_key_stream s d).1

  xored-append :
      (s : State) (xs ys : List ℕ)
      → xored s (xs ++ ys) ≡ xored s xs ++ xored (advance s (length xs)) ys
  xored-append s [] ys = rw (xor_nil s, advance_zero s)
  xored-append s (x ∷ xs) ys =
      rw
        (
          xor_cons s x (xs ++ ys),
          xor_cons s x xs,
          xored-append (advance s 1) xs ys,
          advance_add s 1 (length xs),
        )
        cc (suc_add (length xs))

  xored_twice : (s : State) (d : List ℕ) → All IsByte d → xored s (xored s d) ≡ d
  xored_twice s [] h = rw (xor_nil s, xor_nil s)
  xored_twice s (b ∷ d) (hb, hd) = rw (
    xor_cons s b d,
    xor_cons s,
    xored_twice (advance s 1) d hd,
    xor_twice b (stream s 0) hb (stream_byte s 0),
  )

  writes-out :
      (c : Coder cipher) (ds : List (List ℕ)) → (writes cipher c ds).1 ≡ xored c.enc (concat ds)
  unfolding writes write
  writes-out c [] = sym (xor_nil c.enc)
  writes-out c (d ∷ ds) = rw (
    writes-out (record c { enc = (xor_key_stream c.enc d).0 }) ds,
    xor_advances c.enc d,
    xored-append c.enc d (concat ds),
  )

  read-cons :
      (c : Coder cipher) (x : ℕ) (d : List ℕ)
      → read cipher c (x ∷ d)
        ≡ (record c { dec = (xor_key_stream c.dec (x ∷ d)).0 }, xored c.dec (x ∷ d))
  unfolding read
  read-cons c x d = ground arith

  read-nil : (c : Coder cipher) → read cipher c [] ≡ (c, [])
  unfolding read
  read-nil c = refl

  reads-out :
      (c : Coder cipher) (ds : List (List ℕ)) → (reads cipher c ds).1 ≡ xored c.dec (concat ds)
  unfolding reads
  reads-out c [] = sym (xor_nil c.dec)
  reads-out c ([] ∷ ds) = rw (read-nil c, reads-out c ds)
  reads-out c ((x ∷ d) ∷ ds) = rw (
    read-cons c x d,
    reads-out (record c { dec = (xor_key_stream c.dec (x ∷ d)).0 }) ds,
    xor_advances c.dec (x ∷ d),
    xored-append c.dec (x ∷ d) (concat ds),
  )

  -- What one end encrypts with is what the other end decrypts with.
  pub new_coder_dual :
      (key nonce : List ℕ) (side : Bool) (a b : Coder cipher)
      → new_coder cipher key nonce side ≡ some a
      → new_coder cipher key nonce (not side) ≡ some b
      → a.enc ≡ b.dec
  unfolding new_coder directions
  new_coder_dual key nonce side a b ha hb = ground arith

  -- Whatever is written with a key stream is read back with it.
  pub same_stream_delivers :
      (a b : Coder cipher) (ws rs : List (List ℕ))
      → a.enc ≡ b.dec
      → All IsByte (concat ws)
      → concat rs ≡ (writes cipher a ws).1
      → (reads cipher b rs).1 ≡ concat ws
  same_stream_delivers a b ws rs dual bytes hr =
      rw (reads-out b rs, hr, writes-out a ws, sym dual, xored_twice a.enc (concat ws) bytes)

  -- Take two Coders, made by NewCoder of the two sides from one key and one nonce. Whatever one writes,
  -- in pieces of any sizes, the other reads back as it was, in whatever pieces the connection delivers it.
  pub coder_delivers :
      (key nonce : List ℕ) (side : Bool) (a b : Coder cipher) (ws rs : List (List ℕ))
      → new_coder cipher key nonce side ≡ some a
      → new_coder cipher key nonce (not side) ≡ some b
      → All IsByte (concat ws)
      → concat rs ≡ (writes cipher a ws).1
      → (reads cipher b rs).1 ≡ concat ws
  coder_delivers key nonce side a b ws rs ha hb bytes hr =
      same_stream_delivers a b ws rs (new_coder_dual key nonce side a b ha hb) bytes hr

  half-length : (n m : ℕ) (xs : List ℕ) → n + m ≤ length xs → length (take m (drop n xs)) ≡ m
  half-length n m xs h = omega (arith, length-take m (drop n xs), length-drop n xs)

  first-length : (m : ℕ) (xs : List ℕ) → m ≤ length xs → length (take m xs) ≡ m
  first-length m xs h = omega (arith, length-take m xs)

  new_coder-of :
      (key nonce : List ℕ) (side : Bool) (s t : State)
      → 64 ≤ length key
      → 24 ≤ length nonce
      → new_cipher (take 32 key) (take 12 nonce) ≡ some s
      → new_cipher (take 32 (drop 32 key)) (take 12 (drop 12 nonce)) ≡ some t
      → (c : Coder cipher) × (new_coder cipher key nonce side ≡ some c)
  unfolding new_coder directions
  new_coder-of key nonce true s t hk hn hs ht =
      (record { enc = s; dec = t; nonce = nonce; dir = true }, ground arith)
  new_coder-of key nonce false s t hk hn hs ht =
      (record { enc = t; dec = s; nonce = nonce; dir = false }, ground arith)

  pub new_coder-total :
      (key nonce : List ℕ) (side : Bool)
      → 64 ≤ length key
      → 24 ≤ length nonce
      → (c : Coder cipher) × (new_coder cipher key nonce side ≡ some c)
  new_coder-total key nonce side hk hn =
      let (s, hs) =
        new_cipher_total (take 32 key) (take 12 nonce) (first-length 32 key (omega arith))
          (first-length 12 nonce (omega arith)) in
      let (t, ht) =
        new_cipher_total (take 32 (drop 32 key)) (take 12 (drop 12 nonce))
          (half-length 32 32 key (omega arith)) (half-length 12 12 nonce (omega arith)) in
      new_coder-of key nonce side s t hk hn hs ht

  module _ (sha512 sha256 : List ℕ → List ℕ) where
    -- A cipher is at the start of the new key stream, whatever it did before.
    rekey_forgets :
        (s t : State) (k n : List ℕ) → length k ≡ 32 → length n ≡ 12 → rekey s k n ≡ rekey t k n
    rekey_forgets s t k n hk hn =
        let (u, e) = new_cipher_total k n hk hn in
        rekey_like_new s u k n e ∙ sym (rekey_like_new t u k n e)

    re_key_dual :
        (a b : Coder cipher) (key : List ℕ) (side : Bool)
        → length (sha512 key) ≡ 64
        → 24 ≤ length a.nonce
        → a.nonce ≡ b.nonce
        → a.dir ≡ side
        → b.dir ≡ not side
        → (re_key cipher sha512 sha256 a key).enc ≡ (re_key cipher sha512 sha256 b key).dec
    unfolding re_key directions
    re_key_dual a b key true h64 h24 e da db =
        let new_key = take 64 (sha512 key) in
        ground (
          arith,
          rekey_forgets a.enc b.dec (take 32 new_key) (take 12 a.nonce)
              (first-length 32 new_key (omega (arith, length-take 64 (sha512 key))))
              (first-length 12 a.nonce (omega arith)),
        )
    re_key_dual a b key false h64 h24 e da db =
        let new_key = take 64 (sha512 key) in
        ground (
          arith,
          rekey_forgets a.enc b.dec (take 32 (drop 32 new_key)) (take 12 (drop 12 a.nonce))
              (half-length 32 32 new_key (omega (arith, length-take 64 (sha512 key))))
              (half-length 12 12 a.nonce (omega arith)),
        )

    -- ReKey on both ends with the same key. The ends have the same nonce, of 24 bytes at least, and
    -- opposite directions; their key streams may be anywhere, even out of step. What one then writes the
    -- other reads back, in pieces of any sizes.
    pub re_key_delivers :
        (a b : Coder cipher) (key : List ℕ) (ws rs : List (List ℕ))
        → length (sha512 key) ≡ 64
        → 24 ≤ length a.nonce
        → a.nonce ≡ b.nonce
        → b.dir ≡ not a.dir
        → All IsByte (concat ws)
        → concat rs ≡ (writes cipher (re_key cipher sha512 sha256 a key) ws).1
        → (reads cipher (re_key cipher sha512 sha256 b key) rs).1 ≡ concat ws
    re_key_delivers a b key ws rs h64 h24 e d bytes hr =
        same_stream_delivers (re_key cipher sha512 sha256 a key) (re_key cipher sha512 sha256 b key)
          ws rs (re_key_dual a b key a.dir h64 h24 e refl d) bytes hr
