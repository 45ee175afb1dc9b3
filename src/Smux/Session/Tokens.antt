-- ===== src/Smux/Session/Tokens.antt =====
-- The token account of a session: the receive bucket and the bytes that its streams buffer.
pub mod Flow
pub mod Steps
pub mod Conn
pub mod Reach
pub mod Bound
use revese_server.Base.{
  ℕ, zero, suc, ◌+◌, ◌-◌, ◌%◌, ◌≤◌, ◌<◌, ◌≡◌, refl, ap, ◌≢◌, Bool, true, false, List, [], ◌∷◌, ◌++◌,
  Option, none, some, arith, length, length-append, length-drop, ◌==◌, ==_iff, if◌then◌else◌, IsI32,
  add32, sub32,
}
use revese_server.Base.Int.{int32_of}
use revese_server.Base.Maps.{lookup}
use revese_server.Smux.Config.{Config}
use revese_server.Smux.Stream.{Stream}
use revese_server.Smux.Session.{Session, update, put_stream, return_tokens}

-- The bytes in the buffers of the first n objects.
pub buffered : ℕ → (ℕ → Stream) → ℕ
buffered zero objects = 0
buffered (suc n) objects = buffered n objects + length (objects n).buffer

-- k tokens are on their way: taken from the bucket or from a buffer, and not yet booked. The account
-- is kept in int32, so modulo 2 ^ 32. `cap` is a bound on the bytes in buffers and on their way.
pub record Owes (cap : ℕ) (s : Session) (k : ℕ) : Type 0 where
  pub valid : (sid p : ℕ) → lookup sid s.streams ≡ some p → p < s.next_ptr
  pub in_range : IsI32 s.bucket
  pub account :
      (s.bucket + buffered s.next_ptr s.objects + k) % 4294967296
      ≡ int32_of s.config.max_receive_buffer
  pub room : buffered s.next_ptr s.objects + k ≤ cap

-- Two states that differ in nothing that the account reads.
pub record Same (s t : Session) : Type 0 where
  pub bucket : t.bucket ≡ s.bucket
  pub next_ptr : t.next_ptr ≡ s.next_ptr
  pub streams : t.streams ≡ s.streams
  pub config : t.config ≡ s.config
  pub buffers : (q : ℕ) → (t.objects q).buffer ≡ (s.objects q).buffer

pub buffered_congr :
    (n : ℕ) (o o' : ℕ → Stream)
    → ((q : ℕ) → (o' q).buffer ≡ (o q).buffer)
    → buffered n o' ≡ buffered n o
unfolding buffered
buffered_congr zero o o' h = refl
buffered_congr (suc n) o o' h = omega (arith, buffered_congr n o o' h, ap length (h n))

pub buffered_new :
    (n p : ℕ) (o : ℕ → Stream) (st : Stream) → n ≤ p → buffered n (update o p st) ≡ buffered n o
unfolding buffered
buffered_new zero p o st h = refl
buffered_new (suc n) p o st h = ground (arith, buffered_new n p o st)

pub buffered-update :
    (n p : ℕ) (o : ℕ → Stream) (st : Stream)
    → p < n
    → buffered n (update o p st) + length (o p).buffer ≡ buffered n o + length st.buffer
unfolding buffered
buffered-update zero p o st h = elim h [ ]
buffered-update (suc n) p o st h = ground (arith, buffered-update n p o st, buffered_new n p o st)

pub Same-Owes : {cap : ℕ} (s t : Session) (k : ℕ) → Same s t → Owes cap s k → Owes cap t k
Same-Owes s t k e h = record {
  valid = λ sid p l. rw e.next_ptr (h.valid sid p (rw e.streams at l));
  in_range = rw e.bucket h.in_range;
  account =
      rw (e.bucket, e.next_ptr, e.config, buffered_congr s.next_ptr s.objects t.objects e.buffers)
        h.account;
  room = rw (e.next_ptr, buffered_congr s.next_ptr s.objects t.objects e.buffers) h.room;
}

pub Same-trans : (s t u : Session) → Same s t → Same t u → Same s u
Same-trans s t u a b = record {
  bucket = cc (a.bucket, b.bucket);
  next_ptr = cc (a.next_ptr, b.next_ptr);
  streams = cc (a.streams, b.streams);
  config = cc (a.config, b.config);
  buffers = λ q. cc (a.buffers q, b.buffers q);
}

-- Tokens that come back to the bucket are no longer on their way.
pub return_tokens-Owes :
    {cap : ℕ} (s : Session) (n k : ℕ) → Owes cap s (n + k) → Owes cap (return_tokens s n) k
unfolding return_tokens
return_tokens-Owes s n k h = record {
  valid = h.valid;
  in_range = omega arith;
  account = omega (arith, h.account, h.in_range);
  room = omega (arith, h.room);
}

-- A buffer that loses bytes owes them.
pub put-Owes :
    {cap : ℕ} (s : Session) (p n k : ℕ) (st : Stream)
    → p < s.next_ptr
    → length st.buffer + n ≡ length (s.objects p).buffer + k
    → Owes cap s k
    → Owes cap (put_stream s p st) n
put-Owes s p n k st h e o = record {
  valid = o.valid;
  in_range = o.in_range;
  account = omega (arith, o.account, buffered-update s.next_ptr p s.objects st h);
  room = omega (arith, o.room, buffered-update s.next_ptr p s.objects st h);
}

-- The bound may be any larger one.
pub Owes-wider : (cap cap' : ℕ) (s : Session) (k : ℕ) → cap ≤ cap' → Owes cap s k → Owes cap' s k
Owes-wider cap cap' s k h o = record {
  valid = o.valid;
  in_range = o.in_range;
  account = o.account;
  room = omega (arith, o.room, h);
}
