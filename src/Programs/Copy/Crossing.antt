-- ===== src/Programs/Copy/Crossing.antt =====
-- What the two goroutines of cp have carried from one connection to the other, until handleClient returns.
use revese_server.Base.{
  ◌||◌, ◌==◌, not, length, if◌then◌else◌, ◌++◌, ◌∙◌, ◌⊎◌, ◌≡◌, List, [], ◌∷◌, ℕ, Bool, true, false,
  refl, ap, sym, arith, inl, inr, All, append-nil, append_assoc,
}
use revese_server.Streamcoder.Conn.{NetConn}
use revese_server.Programs.Copy.{
  Phase, reading, writing, ended, Copier, after_read, fetch, deliver, is_ended, p1, p2, Move,
  fetch_p1, fetch_p2, deliver_p1, deliver_p2, notice, Tunnel, cp, close_both, move, moves,
}

-- A connection with what its peer has sent and no Read has got, and what was written to it. A Read takes its bytes
-- off the front of the one, and a Write without an error puts all of its bytes behind the other.
pub record Carrying (conn : NetConn) : Type 0 where
  pub unread : conn.State → List ℕ
  pub written : conn.State → List ℕ
  pub read_unread :
      (s : conn.State) (len : ℕ) → unread s ≡ (conn.read s len).1 ++ unread (conn.read s len).0
  pub read_written : (s : conn.State) (len : ℕ) → written (conn.read s len).0 ≡ written s
  pub write_unread : (s : conn.State) (bytes : List ℕ) → unread (conn.write s bytes).0 ≡ unread s
  pub write_written :
      (s : conn.State) (bytes : List ℕ) → written (conn.write s bytes).0 ≡ written s ++ bytes

abbrev pub at_hand : Phase → List ℕ
at_hand reading = []
at_hand (writing bytes failed) = bytes
at_hand ended = []

Phase-cases :
    (p : Phase)
    → (p ≡ reading)
      ⊎ (((bytes : List ℕ) × (failed : Bool) × (p ≡ writing bytes failed)) ⊎ (p ≡ ended))
Phase-cases reading = inl refl
Phase-cases (writing bytes failed) = inr (inl (bytes, failed, refl))
Phase-cases ended = inr (inr refl)

after_read-at_hand : (bytes : List ℕ) (failed : Bool) → at_hand (after_read bytes failed) ≡ bytes
after_read-at_hand [] true = refl
after_read-at_hand [] false = refl
after_read-at_hand (b ∷ bytes) failed = refl

if-at_hand : (over : Bool) → at_hand (if over then ended else reading) ≡ []
if-at_hand true = refl
if-at_hand false = refl

module _ (conn : NetConn) (k : Carrying conn) where
  fetch-keeps :
      (size : ℕ) (s : conn.State) (c : Copier)
      → (at_hand c.phase ++ k.unread s
          ≡ at_hand (fetch conn size s c).1.phase ++ k.unread (fetch conn size s c).0)
        × (k.written (fetch conn size s c).0 ≡ k.written s)
  unfolding fetch
  fetch-keeps size s c = elim (Phase-cases c.phase) [
    | inl r ↦
        rw (r, fetch)
          (
            k.read_unread s size
                ∙ ap (λ l. l ++ k.unread (conn.read s size).0)
                    (sym (after_read-at_hand (conn.read s size).1 (conn.read s size).2)),
            k.read_written s size,
          )
    | inr (inl (bytes, failed, r)) ↦ rw (r, fetch) (ap (λ q. at_hand q ++ k.unread s) (sym r), refl)
    | inr (inr r) ↦ rw (r, fetch) (ap (λ q. at_hand q ++ k.unread s) (sym r), refl)
  ]

  deliver-keeps :
      (d : conn.State) (c : Copier)
      → (k.written d ++ at_hand c.phase
          ≡ k.written (deliver conn d c).0 ++ at_hand (deliver conn d c).1.phase)
        × (k.unread (deliver conn d c).0 ≡ k.unread d)
  unfolding deliver
  deliver-keeps d c = elim (Phase-cases c.phase) [
    | inl r ↦ rw (r, deliver) (ap (λ q. k.written d ++ at_hand q) (sym r), refl)
    | inr (inl (bytes, failed, r)) ↦
        rw (r, deliver)
          (
            sym (k.write_written d bytes)
                ∙ (sym (append-nil (k.written (conn.write d bytes).0))
                    ∙ ap (λ l. k.written (conn.write d bytes).0 ++ l)
                        (sym (
                          if-at_hand (
                            (conn.write d bytes).2
                            || not ((conn.write d bytes).1 == length bytes)
                            || failed)))),
            k.write_unread d bytes,
          )
    | inr (inr r) ↦ rw (r, deliver) (ap (λ q. k.written d ++ at_hand q) (sym r), refl)
  ]

abbrev pub is_notice : Move → Bool
is_notice fetch_p1 = false
is_notice fetch_p2 = false
is_notice deliver_p1 = false
is_notice deliver_p2 = false
is_notice notice = true

module _ (conn1 conn2 : NetConn) (k1 : Carrying conn1) (k2 : Carrying conn2) where
  -- Of each connection: what the other was given of it, then what is at hand, then what no Read has got.
  record Crossed (in1 in2 : List ℕ) (t : Tunnel conn1 conn2) : Type 0 where
    to_two : k2.written t.two ++ (at_hand t.to_p2.phase ++ k1.unread t.one) ≡ in1
    to_one : k1.written t.one ++ (at_hand t.to_p1.phase ++ k2.unread t.two) ≡ in2
    closed : t.closes ≡ []

  move-Crossed :
      (size : ℕ) (in1 in2 : List ℕ) (t : Tunnel conn1 conn2) (m : Move)
      → is_notice m ≡ false
      → Crossed in1 in2 t
      → Crossed in1 in2 (move conn1 conn2 size t m)
  unfolding move
  move-Crossed size in1 in2 t fetch_p1 n h =
      let (kept, same) = fetch-keeps conn1 k1 size t.one t.to_p2 in
      record {
        to_two = ap (λ l. k2.written t.two ++ l) (sym kept) ∙ h.to_two;
        to_one = ap (λ l. l ++ (at_hand t.to_p1.phase ++ k2.unread t.two)) same ∙ h.to_one;
        closed = h.closed;
      }
  move-Crossed size in1 in2 t fetch_p2 n h =
      let (kept, same) = fetch-keeps conn2 k2 size t.two t.to_p1 in
      record {
        to_two = ap (λ l. l ++ (at_hand t.to_p2.phase ++ k1.unread t.one)) same ∙ h.to_two;
        to_one = ap (λ l. k1.written t.one ++ l) (sym kept) ∙ h.to_one;
        closed = h.closed;
      }
  move-Crossed size in1 in2 t deliver_p1 n h =
      let (kept, same) = deliver-keeps conn1 k1 t.one t.to_p1 in
      let c = (deliver conn1 t.one t.to_p1).1 in
      let one = (deliver conn1 t.one t.to_p1).0 in
      record {
        to_two = ap (λ l. k2.written t.two ++ (at_hand t.to_p2.phase ++ l)) same ∙ h.to_two;
        to_one =
            sym (append_assoc (k1.written one) (at_hand c.phase) (k2.unread t.two))
            ∙ (ap (λ l. l ++ k2.unread t.two) (sym kept)
                ∙ (append_assoc (k1.written t.one) (at_hand t.to_p1.phase) (k2.unread t.two)
                    ∙ h.to_one));
        closed = h.closed;
      }
  move-Crossed size in1 in2 t deliver_p2 n h =
      let (kept, same) = deliver-keeps conn2 k2 t.two t.to_p2 in
      let c = (deliver conn2 t.two t.to_p2).1 in
      let two = (deliver conn2 t.two t.to_p2).0 in
      record {
        to_two =
            sym (append_assoc (k2.written two) (at_hand c.phase) (k1.unread t.one))
            ∙ (ap (λ l. l ++ k1.unread t.one) (sym kept)
                ∙ (append_assoc (k2.written t.two) (at_hand t.to_p2.phase) (k1.unread t.one)
                    ∙ h.to_two));
        to_one = ap (λ l. k1.written t.one ++ (at_hand t.to_p1.phase ++ l)) same ∙ h.to_one;
        closed = h.closed;
      }
  move-Crossed size in1 in2 t notice n h = absurd (ground (arith, n))

  moves-Crossed :
      (size : ℕ) (in1 in2 : List ℕ) (t : Tunnel conn1 conn2) (ms : List Move)
      → All (λ m. is_notice m ≡ false) ms
      → Crossed in1 in2 t
      → Crossed in1 in2 (moves conn1 conn2 size t ms)
  unfolding moves
  moves-Crossed size in1 in2 t [] n h = h
  moves-Crossed size in1 in2 t (m ∷ ms) (n, ns) h =
      moves-Crossed size in1 in2 (move conn1 conn2 size t m) ms ns
        (move-Crossed size in1 in2 t m n h)

  -- cp of two connections, neither of which anything was written to, whose Writes put all bytes on them. The two
  -- goroutines make any moves, in any order, and handleClient has not returned. Then what was written to each
  -- connection, what was read for it and is not written yet, and what the other still has to read is what the
  -- other had to read at first, in this order; a copier that is between two rounds, or through, has nothing
  -- at hand. When handleClient looks at its channels it closes p2 and then p1, if one direction is through,
  -- and nothing otherwise.
  pub bytes_cross :
      (size : ℕ) (one : conn1.State) (two : conn2.State) (ms : List Move)
      → k1.written one ≡ []
      → k2.written two ≡ []
      → All (λ m. is_notice m ≡ false) ms
      → let t = moves conn1 conn2 size (cp conn1 conn2 one two) ms in
        (k2.written t.two ++ (at_hand t.to_p2.phase ++ k1.unread t.one) ≡ k1.unread one)
        × (k1.written t.one ++ (at_hand t.to_p1.phase ++ k2.unread t.two) ≡ k2.unread two)
        × ((move conn1 conn2 size t notice).closes
            ≡ (if is_ended t.to_p1.phase || is_ended t.to_p2.phase then p2 ∷ p1 ∷ [] else []))
  unfolding move cp close_both
  bytes_cross size one two ms w1 w2 n =
      let t = moves conn1 conn2 size (cp conn1 conn2 one two) ms in
      let start : Crossed (k1.unread one) (k2.unread two) (cp conn1 conn2 one two) = record {
        to_two = ap (λ l. l ++ k1.unread one) w2;
        to_one = ap (λ l. l ++ k2.unread two) w1;
        closed = refl;
      } in
      let h =
        moves-Crossed size (k1.unread one) (k2.unread two) (cp conn1 conn2 one two) ms n start in
      (h.to_two, h.to_one, ground (arith, h.closed))
