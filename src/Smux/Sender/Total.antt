-- ===== src/Smux/Sender/Total.antt =====
-- How many requests the queues of the send loop hold, and that reqCount says so.
use revese_server.Base.{
  ==_iff, subst, ap, length-append, ◌⊎◌, ◌==◌, Bool-cases, ◌≢◌, ◌++◌, length, ◌+◌, ◌≡◌, List, ℕ,
  refl, arith, [], ◌∷◌, suc, none, inl, inr,
}
use revese_server.Base.Maps.{lookup, insert, erase, lookup-insert, lookup-erase}
use revese_server.Smux.Frame.{Frame, cmd_fin}
use revese_server.Smux.Sender.{Sender, queue_of, or_empty, enqueue, rotate, dequeue}

abbrev pub Queues : Type 0
Queues = List (ℕ × List Frame)

unfoldable pub total : Queues → ℕ
total [] = 0
total ((k, q) ∷ m) = length q + total m

-- No key stands twice.
unfoldable pub Distinct : Queues → Type 0
Distinct [] = Unit {0}
Distinct ((k, q) ∷ m) = (lookup k m ≡ none) × Distinct m

total-insert :
    (m : Queues) (k : ℕ) (q : List Frame)
    → total (insert k q m) + length (or_empty (lookup k m)) ≡ total m + length q
unfolding total insert lookup
total-insert [] k q = omega arith
total-insert ((j, w) ∷ m) k q = ground (arith, total-insert m k q)

insert-Distinct : (m : Queues) (k : ℕ) (q : List Frame) → Distinct m → Distinct (insert k q m)
unfolding Distinct insert lookup
insert-Distinct [] k q d = (refl, tt)
insert-Distinct ((j, w) ∷ m) k q (n, d) = elim (Bool-cases (j == k)) [
  | inl e ↦ rw e (subst (λ i. lookup i m ≡ none) ((==_iff j k).0 e) n, d)
  | inr e ↦ rw e (ground (arith, lookup-insert m k j q), insert-Distinct m k q d)
]

erase_absent : (m : Queues) (k : ℕ) → lookup k m ≡ none → erase k m ≡ m
unfolding lookup erase
erase_absent [] k n = refl
erase_absent ((j, w) ∷ m) k n = ground (arith, erase_absent m k)

total-erase :
    (m : Queues) (k : ℕ) → Distinct m → total (erase k m) + length (or_empty (lookup k m)) ≡ total m
unfolding total erase lookup Distinct
total-erase [] k d = refl
total-erase ((j, w) ∷ m) k (n, d) = elim (Bool-cases (j == k)) [
  | inl e ↦
      let gone : lookup k m ≡ none = subst (λ i. lookup i m ≡ none) ((==_iff j k).0 e) n in
      rw (e, erase_absent m k gone) (omega arith)
  | inr e ↦ rw e (omega (arith, total-erase m k d))
]

erase-Distinct : (m : Queues) (k : ℕ) → Distinct m → Distinct (erase k m)
unfolding Distinct erase lookup
erase-Distinct [] k d = tt
erase-Distinct ((j, w) ∷ m) k (n, d) = elim (Bool-cases (j == k)) [
  | inl e ↦ rw e (erase-Distinct m k d)
  | inr e ↦ rw e (ground (arith, lookup-erase k j m), erase-Distinct m k d)
]

-- reqCount is the number of the requests in the queues.
pub record Booked (s : Sender) : Type 0 where
  pub distinct : Distinct s.queues
  pub count : s.req_count ≡ total s.queues

pub enqueue-Booked : (s : Sender) (f : Frame) → Booked s → Booked (enqueue s f)
enqueue-Booked s f b = record {
  distinct = insert-Distinct s.queues f.sid (queue_of s f.sid ++ (f ∷ [])) b.distinct;
  count = omega (
    arith,
    b.count,
    total-insert s.queues f.sid (queue_of s f.sid ++ (f ∷ [])),
    length-append (queue_of s f.sid) (f ∷ []),
  );
}

pub rotate-Booked :
    (s : Sender) (f g : Frame) (q : List Frame)
    → queue_of s f.sid ≡ g ∷ q
    → Booked s
    → Booked (rotate s f (g ∷ q))
rotate-Booked s f g q e b = record {
  distinct = insert-Distinct s.queues f.sid (q ++ (f ∷ [])) b.distinct;
  count = omega (
    arith,
    b.count,
    total-insert s.queues f.sid (q ++ (f ∷ [])),
    length-append q (f ∷ []),
    ap length e,
  );
}

-- A turn for a queue that holds a request lowers the count by one, unless it drops what waits behind a
-- FIN.
pub dequeue-Booked :
    (s : Sender) (k : ℕ) (g : Frame) (q : List Frame)
    → queue_of s k ≡ g ∷ q
    → (g.cmd ≢ cmd_fin) ⊎ (q ≡ [])
    → Booked s
    → Booked (dequeue s k (g ∷ q)) × (suc (dequeue s k (g ∷ q)).req_count ≡ s.req_count)
dequeue-Booked s k g q e h b = (
  record {
    distinct = elim (Bool-cases (g.cmd == cmd_fin)) [
      | inl c ↦ rw c (erase-Distinct s.queues k b.distinct)
      | inr c ↦ rw c (insert-Distinct s.queues k q b.distinct)
    ];
    count = elim (Bool-cases (g.cmd == cmd_fin)) [
      | inl c ↦ rw c (ground (arith, held, b.count, total-erase s.queues k b.distinct, h))
      | inr c ↦ rw c (omega (arith, held, b.count, total-insert s.queues k q))
    ];
  },
  omega (arith, held, b.count, total-insert s.queues k q),
)
  where
    held : length (queue_of s k) ≡ suc (length q)
    held = ap length e
