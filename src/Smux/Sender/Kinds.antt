-- ===== src/Smux/Sender/Kinds.antt =====
-- Predicates on frames, through the send loop of lib/smux/session.go.
use revese_server.Base.{
  if-both, sym, subst, some, sym, arith, Bool-cases, All-snoc, some, ◌<◌, ◌≡◌, subst, All-append,
  if◌then◌else◌, All, ◌==◌, List, ◌++◌, ℕ, refl, inl, inr, [], ◌∷◌,
}
use revese_server.Base.Maps.{lookup}
use revese_server.Smux.Frame.{Frame, cmd_fin}
use revese_server.Smux.Sender.{
  Sender, new_sender, queue_of, enqueue, rotate, has_room, take_in, handle_request, dequeue,
  collect,
}
use revese_server.Smux.Sender.Order.{queue_of-insert, queue_of-dequeue}
use revese_server.Smux.Sender.Steps.{List-cases, full_queue}
use revese_server.Smux.Sender.Fifo.{Handed, nothing, requests, collects, slips, Handed-Keyed}
use revese_server.Smux.Sender.Collector.{handle_request_cases}

module _ (P : Frame → Type 0) where
  record Carries (s : Sender) : Type 0 where
    queued : (k : ℕ) → All P (queue_of s k)
    gone : All P s.out

  insert-Carries :
      (s t : Sender) (key : ℕ) (q : List Frame)
      → ((k : ℕ) → queue_of t k ≡ (if key == k then q else queue_of s k))
      → All P q
      → All P t.out
      → Carries s
      → Carries t
  insert-Carries s t key q e hq ho c = record {
    queued = λ k. rw (e k) (if-both (All P) (key == k) q (queue_of s k) hq (c.queued k));
    gone = ho;
  }

  take_in-Carries :
      (s : Sender) (f : Frame) → 0 < s.queue_size → P f → Carries s → Carries (take_in s f)
  take_in-Carries s f h p c = elim (Bool-cases (has_room s f.sid)) [
    | inl r ↦
        let q = queue_of s f.sid ++ (f ∷ []) in
        rw r (
          insert-Carries s (enqueue s f) f.sid q
            (λ k. queue_of-insert s (enqueue s f) f.sid k q refl)
            (All-append P (queue_of s f.sid) (f ∷ []) (c.queued f.sid) (p, tt)) c.gone c)
    | inr r ↦
        let (g, q, eq) = full_queue s f.sid h r in
        let (pg, pq) : All P (g ∷ q) = subst (All P) eq (c.queued f.sid) in
        rw (r, eq)
          (insert-Carries s (rotate s f (g ∷ q)) f.sid (q ++ (f ∷ []))
            (λ k. queue_of-insert s (rotate s f (g ∷ q)) f.sid k (q ++ (f ∷ [])) refl)
            (All-append P q (f ∷ []) pq (p, tt)) (All-append P s.out (g ∷ []) c.gone (pg, tt)) c)
  ]

  handle_request-Carries :
      (s t : Sender) (f : Frame)
      → 0 < s.queue_size
      → handle_request s f ≡ some t
      → P f
      → Carries s
      → Carries t
  handle_request-Carries s t f h e p c = elim (handle_request_cases s t f e) [
    | inl w ↦ subst Carries (sym w) (take_in-Carries s f h p c)
    | inr w ↦
        subst Carries (sym w)
          (record { queued = c.queued; gone = All-append P s.out (f ∷ []) c.gone (p, tt) })
  ]

  collect-Carries : (s : Sender) (k : ℕ) → Carries s → Carries (collect s k)
  unfolding collect
  collect-Carries s k c = elim (List-cases (queue_of s k)) [
    | inl e ↦ rw e c
    | inr (g, q, e) ↦
        let (pg, pq) : All P (g ∷ q) = subst (All P) e (c.queued k) in
        rw e (
          insert-Carries s (dequeue s k (g ∷ q)) k (if g.cmd == cmd_fin then [] else q)
            (λ j. queue_of-dequeue s k j g q) (if-both (All P) (g.cmd == cmd_fin) [] q tt pq)
            (All-append P s.out (g ∷ []) c.gone (pg, tt)) c)
  ]

  Handed-Carries :
      (size : ℕ) (fs : List Frame) (s : Sender) → 0 < size → Handed size fs s → All P fs → Carries s
  unfolding new_sender lookup
  Handed-Carries size _ _ h nothing a = record { queued = λ k. tt; gone = tt }
  Handed-Carries size _ t h (requests fs s f _ r e) a =
      let (before, now) = All-snoc P fs f a in
      let (k, z) = Handed-Keyed size fs s h r in
      handle_request-Carries s t f (omega (arith, z)) e now (Handed-Carries size fs s h r before)
  Handed-Carries size _ _ p (slips fs s f xs h r out e apart) a =
      let (before, now) = All-snoc P fs f a in
      let old = Handed-Carries size fs s p r before in
      let (front, held) = All-snoc P xs h (subst (All P) out old.gone) in
      record { queued = old.queued; gone = All-append P xs (f ∷ h ∷ []) front (now, (held, tt)) }
  Handed-Carries size _ _ h (collects fs s k r) a =
      collect-Carries s k (Handed-Carries size fs s h r a)

  pub out-All :
      (size : ℕ) (fs : List Frame) (s : Sender)
      → 0 < size
      → Handed size fs s
      → All P fs
      → All P s.out
  out-All size fs s h r a = (Handed-Carries size fs s h r a).gone
