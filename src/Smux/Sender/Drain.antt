-- ===== src/Smux/Sender/Drain.antt =====
-- How the collector of the send loop empties a queue, and what it loses behind a FIN.
use revese_server.Base.{
  append_assoc, ap, ◌==◌, if◌then◌else◌, ◌∙◌, append-nil, sym, ◌++◌, ◌+◌, length, ◌≡◌, List, ℕ,
  refl, arith, [], ◌∷◌, zero, suc, true,
}
use revese_server.Smux.Frame.{Frame, cmd_fin}
use revese_server.Smux.Sender.{Sender, queue_of, collect}
use revese_server.Smux.Sender.Order.{fin_last, queue_of-dequeue}

-- Turns of the collector for one stream.
unfoldable pub turns : ℕ → ℕ → Sender → Sender
turns zero k s = s
turns (suc n) k s = turns n k (collect s k)

collect_step :
    (s : Sender) (k : ℕ) (g : Frame) (q : List Frame)
    → queue_of s k ≡ g ∷ q
    → (queue_of (collect s k) k ≡ (if g.cmd == cmd_fin then [] else q))
      × ((collect s k).out ≡ s.out ++ (g ∷ []))
unfolding collect
collect_step s k g q e = rw e (ground (arith, queue_of-dequeue s k k g q), refl)

-- As many turns as a queue holds frames empty it and pass them all on in order, if nothing waits
-- behind a FIN.
pub turns_drain :
    (s : Sender) (k : ℕ) (q : List Frame)
    → queue_of s k ≡ q
    → fin_last q ≡ true
    → (queue_of (turns (length q) k s) k ≡ []) × ((turns (length q) k s).out ≡ s.out ++ q)
unfolding turns fin_last
turns_drain s k [] e h = (e, sym (append-nil s.out))
turns_drain s k (g ∷ []) e h = let (a, b) = collect_step s k g [] e in (ground (arith, a), b)
turns_drain s k (g ∷ f ∷ q) e h =
    let (a, b) = collect_step s k g (f ∷ q) e in
    let (c, d) = turns_drain (collect s k) k (f ∷ q) (ground (arith, a)) (ground arith) in
    (c, d ∙ (ap (λ l. l ++ (f ∷ q)) b ∙ append_assoc s.out (g ∷ []) (f ∷ q)))

-- A frame that waits behind a FIN is lost: after the turn that passes the FIN on, the queue is empty,
-- and the count still has the frame, so that the collector's loop goes on for ever.
pub fin_drops :
    (s : Sender) (k : ℕ) (g : Frame) (q : List Frame) (n : ℕ)
    → queue_of s k ≡ g ∷ q
    → g.cmd ≡ cmd_fin
    → s.req_count ≡ suc (length q + n)
    → (queue_of (collect s k) k ≡ [])
      × ((collect s k).out ≡ s.out ++ (g ∷ []))
      × ((collect s k).req_count ≡ length q + n)
unfolding collect
fin_drops s k g q n e c h =
    rw e (ground (arith, queue_of-dequeue s k k g q), ground arith, ground arith)
