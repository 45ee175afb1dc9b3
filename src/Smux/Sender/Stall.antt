-- ===== src/Smux/Sender/Stall.antt =====
-- The collecting goroutine of sendLoop in lib/smux/session.go with nothing left to collect.
use revese_server.Base.{
  ℕ, zero, suc, ◌<◌, ◌≡◌, ◌∙◌, ◌++◌, ◌≢◌, none, List, [], ◌∷◌, length, refl, arith, ap, ℕ_discrete,
}
use revese_server.Smux.Frame.{Frame, cmd_fin}
use revese_server.Smux.Sender.{Sender, queue_of, collect, collect_all, collector, sort_ids, keys}
use revese_server.Smux.Sender.Order.{queue_of-dequeue}
use revese_server.Smux.Sender.Drain.{fin_drops}

-- A turn for an empty queue does nothing.
collect_idle : (s : Sender) (k : ℕ) → queue_of s k ≡ [] → collect s k ≡ s
unfolding collect
collect_idle s k e = rw e refl

collect_all-idle : (ks : List ℕ) (s : Sender) → ((k : ℕ) → queue_of s k ≡ []) → collect_all ks s ≡ s
unfolding collect_all
collect_all-idle [] s h = refl
collect_all-idle (k ∷ ks) s h =
    ap (collect_all ks) (collect_idle s k (h k)) ∙ collect_all-idle ks s h

-- With empty queues and a count above zero no number of passes is enough.
collector_stuck :
    (fuel : ℕ) (s : Sender)
    → ((k : ℕ) → queue_of s k ≡ [])
    → 0 < s.req_count
    → collector fuel s ≡ none
unfolding collector
collector_stuck zero s h p = refl
collector_stuck (suc fuel) s h p =
    let same = collect_all-idle (sort_ids (keys s.queues)) s h in
    ground (arith, same, p, collector_stuck fuel s h p)

collect-others :
    (s : Sender) (k : ℕ) (g : Frame) (q : List Frame) (j : ℕ)
    → queue_of s k ≡ g ∷ q
    → j ≢ k
    → queue_of (collect s k) j ≡ queue_of s j
unfolding collect
collect-others s k g q j e ne = rw e (ground (arith, queue_of-dequeue s k j g q, ne))

-- Take a FIN at the front of a queue with other frames behind it, the other queues empty, and the count
-- right. The turn for this queue passes the FIN on and loses the frames behind it; and after it the
-- collecting goroutine never comes to rest, however many passes it makes.
pub fin_stalls :
    (s : Sender) (k : ℕ) (g f : Frame) (q : List Frame) (fuel : ℕ)
    → queue_of s k ≡ g ∷ f ∷ q
    → g.cmd ≡ cmd_fin
    → ((j : ℕ) → j ≢ k → queue_of s j ≡ [])
    → s.req_count ≡ length (g ∷ f ∷ q)
    → ((collect s k).out ≡ s.out ++ (g ∷ []))
      × ((j : ℕ) → queue_of (collect s k) j ≡ [])
      × (collector fuel (collect s k) ≡ none)
fin_stalls s k g f q fuel e c others count =
    let (gone, out, left) = fin_drops s k g (f ∷ q) 0 e c (omega (arith, count)) in
    let empty : (j : ℕ) → queue_of (collect s k) j ≡ [] = λ j. elim (ℕ_discrete j k) [
      | yes same ↦ rw same gone
      | no ne ↦ collect-others s k g (f ∷ q) j e ne ∙ others j ne
    ] in
    (out, empty, collector_stuck fuel (collect s k) empty (omega (arith, left)))
