-- ===== src/Smux/Sender/Whole.antt =====
-- A send loop that carries one stream only: at rest, it has passed on exactly what it was given.
use revese_server.Base.{
  ℕ_discrete, ◌≢◌, sym, ◌++◌, ap, ◌-◌, ◌∙◌, length-append, ◌+◌, ◌≤◌, Bool-cases, arith, length,
  List, ◌≡◌, ◌<◌, ℕ, refl, true, false, some, inl, inr, [], ◌∷◌, suc,
}
use revese_server.Smux.Frame.{Frame}
use revese_server.Smux.Sender.{
  Sender, new_sender, queue_of, has_room, handle_request, dequeue, collect,
}
use revese_server.Smux.Sender.Order.{select, fin_last, Own}
use revese_server.Smux.Sender.Steps.{List-cases, full_queue}
use revese_server.Smux.Sender.Fifo.{Handed, nothing, requests, collects, slips, Handed-Keyed}
use revese_server.Smux.Sender.Collector.{
  FinsLast, prefix-FinsLast, handle_request_cases, Handed-Booked, collect_lowers,
}
use revese_server.Smux.Sender.Wake.{Waker, Runs, Runs-Handed, at_rest_all_sent}

-- The frames that have left and those that wait.
abbrev pub held : Sender → ℕ
held s = length s.out + s.req_count

handle_request-held :
    (s t : Sender) (f : Frame)
    → 0 < s.queue_size
    → handle_request s f ≡ some t
    → held t ≡ suc (held s)
handle_request-held s t f p e = elim (handle_request_cases s t f e) [
  | inl w ↦ rw w (elim (Bool-cases (has_room s f.sid)) [
    | inl r ↦ rw r (omega arith)
    | inr r ↦
        let (g, q, eq) = full_queue s f.sid p r in
        rw (r, eq) (omega (arith, length-append s.out (g ∷ [])))
  ])
  | inr w ↦ rw w (omega (arith, length-append s.out (f ∷ [])))
]

collect-held :
    (s : Sender) (sid : ℕ)
    → ((g : Frame) (q : List Frame)
        → queue_of s sid ≡ g ∷ q
        → suc (collect s sid).req_count ≡ s.req_count)
    → held (collect s sid) ≡ held s
unfolding collect
collect-held s sid h = elim (List-cases (queue_of s sid)) [
  | inl e ↦ rw e refl
  | inr (g, q, e) ↦
      let count : (collect s sid).req_count ≡ s.req_count - 1 =
        ap (λ l. (dequeue s sid l).req_count) e in
      let gone : (collect s sid).out ≡ s.out ++ (g ∷ []) = ap (λ l. (dequeue s sid l).out) e in
      omega (arith, count, h g q e, ap (λ l. length l) gone, length-append s.out (g ∷ []))
]

select-Own : (sid : ℕ) (fs : List Frame) → Own sid fs → select sid fs ≡ fs
unfolding select
select-Own sid [] h = refl
select-Own sid (f ∷ fs) (h, hs) = ground (arith, h, select-Own sid fs hs)

length-select : (sid : ℕ) (fs : List Frame) → length (select sid fs) ≤ length fs
unfolding select
length-select sid [] = omega arith
length-select sid (f ∷ fs) = ground (arith, length-select sid fs)

select_whole : (sid : ℕ) (fs : List Frame) → length (select sid fs) ≡ length fs → select sid fs ≡ fs
unfolding select
select_whole sid [] h = refl
select_whole sid (f ∷ fs) h = ground (arith, h, length-select sid fs, select_whole sid fs)

pub Handed-held :
    (size : ℕ) (fs : List Frame) (s : Sender)
    → 0 < size
    → FinsLast fs
    → Handed size fs s
    → held s ≡ length fs
unfolding new_sender
Handed-held size _ _ p fins nothing = refl
Handed-held size _ t p fins (requests fs s f _ h e) =
    let before = prefix-FinsLast fs f fins in
    let (k, z) = Handed-Keyed size fs s p h in
    omega (
      arith,
      Handed-held size fs s p before h,
      handle_request-held s t f (omega (arith, z)) e,
      length-append fs (f ∷ []),
    )
Handed-held size _ _ p fins (slips fs s f xs h r out e apart) =
    let before = prefix-FinsLast fs f fins in
    omega (
      arith,
      Handed-held size fs s p before r,
      ap (λ l. length l) out,
      length-append xs (h ∷ []),
      length-append xs (f ∷ h ∷ []),
      length-append fs (f ∷ []),
    )
Handed-held size _ _ p fins (collects fs s k h) =
    let b = Handed-Booked size fs s p fins h in
    collect-held s k (λ g q e. (collect_lowers size fs p fins s k g q h b e).1)
    ∙ Handed-held size fs s p fins h

other_stream : (sid k : ℕ) (fs : List Frame) → k ≢ sid → Own sid fs → select k fs ≡ []
unfolding select
other_stream sid k [] ne o = refl
other_stream sid k (f ∷ fs) ne (o, os) = ground (arith, ne, o, other_stream sid k fs ne os)

Own-FinsLast : (sid : ℕ) (fs : List Frame) → Own sid fs → fin_last fs ≡ true → FinsLast fs
unfolding fin_last
Own-FinsLast sid fs o e k = elim (ℕ_discrete k sid) [
  | yes same ↦ rw (same, select-Own sid fs o) e
  | no ne ↦ ap fin_last (other_stream sid k fs ne o)
]

-- If all that was handed over is of one stream, and nothing of it comes after a FIN, then the send loop at
-- rest has passed on exactly that, in order.
pub one_stream_whole :
    (size sid : ℕ) (fs : List Frame) (w : Waker)
    → 0 < size
    → Own sid fs
    → fin_last fs ≡ true
    → Runs size fs w
    → w.owes ≡ false
    → w.token ≡ false
    → w.busy ≡ false
    → w.sender.out ≡ fs
one_stream_whole size sid fs w p o e r owes token busy =
    let fins = Own-FinsLast sid fs o e in
    let (empty, sent) = at_rest_all_sent size fs w p fins r owes token busy in
    let count = Handed-held size fs w.sender p fins (Runs-Handed size fs w r) in
    let same : select sid w.sender.out ≡ fs = sent sid ∙ select-Own sid fs o in
    let enough : length (select sid w.sender.out) ≡ length w.sender.out =
      omega (arith, ap (λ l. length l) same, count, length-select sid w.sender.out) in
    sym (select_whole sid w.sender.out enough) ∙ same
