-- ===== src/Smux/Sender/Collector.antt =====
-- The collecting goroutine of the send loop comes to an end of its passes.
use revese_server.Base.{
  append-nil, ap, ◌++◌, ltb, ◌∙◌, ℕ_discrete, sym, ◌≢◌, subst, ◌⊎◌, Bool-cases, ◌≤◌, ◌<◌, ◌≡◌, List,
  ℕ, refl, arith, [], ◌∷◌, zero, suc, true, some, inl, inr,
}
use revese_server.Smux.Frame.{Frame, cmd_fin}
use revese_server.Smux.Sender.{
  Sender, new_sender, queue_of, has_room, pass_on, take_in, handle_request, collect, keys, sort_ids,
  collect_all, collector,
}
use revese_server.Smux.Sender.Order.{
  select, fin_last, select-append, fin_last-prefix, queue_of-dequeue,
}
use revese_server.Smux.Sender.Steps.{List-cases, full_queue}
use revese_server.Smux.Sender.Fifo.{
  Handed, nothing, requests, collects, slips, stream_in_order, fin_alone, Handed-Keyed,
}
use revese_server.Smux.Sender.Ids.{contains, contains-sort_ids, busy, all_empty}
use revese_server.Smux.Sender.Total.{
  total, Distinct, Booked, enqueue-Booked, rotate-Booked, dequeue-Booked,
}

pub handle_request_cases :
    (s t : Sender) (f : Frame) → handle_request s f ≡ some t → (t ≡ take_in s f) ⊎ (t ≡ pass_on s f)
unfolding handle_request
handle_request_cases s t f e = ground arith

take_in-Booked : (s : Sender) (f : Frame) → 0 < s.queue_size → Booked s → Booked (take_in s f)
take_in-Booked s f p b = elim (Bool-cases (has_room s f.sid)) [
  | inl e ↦ rw e (enqueue-Booked s f b)
  | inr e ↦ let (g, q, eq) = full_queue s f.sid p e in rw (e, eq) (rotate-Booked s f g q eq b)
]

handle_request-Booked :
    (s t : Sender) (f : Frame)
    → 0 < s.queue_size
    → handle_request s f ≡ some t
    → Booked s
    → Booked t
handle_request-Booked s t f p e b = elim (handle_request_cases s t f e) [
  | inl w ↦ subst Booked (sym w) (take_in-Booked s f p b)
  | inr w ↦ subst Booked (sym w) (record { distinct = b.distinct; count = b.count })
]

-- A turn leaves the other queues alone.
other_queue : (s : Sender) (j k : ℕ) → j ≢ k → queue_of (collect s j) k ≡ queue_of s k
unfolding collect
other_queue s j k ne = elim (List-cases (queue_of s j)) [
  | inl e ↦ rw e refl
  | inr (g, q, e) ↦ rw e (ground (arith, queue_of-dequeue s j k g q))
]

-- What a run needs: no stream hands anything over after its FIN.
abbrev pub FinsLast : List Frame → Type 0
FinsLast fs = (sid : ℕ) → fin_last (select sid fs) ≡ true

module _ (size : ℕ) (fs : List Frame) (p : 0 < size) (fins : FinsLast fs) where
  -- Nothing waits behind a FIN at the head of a queue.
  head_alone :
      (s : Sender) (k : ℕ) (g : Frame) (q : List Frame)
      → Handed size fs s
      → queue_of s k ≡ g ∷ q
      → (g.cmd ≢ cmd_fin) ⊎ (q ≡ [])
  head_alone s k g q h e =
      let whole = stream_in_order size fs s k p h (fins k) in
      elim (fin_alone s k k g q e (subst (λ l. fin_last l ≡ true) whole (fins k))) [
        | inl ne ↦ absurd (ne refl)
        | inr alone ↦ alone
      ]

  -- A turn for a queue that holds a request, and any turn.
  pub collect_lowers :
      (s : Sender) (k : ℕ) (g : Frame) (q : List Frame)
      → Handed size fs s
      → Booked s
      → queue_of s k ≡ g ∷ q
      → Booked (collect s k) × (suc (collect s k).req_count ≡ s.req_count)
  unfolding collect
  collect_lowers s k g q h b e = rw e (dequeue-Booked s k g q e (head_alone s k g q h e) b)

  collect-Booked :
      (s : Sender) (k : ℕ)
      → Handed size fs s
      → Booked s
      → Booked (collect s k) × ((collect s k).req_count ≤ s.req_count)
  collect-Booked s k h b = elim (List-cases (queue_of s k)) [
    | inl e ↦ unfold collect in rw e (b, omega arith)
    | inr (g, q, e) ↦ let (b', n) = collect_lowers s k g q h b e in (b', omega (arith, n))
  ]

  -- A pass over some ids: no turn raises the count, and a turn for a busy queue lowers it.
  collect_all-Booked :
      (ks : List ℕ) (s : Sender)
      → Handed size fs s
      → Booked s
      → Handed size fs (collect_all ks s)
        × Booked (collect_all ks s)
        × ((collect_all ks s).req_count ≤ s.req_count)
  unfolding collect_all
  collect_all-Booked [] s h b = (h, b, omega arith)
  collect_all-Booked (k ∷ ks) s h b =
      let (b', n) = collect-Booked s k h b in
      let (h', b'', n') = collect_all-Booked ks (collect s k) (collects fs s k h) b' in
      (h', b'', omega (arith, n, n'))

  collect_all_lowers :
      (ks : List ℕ) (s : Sender) (k : ℕ) (g : Frame) (q : List Frame)
      → Handed size fs s
      → Booked s
      → contains k ks ≡ true
      → queue_of s k ≡ g ∷ q
      → (collect_all ks s).req_count < s.req_count
  unfolding collect_all
  collect_all_lowers [] s k g q h b c e = absurd (ground arith)
  collect_all_lowers (j ∷ ks) s k g q h b c e = elim (ℕ_discrete j k) [
    | yes same ↦
        let (b', n) = collect_lowers s j g q h b (subst (λ i. queue_of s i ≡ g ∷ q) (sym same) e) in
        let (h', b'', n') = collect_all-Booked ks (collect s j) (collects fs s j h) b' in
        omega (arith, n, n')
    | no ne ↦
        let (b', n) = collect-Booked s j h b in
        let rest =
          collect_all_lowers ks (collect s j) k g q (collects fs s j h) b' (ground arith)
            (other_queue s j k ne ∙ e) in
        omega (arith, n, rest)
  ]

  -- A pass over all ids, while a request waits.
  pass_lowers :
      (s : Sender)
      → Handed size fs s
      → Booked s
      → 0 < s.req_count
      → (collect_all (sort_ids (keys s.queues)) s).req_count < s.req_count
  pass_lowers s h b p =
      let (k, g, q, c, l) = busy s.queues b.distinct (omega (arith, p, b.count)) in
      collect_all_lowers (sort_ids (keys s.queues)) s k g q h b
        (contains-sort_ids k (keys s.queues) ∙ c) (ground (arith, l))

  collector_ends :
      (fuel : ℕ) (s : Sender)
      → Handed size fs s
      → Booked s
      → s.req_count < fuel
      → (t : Sender) × (collector fuel s ≡ some t) × Handed size fs t × Booked t × (t.req_count ≡ 0)
  unfolding collector
  collector_ends zero s h b n = elim n [ ]
  collector_ends (suc fuel) s h b n = elim (Bool-cases (ltb 0 s.req_count)) [
    | inl more ↦
        let (h', b', m) = collect_all-Booked (sort_ids (keys s.queues)) s h b in
        let lower = pass_lowers s h b (ground arith) in
        let (t, e, ht, bt, zt) =
          collector_ends fuel (collect_all (sort_ids (keys s.queues)) s) h' b'
            (omega (arith, lower, n)) in
        (t, rw more e, ht, bt, zt)
    | inr done ↦ (s, rw done refl, h, b, ground arith)
  ]

pub prefix-FinsLast : (fs : List Frame) (f : Frame) → FinsLast (fs ++ (f ∷ [])) → FinsLast fs
prefix-FinsLast fs f h sid =
    fin_last-prefix (select sid fs) (select sid (f ∷ []))
      (subst (λ l. fin_last l ≡ true) (select-append sid fs (f ∷ [])) (h sid))

pub Handed-Booked :
    (size : ℕ) (fs : List Frame) (s : Sender) → 0 < size → FinsLast fs → Handed size fs s → Booked s
unfolding new_sender total Distinct
Handed-Booked size _ _ p fins nothing = record { distinct = tt; count = refl }
Handed-Booked size _ t p fins (requests fs s f _ h e) =
    let (k, z) = Handed-Keyed size fs s p h in
    handle_request-Booked s t f (omega (arith, z)) e
      (Handed-Booked size fs s p (prefix-FinsLast fs f fins) h)
Handed-Booked size _ _ p fins (slips fs s f xs h r out e apart) =
    let (k, z) = Handed-Keyed size fs s p r in
    let b =
      handle_request-Booked s (pass_on s f) f (omega (arith, z)) e
        (Handed-Booked size fs s p (prefix-FinsLast fs f fins) r) in
    record { distinct = b.distinct; count = b.count }
Handed-Booked size _ _ p fins (collects fs s k h) =
    (collect-Booked size fs p fins s k h (Handed-Booked size fs s p fins h)).0

-- Where reqCount is 0 every queue is empty, and every frame that was handed over has left.
pub drained :
    (size : ℕ) (fs : List Frame) (t : Sender)
    → 0 < size
    → Handed size fs t
    → FinsLast fs
    → Booked t
    → t.req_count ≡ 0
    → ((k : ℕ) → queue_of t k ≡ []) × ((sid : ℕ) → select sid t.out ≡ select sid fs)
drained size fs t p h fins b n =
    let empty : (k : ℕ) → queue_of t k ≡ [] = λ k. all_empty t.queues k (sym b.count ∙ n) in
    (
      empty,
      λ sid. sym (
          stream_in_order size fs t sid p h (fins sid)
          ∙ (ap (λ l. select sid t.out ++ l) (empty sid) ∙ append-nil (select sid t.out))),
    )

-- The collecting goroutine ends after at most as many passes as reqCount says, and then every queue is empty.
pub collector_total :
    (size : ℕ) (fs : List Frame) (s : Sender)
    → 0 < size
    → Handed size fs s
    → FinsLast fs
    → (t : Sender) × (collector (suc s.req_count) s ≡ some t)
      × Handed size fs t
      × (t.req_count ≡ 0)
      × ((k : ℕ) → queue_of t k ≡ [])
collector_total size fs s p h fins =
    let b = Handed-Booked size fs s p fins h in
    let (t, e, h', b', n) = collector_ends size fs p fins (suc s.req_count) s h b (omega arith) in
    let (empty, all_out) = drained size fs t p h' fins b' n in (t, e, h', n, empty)
