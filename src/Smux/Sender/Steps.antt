-- ===== src/Smux/Sender/Steps.antt =====
-- The steps of the main loop of sendLoop, for all streams at once.
use revese_server.Base.{
  Bool-cases, subst, ◌<◌, ◌⊎◌, ◌≡◌, ◌++◌, List, ℕ, refl, arith, [], ◌∷◌, true, false, inl, inr,
}
use revese_server.Smux.Frame.{Frame}
use revese_server.Smux.Sender.{Sender, queue_of, pass_on, enqueue, rotate, has_room, take_in}
use revese_server.Smux.Sender.Order.{
  is_queued, Own, Keyed, Flows, Own-snoc, Keyed-insert, queue_of-insert, enqueue-Flows,
  rotate-Flows, pass_on-Flows,
}

-- A step that takes in the frames fs, for all streams.
pub record Good (s t : Sender) (fs : List Frame) : Type 0 where
  pub size : t.queue_size ≡ s.queue_size
  pub keyed : Keyed t
  pub flows : (sid : ℕ) → Flows sid s t fs

enqueue-Good :
    (s : Sender) (f : Frame) → is_queued f.sid f ≡ true → Keyed s → Good s (enqueue s f) (f ∷ [])
enqueue-Good s f h k = record {
  size = refl;
  keyed =
      Keyed-insert s (enqueue s f) f.sid (queue_of s f.sid ++ (f ∷ []))
        (λ j. queue_of-insert s (enqueue s f) f.sid j (queue_of s f.sid ++ (f ∷ [])) refl)
        (Own-snoc f.sid (queue_of s f.sid) f (k f.sid) h) k;
  flows = λ sid. enqueue-Flows sid s f h;
}

rotate-Good :
    (s : Sender) (f g : Frame) (q : List Frame)
    → is_queued f.sid f ≡ true
    → queue_of s f.sid ≡ g ∷ q
    → Keyed s
    → Good s (rotate s f (g ∷ q)) (f ∷ [])
rotate-Good s f g q h e k =
    let (hg, hq) : Own f.sid (g ∷ q) = subst (Own f.sid) e (k f.sid) in
    record {
      size = refl;
      keyed =
          Keyed-insert s (rotate s f (g ∷ q)) f.sid (q ++ (f ∷ []))
            (λ j. queue_of-insert s (rotate s f (g ∷ q)) f.sid j (q ++ (f ∷ [])) refl)
            (Own-snoc f.sid q f hq h) k;
      flows = λ sid. rotate-Flows sid s f g q h hg e;
    }

pub List-cases : (q : List Frame) → (q ≡ []) ⊎ ((g : Frame) × (r : List Frame) × (q ≡ g ∷ r))
List-cases [] = inl refl
List-cases (g ∷ r) = inr (g, r, refl)

pub full_queue :
    (s : Sender) (sid : ℕ)
    → 0 < s.queue_size
    → has_room s sid ≡ false
    → (g : Frame) × (q : List Frame) × (queue_of s sid ≡ g ∷ q)
full_queue s sid p h = elim (List-cases (queue_of s sid)) [
  | inl e ↦ absurd (ground (arith, e))
  | inr r ↦ r
]

pub take_in-Good :
    (s : Sender) (f : Frame)
    → 0 < s.queue_size
    → is_queued f.sid f ≡ true
    → Keyed s
    → Good s (take_in s f) (f ∷ [])
take_in-Good s f p h k = elim (Bool-cases (has_room s f.sid)) [
  | inl e ↦ rw e (enqueue-Good s f h k)
  | inr e ↦ let (g, q, eq) = full_queue s f.sid p e in rw (e, eq) (rotate-Good s f g q h eq k)
]

pub pass_on-Good :
    (s : Sender) (f : Frame)
    → ((sid : ℕ) → (is_queued sid f ≡ false) ⊎ (queue_of s sid ≡ []))
    → Keyed s
    → Good s (pass_on s f) (f ∷ [])
pass_on-Good s f h k = record {
  size = refl;
  keyed = k;
  flows = λ sid. pass_on-Flows sid s f (h sid);
}
