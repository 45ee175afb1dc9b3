-- ===== src/Smux/Sender/Order.antt =====
-- What each step of the send loop does to the frames of a stream.
use revese_server.Base.{
  sym, subst, ℕ_discrete, append-nil, append_assoc, ◌≢◌, ◌||◌, ◌&&◌, ◌==◌, ◌⊎◌, not, ◌≡◌, Bool,
  ◌++◌, All, if◌then◌else◌, List, ℕ, refl, arith, [], ◌∷◌, true, false, inl, inr,
}
use revese_server.Base.Maps.{insert, lookup-insert, lookup-erase}
use revese_server.Smux.Frame.{Frame, cmd_syn, cmd_fin, cmd_psh}
use revese_server.Smux.Sender.{Sender, queue_of, pass_on, enqueue, rotate, dequeue}

-- The frames of a stream that go through its queue.
abbrev pub is_queued : ℕ → Frame → Bool
is_queued sid f = f.sid == sid && (f.cmd == cmd_syn || f.cmd == cmd_fin || f.cmd == cmd_psh)

unfoldable pub select : ℕ → List Frame → List Frame
select sid [] = []
select sid (f ∷ fs) = let rest = select sid fs in if is_queued sid f then f ∷ rest else rest

-- Nothing comes after a FIN.
unfoldable pub fin_last : List Frame → Bool
fin_last [] = true
fin_last (f ∷ []) = true
fin_last (f ∷ g ∷ fs) = not (f.cmd == cmd_fin) && fin_last (g ∷ fs)

pub select-append :
    (sid : ℕ) (xs ys : List Frame) → select sid (xs ++ ys) ≡ select sid xs ++ select sid ys
unfolding select
select-append sid [] ys = refl
select-append sid (x ∷ xs) ys = ground (arith, select-append sid xs ys)

pub fin_last-prefix : (xs ys : List Frame) → fin_last (xs ++ ys) ≡ true → fin_last xs ≡ true
unfolding fin_last
fin_last-prefix [] ys h = refl
fin_last-prefix (x ∷ []) ys h = refl
fin_last-prefix (x ∷ y ∷ xs) ys h = ground (arith, fin_last-prefix (y ∷ xs) ys)

pub fin_last-cut :
    (xs : List Frame) (f : Frame) (q : List Frame)
    → fin_last (xs ++ (f ∷ q)) ≡ true
    → f.cmd ≡ cmd_fin
    → q ≡ []
unfolding fin_last
fin_last-cut [] f [] h e = refl
fin_last-cut [] f (g ∷ q) h e = ground arith
fin_last-cut (x ∷ []) f q h e = ground (arith, fin_last-cut [] f q)
fin_last-cut (x ∷ y ∷ xs) f q h e = ground (arith, fin_last-cut (y ∷ xs) f q)

abbrev pub Own : ℕ → List Frame → Type 0
Own k = All (λ f. is_queued k f ≡ true)

-- Every queue holds frames of its stream only.
abbrev pub Keyed : Sender → Type 0
Keyed s = (k : ℕ) → Own k (queue_of s k)

-- What came of a step that took in the frames fs, for one stream.
abbrev pub Flows : ℕ → Sender → Sender → List Frame → Type 0
Flows sid s t fs =
    select sid t.out ++ queue_of t sid ≡ (select sid s.out ++ queue_of s sid) ++ select sid fs

pub pass_on-Flows :
    (sid : ℕ) (s : Sender) (f : Frame)
    → (is_queued sid f ≡ false) ⊎ (queue_of s sid ≡ [])
    → Flows sid s (pass_on s f) (f ∷ [])
unfolding select
pass_on-Flows sid s f (inl e) = ground (
  arith,
  select-append sid s.out (f ∷ []),
  append-nil (select sid s.out),
  append-nil (select sid s.out ++ queue_of s sid),
)
pass_on-Flows sid s f (inr e) = ground (
  arith,
  select-append sid s.out (f ∷ []),
  append-nil (select sid s.out),
  append-nil (select sid (s.out ++ (f ∷ []))),
)

-- The queue of a stream after one queue was written.
pub queue_of-insert :
    (s t : Sender) (k sid : ℕ) (q : List Frame)
    → t.queues ≡ insert k q s.queues
    → queue_of t sid ≡ (if k == sid then q else queue_of s sid)
queue_of-insert s t k sid q e = rw (e, lookup-insert s.queues k sid q) ground arith

pub enqueue-Flows :
    (sid : ℕ) (s : Sender) (f : Frame)
    → is_queued f.sid f ≡ true
    → Flows sid s (enqueue s f) (f ∷ [])
unfolding select
enqueue-Flows sid s f h = ground (
  arith,
  queue_of-insert s (enqueue s f) f.sid sid (queue_of s f.sid ++ (f ∷ [])),
  append_assoc (select sid s.out) (queue_of s sid) (f ∷ []),
  append-nil (select sid s.out ++ queue_of s sid),
)

pub rotate-Flows :
    (sid : ℕ) (s : Sender) (f g : Frame) (q : List Frame)
    → is_queued f.sid f ≡ true
    → is_queued f.sid g ≡ true
    → queue_of s f.sid ≡ g ∷ q
    → Flows sid s (rotate s f (g ∷ q)) (f ∷ [])
unfolding select
rotate-Flows sid s f g q hf hg e = ground (
  arith,
  queue_of-insert s (rotate s f (g ∷ q)) f.sid sid (q ++ (f ∷ [])),
  select-append sid s.out (g ∷ []),
  append_assoc (select sid s.out) (g ∷ []) (q ++ (f ∷ [])),
  append_assoc (select sid s.out) (g ∷ q) (f ∷ []),
  append-nil (select sid s.out),
  append-nil (select sid s.out ++ queue_of s sid),
)

pub queue_of-dequeue :
    (s : Sender) (k sid : ℕ) (g : Frame) (q : List Frame)
    → queue_of (dequeue s k (g ∷ q)) sid
      ≡ (if k == sid then (if g.cmd == cmd_fin then [] else q) else queue_of s sid)
queue_of-dequeue s k sid g q =
    ground (arith, lookup-insert s.queues k sid q, lookup-erase k sid s.queues)

pub dequeue-Flows :
    (k sid : ℕ) (s : Sender) (g : Frame) (q : List Frame)
    → is_queued k g ≡ true
    → queue_of s k ≡ g ∷ q
    → (k ≢ sid) ⊎ ((g.cmd ≢ cmd_fin) ⊎ (q ≡ []))
    → Flows sid s (dequeue s k (g ∷ q)) []
unfolding select
dequeue-Flows k sid s g q hg e fin = ground (
  arith,
  queue_of-dequeue s k sid g q,
  select-append sid s.out (g ∷ []),
  append_assoc (select sid s.out) (g ∷ []) q,
  append-nil (select sid s.out),
  append-nil (select sid s.out ++ queue_of s sid),
  append-nil (select sid (s.out ++ (g ∷ []))),
)

-- Every queue goes on holding frames of its stream only.
pub Own-snoc :
    (k : ℕ) (q : List Frame) (f : Frame) → Own k q → is_queued k f ≡ true → Own k (q ++ (f ∷ []))
Own-snoc k [] f h e = (e, tt)
Own-snoc k (x ∷ q) f (hx, h) e = (hx, Own-snoc k q f h e)

-- A step that writes one queue, with frames of its stream.
pub Keyed-insert :
    (s t : Sender) (key : ℕ) (q : List Frame)
    → ((k : ℕ) → queue_of t k ≡ (if key == k then q else queue_of s k))
    → Own key q
    → Keyed s
    → Keyed t
Keyed-insert s t key q e h keyed k = elim (ℕ_discrete key k) [
  | yes same ↦
      let w : queue_of t k ≡ q = ground (arith, e k) in
      subst (Own k) (sym w) (subst (λ j. Own j q) same h)
  | no ne ↦
      let w : queue_of t k ≡ queue_of s k = ground (arith, e k) in subst (Own k) (sym w) (keyed k)
]
