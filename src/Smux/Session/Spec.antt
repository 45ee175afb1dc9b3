-- ===== src/Smux/Session/Spec.antt =====
-- What a session promises for the data that it receives, with nothing of how it keeps it: a map from
-- stream ids to the queues of the bytes that were not read yet.
use revese_server.Base.{
  sym, subst, arith, ◌∙◌, ◌∷◌, ℕ, List, [], ◌++◌, Option, none, some, ◌≡◌, ◌==◌, if◌then◌else◌,
}

abbrev pub Mux : Type 0
Mux = ℕ → Option (List ℕ)

abbrev pub no_streams : Mux
no_streams k = none

-- `offered` is a stream that the peer opens, `started` one that this side opens.
pub data Event : Type 0 where
  quiet : Event
  offered : ℕ → Event
  started : ℕ → Event
  pushed : ℕ → List ℕ → Event
  taken : ℕ → List ℕ → Event
  removed : ℕ → Event

-- One entry is set, and no other changes.
abbrev pub Sets : Mux → ℕ → Option (List ℕ) → Mux → Type 0
Sets m sid v m' = (k : ℕ) → m' k ≡ (if sid == k then v else m k)

-- A queue that is there stays as it is.
abbrev pub or_new : Option (List ℕ) → Option (List ℕ)
or_new none = some []
or_new (some q) = some q

-- Bytes for a stream that is not there are dropped.
abbrev pub join : Option (List ℕ) → List ℕ → Option (List ℕ)
join none bytes = none
join (some q) bytes = some (q ++ bytes)

-- Bytes are taken from the front of a queue.
abbrev pub Does : Mux → Event → Mux → Type 0
Does m quiet m' = (k : ℕ) → m' k ≡ m k
Does m (offered sid) m' = Sets m sid (or_new (m sid)) m'
Does m (started sid) m' = Sets m sid (some []) m'
Does m (pushed sid bytes) m' = Sets m sid (join (m sid) bytes) m'
Does m (taken sid bytes) m' =
    (rest : List ℕ) × (m sid ≡ some (bytes ++ rest)) × Sets m sid (some rest) m'
Does m (removed sid) m' = Sets m sid none m'

-- The events of a history, the last one first.
pub data Trace (m : Mux) : List Event → Mux → Type 0 where
  start : {m' : Mux} → ((k : ℕ) → m' k ≡ m k) → Trace m [] m'
  then_does :
      {es : List Event} {m' m'' : Mux} (e : Event)
      → Trace m es m'
      → Does m' e m''
      → Trace m (e ∷ es) m''

-- Maps with the same entries do the same.
pub Does-right :
    (m m' m'' : Mux) (e : Event) → Does m e m' → ((k : ℕ) → m'' k ≡ m' k) → Does m e m''
Does-right m m' m'' quiet d h = λ k. h k ∙ d k
Does-right m m' m'' (offered sid) d h = λ k. h k ∙ d k
Does-right m m' m'' (started sid) d h = λ k. h k ∙ d k
Does-right m m' m'' (pushed sid bytes) d h = λ k. h k ∙ d k
Does-right m m' m'' (taken sid bytes) (rest, q, d) h = (rest, q, λ k. h k ∙ d k)
Does-right m m' m'' (removed sid) d h = λ k. h k ∙ d k

Sets-left :
    (m n m' : Mux) (sid : ℕ) (v : Option (List ℕ))
    → ((k : ℕ) → m k ≡ n k)
    → Sets m sid v m'
    → Sets n sid v m'
Sets-left m n m' sid v h d k = ground (arith, d k, h k)

pub Does-left : (m n m' : Mux) (e : Event) → ((k : ℕ) → m k ≡ n k) → Does m e m' → Does n e m'
Does-left m n m' quiet h d = λ k. d k ∙ h k
Does-left m n m' (offered sid) h d =
    subst (λ v. Sets n sid (or_new v) m') (h sid) (Sets-left m n m' sid (or_new (m sid)) h d)
Does-left m n m' (started sid) h d = Sets-left m n m' sid (some []) h d
Does-left m n m' (pushed sid bytes) h d =
    subst (λ v. Sets n sid (join v bytes) m') (h sid)
      (Sets-left m n m' sid (join (m sid) bytes) h d)
Does-left m n m' (taken sid bytes) h (rest, q, d) =
    (rest, sym (h sid) ∙ q, Sets-left m n m' sid (some rest) h d)
Does-left m n m' (removed sid) h d = Sets-left m n m' sid none h d
