-- ===== src/Smux/Session/Refine.antt =====
-- How the state of a session holds the map of Spec.
pub mod Ops
pub mod Conn
pub mod Reads
pub mod Run
use revese_server.Base.{
  sym, subst, inr, ◌==◌, inl, ◌≢◌, if◌then◌else◌, Option-cases, List, ◌<◌, ◌≤◌, ◌≡◌, ℕ, refl, arith,
  none, some, [], ◌∷◌,
}
use revese_server.Smux.Session.Spec.{Does-right, Does-left, Mux, Sets, Does, quiet, Event}
use revese_server.Base.Maps.{lookup}
use revese_server.Smux.Stream.{Stream}
use revese_server.Smux.Session.{Session, put_stream}

-- The buffers of the streams in the map.
abbrev pub view : Session → Mux
view s k = elim (lookup k s.streams) [ none ↦ none | some p ↦ some (s.objects p).buffer ]

-- What the map holds under an id is an object that exists and has this id.
pub record Named (s : Session) : Type 0 where
  pub exists : (sid p : ℕ) → lookup sid s.streams ≡ some p → p < s.next_ptr
  pub name : (sid p : ℕ) → lookup sid s.streams ≡ some p → (s.objects p).id ≡ sid

-- The same map, with objects of the same ids, of which only p has another buffer.
pub record Touches (s : Session) (p : ℕ) (b : List ℕ) (t : Session) : Type 0 where
  pub streams : t.streams ≡ s.streams
  pub ptr : s.next_ptr ≤ t.next_ptr
  pub ids : (q : ℕ) → (t.objects q).id ≡ (s.objects q).id
  pub buffers : (q : ℕ) → (t.objects q).buffer ≡ (if q == p then b else (s.objects q).buffer)

-- The same map and the same buffers.
pub record Alike (s t : Session) : Type 0 where
  pub streams : t.streams ≡ s.streams
  pub ptr : s.next_ptr ≤ t.next_ptr
  pub ids : (q : ℕ) → (t.objects q).id ≡ (s.objects q).id
  pub buffers : (q : ℕ) → (t.objects q).buffer ≡ (s.objects q).buffer

-- A step: what it does to the map, and that the map stays a map of objects by their ids.
pub record Refines (s : Session) (e : Event) (t : Session) : Type 0 where
  pub does : Does (view s) e (view t)
  pub named : Named t

pub Touches-Named : (s t : Session) (p : ℕ) (b : List ℕ) → Touches s p b t → Named s → Named t
Touches-Named s t p b h n = record {
  exists = λ sid q l. ground (arith, h.streams, h.ptr, n.exists sid q);
  name = λ sid q l. ground (arith, h.streams, h.ids q, n.name sid q);
}

pub Alike-Named : (s t : Session) → Alike s t → Named s → Named t
Alike-Named s t h n = record {
  exists = λ sid q l. ground (arith, h.streams, h.ptr, n.exists sid q);
  name = λ sid q l. ground (arith, h.streams, h.ids q, n.name sid q);
}

pub Alike-view : (s t : Session) → Alike s t → (k : ℕ) → view t k ≡ view s k
Alike-view s t h k = elim (Option-cases (lookup k s.streams)) [
  | inl e ↦ ground (arith, h.streams, e)
  | inr (p, e) ↦ ground (arith, h.streams, e, h.buffers p)
]

pub Alike-Refines : (s t : Session) → Alike s t → Named s → Refines s quiet t
Alike-Refines s t h n = record { does = Alike-view s t h; named = Alike-Named s t h n }

-- A buffer in the map changes: its entry is set.
pub Touches-Sets :
    (s t : Session) (sid p : ℕ) (b : List ℕ)
    → Named s
    → lookup sid s.streams ≡ some p
    → Touches s p b t
    → Sets (view s) sid (some b) (view t)
Touches-Sets s t sid p b n l h k = elim (Option-cases (lookup k s.streams)) [
  | inl e ↦ ground (arith, h.streams, e)
  | inr (q, e) ↦ ground (arith, h.streams, e, h.buffers q, n.name sid p l, n.name k q e)
]

-- A buffer that no id leads to changes: nothing is seen of it.
pub Touches-quiet :
    (s t : Session) (p : ℕ) (b : List ℕ)
    → Named s
    → ((sid : ℕ) → lookup sid s.streams ≢ some p)
    → Touches s p b t
    → (k : ℕ) → view t k ≡ view s k
Touches-quiet s t p b n l h k = elim (Option-cases (lookup k s.streams)) [
  | inl e ↦ ground (arith, h.streams, e)
  | inr (q, e) ↦ ground (arith, h.streams, e, h.buffers q, l k)
]

pub Refines-after : (s t u : Session) (e : Event) → Refines s e t → Alike t u → Refines s e u
Refines-after s t u e r h = record {
  does = Does-right (view s) (view t) (view u) e r.does (Alike-view t u h);
  named = Alike-Named t u h r.named;
}

pub Refines-before : (s t u : Session) (e : Event) → Alike s t → Refines t e u → Refines s e u
Refines-before s t u e h r = record {
  does = Does-left (view t) (view s) (view u) e (Alike-view s t h) r.does;
  named = r.named;
}

-- Objects beyond those that exist are not seen.
pub unused-Refines :
    (s t : Session)
    → t.streams ≡ s.streams
    → s.next_ptr ≤ t.next_ptr
    → ((q : ℕ) → (q < s.next_ptr) → t.objects q ≡ s.objects q)
    → Named s
    → Refines s quiet t
unused-Refines s t a b c n = record {
  does = λ k. elim (Option-cases (lookup k s.streams)) [
    | inl e ↦ ground (arith, a, e)
    | inr (p, e) ↦ ground (arith, a, e, c p (n.exists k p e))
  ];
  named = record {
    exists = λ k q l. ground (arith, a, b, n.exists k q);
    name = λ k q l.
        let l' : lookup k s.streams ≡ some q = ground (arith, a, l) in
        ground (arith, c q (n.exists k q l'), n.name k q l');
  };
}

pub as_event : (s t : Session) (e e' : Event) → e ≡ e' → Refines s e' t → Refines s e t
as_event s t e e' q r = subst (λ v. Refines s v t) (sym q) r
