-- ===== src/Smux/Sender/AnyOrder.antt =====
-- The collecting goroutine of sendLoop in lib/smux/session.go ranges over streamQueues, which Go does in an
-- order that it leaves open. The ids that it finds are a list up to order.
use mathlib.Core.Quot
use mathlib.Core.Quot.{Quot, Quot-set}
use mathlib.Core.Logic.{∥∥₁_elim}
use mathlib.Core.List.{Perm, Permᴰ}
use mathlib.Core.List.Perm
use revese_server.Base.{
  ap, sym, Bool-cases, inl, inr, ltb, Option, ◌∙◌, if◌then◌else◌, arith, ◌≡◌, List, ℕ, refl, none,
  some, [], ◌∷◌, zero, suc,
}
use revese_server.Smux.Sender.{Sender, keys, insert_sorted, sort_ids, collect_all, collector}

-- Sorting forgets the order.
insert_comm :
    (a b : ℕ) (l : List ℕ)
    → insert_sorted a (insert_sorted b l) ≡ insert_sorted b (insert_sorted a l)
unfolding insert_sorted
insert_comm a b [] = ground arith
insert_comm a b (k ∷ l) = ground (arith, insert_comm a b l)

sort_ids-Permᴰ : (xs ys : List ℕ) → Permᴰ xs ys → sort_ids xs ≡ sort_ids ys
unfolding sort_ids
sort_ids-Permᴰ _ _ Permᴰ.nil = refl
sort_ids-Permᴰ _ _ (Permᴰ.cons {b = b} {l₁ = xs} {l₂ = ys} e d) =
    rw (e, sort_ids-Permᴰ xs ys d) refl
sort_ids-Permᴰ _ _ (Permᴰ.swap {a = a} {b = b} {l = l} e d) =
    rw (sym e, sym d) (insert_comm a b (sort_ids l))
sort_ids-Permᴰ _ _ (Permᴰ.trans {l₁ = xs} {l₂ = ys} {l₃ = zs} d e) =
    sort_ids-Permᴰ xs ys d ∙ sort_ids-Permᴰ ys zs e

pub sort_ids-Perm : (xs ys : List ℕ) → Perm xs ys → sort_ids xs ≡ sort_ids ys
sort_ids-Perm xs ys p = ∥∥₁_elim p (hlevel) (sort_ids-Permᴰ xs ys)

-- And keeps the ids.
insert_sorted-Perm : (a : ℕ) (l : List ℕ) → Perm (insert_sorted a l) (a ∷ l)
unfolding insert_sorted
insert_sorted-Perm a [] = Perm.rfl
insert_sorted-Perm a (k ∷ l) = elim (Bool-cases (ltb k a)) [
  | inl e ↦ rw e (Perm.trans (Perm.cons k (insert_sorted-Perm a l)) (Perm.swap a k l))
  | inr e ↦ rw e Perm.rfl
]

sort_ids-self : (l : List ℕ) → Perm (sort_ids l) l
unfolding sort_ids
sort_ids-self [] = Perm.nil
sort_ids-self (a ∷ l) =
    Perm.trans (insert_sorted-Perm a (sort_ids l)) (Perm.cons a (sort_ids-self l))

-- The ids of the map, without an order.
abbrev pub IdBag : Type 0
IdBag = Quot (λ (xs ys : List ℕ). Perm xs ys)

abbrev pub bag_of : List ℕ → IdBag
bag_of = Quot.mk

-- sids after sort.Slice, as a function of the ids without an order.
unfoldable sorted : IdBag → List ℕ
sorted = Quot.lift (hlevel) sort_ids sort_ids-Perm

-- The collecting goroutine, where `found` gives the ids in the order in which a range over the map meets them.
unfoldable pub collector_over : (ℕ → Sender → List ℕ) → ℕ → Sender → Option Sender
collector_over found zero s = none
collector_over found (suc fuel) s =
    let rest = collector_over found fuel (collect_all (sort_ids (found fuel s)) s) in
    if ltb 0 s.req_count then rest else some s

-- If each range meets every id of the map once, in whatever order, then what the collecting goroutine
-- does does not depend on the orders.
pub collector_over-collector :
    (found : ℕ → Sender → List ℕ) (fuel : ℕ) (s : Sender)
    → ((n : ℕ) (t : Sender) → bag_of (found n t) ≡ bag_of (keys t.queues))
    → collector_over found fuel s ≡ collector fuel s
unfolding collector_over collector sorted
collector_over-collector found zero s h = refl
collector_over-collector found (suc fuel) s h =
    let same : sort_ids (found fuel s) ≡ sort_ids (keys s.queues) = ap sorted (h fuel s) in
    ground (
      arith,
      same,
      collector_over-collector found fuel (collect_all (sort_ids (keys s.queues)) s) h,
    )
