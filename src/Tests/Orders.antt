-- ===== src/Tests/Orders.antt =====
-- Go goes through the map of queues backwards.
use mathlib.Core.Quot
use mathlib.Core.List.{Perm}
use mathlib.Core.List.Perm
use mathlib.Core.List.Permᴰ
use revese_server.Base.{ℕ, ◌≡◌, List, [], ◌∷◌, ◌++◌, sym, subst, append-nil}
use revese_server.Smux.Frame.{new_frame, cmd_syn}
use revese_server.Smux.Sender.{Sender, new_sender, enqueue, keys, collector}
use revese_server.Smux.Sender.AnyOrder.{bag_of, collector_over, collector_over-collector}

abbrev backwards : List ℕ → List ℕ
backwards [] = []
backwards (a ∷ l) = backwards l ++ (a ∷ [])

backwards-Perm : (l : List ℕ) → Perm (backwards l) l
backwards-Perm [] = Perm.nil
backwards-Perm (a ∷ l) =
    Perm.trans (∣ Permᴰ.middle a (backwards l) [] ∣₁)
      (Perm.cons a (subst (λ r. Perm r l) (sym (append-nil (backwards l))) (backwards-Perm l)))

abbrev found : ℕ → Sender → List ℕ
found n t = backwards (keys t.queues)

found_all : (n : ℕ) (t : Sender) → bag_of (found n t) ≡ bag_of (keys t.queues)
found_all n t = Quot.sound (backwards-Perm (keys t.queues))

abbrev two_wait : Sender
two_wait = enqueue (enqueue (new_sender 2) (new_frame cmd_syn 5)) (new_frame cmd_syn 3)

collector_over-collector_example : collector_over found 3 two_wait ≡ collector 3 two_wait
collector_over-collector_example = collector_over-collector found 3 two_wait found_all
