-- ===== src/Programs/Hub/Order.antt =====
-- In which order the hub uses its sessions.
use revese_server.Base.{
  ◌∙◌, ap, sym, length-append, append_assoc, subst, ◌≤◌, arith, length, [], some, ◌++◌, ◌∷◌, ◌≡◌,
  List, false, true, refl,
}
use revese_server.Programs.Hub.{true, List, false, HubState, send_session, serve_client}

module _ {ℓ} {A : Type ℓ} where
  -- `Run sent gone h`: main came to the state h, `sent` are the sessions that the upstream loop sent, and
  -- `gone` those that main saw closed when a client came and another session was there.
  pub data Run : List A → List A → HubState A → Type ℓ where
    first : (x : A) → Run (x ∷ []) [] (record { ch_admin = []; sess = x })
    sends :
        (sent gone : List A) (h : HubState A) (x : A)
        → Run sent gone h
        → length h.ch_admin ≤ 1
        → Run (sent ++ (x ∷ [])) gone (send_session x h)
    serves_open :
        (sent gone : List A) (h h' : HubState A)
        → Run sent gone h
        → serve_client false h ≡ some h'
        → Run sent gone h'
    serves_next :
        (sent gone : List A) (h h' : HubState A)
        → Run sent gone h
        → serve_client true h ≡ some h'
        → Run sent (gone ++ (h.sess ∷ [])) h'

  served_open : (h h' : HubState A) → serve_client false h ≡ some h' → h ≡ h'
  unfolding serve_client
  served_open h h' e = ground arith

  served_next :
      (h h' : HubState A) → serve_client true h ≡ some h' → h.ch_admin ≡ h'.sess ∷ h'.ch_admin
  unfolding serve_client
  served_next h h' e = ground arith

  -- The sessions are used in the order in which their connections came: those that main saw closed, then
  -- the one in use, then those that wait. None is lost, and none is used twice.
  pub sessions_in_order :
      (sent gone : List A) (h : HubState A)
      → Run sent gone h
      → (sent ≡ gone ++ (h.sess ∷ h.ch_admin)) × (length h.ch_admin ≤ 2)
  unfolding send_session
  sessions_in_order _ _ _ (first x) = (refl, omega arith)
  sessions_in_order _ _ _ (sends sent gone h x r room) =
      let (e, n) = sessions_in_order sent gone h r in
      (
        ap (λ l. l ++ (x ∷ [])) e ∙ append_assoc gone (h.sess ∷ h.ch_admin) (x ∷ []),
        omega (arith, n, room, length-append h.ch_admin (x ∷ [])),
      )
  sessions_in_order _ _ _ (serves_open sent gone h h' r e) =
      subst (λ k. (sent ≡ gone ++ (k.sess ∷ k.ch_admin)) × (length k.ch_admin ≤ 2))
        (served_open h h' e) (sessions_in_order sent gone h r)
  sessions_in_order _ _ _ (serves_next sent gone h h' r e) =
      let (e', n) = sessions_in_order sent gone h r in
      let q = served_next h h' e in
      (
        e'
            ∙ (ap (λ l. gone ++ (h.sess ∷ l)) q
                ∙ sym (append_assoc gone (h.sess ∷ []) (h'.sess ∷ h'.ch_admin))),
        ground (arith, n, q),
      )
