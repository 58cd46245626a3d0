-- ===== src/Worker/Runner/Overdue.antt =====
-- What is overdue after an expiry.
use stakeroute.Prelude.{
  ◌≡◌, refl, subst, sym, ap, ◌∙◌, Bool, true, false, not, ◌&&◌, List, [], ◌∷◌, map, ℤ, ltb_ℤ, Text,
  text_eq, text_eq_refl, select, sorted, sorted-perm, All, All-map, Bool-cases, inl, inr, arith,
}
use stakeroute.Storage.Rows.{expired, HypothesisRow, Db}
use stakeroute.Storage.Tables.{exists, exists-perm, exists_self, update}
use stakeroute.Storage.Repository.{
  is_open, by_id, set_hypothesis_status, list_forecasts_for_hypothesis, list_expired_hypotheses,
}
use stakeroute.Worker.Runner.Expired.{refund_all-hypotheses}
use stakeroute.Worker.Runner.{refund_all, expire_one, expire_all, expire_overdue_hypotheses}

module _ {A : Type 0} where
  none_passes : (xs : List A) → All (λ x. false ≡ true) xs → xs ≡ []
  none_passes [] all = refl
  none_passes (x ∷ xs) all = cc

  All-select :
      {P Q : A → Type 0} (p : A → Bool) (xs : List A)
      → ((x : A) → p x ≡ true → P x → Q x)
      → All P xs
      → All Q (select p xs)
  All-select p [] f all = tt
  All-select {P} {Q} p (x ∷ xs) f (h, all) = elim (Bool-cases (p x)) [
    | inl e ↦ rw e (f x e h, All-select {P = P} {Q = Q} p xs f all)
    | inr e ↦ rw e (All-select {P = P} {Q = Q} p xs f all)
  ]

  -- Rows that an update makes fail a test are no longer selected.
  select-update :
      (p q : A → Bool) (g : A → A) (xs : List A)
      → ((x : A) → p (g x) ≡ false)
      → select p (update q g xs) ≡ select (λ x. not (q x)) (select p xs)
  unfolding update
  select-update p q g [] h = refl
  select-update p q g (x ∷ xs) h = ground (arith, h x, select-update p q g xs h)

module _ {F : Type 0} where
  module _ (t : Text) (now_ms : ℤ) where
    abbrev overdue : HypothesisRow F → Bool
    overdue r = text_eq r.tenant_id t && (is_open r.status && ltb_ℤ r.deadline_ms now_ms)

    abbrev pending : Db F → List (HypothesisRow F)
    pending db = select overdue db.hypotheses

    set_status-pending :
        (i : Text) (db : Db F)
        → pending (set_hypothesis_status i expired db)
          ≡ select (λ r. not (text_eq r.id i)) (pending db)
    unfolding set_hypothesis_status
    set_status-pending i db =
        select-update overdue (λ r. text_eq r.id i) (λ r. record r { status = expired })
          db.hypotheses (λ x. ground arith)

    expire_one-pending :
        (h : HypothesisRow F) (db : Db F)
        → pending (expire_one h db) ≡ select (λ r. not (text_eq r.id h.id)) (pending db)
    unfolding expire_one
    expire_one-pending h db =
        let rows = list_forecasts_for_hypothesis h.id db in
        set_status-pending h.id (refund_all rows db)
        ∙ ap (λ hs. select (λ r. not (text_eq r.id h.id)) (select overdue hs))
            (refund_all-hypotheses rows db)

    -- Every row whose id is on the list is gone from the pending ones.
    expire_all-pending :
        (hs : List (HypothesisRow F)) (db : Db F)
        → All (λ r. exists (λ h. text_eq r.id h.id) hs ≡ true) (pending db)
        → pending (expire_all hs db) ≡ []
    unfolding expire_all exists
    expire_all-pending [] db all = none_passes (pending db) all
    expire_all-pending (h ∷ hs) db all = expire_all-pending hs (expire_one h db) (
        subst (All (λ r. exists (λ h. text_eq r.id h.id) hs ≡ true)) (sym (expire_one-pending h db))
          (All-select (λ r. not (text_eq r.id h.id)) (pending db) (λ r other there. ground arith)
            all))

    nothing_pending :
        (db : Db F) → pending db ≡ [] → expire_overdue_hypotheses t now_ms db ≡ ([], db)
    unfolding expire_overdue_hypotheses list_expired_hypotheses expire_all sorted
    nothing_pending db empty =
        ap (λ hs. let found = sorted by_id hs in (map (λ h. h.id) found, expire_all found db)) empty

    listed :
        (db : Db F)
        → All
            (λ r. exists (λ h. text_eq r.id h.id) (list_expired_hypotheses t now_ms db) ≡ true)
            (pending db)
    unfolding list_expired_hypotheses
    listed db =
        All-map (pending db)
          (λ r there. exists-perm (λ h. text_eq r.id h.id) (sorted-perm by_id (pending db)) ∙ there)
          (exists_self (λ r h. text_eq r.id h.id) (λ r. text_eq_refl r.id) (pending db))

    -- Once the overdue hypotheses have been expired, none is overdue: to run the expiry again at the
    -- same time finds nothing and changes nothing.
    pub expire_overdue-once :
        (db : Db F)
        → let db' = (expire_overdue_hypotheses t now_ms db).1 in
          expire_overdue_hypotheses t now_ms db' ≡ ([], db')
    unfolding expire_overdue_hypotheses
    expire_overdue-once db =
        let found = list_expired_hypotheses t now_ms db in
        nothing_pending (expire_all found db) (expire_all-pending found db (listed db))
