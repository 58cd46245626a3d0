-- ===== src/Worker/System/Stakes.antt =====
-- The stakes of the forecasts that `handle_forecast_created` of src/stakeroute/worker/main.py stores.
use stakeroute.Prelude.{
  ◌≡◌, refl, sym, ap, subst, ◌∙◌, inl, inr, Bool, ◌&&◌, Option, none, some, List, [], ◌∷◌, ℤ, neg,
  ◌≤ℤ◌, leb_ℤ, ltb_ℤ, Text, text_eq, ok, bind-eq-ok, ok-inj, Option-cases, Bool-cases, All, arith,
}
use stakeroute.Float.{Float}
use stakeroute.Storage.Rows.{
  AgentRow, ForecastRow, Rejection, unknown_agent, outside_limits, exceeds_available, Db,
}
use stakeroute.Storage.Tables.{delete, append_row}
use stakeroute.Storage.Repository.{
  get_agent, get_live_forecast, insert_rejected_forecast, ensure_evidence_cluster, delete_forecast,
  insert_forecast, replace_forecast, upsert_forecast, adjust_agent_credits,
}
use stakeroute.Worker.Messages.{Message, ForecastBody}
use stakeroute.Worker.Forecasts.{
  stake_min, stake_max, reject, new_forecast, release, accept, effective_available, handle_known,
  handle_forecast_created,
}

module _ {A : Type 0} (P : A → Type 0) where
  pub All-append_row : (r : A) (xs : List A) → P r → All P xs → All P (append_row r xs)
  unfolding append_row
  All-append_row r [] h all = (h, tt)
  All-append_row r (x ∷ xs) h (p, all) = (p, All-append_row r xs h all)

  All-delete : (p : A → Bool) (xs : List A) → All P xs → All P (delete p xs)
  unfolding delete
  All-delete p [] all = tt
  All-delete p (x ∷ xs) (h, all) = elim (Bool-cases (p x)) [
    | inl e ↦ rw e (All-delete p xs all)
    | inr e ↦ rw e (h, All-delete p xs all)
  ]

module _ {F : Type 0} where
  abbrev pub HasLimits : ForecastRow F → Type 0
  HasLimits r = (stake_min ≤ℤ r.stake) × (r.stake ≤ℤ stake_max)

  abbrev pub Limited : Db F → Type 0
  Limited db = All HasLimits db.forecasts

  -- The stakes stay within the limits, and the settlements are as they were.
  abbrev pub KeepsStakes : Db F → Db F → Type 0
  KeepsStakes db db' = (Limited db → Limited db') × (db'.settlements ≡ db.settlements)

  KeepsStakes-trans :
      (db1 db2 db3 : Db F) → KeepsStakes db1 db2 → KeepsStakes db2 db3 → KeepsStakes db1 db3
  KeepsStakes-trans db1 db2 db3 (k, s) (k', s') = (λ h. k' (k h), s' ∙ s)

  pub same_tables :
      (db db' : Db F)
      → db'.forecasts ≡ db.forecasts
      → db'.settlements ≡ db.settlements
      → KeepsStakes db db'
  same_tables db db' fs ss = (λ h. subst (All HasLimits) (sym fs) h, ss)

  ensure-KeepsStakes :
      (c t l : Text) (db db' : Db F)
      → ensure_evidence_cluster c t l db ≡ ok db'
      → KeepsStakes db db'
  unfolding ensure_evidence_cluster
  ensure-KeepsStakes c t l db db' h = same_tables db db' (ground arith) (ground arith)

  insert-tables :
      ⦃f : Float F⦄ (row : ForecastRow F) (db db' : Db F)
      → insert_forecast row db ≡ ok db'
      → (db'.forecasts ≡ append_row row db.forecasts) × (db'.settlements ≡ db.settlements)
  unfolding insert_forecast
  insert-tables row db db' h = ground arith

  insert-KeepsStakes :
      ⦃f : Float F⦄ (row : ForecastRow F) (db db' : Db F)
      → HasLimits row
      → insert_forecast row db ≡ ok db'
      → KeepsStakes db db'
  insert-KeepsStakes row db db' within h =
      let (fs, ss) = insert-tables row db db' h in
      (
        λ all.
            subst (All HasLimits) (sym fs) (All-append_row HasLimits row db.forecasts within all),
        ss,
      )

  delete-tables :
      (i : Text) (db db' : Db F)
      → delete_forecast i db ≡ ok db'
      → (db'.forecasts ≡ delete (λ r. text_eq r.id i) db.forecasts)
        × (db'.settlements ≡ db.settlements)
  unfolding delete_forecast
  delete-tables i db db' h = ground arith

  delete-KeepsStakes :
      (i : Text) (db db' : Db F) → delete_forecast i db ≡ ok db' → KeepsStakes db db'
  delete-KeepsStakes i db db' h =
      let (fs, ss) = delete-tables i db db' h in
      (
        λ all.
            subst (All HasLimits) (sym fs)
              (All-delete HasLimits (λ r. text_eq r.id i) db.forecasts all),
        ss,
      )

  replace-KeepsStakes :
      ⦃f : Float F⦄ (live : Option (ForecastRow F)) (row : ForecastRow F) (db : Db F)
      (r : Option (Text × ℤ) × Db F)
      → HasLimits row
      → replace_forecast live row db ≡ ok r
      → KeepsStakes db r.1
  unfolding replace_forecast
  replace-KeepsStakes none row db r within h =
      let (db1, h1, e) = bind-eq-ok (insert_forecast row db) _ h in
      subst (KeepsStakes db) (ap (λ (x : Option (Text × ℤ) × Db F). x.1) (ok-inj e))
        (insert-KeepsStakes row db db1 within h1)
  replace-KeepsStakes (some old) row db r within h =
      let (db1, h1, h') = bind-eq-ok (delete_forecast old.id db) _ h in
      let (db2, h2, e) = bind-eq-ok (insert_forecast row db1) _ h' in
      subst (KeepsStakes db) (ap (λ (x : Option (Text × ℤ) × Db F). x.1) (ok-inj e)) (
        KeepsStakes-trans db db1 db2 (delete-KeepsStakes old.id db db1 h1)
          (insert-KeepsStakes row db1 db2 within h2))

  pub adjust-KeepsStakes :
      (a : Text) (d e : ℤ) (db : Db F) → KeepsStakes db (adjust_agent_credits a d e db)
  unfolding adjust_agent_credits
  adjust-KeepsStakes a d e db = (λ h. h, refl)

module _ {F : Type 0} ⦃f : Float F⦄ (t : Text) (m : Message (ForecastBody F)) (db db' : Db F) where
  reject-KeepsStakes : (reason : Rejection) → reject t m reason db ≡ ok db' → KeepsStakes db db'
  unfolding insert_rejected_forecast
  reject-KeepsStakes reason h = same_tables db db' (ground arith) (ground arith)

  release-KeepsStakes : (old : Option (Text × ℤ)) → release t m old db ≡ ok db' → KeepsStakes db db'
  unfolding release
  release-KeepsStakes none h = subst (KeepsStakes db) (ok-inj h) (λ all. all, refl)
  release-KeepsStakes (some (i, stake)) h =
      let same : adjust_agent_credits m.body.agent_id stake (neg stake) db ≡ db' = ground arith in
      subst (KeepsStakes db) same (adjust-KeepsStakes m.body.agent_id stake (neg stake) db)

module _ {F : Type 0} ⦃f : Float F⦄ (t : Text) (m : Message (ForecastBody F)) (db db' : Db F) where
  accept-KeepsStakes :
      stake_min ≤ℤ m.body.stake
      → m.body.stake ≤ℤ stake_max
      → accept t m db ≡ ok db'
      → KeepsStakes db db'
  unfolding accept upsert_forecast
  accept-KeepsStakes low high h =
      let c = m.body.evidence_cluster_id in
      let (db1, h1, e1) = bind-eq-ok (ensure_evidence_cluster c t c db) _ h in
      let live = get_live_forecast m.body.hypothesis_id m.body.agent_id db1 in
      let (r, h2, e2) = bind-eq-ok (replace_forecast live (new_forecast t m) db1) _ e1 in
      let (db3, h3, e3) = bind-eq-ok (release t m r.0 r.1) _ e2 in
      let db4 = adjust_agent_credits m.body.agent_id (neg m.body.stake) m.body.stake db3 in
      subst (KeepsStakes db) (ok-inj e3) (
        KeepsStakes-trans db db1 db4 (ensure-KeepsStakes c t c db db1 h1) (
          KeepsStakes-trans db1 r.1 db4
            (replace-KeepsStakes live (new_forecast t m) db1 r (low, high) h2)
            (KeepsStakes-trans r.1 db3 db4 (release-KeepsStakes t m r.1 db3 r.0 h3)
              (adjust-KeepsStakes m.body.agent_id (neg m.body.stake) m.body.stake db3))))

  known-KeepsStakes : (agent : AgentRow F) → handle_known t m agent db ≡ ok db' → KeepsStakes db db'
  unfolding handle_known
  known-KeepsStakes agent h =
      let s = m.body.stake in
      let eff = effective_available t m agent db in
      elim (Bool-cases (leb_ℤ stake_min s && leb_ℤ s stake_max)) [
        | inl within ↦ elim (Bool-cases (ltb_ℤ eff s)) [
          | inl short ↦ reject-KeepsStakes t m db db' (exceeds_available s eff) (ground arith)
          | inr enough ↦ accept-KeepsStakes (ground arith) (ground arith) (ground arith)
        ]
        | inr outside ↦ reject-KeepsStakes t m db db' (outside_limits s) (ground arith)
      ]

pub handle_forecast_created-KeepsStakes :
    {F : Type 0} ⦃f : Float F⦄ (t : Text) (m : Message (ForecastBody F)) (db db' : Db F)
    → handle_forecast_created t m db ≡ ok db'
    → KeepsStakes db db'
unfolding handle_forecast_created
handle_forecast_created-KeepsStakes t m db db' h =
    elim (Option-cases (get_agent m.body.agent_id db)) [
      | inl unknown ↦ reject-KeepsStakes t m db db' unknown_agent (ground arith)
      | inr (agent, g) ↦ known-KeepsStakes t m db db' agent (ground arith)
    ]
