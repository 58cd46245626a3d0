-- ===== src/Worker/System/Unrepeated.antt =====
-- The table of settlements of src/stakeroute/storage/schema.sql, with its UNIQUE column.
use stakeroute.Prelude.{
  ◌≡◌, refl, Bool, false, List, [], ◌∷◌, map, count, text_eq, All, Pairs, arith,
}
use stakeroute.Storage.Rows.{SettlementRow, Db}
use stakeroute.Storage.Tables.{exists, append_row}
use stakeroute.Storage.Queries.{repeated, duplicate_settlement_count}
use stakeroute.Worker.System.Stakes.{All-append_row}

module _ {A : Type 0} where
  pub Pairs-append_row :
      (R : A → A → Type 0) (r : A) (xs : List A)
      → All (λ x. R x r) xs
      → Pairs R xs
      → Pairs R (append_row r xs)
  unfolding append_row
  Pairs-append_row R r [] h p = (tt, tt)
  Pairs-append_row R r (x ∷ xs) (h, hs) (p, ps) =
      (All-append_row (R x) r xs h p, Pairs-append_row R r xs hs ps)

  pub All-absent : (p : A → Bool) (xs : List A) → exists p xs ≡ false → All (λ x. p x ≡ false) xs
  unfolding exists
  All-absent p [] h = tt
  All-absent p (x ∷ xs) h = (ground arith, All-absent p xs (ground arith))

module _ {F : Type 0} where
  abbrev pub Apart : SettlementRow F → SettlementRow F → Type 0
  Apart r s = text_eq r.forecast_id s.forecast_id ≡ false

  -- No two settlements are of one forecast.
  abbrev pub Unrepeated : List (SettlementRow F) → Type 0
  Unrepeated = Pairs Apart

  count-Apart :
      (r : SettlementRow F) (rows : List (SettlementRow F))
      → All (Apart r) rows
      → count (text_eq r.forecast_id) (map (λ s. s.forecast_id) rows) ≡ 0
  count-Apart r [] all = refl
  count-Apart r (s ∷ rows) (h, all) = ground (arith, h, count-Apart r rows all)

  Unrepeated-repeated :
      (rows : List (SettlementRow F))
      → Unrepeated rows
      → repeated (map (λ s. s.forecast_id) rows) ≡ 0
  unfolding repeated
  Unrepeated-repeated [] u = refl
  Unrepeated-repeated (r ∷ rows) (h, u) =
      ground (arith, count-Apart r rows h, Unrepeated-repeated rows u)

  pub Unrepeated-duplicates :
      (db : Db F) → Unrepeated db.settlements → duplicate_settlement_count db ≡ 0
  unfolding duplicate_settlement_count
  Unrepeated-duplicates db u = Unrepeated-repeated db.settlements u
