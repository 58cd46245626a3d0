-- ===== src/Dashboard/Queue.antt =====
-- The operator's queue: `get_queue` of src/stakeroute/dashboard/main.py.
use stakeroute.Prelude.{
  ◌+◌, ◌≤◌, ◌≡◌, refl, sym, subst, Bool, not, List, [], ◌∷◌, map, map-map, map-perm, count, length,
  length-map, length-perm, select, sorted, sorted-perm, sorted-ordered, Rearranged, All, Pairs, ℤ,
  Text, arith,
}
use stakeroute.Storage.Rows.{market, DecisionRow, Db}
use stakeroute.Storage.Queries.{latest_decisions}
use stakeroute.Dashboard.{QueueEntry, by_rank, queue_entry, get_queue}

length-select :
    {A : Type 0} (p : A → Bool) (xs : List A)
    → length (select p xs) + count (λ x. not (p x)) xs ≡ length xs
length-select p [] = omega arith
length-select p (x ∷ xs) = ground (arith, length-select p xs)

-- A relation on images, from the originals.
All-through :
    {A B : Type 0} (P : B → Type 0) (g : A → B) (xs : List A)
    → All (λ x. P (g x)) xs
    → All P (map g xs)
All-through P g [] all = tt
All-through P g (x ∷ xs) (h, all) = (h, All-through P g xs all)

Pairs-through :
    {A B : Type 0} (R : B → B → Type 0) (g : A → B) (xs : List A)
    → Pairs (λ x y. R (g x) (g y)) xs
    → Pairs R (map g xs)
Pairs-through R g [] p = tt
Pairs-through R g (x ∷ xs) (h, p) = (All-through (R (g x)) g xs h, Pairs-through R g xs p)

-- The queue shows the latest StakeRoute decisions that are routed, each once and in the order of
-- their ranks; `slots_used` counts them, and with `withheld_count` they are all the latest decisions.
pub get_queue-split :
    {F : Type 0} (t : Text) (now_ms : ℤ) (db : Db F)
    → let decisions = latest_decisions t market db in
      let queue = get_queue t now_ms db in
      Rearranged
        (map (λ e. e.hypothesis_id) queue.routed)
        (map (λ d. d.hypothesis_id) (select (λ d. d.routed) decisions))
      × Pairs (λ e e'. e.rank ≤ e'.rank) queue.routed
      × (queue.slots_used ≡ length queue.routed)
      × (queue.slots_used + queue.withheld_count ≡ length decisions)
unfolding get_queue queue_entry
get_queue-split {F} t now_ms db =
    let decisions = latest_decisions t market db in
    let shown = select (λ (d : DecisionRow F). d.routed) decisions in
    let entry = queue_entry now_ms db in
    let order = sorted by_rank shown in
    let perm = sorted-perm by_rank shown in
    (
      subst (λ l. Rearranged l (map (λ d. d.hypothesis_id) shown))
          (sym (map-map (λ (e : QueueEntry F). e.hypothesis_id) entry order))
          (map-perm (λ (d : DecisionRow F). d.hypothesis_id) perm),
      Pairs-through (λ (e : QueueEntry F) (e' : QueueEntry F). e.rank ≤ e'.rank) entry order
          (sorted-ordered (λ (d : DecisionRow F). d.rank) shown),
      refl,
      omega (
        arith,
        length-map entry order,
        length-perm perm,
        length-select (λ (d : DecisionRow F). d.routed) decisions,
      ),
    )
