-- ===== src/Core/Independence.antt =====
-- src/stakeroute/core/independence.py. A cluster size is a count, so it is a natural number.
use stakeroute.Prelude.{ℕ, ltb, Result, raise_if, ◌>>=◌, ◌>>◌, empty_cluster, pos}
use stakeroute.Float.{Float, one_f, divide, sqrt}

module _ {F : Type 0} ⦃f : Float F⦄ where
  unfoldable pub independence_factor : ℕ → Result F
  independence_factor cluster_size = do
    raise_if (ltb cluster_size 1) empty_cluster
    root ← sqrt (f.of_int (pos cluster_size))
    divide one_f root
