-- ===== src/Veb/Index.antt =====
-- A number of the universe as its cluster and its place there, `x / up` and `x % up`.
use native.Mathlib.Nat.{
  div-add-mod, mod-lt, mul-add-div_right, mul-add-mod_self_right, mod-eq_of_lt, div-eq_of_lt,
  div-lt_iff_lt-mul, le-div_iff_mul-le, mul_comm,
}
use bienutil.Base.{ℕ, suc, ◌+◌, ◌*◌, ◌/◌, ◌%◌, ◌≤◌, ◌<◌, ◌≡◌, ap, ◌∙◌, arith}

module _ (lo up : ℕ) (pos : 0 < up) where
  pub index_split : (j : ℕ) → j / up * up + j % up ≡ j
  index_split j = omega (arith, div-add-mod j up, mul_comm up (j / up))

  pub cluster-lt : (j : ℕ) → j < lo * up → j / up < lo
  cluster-lt j h = (div-lt_iff_lt-mul pos).1 h

  pub element-lt : (j : ℕ) → j % up < up
  element-lt j = mod-lt j pos

  pub cluster-index : (c e : ℕ) → e < up → (c * up + e) / up ≡ c
  cluster-index c e h = mul-add-div_right pos c e ∙ omega (arith, div-eq_of_lt h)

  pub element-index : (c e : ℕ) → e < up → (c * up + e) % up ≡ e
  element-index c e h = mul-add-mod_self_right c up e ∙ mod-eq_of_lt h

  pub index-lt : (c e : ℕ) → c < lo → e < up → c * up + e < lo * up
  index-lt c e k h = (div-lt_iff_lt-mul pos).0 (rw (cluster-index c e h) k)

  -- Numbers are ordered by cluster, and in a cluster by place.
  pub cluster_mono : (i j : ℕ) → i ≤ j → i / up ≤ j / up
  cluster_mono i j l = (le-div_iff_mul-le pos).1 (omega (arith, index_split i))

  pub same_cluster : (i j : ℕ) → i / up ≡ j / up → j + i % up ≡ i + j % up
  same_cluster i j e = omega (arith, index_split i, index_split j, ap (λ (t : ℕ). t * up) e)

  pub index_above : (c e j : ℕ) → e < up → c < j / up → c * up + e < j
  index_above c e j h l =
      let past : suc c * up ≤ j = (le-div_iff_mul-le pos).0 l in omega (arith, past)

  pub index_below : (c e j : ℕ) → j / up < c → j < c * up + e
  index_below c e j l =
      let before : j < c * up = (div-lt_iff_lt-mul pos).0 l in omega (arith, before)

  pub index_same : (c j : ℕ) → j / up ≡ c → j ≡ c * up + j % up
  index_same c j e = omega (arith, index_split j, ap (λ (t : ℕ). t * up) e)

  pub cluster-le_index : (c e j : ℕ) → e < up → j < c * up + e → j / up ≤ c
  cluster-le_index c e j h l =
      omega (arith, cluster_mono j (c * up + e) (omega arith), cluster-index c e h)
