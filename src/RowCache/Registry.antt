-- ===== src/RowCache/Registry.antt =====
-- The class RowCache of include/sub0tieredcache/row_cache.hpp: tables by handle.
use sub0tiered_cache.Base.{
  ℕ, zero, suc, ◌-◌, ◌%◌, ◌<◌, ◌≡◌, refl, ap, arith, Option, some, List, [], ◌∷◌, ◌++◌, length,
  length-append, get_elem?,
}
use sub0tiered_cache.RowCache.Config.{Result, value, unexpected, TableConfig, Transport, u32_size}
use sub0tiered_cache.RowCache.State.{Table}
use sub0tiered_cache.RowCache.Admin.{create}

pub record Registry : Type 0 where
  pub tables : List Table

unfoldable pub register_table : Transport → Registry → TableConfig → Registry × Result ℕ
register_table tr r c = elim (create tr c) [
  | unexpected e ↦ (r, unexpected e)
  | value t ↦
      (record { tables = r.tables ++ t ∷ [] }, value ((length (r.tables ++ t ∷ []) - 1) % u32_size))
]

-- `none` is nullptr.
unfoldable pub table : Registry → ℕ → Option Table
table r handle = get_elem? r.tables handle

unfoldable pub table_count : Registry → ℕ
table_count r = length r.tables

get_elem?_old :
    (ts us : List Table) (i : ℕ) (t : Table)
    → get_elem? ts i ≡ some t
    → get_elem? (ts ++ us) i ≡ some t
get_elem?_old [] us i t e = cc
get_elem?_old (x ∷ ts) us zero t e = e
get_elem?_old (x ∷ ts) us (suc i) t e = get_elem?_old ts us i t e

get_elem?_new : (ts : List Table) (t : Table) → get_elem? (ts ++ t ∷ []) (length ts) ≡ some t
get_elem?_new [] t = refl
get_elem?_new (x ∷ ts) t = get_elem?_new ts t

module _ (tr : Transport) (r : Registry) (c : TableConfig) (t : Table)
    (made : create tr c ≡ value t) where
  -- A registration with fewer than 2 ^ 32 tables gives a handle under which the table created
  -- stands.
  pub register-table :
      table_count r < u32_size
      → (handle : ℕ) × ((register_table tr r c).1 ≡ value handle)
        × (table (register_table tr r c).0 handle ≡ some t)
  unfolding register_table table table_count
  register-table few =
      let next : (length (r.tables ++ t ∷ []) - 1) % u32_size ≡ length r.tables =
        omega (arith, few, length-append r.tables (t ∷ [])) in
      rw (made, register_table) (length r.tables, ap value next, get_elem?_new r.tables t)

  -- A registration leaves every handle that was given before to its table.
  pub register-table_old :
      (old : ℕ) (u : Table) → table r old ≡ some u → table (register_table tr r c).0 old ≡ some u
  unfolding register_table table
  register-table_old old u e = rw (made, register_table) (get_elem?_old r.tables (t ∷ []) old u e)
