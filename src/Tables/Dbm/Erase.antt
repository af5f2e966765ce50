-- ===== src/Tables/Dbm/Erase.antt =====
-- Erasing a database ends, and leaves no key with a value.
use pageserv.Base.{
  ℕ, zero, suc, ◌<◌, ◌≡◌, refl, none, some, length, Bytes, arith, List-cases, inl, inr,
}
use pageserv.Tables.Dbm.{Dbm, DbmLaws, erase_keys}

module _ {D V : Type 0} (m : Dbm D V) (laws : DbmLaws m) where
  pub erase_keys_total :
      (fuel : ℕ) (d : D)
      → length (m.keys d) < fuel
      → (e : D) × (erase_keys m fuel d ≡ some e) × ((k : Bytes) → m.fetch e k ≡ none)
  unfolding erase_keys
  erase_keys_total zero d h = absurd (omega arith)
  erase_keys_total (suc fuel) d h = elim (List-cases (m.keys d)) [
    | inl e ↦ rw (e, erase_keys) (d, refl, λ k. laws.no_keys d k e)
    | inr (k, ks, e) ↦
        rw (e, erase_keys)
          (erase_keys_total fuel (m.delete d k) (omega (arith, laws.delete_first d k ks e)))
  ]
