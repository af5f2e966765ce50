-- ===== src/Tables/Dbm/Assoc.antt =====
-- A dbm database as a list of keys and values, each key at most once: the interface can be had.
use pageserv.Base.{
  ◌<◌, ◌≤◌, ◌≡◌, refl, sym, ◌∙◌, true, false, Option, none, some, List, [], ◌∷◌, if◌then◌else◌,
  length, Bytes, arith, Bool-cases, inl, inr,
}
use pageserv.Clib.{equal, equal_iff, equal_refl}
use pageserv.Tables.Dbm.{Dbm, DbmLaws, AllFetched}

not_equal : (j k i : Bytes) → equal j k ≡ false → equal j i ≡ true → equal k i ≡ false
not_equal j k i h e =
    let same : j ≡ i = (equal_iff j i).0 e in
    elim (Bool-cases (equal k i)) [
      | inl hit ↦
          let other : k ≡ i = (equal_iff k i).0 hit in
          let both : equal j k ≡ true = (equal_iff j k).1 (same ∙ sym other) in
          absurd (ground arith)
      | inr miss ↦ miss
    ]

module _ {V : Type 0} where
  unfoldable pub fetch : List (Bytes × V) → Bytes → Option V
  fetch [] i = none
  fetch ((k, v) ∷ d) i = if equal k i then some v else fetch d i

  unfoldable pub delete : List (Bytes × V) → Bytes → List (Bytes × V)
  delete [] i = []
  delete ((k, v) ∷ d) i = let rest = delete d i in if equal k i then rest else (k, v) ∷ rest

  unfoldable pub keys : List (Bytes × V) → List Bytes
  keys [] = []
  keys ((k, v) ∷ d) = k ∷ keys d

  fetch-delete :
      (d : List (Bytes × V)) (k i : Bytes)
      → fetch (delete d k) i ≡ (if equal k i then none else fetch d i)
  unfolding fetch delete
  fetch-delete [] k i = elim (Bool-cases (equal k i)) [
    | inl same ↦ rw same refl
    | inr other ↦ rw other refl
  ]
  fetch-delete ((j, v) ∷ d) k i = elim (Bool-cases (equal j k)) [
    | inl hit ↦
        let same : j ≡ k = (equal_iff j k).0 hit in
        rw (hit, same) (ground (arith, fetch-delete d k i))
    | inr miss ↦ rw miss (elim (Bool-cases (equal j i)) [
      | inl at ↦ let apart : equal k i ≡ false = not_equal j k i miss at in rw (at, apart) refl
      | inr other ↦ rw other (fetch-delete d k i)
    ])
  ]

  length-delete : (d : List (Bytes × V)) (k : Bytes) → length (keys (delete d k)) ≤ length (keys d)
  unfolding keys delete
  length-delete [] k = omega arith
  length-delete ((j, v) ∷ d) k = ground (arith, length-delete d k)

  abbrev pub assoc : Dbm (List (Bytes × V)) V
  assoc = record {
    empty = [];
    fetch = fetch;
    store = λ d k v. (k, v) ∷ delete d k;
    delete = delete;
    keys = keys;
  }

  fetch_head :
      (k : Bytes) (v : V) (d : List (Bytes × V)) (i : Bytes) (w : V)
      → fetch d i ≡ some w
      → (u : V) × (fetch ((k, v) ∷ d) i ≡ some u)
  unfolding fetch
  fetch_head k v d i w e = elim (Bool-cases (equal k i)) [
    | inl same ↦ (v, rw same refl)
    | inr other ↦ (w, rw other e)
  ]

  AllFetched-cons :
      (k : Bytes) (v : V) (d : List (Bytes × V)) (ks : List Bytes)
      → AllFetched (fetch d) ks
      → AllFetched (fetch ((k, v) ∷ d)) ks
  AllFetched-cons k v d [] h = tt
  AllFetched-cons k v d (i ∷ ks) h = (fetch_head k v d i h.0.0 h.0.1, AllFetched-cons k v d ks h.1)

  keys_fetched : (d : List (Bytes × V)) → AllFetched (fetch d) (keys d)
  unfolding fetch keys
  keys_fetched [] = tt
  keys_fetched ((k, v) ∷ d) =
      ((v, rw (equal_refl k) refl), AllFetched-cons k v d (keys d) (keys_fetched d))

  no_keys : (d : List (Bytes × V)) (k : Bytes) → keys d ≡ [] → fetch d k ≡ none
  unfolding fetch keys
  no_keys [] k e = refl
  no_keys ((i, v) ∷ d) k e = absurd (ground arith)

  delete_first :
      (d : List (Bytes × V)) (k : Bytes) (ks : List Bytes)
      → keys d ≡ k ∷ ks
      → length (keys (delete d k)) < length (keys d)
  unfolding keys delete
  delete_first [] k ks e = absurd (ground arith)
  delete_first ((i, v) ∷ d) k ks e =
      let same : i ≡ k = ground arith in
      let hit : equal i k ≡ true = (equal_iff i k).1 same in
      rw hit (omega (arith, length-delete d k))

  pub assoc-DbmLaws : DbmLaws assoc
  unfolding fetch
  assoc-DbmLaws = record {
    fetch-empty = λ k. refl;
    fetch-store = λ d k i v. elim (Bool-cases (equal k i)) [
      | inl same ↦ rw same refl
      | inr other ↦ rw other (fetch-delete d k i ∙ rw other refl)
    ];
    fetch-delete = fetch-delete;
    no_keys = no_keys;
    delete_first = delete_first;
    fetch_key = keys_fetched;
  }
