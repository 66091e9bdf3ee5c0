-- ===== src/Libevent/Tables.antt =====
-- What a table holds behind a change, at the key of the change and elsewhere.
use posix_bsp_perf.Prelude.{
  ℕ, ◌≡◌, refl, sym, ◌∙◌, true, false, none, some, Bool-cases, inl, inr, Map, lookup, insert, erase,
  lookup-insert, lookup-erase, ◌==◌,
}

module _ {V : Type 0} (m : Map V) (key other : ℕ) where
  pub insert_here : (new : V) → (key == other) ≡ true → lookup other (insert key new m) ≡ some new
  insert_here new h = rw (lookup-insert key other new m, h) refl

  pub insert_there :
      (new : V) → (key == other) ≡ false → lookup other (insert key new m) ≡ lookup other m
  insert_there new h = rw (lookup-insert key other new m, h) refl

  pub erase_there : (key == other) ≡ false → lookup other (erase key m) ≡ lookup other m
  erase_there h = rw (lookup-erase key other m, h) refl

  -- What is left after `erase` was there before, under another key.
  pub erase_left :
      (v : V)
      → lookup other (erase key m) ≡ some v
      → ((key == other) ≡ false) × (lookup other m ≡ some v)
  erase_left v e = elim (Bool-cases (key == other)) [
    | inl same ↦
        let gone : lookup other (erase key m) ≡ none = rw (lookup-erase key other m, same) refl in
        absurd cc
    | inr apart ↦ (apart, sym (erase_there apart) ∙ e)
  ]
