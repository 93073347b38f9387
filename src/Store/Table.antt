-- ===== src/Store/Table.antt =====
-- A table as a list of rows with a key: `session.get`, and the write of a changed row.
use call_agent.Prelude.{
  ℕ, ◌≡◌, Option, none, some, List, [], ◌∷◌, ◌++◌, arith, nat_beq, if◌then◌else◌, if_elim, All,
  Bool-cases, inl, inr, subst,
}

module _ {A : Type 0} (key : A → ℕ) where
  unfoldable pub find_row : ℕ → List A → Option A
  find_row k [] = none
  find_row k (r ∷ rows) = if nat_beq (key r) k then some r else find_row k rows

  unfoldable pub update_row : A → List A → List A
  update_row r' [] = []
  update_row r' (r ∷ rows) =
      let rest = update_row r' rows in if nat_beq (key r) (key r') then r' ∷ rows else r ∷ rest

  -- Only the key of the written row shows the write.
  pub find_row-update_row :
      (k : ℕ) (r : A) (rows : List A)
      → find_row k (update_row r rows) ≡ (
          if nat_beq (key r) k
          then (elim (find_row k rows) [ none ↦ none | some _ ↦ some r ])
          else find_row k rows)
  unfolding find_row update_row
  find_row-update_row k r [] = ground arith
  find_row-update_row k r (x ∷ rows) = ground (arith, find_row-update_row k r rows)

  pub find_row-key : (k : ℕ) (rows : List A) (r : A) → find_row k rows ≡ some r → key r ≡ k
  unfolding find_row
  find_row-key k [] r h = cc
  find_row-key k (x ∷ rows) r h = ground (arith, find_row-key k rows r)

  -- A property of every row is kept by a write that has it.
  pub All-update_row :
      (P : A → Type 0) (r : A) (rows : List A) → P r → All P rows → All P (update_row r rows)
  unfolding update_row
  All-update_row P r [] p h = tt
  All-update_row P r (x ∷ rows) p h =
      if_elim (All P) (nat_beq (key x) (key r)) (r ∷ rows) (x ∷ update_row r rows) (λ _. (p, h.1))
        (λ _. (h.0, All-update_row P r rows p h.1))

  pub All-find_row :
      (P : A → Type 0) (k : ℕ) (rows : List A) (r : A) → All P rows → find_row k rows ≡ some r → P r
  unfolding find_row
  All-find_row P k [] r h e = cc
  All-find_row P k (x ∷ rows) r h e = elim (Bool-cases (nat_beq (key x) k)) [
    | inl same ↦ subst P (ground arith) h.0
    | inr other ↦ All-find_row P k rows r h.1 (ground arith)
  ]

  -- A row appended shows only where no row had its key.
  pub find_row-append :
      (k : ℕ) (rows : List A) (r : A)
      → find_row k (rows ++ r ∷ []) ≡ (elim (find_row k rows) [
        | none ↦ if nat_beq (key r) k then some r else none
        | some x ↦ some x
      ])
  unfolding find_row
  find_row-append k [] r = ground arith
  find_row-append k (x ∷ rows) r = ground (arith, find_row-append k rows r)
