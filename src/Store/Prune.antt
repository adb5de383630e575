-- ===== src/Store/Prune.antt =====
-- internal/store/prune.go: records that were not updated for long are deleted.
use paperminer.Base.{
  ℕ, ◌≡◌, refl, sym, ap, ◌∙◌, Bool, not, Bool-cases, inl, inr, List, [], ◌∷◌, length, arith, ltb_ℤ,
  ◌==◌, if◌then◌else◌,
}
use paperminer.Errors.{wrap}
use paperminer.Io.{Io, ok, pure, ◌>>=◌, or_wrap}
use paperminer.Io.Laws.{state_of, >>=-eq_ok, or_wrap-eq_ok}
use paperminer.Paperless.{Time}
use paperminer.Store.{DocumentTask}

-- The calls of the database. `update` runs a transaction: its changes are undone on an error.
pub record Transactions (W : Type 0) : Type 0 where
  pub update : Io W (Unit {0}) → Io W (Unit {0})
  pub tx_count : (DocumentTask → Bool) → Io W ℕ
  pub tx_delete_matching : (DocumentTask → Bool) → Io W (Unit {0})

-- `bolthold.Where("RecordUpdated").Lt(deleteUpdatedBefore)`.
unfoldable pub query : Time → DocumentTask → Bool
query delete_updated_before rec = ltb_ℤ rec.record_updated delete_updated_before

module _ {W : Type 0} (db : Transactions W) where
  delete_unless_zero : Time → ℕ → Io W (Unit {0})
  delete_unless_zero before count =
      if count == 0
      then pure tt
      else or_wrap (wrap "deleting records") (db.tx_delete_matching (query before))

  pruning : Time → Io W (Unit {0})
  unfolding delete_unless_zero
  pruning before = do
    count ← or_wrap (wrap "counting tasks") (db.tx_count (query before))
    delete_unless_zero before count

  unfoldable pub prune : Time → Io W (Unit {0})
  unfolding pruning
  prune before = db.update (pruning before)

abbrev pub keep : {A : Type 0} → (A → Bool) → List A → List A
keep p [] = []
keep p (x ∷ xs) = if p x then x ∷ keep p xs else keep p xs

-- What is documented of the calls, for a database whose records are `records s`.
pub record IsDatabase {W : Type 0} (db : Transactions W) (records : W → List DocumentTask)
    : Type 0 where
  pub commits : (m : Io W (Unit {0})) (s s' : W) → db.update m s ≡ (ok tt, s') → m s ≡ (ok tt, s')
  pub counts :
      (q : DocumentTask → Bool) (s s' : W) (n : ℕ)
      → db.tx_count q s ≡ (ok n, s')
      → (n ≡ length (keep q (records s))) × (records s' ≡ records s)
  pub deletes :
      (q : DocumentTask → Bool) (s s' : W)
      → db.tx_delete_matching q s ≡ (ok tt, s')
      → records s' ≡ keep (λ r. not (q r)) (records s)

keep_others :
    {A : Type 0} (q : A → Bool) (l : List A) → length (keep q l) ≡ 0 → l ≡ keep (λ r. not (q r)) l
keep_others q [] h = refl
keep_others q (x ∷ l) h = elim (Bool-cases (q x)) [
  | inl matches ↦ absurd (omega (arith, rw matches at h))
  | inr other ↦ rw other (ap (◌∷◌ x) (keep_others q l (rw other at h)))
]

module _ {W : Type 0} (db : Transactions W) (records : W → List DocumentTask) where
  -- After a pruning without error the records whose last update was before the given time are gone,
  -- and all others are there, in their order.
  pub prune-eq_ok :
      (before : Time) (s s' : W)
      → IsDatabase db records
      → prune db before s ≡ (ok tt, s')
      → records s' ≡ keep (λ r. not (ltb_ℤ r.record_updated before)) (records s)
  unfolding prune pruning delete_unless_zero query
  prune-eq_ok before s s' d h =
      let (count, s1, counted, rest) =
        >>=-eq_ok (or_wrap (wrap "counting tasks") (db.tx_count (query before)))
          (delete_unless_zero db before) s s' tt (d.commits (pruning db before) s s' h) in
      let (n, same) =
        d.counts (query before) s s1 count
          (or_wrap-eq_ok (wrap "counting tasks") (db.tx_count (query before)) s s1 count counted) in
      elim (Bool-cases (count == 0)) [
        | inl none_old ↦
            sym (ap records (state_of (rw none_old at rest)))
            ∙ same
            ∙ keep_others (query before) (records s) (ground arith)
        | inr some_old ↦
            d.deletes (query before) s1 s' (
              or_wrap-eq_ok (wrap "deleting records") (db.tx_delete_matching (query before)) s1 s'
                tt (rw some_old at rest))
            ∙ ap (keep (λ r. not (query before r))) same
      ]
