-- ===== src/Database/Atomic.antt =====
-- ExecTx of aperturedb/interface.go runs its body once to the end, or leaves the database as it was.
use aperture.Prelude.{
  ◌-◌, sym, ◌≤◌, ap, ℕ, zero, suc, ◌≡◌, ◌∙◌, refl, Error, Result, ok, err, Result-cases, is_ok,
  is_err, false, Bool-cases, inl, inr, arith,
}
use aperture.Database.{
  SqlCodes, BatchedQuerier, TxExecutorOptions, map_sql_error, is_serialization, finish, attempts,
  exec_tx,
}

-- A database that keeps its promises, up to what can be seen of it (`V`): a transaction starts with
-- what is committed, a commit that succeeds makes its state the committed one, and nothing else
-- changes what is committed.
pub record IsTransactional {S T V : Type 0} (db : BatchedQuerier S T) (view : S → V)
    (tx_view : T → V) : Type 0 where
  pub begun : (st : S) (t : T) → (db.begin_tx st).0 ≡ ok t → tx_view t ≡ view st
  pub begin_kept : (st : S) → view (db.begin_tx st).1 ≡ view st
  pub committed :
      (t : T) (st : S) → (db.commit t st).0 ≡ ok tt → view (db.commit t st).1 ≡ tx_view t
  pub commit_kept :
      (t : T) (st : S) (e : Error) → (db.commit t st).0 ≡ err e → view (db.commit t st).1 ≡ view st
  pub rollback_kept : (t : T) (st : S) → view (db.rollback t st) ≡ view st

module _ {S T V A : Type 0} (codes : SqlCodes) (db : BatchedQuerier S T) (view : S → V)
    (tx_view : T → V) (body : T → Result A × T) where
  -- A run of the body on what was committed, whose result is committed.
  pub record IsCommitted (before : V) (a : A) (st : S) : Type 0 where
    pub opened : T
    pub closed : T
    pub ran : body opened ≡ (ok a, closed)
    pub read : tx_view opened ≡ before
    pub written : view st ≡ tx_view closed

  -- All or nothing.
  abbrev pub IsAtomic : V → Result A × S → Type 0
  IsAtomic before (ok a, st) = IsCommitted before a st
  IsAtomic before (err e, st) = view st ≡ before

  module _ (laws : IsTransactional db view tx_view) where
    finish-IsAtomic :
        (before : V) (a : A) (t t' : T) (st : S)
        → body t ≡ (ok a, t')
        → tx_view t ≡ before
        → view st ≡ before
        → IsAtomic before (finish codes db a t' st)
    unfolding finish
    finish-IsAtomic before a t t' st ran read same = elim (Result-cases (db.commit t' st).0) [
      | is_ok u k ↦
          rw (k, finish)
            (record {
              opened = t;
              closed = t';
              ran = ran;
              read = read;
              written = laws.committed t' st k;
            })
      | is_err e k ↦
          rw (k, finish)
            (laws.rollback_kept t' (db.commit t' st).1 ∙ (laws.commit_kept t' st e k ∙ same))
    ]

    attempts-IsAtomic :
        (n : ℕ) (before : V) (st : S)
        → view st ≡ before
        → IsAtomic before (attempts codes db body n st)
    unfolding attempts
    attempts-IsAtomic zero before st same = same
    attempts-IsAtomic (suc n) before st same =
        let st' : S = (db.begin_tx st).1 in
        let kept : view st' ≡ before = laws.begin_kept st ∙ same in
        elim (Result-cases (db.begin_tx st).0) [
          | is_err e k ↦ rw (k, attempts) kept
          | is_ok t k ↦
              let t' : T = (body t).1 in
              let back : view (db.rollback t' st') ≡ before = laws.rollback_kept t' st' ∙ kept in
              elim (Result-cases (body t).0) [
                | is_ok a q ↦
                    rw (k, q, attempts)
                      (finish-IsAtomic before a t t' st' (cc q) (laws.begun st t k ∙ same) kept)
                | is_err e q ↦ elim (Bool-cases (is_serialization (map_sql_error codes e))) [
                  | inl y ↦
                      rw (k, q, y, attempts) (attempts-IsAtomic n before (db.rollback t' st') back)
                  | inr m ↦ rw (k, q, m, attempts) back
                ]
              ]
        ]

    -- A transaction is all or nothing, however often it is tried: when ExecTx succeeds, one run of
    -- the body, on what was committed before, succeeded with this result, and what it left is
    -- committed; when ExecTx fails, what is committed is what was before.
    pub exec_tx-IsAtomic :
        (opts : TxExecutorOptions) (st : S) → IsAtomic (view st) (exec_tx codes db opts body st)
    unfolding exec_tx
    exec_tx-IsAtomic opts st = attempts-IsAtomic opts.num_retries (view st) st refl

-- Reads do not fail: a transaction can be opened, and the commit of one that has changed nothing
-- succeeds.
pub record IsReadable {S T V : Type 0} (db : BatchedQuerier S T) (view : S → V) (tx_view : T → V)
    : Type 0 where
  pub opens : (st : S) → (t : T) × ((db.begin_tx st).0 ≡ ok t)
  pub closes : (t : T) (st : S) → tx_view t ≡ view st → (db.commit t st).0 ≡ ok tt

-- An error that ExecTx neither maps nor takes for a reason to try again.
abbrev pub IsFinal : SqlCodes → Error → Type 0
IsFinal codes e = (map_sql_error codes e ≡ e) × (is_serialization e ≡ false)

module _ {S T V A : Type 0} (codes : SqlCodes) (db : BatchedQuerier S T) (view : S → V)
    (tx_view : T → V) (laws : IsTransactional db view tx_view)
    (readable : IsReadable db view tx_view) (answer : V → Result A)
    (final : (v : V) (e : Error) → answer v ≡ err e → IsFinal codes e) (body : T → Result A × T)
    (reads : (t : T) → body t ≡ (answer (tx_view t), t)) where
  attempts-read : (n : ℕ) (st : S) → (attempts codes db body (suc n) st).0 ≡ answer (view st)
  unfolding attempts finish
  attempts-read n st =
      let (t, k) = readable.opens st in
      let seen : tx_view t ≡ view st = laws.begun st t k in
      let closed : (db.commit t (db.begin_tx st).1).0 ≡ ok tt =
        readable.closes t (db.begin_tx st).1 (seen ∙ sym (laws.begin_kept st)) in
      elim (Result-cases (answer (view st))) [
        | is_ok a q ↦
            let ran : (body t).0 ≡ ok a = ap (λ p. p.0) (reads t) ∙ (ap answer seen ∙ q) in
            let left : (body t).1 ≡ t = ap (λ p. p.1) (reads t) in
            rw (k, ran, left, closed, q, attempts, finish) refl
        | is_err e q ↦
            let ran : (body t).0 ≡ err e = ap (λ p. p.0) (reads t) ∙ (ap answer seen ∙ q) in
            let (same, last) = final (view st) e q in
            rw (k, ran, same, last, q, attempts) (ap err same)
      ]

  -- A transaction that reads answers from what is committed, if it is tried at all.
  pub exec_tx-read :
      (opts : TxExecutorOptions) (st : S)
      → 1 ≤ opts.num_retries
      → (exec_tx codes db opts body st).0 ≡ answer (view st)
  unfolding exec_tx
  exec_tx-read opts st h =
      ap (λ n. (attempts codes db body n st).0) one_more ∙ attempts-read (opts.num_retries - 1) st
    where
      one_more : opts.num_retries ≡ suc (opts.num_retries - 1)
      one_more = omega (arith, h)
