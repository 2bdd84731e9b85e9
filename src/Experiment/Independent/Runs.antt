-- ===== src/Experiment/Independent/Runs.antt =====
-- The records that `runIndependent` (benchmark/internal/experiment/experiment.go) builds its result
-- from.
use itmo_master_research.Base.{
  ℕ, zero, suc, ◌+◌, ◌≤◌, ◌<◌, ◌≡◌, refl, sym, ap, subst, ◌∙◌, ◌⊎◌, inl, inr, ℤ, String, Bool, true,
  false, ltb, List, [], ◌∷◌, ◌++◌, length, length-append, arith, if◌then◌else◌, Bool-cases,
  Option-cases,
}
use itmo_master_research.Base.Result.{Result, ok, err, Result-cases}
use itmo_master_research.Experiment.{StateSnapshot, valid_pre_probe}
use itmo_master_research.Experiment.Independent.{
  Sample, WarmupOutcome, RunRecord, RunLimits, RunError, failed_call, Attempt, Outcome, fails,
  invalid, valid, max_attempts, max_valid, run_record, probed, attempt_outcome, stops_here,
  last_return, run_from, run_independent,
}

pub ok_inj :
    {X : Type 0} {c d : List RunRecord} → Path (Result X (List RunRecord)) (ok c) (ok d) → c ≡ d
ok_inj {X} {c} {d} e = ap (λ r. elim r [ ok a ↦ a | err x ↦ c ]) e

Outcome-cases :
    {E : Type 0} (o : Outcome E)
    → ((e : E) × (o ≡ fails e)) ⊎ (o ≡ invalid) ⊎ ((r : RunRecord) × (o ≡ valid r))
Outcome-cases (fails e) = inl (e, refl)
Outcome-cases invalid = inr (inl refl)
Outcome-cases (valid r) = inr (inr (r, refl))

ltb-lt : (a b : ℕ) → ltb a b ≡ true → a < b
ltb-lt a b h = ground arith

-- What is said of a run that the `n`-th attempt gives after `i` runs: it has the number of the
-- attempt, the next index, and a state that passed the check.
abbrev IsChecked : String → ℕ → ℕ → RunRecord → Type 0
IsChecked name i n r =
    (r.attempt ≡ n) × (r.run_index ≡ i + 1) × (valid_pre_probe name r.state r.ready_ok ≡ true)

IsChecked-valid :
    {E : Type 0} {r r' : RunRecord}
    → (P : RunRecord → Type 0) → Path (Outcome E) (valid r) (valid r')
    → P r
    → P r'
IsChecked-valid {E} {r} {r'} P e p =
    subst P (ap (λ o. elim o [ fails x ↦ r | invalid ↦ r | valid a ↦ a ]) e) p

module _ {E : Type 0} (rfc3339 : ℤ → String) (name : String) (track_ready : Bool) where
  probed-IsChecked :
      (i n : ℕ) (ready : Bool) (out : WarmupOutcome) (snap : Result E StateSnapshot)
      (probe : Result E Sample) (r : RunRecord)
      → probed rfc3339 {E = E} name track_ready i n ready out snap probe ≡ valid r
      → IsChecked name i n r
  unfolding probed run_record
  probed-IsChecked i n ready out (err x) probe r e = absurd (ground (arith, e))
  probed-IsChecked i n ready out (ok snap) (err x) r e =
      elim (Bool-cases (valid_pre_probe name snap ready)) [
        | inl t ↦ absurd (ground (arith, e, t))
        | inr t ↦ absurd (ground (arith, e, t))
      ]
  probed-IsChecked i n ready out (ok snap) (ok s) r e =
      elim (Bool-cases (valid_pre_probe name snap ready)) [
        | inl t ↦
            let q : probed rfc3339 {E = E} name track_ready i n ready out (ok snap) (ok s)
                ≡ valid (run_record rfc3339 (i + 1) n s snap ready out) =
              rw (t, probed) refl in
            IsChecked-valid {E = E} {r = run_record rfc3339 (i + 1) n s snap ready out}
              (IsChecked name i n) (sym q ∙ e) (refl, refl, t)
        | inr t ↦ absurd (ground (arith, e, t))
      ]

  attempt_outcome-IsChecked :
      (i n : ℕ) (a : Attempt E) (r : RunRecord)
      → attempt_outcome rfc3339 name track_ready i n a ≡ valid r
      → IsChecked name i n r
  unfolding attempt_outcome
  attempt_outcome-IsChecked i n a r e = elim (Option-cases a.reset_warmup) [
    | inl z ↦ elim (Result-cases a.warmup) [
      | inl (out, w) ↦
          let ready = if track_ready then a.readyz_ok else false in
          let q : attempt_outcome rfc3339 name track_ready i n a
              ≡ probed rfc3339 name track_ready i n ready out a.fetch_state a.t_first =
            rw (z, w, attempt_outcome) refl in
          probed-IsChecked i n ready out a.fetch_state a.t_first r (sym q ∙ e)
      | inr (x, w) ↦ absurd (ground (arith, e, z, w))
    ]
    | inr (x, z) ↦ absurd (ground (arith, e, z))
  ]

-- Of the runs after the first `i` and from attempt `lo` on: each is what its attempt gave, no
-- attempt gave two of them, and their attempts come before attempt `n`.
module _ {E : Type 0} (name : String) (track_ready : Bool) (rfc3339 : ℤ → String)
    (world : ℕ → Attempt E) where
  pub IsTrace : ℕ → ℕ → ℕ → List RunRecord → Type 0
  IsTrace i lo n [] = lo ≤ n
  IsTrace i lo n (r ∷ rs) =
      (attempt_outcome rfc3339 name track_ready i r.attempt (world r.attempt) ≡ valid r)
      × (lo ≤ r.attempt)
      × IsTrace (suc i) (suc r.attempt) n rs

  IsTrace-later :
      (i lo n n' : ℕ) (rs : List RunRecord) → n ≤ n' → IsTrace i lo n rs → IsTrace i lo n' rs
  unfolding IsTrace
  IsTrace-later i lo n n' [] h t = omega (arith, t)
  IsTrace-later i lo n n' (r ∷ rs) h t =
      (t.0, t.1, IsTrace-later (suc i) (suc r.attempt) n n' rs h t.2)

  IsTrace-append :
      (i lo n : ℕ) (rs : List RunRecord) (r : RunRecord)
      → attempt_outcome rfc3339 name track_ready (i + length rs) n (world n) ≡ valid r
      → IsTrace i lo n rs
      → IsTrace i lo (suc n) (rs ++ r ∷ [])
  unfolding IsTrace
  IsTrace-append i lo n [] r e t =
      let same : n ≡ r.attempt =
        sym ((attempt_outcome-IsChecked rfc3339 name track_ready (i + 0) n (world n) r e).0) in
      let here : i + 0 ≡ i = omega arith in
      let came : attempt_outcome rfc3339 name track_ready i n (world n) ≡ valid r =
        subst (λ k. attempt_outcome rfc3339 name track_ready k n (world n) ≡ valid r) here e in
      (
        subst (λ k. attempt_outcome rfc3339 name track_ready i k (world k) ≡ valid r) same came,
        omega (arith, same, t),
        omega (arith, same),
      )
  IsTrace-append i lo n (a ∷ rs) r e t =
      let shift : i + suc (length rs) ≡ suc i + length rs = omega arith in
      let came : attempt_outcome rfc3339 name track_ready (suc i + length rs) n (world n)
          ≡ valid r =
        subst (λ k. attempt_outcome rfc3339 name track_ready k n (world n) ≡ valid r) shift e in
      (t.0, t.1, IsTrace-append (suc i) (suc a.attempt) n rs r came t.2)

  IsTrace-next :
      (n : ℕ) (rs : List RunRecord) (r : RunRecord)
      → attempt_outcome rfc3339 name track_ready (length rs) n (world n) ≡ valid r
      → IsTrace 0 1 n rs
      → IsTrace 0 1 (suc n) (rs ++ r ∷ [])
  IsTrace-next n rs r e t =
      let here : length rs ≡ 0 + length rs = omega arith in
      let came : attempt_outcome rfc3339 name track_ready (0 + length rs) n (world n) ≡ valid r =
        subst (λ k. attempt_outcome rfc3339 name track_ready k n (world n) ≡ valid r) here e in
      IsTrace-append 0 1 n rs r came t

module _ {E R : Type 0} (m : RunLimits) (build_result : List RunRecord → R) (cv_pass : R → Bool)
    (name : String) (track_ready : Bool) (rfc3339 : ℤ → String) (world : ℕ → Attempt E) where
  -- What the records of a scenario's result promise.
  pub record IsCollected (rs : List RunRecord) : Type 0 where
    pub some_run : 1 ≤ length rs
    pub at_most : length rs ≤ max_valid m
    pub traced : IsTrace name track_ready rfc3339 world 0 1 (suc (max_attempts m)) rs

  last_return-IsCollected :
      (n : ℕ) (rs d : List RunRecord)
      → n ≤ suc (max_attempts m)
      → length rs ≤ max_valid m
      → IsTrace name track_ready rfc3339 world 0 1 n rs
      → last_return m build_result cv_pass {E = E} name track_ready rfc3339 rs ≡ ok d
      → IsCollected d
  unfolding last_return
  last_return-IsCollected n [] d h k t e = absurd (ground (arith, e))
  last_return-IsCollected n (r ∷ rs) d h k t e = subst IsCollected (ok_inj e) (record {
    some_run = omega arith;
    at_most = k;
    traced = IsTrace-later name track_ready rfc3339 world 0 1 n (suc (max_attempts m)) (r ∷ rs) h t;
  })

  run_from-IsCollected :
      (left n : ℕ) (rs d : List RunRecord)
      → left + n ≡ suc (max_attempts m)
      → length rs ≤ max_valid m
      → IsTrace name track_ready rfc3339 world 0 1 n rs
      → run_from m build_result cv_pass name track_ready rfc3339 world left n rs ≡ ok d
      → IsCollected d
  unfolding run_from
  run_from-IsCollected zero n rs d h k t e = last_return-IsCollected n rs d (omega arith) k t e
  run_from-IsCollected (suc left) n rs d h k t e =
      let whole = run_from m build_result cv_pass name track_ready rfc3339 world in
      let o = attempt_outcome rfc3339 name track_ready (length rs) n (world n) in
      elim (Bool-cases (ltb (length rs) (max_valid m))) [
        | inr f ↦
            let q : whole (suc left) n rs
                ≡ last_return m build_result cv_pass {E = E} name track_ready rfc3339 rs =
              rw (f, run_from) refl in
            last_return-IsCollected n rs d (omega arith) k t (sym q ∙ e)
        | inl f ↦ elim (Outcome-cases o) [
          | inl (x, z) ↦
              let q : whole (suc left) n rs ≡ err (failed_call x) = rw (f, z, run_from) refl in
              absurd (ground (arith, sym q ∙ e))
          | inr (inl z) ↦
              let q : whole (suc left) n rs ≡ whole left (suc n) rs = rw (f, z, run_from) refl in
              run_from-IsCollected left (suc n) rs d (omega arith) k
                (IsTrace-later name track_ready rfc3339 world 0 1 n (suc n) rs (omega arith) t)
                (sym q ∙ e)
          | inr (inr (r, z)) ↦
              let t' = IsTrace-next name track_ready rfc3339 world n rs r z t in
              let k' : length (rs ++ r ∷ []) ≤ max_valid m =
                omega (arith, length-append rs (r ∷ []), ltb-lt (length rs) (max_valid m) f) in
              elim (Bool-cases (stops_here m build_result cv_pass (rs ++ r ∷ []))) [
                | inl b ↦
                    let q : whole (suc left) n rs ≡ ok (rs ++ r ∷ []) =
                      rw (f, z, b, run_from) refl in
                    subst IsCollected (ok_inj (sym q ∙ e)) (record {
                      some_run = omega (arith, length-append rs (r ∷ []));
                      at_most = k';
                      traced =
                          IsTrace-later name track_ready rfc3339 world 0 1 (suc n)
                            (suc (max_attempts m)) (rs ++ r ∷ []) (omega arith) t';
                    })
                | inr b ↦
                    let q : whole (suc left) n rs ≡ whole left (suc n) (rs ++ r ∷ []) =
                      rw (f, z, b, run_from) refl in
                    run_from-IsCollected left (suc n) (rs ++ r ∷ []) d (omega arith) k' t'
                      (sym q ∙ e)
              ]
        ]
      ]

  res_inj : {a b : R} → Path (Result (RunError E) R) (ok a) (ok b) → a ≡ b
  res_inj {a} e = ap (λ r. elim r [ ok x ↦ x | err x ↦ a ]) e

  run_independent-built :
      (res : R) (rs : List RunRecord)
      → run_independent m build_result cv_pass name track_ready rfc3339 world ≡ ok res
      → run_from m build_result cv_pass name track_ready rfc3339 world (max_attempts m) 1 [] ≡ ok rs
      → res ≡ build_result rs
  unfolding run_independent
  run_independent-built res rs e z =
      let q : run_independent m build_result cv_pass name track_ready rfc3339 world
          ≡ ok (build_result rs) =
        rw (z, run_independent) refl in
      res_inj (sym e ∙ q)

  -- When `runIndependent` answers with a result, the result is built from at least one record and at
  -- most `maxValid`; the record at each place is what one of the attempts 1 to `MaxAttempts` gave
  -- when that many runs had been valid, and the attempts of the records increase.
  pub run_independent-IsCollected :
      (res : R)
      → run_independent m build_result cv_pass name track_ready rfc3339 world ≡ ok res
      → (rs : List RunRecord) × (res ≡ build_result rs) × IsCollected rs
  unfolding run_independent IsTrace
  run_independent-IsCollected res e =
      elim (Result-cases
        (run_from m build_result cv_pass name track_ready rfc3339 world (max_attempts m) 1 [])) [
          | inl (rs, z) ↦ (
            rs,
            run_independent-built res rs e z,
            run_from-IsCollected (max_attempts m) 1 [] rs (omega arith) (omega arith) (omega arith)
                z,
          )
          | inr (x, z) ↦ absurd (ground (arith, e, z))
        ]
