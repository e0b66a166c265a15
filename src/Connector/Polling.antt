-- ===== src/Connector/Polling.antt =====
-- What the polling loop of src/okx_futures_exchange_connector.cpp gives, and that it ends.
use okx_cpp_api.Prelude.{
  subst, ℕ, zero, suc, ◌+◌, ◌<◌, ◌≡◌, refl, ap, ◌∙◌, inl, inr, true, false, some, List, [], ◌∷◌,
  ◌++◌, map, append-nil, append_assoc, arith, ltb, Bool-cases, length, length-append, All,
}
use mathlib.Core.List.{Mem, Perm, mem-cons_self, mem-append_left, mem-append_right, perm_middle}
use mathlib.Core.List.Perm
use okx_cpp_api.Result.{Result, ok, err, ◌>>=◌}
use okx_cpp_api.Connector.{Future, running, taken, poll_one, poll_all, poll}

swap_fronts {ℓ} : {B : Type ℓ} (xs ys zs : List B) → Perm (xs ++ (ys ++ zs)) (ys ++ (xs ++ zs))
swap_fronts [] ys zs = Perm.refl (ys ++ zs)
swap_fronts (x ∷ xs) ys zs =
    Perm.trans (Perm.cons x (swap_fronts xs ys zs)) (Perm.symm (perm_middle ys (xs ++ zs)))

module _ {A : Type 0} where
  unfoldable pub outcome_of : Future A → List (Result A)
  outcome_of (running looks outcome) = outcome ∷ []
  outcome_of taken = []

  -- What the tasks whose results are not taken give.
  unfoldable pub outcomes : List (Future A) → List (Result A)
  outcomes [] = []
  outcomes (f ∷ fs) = outcome_of f ++ outcomes fs

  abbrev pub IsWithin : ℕ → Future A → Type 0
  IsWithin n (running looks outcome) = looks < n
  IsWithin n taken = Unit

  -- What one pass does to the futures and the results, when every task is done within `n` looks more.
  abbrev Passed : ℕ → List (Future A) → List A → Result (List (Future A) × List A) → Type 0
  Passed n fs ready (err e) = Mem (err e) (outcomes fs)
  Passed n fs ready (ok (fs', ready')) =
      All (IsWithin n) fs'
      × (length fs' ≡ length fs)
      × (length (outcomes fs') + length ready' ≡ length (outcomes fs) + length ready)
      × Perm (outcomes fs' ++ map ok ready') (outcomes fs ++ map ok ready)

  -- One future before the others.
  Passed-cons :
      (n : ℕ) (f f' : Future A) (fs : List (Future A)) (ready ready' : List A)
      (rest : Result (List (Future A) × List A))
      → IsWithin n f'
      → length (outcome_of f') + length ready' ≡ length (outcome_of f) + length ready
      → Perm (outcome_of f' ++ map ok ready') (outcome_of f ++ map ok ready)
      → Passed n fs ready' rest
      → Passed n (f ∷ fs) ready (rest >>= (λ r. ok (f' ∷ r.0, r.1)))
  unfolding outcomes
  Passed-cons n f f' fs ready ready' (err e) w l p h = mem-append_right (outcome_of f) h
  Passed-cons n f f' fs ready ready' (ok (fs', out)) w l p (ws, ls, lo, po) = (
    (w, ws),
    omega (arith, ls),
    omega (
      arith,
      l,
      lo,
      length-append (outcome_of f') (outcomes fs'),
      length-append (outcome_of f) (outcomes fs),
    ),
    rw
        (
          append_assoc (outcome_of f') (outcomes fs') (map ok out),
          append_assoc (outcome_of f) (outcomes fs) (map ok ready),
        )
        (Perm.trans (Perm.append_left (outcome_of f') po) (
          Perm.trans (swap_fronts (outcome_of f') (outcomes fs) (map ok ready')) (
            Perm.trans (Perm.append_left (outcomes fs) p)
              (swap_fronts (outcomes fs) (outcome_of f) (map ok ready))))),
  )

  map_ok-append :
      (ready : List A) (a : A)
      → map {B = Result A} ok (ready ++ (a ∷ [])) ≡ map ok ready ++ (ok a ∷ [])
  map_ok-append [] a = refl
  map_ok-append (b ∷ ready) a = ap (λ xs. ok b ∷ xs) (map_ok-append ready a)

  module _ (get_taken : Result A) where
    poll_all-Passed :
        (n : ℕ) (fs : List (Future A)) (ready : List A)
        → All (IsWithin (suc n)) fs
        → Passed n fs ready (poll_all (ok false) get_taken fs ready)
    unfolding poll_all poll_one outcomes outcome_of
    poll_all-Passed n [] ready w = (tt, refl, refl, Perm.refl (map ok ready))
    poll_all-Passed n (taken ∷ fs) ready (w, ws) =
        Passed-cons n taken taken fs ready ready (poll_all (ok false) get_taken fs ready) tt refl
          (Perm.refl (map ok ready)) (poll_all-Passed n fs ready ws)
    poll_all-Passed n (running (suc k) o ∷ fs) ready (w, ws) =
        Passed-cons n (running (suc k) o) (running k o) fs ready ready
          (poll_all (ok false) get_taken fs ready) (omega (arith, w)) refl
          (Perm.refl (o ∷ map ok ready)) (poll_all-Passed n fs ready ws)
    poll_all-Passed n (running zero (err e) ∷ fs) ready (w, ws) = mem-cons_self
    poll_all-Passed n (running zero (ok a) ∷ fs) ready (w, ws) =
        Passed-cons n (running zero (ok a)) taken fs ready (ready ++ (a ∷ []))
          (poll_all (ok false) get_taken fs (ready ++ (a ∷ []))) tt
          (omega (arith, length-append ready (a ∷ [])))
          (rw (map_ok-append ready a) (
            Perm.trans (perm_middle (map ok ready) [])
              (rw (append-nil (map {B = Result A} ok ready)) (Perm.refl (ok a ∷ map ok ready)))))
          (poll_all-Passed n fs (ready ++ (a ∷ [])) ws)

    no_outcomes : (fs : List (Future A)) → All (IsWithin 0) fs → outcomes fs ≡ []
    unfolding outcomes outcome_of
    no_outcomes [] w = refl
    no_outcomes (running k o ∷ fs) (w, ws) = absurd (omega (arith, w))
    no_outcomes (taken ∷ fs) (w, ws) = no_outcomes fs ws

    length-nil : {B : Type 0} (xs : List B) → length xs ≡ 0 → xs ≡ []
    length-nil [] e = refl
    length-nil (x ∷ xs) e = absurd (omega (arith, e))

    -- What `left` are the results of: all of them, each once, when the loop gives results, and else what
    -- one of them throws.
    abbrev pub IsEnd : List (Result A) → Result (List A) → Type 0
    IsEnd left (ok out) = Perm (map ok out) left
    IsEnd left (err e) = Mem (err e) left

    IsEnd-perm :
        (xs ys : List (Result A)) (r : Result (List A)) → Perm xs ys → IsEnd xs r → IsEnd ys r
    IsEnd-perm xs ys (ok out) p h = Perm.trans h p
    IsEnd-perm xs ys (err e) p h = (Perm.mem_iff p).0 h

    -- The results are all there.
    all_taken :
        (fs' : List (Future A)) (out : List A) (left : List (Result A))
        → outcomes fs' ≡ []
        → Perm (outcomes fs' ++ map ok out) left
        → IsEnd left (ok out)
    all_taken fs' out left e p = subst (λ xs. Perm (xs ++ map ok out) left) e p

    -- The loop ends, on so much fuel.
    abbrev pub Ends : ℕ → List (Future A) → List A → Type 0
    Ends fuel fs ready =
        (r : Result (List A)) × (poll (ok false) get_taken fuel fs ready ≡ some r)
        × IsEnd (outcomes fs ++ map ok ready) r

    poll-pass :
        (n : ℕ) (fs fs' : List (Future A)) (ready out : List A)
        → poll_all (ok false) get_taken fs ready ≡ ok (fs', out)
        → poll (ok false) get_taken (suc n) fs ready ≡ elim (ltb (length out) (length fs')) [
          | true ↦ poll (ok false) get_taken n fs' out
          | false ↦ some (ok out)
        ]
    unfolding poll
    poll-pass n fs fs' ready out y = rw (poll, y) refl

    -- After a pass, when the loop ends from there if it goes on.
    pass-Ends :
        (n : ℕ) (fs : List (Future A)) (ready : List A) (r : Result (List (Future A) × List A))
        → poll_all (ok false) get_taken fs ready ≡ r
        → Passed n fs ready r
        → length (outcomes fs) + length ready ≡ length fs
        → ((fs' : List (Future A)) (out : List A)
            → All (IsWithin n) fs'
            → length (outcomes fs') + length out ≡ length fs'
            → ltb (length out) (length fs') ≡ true
            → Ends n fs' out)
        → Ends (suc n) fs ready
    unfolding poll
    pass-Ends n fs ready (err e) y h l ih =
        (err e, rw (poll, y) refl, mem-append_left (map ok ready) h)
    pass-Ends n fs ready (ok (fs', out)) y (ws, ls, lo, p) l ih =
        elim (Bool-cases (ltb (length out) (length fs'))) [
          | inl again ↦
              let (r, e, h) = ih fs' out ws (omega (arith, l, ls, lo)) again in
              (
                r,
                poll-pass n fs fs' ready out y ∙ rw again e,
                IsEnd-perm (outcomes fs' ++ map ok out) (outcomes fs ++ map ok ready) r p h,
              )
          | inr done ↦
              let none_left = length-nil (outcomes fs') (ground (arith, done, ls, lo, l)) in
              (
                ok out,
                poll-pass n fs fs' ready out y ∙ rw done refl,
                all_taken fs' out (outcomes fs ++ map ok ready) none_left p,
              )
        ]

    pub poll-Ends :
        (n : ℕ) (fs : List (Future A)) (ready : List A)
        → All (IsWithin (suc n)) fs
        → length (outcomes fs) + length ready ≡ length fs
        → Ends (suc n) fs ready
    poll-Ends zero fs ready w l =
        pass-Ends zero fs ready (poll_all (ok false) get_taken fs ready) refl
          (poll_all-Passed zero fs ready w) l
          (λ fs' out ws lo again.
            absurd (ground (arith, lo, again, ap length (no_outcomes fs' ws))))
    poll-Ends (suc n) fs ready w l =
        pass-Ends (suc n) fs ready (poll_all (ok false) get_taken fs ready) refl
          (poll_all-Passed (suc n) fs ready w) l (λ fs' out ws lo again. poll-Ends n fs' out ws lo)
