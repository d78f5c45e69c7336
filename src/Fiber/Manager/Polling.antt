-- ===== src/Fiber/Manager/Polling.antt =====
-- The wait for all nodes ends, and when it succeeds each node has answered.
use mathlib.Core.Path.{subst}
use offckb.Base.{
  ℕ, zero, suc, ◌-◌, ◌<◌, ◌≡◌, ◌⊎◌, inl, inr, refl, Bool, true, Option, none, some, List, [], ◌∷◌,
  ◌++◌, All, All-map, Result-cases, leb, Bool-cases, eqb_iff, ◌==◌, nat_eq, Result, ok, err,
  >>=-eq-ok, ok-injective, arith,
}
use offckb.Fiber.Manager.Checks.{
  StartupError, NodeInfo, Infos, info_of, answered, poll_round, no_ids, rpc_timeout,
  wait_for_all_node_info,
}

abbrev pub IsIn : List ℕ → ℕ → Type 0
IsIn [] id = ⊥
IsIn (k ∷ ks) id = (k ≡ id) ⊎ IsIn ks id

-- The node has answered.
abbrev pub HasInfo : Infos → ℕ → Type 0
HasInfo infos id = (info : NodeInfo) × (info_of infos id ≡ ok info)

-- Each of the nodes is pending, or has answered.
abbrev pub Covers : List ℕ → Infos → List ℕ → Type 0
Covers pending infos ids = All (λ id. IsIn pending id ⊎ HasInfo infos id) ids

HasInfo-here : (id : ℕ) (info : NodeInfo) (infos : Infos) → HasInfo ((id, info) ∷ infos) id
unfolding info_of
HasInfo-here id info infos = (info, rw ((eqb_iff id id).1 refl) refl)

HasInfo-more :
    (k id : ℕ) (info : NodeInfo) (infos : Infos) → HasInfo infos id → HasInfo ((k, info) ∷ infos) id
unfolding info_of
HasInfo-more k id info infos (found, e) = elim (Bool-cases (k == id)) [
  | inl same ↦ (info, rw same refl)
  | inr other ↦ (found, rw other e)
]

HasInfo-append_left : (xs ys : Infos) (id : ℕ) → HasInfo xs id → HasInfo (xs ++ ys) id
unfolding info_of
HasInfo-append_left [] ys id (info, e) = cc
HasInfo-append_left ((k, v) ∷ xs) ys id (info, e) = elim (Bool-cases (k == id)) [
  | inl same ↦ (v, rw same refl)
  | inr other ↦
      let (found, e') = HasInfo-append_left xs ys id (info, rw other at e) in (found, rw other e')
]

HasInfo-append_right : (xs ys : Infos) (id : ℕ) → HasInfo ys id → HasInfo (xs ++ ys) id
HasInfo-append_right [] ys id h = h
HasInfo-append_right ((k, v) ∷ xs) ys id h =
    HasInfo-more k id v (xs ++ ys) (HasInfo-append_right xs ys id h)

module _ (exited : ℕ → Bool) (answer : ℕ → Option NodeInfo) where
  answered-Covers :
      (o : Option NodeInfo) (id k : ℕ) (r : List ℕ × Infos)
      → IsIn r.0 k ⊎ HasInfo r.1 k
      → IsIn (answered exited answer o id r).0 k ⊎ HasInfo (answered exited answer o id r).1 k
  answered-Covers none id k (pending, infos) (inl h) = inl (inr h)
  answered-Covers none id k (pending, infos) (inr h) = inr h
  answered-Covers (some info) id k (pending, infos) (inl h) = inl h
  answered-Covers (some info) id k (pending, infos) (inr h) = inr (HasInfo-more id k info infos h)

  answered-here :
      (o : Option NodeInfo) (id : ℕ) (r : List ℕ × Infos)
      → IsIn (answered exited answer o id r).0 id ⊎ HasInfo (answered exited answer o id r).1 id
  answered-here none id (pending, infos) = inl (inl refl)
  answered-here (some info) id (pending, infos) = inr (HasInfo-here id info infos)

  poll_round-Covers :
      (ids : List ℕ) (r : List ℕ × Infos) → poll_round exited answer ids ≡ ok r → Covers r.0 r.1 ids
  unfolding poll_round
  poll_round-Covers [] r h = tt
  poll_round-Covers (id ∷ ids) r h = elim (Bool-cases (exited id)) [
    | inl gone ↦ absurd (cc (rw gone at h))
    | inr there ↦
        let (rest, found, e) = >>=-eq-ok (poll_round exited answer ids) _ (rw there at h) in
        subst (λ (x : List ℕ × Infos). Covers x.0 x.1 (id ∷ ids))
          (ok-injective (answered exited answer (answer id) id rest) r e)
          (
            answered-here (answer id) id rest,
            All-map _ _ ids (λ k. answered-Covers (answer id) id k rest)
                (poll_round-Covers ids rest found),
          )
  ]

-- A round keeps what is covered.
IsIn-covered : (pending : List ℕ) (P : ℕ → Type 0) (id : ℕ) → All P pending → IsIn pending id → P id
IsIn-covered [] P id all h = absurd h
IsIn-covered (k ∷ ks) P id all (inl e) = subst P e all.0
IsIn-covered (k ∷ ks) P id all (inr h) = IsIn-covered ks P id all.1 h

Covers-round :
    (pending left : List ℕ) (infos found : Infos) (ids : List ℕ)
    → Covers pending infos ids
    → Covers left found pending
    → Covers left (infos ++ found) ids
Covers-round pending left infos found ids before now =
    All-map _ _ ids
      (λ id (h : IsIn pending id ⊎ HasInfo infos id). elim h [
        | inr old ↦ inr (HasInfo-append_left infos found id old)
        | inl waits ↦
            elim (IsIn-covered pending (λ k. IsIn left k ⊎ HasInfo found k) id now waits) [
              | inl still ↦ inl still
              | inr new ↦ inr (HasInfo-append_right infos found id new)
            ]
      ])
      before

module _ (exited : ℕ → ℕ → Bool) (answer : ℕ → ℕ → Option NodeInfo) (elapsed : ℕ → ℕ) (timeout : ℕ)
    (ids : List ℕ) where
  -- What a result says.
  abbrev pub Tells : Result StartupError Infos → Type 0
  Tells (err e) = Unit
  Tells (ok infos) = All (HasInfo infos) ids

  abbrev pub Ends : Option (Result StartupError Infos) → Type 0
  Ends result = (r : Result StartupError Infos) × (result ≡ some r) × Tells r

  covered-Tells :
      (pending : List ℕ) (infos : Infos)
      → no_ids pending ≡ true
      → Covers pending infos ids
      → All (HasInfo infos) ids
  covered-Tells [] infos e h =
      All-map _ _ ids
        (λ id (x : IsIn [] id ⊎ HasInfo infos id). elim x [
          | inl none' ↦ absurd none'
          | inr found ↦ found
        ])
        h
  covered-Tells (k ∷ ks) infos e h = cc

  wait-Ends :
      ((j : ℕ) → elapsed j < elapsed (suc j))
      → (fuel i : ℕ) (pending : List ℕ) (infos : Infos) → timeout - elapsed i < fuel
      → Covers pending infos ids
      → Ends (wait_for_all_node_info exited answer elapsed timeout fuel i pending infos)
  unfolding wait_for_all_node_info
  wait-Ends grows zero i pending infos lt h = absurd (omega arith)
  wait-Ends grows (suc fuel) i pending infos lt h = elim (Bool-cases (no_ids pending)) [
    | inl done ↦
        rw (done, wait_for_all_node_info) (ok infos, refl, covered-Tells pending infos done h)
    | inr more ↦ elim (Bool-cases (leb timeout (elapsed i))) [
      | inl late ↦ rw (more, late, wait_for_all_node_info) (err (rpc_timeout pending), refl, tt)
      | inr early ↦ elim (Result-cases (poll_round (exited i) (answer i) pending)) [
        | inr (x, e) ↦ rw (more, early, e, wait_for_all_node_info) (err x, refl, tt)
        | inl ((left, found), e) ↦
            rw (more, early, e, wait_for_all_node_info)
              (wait-Ends grows fuel (suc i) left (infos ++ found) (ground (arith, grows i)) (
                Covers-round pending left infos found ids h
                  (poll_round-Covers (exited i) (answer i) pending (left, found) e)))
      ]
    ]
  ]

  IsIn-all : (ks : List ℕ) (f : (id : ℕ) → IsIn ks id → IsIn ids id) → Covers ids [] ks
  IsIn-all [] f = tt
  IsIn-all (k ∷ ks) f = (inl (f k (inl refl)), IsIn-all ks (λ id h. f id (inr h)))

  -- When time passes between two rounds, the wait for the nodes ends in at most one round more than
  -- the milliseconds of its timeout, and when it succeeds each node has answered.
  pub wait_for_all_node_info-Ends :
      ((j : ℕ) → elapsed j < elapsed (suc j))
      → Ends (wait_for_all_node_info exited answer elapsed timeout (suc timeout) 0 ids [])
  wait_for_all_node_info-Ends grows =
      wait-Ends grows (suc timeout) 0 ids [] (omega arith) (IsIn-all ids (λ id h. h))
