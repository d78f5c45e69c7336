-- ===== src/Fiber/Manager/Stopping.antt =====
-- What a stop does to the processes that it was handed.
use offckb.Base.{
  ℕ, ◌≡◌, ◌≢◌, ◌⊎◌, inl, inr, refl, ap, ◌∙◌, Bool, true, false, not, ◌&&◌, if-cases, arith, Option,
  none, some, List, [], ◌∷◌, ◌++◌, map, All, All-map, eqb_iff, nat_eq, ◌==◌,
}
use offckb.Fiber.Stop.{Termination, sigterm, sigkill}
use offckb.Fiber.Manager.{
  Handle, Signalled, StopAnswers, must_term, term_if, term_nodes, await_nodes, kill_unless,
  kill_nodes, Runtime, remove_if_manager, Stopped, stop_fiber_nodes,
}

-- The signal was sent to the node.
abbrev pub IsSent : Termination → ℕ → List Signalled → Type 0
IsSent t id [] = ⊥
IsSent t id (s ∷ sent) = ((s.termination ≡ t) × (s.node ≡ id)) ⊎ IsSent t id sent

-- A child that is seen to have exited, or that was sent a SIGKILL.
abbrev pub IsStopped : List Signalled → Handle → Type 0
IsStopped sent h = (h.exited ≡ true) ⊎ IsSent sigkill h.id sent

abbrev pub ids_of : List Handle → List ℕ
ids_of = map (λ (h : Handle). h.id)

IsSent-append :
    (t : Termination) (id : ℕ) (xs ys : List Signalled) → IsSent t id ys → IsSent t id (xs ++ ys)
IsSent-append t id [] ys h = h
IsSent-append t id (x ∷ xs) ys h = inr (IsSent-append t id xs ys h)

kill_unless-IsStopped :
    (b : Bool) (h : Handle) (hs : List Handle) (sent : List Signalled)
    → h.exited ≡ b
    → All (IsStopped sent) hs
    → All (IsStopped (kill_unless b h.id sent)) (h ∷ hs)
kill_unless-IsStopped true h hs sent e all = (inl e, all)
kill_unless-IsStopped false h hs sent e all = (
  inr (inl (refl, refl)),
  All-map _ _ hs (λ (x : Handle) s. elim s [ inl gone ↦ inl gone | inr found ↦ inr (inr found) ])
      all,
)

kill_nodes-IsStopped : (hs : List Handle) → All (IsStopped (kill_nodes hs)) hs
unfolding kill_nodes
kill_nodes-IsStopped [] = tt
kill_nodes-IsStopped (h ∷ hs) =
    kill_unless-IsStopped h.exited h hs (kill_nodes hs) refl (kill_nodes-IsStopped hs)

-- A SIGKILL goes to a node that was not seen to have exited.
abbrev pub NeedsKill : List Handle → Signalled → Type 0
NeedsKill [] s = ⊥
NeedsKill (h ∷ hs) s =
    ((h.id ≡ s.node) × (h.exited ≡ false) × (s.termination ≡ sigkill)) ⊎ NeedsKill hs s

kill_unless-NeedsKill :
    (b : Bool) (h : Handle) (hs : List Handle) (sent : List Signalled)
    → h.exited ≡ b
    → All (NeedsKill hs) sent
    → All (NeedsKill (h ∷ hs)) (kill_unless b h.id sent)
kill_unless-NeedsKill true h hs sent e all = All-map _ _ sent (λ s n. inr n) all
kill_unless-NeedsKill false h hs sent e all =
    (inl (refl, e, refl), All-map _ _ sent (λ s n. inr n) all)

kill_nodes-NeedsKill : (hs : List Handle) → All (NeedsKill hs) (kill_nodes hs)
unfolding kill_nodes
kill_nodes-NeedsKill [] = tt
kill_nodes-NeedsKill (h ∷ hs) =
    kill_unless-NeedsKill h.exited h hs (kill_nodes hs) refl (kill_nodes-NeedsKill hs)

-- A SIGTERM goes to a child that has not exited and was not killed.
abbrev pub NeedsTerm : List Handle → Signalled → Type 0
NeedsTerm [] s = ⊥
NeedsTerm (h ∷ hs) s =
    ((h.id ≡ s.node) × (h.exited ≡ false) × (h.killed ≡ false) × (s.termination ≡ sigterm))
    ⊎ NeedsTerm hs s

-- And each such child gets one.
abbrev pub IsTermed : List Signalled → Handle → Type 0
IsTermed terms h = (h.exited ≡ true) ⊎ ((h.killed ≡ true) ⊎ IsSent sigterm h.id terms)

must_term-true : (h : Handle) → must_term h ≡ true → (h.exited ≡ false) × (h.killed ≡ false)
must_term-true h e = neither h.exited h.killed e
  where
    neither : (x y : Bool) → not x && not y ≡ true → (x ≡ false) × (y ≡ false)
    neither x y e' = ground (arith, e')

must_term-false : (h : Handle) → must_term h ≡ false → (h.exited ≡ true) ⊎ (h.killed ≡ true)
must_term-false h e = either h.exited h.killed e
  where
    either : (x y : Bool) → not x && not y ≡ false → (x ≡ true) ⊎ (y ≡ true)
    either true y e' = inl refl
    either false true e' = inr refl
    either false false e' = cc

term_if-NeedsTerm :
    (a : StopAnswers) (b : Bool) (h : Handle) (hs : List Handle)
    (result : List Signalled × List Handle)
    → must_term h ≡ b
    → All (NeedsTerm hs) result.0
    → All (NeedsTerm (h ∷ hs)) (term_if a b h result).0
term_if-NeedsTerm a true h hs (sent, rest) e all =
    let (running, unkilled) = must_term-true h e in
    (inl (refl, running, unkilled, refl), All-map _ _ sent (λ s n. inr n) all)
term_if-NeedsTerm a false h hs (sent, rest) e all = All-map _ _ sent (λ s n. inr n) all

term_nodes-NeedsTerm : (a : StopAnswers) (hs : List Handle) → All (NeedsTerm hs) (term_nodes a hs).0
unfolding term_nodes
term_nodes-NeedsTerm a [] = tt
term_nodes-NeedsTerm a (h ∷ hs) =
    term_if-NeedsTerm a (must_term h) h hs (term_nodes a hs) refl (term_nodes-NeedsTerm a hs)

term_if-IsTermed :
    (a : StopAnswers) (b : Bool) (h : Handle) (hs : List Handle)
    (result : List Signalled × List Handle)
    → must_term h ≡ b
    → All (IsTermed result.0) hs
    → All (IsTermed (term_if a b h result).0) (h ∷ hs)
term_if-IsTermed a true h hs (sent, rest) e all = (
  inr (inr (inl (refl, refl))),
  All-map _ _ hs
      (λ (x : Handle) t. elim t [
        | inl gone ↦ inl gone
        | inr (inl killed) ↦ inr (inl killed)
        | inr (inr found) ↦ inr (inr (inr found))
      ])
      all,
)
term_if-IsTermed a false h hs (sent, rest) e all =
    (elim (must_term-false h e) [ inl gone ↦ inl gone | inr killed ↦ inr (inl killed) ], all)

term_nodes-IsTermed : (a : StopAnswers) (hs : List Handle) → All (IsTermed (term_nodes a hs).0) hs
unfolding term_nodes
term_nodes-IsTermed a [] = tt
term_nodes-IsTermed a (h ∷ hs) =
    term_if-IsTermed a (must_term h) h hs (term_nodes a hs) refl (term_nodes-IsTermed a hs)

-- The handles stay the same nodes, in order.
term_if-ids :
    (a : StopAnswers) (b : Bool) (h : Handle) (result : List Signalled × List Handle)
    → ids_of (term_if a b h result).1 ≡ h.id ∷ ids_of result.1
term_if-ids a true h (sent, rest) = refl
term_if-ids a false h (sent, rest) = refl

term_nodes-ids : (a : StopAnswers) (hs : List Handle) → ids_of (term_nodes a hs).1 ≡ ids_of hs
unfolding term_nodes
term_nodes-ids a [] = refl
term_nodes-ids a (h ∷ hs) =
    term_if-ids a (must_term h) h (term_nodes a hs) ∙ ap (λ t. h.id ∷ t) (term_nodes-ids a hs)

await_nodes-ids : (a : StopAnswers) (hs : List Handle) → ids_of (await_nodes a hs) ≡ ids_of hs
unfolding await_nodes
await_nodes-ids a [] = refl
await_nodes-ids a (h ∷ hs) = ap (λ t. h.id ∷ t) (await_nodes-ids a hs)

-- No runtime record is left that names the process.
abbrev pub IsReleased : ℕ → Option Runtime → Type 0
IsReleased own none = Unit
IsReleased own (some r) = r.manager_pid ≢ own

remove_if_manager-IsReleased :
    (removes : Bool) (own : ℕ) (runtime : Option Runtime)
    → IsReleased own (remove_if_manager removes own runtime) ⊎ (removes ≡ false)
remove_if_manager-IsReleased false own runtime = inr refl
remove_if_manager-IsReleased true own none = inl tt
remove_if_manager-IsReleased true own (some r) = inl (
    if-cases (IsReleased own) (r.manager_pid == own && true) _ _ (λ ours. tt)
      (λ other e. other_pid (r.manager_pid == own) other ((eqb_iff r.manager_pid own).1 e)))
  where
    other_pid : (b : Bool) → b && true ≡ false → b ≡ true → ⊥
    other_pid true h k = cc
    other_pid false h k = cc

-- A record of another process, or none, stays as it was.
remove_if_manager-other :
    (removes : Bool) (own : ℕ) (runtime : Option Runtime)
    → IsReleased own runtime
    → remove_if_manager removes own runtime ≡ runtime
remove_if_manager-other removes own none h = refl
remove_if_manager-other removes own (some r) h =
    if-cases (λ x. x ≡ some r) (r.manager_pid == own && removes) none (some r)
      (λ ours.
        absurd (h ((eqb_iff r.manager_pid own).0 (first (r.manager_pid == own) removes ours))))
      (λ other. refl)
  where
    first : (a b : Bool) → a && b ≡ true → a ≡ true
    first a b e = ground (arith, e)

abbrev pub StopsAll : StopAnswers → ℕ → Option Runtime → List Handle → Stopped → Type 0
StopsAll a own runtime hs s =
    (ids_of s.handles ≡ ids_of hs)
    × All (IsStopped s.sent) s.handles
    × ((terms : List Signalled) × (kills : List Signalled) × (s.sent ≡ terms ++ kills)
        × All (NeedsTerm hs) terms
        × All (IsTermed terms) hs
        × All (NeedsKill s.handles) kills)
    × (IsReleased own s.runtime ⊎ (a.removes_runtime ≡ false))
    × (IsReleased own runtime → s.runtime ≡ runtime)

-- A stop leaves the nodes that it was handed, each exited or sent a SIGKILL. It first sends a
-- SIGTERM to each of them that had not exited and was not killed before, and to no other, and then a
-- SIGKILL only to nodes of these that it did not see exit. It leaves no runtime record that names
-- this process, unless the file cannot be removed, and leaves a record of another process alone.
pub stop_fiber_nodes-StopsAll :
    (a : StopAnswers) (own : ℕ) (runtime : Option Runtime) (hs : List Handle)
    → StopsAll a own runtime hs (stop_fiber_nodes a own runtime hs)
unfolding stop_fiber_nodes
stop_fiber_nodes-StopsAll a own runtime hs =
    let termed = term_nodes a hs in
    let awaited = await_nodes a termed.1 in
    (
      await_nodes-ids a termed.1 ∙ term_nodes-ids a hs,
      All-map _ _ awaited
          (λ (x : Handle) s. elim s [
            | inl gone ↦ inl gone
            | inr found ↦ inr (IsSent-append sigkill x.id termed.0 (kill_nodes awaited) found)
          ])
          (kill_nodes-IsStopped awaited),
      (
        termed.0,
        kill_nodes awaited,
        refl,
        term_nodes-NeedsTerm a hs,
        term_nodes-IsTermed a hs,
        kill_nodes-NeedsKill awaited,
      ),
      remove_if_manager-IsReleased a.removes_runtime own runtime,
      remove_if_manager-other a.removes_runtime own runtime,
    )
