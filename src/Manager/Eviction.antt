-- ===== src/Manager/Eviction.antt =====
-- The choice of a connection to evict.
use sshflow.Prelude.{
  ℕ, ◌≤◌, ◌≡◌, refl, subst, sym, ◌↔◌, get-Fresh, text_eq→eq, inl, inr, true, false, [], ◌∷◌, none,
  some, Text, get, text_eq, text_eq_refl, NodupKeys, Fresh, Entries, arith, Bool-cases, ltb,
}
use sshflow.Manager.{ManagedConnection, ConnectionManager, min_from, least_recently_used}

-- Every entry was used at `n` or later.
abbrev pub UsedSince : ℕ → ConnectionManager → Type 0
UsedSince n = Entries (λ k c. n ≤ c.last_used)

UsedSince-mono : (a b : ℕ) (m : ConnectionManager) → a ≤ b → UsedSince b m → UsedSince a m
UsedSince-mono a b [] h u = tt
UsedSince-mono a b (e ∷ m) h u = (omega arith, UsedSince-mono a b m h u.1)

module _ (best e : Text × ManagedConnection) (m : ConnectionManager) where
  min_from-less : ltb e.1.last_used best.1.last_used ≡ true → min_from best (e ∷ m) ≡ min_from e m
  unfolding min_from
  min_from-less h = rw (h, min_from)

  min_from-keep :
      ltb e.1.last_used best.1.last_used ≡ false → min_from best (e ∷ m) ≡ min_from best m
  unfolding min_from
  min_from-keep h = rw (h, min_from)

min_from-nil : (best : Text × ManagedConnection) → min_from best [] ≡ best
unfolding min_from
min_from-nil best = refl

min_from-le :
    (best : Text × ManagedConnection) (m : ConnectionManager)
    → (min_from best m).1.last_used ≤ best.1.last_used
min_from-le best [] = rw (min_from-nil best) (omega arith)
min_from-le best (e ∷ m) = elim (Bool-cases (ltb e.1.last_used best.1.last_used)) [
  | inl h ↦ rw (min_from-less best e m h) (ground (arith, min_from-le e m))
  | inr h ↦ rw (min_from-keep best e m h) (min_from-le best m)
]

min_from-UsedSince :
    (best : Text × ManagedConnection) (m : ConnectionManager)
    → UsedSince (min_from best m).1.last_used m
min_from-UsedSince best [] = tt
min_from-UsedSince best (e ∷ m) = elim (Bool-cases (ltb e.1.last_used best.1.last_used)) [
  | inl h ↦
      subst (λ r. UsedSince r.1.last_used (e ∷ m)) (sym (min_from-less best e m h))
        (min_from-le e m, min_from-UsedSince e m)
  | inr h ↦
      subst (λ r. UsedSince r.1.last_used (e ∷ m)) (sym (min_from-keep best e m h))
        (ground (arith, min_from-le best m), min_from-UsedSince best m)
]

Fresh-other :
    (k j : Text) (m : ConnectionManager) (c : ManagedConnection)
    → Fresh k m
    → get j m ≡ some c
    → text_eq k j ≡ false
Fresh-other k j m c f h = elim (Bool-cases (text_eq k j)) [
  | inl e ↦
      let gone : get j m ≡ none =
        subst (λ i. get i m ≡ none) (text_eq→eq k j e) (get-Fresh k m f) in
      cc
  | inr e ↦ e
]

skip_entry :
    (e best : Text × ManagedConnection) (m : ConnectionManager) (r : Text × ManagedConnection)
    → NodupKeys (best ∷ e ∷ m)
    → get r.0 (best ∷ m) ≡ some r.1
    → get r.0 (best ∷ e ∷ m) ≡ some r.1
unfolding get
skip_entry e best m r n found = elim (Bool-cases (text_eq best.0 r.0)) [
  | inl t ↦ ground arith
  | inr t ↦
      let rest : get r.0 m ≡ some r.1 = ground arith in
      ground (arith, Fresh-other e.0 r.0 m r.1 n.1.0 rest)
]

-- The result is an entry of the table with the best one so far in front.
min_from-get :
    (best : Text × ManagedConnection) (m : ConnectionManager)
    → NodupKeys (best ∷ m)
    → get (min_from best m).0 (best ∷ m) ≡ some (min_from best m).1
unfolding get
min_from-get best [] n = rw (min_from-nil best, text_eq_refl best.0)
min_from-get best (e ∷ m) n = elim (Bool-cases (ltb e.1.last_used best.1.last_used)) [
  | inl h ↦
      let found = min_from-get e m n.1 in
      subst (λ r. get r.0 (best ∷ e ∷ m) ≡ some r.1) (sym (min_from-less best e m h))
        (ground
          (arith, found, Fresh-other best.0 (min_from e m).0 (e ∷ m) (min_from e m).1 n.0 found))
  | inr h ↦
      subst (λ r. get r.0 (best ∷ e ∷ m) ≡ some r.1) (sym (min_from-keep best e m h))
        (skip_entry e best m (min_from best m) n (min_from-get best m (n.0.1, n.1.1)))
]

-- The connection chosen for eviction is in the table, and no connection was used before it.
pub least_recently_used_min :
    (m : ConnectionManager) (k : Text)
    → NodupKeys m
    → least_recently_used m ≡ some k
    → (c : ManagedConnection) × (get k m ≡ some c) × UsedSince c.last_used m
unfolding least_recently_used
least_recently_used_min [] k n h = cc
least_recently_used_min (e ∷ m) k n h =
    let r = min_from e m in
    let chosen : r.0 ≡ k = ground arith in
    (
      r.1,
      subst (λ j. get j (e ∷ m) ≡ some r.1) chosen (min_from-get e m n),
      (min_from-le e m, min_from-UsedSince e m),
    )

-- There is a choice unless the table is empty.
pub least_recently_used-none : (m : ConnectionManager) → (least_recently_used m ≡ none) ↔ (m ≡ [])
unfolding least_recently_used
least_recently_used-none [] = ((λ h. refl), (λ h. refl))
least_recently_used-none (e ∷ m) = ((λ h. absurd (ground arith)), (λ h. absurd (ground arith)))
