-- ===== src/Metrics/Ranking.antt =====
-- The hosts that a snapshot lists.
use mathlib.Core.List.{Perm, Permᴰ}
use mathlib.Core.List.Perm
use sshflow.Prelude.{
  ℕ, zero, suc, ◌≤◌, ◌≡◌, refl, ap, inl, inr, List, [], ◌∷◌, ◌++◌, map, Text, Table, leb, arith,
  Bool-cases, All, ◌∙◌, sym, ap₂, Reordered, map-Reordered, if◌then◌else◌, take, drop, length,
  length-map,
}
use sshflow.Metrics.{HostStat, insert_ranked, rank, most_used}

-- The counts fall, from `n` on.
abbrev pub AtMost : ℕ → List (Text × ℕ) → Type 0
AtMost n = All (λ e. e.1 ≤ n)

abbrev pub IsRanked : List (Text × ℕ) → Type 0
IsRanked [] = Unit
IsRanked (a ∷ l) = AtMost a.1 l × IsRanked l

AtMost-mono : (m n : ℕ) (l : List (Text × ℕ)) → m ≤ n → AtMost m l → AtMost n l
AtMost-mono m n [] h a = tt
AtMost-mono m n (e ∷ l) h a = (omega arith, AtMost-mono m n l h a.1)

insert-AtMost :
    (n : ℕ) (a : Text × ℕ) (l : List (Text × ℕ))
    → a.1 ≤ n
    → AtMost n l
    → AtMost n (insert_ranked a l)
unfolding insert_ranked
insert-AtMost n a [] h b = (h, tt)
insert-AtMost n a (e ∷ l) h b = ground (arith, insert-AtMost n a l h b.1)

insert-IsRanked : (a : Text × ℕ) (l : List (Text × ℕ)) → IsRanked l → IsRanked (insert_ranked a l)
unfolding insert_ranked
insert-IsRanked a [] r = (tt, tt)
insert-IsRanked a (e ∷ l) r = elim (Bool-cases (leb e.1 a.1)) [
  | inl h ↦ rw (h, insert_ranked) ((ground arith, AtMost-mono e.1 a.1 l (ground arith) r.0), r)
  | inr h ↦
      rw (h, insert_ranked) (insert-AtMost e.1 a l (ground arith) r.0, insert-IsRanked a l r.1)
]

rank-IsRanked : (l : List (Text × ℕ)) → IsRanked (rank l)
unfolding rank
rank-IsRanked [] = tt
rank-IsRanked (a ∷ l) = insert-IsRanked a (rank l) (rank-IsRanked l)

insert-perm : (a : Text × ℕ) (l : List (Text × ℕ)) → Perm (insert_ranked a l) (a ∷ l)
unfolding insert_ranked
insert-perm a [] = Perm.refl (a ∷ [])
insert-perm a (e ∷ l) = elim (Bool-cases (leb e.1 a.1)) [
  | inl h ↦ rw (h, insert_ranked) (Perm.refl (a ∷ e ∷ l))
  | inr h ↦ rw (h, insert_ranked) (Perm.trans (Perm.cons e (insert-perm a l)) (Perm.swap a e l))
]

rank-perm : (l : List (Text × ℕ)) → Perm (rank l) l
unfolding rank
rank-perm [] = Perm.refl []
rank-perm (a ∷ l) = Perm.trans (insert-perm a (rank l)) (Perm.cons a (rank-perm l))

take-append-drop {ℓ} : {A : Type ℓ} (n : ℕ) (xs : List A) → take n xs ++ drop n xs ≡ xs
take-append-drop zero xs = refl
take-append-drop (suc n) [] = refl
take-append-drop (suc n) (x ∷ xs) = ap (◌∷◌ x) (take-append-drop n xs)

-- Every host of the second list was used at most as often as every host of the first.
abbrev pub Above : List (Text × ℕ) → List (Text × ℕ) → Type 0
Above shown rest = All (λ e. AtMost e.1 rest) shown

drop-AtMost : (n k : ℕ) (l : List (Text × ℕ)) → AtMost k l → AtMost k (drop n l)
drop-AtMost zero k l a = a
drop-AtMost (suc n) k [] a = tt
drop-AtMost (suc n) k (e ∷ l) a = drop-AtMost n k l a.1

take-IsRanked : (n : ℕ) (l : List (Text × ℕ)) → IsRanked l → Above (take n l) (drop n l)
take-IsRanked zero l r = tt
take-IsRanked (suc n) [] r = tt
take-IsRanked (suc n) (e ∷ l) r = (drop-AtMost n e.1 l r.0, take-IsRanked n l r.1)

take-AtMost : (n k : ℕ) (l : List (Text × ℕ)) → AtMost k l → AtMost k (take n l)
take-AtMost zero k l a = tt
take-AtMost (suc n) k [] a = tt
take-AtMost (suc n) k (e ∷ l) a = (a.0, take-AtMost n k l a.1)

take-IsRanked_self : (n : ℕ) (l : List (Text × ℕ)) → IsRanked l → IsRanked (take n l)
take-IsRanked_self zero l r = tt
take-IsRanked_self (suc n) [] r = tt
take-IsRanked_self (suc n) (e ∷ l) r = (take-AtMost n e.1 l r.0, take-IsRanked_self n l r.1)

-- The counts alone: their order does not depend on the order in which the hosts are met.
insert_count : ℕ → List ℕ → List ℕ
insert_count a [] = a ∷ []
insert_count a (b ∷ l) = if leb b a then a ∷ b ∷ l else b ∷ insert_count a l

insert_count_swap :
    (a b : ℕ) (l : List ℕ) → insert_count a (insert_count b l) ≡ insert_count b (insert_count a l)
unfolding insert_count
insert_count_swap a b [] = ground arith
insert_count_swap a b (c ∷ l) = ground (arith, insert_count_swap a b l)

counts : List (Text × ℕ) → List ℕ
counts = map (λ e. e.1)

insert-counts :
    (a : Text × ℕ) (l : List (Text × ℕ)) → counts (insert_ranked a l) ≡ insert_count a.1 (counts l)
unfolding insert_ranked insert_count counts
insert-counts a [] = refl
insert-counts a (b ∷ l) = ground (arith, insert-counts a l)

two_inserts-counts :
    (a b : Text × ℕ) (l : List (Text × ℕ))
    → counts (insert_ranked a (insert_ranked b l)) ≡ insert_count a.1 (insert_count b.1 (counts l))
two_inserts-counts a b l =
    insert-counts a (insert_ranked b l) ∙ ap (insert_count a.1) (insert-counts b l)

rank-counts : {l l' : List (Text × ℕ)} → Reordered l l' → counts (rank l) ≡ counts (rank l')
unfolding rank
rank-counts Permᴰ.nil = refl
rank-counts (Permᴰ.cons {a} {b} {l₁} {l₂} e d) =
    insert-counts a (rank l₁)
    ∙ ap₂ (λ x c. insert_count x.1 c) e (rank-counts d)
    ∙ sym (insert-counts b (rank l₂))
rank-counts (Permᴰ.swap {a} {b} {a'} {b'} {l} e f) =
    two_inserts-counts a b (rank l)
    ∙ insert_count_swap a.1 b.1 (counts (rank l))
    ∙ ap₂ (λ x y. insert_count x.1 (insert_count y.1 (counts (rank l)))) f e
    ∙ sym (two_inserts-counts a' b' (rank l))
rank-counts (Permᴰ.trans d d') = rank-counts d ∙ rank-counts d'

take-counts : (n : ℕ) (l : List (Text × ℕ)) → map (λ e. e.1) (take n l) ≡ take n (counts l)
unfolding counts
take-counts zero l = refl
take-counts (suc n) [] = refl
take-counts (suc n) (e ∷ l) = ap (◌∷◌ e.1) (take-counts n l)

-- The counts that are listed do not depend on the order of the hosts.
pub most_used-counts :
    {m m' : Table HostStat}
    → Reordered m m'
    → map (λ e. e.1) (most_used m) ≡ map (λ e. e.1) (most_used m')
unfolding most_used
most_used-counts {m} {m'} r =
    take-counts 5 _ ∙ ap (take 5) (rank-counts (map-Reordered _ r)) ∙ sym (take-counts 5 _)

length-insert_ranked :
    (a : Text × ℕ) (l : List (Text × ℕ)) → length (insert_ranked a l) ≡ suc (length l)
unfolding insert_ranked
length-insert_ranked a [] = refl
length-insert_ranked a (e ∷ l) = ground (arith, length-insert_ranked a l)

length-rank : (l : List (Text × ℕ)) → length (rank l) ≡ length l
unfolding rank
length-rank [] = refl
length-rank (a ∷ l) = omega (arith, length-insert_ranked a (rank l), length-rank l)

length-take {ℓ} :
    {A : Type ℓ} (n : ℕ) (xs : List A)
    → length (take n xs) ≡ (if leb (length xs) n then length xs else n)
length-take zero [] = refl
length-take zero (x ∷ xs) = ground arith
length-take (suc n) [] = ground arith
length-take (suc n) (x ∷ xs) = ground (arith, length-take n xs)

-- A snapshot lists five hosts, or all of them where there are at most five, by falling number of
-- connections; with the hosts left out they are all the hosts of the store, and none of those left
-- out was used more often than one listed.
pub most_used_top :
    (m : Table HostStat)
    → let shown = most_used m in
      (length shown ≡ (if leb (length m) 5 then length m else 5))
      × IsRanked shown
      × ((rest : List (Text × ℕ)) × Perm (shown ++ rest) (map (λ e. (e.1.label, e.1.connections)) m)
          × Above shown rest)
unfolding most_used
most_used_top m =
    let l = map (λ e. (e.1.label, e.1.connections)) m in
    (
      length-take 5 (rank l)
          ∙ ap (λ n. if leb n 5 then n else 5)
              (length-rank l ∙ length-map (λ e. (e.1.label, e.1.connections)) m),
      take-IsRanked_self 5 (rank l) (rank-IsRanked l),
      (
        drop 5 (rank l),
        rw (take-append-drop 5 (rank l)) (rank-perm l),
        take-IsRanked 5 (rank l) (rank-IsRanked l),
      ),
    )
