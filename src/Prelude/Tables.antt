-- ===== src/Prelude/Tables.antt =====
-- The contents of a map with text keys, as its entries in an order of iteration. An insertion
-- under a known key takes the entry's place; a new key goes to the end.
use Prim.Native.Nat.{suc, ◌≤◌}
use mathlib.Core.Path.{◌≡◌, refl, subst}
use mathlib.Core.Logic.{inl, inr}
use mathlib.Core.Bool.{false}
use mathlib.Core.Option.{Option, none, some, some-injective}
use mathlib.Core.Option
use mathlib.Core.List.{List, [], ◌∷◌}
use native.Mathlib.Omega.{arith}
use sshflow.Prelude.Tests.{if◌then◌else◌, is_some, Bool-cases}
use sshflow.Prelude.Lists.{length, All}
use sshflow.Prelude.Strings.{Text, text_eq, text_eq_iff, text_eq→eq, text_eq_sym}

abbrev pub Table {ℓ} : Type ℓ → Type ℓ
Table V = List (Text × V)

module _ {ℓ} {V : Type ℓ} where
  unfoldable pub get : Text → Table V → Option V
  get k [] = none
  get k ((j, v) ∷ m) = if text_eq j k then some v else get k m

  unfoldable pub insert : Text → V → Table V → Table V
  insert k v [] = (k, v) ∷ []
  insert k v ((j, w) ∷ m) = if text_eq j k then (k, v) ∷ m else (j, w) ∷ insert k v m

  unfoldable pub remove : Text → Table V → Table V
  remove k [] = []
  remove k ((j, w) ∷ m) = if text_eq j k then remove k m else (j, w) ∷ remove k m

  -- `get_mut`, and `entry(k).and_modify(f)`: a missing key changes nothing.
  unfoldable pub modify : Text → (V → V) → Table V → Table V
  modify k f [] = []
  modify k f ((j, w) ∷ m) = if text_eq j k then (j, f w) ∷ m else (j, w) ∷ modify k f m

  pub get-insert :
      (k j : Text) (v : V) (m : Table V)
      → get j (insert k v m) ≡ (if text_eq k j then some v else get j m)
  unfolding get insert
  get-insert k j v [] = refl
  get-insert k j v ((i, w) ∷ m) =
      ground (arith, text_eq_iff k j, text_eq_iff i k, text_eq_iff i j, get-insert k j v m)

  pub get-remove :
      (k j : Text) (m : Table V) → get j (remove k m) ≡ (if text_eq k j then none else get j m)
  unfolding get remove
  get-remove k j [] = ground arith
  get-remove k j ((i, w) ∷ m) =
      ground (arith, text_eq_iff k j, text_eq_iff i k, text_eq_iff i j, get-remove k j m)

  -- Every key stands once.
  abbrev pub Fresh : Text → Table V → Type 0
  Fresh k = All (λ e. text_eq e.0 k ≡ false)

  abbrev pub NodupKeys : Table V → Type 0
  NodupKeys [] = Unit
  NodupKeys ((k, v) ∷ m) = Fresh k m × NodupKeys m

  Fresh-insert :
      (k j : Text) (v : V) (m : Table V) → text_eq k j ≡ false → Fresh j m → Fresh j (insert k v m)
  unfolding insert
  Fresh-insert k j v [] h f = (h, tt)
  Fresh-insert k j v ((i, w) ∷ m) h f = ground (arith, Fresh-insert k j v m)

  Fresh-remove : (k j : Text) (m : Table V) → Fresh j m → Fresh j (remove k m)
  unfolding remove
  Fresh-remove k j [] f = tt
  Fresh-remove k j ((i, w) ∷ m) f = ground (arith, Fresh-remove k j m)

  Fresh-modify : (k j : Text) (f : V → V) (m : Table V) → Fresh j m → Fresh j (modify k f m)
  unfolding modify
  Fresh-modify k j g [] f = tt
  Fresh-modify k j g ((i, w) ∷ m) f = ground (arith, Fresh-modify k j g m)

  pub NodupKeys-insert : (k : Text) (v : V) (m : Table V) → NodupKeys m → NodupKeys (insert k v m)
  unfolding insert
  NodupKeys-insert k v [] n = (tt, tt)
  NodupKeys-insert k v ((j, w) ∷ m) n = elim (Bool-cases (text_eq j k)) [
    | inl e ↦ rw e (rw (text_eq→eq j k e) at n)
    | inr e ↦ rw e (Fresh-insert k j v m (text_eq_sym j k e) n.0, NodupKeys-insert k v m n.1)
  ]

  pub NodupKeys-remove : (k : Text) (m : Table V) → NodupKeys m → NodupKeys (remove k m)
  unfolding remove
  NodupKeys-remove k [] n = tt
  NodupKeys-remove k ((j, w) ∷ m) n =
      ground (arith, NodupKeys-remove k m n.1, Fresh-remove k j m n.0)

  pub NodupKeys-modify :
      (k : Text) (f : V → V) (m : Table V) → NodupKeys m → NodupKeys (modify k f m)
  unfolding modify
  NodupKeys-modify k f [] n = tt
  NodupKeys-modify k f ((j, w) ∷ m) n =
      ground (arith, NodupKeys-modify k f m n.1, Fresh-modify k j f m n.0)

  pub get-Fresh : (k : Text) (m : Table V) → Fresh k m → get k m ≡ none
  unfolding get
  get-Fresh k [] f = refl
  get-Fresh k ((j, w) ∷ m) f = ground (arith, get-Fresh k m f.1)

  get-Fresh_missing : (k : Text) (m : Table V) → get k m ≡ none → Fresh k m
  unfolding get
  get-Fresh_missing k [] h = tt
  get-Fresh_missing k ((j, w) ∷ m) h = ground (arith, get-Fresh_missing k m)

  remove-Fresh : (k : Text) (m : Table V) → Fresh k m → remove k m ≡ m
  unfolding remove
  remove-Fresh k [] f = refl
  remove-Fresh k ((j, w) ∷ m) f = ground (arith, remove-Fresh k m f.1)

  pub get-modify :
      (k j : Text) (f : V → V) (m : Table V)
      → get j (modify k f m) ≡ (if text_eq k j then Option.map f (get j m) else get j m)
  unfolding get modify
  get-modify k j f [] = ground arith
  get-modify k j f ((i, w) ∷ m) =
      ground (arith, text_eq_iff k j, text_eq_iff i k, text_eq_iff i j, get-modify k j f m)

  pub length-insert :
      (k : Text) (v : V) (m : Table V)
      → length (insert k v m) ≡ (if is_some (get k m) then length m else suc (length m))
  unfolding insert get
  length-insert k v [] = refl
  length-insert k v ((j, w) ∷ m) = ground (arith, length-insert k v m)

  pub length-modify : (k : Text) (f : V → V) (m : Table V) → length (modify k f m) ≡ length m
  unfolding modify
  length-modify k f [] = refl
  length-modify k f ((j, w) ∷ m) = ground (arith, length-modify k f m)

  pub length-remove-le : (k : Text) (m : Table V) → length (remove k m) ≤ length m
  unfolding remove
  length-remove-le k [] = omega arith
  length-remove-le k ((j, w) ∷ m) = ground (arith, length-remove-le k m)

  -- One entry goes when the key is known.
  pub length-remove :
      (k : Text) (m : Table V) (v : V)
      → NodupKeys m
      → get k m ≡ some v
      → suc (length (remove k m)) ≡ length m
  unfolding get remove
  length-remove k [] v n h = cc
  length-remove k ((j, w) ∷ m) v n h = elim (Bool-cases (text_eq j k)) [
    | inl e ↦
        let fresh : Fresh k m = subst (λ t. Fresh t m) (text_eq→eq j k e) n.0 in
        rw (e, remove-Fresh k m fresh)
    | inr e ↦ ground (arith, length-remove k m v n.1)
  ]

  -- A property of every entry.
  abbrev pub Entries : (Text → V → Type 0) → Table V → Type 0
  Entries P = All (λ e. P e.0 e.1)

module _ {ℓ} {V : Type ℓ} (P : Text → V → Type 0) where
  pub Entries-insert :
      (k : Text) (v : V) (m : Table V) → P k v → Entries P m → Entries P (insert k v m)
  unfolding insert
  Entries-insert k v [] p a = (p, tt)
  Entries-insert k v ((j, w) ∷ m) p a = ground (arith, Entries-insert k v m p a.1)

  pub Entries-remove : (k : Text) (m : Table V) → Entries P m → Entries P (remove k m)
  unfolding remove
  Entries-remove k [] a = tt
  Entries-remove k ((j, w) ∷ m) a = ground (arith, Entries-remove k m a.1)

  pub Entries-get : (k : Text) (m : Table V) (v : V) → Entries P m → get k m ≡ some v → P k v
  unfolding get
  Entries-get k [] v a h = cc
  Entries-get k ((j, w) ∷ m) v a h = elim (Bool-cases (text_eq j k)) [
    | inl e ↦
        let same_value : w ≡ v = ground arith in
        subst (λ t. P t v) (text_eq→eq j k e) (subst (P j) same_value a.0)
    | inr e ↦ Entries-get k m v a.1 (rw e at h)
  ]

  pub Entries-modify :
      (k : Text) (f : V → V) (m : Table V)
      → ((j : Text) (v : V) → P j v → P j (f v))
      → Entries P m
      → Entries P (modify k f m)
  unfolding modify
  Entries-modify k f [] h a = tt
  Entries-modify k f ((j, w) ∷ m) h a = ground (arith, h j w a.0, Entries-modify k f m h a.1)
