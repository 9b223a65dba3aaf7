-- ===== src/Prelude/Orders.antt =====
-- A map whose entries are met in another order.
use mathlib.Core.Path.{◌≡◌, refl, ◌∙◌, ap, subst}
use mathlib.Core.Bool.{false}
use mathlib.Core.List.{List, ◌∷◌, map, Permᴰ}
use mathlib.Core.Option.{some}
use native.Mathlib.Omega.{arith}
use sshflow.Prelude.Tests.{if◌then◌else◌}
use sshflow.Prelude.Lists.{All}
use sshflow.Prelude.Strings.{Text, text_eq, text_eq_iff, text_eq_sym}
use sshflow.Prelude.Tables.{Table, NodupKeys, Fresh, get}

-- The second list has the elements of the first in some order.
abbrev pub Reordered {ℓ} : {A : Type ℓ} → List A → List A → Type ℓ
Reordered = Permᴰ

pub All-Reordered {ℓ κ} :
    {A : Type ℓ} (P : A → Type κ) {xs ys : List A} → Reordered xs ys → All P xs → All P ys
All-Reordered P Permᴰ.nil a = tt
All-Reordered P (Permᴰ.cons e d) a = (subst P e a.0, All-Reordered P d a.1)
All-Reordered P (Permᴰ.swap e f) a = (subst P f a.1.0, (subst P e a.0, a.1.1))
All-Reordered P (Permᴰ.trans d d') a = All-Reordered P d' (All-Reordered P d a)

pub map-Reordered {ℓ κ} :
    {A : Type ℓ} {B : Type κ} (f : A → B) {xs ys : List A}
    → Reordered xs ys
    → Reordered (map f xs) (map f ys)
map-Reordered f Permᴰ.nil = Permᴰ.nil
map-Reordered f (Permᴰ.cons e d) = Permᴰ.cons (ap f e) (map-Reordered f d)
map-Reordered f (Permᴰ.swap e e') = Permᴰ.swap (ap f e) (ap f e')
map-Reordered f (Permᴰ.trans d d') = Permᴰ.trans (map-Reordered f d) (map-Reordered f d')

module _ {ℓ} {V : Type ℓ} where
  pub NodupKeys-Reordered : {m m' : Table V} → Reordered m m' → NodupKeys m → NodupKeys m'
  NodupKeys-Reordered Permᴰ.nil n = tt
  NodupKeys-Reordered (Permᴰ.cons {a} {b} {l₁} {l₂} e d) n =
      (subst (λ i. Fresh i.0 l₂) e (All-Reordered _ d n.0), NodupKeys-Reordered d n.1)
  NodupKeys-Reordered (Permᴰ.swap {a} {b} {a'} {b'} {l} e f) n = (
    (
      text_eq_sym a'.0 b'.0
          (subst (λ i. text_eq i.0 b'.0 ≡ false) f (subst (λ i. text_eq b.0 i.0 ≡ false) e n.0.0)),
      subst (λ i. Fresh i.0 l) f n.1.0,
    ),
    (subst (λ i. Fresh i.0 l) e n.0.1, n.1.1),
  )
  NodupKeys-Reordered (Permᴰ.trans d d') n = NodupKeys-Reordered d' (NodupKeys-Reordered d n)

  -- Where each key stands once, the order of the entries does not matter to a lookup.
  pub get-Reordered :
      (k : Text) {m m' : Table V} → Reordered m m' → NodupKeys m → get k m ≡ get k m'
  unfolding get
  get-Reordered k Permᴰ.nil n = refl
  get-Reordered k (Permᴰ.cons {a} {b} {l₁} {l₂} e d) n =
      subst (λ i. get k (a ∷ l₁) ≡ get k (i ∷ l₂)) e
        (ap (λ r. if text_eq a.0 k then some a.1 else r) (get-Reordered k d n.1))
  get-Reordered k (Permᴰ.swap {a} {b} {a'} {b'} {l} e f) n =
      subst (λ i. get k (a ∷ b ∷ l) ≡ get k (i ∷ b' ∷ l)) f
        (subst (λ i. get k (a ∷ b ∷ l) ≡ get k (b ∷ i ∷ l)) e (swapped a b n.0.0))
    where
      swapped : (a b : Text × V) → text_eq b.0 a.0 ≡ false → get k (a ∷ b ∷ l) ≡ get k (b ∷ a ∷ l)
      swapped a b h = ground (arith, text_eq_iff a.0 k, text_eq_iff b.0 k, text_eq_iff b.0 a.0)
  get-Reordered k (Permᴰ.trans d d') n =
      get-Reordered k d n ∙ get-Reordered k d' (NodupKeys-Reordered d n)
