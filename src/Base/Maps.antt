-- ===== src/Base/Maps.antt =====
-- `std::map<std::string , T>` as the list of its pairs in the order of its keys.
use Prim.Native.Nat.{suc}
use mathlib.Core.Path.{◌≡◌, refl, ap}
use mathlib.Core.Logic.{inl, inr}
use mathlib.Core.Bool.{Bool, true, false, ◌&&◌, ◌||◌}
use mathlib.Core.Option.{Option, none, some}
use mathlib.Core.List.{List, [], ◌∷◌}
use native.Mathlib.Omega.{arith}
use cci_daemon.Base.Tests.{ltb, ◌==◌, if◌then◌else◌, Bool-cases}
use cci_daemon.Base.Lists.{length}
use cci_daemon.Base.Bytes.{Text}

abbrev pub Dictionary {ℓ} : Type ℓ → Type ℓ
Dictionary A = List (Text × A)

-- The order of `std::string`, and equality.
abbrev pub less : Text → Text → Bool
less [] [] = false
less [] (y ∷ ys) = true
less (x ∷ xs) [] = false
less (x ∷ xs) (y ∷ ys) = ltb x y || (x == y && less xs ys)

abbrev pub same : Text → Text → Bool
same [] [] = true
same (x ∷ xs) (y ∷ ys) = x == y && same xs ys
same _ _ = false

pub same_refl : (s : Text) → same s s ≡ true
same_refl [] = refl
same_refl (x ∷ xs) = ground (arith, same_refl xs)

module _ {ℓ} {A : Type ℓ} where
  abbrev pub find_key : Text → Dictionary A → Option A
  find_key key [] = none
  find_key key ((k, a) ∷ m) = if same key k then some a else find_key key m

  -- `insert` of a key that is not there.
  abbrev pub insert_key : Text → A → Dictionary A → Dictionary A
  insert_key key a [] = (key, a) ∷ []
  insert_key key a ((k, b) ∷ m) =
      let rest = insert_key key a m in if less key k then (key, a) ∷ (k, b) ∷ m else (k, b) ∷ rest

  abbrev pub erase_key : Text → Dictionary A → Dictionary A
  erase_key key [] = []
  erase_key key ((k, a) ∷ m) = let rest = erase_key key m in if same key k then m else (k, a) ∷ rest

  -- A new key is found, and taken out again it leaves what was there.
  pub find_key-insert_key :
      (key : Text) (a : A) (m : Dictionary A)
      → find_key key m ≡ none
      → find_key key (insert_key key a m) ≡ some a
  find_key-insert_key key a [] n = rw (same_refl key) refl
  find_key-insert_key key a ((k, b) ∷ m) n = elim (Bool-cases (same key k)) [
    | inl e ↦ absurd (ground arith)
    | inr e ↦ elim (Bool-cases (less key k)) [
      | inl l ↦ rw (l, same_refl key) refl
      | inr l ↦ rw (l, e) (find_key-insert_key key a m (ground arith))
    ]
  ]

  pub erase_key-insert_key :
      (key : Text) (a : A) (m : Dictionary A)
      → find_key key m ≡ none
      → erase_key key (insert_key key a m) ≡ m
  erase_key-insert_key key a [] n = rw (same_refl key) refl
  erase_key-insert_key key a ((k, b) ∷ m) n = elim (Bool-cases (same key k)) [
    | inl e ↦ absurd (ground arith)
    | inr e ↦ elim (Bool-cases (less key k)) [
      | inl l ↦ rw (l, same_refl key) refl
      | inr l ↦ rw (l, e) (ap (◌∷◌ (k, b)) (erase_key-insert_key key a m (ground arith)))
    ]
  ]

  pub length-insert_key :
      (key : Text) (a : A) (m : Dictionary A) → length (insert_key key a m) ≡ suc (length m)
  length-insert_key key a [] = refl
  length-insert_key key a ((k, b) ∷ m) = elim (Bool-cases (less key k)) [
    | inl l ↦ rw l refl
    | inr l ↦ rw l (ap suc (length-insert_key key a m))
  ]

  -- Another key is found as before.
  pub find_key-insert_other :
      (key other : Text) (a : A) (m : Dictionary A)
      → same other key ≡ false
      → find_key other (insert_key key a m) ≡ find_key other m
  find_key-insert_other key other a [] d = rw d refl
  find_key-insert_other key other a ((k, b) ∷ m) d = elim (Bool-cases (less key k)) [
    | inl l ↦ rw (l, d) refl
    | inr l ↦ rw (l, find_key-insert_other key other a m d) refl
  ]
