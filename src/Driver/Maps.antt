-- ===== src/Driver/Maps.antt =====
-- The std::map operations that src/driver.h uses, on lists of pairs in the order of their keys.
use ventus_driver.Common.{ℕ, Option, none, some, List, [], ◌∷◌, ltb, ◌==◌, if◌then◌else◌}

unfoldable pub find {ℓ} : {A : Type ℓ} → List (ℕ × A) → ℕ → Option A
find [] key = none
find ((k, a) ∷ m) key = if k == key then some a else find m key

-- A key that is there keeps its value.
unfoldable pub emplace {ℓ} : {A : Type ℓ} → List (ℕ × A) → ℕ → A → List (ℕ × A)
emplace [] key a = (key, a) ∷ []
emplace ((k, old) ∷ m) key a =
    let rest = emplace m key a in
    if k == key
    then (k, old) ∷ m
    else if ltb key k
    then (key, a) ∷ (k, old) ∷ m
    else (k, old) ∷ rest

-- Assignment through an iterator to the value of a key.
unfoldable pub assign {ℓ} : {A : Type ℓ} → List (ℕ × A) → ℕ → A → List (ℕ × A)
assign [] key a = []
assign ((k, old) ∷ m) key a = if k == key then (k, a) ∷ m else (k, old) ∷ assign m key a

unfoldable pub erase {ℓ} : {A : Type ℓ} → List (ℕ × A) → ℕ → List (ℕ × A)
erase [] key = []
erase ((k, a) ∷ m) key = if k == key then m else (k, a) ∷ erase m key
