-- ===== src/Storage/Table.antt =====
-- `std::unordered_map<std::string, V>` as an association list. The order in which the C++ map is
-- walked is unspecified; here it is the order of insertion.
use obsto_cpp.Base.{
  ℕ, ◌+◌, ◌≤◌, Bool, true, false, List, [], ◌∷◌, map, if◌then◌else◌, Option, none, some, ◌≡◌, refl,
  arith,
}
use obsto_cpp.Text.{Bytes, equals, equals_iff}

abbrev pub Table {ℓ} : Type ℓ → Type ℓ
Table V = List (Bytes × V)

module _ {ℓ} {V : Type ℓ} where
  unfoldable pub find : Bytes → Table V → Option V
  find k [] = none
  find k ((j, v) ∷ t) = if equals j k then some v else find k t

  -- `m[k] = v`
  unfoldable pub assign : Bytes → V → Table V → Table V
  assign k v [] = (k, v) ∷ []
  assign k v ((j, w) ∷ t) = if equals j k then (j, v) ∷ t else (j, w) ∷ assign k v t

  unfoldable pub erase : Bytes → Table V → Table V
  erase k [] = []
  erase k ((j, v) ∷ t) = let rest = erase k t in if equals j k then rest else (j, v) ∷ rest

  abbrev pub contains : Bytes → Table V → Bool
  contains k t = elim (find k t) [ none ↦ false | some v ↦ true ]

  abbrev pub keys_of : Table V → List Bytes
  keys_of t = map (λ e. e.0) t

  -- No key stands in the table twice.
  abbrev pub IsDistinct : Table V → Type ℓ
  IsDistinct [] = Unit
  IsDistinct ((k, v) ∷ t) = (find k t ≡ none) × IsDistinct t

  pub find-assign :
      (k j : Bytes) (v : V) (t : Table V)
      → find j (assign k v t) ≡ (if equals k j then some v else find j t)
  unfolding find assign
  find-assign k j v [] = refl
  find-assign k j v ((i, w) ∷ t) =
      ground (arith, equals_iff k j, equals_iff i k, equals_iff i j, find-assign k j v t)

  pub find-erase :
      (k j : Bytes) (t : Table V) → find j (erase k t) ≡ (if equals k j then none else find j t)
  unfolding find erase
  find-erase k j [] = ground arith
  find-erase k j ((i, w) ∷ t) =
      ground (arith, equals_iff k j, equals_iff i k, equals_iff i j, find-erase k j t)

  pub assign-IsDistinct :
      (k : Bytes) (v : V) (t : Table V) → IsDistinct t → IsDistinct (assign k v t)
  unfolding find assign
  assign-IsDistinct k v [] d = (refl, tt)
  assign-IsDistinct k v ((i, w) ∷ t) d =
      ground
        (arith, equals_iff i k, equals_iff k i, find-assign k i v t, assign-IsDistinct k v t d.1)

  pub erase-IsDistinct : (k : Bytes) (t : Table V) → IsDistinct t → IsDistinct (erase k t)
  unfolding find erase
  erase-IsDistinct k [] d = d
  erase-IsDistinct k ((i, w) ∷ t) d =
      ground (arith, equals_iff k i, find-erase k i t, erase-IsDistinct k t d.1)

-- The sum of the values of a table of sizes.
abbrev pub total : Table ℕ → ℕ
total [] = 0
total ((k, n) ∷ t) = n + total t

abbrev pub get_or : Option ℕ → ℕ → ℕ
get_or none d = d
get_or (some n) d = n

pub total-assign :
    (k : Bytes) (n : ℕ) (t : Table ℕ) → total (assign k n t) + get_or (find k t) 0 ≡ total t + n
unfolding find assign
total-assign k n [] = omega arith
total-assign k n ((i, m) ∷ t) = ground (arith, total-assign k n t)

erase_missing : (k : Bytes) (t : Table ℕ) → find k t ≡ none → total (erase k t) ≡ total t
unfolding find erase
erase_missing k [] h = refl
erase_missing k ((i, m) ∷ t) h = ground (arith, erase_missing k t)

pub total-erase :
    (k : Bytes) (t : Table ℕ) → IsDistinct t → total (erase k t) + get_or (find k t) 0 ≡ total t
unfolding find erase
total-erase k [] d = omega arith
total-erase k ((i, m) ∷ t) d =
    ground (arith, total-erase k t d.1, erase_missing k t, equals_iff i k)

pub find-le-total : (k : Bytes) (t : Table ℕ) → get_or (find k t) 0 ≤ total t
unfolding find
find-le-total k [] = omega arith
find-le-total k ((i, m) ∷ t) = ground (arith, find-le-total k t)
