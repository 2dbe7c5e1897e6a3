-- ===== src/Storage/Disk/Inside.antt =====
-- Where the files of the objects are: below the root, whatever the key.
use obsto_cpp.Base.{
  Bool, Bool-cases, true, false, ◌||◌, [], ◌∷◌, ◌++◌, append_assoc, if◌then◌else◌, if_elim, Option,
  none, some, ◌≡◌, ◌⊎◌, inl, inr, refl, ◌∙◌, ap, arith,
}
use obsto_cpp.Text.{Bytes, empty, equals, equals_refl}
use obsto_cpp.Storage.Disk.Paths.{
  FilePath, path_of, is_absolute, dot, dot_dot, has_dot_dot, join, reverse_onto, normal_end,
  normal_from, lexically_normal, begins_with, map_path,
}

-- the parts but for the empty ones and the dots
abbrev pub names : FilePath → FilePath
names [] = []
names (part ∷ rest) = if empty part || equals part dot then names rest else part ∷ names rest

-- Is a slash left at the end?
abbrev slashed_by : Bool → FilePath → Bool
slashed_by slashed [] = slashed
slashed_by slashed (part ∷ rest) = slashed_by (empty part || equals part dot) rest

-- a part of a root that is given in normal form
pub record IsPlain (part : Bytes) : Type 0 where
  pub no_dot : empty part || equals part dot ≡ false
  pub no_dot_dot : equals part dot_dot ≡ false

abbrev pub AllPlain : FilePath → Type 0
AllPlain [] = Unit {0}
AllPlain (part ∷ rest) = IsPlain part × AllPlain rest

normal_from_lem :
    (done : FilePath) (slashed : Bool) (ps : FilePath)
    → has_dot_dot ps ≡ false
    → normal_from done slashed ps
      ≡ normal_end (reverse_onto (names ps) done) (slashed_by slashed ps)
unfolding normal_from has_dot_dot
normal_from_lem done slashed [] h = refl
normal_from_lem done slashed (part ∷ rest) h = elim (Bool-cases (empty part || equals part dot)) [
  | inl e ↦ rw (normal_from, e) (normal_from_lem done true rest (ground arith))
  | inr e ↦
      let no : equals part dot_dot ≡ false = ground arith in
      rw (normal_from, e, no) (normal_from_lem (part ∷ done) false rest (ground arith))
]

-- Nothing or a slash at the end.
abbrev pub IsTail : FilePath → Type 0
IsTail tail = (tail ≡ []) ⊎ (tail ≡ [] ∷ [])

slashed_end :
    (part : Bytes) (done : FilePath) (slash : Bool)
    → (tail : FilePath) × IsTail tail
      × (reverse_onto done (part ∷ (if slash then [] ∷ [] else []))
          ≡ reverse_onto done (part ∷ tail))
slashed_end part done true = ([] ∷ [], inr refl, refl)
slashed_end part done false = ([], inl refl, refl)

normal_end_lem :
    (a : FilePath) (part : Bytes) (done : FilePath) (slashed : Bool)
    → (tail : FilePath) × IsTail tail
      × (normal_end (reverse_onto (part ∷ a) done) slashed ≡ reverse_onto done (part ∷ (a ++ tail)))
unfolding normal_end
normal_end_lem [] part done slashed = slashed_end part done _
normal_end_lem (b ∷ a) part done slashed = normal_end_lem a b (part ∷ done) slashed

names-append : (a b : FilePath) → AllPlain a → names (a ++ b) ≡ a ++ names b
names-append [] b v = refl
names-append (part ∷ a) b v = rw (v.0.no_dot) (ap (λ l. part ∷ l) (names-append a b v.1))

has_dot_dot-append : (a b : FilePath) → AllPlain a → has_dot_dot (a ++ b) ≡ has_dot_dot b
unfolding has_dot_dot
has_dot_dot-append [] b v = refl
has_dot_dot-append (part ∷ a) b v = rw (v.0.no_dot_dot) (has_dot_dot-append a b v.1)

join-append : (a b : FilePath) → AllPlain a → join a b ≡ a ++ b
unfolding join
join-append [] b v = refl
join-append (part ∷ []) b v =
    let full : empty part ≡ false = ground (arith, v.0.no_dot) in rw full refl
join-append (part ∷ other ∷ a) b v = ap (λ l. part ∷ l) (join-append (other ∷ a) b v.1)

begins_with-append : (a b : FilePath) → begins_with a (a ++ b) ≡ true
unfolding begins_with
begins_with-append [] b = refl
begins_with-append (part ∷ a) b = rw (equals_refl part) (begins_with-append a b)

normal_below :
    (part : Bytes) (root ps : FilePath) (slash : Bool)
    → AllPlain (part ∷ root)
    → (tail : FilePath) × IsTail tail
      × (normal_end (reverse_onto (names (part ∷ (root ++ ps))) []) slash
          ≡ (part ∷ root) ++ (names ps ++ tail))
normal_below part root ps slash v =
    let (tail, is_tail, e) = normal_end_lem (root ++ names ps) part [] slash in
    (
      tail,
      is_tail,
      ap (λ n. normal_end (reverse_onto n []) slash) (names-append (part ∷ root) ps v)
          ∙ (e ∙ ap (λ l. part ∷ l) (append_assoc root (names ps) tail)),
    )

-- Where the root is in normal form, with no slash at the end: a key that is not empty, not absolute
-- and has no part "..", is mapped to the names that it has, below the root, with or without a slash at
-- the end.
pub map_path_lem :
    (part : Bytes) (root : FilePath) (s : Bytes)
    → AllPlain (part ∷ root)
    → empty s ≡ false
    → is_absolute s ≡ false
    → has_dot_dot (path_of s) ≡ false
    → (tail : FilePath) × IsTail tail
      × (map_path (part ∷ root) s ≡ some ((part ∷ root) ++ (names (path_of s) ++ tail)))
unfolding map_path lexically_normal
map_path_lem part root s v given relative no_dots =
    let whole = part ∷ (root ++ path_of s) in
    let (tail, is_tail, e) = normal_below part root (path_of s) (slashed_by false whole) v in
    let normal : normal_from [] false whole ≡ (part ∷ root) ++ (names (path_of s) ++ tail) =
      normal_from_lem [] false whole (has_dot_dot-append (part ∷ root) (path_of s) v ∙ no_dots)
      ∙ e in
    (
      tail,
      is_tail,
      rw
          (
            given,
            relative,
            no_dots,
            join-append (part ∷ root) (path_of s) v,
            normal,
            begins_with-append (part ∷ root) (names (path_of s) ++ tail),
          )
          refl,
    )

join_slashed : (a b : FilePath) → join (a ++ ([] ∷ [])) b ≡ a ++ b
unfolding join
join_slashed [] b = refl
join_slashed (part ∷ []) b = refl
join_slashed (part ∷ other ∷ a) b = ap (λ l. part ∷ l) (join_slashed (other ∷ a) b)

-- The part behind the root is an empty one in the root with its slash, and a name in the target.
begins_with-slashed :
    (a : FilePath) (name : Bytes) (rest : FilePath)
    → empty name ≡ false
    → begins_with (a ++ ([] ∷ [])) (a ++ (name ∷ rest)) ≡ false
unfolding begins_with equals
begins_with-slashed [] [] rest h = cc
begins_with-slashed [] (c ∷ name) rest h = refl
begins_with-slashed (part ∷ a) name rest h =
    rw (equals_refl part) (begins_with-slashed a name rest h)

-- the first name of a list of names
first_name-full :
    (ps : FilePath) (name : Bytes) (rest : FilePath) → names ps ≡ name ∷ rest → empty name ≡ false
first_name-full [] name rest h = cc
first_name-full (part ∷ ps) name rest h = elim (Bool-cases (empty part || equals part dot)) [
  | inl e ↦ first_name-full ps name rest (rw e at h)
  | inr e ↦
      let same : part ∷ names ps ≡ name ∷ rest = rw e at h in
      let first : part ≡ name = cc same in rw (← first) (ground (arith, e))
]

-- Where the root is given with a slash behind its last name: a path of at least one part, all of them
-- neither empty nor "." nor "..", and the empty part that the slash adds (which the root directory "/"
-- alone has not): every key that has a name is refused.
pub slashed_root_refuses :
    (part : Bytes) (root : FilePath) (s name : Bytes) (rest : FilePath)
    → AllPlain (part ∷ root)
    → names (path_of s) ≡ name ∷ rest
    → map_path ((part ∷ root) ++ ([] ∷ [])) s ≡ none
unfolding map_path lexically_normal
slashed_root_refuses part root s name rest v named =
    if_elim (λ (o : Option FilePath). o ≡ none) (empty s) (λ _. refl)
      λ _.
        if_elim (λ (o : Option FilePath). o ≡ none) (is_absolute s) (λ _. refl)
          λ _.
            if_elim (λ (o : Option FilePath). o ≡ none) (has_dot_dot (path_of s)) (λ _. refl)
              λ no_dots.
                let whole = part ∷ (root ++ path_of s) in
                let (tail, is_tail, e) =
                  normal_below part root (path_of s) (slashed_by false whole) v in
                let normal : normal_from [] false whole ≡ (part ∷ root) ++ (name ∷ (rest ++ tail)) =
                  normal_from_lem [] false whole
                    (has_dot_dot-append (part ∷ root) (path_of s) v ∙ no_dots)
                  ∙ (rw named at e) in
                rw
                  (
                    join_slashed (part ∷ root) (path_of s),
                    normal,
                    begins_with-slashed (part ∷ root) name (rest ++ tail)
                        (first_name-full (path_of s) name rest named),
                  )
                  refl
