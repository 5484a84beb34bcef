-- ===== src/Skills/Listing.antt =====
-- The skills that are listed are those that are loaded (pkg/skills/loader.go).
use picoclawnim.Base.{
  ◌≡◌, refl, ◌∙◌, Bool, true, false, not, ◌&&◌, ◌||◌, Bool-cases, Option-cases, inl, inr, Option,
  none, some, List, [], ◌∷◌, ◌++◌, arith, Str, str_eq, str_eq_iff, str_eq_refl, any, str, All, ◌==◌,
}
use picoclawnim.Skills.Loader.{
  Fs, SkillInfo, info_of, has_skill, add_entry, add_entries, add_listed, add_root, read_from,
}

abbrev pub is_some : Option Str → Bool
is_some none = false
is_some (some s) = true

-- Whether a directory is in a listing.
abbrev pub is_listed : Str → Option (List (Str × Bool)) → Bool
is_listed name none = false
is_listed name (some es) = any (λ e. str_eq e.0 name && e.1) es

-- The name of an entry of a directory, unlike a path such as ./notes.
abbrev pub is_plain : Str → Bool
is_plain name =
    not (
      any (λ c. c == b'/') name
      || str_eq name []
      || str_eq name (str ".")
      || str_eq name (str ".."))

-- The files do not change, what exists can be read, the names in a listing are those of entries, and
-- a SKILL.md is found under the name of an entry only if the entry is listed as a directory, so that
-- no link stands for one.
pub record IsSteady (fs : Fs) : Type 0 where
  pub readable : (path : Str) → fs.exists path ≡ is_some (fs.read path)
  pub plain :
      (root : Str) (es : List (Str × Bool))
      → fs.list_dir root ≡ some es
      → All (λ e. is_plain e.0 ≡ true) es
  pub shown :
      (root name : Str)
      → is_plain name ≡ true
      → fs.exists (fs.skill_file root name) ≡ true
      → is_listed name (fs.list_dir root) ≡ true

module _ (fs : Fs) where
  pub has_skill-append :
      (n : Str) (over : List Str) (xs ys : List SkillInfo)
      → has_skill fs n over (xs ++ ys) ≡ (has_skill fs n over xs || has_skill fs n over ys)
  unfolding has_skill
  has_skill-append n over [] ys = refl
  has_skill-append n over (x ∷ xs) ys = ground (arith, has_skill-append n over xs ys)

  pub has_skill-cons :
      (n src : Str) (over : List Str) (xs : List SkillInfo)
      → has_skill fs n over xs ≡ true
      → has_skill fs n (src ∷ over) xs ≡ true
  unfolding has_skill
  has_skill-cons n src over [] h = h
  has_skill-cons n src over (x ∷ xs) h = ground (arith, has_skill-cons n src over xs)

  -- What was found stays found.
  pub add_entry-kept :
      (n src : Str) (over sources : List Str) (root m : Str) (d : Bool) (xs : List SkillInfo)
      → has_skill fs n sources xs ≡ true
      → has_skill fs n sources (add_entry fs src over root m d xs) ≡ true
  unfolding add_entry
  add_entry-kept n src over sources root m d xs h =
      ground (arith, has_skill-append n sources xs (info_of fs src root m ∷ []))

  pub add_entries-kept :
      (n src : Str) (over sources : List Str) (root : Str) (es : List (Str × Bool))
      (xs : List SkillInfo)
      → has_skill fs n sources xs ≡ true
      → has_skill fs n sources (add_entries fs src over root es xs) ≡ true
  unfolding add_entries
  add_entries-kept n src over sources root [] xs h = h
  add_entries-kept n src over sources root ((m, d) ∷ es) xs h =
      add_entries-kept n src over sources root es (add_entry fs src over root m d xs)
        (add_entry-kept n src over sources root m d xs h)

  info_of-found :
      (n src : Str) (over : List Str) (root : Str)
      → has_skill fs n (src ∷ over) (info_of fs src root n ∷ []) ≡ true
  unfolding has_skill info_of
  info_of-found n src over root = ground (arith, str_eq_refl n, str_eq_refl src)

  -- A directory with a SKILL.md is found afterwards, in this source or in one that goes before.
  add_entry-found :
      (n src : Str) (over : List Str) (root : Str) (xs : List SkillInfo)
      → fs.exists (fs.skill_file root n) ≡ true
      → has_skill fs n (src ∷ over) (add_entry fs src over root n true xs) ≡ true
  unfolding add_entry
  add_entry-found n src over root xs h = elim (Bool-cases (has_skill fs n over xs)) [
    | inl e ↦ rw (h, e) (has_skill-cons n src over xs e)
    | inr e ↦
        rw (h, e)
          (has_skill-append n (src ∷ over) xs (info_of fs src root n ∷ [])
            ∙ ground (arith, info_of-found n src over root))
  ]

  add_entries-found :
      (n src : Str) (over : List Str) (root : Str) (es : List (Str × Bool)) (xs : List SkillInfo)
      → fs.exists (fs.skill_file root n) ≡ true
      → any (λ e. str_eq e.0 n && e.1) es ≡ true
      → has_skill fs n (src ∷ over) (add_entries fs src over root es xs) ≡ true
  unfolding add_entries
  add_entries-found n src over root [] xs h l = cc
  add_entries-found n src over root ((m, d) ∷ es) xs h l = elim (Bool-cases (str_eq m n && d)) [
    | inl e ↦
        add_entries-kept n src over (src ∷ over) root es (add_entry fs src over root m d xs)
          (found_as m d ((str_eq_iff m n).0 (ground arith)) (ground arith))
    | inr e ↦
        add_entries-found n src over root es (add_entry fs src over root m d xs) h (ground arith)
  ]
    where
      found_as :
          (m : Str) (d : Bool)
          → m ≡ n
          → d ≡ true
          → has_skill fs n (src ∷ over) (add_entry fs src over root m d xs) ≡ true
      found_as m d e f = rw (e, f) (add_entry-found n src over root xs h)

  -- A root is live for a name if the name has a SKILL.md there.
  abbrev pub live : Str → Str → Bool
  live root n = not (str_eq root []) && fs.exists (fs.skill_file root n)

  pub add_root-kept :
      (n src : Str) (over sources : List Str) (root : Str) (xs : List SkillInfo)
      → has_skill fs n sources xs ≡ true
      → has_skill fs n sources (add_root fs src over root xs) ≡ true
  unfolding add_root add_listed
  add_root-kept n src over sources root xs h = elim (Option-cases (fs.list_dir root)) [
    | inl e ↦ rw e (ground (arith, h))
    | inr (es, e) ↦ rw e (ground (arith, add_entries-kept n src over sources root es xs h))
  ]

  pub add_root-found :
      (n src : Str) (over : List Str) (root : Str) (xs : List SkillInfo)
      → IsSteady fs
      → is_plain n ≡ true
      → live root n ≡ true
      → has_skill fs n (src ∷ over) (add_root fs src over root xs) ≡ true
  unfolding add_root add_listed
  add_root-found n src over root xs steady p h =
      let listed = steady.shown root n p (ground arith) in
      elim (Option-cases (fs.list_dir root)) [
        | inl e ↦ ground (arith, listed, e)
        | inr (es, e) ↦ rw e (ground (arith, add_entries-found n src over root es xs, listed, e))
      ]

  pub read_from-live : (root n : Str) → IsSteady fs → is_some (read_from fs root n) ≡ live root n
  unfolding read_from
  read_from-live root n steady = ground (arith, steady.readable (fs.skill_file root n))
