-- ===== src/Agent/Skills/Choice.antt =====
-- src/agent/run-service.js: by its name, which skill a turn has.
use agent_pod.Base.{
  ◌≡◌, refl, ap, ◌∙◌, String, List, [], ◌∷◌, ◌++◌, Option, none, some, Bool, true, false, not,
  if◌then◌else◌, arith, keep, find, str_eq, eq_iff,
}
use agent_pod.Agent.Skills.{
  Skill, Disabled, no_manager, unreadable, names, contains, names_of, select_skills, merge_skills,
  apply_disabled, usable, is_disabled,
}

-- The skill with a name, the first of the list.
abbrev pub named : String → List Skill → Option Skill
named n = find (λ s. str_eq s.name n)

abbrev pub or_else : Option Skill → Option Skill → Option Skill
or_else none other = other
or_else (some s) other = some s

named-append :
    (n : String) (xs ys : List Skill) → named n (xs ++ ys) ≡ or_else (named n xs) (named n ys)
named-append n [] ys = refl
named-append n (x ∷ xs) ys = ground (arith, named-append n xs ys)

-- A test that looks at the name only.
named-keep :
    (p : String → Bool) (n : String) (xs : List Skill)
    → named n (keep (λ s. p s.name) xs) ≡ (if p n then named n xs else none)
named-keep p n [] = ground arith
named-keep p n (x ∷ xs) = ground (arith, named-keep p n xs, eq_iff x.name n)

contains-named :
    (n : String) (xs : List Skill)
    → contains n (names_of xs) ≡ (elim (named n xs) [ none ↦ false | some s ↦ true ])
contains-named n [] = refl
contains-named n (x ∷ xs) = ground (arith, contains-named n xs)

named-merge_skills :
    (n : String) (platform personal : List Skill)
    → named n (merge_skills platform personal) ≡ or_else (named n personal) (named n platform)
unfolding merge_skills
named-merge_skills n platform [] = refl
named-merge_skills n platform (p ∷ ps) =
    rw
      (
        named-append n (keep (λ s. not (contains s.name (names_of (p ∷ ps)))) platform) (p ∷ ps),
        named-keep (λ m. not (contains m (names_of (p ∷ ps)))) n platform,
      )
      (ground (arith, contains-named n (p ∷ ps)))

-- The allowlist is of the names that are left on.
contains-keep :
    (p : String → Bool) (n : String) (xs : List Skill)
    → p n ≡ false
    → contains n (names_of (keep (λ s. p s.name) xs)) ≡ false
contains-keep p n xs h = rw (contains-named, named-keep p n xs, h) refl

named-apply_names :
    (n : String) (ds : List String) (xs : List Skill)
    → named n (select_skills (some (names_of (keep (λ s. not (contains s.name ds)) xs))) xs)
      ≡ (if contains n ds then none else named n xs)
unfolding select_skills
named-apply_names n ds xs =
    let allow = names_of (keep (λ s. not (contains s.name ds)) xs) in
    let c = contains-named n (keep (λ s. not (contains s.name ds)) xs) in
    let k = named-keep (λ m. not (contains m ds)) n xs in
    rw (named-keep (λ m. contains m allow) n xs, c, k) (ground arith)

named-apply_disabled :
    (n : String) (d : Disabled) (xs : List Skill)
    → named n (apply_disabled d xs) ≡ (if is_disabled d n then none else named n xs)
unfolding apply_disabled
named-apply_disabled n no_manager xs = refl
named-apply_disabled n unreadable xs = refl
named-apply_disabled n (names []) xs = refl
named-apply_disabled n (names (d ∷ ds)) xs = named-apply_names n (d ∷ ds) xs

-- Under each name a turn has the skill of the user where the user has one of that name, else the
-- platform's, and none where the user turned that name off; a list of names that is missing or
-- cannot be read turns none off.
pub named-usable :
    (n : String) (d : Disabled) (platform personal : List Skill)
    → named n (usable d platform personal)
      ≡ (if is_disabled d n then none else or_else (named n personal) (named n platform))
unfolding usable
named-usable n d platform personal =
    named-apply_disabled n d (merge_skills platform personal)
    ∙ ap (λ x. if is_disabled d n then none else x) (named-merge_skills n platform personal)
