-- ===== src/Agent/Skills.antt =====
-- src/agent/run-service.js and src/agent/skills.js: which skills a turn has, the platform's and the
-- user's own, less those that the user turned off.
-- What is read from the disk and from the settings is an argument.
pub mod Choice
mod Tests
use agent_pod.Base.{
  String, List, [], ◌∷◌, ◌++◌, Option, none, some, Bool, true, false, not, if◌then◌else◌, keep, map,
  some_of, str_eq,
}

-- An empty text where a field is missing.
pub record Skill : Type 0 where
  pub name : String
  pub display_name : String
  pub emoji : String
  pub description : String

-- What `disabledNames` answers.
pub data Disabled : Type 0 where
  no_manager : Disabled
  unreadable : Disabled
  names : List String → Disabled

-- `Set.has`
abbrev pub contains : String → List String → Bool
contains n = some_of (λ m. str_eq m n)

abbrev pub names_of : List Skill → List String
names_of = map (λ s. s.name)

-- `selectSkills`; no list is no bound.
unfoldable pub select_skills : Option (List String) → List Skill → List Skill
select_skills none skills = skills
select_skills (some allowlist) skills = keep (λ s. contains s.name allowlist) skills

-- `mergeSkills`
unfoldable pub merge_skills : List Skill → List Skill → List Skill
merge_skills platform [] = platform
merge_skills platform (p ∷ ps) =
    let mine = names_of (p ∷ ps) in keep (λ s. not (contains s.name mine)) platform ++ p ∷ ps

-- `applyDisabled`
unfoldable pub apply_disabled : Disabled → List Skill → List Skill
apply_disabled no_manager skills = skills
apply_disabled unreadable skills = skills
apply_disabled (names []) skills = skills
apply_disabled (names (d ∷ ds)) skills =
    let allowlist = names_of (keep (λ s. not (contains s.name (d ∷ ds))) skills) in
    select_skills (some allowlist) skills

-- The skills that `execute` gives to the turn.
unfoldable pub usable : Disabled → List Skill → List Skill → List Skill
usable disabled platform personal = apply_disabled disabled (merge_skills platform personal)

pub data Scope : Type 0 where
  platform : Scope
  personal : Scope

pub record Shown : Type 0 where
  pub skill : Skill
  pub scope : Scope
  pub enabled : Bool

-- `describeSkills`
abbrev pub described : Skill → Skill
described s = record s {
  display_name = if str_eq s.display_name "" then s.name else s.display_name;
}

abbrev pub is_disabled : Disabled → String → Bool
is_disabled no_manager n = false
is_disabled unreadable n = false
is_disabled (names ds) n = contains n ds

abbrev pub shown : Disabled → Scope → Skill → Shown
shown disabled scope s = record {
  skill = described s;
  scope = scope;
  enabled = not (is_disabled disabled s.name);
}

-- `listSkills`, for a user.
unfoldable pub list_skills : Disabled → List Skill → List Skill → List Shown
list_skills disabled from_platform mine =
    map (shown disabled platform) from_platform ++ map (shown disabled personal) mine
