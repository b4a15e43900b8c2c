-- ===== src/Agent/Skills/Tests.antt =====
-- The theorem on the skills at concrete lists.
use agent_pod.Base.{◌≡◌, refl, String, List, [], ◌∷◌, none, if◌then◌else◌}
use agent_pod.Agent.Skills.{
  Skill, names, usable, is_disabled, merge_skills, apply_disabled, select_skills,
}
use agent_pod.Agent.Skills.Choice.{named, or_else, named-usable}

abbrev skill : String → String → Skill
skill name description = record {
  name = name;
  display_name = "";
  emoji = "";
  description = description;
}

abbrev platform : List Skill
platform = skill "mail" "theirs" ∷ skill "chart" "theirs" ∷ []

abbrev mine : List Skill
mine = skill "mail" "mine" ∷ []

named-usable_example : named "mail" (usable (names ("chart" ∷ [])) platform mine) ≡ (
    if is_disabled (names ("chart" ∷ [])) "mail"
    then none
    else or_else (named "mail" mine) (named "mail" platform))
named-usable_example = named-usable "mail" (names ("chart" ∷ [])) platform mine

own_one : usable (names ("chart" ∷ [])) platform mine ≡ mine
unfolding usable apply_disabled select_skills merge_skills
own_one = refl
