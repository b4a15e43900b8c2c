-- ===== src/Agent/Preview/Bounds.antt =====
-- src/agent/events.js: the bounds of `toolResultPreview`.
use agent_pod.Base.{
  ℕ, zero, suc, ◌+◌, some, none, ◌≤◌, ◌≡◌, List, [], ◌∷◌, ◌++◌, take, if◌then◌else◌, Bool, true,
  false, ltb, length, keep, All,
}
use agent_pod.Base.Text.{Text}
use agent_pod.Agent.Preview.{
  ResultPart, image_part, Result, parts, other_result, Image, Preview, is_usable,
}

-- Whether a part is an image that has some content.
abbrev pub has_image : ResultPart → Bool
has_image (image_part (c ∷ s) mime) = true
has_image _ = false

abbrev pub IsShown : Image → Type 0
IsShown i = (is_usable i.mime_type i.content ≡ true) × (length i.content ≤ 1500000)

abbrev pub AreShown : List Image × ℕ → Type 0
AreShown r = All IsShown r.0 × (length r.0 ≤ 4)

abbrev total : List Image × ℕ → ℕ
total r = length r.0 + r.1

abbrev pub image_parts : Result → ℕ
image_parts (other_result t) = 0
image_parts (parts ps) = length (keep has_image ps)

-- The text of a result, and under it the note on so many images that are left out.
abbrev pub noted : (note : ℕ → Text) → Text → ℕ → Text
noted note text zero = text
noted note [] (suc n) = note (suc n)
noted note (c ∷ s) (suc n) = (c ∷ s) ++ (10 ∷ note (suc n))

-- What the cut of a text shows, and what it says of the rest.
abbrev pub IsCut : Text → Preview → Type 0
IsCut text p =
    (length p.preview ≤ 4000)
    × (p.preview ≡ take 4000 text)
    × (p.preview_truncated ≡ ltb 4000 (length text))
    × (p.result_length ≡ (if ltb 4000 (length text) then some (length text) else none))
