-- ===== src/Agent/Preview.antt =====
-- src/agent/events.js: what a client is shown of the result of a tool, `toolResultPreview`.
pub mod Bounds
mod Tests
use agent_pod.Base.{
  ℕ, ◌+◌, String, List, [], ◌∷◌, ◌++◌, Option, none, some, Bool, true, false, not, ◌&&◌, ◌||◌,
  if◌then◌else◌, ltb, leb, ◌==◌, str_eq, length, take,
}
use agent_pod.Base.Text
use agent_pod.Base.Text.{Text, is_space}

pub data ResultPart : Type 0 where
  text_part : Text → ResultPart
  image_part : (content : Text) (mime_type : String) → ResultPart
  -- A part of another type, which its name is shown for.
  other_part : Text → ResultPart

-- `result.content` where it is a list, or else the result as JSON.
pub data Result : Type 0 where
  parts : List ResultPart → Result
  other_result : Text → Result

pub record Image : Type 0 where
  pub mime_type : String
  pub content : Text

pub record Preview : Type 0 where
  pub preview : Text
  pub preview_truncated : Bool
  pub result_length : Option ℕ
  pub images : List Image

abbrev pub tool_preview_max : ℕ
tool_preview_max = 4000

abbrev pub max_images_per_result : ℕ
max_images_per_result = 4

abbrev pub max_image_base64 : ℕ
max_image_base64 = 1500000

-- `ALLOWED_IMAGE_MIME.has`
abbrev pub is_allowed_mime : String → Bool
is_allowed_mime m =
    str_eq m "image/png"
    || (str_eq m "image/jpeg" || (str_eq m "image/webp" || str_eq m "image/gif"))

abbrev is_base64_char : ℕ → Bool
is_base64_char c =
    (leb 65 c && leb c 90)
    || ((leb 97 c && leb c 122)
        || ((leb 48 c && leb c 57) || (c == 43 || (c == 47 || (c == 61 || is_space c)))))

unfoldable pub all_base64 : Text → Bool
all_base64 [] = true
all_base64 (c ∷ s) = is_base64_char c && all_base64 s

-- `BASE64_RE`: one character or more.
abbrev pub is_base64 : Text → Bool
is_base64 [] = false
is_base64 (c ∷ s) = all_base64 (c ∷ s)

-- `part.mimeType || 'image/png'`
abbrev pub mime_of : String → String
mime_of m = if str_eq m "" then "image/png" else m

abbrev pub is_usable : String → Text → Bool
is_usable mime content = is_allowed_mime mime && is_base64 content

-- One image, the list of those before it, and how many were left out.
abbrev pub add_image : String → Text → List Image × ℕ → List Image × ℕ
add_image mime content (images, skipped) =
    if not (is_usable mime content)
      || (leb max_images_per_result (length images) || ltb max_image_base64 (length content))
    then (images, skipped + 1)
    else (images ++ record { mime_type = mime; content = content } ∷ [], skipped)

-- `collectImages`, from what it has so far.
unfoldable pub collect_images : List ResultPart → List Image × ℕ → List Image × ℕ
collect_images [] acc = acc
collect_images (image_part [] mime ∷ ps) acc = collect_images ps acc
collect_images (image_part (c ∷ s) mime ∷ ps) acc =
    collect_images ps (add_image (mime_of mime) (c ∷ s) acc)
collect_images (text_part t ∷ ps) acc = collect_images ps acc
collect_images (other_part t ∷ ps) acc = collect_images ps acc

abbrev pub line_of : ResultPart → Text
line_of (text_part t) = t
line_of (image_part content mime) = []
line_of (other_part t) = 91 ∷ (t ++ 93 ∷ [])

-- The lines that are not empty.
unfoldable pub lines_of : List ResultPart → List Text
lines_of [] = []
lines_of (p ∷ ps) = elim (line_of p) [ [] ↦ lines_of ps | c ∷ s ↦ (c ∷ s) ∷ lines_of ps ]

abbrev pub text_of : Result → Text
text_of (other_result t) = t
text_of (parts ps) = Text.join (10 ∷ []) (lines_of ps)

abbrev pub images_of : Result → List Image × ℕ
images_of (other_result t) = ([], 0)
images_of (parts ps) = collect_images ps ([], 0)

-- The text, and under it how many images are left out.
abbrev pub with_note : (note : ℕ → Text) → ℕ → Text → Text
with_note note skipped text =
    if skipped == 0 then text else text ++ (elim text [ [] ↦ [] | c ∷ s ↦ 10 ∷ [] ] ++ note skipped)

abbrev pub cut : Text → List Image → Preview
cut text images =
    if leb (length text) tool_preview_max
    then record { preview = text; preview_truncated = false; result_length = none; images = images }
    else record {
      preview = take tool_preview_max text;
      preview_truncated = true;
      result_length = some (length text);
      images = images;
    }

-- `toolResultPreview` of a result that there is; `note` is the sentence on the images left out.
unfoldable pub tool_result_preview : (note : ℕ → Text) → Result → Preview
tool_result_preview note r = cut (with_note note (images_of r).1 (text_of r)) (images_of r).0
