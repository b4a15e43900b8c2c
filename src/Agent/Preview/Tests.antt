-- ===== src/Agent/Preview/Tests.antt =====
-- The bounds of a preview at a concrete result.
use agent_pod.Base.{◌≡◌, refl, [], ◌∷◌, none, false}
use agent_pod.Base.Text
use agent_pod.Agent.Preview.{
  Result, parts, text_part, image_part, other_part, tool_result_preview, collect_images, all_base64,
  lines_of,
}

-- A text, an image, one of a type that is not let through, and a part of another type.
abbrev result : Result
result = parts (
    text_part (72 ∷ [])
    ∷ image_part (65 ∷ 61 ∷ []) ""
    ∷ image_part (65 ∷ []) "text/html"
    ∷ other_part (120 ∷ [])
    ∷ [])

-- One image is shown, and the note says that one is not.
preview_test : tool_result_preview (λ n. n ∷ []) result ≡ record {
  preview = 72 ∷ 10 ∷ 91 ∷ 120 ∷ 93 ∷ 10 ∷ 1 ∷ [];
  preview_truncated = false;
  result_length = none;
  images = record { mime_type = "image/png"; content = 65 ∷ 61 ∷ [] } ∷ [];
}
unfolding tool_result_preview collect_images all_base64 lines_of Text.join
preview_test = refl
