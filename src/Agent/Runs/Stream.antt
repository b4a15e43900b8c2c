-- ===== src/Agent/Runs/Stream.antt =====
-- src/agent/run-registry.js: a client that comes back gets every frame that it has not seen, or is
-- told that it cannot.
use agent_pod.Base.{
  ℕ, suc, ◌+◌, ◌-◌, ◌≤◌, ◌≡◌, refl, sym, ap, ◌∙◌, String, List, [], ◌∷◌, ◌++◌, Bool, true, false,
  if◌then◌else◌, arith, ltb, ◌||◌, length, drop, drop-append, drop-drop, Bool-cases, inl, inr,
  length-append, length-drop,
}
use agent_pod.Agent.Runs.{Limits, Frame, Run, trim_loop, push}

abbrev pub total : List Frame → ℕ
total [] = 0
total (f ∷ fs) = f.bytes + total fs

abbrev pub Numbered : ℕ → List Frame → Type 0
Numbered n [] = Unit {0}
Numbered n (f ∷ fs) = (f.seq ≡ n) × Numbered (suc n) fs

-- The run holds what is left of the frames `h` after the first `k` were dropped.
pub record IsBacked (h : List Frame) (k : ℕ) (r : Run) : Type 0 where
  pub dropped : k ≤ length h
  pub suffix : r.frames ≡ drop k h
  pub marked : r.truncated ≡ ltb 0 k
  pub next : r.next_seq ≡ length h + 1
  pub size : r.bytes ≡ total r.frames
  pub numbered : Numbered 1 h

either : (k j : ℕ) → (ltb 0 k || ltb 0 j) ≡ ltb 0 (k + j)
either k j = ground arith

module _ (o : Limits) where
  -- What the loop of `trim` leaves, with the number of frames that it dropped.
  record IsTrimmed (fs : List Frame) (t : Bool) (j : ℕ) (out : List Frame × ℕ × Bool) : Type 0 where
    fits : j ≤ length fs
    left : out.0 ≡ drop j fs
    bytes_left : out.1 ≡ total out.0
    mark : out.2 ≡ (t || ltb 0 j)
    few : length out.0 ≤ o.max_frames_per_run
    light : out.1 ≤ o.max_bytes_per_run

  -- How many frames the loop drops.
  trimmed : List Frame → ℕ → ℕ
  trimmed [] bytes = 0
  trimmed (f ∷ fs) bytes =
      let more = suc (trimmed fs (bytes - f.bytes)) in
      if ltb o.max_frames_per_run (length (f ∷ fs)) || ltb o.max_bytes_per_run bytes
      then more
      else 0

  or_false : (t : Bool) → t ≡ (t || false)
  or_false true = refl
  or_false false = refl

  IsTrimmed-suc :
      (f : Frame) (fs : List Frame) (t : Bool) (j : ℕ) (out : List Frame × ℕ × Bool)
      → IsTrimmed fs true j out
      → IsTrimmed (f ∷ fs) t (suc j) out
  IsTrimmed-suc f fs t j out v = record {
    fits = omega (arith, v.fits);
    left = v.left;
    bytes_left = v.bytes_left;
    mark = ground (arith, v.mark);
    few = v.few;
    light = v.light;
  }

  trim_loop-IsTrimmed :
      (fs : List Frame) (bytes : ℕ) (t : Bool)
      → bytes ≡ total fs
      → IsTrimmed fs t (trimmed fs bytes) (trim_loop o fs bytes t)
  unfolding trim_loop trimmed
  trim_loop-IsTrimmed [] bytes t h = record {
    fits = omega arith;
    left = refl;
    bytes_left = h;
    mark = or_false t;
    few = omega arith;
    light = omega arith;
  }
  trim_loop-IsTrimmed (f ∷ fs) bytes t h =
      elim (Bool-cases
        (ltb o.max_frames_per_run (length (f ∷ fs)) || ltb o.max_bytes_per_run bytes)) [
          | inl e ↦
              let rest : bytes - f.bytes ≡ total fs = omega arith in
              rw e (IsTrimmed-suc f fs t _ _ (trim_loop-IsTrimmed fs (bytes - f.bytes) true rest))
          | inr e ↦ rw e (record {
            fits = omega arith;
            left = refl;
            bytes_left = h;
            mark = or_false t;
            few = ground arith;
            light = ground arith;
          })
        ]

  Numbered-append :
      (n : ℕ) (h : List Frame) (f : Frame)
      → Numbered n h
      → f.seq ≡ length h + n
      → Numbered n (h ++ f ∷ [])
  Numbered-append n [] f v e = (omega arith, tt)
  Numbered-append n (g ∷ h) f v e = (v.0, Numbered-append (suc n) h f v.1 (omega arith))

  total-append : (xs ys : List Frame) → total (xs ++ ys) ≡ total xs + total ys
  total-append [] ys = omega arith
  total-append (x ∷ xs) ys = omega (arith, total-append xs ys)

  -- The next frame of a run.
  abbrev pub next_frame : Run → String → String → ℕ → Frame
  next_frame r kind text bytes = record {
    seq = r.next_seq;
    kind = kind;
    text = text;
    bytes = bytes;
  }

  pub push_dropped : Run → String → String → ℕ → ℕ
  push_dropped r kind text bytes =
      trimmed (r.frames ++ next_frame r kind text bytes ∷ []) (r.bytes + bytes)

  module _ (h : List Frame) (k : ℕ) (r : Run) (v : IsBacked h k r) (kind text : String)
      (bytes : ℕ) where
    push-IsTrimmed :
        IsTrimmed
          (r.frames ++ next_frame r kind text bytes ∷ [])
          r.truncated
          (push_dropped r kind text bytes)
          (trim_loop o
            (r.frames ++ next_frame r kind text bytes ∷ [])
            (r.bytes + bytes)
            r.truncated)
    unfolding push_dropped
    push-IsTrimmed =
        trim_loop-IsTrimmed _ (r.bytes + bytes) r.truncated
          (omega (arith, v.size, total-append r.frames (next_frame r kind text bytes ∷ [])))

    suffix_after :
        (j : ℕ)
        → drop j (r.frames ++ next_frame r kind text bytes ∷ [])
          ≡ drop (k + j) (h ++ next_frame r kind text bytes ∷ [])
    suffix_after j =
        ap (λ fs. drop j (fs ++ next_frame r kind text bytes ∷ [])) v.suffix
        ∙ ap (drop j) (sym (drop-append k h (next_frame r kind text bytes ∷ []) v.dropped))
        ∙ drop-drop j k (h ++ next_frame r kind text bytes ∷ [])

    -- One more frame: the history grows by it, and the oldest frames may be dropped.
    pub push-IsBacked :
        IsBacked
          (h ++ next_frame r kind text bytes ∷ [])
          (k + push_dropped r kind text bytes)
          (push o r kind text bytes)
    unfolding push
    push-IsBacked =
        let t = push-IsTrimmed in
        record {
          dropped = omega (
            arith,
            t.fits,
            v.dropped,
            length-append r.frames (next_frame r kind text bytes ∷ []),
            length-append h (next_frame r kind text bytes ∷ []),
            ap length v.suffix,
            length-drop k h,
          );
          suffix = t.left ∙ suffix_after (push_dropped r kind text bytes);
          marked =
              t.mark
              ∙ ap (λ b. b || ltb 0 (push_dropped r kind text bytes)) v.marked
              ∙ either k (push_dropped r kind text bytes);
          next = omega (arith, v.next, length-append h (next_frame r kind text bytes ∷ []));
          size = t.bytes_left;
          numbered = Numbered-append 1 h (next_frame r kind text bytes) v.numbered v.next;
        }

    pub push_limits :
        (length (push o r kind text bytes).frames ≤ o.max_frames_per_run)
        × ((push o r kind text bytes).bytes ≤ o.max_bytes_per_run)
    unfolding push
    push_limits = (push-IsTrimmed.few, push-IsTrimmed.light)
