-- ===== src/Agent/Runs/Resume.antt =====
-- src/agent/run-registry.js: what a client gets that comes back with the number of the last frame
-- that it has seen.
use native.Mathlib.Nat.{add_assoc}
use mathlib.Core.List.{append-nil, append_assoc}
use agent_pod.Base.{
  ℕ, zero, suc, ◌+◌, ◌-◌, ◌≤◌, ◌≡◌, refl, ap, ◌∙◌, subst, String, List, [], ◌∷◌, ◌++◌, Bool, true,
  false, if◌then◌else◌, arith, ltb, leb, leb→le, length, keep, drop, drop-drop, Bool-cases, inl,
  inr,
}
use agent_pod.Agent.Runs.{Limits, Frame, Run, push, new_run, oldest_seq, is_gapped, Resumed, resume}
use agent_pod.Agent.Runs.Stream.{
  total, Numbered, IsBacked, next_frame, push_dropped, push-IsBacked, push_limits,
}

-- A frame that the run is given: its kind, its text and the length of that.
abbrev pub Sent : Type 0
Sent = String × String × ℕ

-- The frames that should reach a client: all that was given, numbered from `n`.
abbrev pub frames_of : ℕ → List Sent → List Frame
frames_of n [] = []
frames_of n (s ∷ ss) =
    record { seq = n; kind = s.0; text = s.1; bytes = s.2 } ∷ frames_of (n + 1) ss

unfoldable pub push_all : Limits → List Sent → Run → Run
push_all o [] r = r
push_all o (s ∷ ss) r = push_all o ss (push o r s.0 s.1 s.2)

dropped_all : Limits → List Sent → Run → ℕ
dropped_all o [] r = 0
dropped_all o (s ∷ ss) r = push_dropped o r s.0 s.1 s.2 + dropped_all o ss (push o r s.0 s.1 s.2)

Numbered-drop : (n k : ℕ) (h : List Frame) → Numbered n h → Numbered (k + n) (drop k h)
Numbered-drop n zero h v = let e : zero + n ≡ n = omega arith in rw e v
Numbered-drop n (suc k) [] v = tt
Numbered-drop n (suc k) (f ∷ h) v =
    let e : suc k + n ≡ k + suc n = omega arith in rw e (Numbered-drop (suc n) k h v.1)

-- The frames with a number above `from` are what stands behind the first of them.
keep-Numbered :
    (n from : ℕ) (h : List Frame)
    → Numbered n h
    → keep (λ f. ltb from f.seq) h ≡ drop (from + 1 - n) h
keep-Numbered n from [] v = drop_empty (from + 1 - n)
  where
    drop_empty : (i : ℕ) → [] ≡ drop {A = Frame} i []
    drop_empty zero = refl
    drop_empty (suc i) = refl
keep-Numbered n from (f ∷ h) v = elim (Bool-cases (ltb from f.seq)) [
  | inl e ↦
      let now : from + 1 - n ≡ 0 = ground (arith, v.0) in
      let later : from + 1 - suc n ≡ 0 = ground (arith, v.0) in
      rw (e, now) (ap (◌∷◌ f) (keep-Numbered (suc n) from h v.1 ∙ ap (λ i. drop i h) later))
  | inr e ↦
      let on : from + 1 - n ≡ suc (from + 1 - suc n) = ground (arith, v.0) in
      rw (e, on) (keep-Numbered (suc n) from h v.1)
]

oldest_seq-drop :
    (n k : ℕ) (h : List Frame)
    → Numbered n h
    → k ≤ length h
    → oldest_seq (drop k h) (length h + n) ≡ k + n
oldest_seq-drop n zero [] v l = refl
oldest_seq-drop n zero (f ∷ h) v l = omega (arith, v.0)
oldest_seq-drop n (suc k) [] v l = absurd (omega arith)
oldest_seq-drop n (suc k) (f ∷ h) v l =
    let e : suc (length h) + n ≡ length h + suc n = omega arith in
    rw e (omega (arith, oldest_seq-drop (suc n) k h v.1 (omega arith)))

module _ (h : List Frame) (k : ℕ) (r : Run) (v : IsBacked h k r) (from : ℕ) where
  gapped-lt : is_gapped r from ≡ ltb from k
  gapped-lt =
      let oldest : oldest_seq r.frames r.next_seq ≡ k + 1 =
        rw (v.suffix, v.next) (oldest_seq-drop 1 k h v.numbered v.dropped) in
      ground (arith, v.marked, oldest)

  replay_rest : k ≤ from → keep (λ f. ltb from f.seq) r.frames ≡ drop from h
  replay_rest l =
      ap (keep (λ f. ltb from f.seq)) v.suffix
      ∙ keep-Numbered (k + 1) from (drop k h) (Numbered-drop 1 k h v.numbered)
      ∙ drop-drop (from + 1 - (k + 1)) k h
      ∙ ap (λ i. drop i h) (omega arith)

  -- The frames behind the one that the client has seen last, or, exactly if one of those was
  -- dropped, nothing but the word that there is a gap.
  pub resume_lem : resume r from ≡ (
      if leb k from
      then record { replay = drop from h; truncated = false; done = r.done }
      else record { replay = []; truncated = true; done = r.done })
  unfolding resume
  resume_lem = elim (Bool-cases (leb k from)) [
    | inl e ↦
        let here : k ≤ from = leb→le _ _ e in
        let whole : is_gapped r from ≡ false = gapped-lt ∙ (ground arith) in
        rw e (
          ap answer whole
          ∙ ap (λ fs. record { replay = fs; truncated = false; done = r.done }) (replay_rest here))
    | inr e ↦ let gap : is_gapped r from ≡ true = gapped-lt ∙ (ground arith) in rw e (ap answer gap)
  ]
    where
      answer : Bool → Resumed
      answer g = record {
        replay = if g then [] else keep (λ f. ltb from f.seq) r.frames;
        truncated = g;
        done = r.done;
      }

module _ (o : Limits) where
  push_all-IsBacked :
      (ss : List Sent) (h : List Frame) (k : ℕ) (r : Run)
      → IsBacked h k r
      → IsBacked (h ++ frames_of r.next_seq ss) (k + dropped_all o ss r) (push_all o ss r)
  unfolding push_all dropped_all push
  push_all-IsBacked [] h k r v = let e : k + 0 ≡ k = omega arith in rw (append-nil, e) v
  push_all-IsBacked (s ∷ ss) h k r v =
      let f = next_frame o r s.0 s.1 s.2 in
      let r' = push o r s.0 s.1 s.2 in
      let d = push_dropped o r s.0 s.1 s.2 in
      subst (λ g. IsBacked g (k + (d + dropped_all o ss r')) (push_all o ss r'))
        (append_assoc h (f ∷ []) (frames_of (r.next_seq + 1) ss))
        (subst (λ i. IsBacked ((h ++ f ∷ []) ++ frames_of (r.next_seq + 1) ss) i (push_all o ss r'))
          (add_assoc k d (dropped_all o ss r'))
          (push_all-IsBacked ss (h ++ f ∷ []) (k + d) r' (push-IsBacked o h k r v s.0 s.1 s.2)))

  push_all-done : (ss : List Sent) (r : Run) → (push_all o ss r).done ≡ r.done
  unfolding push_all push
  push_all-done [] r = refl
  push_all-done (s ∷ ss) r = push_all-done ss (push o r s.0 s.1 s.2)

  new_run-IsBacked :
      (run_id username session_key : String) (at : ℕ)
      → IsBacked [] 0 (new_run run_id username session_key at)
  new_run-IsBacked run_id username session_key at = record {
    dropped = omega arith;
    suffix = refl;
    marked = refl;
    next = refl;
    size = refl;
    numbered = tt;
  }

  -- However many frames a run was given, a client that comes back with the number of the last frame
  -- that it has seen gets exactly the frames behind that one, in order; or, exactly if one of them
  -- is no longer kept (`k` frames were dropped, the oldest first), it gets none and is told so.
  pub resume-frames :
      (run_id username session_key : String) (at : ℕ) (ss : List Sent) (from : ℕ)
      → let r = push_all o ss (new_run run_id username session_key at) in
        let h = frames_of 1 ss in
        (k : ℕ) × (k ≤ length h)
        × (r.frames ≡ drop k h)
        × (resume r from ≡ (
            if leb k from
            then record { replay = drop from h; truncated = false; done = false }
            else record { replay = []; truncated = true; done = false }))
  resume-frames run_id username session_key at ss from =
      let r = new_run run_id username session_key at in
      let v = push_all-IsBacked ss [] 0 r (new_run-IsBacked run_id username session_key at) in
      let d = push_all-done ss r in
      let k = 0 + dropped_all o ss r in
      (
        k,
        v.dropped,
        v.suffix,
        subst
            (λ b. resume (push_all o ss r) from ≡ (
              if leb k from
              then record { replay = drop from (frames_of 1 ss); truncated = false; done = b }
              else record { replay = []; truncated = true; done = b }))
            d (resume_lem (frames_of 1 ss) k (push_all o ss r) v from),
      )

  kept :
      (ts : List Sent) (h : List Frame) (k : ℕ) (r : Run)
      → IsBacked h k r
      → (length r.frames ≤ o.max_frames_per_run) × (r.bytes ≤ o.max_bytes_per_run)
      → (length (push_all o ts r).frames ≤ o.max_frames_per_run)
        × ((push_all o ts r).bytes ≤ o.max_bytes_per_run)
  unfolding push_all
  kept [] h k r v l = l
  kept (s ∷ ts) h k r v l =
      kept ts (h ++ next_frame o r s.0 s.1 s.2 ∷ []) (k + push_dropped o r s.0 s.1 s.2)
        (push o r s.0 s.1 s.2) (push-IsBacked o h k r v s.0 s.1 s.2)
        (push_limits o h k r v s.0 s.1 s.2)

  -- What a run keeps is within both limits after every frame, and its account of bytes is the sum
  -- over the frames kept.
  pub push_all-limits :
      (run_id username session_key : String) (at : ℕ) (ss : List Sent)
      → let r = push_all o ss (new_run run_id username session_key at) in
        (length r.frames ≤ o.max_frames_per_run)
        × (r.bytes ≤ o.max_bytes_per_run)
        × (r.bytes ≡ total r.frames)
  push_all-limits run_id username session_key at ss =
      let r = new_run run_id username session_key at in
      let v = push_all-IsBacked ss [] 0 r (new_run-IsBacked run_id username session_key at) in
      let l = kept ss [] 0 r (new_run-IsBacked run_id username session_key at) (omega arith) in
      (l.0, l.1, v.size)
