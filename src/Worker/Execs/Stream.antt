-- ===== src/Worker/Execs/Stream.antt =====
-- sandbox-worker/src/exec-jobs.js: what a subscriber is sent of a job's frames.
use mathlib.Core.List.{append-nil, append_assoc}
use agent_pod.Base.{
  ℕ, zero, suc, ◌+◌, ◌-◌, ◌≤◌, ◌≡◌, refl, sym, ap, ◌∙◌, List, [], ◌∷◌, ◌++◌, some, true,
  if◌then◌else◌, arith, ltb, ◌==◌, length, last?, keep, drop, drop-append, map, Bool-cases, inl,
  inr,
}
use agent_pod.Worker.Execs.{
  is_running, Payload, Frame, Outcome, resolved, rejected, Job, Delivery, emit, settle, exit_of,
  finish, add_sink, subscribe,
}

abbrev pub Numbered : ℕ → List Frame → Type 0
Numbered n [] = Unit {0}
Numbered n (f ∷ fs) = (f.seq ≡ n) × Numbered (suc n) fs

-- The frames that one subscriber is sent.
abbrev pub heard : ℕ → List Delivery → List Frame
heard l [] = []
heard l ((x, f) ∷ ds) = if x == l then f ∷ heard l ds else heard l ds

-- How often a subscriber is in the set.
abbrev pub times : ℕ → List ℕ → ℕ
times l [] = 0
times l (x ∷ xs) = if x == l then suc (times l xs) else times l xs

unfoldable pub emit_all : List Payload → Job → Job × List Delivery
emit_all [] job = (job, [])
emit_all (p ∷ ps) job = let r = emit p job in let rest = emit_all ps r.0 in (rest.0, r.1 ++ rest.1)

-- What is left of a job's life: frames, and then the end.
unfoldable pub finish_run : List Payload → ℕ → Outcome → ℕ → Job → Job × List Delivery
finish_run ps at outcome ended job =
    let e = emit_all ps job in
    let s = settle at outcome e.0 in let f = finish ended s.0 in (f.0, e.1 ++ s.1 ++ f.1)

-- The job as the end of its command leaves it, before the last frame.
abbrev pub settled : List Payload → ℕ → Outcome → Job → Job
settled ps at outcome job = (settle at outcome (emit_all ps job).0).0

times-add_sink : (l : ℕ) (xs : List ℕ) → times l xs ≤ 1 → times l (add_sink l xs) ≡ 1
times-add_sink l [] h = ground arith
times-add_sink l (x ∷ xs) h = ground (arith, times-add_sink l xs)

heard-append : (l : ℕ) (ds es : List Delivery) → heard l (ds ++ es) ≡ heard l ds ++ heard l es
heard-append l [] es = refl
heard-append l ((x, f) ∷ ds) es = ground (arith, heard-append l ds es)

heard_zero :
    (l : ℕ) (f : Frame) (xs : List ℕ) → times l xs ≡ 0 → heard l (map (λ x. (x, f)) xs) ≡ []
heard_zero l f [] h = refl
heard_zero l f (x ∷ xs) h = ground (arith, heard_zero l f xs)

heard_once :
    (l : ℕ) (f : Frame) (xs : List ℕ) → times l xs ≡ 1 → heard l (map (λ x. (x, f)) xs) ≡ f ∷ []
heard_once l f [] h = absurd (omega arith)
heard_once l f (x ∷ xs) h = ground (arith, heard_once l f xs, heard_zero l f xs)

keep-Numbered :
    (n from : ℕ) (fs : List Frame)
    → Numbered n fs
    → keep (λ f. ltb from f.seq) fs ≡ drop (from + 1 - n) fs
keep-Numbered n from [] v = drop_empty (from + 1 - n)
  where
    drop_empty : (i : ℕ) → [] ≡ drop {A = Frame} i []
    drop_empty zero = refl
    drop_empty (suc i) = refl
keep-Numbered n from (f ∷ fs) v = elim (Bool-cases (ltb from f.seq)) [
  | inl e ↦
      let now : from + 1 - n ≡ 0 = ground (arith, v.0) in
      let later : from + 1 - suc n ≡ 0 = ground (arith, v.0) in
      rw (e, now) (ap (◌∷◌ f) (keep-Numbered (suc n) from fs v.1 ∙ ap (λ i. drop i fs) later))
  | inr e ↦
      let on : from + 1 - n ≡ suc (from + 1 - suc n) = ground (arith, v.0) in
      rw (e, on) (keep-Numbered (suc n) from fs v.1)
]

module _ (l : ℕ) where
  -- A step sends the subscriber exactly the frames that it adds.
  Sends : Job → Job × List Delivery → Type 0
  Sends job r = r.0.frames ≡ job.frames ++ heard l r.1

  emit-Sends : (p : Payload) (job : Job) → times l job.subscribers ≡ 1 → Sends job (emit p job)
  unfolding Sends emit
  emit-Sends p job t = ap (λ fs. job.frames ++ fs) (sym (heard_once l _ job.subscribers t))

  Sends-trans :
      (job mid last : Job) (ds es : List Delivery)
      → Sends job (mid, ds)
      → Sends mid (last, es)
      → Sends job (last, ds ++ es)
  unfolding Sends
  Sends-trans job mid last ds es v w =
      w
      ∙ ap (λ fs. fs ++ heard l es) v
      ∙ append_assoc job.frames (heard l ds) (heard l es)
      ∙ ap (λ fs. job.frames ++ fs) (sym (heard-append l ds es))

  emit_all-Sends :
      (ps : List Payload) (job : Job)
      → times l job.subscribers ≡ 1
      → Sends job (emit_all ps job) × (times l (emit_all ps job).0.subscribers ≡ 1)
  unfolding emit_all emit Sends
  emit_all-Sends [] job t = (sym (append-nil job.frames), t)
  emit_all-Sends (p ∷ ps) job t =
      let v = emit_all-Sends ps (emit p job).0 t in
      (
        Sends-trans job (emit p job).0 (emit_all ps (emit p job).0).0 (emit p job).1
            (emit_all ps (emit p job).0).1 (emit-Sends p job t) v.0,
        v.1,
      )

  settle-Sends :
      (at : ℕ) (o : Outcome) (job : Job)
      → times l job.subscribers ≡ 1
      → Sends job (settle at o job) × (times l (settle at o job).0.subscribers ≡ 1)
  unfolding settle Sends
  settle-Sends at (resolved result was_aborted) job t = (sym (append-nil job.frames), t)
  settle-Sends at (rejected code message) job t = (emit-Sends _ job t, t)

  finish-Sends : (at : ℕ) (job : Job) → times l job.subscribers ≡ 1 → Sends job (finish at job)
  unfolding finish Sends
  finish-Sends at job t = emit-Sends _ (record job { finished_at = at }) t

  finish_run-Sends :
      (ps : List Payload) (at : ℕ) (o : Outcome) (ended : ℕ) (job : Job)
      → times l job.subscribers ≡ 1
      → Sends job (finish_run ps at o ended job)
  unfolding finish_run
  finish_run-Sends ps at o ended job t =
      let e = emit_all-Sends ps job t in
      let mid = (emit_all ps job).0 in
      let s = settle-Sends at o mid e.1 in
      let done = (settle at o mid).0 in
      let f = finish ended done in
      Sends-trans job done f.0 ((emit_all ps job).1 ++ (settle at o mid).1) f.1
        (Sends-trans job mid done (emit_all ps job).1 (settle at o mid).1 e.0 s.0)
        (finish-Sends ended done s.1)

last-append : (fs : List Frame) (f : Frame) → last? (fs ++ f ∷ []) ≡ some f
last-append [] f = refl
last-append (x ∷ []) f = refl
last-append (x ∷ y ∷ fs) f = last-append (y ∷ fs) f

last_frame :
    (ended : ℕ) (job : Job)
    → (last? (finish ended job).0.frames
        ≡ some (record { seq = job.next_seq; payload = exit_of ended job }))
      × ((finish ended job).0.subscribers ≡ [])
unfolding finish emit
last_frame ended job = (last-append job.frames _, refl)

subscribe_running :
    (from l : ℕ) (job : Job)
    → is_running job.status ≡ true
    → Numbered 1 job.frames
    → subscribe from l job
      ≡ (record job { subscribers = add_sink l job.subscribers }, drop from job.frames)
unfolding subscribe
subscribe_running from l job r v =
    let e : from + 1 - 1 ≡ from = omega arith in
    rw (subscribe, r)
      (ap (λ fs. (record job { subscribers = add_sink l job.subscribers }, fs))
        (keep-Numbered 1 from job.frames v ∙ ap (λ i. drop i job.frames) e))

-- Where the frames of a running job are numbered from 1, and a subscriber is in the set at most
-- once, whoever subscribes with the number of the last frame that he has seen is sent, at once and
-- then as they come, every frame behind that one exactly once and in order, to the end of the
-- command; the last one is its exit frame, and nobody is subscribed any more.
pub subscribe-finish_run :
    (from l : ℕ) (ps : List Payload) (at : ℕ) (o : Outcome) (ended : ℕ) (job : Job)
    → is_running job.status ≡ true
    → Numbered 1 job.frames
    → times l job.subscribers ≤ 1
    → from ≤ length job.frames
    → let s = subscribe from l job in
      let f = finish_run ps at o ended s.0 in
      (s.1 ++ heard l f.1 ≡ drop from f.0.frames)
      × (last? f.0.frames
          ≡ some (record {
            seq = (settled ps at o s.0).next_seq;
            payload = exit_of ended (settled ps at o s.0);
          }))
      × (f.0.subscribers ≡ [])
unfolding finish_run Sends
subscribe-finish_run from l ps at o ended job r v t b =
    let joined = record job { subscribers = add_sink l job.subscribers } in
    let f = finish_run ps at o ended joined in
    let sends = finish_run-Sends l ps at o ended joined (times-add_sink l job.subscribers t) in
    let end = last_frame ended (settled ps at o joined) in
    rw (subscribe_running from l job r v)
      (sym (drop-append from job.frames (heard l f.1) b) ∙ ap (drop from) (sym sends), end.0, end.1)
