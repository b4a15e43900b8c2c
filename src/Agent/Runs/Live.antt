-- ===== src/Agent/Runs/Live.antt =====
-- src/agent/run-registry.js: the replay and what a listener hears after it make up the whole stream.
use agent_pod.Base.{
  ℕ, suc, ◌≤◌, ◌≡◌, refl, sym, ap, ◌∙◌, String, List, [], ◌∷◌, ◌++◌, none, some, true, false,
  if◌then◌else◌, arith, leb, le→leb, ◌==◌, length, drop, drop-append, map,
}
use agent_pod.Base.Dict
use agent_pod.Base.Dict.{Dict}
use agent_pod.Agent.Runs.{
  Limits, Frame, Run, Runs, Delivery, push, resume, add_listener, append, subscribe, sweep,
}
use agent_pod.Agent.Runs.Stream.{IsBacked, next_frame}
use agent_pod.Agent.Runs.Resume.{Sent, frames_of, resume_lem}

-- The frames that one listener is handed.
abbrev pub heard : ℕ → List Delivery → List Frame
heard l [] = []
heard l ((x, none) ∷ ds) = heard l ds
heard l ((x, some f) ∷ ds) = if x == l then f ∷ heard l ds else heard l ds

pub append_all : Limits → String → List Sent → Runs → Runs × List Delivery
append_all o run_id [] m = (m, [])
append_all o run_id (s ∷ ss) m =
    let r = append o run_id s.0 s.1 s.2 m in
    let rest = append_all o run_id ss r.0 in (rest.0, r.2 ++ rest.1)

-- How often a listener is in the set.
abbrev pub times : ℕ → List ℕ → ℕ
times l [] = 0
times l (x ∷ xs) = if x == l then suc (times l xs) else times l xs

times-add_listener : (l : ℕ) (xs : List ℕ) → times l xs ≤ 1 → times l (add_listener l xs) ≡ 1
times-add_listener l [] h = ground arith
times-add_listener l (x ∷ xs) h = ground (arith, times-add_listener l xs)

heard-append : (l : ℕ) (ds es : List Delivery) → heard l (ds ++ es) ≡ heard l ds ++ heard l es
heard-append l [] es = refl
heard-append l ((x, none) ∷ ds) es = heard-append l ds es
heard-append l ((x, some f) ∷ ds) es = ground (arith, heard-append l ds es)

heard_zero :
    (l : ℕ) (f : Frame) (xs : List ℕ) → times l xs ≡ 0 → heard l (map (λ x. (x, some f)) xs) ≡ []
heard_zero l f [] h = refl
heard_zero l f (x ∷ xs) h = ground (arith, heard_zero l f xs)

heard_once :
    (l : ℕ) (f : Frame) (xs : List ℕ)
    → times l xs ≡ 1
    → heard l (map (λ x. (x, some f)) xs) ≡ f ∷ []
heard_once l f [] h = absurd (omega arith)
heard_once l f (x ∷ xs) h = ground (arith, heard_once l f xs, heard_zero l f xs)

module _ (o : Limits) (run_id : String) where
  -- What `append` does on the run that it finds.
  pub append-some :
      (s : Sent) (m : Runs) (r : Run)
      → Dict.get run_id m ≡ some r
      → append o run_id s.0 s.1 s.2 m ≡ (
        Dict.set run_id (push o r s.0 s.1 s.2) m,
        r.next_seq,
        map (λ l. (l, some (next_frame o r s.0 s.1 s.2))) r.listeners,
      )
  unfolding append
  append-some s m r e = rw (append, e) refl

  heard-append_all :
      (l : ℕ) (ss : List Sent) (m : Runs) (r : Run)
      → Dict.get run_id m ≡ some r
      → times l r.listeners ≡ 1
      → heard l (append_all o run_id ss m).1 ≡ frames_of r.next_seq ss
  unfolding append_all push
  heard-append_all l [] m r e t = refl
  heard-append_all l (s ∷ ss) m r e t =
      let f = next_frame o r s.0 s.1 s.2 in
      let r' = push o r s.0 s.1 s.2 in
      let m' = Dict.set run_id r' m in
      rw (append-some s m r e) (
        heard-append l (map (λ x. (x, some f)) r.listeners) (append_all o run_id ss m').1
        ∙ ap (λ fs. fs ++ heard l (append_all o run_id ss m').1) (heard_once l f r.listeners t)
        ∙ ap (◌∷◌ f) (heard-append_all l ss m' r' (Dict.get-set_self run_id r' m) t))

  listening : ℕ → Run → Run
  listening l r = record r { listeners = add_listener l r.listeners }

  subscribe-some :
      (from l at : ℕ) (m : Runs) (r : Run)
      → Dict.get run_id (sweep o at m) ≡ some r
      → r.done ≡ false
      → subscribe o run_id from l at m
        ≡ (Dict.set run_id (listening l r) (sweep o at m), some (resume r from))
  unfolding subscribe listening
  subscribe-some from l at m r e d = rw (subscribe, e, d) refl

  replay_rest :
      (from : ℕ) (h : List Frame) (k : ℕ) (r : Run)
      → IsBacked h k r
      → k ≤ from
      → (resume r from).replay ≡ drop from h
  replay_rest from h k r v b =
      let e : leb k from ≡ true = le→leb _ _ b in
      ap (λ x. x.replay) (resume_lem h k r v from) ∙ (rw e refl)

  -- A client comes back to a run that the sweep leaves and that has not ended, with the number of
  -- the last frame that it has seen, at most that of the last frame; the frames behind it are
  -- still kept (`k` of the `h` frames of the run were dropped), and its listener is in the set at
  -- most once. Then what `subscribe` replays and what the listener is handed from then on are
  -- together every frame of the run behind that one exactly once and in order, those included that
  -- are yet to come.
  pub subscribe-stream :
      (from l at : ℕ) (ss : List Sent) (m : Runs) (h : List Frame) (k : ℕ) (r : Run)
      → Dict.get run_id (sweep o at m) ≡ some r
      → r.done ≡ false
      → times l r.listeners ≤ 1
      → IsBacked h k r
      → k ≤ from
      → from ≤ length h
      → let s = subscribe o run_id from l at m in
        (s.1 ≡ some (resume r from))
        × (resume r from).replay ++ heard l (append_all o run_id ss s.0).1
          ≡ drop from (h ++ frames_of r.next_seq ss)
  unfolding listening
  subscribe-stream from l at ss m h k r e d t v b c =
      let swept = sweep o at m in
      let live =
        heard-append_all l ss (Dict.set run_id (listening l r) swept) (listening l r)
          (Dict.get-set_self run_id (listening l r) swept) (times-add_listener l r.listeners t) in
      rw (subscribe-some from l at m r e d) (
        refl,
        ap (λ fs. fs ++ heard l (append_all o run_id ss (Dict.set run_id (listening l r) swept)).1)
              (replay_rest from h k r v b)
            ∙ ap (λ fs. drop from h ++ fs) live
            ∙ sym (drop-append from h (frames_of r.next_seq ss) c),
      )
