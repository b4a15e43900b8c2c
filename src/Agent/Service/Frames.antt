-- ===== src/Agent/Service/Frames.antt =====
-- src/agent/run-service.js: what a run that was let in sends, and what it leaves behind.
use mathlib.Core.List.{append-nil, append_assoc}
use agent_pod.Base.{
  ℕ, suc, ◌+◌, ◌≡◌, refl, sym, ap, ◌∙◌, subst, String, List, [], ◌∷◌, ◌++◌, Option, none, some,
  true, false, arith, length, map,
}
use agent_pod.Base.Dict
use agent_pod.Agent.Runs
use agent_pod.Agent.Runs.{Frame, Run, push, new_run}
use agent_pod.Agent.Runs.Stream.{IsBacked, next_frame, push_dropped, push-IsBacked}
use agent_pod.Agent.Runs.Resume.{Sent, frames_of}
use agent_pod.Agent.Runs.Live.{append-some}
use agent_pod.Agent.Service.{
  Fault, Model, Access, denied, granted, Turn, Texts, framed, handed, ended, Wire, Outcome, failed,
  finished, pick_model, conclude, converse, emit, emit_all, open_run, close_run, attempt, settle,
}

-- The calls with their numbers.
abbrev pub numbered : ℕ → List Sent → List (ℕ × Sent)
numbered n [] = []
numbered n (s ∷ ss) = (n, s) ∷ numbered (suc n) ss

abbrev frame_at : ℕ → Sent → Frame
frame_at n s = record { seq = n; kind = s.0; text = s.1; bytes = s.2 }

numbered-append :
    (n : ℕ) (ss : List Sent) (s : Sent)
    → numbered n (ss ++ s ∷ []) ≡ numbered n ss ++ (length ss + n, s) ∷ []
numbered-append n [] s = let e : 0 + n ≡ n = omega arith in rw e refl
numbered-append n (t ∷ ss) s =
    let e : length ss + suc n ≡ suc (length ss) + n = omega arith in
    ap (◌∷◌ (n, t)) (rw (numbered-append (suc n) ss s, e) refl)

frames_of-append :
    (n : ℕ) (ss : List Sent) (s : Sent)
    → frames_of n (ss ++ s ∷ []) ≡ frames_of n ss ++ frame_at (length ss + n) s ∷ []
frames_of-append n [] s = let e : 0 + n ≡ n = omega arith in rw e refl
frames_of-append n (t ∷ ss) s =
    let e : length ss + (n + 1) ≡ suc (length ss) + n = omega arith in
    ap (◌∷◌ (frame_at n t)) (rw (frames_of-append (n + 1) ss s, e) refl)

length-frames_of : (n : ℕ) (ss : List Sent) → length (frames_of n ss) ≡ length ss
length-frames_of n [] = refl
length-frames_of n (s ∷ ss) = ap suc (length-frames_of (n + 1) ss)

closes :
    (run_id : String) (at : ℕ) (m : Runs.Runs) (r : Run)
    → Dict.get run_id m ≡ some r
    → r.done ≡ false
    → Runs.close run_id at m ≡ (
      Dict.set run_id (record r { done = true; ended_at = at; listeners = [] }) m,
      map (λ l. (l, none)) r.listeners,
    )
unfolding Runs.close
closes run_id at m r e d = rw (Runs.close, e, d) refl

starts :
    (o : Runs.Limits) (run_id username session_key : String) (at : ℕ) (m : Runs.Runs)
    → Dict.get run_id (Runs.sweep o at m) ≡ none
    → (Runs.start o run_id username session_key at m).0
      ≡ Dict.set run_id (new_run run_id username session_key at) (Runs.sweep o at m)
unfolding Runs.start
starts o run_id username session_key at m e = rw (Runs.start, e) refl

new-IsBacked :
    (run_id username session_key : String) (at : ℕ)
    → IsBacked [] 0 (new_run run_id username session_key at)
new-IsBacked run_id username session_key at = record {
  dropped = omega arith;
  suffix = refl;
  marked = refl;
  next = refl;
  size = refl;
  numbered = tt;
}

module _ (o : Runs.Limits) (run_id : String) where
  -- The run is in the table and has been given exactly these frames, as has its caller.
  pub record IsOpen (ss : List Sent) (w : Wire) : Type 0 where
    pub table : Runs.Runs
    pub run : Run
    pub dropped : ℕ
    pub kept : w.registry ≡ some table
    pub found : Dict.get run_id table ≡ some run
    pub live : run.done ≡ false
    pub backed : IsBacked (frames_of 1 ss) dropped run
    pub sent : w.sent ≡ numbered 1 ss

  emit-some :
      (s : Sent) (w : Wire) (m : Runs.Runs) (r : Run)
      → w.registry ≡ some m
      → Dict.get run_id m ≡ some r
      → emit o run_id s w
        ≡ handed s w (
          Dict.set run_id (push o r s.0 s.1 s.2) m,
          r.next_seq,
          map (λ l. (l, some (next_frame o r s.0 s.1 s.2))) r.listeners,
        )
  unfolding emit
  emit-some s w m r e h = rw (emit, e, append-some o run_id s m r h) refl

  push-live : (s : Sent) (r : Run) → (push o r s.0 s.1 s.2).done ≡ r.done
  unfolding push
  push-live s r = refl

  pub emit-IsOpen :
      (ss : List Sent) (s : Sent) (w : Wire)
      → IsOpen ss w
      → IsOpen (ss ++ s ∷ []) (emit o run_id s w)
  emit-IsOpen ss s w v =
      let r = v.run in
      let m' = Dict.set run_id (push o r s.0 s.1 s.2) v.table in
      let e = emit-some s w v.table r v.kept v.found in
      let next : r.next_seq ≡ length ss + 1 = omega (arith, v.backed.next, length-frames_of 1 ss) in
      let more = push-IsBacked o (frames_of 1 ss) v.dropped r v.backed s.0 s.1 s.2 in
      record {
        table = m';
        run = push o r s.0 s.1 s.2;
        dropped = v.dropped + push_dropped o r s.0 s.1 s.2;
        kept = ap (λ x. x.registry) e;
        found = Dict.get-set_self run_id (push o r s.0 s.1 s.2) v.table;
        live = push-live s r ∙ v.live;
        backed =
            subst
              (λ h. IsBacked h (v.dropped + push_dropped o r s.0 s.1 s.2) (push o r s.0 s.1 s.2))
              (ap (λ n. frames_of 1 ss ++ frame_at n s ∷ []) next ∙ sym (frames_of-append 1 ss s))
              more;
        sent =
            ap (λ x. x.sent) e
            ∙ ap (λ l. l ++ (r.next_seq, s) ∷ []) v.sent
            ∙ ap (λ n. numbered 1 ss ++ (n, s) ∷ []) next
            ∙ sym (numbered-append 1 ss s);
      }

  pub emit_all-IsOpen :
      (ss ts : List Sent) (w : Wire) → IsOpen ss w → IsOpen (ss ++ ts) (emit_all o run_id ts w)
  unfolding emit_all
  emit_all-IsOpen ss [] w v = rw (append-nil ss) v
  emit_all-IsOpen ss (t ∷ ts) w v =
      subst (λ l. IsOpen l (emit_all o run_id (t ∷ ts) w)) (append_assoc ss (t ∷ []) ts)
        (emit_all-IsOpen (ss ++ t ∷ []) ts (emit o run_id t w) (emit-IsOpen ss t w v))

  -- The run as it is left: closed, with all that was sent.
  pub record IsClosed (ss : List Sent) (w : Wire) : Type 0 where
    pub table : Runs.Runs
    pub run : Run
    pub dropped : ℕ
    pub kept : w.registry ≡ some table
    pub found : Dict.get run_id table ≡ some run
    pub over : run.done ≡ true
    pub backed : IsBacked (frames_of 1 ss) dropped run
    pub sent : w.sent ≡ numbered 1 ss

  close-IsClosed :
      (ss : List Sent) (at : ℕ) (w : Wire) → IsOpen ss w → IsClosed ss (close_run o run_id at w)
  unfolding close_run
  close-IsClosed ss at w v =
      let r = v.run in
      let over : Run = record r { done = true; ended_at = at; listeners = [] } in
      let e : close_run o run_id at w
          ≡ ended w (Dict.set run_id over v.table, map (λ l. (l, none)) r.listeners) =
        rw (close_run, v.kept, closes run_id at v.table r v.found v.live) refl in
      record {
        table = Dict.set run_id over v.table;
        run = over;
        dropped = v.dropped;
        kept = ap (λ x. x.registry) e;
        found = Dict.get-set_self run_id over v.table;
        over = refl;
        backed = record {
          dropped = v.backed.dropped;
          suffix = v.backed.suffix;
          marked = v.backed.marked;
          next = v.backed.next;
          size = v.backed.size;
          numbered = v.backed.numbered;
        };
        sent = ap (λ x. x.sent) e ∙ v.sent;
      }

  open_run-IsOpen :
      (username session_key : String) (at : ℕ) (m : Runs.Runs) (w : Wire)
      → w.registry ≡ some m
      → w.sent ≡ []
      → Dict.get run_id (Runs.sweep o at m) ≡ none
      → IsOpen [] (open_run o run_id username session_key at w)
  unfolding open_run
  open_run-IsOpen username session_key at m w e q fresh =
      let r = new_run run_id username session_key at in
      let swept = Runs.sweep o at m in
      let e' : open_run o run_id username session_key at w
          ≡ record w { registry = some (Dict.set run_id r swept) } =
        rw (open_run, e, starts o run_id username session_key at m fresh) refl in
      record {
        table = Dict.set run_id r swept;
        run = r;
        dropped = 0;
        kept = ap (λ x. x.registry) e';
        found = Dict.get-set_self run_id r swept;
        live = refl;
        backed = new-IsBacked run_id username session_key at;
        sent = ap (λ x. x.sent) e' ∙ q;
      }

-- What a run sends, and how it ends, by what the broker and the turn do.
abbrev pub last_of : Texts → Option Fault → Sent × Outcome
last_of t none = (framed "final" t.final, finished)
last_of t (some f) = (framed "error" (t.error f), failed f)

abbrev pub after_start : Texts → Fault → (Model → Turn) → Option Model → List Sent × Option Fault
after_start t no_model turn none = ([], some no_model)
after_start t no_model turn (some m) =
    (framed "model" (t.model m) ∷ (turn m).frames, (turn m).fault)

abbrev pub script : Texts → Fault → String → Access → (Model → Turn) → List Sent × Option Fault
script t no_model model_id (denied f) turn = ([], some f)
script t no_model model_id (granted models) turn =
    after_start t no_model turn (pick_model models model_id)

-- All the frames of a run.
abbrev pub told : Texts → List Sent × Option Fault → List Sent
told t (body, fault) = framed "run_start" t.run_start ∷ body ++ (last_of t fault).0 ∷ []

module _ (o : Runs.Limits) (run_id : String) (t : Texts) (no_model : Fault)
    (model_id : String) where
  -- What was sent before the `catch`, with the fault that it sees.
  abbrev IsTold : List Sent × Option Fault → Wire × Outcome → Type 0
  IsTold said r = IsOpen o run_id (told t said) r.0 × (r.1 ≡ (last_of t said.1).1)

  settle_fault :
      (body : List Sent) (f : Fault) (w : Wire)
      → IsOpen o run_id (framed "run_start" t.run_start ∷ body) w
      → IsTold (body, some f) (settle o run_id t (w, some f))
  unfolding settle
  settle_fault body f w v = (emit-IsOpen o run_id _ (framed "error" (t.error f)) w v, refl)

  conclude-IsTold :
      (body : List Sent) (fault : Option Fault) (w : Wire)
      → IsOpen o run_id (framed "run_start" t.run_start ∷ body) w
      → IsTold (body, fault) (settle o run_id t (conclude o run_id t fault w))
  unfolding settle conclude
  conclude-IsTold body none w v = (emit-IsOpen o run_id _ (framed "final" t.final) w v, refl)
  conclude-IsTold body (some f) w v = settle_fault body f w v

  converse-IsTold :
      (turn : Model → Turn) (picked : Option Model) (w : Wire)
      → IsOpen o run_id (framed "run_start" t.run_start ∷ []) w
      → IsTold
          (after_start t no_model turn picked)
          (settle o run_id t (converse o run_id t no_model turn picked w))
  unfolding converse
  converse-IsTold turn none w v = settle_fault [] no_model w v
  converse-IsTold turn (some m) w v = conclude-IsTold _ (turn m).fault _ (
      emit_all-IsOpen o run_id _ (turn m).frames _
        (emit-IsOpen o run_id _ (framed "model" (t.model m)) w v))

  settle-IsTold :
      (access : Access) (turn : Model → Turn) (w : Wire)
      → IsOpen o run_id [] w
      → IsTold
          (script t no_model model_id access turn)
          (settle o run_id t (attempt o run_id t no_model model_id access turn w))
  unfolding attempt
  settle-IsTold (denied f) turn w v =
      settle_fault [] f _ (emit-IsOpen o run_id [] (framed "run_start" t.run_start) w v)
  settle-IsTold (granted models) turn w v =
      converse-IsTold turn (pick_model models model_id) _
        (emit-IsOpen o run_id [] (framed "run_start" t.run_start) w v)

  pub run-IsClosed :
      (username session_key : String) (at ended_at : ℕ) (access : Access) (turn : Model → Turn)
      (m : Runs.Runs) (w : Wire)
      → w.registry ≡ some m
      → w.sent ≡ []
      → Dict.get run_id (Runs.sweep o at m) ≡ none
      → let opened = open_run o run_id username session_key at w in
        let r = settle o run_id t (attempt o run_id t no_model model_id access turn opened) in
        let said = script t no_model model_id access turn in
        IsClosed o run_id (told t said) (close_run o run_id ended_at r.0)
        × (r.1 ≡ (last_of t said.1).1)
  run-IsClosed username session_key at ended_at access turn m w e q fresh =
      let opened = open_run o run_id username session_key at w in
      let settled =
        settle-IsTold access turn opened
          (open_run-IsOpen o run_id username session_key at m w e q fresh) in
      (close-IsClosed o run_id _ ended_at _ settled.0, settled.1)
