-- ===== src/Sessions/Transcript/Turns.antt =====
-- src/sessions/transcript.js: the statistics of a turn, by looking ahead for its end.
use mathlib.Core.List.{append_assoc}
use agent_pod.Base.{
  ℕ, zero, suc, ◌+◌, ◌<◌, ◌≡◌, refl, sym, ap, ◌∙◌, List, [], ◌∷◌, ◌++◌, Option, none, some, Bool,
  true, false, if◌then◌else◌, arith, length, length-append,
}
use agent_pod.Sessions.Transcript.{
  Call, Message, user_message, assistant_message, compaction_message, Spoken, Turn, duration,
  with_stats, flush, attach_loop, attach_turn_stats, modify_at,
}

-- Whether no answer of the turn comes any more.
unfoldable pub ends_turn : List (Message Call) → Bool
ends_turn [] = true
ends_turn (user_message t n at ∷ ms) = true
ends_turn (assistant_message s ∷ ms) = false
ends_turn (compaction_message n at ∷ ms) = ends_turn ms

abbrev pub counted_as : ℕ → ℕ → Bool → Spoken Call → Message Call
counted_as start calls last s =
    if last
    then with_stats (record { duration_ms = duration start s.timestamp; tool_calls = calls })
        (assistant_message s)
    else assistant_message s

-- The last answer of each turn has the time since the turn's question, and the calls of the whole turn.
unfoldable pub counted : ℕ → ℕ → List (Message Call) → List (Message Call)
unfolding ends_turn
counted start calls [] = []
counted start calls (user_message t n at ∷ ms) = user_message t n at ∷ counted at 0 ms
counted start calls (assistant_message s ∷ ms) =
    counted_as start (calls + length s.tool_calls) (ends_turn ms) s
    ∷ counted start (calls + length s.tool_calls) ms
counted start calls (compaction_message n at ∷ ms) =
    compaction_message n at ∷ counted start calls ms

modify_at-append :
    {A : Type 0} (f : A → A) (k : ℕ) (xs ys : List A)
    → k < length xs
    → modify_at f k (xs ++ ys) ≡ modify_at f k xs ++ ys
unfolding modify_at
modify_at-append f k [] ys h = absurd (omega arith)
modify_at-append f zero (x ∷ xs) ys h = refl
modify_at-append f (suc k) (x ∷ xs) ys h =
    ap (λ l. x ∷ l) (modify_at-append f k xs ys (omega arith))

modify_at-last :
    {A : Type 0} (f : A → A) (xs : List A) (x : A)
    → modify_at f (length xs) (xs ++ x ∷ []) ≡ xs ++ f x ∷ []
unfolding modify_at
modify_at-last f [] x = refl
modify_at-last f (y ∷ xs) x = ap (λ l. y ∷ l) (modify_at-last f xs x)

-- What `flush` does at the end of the turn to the messages before a place.
abbrev pub ended : Turn → Bool → List (Message Call) → List (Message Call)
ended t last done = if last then flush t done else done

abbrev pub turn : ℕ → ℕ → Option (ℕ × ℕ) → Turn
turn start calls last = record { turn_start = start; tool_calls = calls; last_assistant = last }

-- The last answer comes before a place.
abbrev IsBefore : ℕ → Option (ℕ × ℕ) → Type 0
IsBefore k none = Unit
IsBefore k (some r) = r.0 < k

flush-append :
    (start calls k : ℕ) (last : Option (ℕ × ℕ)) (done ms : List (Message Call))
    → k ≡ length done
    → IsBefore k last
    → flush (turn start calls last) (done ++ ms) ≡ flush (turn start calls last) done ++ ms
flush-append start calls k none done ms e h = refl
flush-append start calls k (some (j, at)) done ms e h = modify_at-append _ j done ms (omega arith)

later : (k : ℕ) (last : Option (ℕ × ℕ)) → IsBefore k last → IsBefore (suc k) last
later k none h = tt
later k (some r) h = omega arith

pub length-modify_at :
    {A : Type 0} (f : A → A) (k : ℕ) (xs : List A) → length (modify_at f k xs) ≡ length xs
unfolding modify_at
length-modify_at f k [] = refl
length-modify_at f zero (x ∷ xs) = refl
length-modify_at f (suc k) (x ∷ xs) = ap suc (length-modify_at f k xs)

length-flush :
    (start calls : ℕ) (last : Option (ℕ × ℕ)) (done : List (Message Call))
    → length (flush (turn start calls last) done) ≡ length done
length-flush start calls none done = refl
length-flush start calls (some (j, at)) done = length-modify_at _ j done

length-last :
    {A : Type 0} (k : ℕ) (xs : List A) (x : A) → k ≡ length xs → suc k ≡ length (xs ++ x ∷ [])
length-last k xs x h = omega (arith, length-append xs (x ∷ []))

ended-none :
    (start : ℕ) (b : Bool) (done : List (Message Call)) → ended (turn start 0 none) b done ≡ done
ended-none start true done = refl
ended-none start false done = refl

ended-append :
    (start calls k : ℕ) (last : Option (ℕ × ℕ)) (b : Bool) (done ms : List (Message Call))
    → k ≡ length done
    → IsBefore k last
    → ended (turn start calls last) b (done ++ ms) ≡ ended (turn start calls last) b done ++ ms
ended-append start calls k last true done ms e h = flush-append start calls k last done ms e h
ended-append start calls k last false done ms e h = refl

ended-last :
    (start calls k : ℕ) (b : Bool) (s : Spoken Call) (done : List (Message Call))
    → k ≡ length done
    → ended (turn start calls (some (k, s.timestamp))) b (done ++ assistant_message s ∷ [])
      ≡ done ++ counted_as start calls b s ∷ []
ended-last start calls k false s done e = refl
ended-last start calls k true s done e = rw e (modify_at-last _ done (assistant_message s))

-- The loop, from any place on.
attach_loop-counted :
    (rest done all : List (Message Call)) (k start calls : ℕ) (last : Option (ℕ × ℕ))
    → k ≡ length done
    → all ≡ done ++ rest
    → IsBefore k last
    → attach_loop k rest (turn start calls last) all
      ≡ ended (turn start calls last) (ends_turn rest) done ++ counted start calls rest
unfolding attach_loop ends_turn counted
attach_loop-counted [] done all k start calls last e q h =
    ap (flush (turn start calls last)) q ∙ flush-append start calls k last done [] e h
attach_loop-counted (user_message t n at ∷ rest) done all k start calls last e q h =
    let f = flush (turn start calls last) done in
    let m : Message Call = user_message t n at in
    let done' = f ++ m ∷ [] in
    attach_loop-counted rest done' (flush (turn start calls last) all) (suc k) at 0 none
      (length-last k f m (e ∙ sym (length-flush start calls last done)))
      (ap (flush (turn start calls last)) q
        ∙ flush-append start calls k last done (m ∷ rest) e h
        ∙ sym (append_assoc f (m ∷ []) rest))
      tt
    ∙ ap (λ l. l ++ counted at 0 rest) (ended-none at (ends_turn rest) done')
    ∙ append_assoc f (m ∷ []) (counted at 0 rest)
attach_loop-counted (assistant_message s ∷ rest) done all k start calls last e q h =
    let m : Message Call = assistant_message s in
    let sum = calls + length s.tool_calls in
    attach_loop-counted rest (done ++ m ∷ []) all (suc k) start sum (some (k, s.timestamp))
      (length-last k done m e) (q ∙ sym (append_assoc done (m ∷ []) rest)) (omega arith)
    ∙ ap (λ l. l ++ counted start sum rest) (ended-last start sum k (ends_turn rest) s done e)
    ∙ append_assoc done (counted_as start sum (ends_turn rest) s ∷ []) (counted start sum rest)
attach_loop-counted (compaction_message n at ∷ rest) done all k start calls last e q h =
    let m : Message Call = compaction_message n at in
    attach_loop-counted rest (done ++ m ∷ []) all (suc k) start calls last (length-last k done m e)
      (q ∙ sym (append_assoc done (m ∷ []) rest)) (later k last h)
    ∙ ap (λ l. l ++ counted start calls rest)
        (ended-append start calls k last (ends_turn rest) done (m ∷ []) e h)
    ∙ append_assoc (ended (turn start calls last) (ends_turn rest) done) (m ∷ [])
        (counted start calls rest)

-- The messages get what looking ahead gives them.
pub attach-counted : (ms : List (Message Call)) → attach_turn_stats ms ≡ counted 0 0 ms
unfolding attach_turn_stats
attach-counted ms =
    attach_loop-counted ms [] ms 0 0 0 none refl refl tt
    ∙ ap (λ l. l ++ counted 0 0 ms) (ended-none 0 (ends_turn ms) [])
