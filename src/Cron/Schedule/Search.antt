-- ===== src/Cron/Schedule/Search.antt =====
-- src/cron/schedule.js: the search for the next time.
use mathlib.Core.Option
use agent_pod.Base.{
  ℕ, zero, suc, ◌+◌, ◌*◌, ◌/◌, ◌<◌, ◌≡◌, refl, sym, ap, subst, ◌∙◌, List, [], ◌∷◌, ◌++◌, Option,
  none, some, Bool, true, false, if◌then◌else◌, arith, ◌==◌, ◌&&◌, find, Bool-cases, Option-cases,
  inl, inr,
}
use agent_pod.Cron.Fields.{Fields, has}
use agent_pod.Cron.Schedule.{
  Wall, matches_day, range, utc_from_wall, is_due, search_minutes, search_hours, search_days,
  next_fire_after, minute_ms, day_ms,
}

-- The first of two answers.
abbrev or_then : Option ℕ → Option ℕ → Option ℕ
or_then none y = y
or_then (some x) y = some x

-- The minutes of one hour, as moments of the day.
abbrev minutes_of : ℕ → List ℕ → List (ℕ × ℕ)
minutes_of hour [] = []
minutes_of hour (m ∷ ms) = (hour, m) ∷ minutes_of hour ms

-- Every minute of the day from a moment on, one after the other.
abbrev pub moments : ℕ → ℕ → List ℕ → List (ℕ × ℕ)
moments from_hour from_minute [] = []
moments from_hour from_minute (h ∷ hs) =
    minutes_of h (range (if h == from_hour then from_minute else 0) 59)
    ++ moments from_hour from_minute hs

module _ (wall_clock : ℕ → Wall) (f : Fields) (after year month day : ℕ) where
  -- The expression admits the hour and the minute, the clock shows them, and they are still to come.
  abbrev pub fires : ℕ × ℕ → Bool
  fires p = (has p.0 f.hour && has p.1 f.minute) && is_due wall_clock f after year month day p.0 p.1

  abbrev pub moment : ℕ × ℕ → ℕ
  moment p = utc_from_wall wall_clock year month day p.0 p.1

  find-append :
      (xs ys : List (ℕ × ℕ))
      → Option.map moment (find fires (xs ++ ys))
        ≡ or_then (Option.map moment (find fires xs)) (Option.map moment (find fires ys))
  find-append [] ys = refl
  find-append (x ∷ xs) ys = elim (Bool-cases (fires x)) [
    | inl e ↦ rw e refl
    | inr e ↦ rw e (find-append xs ys)
  ]

  search_minutes-find :
      (hour : ℕ) (ms : List ℕ)
      → has hour f.hour ≡ true
      → search_minutes wall_clock f after year month day hour ms
        ≡ Option.map moment (find fires (minutes_of hour ms))
  unfolding search_minutes
  search_minutes-find hour [] h = refl
  search_minutes-find hour (m ∷ ms) h = elim (Bool-cases (has m f.minute)) [
    | inr e ↦ rw (h, e) (search_minutes-find hour ms h)
    | inl e ↦ elim (Bool-cases (is_due wall_clock f after year month day hour m)) [
      | inl d ↦ rw (h, e, d) refl
      | inr d ↦ rw (h, e, d) (search_minutes-find hour ms h)
    ]
  ]

  skipped :
      (hour : ℕ) (ms : List ℕ) → has hour f.hour ≡ false → find fires (minutes_of hour ms) ≡ none
  skipped hour [] h = refl
  skipped hour (m ∷ ms) h = rw h (skipped hour ms h)

  minutes_first :
      (found rest : Option ℕ)
      → (elim found [ some ts ↦ some ts | none ↦ rest ]) ≡ or_then found rest
  minutes_first none rest = refl
  minutes_first (some ts) rest = refl

  -- The search of a day, which goes over the hours that the expression admits and over the minutes
  -- of those only, finds what a search of every minute in turn, from the same one on, finds first.
  pub search_hours-find :
      (from_hour from_minute : ℕ) (hours : List ℕ)
      → search_hours wall_clock f after year month day from_hour from_minute hours
        ≡ Option.map moment (find fires (moments from_hour from_minute hours))
  unfolding search_hours
  search_hours-find from_hour from_minute [] = refl
  search_hours-find from_hour from_minute (h ∷ hs) =
      let ms = range (if h == from_hour then from_minute else 0) 59 in
      let rest = moments from_hour from_minute hs in
      let later = search_hours-find from_hour from_minute hs in
      let here = find-append (minutes_of h ms) rest in
      elim (Bool-cases (has h f.hour)) [
        | inr e ↦
            let none_here =
              ap (λ o. or_then (Option.map moment o) (Option.map moment (find fires rest)))
                (skipped h ms e) in
            rw e (later ∙ sym none_here ∙ sym here)
        | inl e ↦
            let r = search_hours wall_clock f after year month day from_hour from_minute hs in
            rw e (
              minutes_first (search_minutes wall_clock f after year month day h ms) r
              ∙ ap (λ o. or_then o r) (search_minutes-find h ms e)
              ∙ ap (or_then (Option.map moment (find fires (minutes_of h ms)))) later
              ∙ sym here)
      ]

  find-fires :
      (xs : List (ℕ × ℕ)) (ts : ℕ)
      → Option.map moment (find fires xs) ≡ some ts
      → (p : ℕ × ℕ) × (fires p ≡ true) × (moment p ≡ ts)
  find-fires [] ts h = absurd (cc)
  find-fires (x ∷ xs) ts h = elim (Bool-cases (fires x)) [
    | inl e ↦ let same : some (moment x) ≡ some ts = rw e at h in (x, e, cc)
    | inr e ↦ find-fires xs ts (rw e at h)
  ]

-- What a time that the search gives has to be.
pub record IsNext (wall_clock : ℕ → Wall) (f : Fields) (after ts : ℕ) : Type 0 where
  pub later : after < ts
  pub hour : has (wall_clock ts).hour f.hour ≡ true
  pub minute : has (wall_clock ts).minute f.minute ≡ true
  -- The day on which it is, by its date.
  pub date : ℕ × ℕ × ℕ
  pub day : matches_day f (wall_clock (utc_from_wall wall_clock date.0 date.1 date.2 12 0)) ≡ true
  pub moment_of :
      ts ≡ utc_from_wall wall_clock date.0 date.1 date.2 (wall_clock ts).hour (wall_clock ts).minute

module _ (wall_clock : ℕ → Wall) (f : Fields) (after : ℕ) where
  fires-IsNext :
      (year month day : ℕ) (p : ℕ × ℕ)
      → matches_day f (wall_clock (utc_from_wall wall_clock year month day 12 0)) ≡ true
      → fires wall_clock f after year month day p ≡ true
      → IsNext wall_clock f after (moment wall_clock f after year month day p)
  fires-IsNext year month day p d e =
      let ts = utc_from_wall wall_clock year month day p.0 p.1 in
      let w = wall_clock ts in
      let hour_shown : w.hour ≡ p.0 = ground (arith, e) in
      let minute_shown : w.minute ≡ p.1 = ground (arith, e) in
      record {
        later = ground (arith, e);
        hour = ap (λ h. has h f.hour) hour_shown ∙ (ground (arith, e));
        minute = ap (λ m. has m f.minute) minute_shown ∙ (ground (arith, e));
        date = (year, month, day);
        day = d;
        moment_of =
            ap (λ h. utc_from_wall wall_clock year month day h p.1) (sym hour_shown)
            ∙ ap (utc_from_wall wall_clock year month day w.hour) (sym minute_shown);
      }

  search_days-IsNext :
      (days year month day from_hour from_minute ts : ℕ)
      → search_days wall_clock f after days year month day from_hour from_minute ≡ some ts
      → IsNext wall_clock f after ts
  unfolding search_days
  search_days-IsNext zero year month day from_hour from_minute ts h = absurd (cc)
  search_days-IsNext (suc days) year month day from_hour from_minute ts h =
      let noon = utc_from_wall wall_clock year month day 12 0 in
      let next = wall_clock (noon + day_ms) in
      elim (Bool-cases (matches_day f (wall_clock noon))) [
        | inr e ↦ search_days-IsNext days next.year next.month next.day 0 0 ts (rw e at h)
        | inl e ↦
            elim (Option-cases (
              search_hours wall_clock f after year month day from_hour from_minute
                (range from_hour 23))) [
                  | inl g ↦
                      search_days-IsNext days next.year next.month next.day 0 0 ts (rw (e, g) at h)
                  | inr (found, g) ↦
                      let same : some found ≡ some ts = rw (e, g) at h in
                      let here =
                        find-fires wall_clock f after year month day
                          (moments from_hour from_minute (range from_hour 23)) found
                          (sym (
                              search_hours-find wall_clock f after year month day from_hour
                                from_minute (range from_hour 23))
                            ∙ g) in
                      let (p, fired, at_p) = here in
                      let reached : moment wall_clock f after year month day p ≡ ts = cc in
                      subst (IsNext wall_clock f after) reached
                        (fires-IsNext year month day p e fired)
                ]
      ]

  -- What the search gives is later than `after`, on a day that the expression admits, and at that
  -- moment the clock of the time zone shows an hour and a minute that the expression admits.
  pub next_fire_after-IsNext :
      (ts : ℕ) → next_fire_after wall_clock f after ≡ some ts → IsNext wall_clock f after ts
  unfolding next_fire_after
  next_fire_after-IsNext ts h =
      let start = wall_clock (after / minute_ms * minute_ms + minute_ms) in
      search_days-IsNext 366 start.year start.month start.day start.hour start.minute ts h
