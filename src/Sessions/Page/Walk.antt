-- ===== src/Sessions/Page/Walk.antt =====
-- src/persistence/page.js: reading a list to its end, one page after the other.
use mathlib.Core.Option
use mathlib.Core.List.{append-nil}
use agent_pod.Base.{
  ℕ, zero, suc, ◌+◌, ◌≤◌, ◌<◌, ◌≡◌, refl, sym, ap, ◌∙◌, subst, List, [], ◌∷◌, ◌++◌, Option, none,
  some, Bool, true, false, if◌then◌else◌, arith, ltb, length, last?, take, drop, drop-drop, keep,
  min, All, take-append-drop, length-drop, Bool-cases, Option-cases, inl, inr,
}
use agent_pod.Sessions.Page.{finish_page}

module _ {A : Type 0} where
  last?-cons : (y c : A) (ys : List A) → last? ys ≡ some c → last? (y ∷ ys) ≡ some c
  last?-cons y c [] h = absurd (cc)
  last?-cons y c (x ∷ ys) h = h

  last?-take-drop :
      (n k : ℕ) (rs : List A) (c : A)
      → last? (take n (drop k rs)) ≡ some c
      → last? (take (k + n) rs) ≡ some c
  last?-take-drop n zero rs c h = let e : zero + n ≡ n = omega arith in rw e h
  last?-take-drop zero (suc k) [] c h = absurd (cc)
  last?-take-drop (suc n) (suc k) [] c h = absurd (cc)
  last?-take-drop n (suc k) (r ∷ rs) c h =
      let e : suc k + n ≡ suc (k + n) = omega arith in
      rw e (last?-cons r c (take (k + n) rs) (last?-take-drop n k rs c h))

  length-last?-none : (ys : List A) → last? ys ≡ none → length ys ≡ 0
  length-last?-none [] h = refl
  length-last?-none (y ∷ []) h = absurd (cc)
  length-last?-none (y ∷ x ∷ ys) h = absurd (omega (arith, length-last?-none (x ∷ ys) h))

  length-take : (n : ℕ) (xs : List A) → length (take n xs) ≡ min n (length xs)
  length-take zero xs = omega arith
  length-take (suc n) [] = omega arith
  length-take (suc n) (x ∷ xs) = omega (arith, length-take n xs)

  take_all : (n : ℕ) (xs : List A) → length xs ≤ n → take n xs ≡ xs
  take_all zero [] h = refl
  take_all zero (x ∷ xs) h = absurd (omega arith)
  take_all (suc n) [] h = refl
  take_all (suc n) (x ∷ xs) h = ap (◌∷◌ x) (take_all n xs (omega arith))

  take_twice : (n : ℕ) (xs : List A) → take n (take (n + 1) xs) ≡ take n xs
  take_twice zero xs = refl
  take_twice (suc n) [] = let e : suc n + 1 ≡ suc (n + 1) = omega arith in rw e refl
  take_twice (suc n) (x ∷ xs) =
      let e : suc n + 1 ≡ suc (n + 1) = omega arith in rw e (ap (◌∷◌ x) (take_twice n xs))

  module _ {K : Type 0} (to_cursor : A → K) where
    -- What a page of the rows is, and whether there are more.
    page_full :
        (limit : ℕ) (xs : List A)
        → limit < length xs
        → finish_page (take (limit + 1) xs) limit to_cursor ≡ record {
          page = take limit xs;
          has_more = true;
          next_cursor = Option.map to_cursor (last? (take limit xs));
        }
    unfolding finish_page
    page_full limit xs h =
        let more : ltb limit (length (take (limit + 1) xs)) ≡ true =
          ground (arith, length-take (limit + 1) xs) in
        rw (finish_page, more, take_twice limit xs) refl

    page_last :
        (limit : ℕ) (xs : List A)
        → length xs ≤ limit
        → finish_page (take (limit + 1) xs) limit to_cursor
          ≡ record { page = xs; has_more = false; next_cursor = none }
    unfolding finish_page
    page_last limit xs h =
        let whole = take_all (limit + 1) xs (omega arith) in
        let more : ltb limit (length xs) ≡ false = ground arith in
        rw (finish_page, whole, more) refl

module _ {A K : Type 0} (to_cursor : A → K) (after : K → A → Bool) where
  -- Each row comes after the ones before it, and none after itself or a later one.
  abbrev pub IsOrdered : List A → Type 0
  IsOrdered [] = Unit
  IsOrdered (r ∷ rs) =
      (after (to_cursor r) r ≡ false)
      × All (λ s. (after (to_cursor r) s ≡ true) × (after (to_cursor s) r ≡ false)) rs
      × IsOrdered rs

  abbrev pub source : List A → Option K → List A
  source rows none = rows
  source rows (some c) = keep (after c) rows

  -- The rows behind a cursor, one more than a page holds.
  abbrev pub query : List A → ℕ → Option K → List A
  query rows limit cursor = take (limit + 1) (source rows cursor)

  -- All the pages, for at most so many of them.
  unfoldable pub walk : ℕ → List A → ℕ → Option K → List A
  walk zero rows limit cursor = []
  walk (suc pages) rows limit cursor =
      let p = finish_page (query rows limit cursor) limit to_cursor in
      let rest = walk pages rows limit p.next_cursor in p.page ++ (if p.has_more then rest else [])

  keep-All_after :
      (r : A) (rs : List A)
      → All (λ s. (after (to_cursor r) s ≡ true) × (after (to_cursor s) r ≡ false)) rs
      → keep (after (to_cursor r)) rs ≡ rs
  keep-All_after r [] a = refl
  keep-All_after r (s ∷ rs) a = rw a.0.0 (ap (◌∷◌ s) (keep-All_after r rs a.1))

  last?-Has-after :
      (r c : A) (n : ℕ) (rs : List A)
      → All (λ s. (after (to_cursor r) s ≡ true) × (after (to_cursor s) r ≡ false)) rs
      → last? (take n rs) ≡ some c
      → after (to_cursor c) r ≡ false
  last?-Has-after r c zero rs a h = absurd (cc)
  last?-Has-after r c (suc n) [] a h = absurd (cc)
  last?-Has-after r c (suc zero) (s ∷ rs) a h =
      let same : s ≡ c = cc in subst (λ x. after (to_cursor x) r ≡ false) same a.0.1
  last?-Has-after r c (suc (suc n)) (s ∷ []) a h =
      let same : s ≡ c = cc in subst (λ x. after (to_cursor x) r ≡ false) same a.0.1
  last?-Has-after r c (suc (suc n)) (s ∷ t ∷ rs) a h = last?-Has-after r c (suc n) (t ∷ rs) a.1 h

  -- What comes after the last row of a page is what stands behind the page.
  keep-last :
      (n : ℕ) (rs : List A) (c : A)
      → IsOrdered rs
      → last? (take n rs) ≡ some c
      → keep (after (to_cursor c)) rs ≡ drop n rs
  keep-last zero rs c o h = absurd (cc)
  keep-last (suc n) [] c o h = absurd (cc)
  keep-last (suc zero) (r ∷ rs) c o h =
      let same : r ≡ c = cc in
      subst (λ x. keep (after (to_cursor x)) (r ∷ rs) ≡ rs) same (rw o.0 (keep-All_after r rs o.1))
  keep-last (suc (suc n)) (r ∷ []) c o h =
      let same : r ≡ c = cc in
      subst (λ x. keep (after (to_cursor x)) (r ∷ []) ≡ []) same (rw o.0 refl)
  keep-last (suc (suc n)) (r ∷ s ∷ rs) c o h =
      let behind = last?-Has-after r c (suc n) (s ∷ rs) o.1 h in
      rw behind (keep-last (suc n) (s ∷ rs) c o.2 h)

  pub walk-source :
      (pages limit k : ℕ) (rows : List A) (cursor : Option K)
      → 1 ≤ limit
      → IsOrdered rows
      → source rows cursor ≡ drop k rows
      → length (drop k rows) < pages
      → walk pages rows limit cursor ≡ drop k rows
  unfolding walk
  walk-source zero limit k rows cursor l o s p = absurd (omega arith)
  walk-source (suc pages) limit k rows cursor l o s p =
      elim (Bool-cases (ltb limit (length (drop k rows)))) [
        | inr e ↦
            let here = page_last to_cursor limit (drop k rows) (ground (arith, e)) in
            rw (s, here) (append-nil (drop k rows))
        | inl e ↦
            let here = page_full to_cursor limit (drop k rows) (ground (arith, e)) in
            elim (Option-cases (last? (take limit (drop k rows)))) [
              | inl g ↦ absurd (
                  ground (
                    arith,
                    e,
                    length-last?-none (take limit (drop k rows)) g,
                    length-take limit (drop k rows),
                  ))
              | inr (c, g) ↦
                  let behind : keep (after (to_cursor c)) rows ≡ drop (k + limit) rows =
                    keep-last (k + limit) rows c o (last?-take-drop limit k rows c g) in
                  let fewer : length (drop (k + limit) rows) < pages =
                    ground (arith, e, length-drop (k + limit) rows, length-drop k rows) in
                  let rest =
                    walk-source pages limit (k + limit) rows (some (to_cursor c)) l o behind
                      fewer in
                  rw (s, here, g)
                    (ap (λ ys. take limit (drop k rows) ++ ys) (rest ∙ sym (drop-drop limit k rows))
                      ∙ take-append-drop limit (drop k rows))
            ]
      ]
