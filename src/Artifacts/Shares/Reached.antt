-- ===== src/Artifacts/Shares/Reached.antt =====
-- src/artifacts/shares.js: the calls on the links in any order, with other modules' changes of the works
-- between them.
use mathlib.Core.Option
use agent_pod.Base.{
  ℕ, ◌≡◌, ◌↔◌, refl, ap, ◌∙◌, subst, String, [], Option, none, some, Bool, true, false, Bool-cases,
  inl, inr, str_eq, eq_iff,
}
use agent_pod.Base.Dict
use agent_pod.Base.Dict.{Dict, get-set, get-set_self, get-delete}
use agent_pod.Base.Text.{Text}
use agent_pod.Artifacts.Shares.{
  Pointer, Share, Meta, Shares, is_token, is_whole, work, is_shared_as, checked, followed, resolve,
  count_view, create, set_market, revoke, remove,
}
use agent_pod.Artifacts.Shares.Linked.{share_of, IsLinked}
use agent_pod.Artifacts.Shares.Calls.{
  opened_as, opened_work, create-IsLinked, set_market-IsLinked, revoke-IsLinked, remove-IsLinked,
  resolve-IsLinked, view-IsLinked,
}

-- One call, from its start to its end. A token that `create` draws is not in the table: it has 96 random bits.
pub data Step : Shares → Shares → Type 0 where
  created :
      (u i fresh : String) (at : ℕ) (s : Shares)
      → str_eq u "" ≡ false
      → str_eq i "" ≡ false
      → is_token fresh ≡ true
      → Dict.get fresh s.pointers ≡ none
      → Step s (create u i fresh at s).0
  listed :
      (u i : String) (market : Option Bool) (summary : Option Text) (at : ℕ) (s : Shares)
      → Step s (set_market u i market summary at s).0
  taken_back : (u i : String) (s : Shares) → Step s (revoke u i s).0
  deleted : (u i : String) (s : Shares) → Step s (remove u i s)
  opened : (token : String) (s : Shares) → Step s (resolve token s).0
  viewed : (token : String) (at : ℕ) (s : Shares) → Step s (count_view token at s)
  -- Works are made, get new versions and go; none of this shares one.
  changed :
      (works : Dict (Dict Meta)) (s : Shares)
      → ((u i : String) (share : Share)
          → share_of u i (record s { works = works }) ≡ some share
          → share_of u i s ≡ some share)
      → Step s (record s { works = works })

pub data Reach : Shares → Type 0 where
  nothing : Reach (record { pointers = []; works = [] })
  later : (s s' : Shares) → Reach s → Step s s' → Reach s'

step-IsLinked : (s s' : Shares) → Step s s' → IsLinked s → IsLinked s'
step-IsLinked s s' (created u i fresh at _ a b t n) l = create-IsLinked u i fresh at s a b t n l
step-IsLinked s s' (listed u i market summary at _) l =
    set_market-IsLinked u i market summary at s l
step-IsLinked s s' (taken_back u i _) l = revoke-IsLinked u i s l
step-IsLinked s s' (deleted u i _) l = remove-IsLinked u i s l
step-IsLinked s s' (opened token _) l = resolve-IsLinked token s l
step-IsLinked s s' (viewed token at _) l = view-IsLinked token at s l
step-IsLinked s s' (changed works _ f) l = λ u i share h. l u i share (f u i share h)

pub Reach-IsLinked : (s : Shares) → Reach s → IsLinked s
unfolding Dict.get
Reach-IsLinked s nothing = λ u i share h. absurd (cc)
Reach-IsLinked _ (later s s' r st) = step-IsLinked s s' st (Reach-IsLinked s r)

shared_under :
    (t : String) (x : Option Share)
    → is_shared_as t x ≡ true
    → (share : Share) × (x ≡ some share) × (share.token ≡ t)
shared_under t none h = absurd (cc)
shared_under t (some share) h = (share, refl, (eq_iff share.token t).0 h)

-- What `resolve` opens is a work, and its record says that it is shared under the token.
checked-some :
    (t : String) (p : Pointer) (x : Option Meta) (s : Shares) (u i : String) (m : Meta)
    → work p.username p.artifact_id s ≡ x
    → Option.map opened_as (checked t p x s).1 ≡ some ((u, i), m)
    → (work u i s ≡ some m) × (is_shared_as t m.share ≡ true)
checked-some t p none s u i m e h = absurd (cc)
checked-some t p (some m') s u i m e h = elim (Bool-cases (is_shared_as t m'.share)) [
  | inl q ↦
      let k : some (opened_as (p, m')) ≡ some ((u, i), m) = rw q at h in
      let a : p.username ≡ u = cc in
      let b : p.artifact_id ≡ i = cc in
      let c : m' ≡ m = cc in
      (
        subst (λ v. work v i s ≡ some m) a
            (subst (λ j. work p.username j s ≡ some m) b (e ∙ ap some c)),
        subst (λ y. is_shared_as t y.share ≡ true) c q,
      )
  | inr q ↦
      let bad : ◌≡◌ {A = Option ((String × String) × Meta)} none (some ((u, i), m)) = rw q at h in
      absurd (cc)
]

followed-some :
    (t : String) (x : Option Pointer) (s : Shares) (u i : String) (m : Meta)
    → Option.map opened_as (followed t x s).1 ≡ some ((u, i), m)
    → (work u i s ≡ some m) × (is_shared_as t m.share ≡ true)
followed-some t none s u i m h = absurd (cc)
followed-some t (some p) s u i m h = elim (Bool-cases (is_whole p)) [
  | inl q ↦ checked-some t p (work p.username p.artifact_id s) s u i m refl (rw q at h)
  | inr q ↦
      let bad : ◌≡◌ {A = Option ((String × String) × Meta)} none (some ((u, i), m)) = rw q at h in
      absurd (cc)
]

resolve-some :
    (t : String) (s : Shares) (u i : String) (m : Meta)
    → Option.map opened_as (resolve t s).1 ≡ some ((u, i), m)
    → (work u i s ≡ some m) × (is_shared_as t m.share ≡ true)
unfolding resolve
resolve-some t s u i m h = elim (Bool-cases (is_token t)) [
  | inl q ↦ followed-some t (Dict.get t s.pointers) s u i m (rw (resolve, q) at h)
  | inr q ↦
      let bad : ◌≡◌ {A = Option ((String × String) × Meta)} none (some ((u, i), m)) =
        rw (resolve, q) at h in
      absurd (cc)
]

-- After any calls one after the other, with any changes of the works between them that share nothing, a
-- link opens a work exactly when the record of the work says that it is shared under this token.
pub Reach-resolve :
    (s : Shares) (t u i : String) (m : Meta)
    → Reach s
    → (Option.map opened_as (resolve t s).1 ≡ some ((u, i), m))
      ↔ ((work u i s ≡ some m) × (is_shared_as t m.share ≡ true))
Reach-resolve s t u i m r = (
  (λ h. resolve-some t s u i m h),
  (λ (e, q).
      let (share, f, k) = shared_under t m.share q in
      let o : share_of u i s ≡ some share = rw e f in
      subst (λ x. Option.map opened_as (resolve x s).1 ≡ some ((u, i), m)) k
        (opened_work u i share s m (Reach-IsLinked s r u i share o) e f)),
)
