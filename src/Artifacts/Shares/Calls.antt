-- ===== src/Artifacts/Shares/Calls.antt =====
-- src/artifacts/shares.js: each call keeps the links and the records of the works in step.
use mathlib.Core.Option
use agent_pod.Base.{
  ℕ, ◌≡◌, refl, sym, ap, ◌∙◌, subst, String, Option, none, some, Bool, true, false, Bool-cases,
  Option-cases, inl, inr, str_eq, eq_iff, eq_refl,
}
use agent_pod.Base.Dict
use agent_pod.Base.Dict.{Dict, get-set, get-set_self, get-delete}
use agent_pod.Base.Dict.Scoped.{same_names}
use agent_pod.Base.Text.{Text}
use agent_pod.Artifacts.Shares.{
  Pointer, Share, Meta, Shares, is_token, is_whole, forget, work, is_shared_as, checked, followed,
  resolve, count_view, set_share, put_pointer, shared, create, marketed, set_market, revoked,
  revoke, unlinked, remove, without, new_share, new_pointer,
}
use agent_pod.Artifacts.Shares.Linked.{
  share_of, owner, Holds, IsLinked, Holds-set, Holds-delete, share_of-set_share, share_of-remove,
  forget-IsLinked, own_token, fresh_token, linked_pointer, Holds-view,
}

abbrev pub opened_as : Pointer × Meta → (String × String) × Meta
opened_as r = (owner r.0, r.1)

-- A link that the table has opens the work, if its record says so.
pub opened_work :
    (u i : String) (share : Share) (s : Shares) (m : Meta)
    → Holds u i share.token s.pointers
    → work u i s ≡ some m
    → m.share ≡ some share
    → Option.map opened_as (resolve share.token s).1 ≡ some ((u, i), m)
unfolding resolve
opened_work u i share s m h e f =
    let (p, g, a, b) = linked_pointer u i share.token s.pointers h in
    rw (resolve, h.is_a_token, g, a, b, h.by_user, h.of_work, e, f, eq_refl share.token)
      (rw (a, b) refl)

pub marketed-token :
    (market : Option Bool) (summary : Option Text) (at : ℕ) (share : Share)
    → (marketed market summary at share).token ≡ share.token
unfolding marketed
marketed-token none none at share = refl
marketed-token none (some t) at share = refl
marketed-token (some true) none at share = refl
marketed-token (some true) (some t) at share = refl
marketed-token (some false) none at share = refl
marketed-token (some false) (some t) at share = refl

-- A new link, with its record.
new_link-IsLinked :
    (u i fresh : String) (at : ℕ) (s : Shares)
    → str_eq u "" ≡ false
    → str_eq i "" ≡ false
    → is_token fresh ≡ true
    → Dict.get fresh s.pointers ≡ none
    → IsLinked s
    → IsLinked (shared u i none fresh at s)
new_link-IsLinked u i fresh at s a b t n l v j share h =
    elim (share_of-set_share u i v j (some (new_share fresh at))
      (put_pointer fresh (new_pointer fresh u i at) s) share h) [
        | inl (q, e) ↦
            let (x, y) = same_names u i v j q in
            let made : Holds u i fresh (Dict.set fresh (new_pointer fresh u i at) s.pointers) =
              record { is_a_token = t; by_user = a; of_work = b; owned = rw get-set_self refl } in
            let z : fresh ≡ share.token = cc in
            subst (λ k. Holds v j k (Dict.set fresh (new_pointer fresh u i at) s.pointers)) z
              (subst (λ k. Holds v k fresh (Dict.set fresh (new_pointer fresh u i at) s.pointers)) y
                (subst (λ k. Holds k i fresh (Dict.set fresh (new_pointer fresh u i at) s.pointers))
                  x made))
        | inr (q, e) ↦
            let k = l v j share e in
            Holds-set v j share.token fresh (new_pointer fresh u i at) s.pointers
              (fresh_token v j share.token fresh s.pointers n k) k
      ]

-- A link that the table has is not made again.
old_link-IsLinked :
    (u i fresh : String) (at : ℕ) (share : Share) (s : Shares)
    → share_of u i s ≡ some share
    → IsLinked s
    → IsLinked (shared u i (some share) fresh at s)
old_link-IsLinked u i fresh at share s h l =
    let (p, e, a, b) = linked_pointer u i share.token s.pointers (l u i share h) in rw e l

pub create-IsLinked :
    (u i fresh : String) (at : ℕ) (s : Shares)
    → str_eq u "" ≡ false
    → str_eq i "" ≡ false
    → is_token fresh ≡ true
    → Dict.get fresh s.pointers ≡ none
    → IsLinked s
    → IsLinked (create u i fresh at s).0
unfolding create
create-IsLinked u i fresh at s a b t n l = elim (Option-cases (work u i s)) [
  | inl e ↦ rw (create, e) l
  | inr (m, e) ↦ elim (Option-cases m.share) [
    | inl f ↦ rw (create, e, f) (new_link-IsLinked u i fresh at s a b t n l)
    | inr (share, f) ↦
        let o : share_of u i s ≡ some share = rw (e, f) refl in
        rw (create, e, f) (old_link-IsLinked u i fresh at share s o l)
  ]
]

-- A share that keeps its token keeps its link.
kept_token-IsLinked :
    (u i : String) (share new : Share) (s : Shares)
    → new.token ≡ share.token
    → share_of u i s ≡ some share
    → IsLinked s
    → IsLinked (set_share u i (some new) s)
kept_token-IsLinked u i share new s t o l v j sh h =
    elim (share_of-set_share u i v j (some new) s sh h) [
      | inl (q, e) ↦
          let (x, y) = same_names u i v j q in
          let z : share.token ≡ sh.token = cc in
          let o' : share_of v j s ≡ some share =
            subst (λ k. share_of v k s ≡ some share) y
              (subst (λ k. share_of k i s ≡ some share) x o) in
          subst (λ k. Holds v j k s.pointers) z (l v j share o')
      | inr (q, e) ↦ l v j sh e
    ]

pub set_market-IsLinked :
    (u i : String) (market : Option Bool) (summary : Option Text) (at : ℕ) (s : Shares)
    → IsLinked s
    → IsLinked (set_market u i market summary at s).0
unfolding set_market
set_market-IsLinked u i market summary at s l = elim (Option-cases (work u i s)) [
  | inl e ↦ rw (set_market, e) l
  | inr (m, e) ↦ elim (Option-cases m.share) [
    | inl f ↦ rw (set_market, e, f) l
    | inr (share, f) ↦
        let o : share_of u i s ≡ some share = rw (e, f) refl in
        rw (set_market, e, f)
          (kept_token-IsLinked u i share (marketed market summary at share) s
            (marketed-token market summary at share) o l)
  ]
]

revoked-IsLinked :
    (u i : String) (x : Option Share) (s : Shares)
    → share_of u i s ≡ x
    → IsLinked s
    → IsLinked (revoked u i x s).0
revoked-IsLinked u i none s o l v j sh h = l v j sh h
revoked-IsLinked u i (some share) s o l v j sh h = elim (share_of-set_share u i v j none s sh h) [
  | inl (q, e) ↦ absurd (cc)
  | inr (q, e) ↦
      let k = l v j sh e in
      Holds-delete v j sh.token share.token s.pointers
        (own_token u i v j share.token sh.token s.pointers (l u i share o) k q) k
]

pub revoke-IsLinked : (u i : String) (s : Shares) → IsLinked s → IsLinked (revoke u i s).0
unfolding revoke
revoke-IsLinked u i s l = elim (Option-cases (work u i s)) [
  | inl e ↦ rw (revoke, e) l
  | inr (m, e) ↦
      let o : share_of u i s ≡ m.share = rw e refl in
      rw (revoke, e) (revoked-IsLinked u i m.share s o l)
]

removed-IsLinked :
    (u i : String) (x : Option Share) (s : Shares)
    → share_of u i s ≡ x
    → IsLinked s
    → IsLinked (without u i (unlinked x s))
removed-IsLinked u i none s o l v j sh h = l v j sh (share_of-remove u i v j s sh h).1
removed-IsLinked u i (some share) s o l v j sh h =
    let (q, e) = share_of-remove u i v j s sh h in
    let k = l v j sh e in
    Holds-delete v j sh.token share.token s.pointers
      (own_token u i v j share.token sh.token s.pointers (l u i share o) k q) k

pub remove-IsLinked : (u i : String) (s : Shares) → IsLinked s → IsLinked (remove u i s)
unfolding remove
remove-IsLinked u i s l = elim (Option-cases (work u i s)) [
  | inl e ↦ rw (remove, e) l
  | inr (m, e) ↦
      let o : share_of u i s ≡ m.share = rw e refl in
      rw (remove, e) (removed-IsLinked u i m.share s o l)
]

-- A link that its work does not own up to can go.
stale-IsLinked :
    (t : String) (p : Pointer) (s : Shares)
    → Dict.get t s.pointers ≡ some p
    → is_shared_as t (share_of p.username p.artifact_id s) ≡ false
    → IsLinked s
    → IsLinked (forget t s)
stale-IsLinked t p s g n l =
    forget-IsLinked t s
      (λ u i share h. elim (Bool-cases (str_eq t share.token)) [
        | inl q ↦
            let e : share.token ≡ t = sym ((eq_iff t share.token).0 q) in
            let (p', g', a, b) = linked_pointer u i share.token s.pointers (l u i share h) in
            let same : ◌≡◌ {A = Option Pointer} (some p) (some p') =
              sym g ∙ ap (λ x. Dict.get x s.pointers) (sym e) ∙ g' in
            let a' : p.username ≡ u = cc in
            let b' : p.artifact_id ≡ i = cc in
            let bad : str_eq share.token t ≡ false = rw (a', b', h) at n in
            let bad' : true ≡ false = rw (e, eq_refl t) at bad in absurd (cc)
        | inr q ↦ q
      ])
      l

checked-IsLinked :
    (t : String) (p : Pointer) (x : Option Meta) (s : Shares)
    → Dict.get t s.pointers ≡ some p
    → work p.username p.artifact_id s ≡ x
    → IsLinked s
    → IsLinked (checked t p x s).0
checked-IsLinked t p none s g e l = stale-IsLinked t p s g (rw e refl) l
checked-IsLinked t p (some m) s g e l = elim (Bool-cases (is_shared_as t m.share)) [
  | inl q ↦ rw q l
  | inr q ↦ rw q (stale-IsLinked t p s g (rw e q) l)
]

followed-IsLinked :
    (t : String) (x : Option Pointer) (s : Shares)
    → Dict.get t s.pointers ≡ x
    → IsLinked s
    → IsLinked (followed t x s).0
followed-IsLinked t none s g l = l
followed-IsLinked t (some p) s g l = elim (Bool-cases (is_whole p)) [
  | inl q ↦ rw q (checked-IsLinked t p (work p.username p.artifact_id s) s g refl l)
  | inr q ↦ rw q l
]

pub resolve-IsLinked : (t : String) (s : Shares) → IsLinked s → IsLinked (resolve t s).0
unfolding resolve
resolve-IsLinked t s l = elim (Bool-cases (is_token t)) [
  | inl q ↦ rw (resolve, q) (followed-IsLinked t (Dict.get t s.pointers) s refl l)
  | inr q ↦ rw (resolve, q) l
]

pub view-IsLinked : (t : String) (at : ℕ) (s : Shares) → IsLinked s → IsLinked (count_view t at s)
unfolding count_view
view-IsLinked t at s l u i share h = Holds-view u i share.token t at s (l u i share h)
