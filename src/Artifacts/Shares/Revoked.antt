-- ===== src/Artifacts/Shares/Revoked.antt =====
-- src/artifacts/shares.js: what a link opens after its work's author took it back.
use mathlib.Core.Option
use agent_pod.Base.{
  ℕ, ◌≡◌, refl, sym, subst, String, Option, none, some, Bool, true, false, Bool-cases, Option-cases,
  inl, inr, str_eq, eq_refl,
}
use agent_pod.Base.Dict
use agent_pod.Base.Dict.{Dict, get-set, get-set_self, get-delete}
use agent_pod.Base.Dict.Scoped
use agent_pod.Base.Dict.Scoped.{same_key, same_key_self, same_names, look-change_own}
use agent_pod.Base.Text.{Text}
use agent_pod.Artifacts.Shares.{
  Pointer, Share, Meta, Shares, is_token, is_whole, work, resolve, set_share, with_share, create,
  marketed, revoke, put_pointer, new_pointer,
}
use agent_pod.Artifacts.Shares.Linked.{share_of, share_of-own, linked_pointer}
use agent_pod.Artifacts.Shares.Calls.{opened_as, opened_work, marketed-token}
use agent_pod.Artifacts.Shares.Reached.{Reach, Reach-IsLinked}

-- A link whose work says that it is not shared opens nothing.
closed :
    (t : String) (p : Pointer) (s : Shares)
    → Dict.get t s.pointers ≡ some p
    → share_of p.username p.artifact_id s ≡ none
    → (resolve t s).1 ≡ none
unfolding resolve
closed t p s g e = elim (Bool-cases (is_token t)) [
  | inr q ↦ rw (resolve, q) refl
  | inl q ↦ elim (Bool-cases (is_whole p)) [
    | inr k ↦ rw (resolve, q, g, k) refl
    | inl k ↦ elim (Option-cases (work p.username p.artifact_id s)) [
      | inl f ↦ rw (resolve, q, g, k, f) refl
      | inr (m, f) ↦ let n : m.share ≡ none = rw f at e in rw (resolve, q, g, k, f, n) refl
    ]
  ]
]

unknown : (t : String) (s : Shares) → Dict.get t s.pointers ≡ none → (resolve t s).1 ≡ none
unfolding resolve
unknown t s g = elim (Bool-cases (is_token t)) [
  | inl q ↦ rw (resolve, q, g) refl
  | inr q ↦ rw (resolve, q) refl
]

-- After any calls one after the other: once the author of a shared work takes its link back, the link
-- opens nothing; and also when only the record of the work was written and the link stayed in the table.
pub Reach-revoke :
    (s : Shares) (u i : String) (m : Meta) (share : Share)
    → Reach s
    → work u i s ≡ some m
    → m.share ≡ some share
    → ((resolve share.token (revoke u i s).0).1 ≡ none)
      × ((resolve share.token (set_share u i none s)).1 ≡ none)
unfolding revoke
Reach-revoke s u i m share r e f =
    let o : share_of u i s ≡ some share = rw e f in
    let (p, g, a, b) = linked_pointer u i share.token s.pointers (Reach-IsLinked s r u i share o) in
    (
      rw (revoke, e, f) (unknown share.token _ (rw (get-delete, eq_refl share.token) refl)),
      closed share.token p (set_share u i none s) g (rw (a, b) (share_of-own u i none s m e)),
    )

-- `setMarket` writes, after a `revoke`, the share that it had read before it.
abbrev pub written_late : String → String → Share → Shares → Shares
written_late u i next s = set_share u i (some next) (revoke u i s).0

work-written_late :
    (s : Shares) (u i : String) (m : Meta) (share next : Share)
    → work u i s ≡ some m
    → m.share ≡ some share
    → work u i (written_late u i next s) ≡ some (with_share (some next) m)
unfolding revoke
work-written_late s u i m share next e f =
    rw (revoke, e, f)
      (look-change_own u i (with_share (some next)) (Scoped.change u i (with_share none) s.works)
        (look-change_own u i (with_share none) s.works e))

gone-written_late :
    (s : Shares) (u i : String) (m : Meta) (share next : Share)
    → work u i s ≡ some m
    → m.share ≡ some share
    → Dict.get share.token (written_late u i next s).pointers ≡ none
unfolding revoke
gone-written_late s u i m share next e f = rw (revoke, e, f, get-delete, eq_refl share.token) refl

-- `create` of a work whose link is lost puts the link back.
create-mended :
    (s : Shares) (u i fresh : String) (at : ℕ) (m : Meta) (share : Share)
    → work u i s ≡ some m
    → m.share ≡ some share
    → Dict.get share.token s.pointers ≡ none
    → (create u i fresh at s).0
      ≡ put_pointer share.token (new_pointer share.token u i share.created_at) s
unfolding create
create-mended s u i fresh at m share e f g = rw (create, e, f, g) refl

mends :
    (s : Shares) (u i fresh : String) (at : ℕ) (m : Meta) (share : Share)
    → str_eq u "" ≡ false
    → str_eq i "" ≡ false
    → is_token share.token ≡ true
    → work u i s ≡ some m
    → m.share ≡ some share
    → Dict.get share.token s.pointers ≡ none
    → Option.map opened_as (resolve share.token (create u i fresh at s).0).1 ≡ some ((u, i), m)
mends s u i fresh at m share a b t e f g = rw (create-mended s u i fresh at m share e f g) (
    opened_work u i share (put_pointer share.token (new_pointer share.token u i share.created_at) s)
      m (record { is_a_token = t; by_user = a; of_work = b; owned = rw get-set_self refl }) e f)

-- After any calls one after the other: when `setMarket` has read a shared work before `revoke` takes the
-- link back, and writes after it, then the old link opens nothing until the author shares the work anew,
-- and then it is the old link that opens the work, whose record is the one that was written.
pub Reach-written_late :
    (s : Shares) (u i : String) (m : Meta) (share : Share) (market : Option Bool)
    (summary : Option Text) (at : ℕ) (fresh : String) (now : ℕ)
    → Reach s
    → work u i s ≡ some m
    → m.share ≡ some share
    → ((resolve share.token (written_late u i (marketed market summary at share) s)).1 ≡ none)
      × (Option.map opened_as
            (resolve share.token
              (create u i fresh now (written_late u i (marketed market summary at share) s)).0).1
          ≡ some ((u, i), with_share (some (marketed market summary at share)) m))
Reach-written_late s u i m share market summary at fresh now r e f =
    let o : share_of u i s ≡ some share = rw e f in
    let h = Reach-IsLinked s r u i share o in
    let next = marketed market summary at share in
    let same = marketed-token market summary at share in
    let s' = written_late u i next s in
    let g = gone-written_late s u i m share next e f in
    let g' : Dict.get next.token s'.pointers ≡ none =
      subst (λ t. Dict.get t s'.pointers ≡ none) (sym same) g in
    let t' : is_token next.token ≡ true = subst (λ t. is_token t ≡ true) (sym same) h.is_a_token in
    (
      unknown share.token s' g,
      subst
          (λ t.
            Option.map opened_as (resolve t (create u i fresh now s').0).1
            ≡ some ((u, i), with_share (some next) m))
          same
          (mends s' u i fresh now (with_share (some next) m) next h.by_user h.of_work t'
            (work-written_late s u i m share next e f) refl g'),
    )
