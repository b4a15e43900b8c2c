-- ===== src/Artifacts/Shares/Linked.antt =====
-- src/artifacts/shares.js: the links and the records of the works agree.
use agent_pod.Base.{
  ℕ, ◌≡◌, refl, sym, ◌∙◌, subst, String, Option, none, some, true, false, Bool-cases, Option-cases,
  inl, inr, ◌⊎◌, str_eq, eq_iff, ◌>>=◌,
}
use mathlib.Core.Option
use agent_pod.Base.Dict
use agent_pod.Base.Dict.{Dict, get-set, get-delete}
use agent_pod.Base.Dict.Unique.{get-modify}
use agent_pod.Base.Dict.Scoped
use agent_pod.Base.Dict.Scoped.{same_key, same_key_self, look-change, look-remove}
use agent_pod.Artifacts.Shares.{
  Pointer, with_share, Share, Meta, Shares, is_token, forget, work, count_view, set_share,
}

-- What the record of a work says of its link, if there is such a work.
abbrev pub share_of : String → String → Shares → Option Share
share_of u i s = work u i s >>= λ m. m.share

-- Whose work a link opens.
abbrev pub owner : Pointer → String × String
owner p = (p.username, p.artifact_id)

-- The table has this link, and for this work.
pub record Holds (u i token : String) (pointers : Dict Pointer) : Type 0 where
  pub is_a_token : is_token token ≡ true
  pub by_user : str_eq u "" ≡ false
  pub of_work : str_eq i "" ≡ false
  pub owned : Option.map owner (Dict.get token pointers) ≡ some (u, i)

-- Every work whose record says that it is shared has its link in the table.
abbrev pub IsLinked : Shares → Type 0
IsLinked s =
    (u i : String) (share : Share) → share_of u i s ≡ some share → Holds u i share.token s.pointers

pub Holds-set :
    (u i t k : String) (p : Pointer) (ps : Dict Pointer)
    → str_eq k t ≡ false
    → Holds u i t ps
    → Holds u i t (Dict.set k p ps)
Holds-set u i t k p ps q h = record {
  is_a_token = h.is_a_token;
  by_user = h.by_user;
  of_work = h.of_work;
  owned = rw (get-set, q) h.owned;
}

pub Holds-delete :
    (u i t k : String) (ps : Dict Pointer)
    → str_eq k t ≡ false
    → Holds u i t ps
    → Holds u i t (Dict.delete k ps)
Holds-delete u i t k ps q h = record {
  is_a_token = h.is_a_token;
  by_user = h.by_user;
  of_work = h.of_work;
  owned = rw (get-delete, q) h.owned;
}

-- A link is for one work.
pub one_owner :
    (u i v j t : String) (ps : Dict Pointer)
    → Holds u i t ps
    → Holds v j t ps
    → same_key u i v j ≡ true
one_owner u i v j t ps h k =
    let e : ◌≡◌ {A = Option (String × String)} (some (u, i)) (some (v, j)) =
      sym h.owned ∙ k.owned in
    let a : u ≡ v = cc in
    let b : i ≡ j = cc in
    subst (λ x. same_key u i x j ≡ true) a
      (subst (λ x. same_key u i u x ≡ true) b (same_key_self u i))

-- After a write to one work, a share is the one that was written, or an old one of another work.
pub share_of-set_share :
    (u i v j : String) (x : Option Share) (s : Shares) (share : Share)
    → share_of v j (set_share u i x s) ≡ some share
    → ((same_key u i v j ≡ true) × (x ≡ some share))
      ⊎ ((same_key u i v j ≡ false) × (share_of v j s ≡ some share))
share_of-set_share u i v j x s share h = elim (Bool-cases (same_key u i v j)) [
  | inl q ↦
      let b : (Option.map (with_share x) (work v j s) >>= λ m. m.share) ≡ some share =
        rw (look-change u i v j (with_share x) s.works, q) at h in
      elim (Option-cases (work v j s)) [
        | inl e ↦ let c : none ≡ some share = rw e at b in absurd (cc)
        | inr (m, e) ↦ inl (q, (rw e at b))
      ]
  | inr q ↦ inr (q, (rw (look-change u i v j (with_share x) s.works, q) at h))
]

pub share_of-own :
    (u i : String) (x : Option Share) (s : Shares) (m : Meta)
    → work u i s ≡ some m
    → share_of u i (set_share u i x s) ≡ x
share_of-own u i x s m h =
    rw (look-change u i u i (with_share x) s.works, same_key_self u i, h) refl

pub share_of-remove :
    (u i v j : String) (s : Shares) (share : Share)
    → (Scoped.look v j (Scoped.remove u i s.works) >>= λ m. m.share) ≡ some share
    → (same_key u i v j ≡ false) × (share_of v j s ≡ some share)
share_of-remove u i v j s share h = elim (Bool-cases (same_key u i v j)) [
  | inl q ↦ let b : none ≡ some share = rw (look-remove u i v j s.works, q) at h in absurd (cc)
  | inr q ↦ (q, (rw (look-remove u i v j s.works, q) at h))
]

-- A token that no work has for its own can be deleted.
pub forget-IsLinked :
    (t : String) (s : Shares)
    → ((u i : String) (share : Share) → share_of u i s ≡ some share → str_eq t share.token ≡ false)
    → IsLinked s
    → IsLinked (forget t s)
forget-IsLinked t s f l u i share h =
    Holds-delete u i share.token t s.pointers (f u i share h) (l u i share h)

-- Different works have different tokens.
pub own_token :
    (u i v j t t' : String) (ps : Dict Pointer)
    → Holds u i t ps
    → Holds v j t' ps
    → same_key u i v j ≡ false
    → str_eq t t' ≡ false
own_token u i v j t t' ps h k q = elim (Bool-cases (str_eq t t')) [
  | inl e ↦
      let k' : Holds v j t ps = subst (λ x. Holds v j x ps) (sym ((eq_iff t t').0 e)) k in
      let o = one_owner u i v j t ps h k' in let bad : true ≡ false = sym o ∙ q in absurd (cc)
  | inr e ↦ e
]

-- A token that the table does not have is no work's.
pub fresh_token :
    (u i t fresh : String) (ps : Dict Pointer)
    → Dict.get fresh ps ≡ none
    → Holds u i t ps
    → str_eq fresh t ≡ false
fresh_token u i t fresh ps n h = elim (Bool-cases (str_eq fresh t)) [
  | inl e ↦
      let n' : Dict.get t ps ≡ none = subst (λ x. Dict.get x ps ≡ none) ((eq_iff fresh t).0 e) n in
      let bad : ◌≡◌ {A = Option (String × String)} none (some (u, i)) = rw n' at h.owned in
      absurd (cc)
  | inr e ↦ e
]

pub linked_pointer :
    (u i t : String) (ps : Dict Pointer)
    → Holds u i t ps
    → (p : Pointer) × (Dict.get t ps ≡ some p) × (p.username ≡ u) × (p.artifact_id ≡ i)
linked_pointer u i t ps h = elim (Option-cases (Dict.get t ps)) [
  | inl e ↦
      let bad : ◌≡◌ {A = Option (String × String)} none (some (u, i)) = rw e at h.owned in
      absurd (cc)
  | inr (p, e) ↦
      let q : ◌≡◌ {A = Option (String × String)} (some (owner p)) (some (u, i)) = rw e at h.owned in
      (p, e, (cc), (cc))
]

pub Holds-view :
    (u i t token : String) (at : ℕ) (s : Shares)
    → Holds u i t s.pointers
    → Holds u i t (count_view token at s).pointers
unfolding count_view
Holds-view u i t token at s h = record {
  is_a_token = h.is_a_token;
  by_user = h.by_user;
  of_work = h.of_work;
  owned = elim (Bool-cases (str_eq token t)) [
    | inl q ↦
        let (p, e, a, b) = linked_pointer u i t s.pointers h in rw (get-modify, q, e, a, b) refl
    | inr q ↦ rw (get-modify, q) h.owned
  ];
}
