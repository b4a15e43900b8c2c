-- ===== src/Worker/Egress/Screen.antt =====
-- sandbox-worker/src/namespace/netns.js: what a lease gets of what it asks for.
use agent_pod.Base.{
  ℕ, ◌≡◌, refl, sym, ap, ◌∙◌, List, [], ◌∷◌, ◌++◌, Option, none, some, Bool, true, ◌&&◌, ◌||◌,
  arith, ◌==◌, keep, Bool-cases, Option-cases, inl, inr,
}
use agent_pod.Base.Text
use agent_pod.Base.Text.{Text}
use agent_pod.Worker.Egress.{Entry, has_port, opens, permitted, allow_entry, screen}

has_port-append :
    (p : ℕ) (xs ys : List ℕ) → has_port p (xs ++ ys) ≡ (has_port p xs || has_port p ys)
has_port-append p [] ys = refl
has_port-append p (x ∷ xs) ys = ground (arith, has_port-append p xs ys)

has_port-keep :
    (p : ℕ) (f : ℕ → Bool) (xs : List ℕ) → has_port p (keep f xs) ≡ (has_port p xs && f p)
has_port-keep p f [] = refl
has_port-keep p f (x ∷ xs) = elim (Bool-cases (x == p)) [
  | inl e ↦
      let same : x ≡ p = ground arith in
      let test : f x ≡ f p = ap f same in ground (arith, has_port-keep p f xs, test, e)
  | inr e ↦ ground (arith, has_port-keep p f xs, e)
]

-- The ports that a menu has for a host.
abbrev ports_in : Option (List ℕ) → List ℕ
ports_in none = []
ports_in (some ps) = ps

permitted-opens :
    (host : Text) (p : ℕ) (menu : List Entry)
    → has_port p (ports_in (permitted host menu)) ≡ opens menu host p
unfolding permitted
permitted-opens host p [] = refl
permitted-opens host p (e ∷ es) = elim (Bool-cases (Text.same e.host host)) [
  | inl q ↦
      rw (q, has_port-append p e.ports (ports_in (permitted host es)), permitted-opens host p es)
        refl
  | inr q ↦ rw q (permitted-opens host p es)
]

allow_entry-opens :
    (e : Entry) (kept : List ℕ) (acc : List Entry × List Entry) (host : Text) (p : ℕ)
    → opens (allow_entry e kept acc).0 host p
      ≡ ((Text.same e.host host && has_port p kept) || opens acc.0 host p)
allow_entry-opens e [] (a, r) host p = ground arith
allow_entry-opens e (x ∷ xs) (a, r) host p = refl

-- The menu for the host of an entry is that for the host asked about, where these are the same.
menu_of :
    (e : Entry) (menu : List Entry) (host : Text) (p : ℕ) (o : Option (List ℕ))
    → permitted e.host menu ≡ o
    → Text.same e.host host ≡ true
    → opens menu host p ≡ has_port p (ports_in o)
menu_of e menu host p o q h =
    ap (λ x. opens menu x p) (sym (Text.same→≡ e.host host h))
    ∙ sym (permitted-opens e.host p menu)
    ∙ ap (λ x. has_port p (ports_in x)) q

-- A lease is let into a port of a host where it asked for that port of that host and an entry of the
-- menu with the same host has it, and nowhere else.
pub screen-opens :
    (requested menu : List Entry) (host : Text) (p : ℕ)
    → opens (screen requested menu).0 host p ≡ (opens requested host p && opens menu host p)
unfolding screen
screen-opens [] menu host p = refl
screen-opens (e ∷ es) menu host p = elim (Option-cases (permitted e.host menu)) [
  | inl q ↦
      rw (screen, q) (ground (arith, screen-opens es menu host p, menu_of e menu host p none q))
  | inr (ports, q) ↦
      rw
        (
          screen,
          q,
          allow_entry-opens e (keep (λ x. has_port x ports) e.ports) (screen es menu) host p,
        )
        (ground (
          arith,
          screen-opens es menu host p,
          menu_of e menu host p (some ports) q,
          has_port-keep p (λ x. has_port x ports) e.ports,
        ))
]
