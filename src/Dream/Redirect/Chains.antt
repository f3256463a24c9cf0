-- ===== src/Dream/Redirect/Chains.antt =====
-- Where the chains of merges end (`_root` in janus_graph/pipeline/dedup.py and dedup_apply.py).
use janus_graph.Base.{
  ℕ, zero, suc, Text, text_eq, text_eq_iff, List, [], ◌∷◌, ◌++◌, ◌≡◌, refl, ap, sym, ◌∙◌, ◌<◌,
  arith, true, false, some, any, length, All, All-map, All-zip, All-of, if_both, subst, Bool-cases,
  inl, inr, if◌then◌else◌,
}
use mathlib.Core.List.{append_assoc}
use janus_graph.Dream.Redirect.{Map, lookup, has_key, root_from, root}

-- No entry leads to its own key, and no key is mentioned again further on: a victim is gone when
-- the next merge is chosen.
abbrev pub Forward : Map → Type 0
Forward [] = Unit
Forward ((k, v) ∷ m) =
    (text_eq k v ≡ false)
    × All (λ e. (text_eq k e.0 ≡ false) × (text_eq k e.1 ≡ false)) m
    × Forward m

-- One pass over the entries, which follows each that leads on from the present node.
pub last_of : Map → Text → Text
last_of [] u = u
last_of ((k, v) ∷ m) u = last_of m (if text_eq k u then v else u)

pub has_key-cons :
    (k v u : Text) (m : Map) → has_key u ((k, v) ∷ m) ≡ (if text_eq k u then true else has_key u m)
unfolding lookup
has_key-cons k v u m = ground arith

-- Past entries that have other keys.
lookup-append : (u : Text) (m n : Map) → has_key u m ≡ false → lookup u (m ++ n) ≡ lookup u n
unfolding lookup
lookup-append u [] n h = refl
lookup-append u ((k, v) ∷ m) n h = ground (arith, lookup-append u m n)

pub has_key-snoc :
    (u k v : Text) (m : Map)
    → has_key u m ≡ false
    → text_eq k u ≡ false
    → has_key u (m ++ (k, v) ∷ []) ≡ false
unfolding lookup
has_key-snoc u k v m h e = rw (lookup-append u m ((k, v) ∷ []) h) (ground arith)

has_key-snoc_self : (k v : Text) (m : Map) → has_key k (m ++ (k, v) ∷ []) ≡ true
unfolding lookup
has_key-snoc_self k v [] = rw ((text_eq_iff k k).1 refl)
has_key-snoc_self k v ((j, w) ∷ m) = ground (arith, has_key-snoc_self k v m)

has_key-snoc_old :
    (u k v : Text) (m : Map) → has_key u m ≡ true → has_key u (m ++ (k, v) ∷ []) ≡ true
unfolding lookup
has_key-snoc_old u k v [] h = ground arith
has_key-snoc_old u k v ((j, w) ∷ m) h = ground (arith, has_key-snoc_old u k v m)

-- A text that is no key differs from every text that is one.
fresh_any :
    (u : Text) (m : Map) (seen : List Text)
    → has_key u m ≡ false
    → All (λ s. has_key s m ≡ true) seen
    → any (text_eq u) seen ≡ false
unfolding any
fresh_any u m [] h a = refl
fresh_any u m (s ∷ seen) h a = elim (Bool-cases (text_eq u s)) [
  | inl e ↦ let same = (text_eq_iff u s).0 e in cc (a.0, h, same)
  | inr e ↦ rw e (fresh_any u m seen h a.1)
]

lookup-head : (u k v : Text) (m : Map) → text_eq k u ≡ true → lookup u ((k, v) ∷ m) ≡ some v
unfolding lookup
lookup-head u k v m e = rw e

root_from-last_of :
    (fuel : ℕ) (seen : List Text) (pre m : Map) (u : Text)
    → length m < fuel
    → has_key u pre ≡ false
    → All (λ s. has_key s pre ≡ true) seen
    → All (λ (e : Text × Text). has_key e.1 pre ≡ false) m
    → Forward m
    → root_from fuel seen (pre ++ m) u ≡ last_of m u
unfolding root_from last_of
root_from-last_of zero seen pre m u f h a b fwd = absurd (omega arith)
root_from-last_of (suc fuel) seen pre [] u f h a b fwd =
    rw (fresh_any u pre seen h a, lookup-append u pre [] h, root_from)
root_from-last_of (suc fuel) seen pre ((k, v) ∷ m) u f h a b fwd =
    let pre' = pre ++ (k, v) ∷ [] in
    let older = All-map seen (λ s. has_key-snoc_old s k v pre) a in
    let apart = All-zip m (λ e p q. has_key-snoc e.1 k v pre p q.1) b.1 fwd.1 in
    let regroup = append_assoc pre ((k, v) ∷ []) m in
    elim (Bool-cases (text_eq k u)) [
      | inl e ↦
          let same : k ≡ u = (text_eq_iff k u).0 e in
          rw
            (
              fresh_any u pre seen h a,
              lookup-append u pre ((k, v) ∷ m) h,
              lookup-head u k v m e,
              e,
              root_from,
            )
            (ap (λ n. root_from fuel (u ∷ seen) n v) (sym regroup)
              ∙ root_from-last_of fuel (u ∷ seen) pre' m v (omega arith)
                  (has_key-snoc v k v pre b.0 fwd.0)
                  (subst (λ w. has_key w pre' ≡ true) same (has_key-snoc_self k v pre), older) apart
                  fwd.2)
      | inr e ↦ rw e (
          ap (λ n. root_from (suc fuel) seen n u) (sym regroup)
          ∙ root_from-last_of (suc fuel) seen pre' m u (omega arith) (has_key-snoc u k v pre h e)
              older apart fwd.2)
    ]

-- On a forward dictionary the chain from `u` is the one pass.
pub root-last_of : (m : Map) (u : Text) → Forward m → root m u ≡ last_of m u
unfolding root lookup
root-last_of m u fwd =
    root_from-last_of (suc (length m)) [] [] m u (omega arith) refl tt (All-of m (λ e. refl)) fwd

-- The pass ends where `P` holds, if it starts there and every entry leads there.
pub last_of-P :
    (P : Text → Type 0) (m : Map) (u : Text)
    → P u
    → All (λ (e : Text × Text). P e.1) m
    → P (last_of m u)
unfolding last_of
last_of-P P [] u h a = h
last_of-P P ((k, v) ∷ m) u h a =
    last_of-P P m (if text_eq k u then v else u) (if_both (text_eq k u) P a.0 h) a.1

-- The end of a chain has no entry.
pub has_key-last_of : (m : Map) (u : Text) → Forward m → has_key (last_of m u) m ≡ false
unfolding last_of lookup
has_key-last_of [] u fwd = refl
has_key-last_of ((k, v) ∷ m) u fwd =
    let next = if text_eq k u then v else u in
    let apart : text_eq k next ≡ false = elim (Bool-cases (text_eq k u)) [
      | inl e ↦ rw e fwd.0
      | inr e ↦ rw e e
    ] in
    let end : text_eq k (last_of m next) ≡ false =
      last_of-P (λ w. text_eq k w ≡ false) m next apart (All-map m (λ e p. p.1) fwd.1) in
    rw (has_key-cons k v (last_of m next) m, end) (has_key-last_of m next fwd.2)
