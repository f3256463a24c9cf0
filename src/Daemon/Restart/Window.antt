-- ===== src/Daemon/Restart/Window.antt =====
-- The window of restart times of janus_graph/daemon/falkordb_restart_policy.py, against the times at
-- which `manager.start()` returned.
use janus_graph.Base.{
  ℕ, List, [], ◌∷◌, ◌++◌, Bool, false, ◌&&◌, Option, none, some, ◌+◌, ◌*◌, ◌≤◌, ◌<◌, ◌≡◌, refl, sym,
  ap, ◌∙◌, subst, leb, ltb, All, All-map, All-append, count, count-append, length, arith,
  Bool-cases, inl, inr, if◌then◌else◌,
}
use mathlib.Core.List.{append_assoc}
use native.Mathlib.Nat.{le_refl}
use janus_graph.Daemon.Restart.{Settings, FalkorRestartPolicy, hour, second, prune, is_cooling}

-- The time `t` lies in the hour that begins at `w`, both ends included.
abbrev pub in_hour : ℕ → ℕ → Bool
in_hour w t = leb w t && leb t (w + hour)

-- Any two entries lie at least `c` apart, the later one behind.
abbrev pub IsSpaced : ℕ → List ℕ → Type 0
IsSpaced c [] = Unit
IsSpaced c (t ∷ times) = All (λ u. t + c ≤ u) times × IsSpaced c times

abbrev pub IsLast : Option ℕ → List ℕ → Type 0
IsLast none times = times ≡ []
IsLast (some last) times = All (λ t. t ≤ last) times

-- The window is what is left of all starts when those over an hour old at `now` are dropped.
pub record Inv (now : ℕ) (settings : Settings) (times : List ℕ) (last : Option ℕ) (starts : List ℕ)
    : Type 0 where
  pub dropped : List ℕ
  pub split : starts ≡ dropped ++ times
  pub old : All (λ t. t + hour < now) dropped
  pub bound : (w : ℕ) → count (in_hour w) starts ≤ settings.max_per_hour
  pub is_last : IsLast last starts
  pub spaced : IsSpaced (settings.cooldown_sec * second) starts

abbrev pub InvOf : ℕ → FalkorRestartPolicy → Type 0
InvOf now p = Inv now p.settings p.restart_times p.last_restart_at p.starts

prune-split :
    (now : ℕ) (times : List ℕ)
    → (more : List ℕ) × (times ≡ more ++ prune now times) × All (λ t. t + hour < now) more
unfolding prune
prune-split now [] = ([], refl, tt)
prune-split now (t ∷ times) = elim (Bool-cases (ltb (t + hour) now)) [
  | inl e ↦
      let (more, same, old) = prune-split now times in
      (t ∷ more, rw e (ap (◌∷◌ t) same), (ground arith, old))
  | inr e ↦ ([], rw e, tt)
]

module _ {settings : Settings} {times starts : List ℕ} {last : Option ℕ} where
  pub Inv-later :
      (since now : ℕ)
      → since ≤ now
      → Inv since settings times last starts
      → Inv now settings times last starts
  Inv-later since now le i = record {
    dropped = i.dropped;
    split = i.split;
    old = All-map i.dropped (λ t h. omega arith) i.old;
    bound = i.bound;
    is_last = i.is_last;
    spaced = i.spaced;
  }

  pub Inv-prune :
      (since now : ℕ)
      → since ≤ now
      → Inv since settings times last starts
      → Inv now settings (prune now times) last starts
  Inv-prune since now le i =
      let (more, same, old) = prune-split now times in
      record {
        dropped = i.dropped ++ more;
        split =
            i.split
            ∙ ap (λ r. i.dropped ++ r) same
            ∙ sym (append_assoc i.dropped more (prune now times));
        old = All-append _ i.dropped more (All-map i.dropped (λ t h. omega arith) i.old) old;
        bound = i.bound;
        is_last = i.is_last;
        spaced = i.spaced;
      }

count-le-length : (p : ℕ → Bool) (xs : List ℕ) → count p xs ≤ length xs
unfolding count
count-le-length p [] = omega arith
count-le-length p (x ∷ xs) = ground (arith, count-le-length p xs)

-- No start that is over an hour old counts in an hour that reaches the present.
count-old :
    (w now : ℕ) (dropped : List ℕ)
    → now ≤ w + hour
    → All (λ t. t + hour < now) dropped
    → count (in_hour w) dropped ≡ 0
unfolding count
count-old w now [] h old = refl
count-old w now (t ∷ dropped) h old = ground (arith, count-old w now dropped h old.1)

IsSpaced-append :
    (c t : ℕ) (times : List ℕ)
    → IsSpaced c times
    → All (λ u. u + c ≤ t) times
    → IsSpaced c (times ++ t ∷ [])
IsSpaced-append c t [] s h = (tt, tt)
IsSpaced-append c t (u ∷ times) s h =
    (All-append _ times (t ∷ []) s.0 (h.0, tt), IsSpaced-append c t times s.1 h.1)

IsLast-cooled :
    (settings : Settings) (checked finished : ℕ) (last : Option ℕ) (starts : List ℕ)
    → checked ≤ finished
    → is_cooling checked settings last ≡ false
    → IsLast last starts
    → All (λ u. u + settings.cooldown_sec * second ≤ finished) starts
IsLast-cooled settings checked finished none starts le cooled none_yet =
    subst (All (λ u. u + settings.cooldown_sec * second ≤ finished)) (sym none_yet) tt
IsLast-cooled settings checked finished (some l) starts le cooled at_most =
    All-map starts (λ u h. ground arith) at_most

-- A restart is issued: the window had room, and the cooldown was over.
module _ (settings : Settings) (times starts : List ℕ) (last : Option ℕ) (now checked finished : ℕ)
    (i : Inv now settings times last starts) (in_time : now ≤ finished)
    (checked_first : checked ≤ finished) (room : length times < settings.max_per_hour)
    (cooled : is_cooling checked settings last ≡ false) where
  issue-bound : (w : ℕ) → count (in_hour w) (starts ++ finished ∷ []) ≤ settings.max_per_hour
  unfolding count
  issue-bound w = elim (Bool-cases (in_hour w finished)) [
    | inl e ↦ omega (
      arith,
      count-append (in_hour w) starts (finished ∷ []),
      ap (count (in_hour w)) i.split,
      count-append (in_hour w) i.dropped times,
      count-old w now i.dropped (ground arith) i.old,
      count-le-length (in_hour w) times,
      ap (λ (b : Bool). (if b then 1 else 0) + 0) e,
    )
    | inr e ↦ omega (
      arith,
      count-append (in_hour w) starts (finished ∷ []),
      i.bound w,
      ap (λ (b : Bool). (if b then 1 else 0) + 0) e,
    )
  ]

  pub issue-Inv :
      Inv now settings (times ++ finished ∷ []) (some finished) (starts ++ finished ∷ [])
  issue-Inv =
      let cool =
        IsLast-cooled settings checked finished last starts checked_first cooled i.is_last in
      record {
        dropped = i.dropped;
        split = ap (λ l. l ++ finished ∷ []) i.split ∙ append_assoc i.dropped times (finished ∷ []);
        old = i.old;
        bound = issue-bound;
        is_last =
            All-append _ starts (finished ∷ []) (All-map starts (λ u h. omega arith) cool)
              (le_refl finished, tt);
        spaced = IsSpaced-append _ finished starts i.spaced cool;
      }
