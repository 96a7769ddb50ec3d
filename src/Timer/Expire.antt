-- ===== src/Timer/Expire.antt =====
-- `timer_expire` and `timer_closest` of utils/timer.c.
use olivehc.Prelude.{
  ℕ, ◌+◌, ◌-◌, ◌≤◌, ◌≡◌, List, [], ◌∷◌, ◌++◌, leb, ltb, if◌then◌else◌, arith, All, All-map,
  Bool-cases, inl, inr, refl, ap, subst, sym, ◌⊎◌,
}
use olivehc.Timer.{
  TimerNode, TimerGroup, Timer, big_time, expire_groups, timer_expire, closest_of, timer_closest,
}
use olivehc.Timer.Order.{
  Later, Past, GroupIsValid, TimerIsValid, weight, weight_all, weight-append,
  expire_groups-ExpiresGroups, Sorted,
}

-- What `timer_expire` does to a timer.
pub record Expires (now : ℕ) (before after : Timer) : Type 0 where
  pub valid : TimerIsValid after
  pub left : All (λ g. All (Later now) g.nodes) after.groups
  pub gone :
      (late : List TimerNode) × (after.expires ≡ before.expires ++ late) × All (Past now) late
  pub kept :
      (w : TimerNode → ℕ)
      → weight_all w after.groups + weight w after.expires
        ≡ weight_all w before.groups + weight w before.expires

-- On a timer whose groups stand by timeout and hold no timeout later than one that is added
-- now, `timer_expire` at a time not before the last moves to the expired list nodes that have
-- timed out only and leaves in the groups none that has, loses and makes no node, and leaves a
-- valid timer.
pub timer_expire-Expires :
    (timer : Timer) (now : ℕ)
    → TimerIsValid timer
    → timer.now ≤ now
    → Expires now timer (timer_expire now timer)
unfolding timer_expire
timer_expire-Expires timer now v a =
    let r = expire_groups-ExpiresGroups timer.now now timer.groups a v.groups in
    let (gone, left) = expire_groups now timer.groups in
    record {
      valid = record { groups = r.valid };
      left = r.left;
      gone = (gone, refl, r.gone);
      kept = λ w. omega (arith, r.kept w, weight-append w timer.expires gone);
    }

-- A first node of a group has the timeout.
abbrev HeadIs : ℕ → List TimerNode → Type 0
HeadIs t [] = ⊥
HeadIs t (n ∷ ns) = n.timeout ≡ t

abbrev pub FirstOf : ℕ → List TimerGroup → Type 0
FirstOf t [] = ⊥
FirstOf t (g ∷ gs) = HeadIs t g.nodes ⊎ FirstOf t gs

record ClosestOf (now closest : ℕ) (gs : List TimerGroup) (r : ℕ × List TimerGroup) : Type 0 where
  low : r.0 ≤ closest
  lower : All (λ g. All (λ n. r.0 ≤ n.timeout) g.nodes) r.1
  reached : (r.0 ≡ closest) ⊎ FirstOf r.0 r.1
  valid : All (GroupIsValid now) r.1
  kept : (w : TimerNode → ℕ) → weight_all w r.1 ≡ weight_all w gs

from_Sorted : (m lo : ℕ) (ns : List TimerNode) → m ≤ lo → Sorted lo ns → All (λ n. m ≤ n.timeout) ns
from_Sorted m lo [] a s = tt
from_Sorted m lo (n ∷ ns) a s =
    (omega (arith, s.0), from_Sorted m n.timeout ns (omega (arith, s.0)) s.1)

closest_of-ClosestOf :
    (before now closest : ℕ) (gs : List TimerGroup)
    → before ≤ now
    → All (GroupIsValid before) gs
    → ClosestOf now closest gs (closest_of closest gs)
unfolding closest_of
closest_of-ClosestOf before now closest [] a v = record {
  low = omega arith;
  lower = tt;
  reached = inl refl;
  valid = tt;
  kept = λ w. refl;
}
closest_of-ClosestOf before now closest (g ∷ gs) a v =
    on_nodes (λ c. closest_of-ClosestOf before now c gs a v.1) g.nodes refl
  where
    on_nodes :
        ((c : ℕ) → ClosestOf now c gs (closest_of c gs))
        → (ns : List TimerNode) → g.nodes ≡ ns
        → ClosestOf now closest (g ∷ gs) (elim ns [
          | [] ↦ closest_of closest gs
          | n ∷ ns ↦
              let (c, left) =
                closest_of (if ltb n.timeout closest then n.timeout else closest) gs in
              (c, g ∷ left)
        ])
    on_nodes rest [] e =
        let r = rest closest in
        record {
          low = r.low;
          lower = r.lower;
          reached = r.reached;
          valid = r.valid;
          kept = λ w. omega (arith, r.kept w, ap (weight w) e);
        }
    on_nodes rest (n ∷ ns) e =
        let first = if ltb n.timeout closest then n.timeout else closest in
        let r = rest first in
        let least : first ≤ n.timeout = ground arith in
        let most : first ≤ closest = ground arith in
        let s : Sorted 0 (n ∷ ns) = subst (Sorted 0) e v.0.sorted in
        let m = (closest_of first gs).0 in
        let below : All (λ x. m ≤ x.timeout) (n ∷ ns) = (
          omega (arith, r.low, least),
          from_Sorted m n.timeout ns (omega (arith, r.low, least)) s.1,
        ) in
        record {
          low = omega (arith, r.low, most);
          lower = (subst (λ t. All (λ x. m ≤ x.timeout) t) (sym e) below, r.lower);
          reached = elim r.reached [
            | inr f ↦ inr (inr f)
            | inl f ↦ elim (Bool-cases (ltb n.timeout closest)) [
              | inl t ↦
                  let at : n.timeout ≡ m = ground (arith, f, t) in
                  inr (inl (subst (HeadIs m) (sym e) at))
              | inr t ↦ inl (ground (arith, f, t))
            ]
          ];
          valid = (
            record { sorted = v.0.sorted; due = All-map _ _ _ (λ x l. omega (arith, l)) v.0.due },
            r.valid,
          );
          kept = λ w. omega (arith, r.kept w);
        }

-- What `timer_closest` gives and does.
pub record Closest (now : ℕ) (before : Timer) (r : ℕ × Timer) : Type 0 where
  pub valid : TimerIsValid r.1
  pub lower : All (λ g. All (λ n. r.0 ≤ n.timeout - now) g.nodes) r.1.groups
  pub reached : (r.0 ≡ big_time - now) ⊎ ((t : ℕ) × FirstOf t r.1.groups × (r.0 ≡ t - now))
  pub expires : r.1.expires ≡ before.expires
  pub kept : (w : TimerNode → ℕ) → weight_all w r.1.groups ≡ weight_all w before.groups

-- On a valid timer, `timer_closest` at a time not before the last gives a wait that is at most
-- the time left of every node, and is that of the first node of some group or that up to
-- `BIG_TIME`; it keeps every node and leaves a valid timer.
pub timer_closest-Closest :
    (timer : Timer) (now : ℕ)
    → TimerIsValid timer
    → timer.now ≤ now
    → Closest now timer (timer_closest now timer)
unfolding timer_closest
timer_closest-Closest timer now v a =
    let r = closest_of-ClosestOf timer.now now big_time timer.groups a v.groups in
    let c = (closest_of big_time timer.groups).0 in
    let wait : (if leb c now then 0 else c - now) ≡ c - now = ground arith in
    record {
      valid = record { groups = r.valid };
      lower = All-map _ _ _ (λ g l. All-map _ _ _ (λ n k. omega (arith, wait, k)) l) r.lower;
      reached = elim r.reached [ inl e ↦ inl (omega (arith, wait, e)) | inr f ↦ inr (c, f, wait) ];
      expires = refl;
      kept = r.kept;
    }
