-- ===== src/Timer/Order.antt =====
-- Within a group of utils/timer.c the nodes stand by timeout, so that a search from the first
-- node on finds what has expired.
use olivehc.Prelude.{
  ℕ, ◌+◌, ◌≤◌, ◌<◌, ◌≡◌, List, [], ◌∷◌, ◌++◌, ltb, arith, All, All-append, All-map, Bool-cases, inl,
  inr, refl,
}
use olivehc.Timer.{TimerNode, TimerGroup, Timer, take_expired, expire_groups}

-- By timeout, from `lo` on.
abbrev pub Sorted : ℕ → List TimerNode → Type 0
Sorted lo [] = Unit {0}
Sorted lo (n ∷ ns) = (lo ≤ n.timeout) × Sorted n.timeout ns

abbrev pub Later : ℕ → TimerNode → Type 0
Later now n = now < n.timeout

abbrev pub Past : ℕ → TimerNode → Type 0
Past now n = n.timeout ≤ now

-- The nodes of a group stand by timeout, and none times out after one that is added now.
pub record GroupIsValid (now : ℕ) (g : TimerGroup) : Type 0 where
  pub sorted : Sorted 0 g.nodes
  pub due : All (λ n. n.timeout ≤ now + g.timeout) g.nodes

pub record TimerIsValid (timer : Timer) : Type 0 where
  pub groups : All (GroupIsValid timer.now) timer.groups

-- A sum over the nodes.
module _ (w : TimerNode → ℕ) where
  abbrev pub weight : List TimerNode → ℕ
  weight [] = 0
  weight (n ∷ ns) = w n + weight ns

  abbrev pub weight_all : List TimerGroup → ℕ
  weight_all [] = 0
  weight_all (g ∷ gs) = weight g.nodes + weight_all gs

  pub weight-append : (xs ys : List TimerNode) → weight (xs ++ ys) ≡ weight xs + weight ys
  weight-append [] ys = omega arith
  weight-append (x ∷ xs) ys = omega (arith, weight-append xs ys)

pub Sorted-lower : (m lo : ℕ) (ns : List TimerNode) → m ≤ lo → Sorted lo ns → Sorted m ns
Sorted-lower m lo [] a s = tt
Sorted-lower m lo (n ∷ ns) a s = (omega (arith, s.0), s.1)

Sorted-All : (now lo : ℕ) (ns : List TimerNode) → now < lo → Sorted lo ns → All (Later now) ns
Sorted-All now lo [] a s = tt
Sorted-All now lo (n ∷ ns) a s =
    (omega (arith, s.0), Sorted-All now n.timeout ns (omega (arith, s.0)) s.1)

record Splits (now lo : ℕ) (ns : List TimerNode) (r : List TimerNode × List TimerNode)
    : Type 0 where
  gone : All (Past now) r.0
  left : All (Later now) r.1
  sorted : Sorted lo r.1
  kept : (w : TimerNode → ℕ) → weight w r.0 + weight w r.1 ≡ weight w ns
  sub : (m : ℕ) → All (Past m) ns → All (Past m) r.1

take_expired-Splits :
    (now lo : ℕ) (ns : List TimerNode) → Sorted lo ns → Splits now lo ns (take_expired now ns)
unfolding take_expired
take_expired-Splits now lo [] s = record {
  gone = tt;
  left = tt;
  sorted = tt;
  kept = λ w. refl;
  sub = λ m a. tt;
}
take_expired-Splits now lo (n ∷ ns) s = elim (Bool-cases (ltb now n.timeout)) [
  | inl t ↦
      rw (t, take_expired)
        record {
          gone = tt;
          left = (ground arith, Sorted-All now n.timeout ns (ground arith) s.1);
          sorted = s;
          kept = λ w. omega arith;
          sub = λ m a. a;
        }
  | inr t ↦
      let r = take_expired-Splits now n.timeout ns s.1 in
      rw (t, take_expired)
        record {
          gone = (ground arith, r.gone);
          left = r.left;
          sorted = Sorted-lower lo n.timeout _ s.0 r.sorted;
          kept = λ w. omega (arith, r.kept w);
          sub = λ m a. r.sub m a.1;
        }
]

pub record ExpiresGroups (now : ℕ) (gs : List TimerGroup) (r : List TimerNode × List TimerGroup)
    : Type 0 where
  pub gone : All (Past now) r.0
  pub left : All (λ g. All (Later now) g.nodes) r.1
  pub valid : All (GroupIsValid now) r.1
  pub kept : (w : TimerNode → ℕ) → weight w r.0 + weight_all w r.1 ≡ weight_all w gs

pub expire_groups-ExpiresGroups :
    (before now : ℕ) (gs : List TimerGroup)
    → before ≤ now
    → All (GroupIsValid before) gs
    → ExpiresGroups now gs (expire_groups now gs)
unfolding expire_groups
expire_groups-ExpiresGroups before now [] a v = record {
  gone = tt;
  left = tt;
  valid = tt;
  kept = λ w. refl;
}
expire_groups-ExpiresGroups before now (g ∷ gs) a v =
    let r = take_expired-Splits now 0 g.nodes v.0.sorted in
    let rs = expire_groups-ExpiresGroups before now gs a v.1 in
    record {
      gone = All-append (Past now) _ _ r.gone rs.gone;
      left = (r.left, rs.left);
      valid = (
        record {
          sorted = r.sorted;
          due = All-map _ _ _ (λ n l. omega (arith, l)) (r.sub (before + g.timeout) v.0.due);
        },
        rs.valid,
      );
      kept = λ w. omega (
        arith,
        r.kept w,
        rs.kept w,
        weight-append w (take_expired now g.nodes).0 (expire_groups now gs).0,
      );
    }
