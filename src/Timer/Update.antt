-- ===== src/Timer/Update.antt =====
-- `timer_update` of utils/timer.c: one node is moved, and the others stay.
use olivehc.Prelude.{
  ℕ, ◌+◌, ◌≤◌, ◌≡◌, Bool, true, false, List, [], ◌∷◌, map, ◌==◌, if◌then◌else◌, arith, Bool-cases,
  inl, inr, refl,
}
use olivehc.Timer.{
  TimerNode, TimerGroup, Timer, without, timer_del, has_group, in_group, Updated, updated, failed,
  dangling, timer_update,
}
use olivehc.Timer.Order.{TimerIsValid, weight, weight_all}
use olivehc.Timer.Change.{new_timeout, Readds, update-Readds}

-- A weight of the nodes of a handle only, and of all others.
abbrev pub own : ℕ → (TimerNode → ℕ) → TimerNode → ℕ
own handle w n = if n.handle == handle then w n else 0

abbrev pub others : ℕ → (TimerNode → ℕ) → TimerNode → ℕ
others handle w n = if n.handle == handle then 0 else w n

abbrev pub each : TimerNode → ℕ
each n = 1

-- The other nodes are where they were.
pub record OthersStay (handle : ℕ) (before after : Timer) : Type 0 where
  pub linked :
      (w : TimerNode → ℕ)
      → weight_all (others handle w) after.groups ≡ weight_all (others handle w) before.groups
  pub expired :
      (w : TimerNode → ℕ)
      → weight (others handle w) after.expires ≡ weight (others handle w) before.expires
  pub none_expired : weight (own handle each) after.expires ≡ 0

-- The node stands once in the groups, as it is to be; or there is no memory for a group of the
-- timeout, and it is linked no more.
abbrev pub UpdatesTo : Bool → Timer → TimerNode → ℕ → Updated → Type 0
UpdatesTo mem timer tnode to (updated after) =
    TimerIsValid after
    × OthersStay tnode.handle timer after
    × ((w : TimerNode → ℕ)
        → weight_all (own tnode.handle w) after.groups
          ≡ w (record { handle = tnode.handle; timeout = timer.now + to; group = to }))
UpdatesTo mem timer tnode to (failed after) =
    TimerIsValid after
    × OthersStay tnode.handle timer after
    × (weight_all (own tnode.handle each) after.groups ≡ 0)
    × (mem ≡ false)
    × (has_group to timer.groups ≡ false)
UpdatesTo mem timer tnode to dangling = ⊥

module _ (h : ℕ) where
  without-others :
      (w : TimerNode → ℕ) (ns : List TimerNode)
      → weight (others h w) (without h ns) ≡ weight (others h w) ns
  unfolding without
  without-others w [] = refl
  without-others w (n ∷ ns) =
      let rest = without-others w ns in
      elim (Bool-cases (n.handle == h)) [
        | inl t ↦ rw (t, without) (ground (arith, t))
        | inr t ↦ rw (t, without) (ground (arith, t, rest))
      ]

  none-own :
      (w : TimerNode → ℕ) (ns : List TimerNode)
      → weight (own h each) ns ≡ 0
      → weight (own h w) ns ≡ 0
  none-own w [] e = refl
  none-own w (n ∷ ns) e = elim (Bool-cases (n.handle == h)) [
    | inl t ↦ ground (arith, t, e)
    | inr t ↦
        let rest : weight (own h each) ns ≡ 0 = ground (arith, t, e) in
        ground (arith, t, none-own w ns rest)
  ]

  without-own :
      (w : TimerNode → ℕ) (ns : List TimerNode)
      → weight (own h each) ns ≤ 1
      → weight (own h w) (without h ns) ≡ 0
  unfolding without
  without-own w [] l = refl
  without-own w (n ∷ ns) l = elim (Bool-cases (n.handle == h)) [
    | inl t ↦ rw (t, without) (none-own w ns (ground (arith, t, l)))
    | inr t ↦
        let rest : weight (own h each) ns ≤ 1 = ground (arith, t, l) in
        let gone = without-own w ns rest in rw (t, without) (ground (arith, t, gone))
  ]

  abbrev left : List TimerGroup → List TimerGroup
  left gs = map {A = TimerGroup} (λ g. record g { nodes = without h g.nodes }) gs

  left-others :
      (w : TimerNode → ℕ) (gs : List TimerGroup)
      → weight_all (others h w) (left gs) ≡ weight_all (others h w) gs
  left-others w [] = refl
  left-others w (g ∷ gs) = omega (arith, without-others w g.nodes, left-others w gs)

  left-own :
      (w : TimerNode → ℕ) (gs : List TimerGroup)
      → weight_all (own h each) gs ≤ 1
      → weight_all (own h w) (left gs) ≡ 0
  left-own w [] l = refl
  left-own w (g ∷ gs) l =
      omega (arith, without-own w g.nodes (omega (arith, l)), left-own w gs (omega (arith, l)))

  del-OthersStay :
      (timer : Timer)
      → weight_all (own h each) timer.groups + weight (own h each) timer.expires ≤ 1
      → OthersStay h timer (timer_del timer h)
  unfolding timer_del
  del-OthersStay timer l = record {
    linked = λ w. left-others w timer.groups;
    expired = λ w. without-others w timer.expires;
    none_expired = without-own each timer.expires (omega (arith, l));
  }

  del-own :
      (timer : Timer) (w : TimerNode → ℕ)
      → weight_all (own h each) timer.groups + weight (own h each) timer.expires ≤ 1
      → weight_all (own h w) (timer_del timer h).groups ≡ 0
  unfolding timer_del
  del-own timer w l = left-own w timer.groups (omega (arith, l))

-- On a valid timer in which the node stands on its group's list, and no other node has its
-- handle, `timer_update` leaves a valid timer in which the node stands once, due at the new
-- timeout, or the old one where 0 is given, from now on, and every other node, in the groups
-- and among the expired, is as before; it reads no freed group, and only without memory and
-- where no group has the new timeout does it fail, with the node unlinked and every other as
-- before.
pub timer_update-UpdatesTo :
    (mem : Bool) (timer : Timer) (tnode : TimerNode) (timeout : ℕ)
    → TimerIsValid timer
    → in_group tnode timer.groups ≡ true
    → weight_all (own tnode.handle each) timer.groups + weight (own tnode.handle each) timer.expires
      ≤ 1
    → UpdatesTo mem timer tnode (new_timeout tnode timeout) (timer_update mem timer tnode timeout)
timer_update-UpdatesTo mem timer tnode timeout v e once =
    on_update (timer_update mem timer tnode timeout) (update-Readds mem timer tnode timeout v e)
  where
    h : ℕ
    h = tnode.handle

    to : ℕ
    to = new_timeout tnode timeout

    stay : OthersStay h timer (timer_del timer h)
    stay = del-OthersStay h timer once

    self : (h == h) ≡ true
    self = ground arith

    on_update : (x : Updated) → Readds mem timer tnode to x → UpdatesTo mem timer tnode to x
    on_update (updated after) p = (
      p.valid,
      record {
        linked = λ w. ground (arith, p.kept (others h w), stay.linked w, self);
        expired = λ w. rw p.expires (stay.expired w);
        none_expired = rw p.expires stay.none_expired;
      },
      λ w. ground (arith, p.kept (own h w), del-own h timer w once, self),
    )
    on_update (failed after) (same, valid, mem_is, no_group) =
        (valid, rw same stay, rw same (del-own h timer each once), mem_is, no_group)
    on_update dangling e = e
