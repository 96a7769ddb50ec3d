-- ===== src/Timer/Change.antt =====
-- `timer_add`, `timer_del` and `timer_update` of utils/timer.c keep a timer valid.
use olivehc.Prelude.{
  ℕ, ◌+◌, ◌≤◌, ◌≡◌, Bool, true, false, Option, none, some, List, [], ◌∷◌, ◌++◌, map, ◌==◌, ◌||◌,
  if◌then◌else◌, arith, All, All-append, All-map, Bool-cases, inl, inr, refl, ap, sym, ◌∙◌,
}
use olivehc.Timer.{
  TimerNode, TimerGroup, Timer, append_to, timer_add, without, timer_del, has_group, in_group,
  Updated, updated, failed, dangling, move_to_end, add_again, timer_update,
}
use olivehc.Timer.Order.{
  Past, GroupIsValid, TimerIsValid, weight_all, weight-append, Sorted, Sorted-lower,
}

Sorted-append :
    (lo : ℕ) (ns : List TimerNode) (n : TimerNode)
    → lo ≤ n.timeout
    → Sorted lo ns
    → All (Past n.timeout) ns
    → Sorted lo (ns ++ (n ∷ []))
Sorted-append lo [] n a s p = (a, tt)
Sorted-append lo (x ∷ ns) n a s p = (s.0, Sorted-append x.timeout ns n p.0 s.1 p.1)

without-Sorted : (h lo : ℕ) (ns : List TimerNode) → Sorted lo ns → Sorted lo (without h ns)
unfolding without
without-Sorted h lo [] s = tt
without-Sorted h lo (n ∷ ns) s = elim (Bool-cases (n.handle == h)) [
  | inl t ↦ rw (t, without) (Sorted-lower lo n.timeout ns s.0 s.1)
  | inr t ↦ rw (t, without) (s.0, without-Sorted h n.timeout ns s.1)
]

without-All :
    (P : TimerNode → Type 0) (h : ℕ) (ns : List TimerNode) → All P ns → All P (without h ns)
unfolding without
without-All P h [] a = tt
without-All P h (n ∷ ns) a = elim (Bool-cases (n.handle == h)) [
  | inl t ↦ rw (t, without) a.1
  | inr t ↦ rw (t, without) (a.0, without-All P h ns a.1)
]

pub timer_del-IsValid :
    (timer : Timer) (h : ℕ) → TimerIsValid timer → TimerIsValid (timer_del timer h)
unfolding timer_del
timer_del-IsValid timer h v = record { groups = groups_left timer.groups v.groups }
  where
    groups_left :
        (gs : List TimerGroup)
        → All (GroupIsValid timer.now) gs
        → All
            (GroupIsValid timer.now)
            (map {A = TimerGroup} (λ g. record g { nodes = without h g.nodes }) gs)
    groups_left [] a = tt
    groups_left (g ∷ gs) a = (
      record {
        sorted = without-Sorted h 0 g.nodes a.0.sorted;
        due = without-All (Past (timer.now + g.timeout)) h g.nodes a.0.due;
      },
      groups_left gs a.1,
    )

-- The node is linked once more, and no other.
pub record Puts (n : TimerNode) (before after : Timer) : Type 0 where
  pub valid : TimerIsValid after
  pub kept : (w : TimerNode → ℕ) → weight_all w after.groups ≡ weight_all w before.groups + w n
  pub expires : after.expires ≡ before.expires

module _ (now timeout : ℕ) (n : TimerNode) (due : n.timeout ≡ now + timeout) where
  grown_group :
      (g : TimerGroup)
      → GroupIsValid now g
      → g.timeout ≡ timeout
      → GroupIsValid now (record g { nodes = g.nodes ++ (n ∷ []) })
  grown_group g v e = record {
    sorted =
        Sorted-append 0 g.nodes n (omega arith) v.sorted
          (All-map _ _ _ (λ x l. omega (arith, l, due, e)) v.due);
    due = All-append (Past (now + g.timeout)) g.nodes (n ∷ []) v.due (omega (arith, due, e), tt);
  }

  record AppendsTo (gs hs : List TimerGroup) : Type 0 where
    valid : All (GroupIsValid now) hs
    kept : (w : TimerNode → ℕ) → weight_all w hs ≡ weight_all w gs + w n

  Appended : List TimerGroup → Option (List TimerGroup) → Type 0
  Appended gs none = has_group timeout gs ≡ false
  Appended gs (some hs) = AppendsTo gs hs

  append_to-Appended :
      (gs : List TimerGroup) → All (GroupIsValid now) gs → Appended gs (append_to timeout n gs)
  unfolding append_to has_group Appended
  append_to-Appended [] v = refl
  append_to-Appended (g ∷ gs) v = elim (Bool-cases (g.timeout == timeout)) [
    | inl t ↦
        rw (t, append_to)
          record {
            valid = (grown_group g v.0 (ground arith), v.1);
            kept = λ w. omega (arith, weight-append w g.nodes (n ∷ []));
          }
    | inr t ↦ rw (t, append_to) (later t (append_to timeout n gs) (append_to-Appended gs v.1))
  ]
    where
      later :
          (g.timeout == timeout) ≡ false
          → (o : Option (List TimerGroup)) → Appended gs o
          → Appended (g ∷ gs) (elim o [ none ↦ none | some hs ↦ some (g ∷ hs) ])
      later t none a = rw t a
      later t (some hs) a = record { valid = (v.0, a.valid); kept = λ w. omega (arith, a.kept w) }

-- The node that `timer_add` makes.
abbrev pub added_node : Timer → ℕ → ℕ → TimerNode
added_node timer handle timeout = record {
  handle = handle;
  timeout = timer.now + timeout;
  group = timeout;
}

abbrev pub AddOk : Bool → Timer → ℕ → ℕ → Option Timer → Type 0
AddOk mem timer handle timeout none = (mem ≡ false) × (has_group timeout timer.groups ≡ false)
AddOk mem timer handle timeout (some after) = Puts (added_node timer handle timeout) timer after

-- `timer_add` to a valid timer links the new node once, loses and makes no other, and leaves a
-- valid timer; it fails only without memory and where no group has the timeout.
pub timer_add-AddOk :
    (mem : Bool) (timer : Timer) (handle timeout : ℕ)
    → TimerIsValid timer
    → AddOk mem timer handle timeout (timer_add mem timer handle timeout)
unfolding timer_add Appended
timer_add-AddOk mem timer handle timeout v =
    on_append mem (append_to timeout n timer.groups)
      (append_to-Appended timer.now timeout n refl timer.groups v.groups)
  where
    n : TimerNode
    n = added_node timer handle timeout

    on_append :
        (mem : Bool) (o : Option (List TimerGroup))
        → Appended timer.now timeout n refl timer.groups o
        → AddOk mem timer handle timeout (elim o [
          | some gs ↦ some (record timer { groups = gs })
          | none ↦
              if mem
              then some (record timer {
                groups = record { timeout = timeout; nodes = n ∷ [] } ∷ timer.groups;
              })
              else none
        ])
    on_append mem (some gs) a = record {
      valid = record { groups = a.valid };
      kept = a.kept;
      expires = refl;
    }
    on_append true none a = record {
      valid = record {
        groups = (record { sorted = (omega arith, tt); due = (omega arith, tt) }, v.groups);
      };
      kept = λ w. omega arith;
      expires = refl;
    }
    on_append false none a = (refl, a)

-- Deleting a node frees no group.
has_group-del :
    (timer : Timer) (h t : ℕ) → has_group t (timer_del timer h).groups ≡ has_group t timer.groups
unfolding timer_del has_group
has_group-del timer h t = over timer.groups
  where
    over :
        (gs : List TimerGroup)
        → has_group t (map {A = TimerGroup} (λ g. record g { nodes = without h g.nodes }) gs)
          ≡ has_group t gs
    over [] = refl
    over (g ∷ gs) = ap (λ b. if g.timeout == t then true else b) (over gs)

-- The timeout that the node gets.
abbrev pub new_timeout : TimerNode → ℕ → ℕ
new_timeout tnode timeout =
    if (timeout == 0) || (timeout == tnode.group) then tnode.group else timeout

-- The node is unlinked, and linked anew with the timeout `to`, or there is no memory for a group
-- of that timeout.
abbrev pub Readds : Bool → Timer → TimerNode → ℕ → Updated → Type 0
Readds mem timer tnode to (updated after) =
    Puts (added_node timer tnode.handle to) (timer_del timer tnode.handle) after
Readds mem timer tnode to (failed after) =
    (after ≡ timer_del timer tnode.handle)
    × TimerIsValid after
    × (mem ≡ false)
    × (has_group to timer.groups ≡ false)
Readds mem timer tnode to dangling = ⊥

module _ (mem : Bool) (timer : Timer) (tnode : TimerNode) (v : TimerIsValid timer) where
  abbrev rest : Timer
  rest = timer_del timer tnode.handle

  move_to_end-Readds :
      has_group tnode.group timer.groups ≡ true
      → Readds mem timer tnode tnode.group (move_to_end rest tnode)
  unfolding move_to_end Appended timer_del
  move_to_end-Readds e = on_append (append_to tnode.group n rest.groups) (
      append_to-Appended timer.now tnode.group n refl rest.groups
        (timer_del-IsValid timer tnode.handle v).groups)
    where
      n : TimerNode
      n = added_node timer tnode.handle tnode.group

      on_append :
          (o : Option (List TimerGroup))
          → Appended timer.now tnode.group n refl rest.groups o
          → Readds mem timer tnode tnode.group
              (elim o [ some gs ↦ updated (record rest { groups = gs }) | none ↦ dangling ])
      on_append none a = cc (a, e, has_group-del timer tnode.handle tnode.group)
      on_append (some gs) a = record {
        valid = record { groups = a.valid };
        kept = a.kept;
        expires = refl;
      }

  add_again-Readds :
      (timeout : ℕ) → Readds mem timer tnode timeout (add_again mem rest tnode timeout)
  unfolding add_again timer_del
  add_again-Readds timeout =
      on_added (timer_add mem rest tnode.handle timeout)
        (timer_add-AddOk mem rest tnode.handle timeout (timer_del-IsValid timer tnode.handle v))
    where
      on_added :
          (o : Option Timer)
          → AddOk mem rest tnode.handle timeout o
          → Readds mem timer tnode timeout (elim o [ some t ↦ updated t | none ↦ failed rest ])
      on_added (some t) a = a
      on_added none a = (
        refl,
        timer_del-IsValid timer tnode.handle v,
        a.0,
        sym (has_group-del timer tnode.handle timeout) ∙ a.1,
      )

-- A node with a group that has it has a group.
in_group-has_group :
    (n : TimerNode) (gs : List TimerGroup) → in_group n gs ≡ true → has_group n.group gs ≡ true
unfolding in_group has_group
in_group-has_group n [] e = e
in_group-has_group n (g ∷ gs) e = elim (Bool-cases (g.timeout == n.group)) [
  | inl t ↦ rw (t, has_group) refl
  | inr t ↦ rw (t, has_group) (in_group-has_group n gs (ground (arith, t, e)))
]

pub update-Readds :
    (mem : Bool) (timer : Timer) (tnode : TimerNode) (timeout : ℕ)
    → TimerIsValid timer
    → in_group tnode timer.groups ≡ true
    → Readds mem timer tnode (new_timeout tnode timeout) (timer_update mem timer tnode timeout)
unfolding timer_update
update-Readds mem timer tnode timeout v e =
    let f = in_group-has_group tnode timer.groups e in
    elim (Bool-cases ((timeout == 0) || (timeout == tnode.group))) [
      | inl t ↦ rw (e, t, timer_update) (move_to_end-Readds mem timer tnode v f)
      | inr t ↦ rw (e, t, timer_update) (add_again-Readds mem timer tnode v timeout)
    ]
