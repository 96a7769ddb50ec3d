-- ===== src/Timer.antt =====
-- utils/timer.c: timers in groups of one timeout each.
-- A timer node is a handle; the group on whose list it stands is `tnode->group`. A group with nodes is
-- not freed, so that the timeout tells the group of a node on its list. The time that
-- `time` gives is an argument, and `mem` says whether `malloc` finds memory for a group.
pub mod Order
pub mod Expire
pub mod Change
pub mod Update
mod Tests
use olivehc.Prelude.{
  ℕ, ◌+◌, ◌-◌, Bool, true, false, Option, none, some, List, [], ◌∷◌, ◌++◌, map, leb, ltb, ◌==◌,
  ◌||◌, if◌then◌else◌,
}

-- `ohc_timer_node_t`; `group` is the timeout of the group, by which the group is known.
pub record TimerNode : Type 0 where
  pub handle : ℕ
  pub timeout : ℕ
  pub group : ℕ

pub record TimerGroup : Type 0 where
  pub timeout : ℕ
  pub nodes : List TimerNode

pub record Timer : Type 0 where
  pub groups : List TimerGroup
  pub expires : List TimerNode
  pub now : ℕ

abbrev pub big_time : ℕ
big_time = 3638880000

unfoldable pub timer_init : ℕ → Timer
timer_init now = record { groups = []; expires = []; now = now }

-- The nodes of a group that have expired, and the others: the loop ends at the first other.
unfoldable pub take_expired : ℕ → List TimerNode → List TimerNode × List TimerNode
take_expired now [] = ([], [])
take_expired now (n ∷ ns) =
    let (gone, left) = take_expired now ns in
    if ltb now n.timeout then ([], n ∷ ns) else (n ∷ gone, left)

-- The expired nodes of all groups, in order, and the groups without them.
unfoldable pub expire_groups : ℕ → List TimerGroup → List TimerNode × List TimerGroup
unfolding take_expired
expire_groups now [] = ([], [])
expire_groups now (g ∷ gs) =
    let (gone, left) = take_expired now g.nodes in
    let (more, others) = expire_groups now gs in (gone ++ more, record g { nodes = left } ∷ others)

unfoldable pub timer_expire : ℕ → Timer → Timer
unfolding expire_groups
timer_expire now timer =
    let (gone, left) = expire_groups now timer.groups in
    record { groups = left; expires = timer.expires ++ gone; now = now }

-- The loop of `timer_closest`: the first timeouts, from `closest` on down, and the groups that
-- are not empty.
unfoldable pub closest_of : ℕ → List TimerGroup → ℕ × List TimerGroup
closest_of closest [] = (closest, [])
closest_of closest (g ∷ gs) = elim g.nodes [
  | [] ↦ closest_of closest gs
  | n ∷ ns ↦
      let (c, left) = closest_of (if ltb n.timeout closest then n.timeout else closest) gs in
      (c, g ∷ left)
]

unfoldable pub timer_closest : ℕ → Timer → ℕ × Timer
unfolding closest_of
timer_closest now timer =
    let (closest, left) = closest_of big_time timer.groups in
    (if leb closest now then 0 else closest - now, record timer { groups = left; now = now })

-- The group with a timeout, if there is one, takes the node as its last.
unfoldable pub append_to : ℕ → TimerNode → List TimerGroup → Option (List TimerGroup)
append_to timeout n [] = none
append_to timeout n (g ∷ gs) =
    let rest = append_to timeout n gs in
    if g.timeout == timeout
    then some (record g { nodes = g.nodes ++ (n ∷ []) } ∷ gs)
    else elim rest [ none ↦ none | some hs ↦ some (g ∷ hs) ]

-- `none` where there is no memory (the result 1).
unfoldable pub timer_add : Bool → Timer → ℕ → ℕ → Option Timer
unfolding append_to
timer_add mem timer handle timeout =
    let n : TimerNode = record {
      handle = handle;
      timeout = timer.now + timeout;
      group = timeout;
    } in
    elim (append_to timeout n timer.groups) [
      | some gs ↦ some (record timer { groups = gs })
      | none ↦
          if mem
          then some (record timer {
            groups = record { timeout = timeout; nodes = n ∷ [] } ∷ timer.groups;
          })
          else none
    ]

unfoldable pub without : ℕ → List TimerNode → List TimerNode
without handle [] = []
without handle (n ∷ ns) = if n.handle == handle then ns else n ∷ without handle ns

-- `list_del`, wherever the node is linked
unfoldable pub timer_del : Timer → ℕ → Timer
unfolding without
timer_del timer handle = record timer {
  groups = map {A = TimerGroup} (λ g. record g { nodes = without handle g.nodes }) timer.groups;
  expires = without handle timer.expires;
}

unfoldable pub has_group : ℕ → List TimerGroup → Bool
has_group timeout [] = false
has_group timeout (g ∷ gs) =
    let rest = has_group timeout gs in if g.timeout == timeout then true else rest

unfoldable pub has_node : ℕ → List TimerNode → Bool
has_node handle [] = false
has_node handle (n ∷ ns) = n.handle == handle || has_node handle ns

-- The group of a node has the node.
unfoldable pub in_group : TimerNode → List TimerGroup → Bool
unfolding has_node
in_group n [] = false
in_group n (g ∷ gs) =
    let rest = in_group n gs in if g.timeout == n.group then has_node n.handle g.nodes else rest

-- What `timer_update` does: it puts the node behind the others of its group, or of another
-- group; it has no memory for a group, with the node deleted; or the node is on no group's list, so
-- that its group may have been freed, whose memory it then reads.
pub data Updated : Type 0 where
  updated : Timer → Updated
  failed : Timer → Updated
  dangling : Updated

-- The branch of the same timeout, with the node deleted already.
unfoldable pub move_to_end : Timer → TimerNode → Updated
unfolding append_to
move_to_end timer tnode =
    elim (append_to tnode.group (record tnode { timeout = timer.now + tnode.group }) timer.groups) [
      | some gs ↦ updated (record timer { groups = gs })
      | none ↦ dangling
    ]

unfoldable pub add_again : Bool → Timer → TimerNode → ℕ → Updated
unfolding timer_add
add_again mem timer tnode timeout = elim (timer_add mem timer tnode.handle timeout) [
  | some t ↦ updated t
  | none ↦ failed timer
]

unfoldable pub timer_update : Bool → Timer → TimerNode → ℕ → Updated
unfolding in_group move_to_end add_again timer_del
timer_update mem timer tnode timeout =
    if in_group tnode timer.groups
    then (if (timeout == 0) || (timeout == tnode.group)
        then move_to_end (timer_del timer tnode.handle) tnode
        else add_again mem (timer_del timer tnode.handle) tnode timeout)
    else dangling
