-- ===== src/Device/Weight.antt =====
-- Sums over the segments of an order list and of all devices, which an operation on one place
-- changes by the segments of that place.
use olivehc.Prelude.{
  ℕ, zero, suc, ◌+◌, ◌-◌, ◌≤◌, ◌≡◌, Bool, true, false, Option, none, some, List, [], ◌∷◌, set,
  get_elem?, arith, to_nat, Bool-cases, inl, inr, refl, ap, subst,
}
use olivehc.Device.{Segment, Device, Place, rev_onto, find_segment, find_device}

module _ (w : Segment → ℕ) where
  abbrev pub total : List Segment → ℕ
  total [] = 0
  total (x ∷ xs) = w x + total xs

  abbrev pub total_all : List Device → ℕ
  total_all [] = 0
  total_all (d ∷ ds) = total d.order + total_all ds

  pub total-rev_onto : (bs xs : List Segment) → total (rev_onto bs xs) ≡ total bs + total xs
  total-rev_onto [] xs = omega arith
  total-rev_onto (b ∷ bs) xs = omega (arith, total-rev_onto bs (b ∷ xs))

  -- The device with an index is replaced.
  pub total_all-set :
      (ds : List Device) (i : ℕ) (d d' : Device)
      → get_elem? ds i ≡ some d
      → total_all (set ds i d') + total d.order ≡ total_all ds + total d'.order
  total_all-set [] i d d' e = cc
  total_all-set (x ∷ ds) zero d d' e = ground arith
  total_all-set (x ∷ ds) (suc i) d d' e = omega (arith, total_all-set ds i d d' e)

-- The place that a search finds.
pub record FoundAt (p : Segment → Bool) (xs : List Segment) (z : Place) : Type 0 where
  pub whole : rev_onto z.before (z.here ∷ z.after) ≡ xs
  pub passes : p z.here ≡ true

abbrev weight : (Segment → Bool) → Segment → ℕ
weight p x = to_nat (p x)

-- A search ends with a place, or has passed over a list with no such segment.
abbrev Sought : (Segment → Bool) → List Segment → List Segment → Option Place → Type 0
Sought p whole xs none = total (weight p) xs ≡ 0
Sought p whole xs (some z) = FoundAt p whole z

find_segment-Sought :
    (p : Segment → Bool) (before xs whole : List Segment)
    → rev_onto before xs ≡ whole
    → Sought p whole xs (find_segment p before xs)
unfolding find_segment
find_segment-Sought p before [] whole e = refl
find_segment-Sought p before (x ∷ xs) whole e = elim (Bool-cases (p x)) [
  | inl t ↦ rw (t, find_segment) (record { whole = e; passes = t })
  | inr t ↦
      rw (t, find_segment)
        (skip t (find_segment p (x ∷ before) xs) (find_segment-Sought p (x ∷ before) xs whole e))
]
  where
    skip : p x ≡ false → (o : Option Place) → Sought p whole xs o → Sought p whole (x ∷ xs) o
    skip t none s = omega (arith, ap to_nat t, s)
    skip t (some z) s = s

-- The same over the devices.
pub record FoundOn (p : Segment → Bool) (base : ℕ) (ds : List Device) (r : ℕ × Device × Place)
    : Type 0 where
  pub low : base ≤ r.0
  pub device : get_elem? ds (r.0 - base) ≡ some r.1
  pub place : FoundAt p r.1.order r.2

abbrev pub SoughtOn : (Segment → Bool) → ℕ → List Device → Option (ℕ × Device × Place) → Type 0
SoughtOn p base ds none = total_all (weight p) ds ≡ 0
SoughtOn p base ds (some r) = FoundOn p base ds r

pub find_device-SoughtOn :
    (p : Segment → Bool) (base : ℕ) (ds : List Device) → SoughtOn p base ds (find_device p base ds)
unfolding find_device
find_device-SoughtOn p base [] = refl
find_device-SoughtOn p base (d ∷ ds) =
    on_first (find_segment p [] d.order) (find_device-SoughtOn p (suc base) ds)
      (find_segment-Sought p [] d.order d.order refl)
  where
    later :
        (o : Option (ℕ × Device × Place))
        → total (weight p) d.order ≡ 0
        → SoughtOn p (suc base) ds o
        → SoughtOn p base (d ∷ ds) o
    later none s t = omega (arith, s, t)
    later (some r) s t = record {
      low = omega (arith, t.low);
      device = let e : r.0 - base ≡ suc (r.0 - suc base) = omega (arith, t.low) in rw e t.device;
      place = t.place;
    }

    on_first :
        (o : Option Place)
        → SoughtOn p (suc base) ds (find_device p (suc base) ds)
        → Sought p d.order d.order o
        → SoughtOn p base
            (d ∷ ds)
            (elim o [ some z ↦ some (base, d, z) | none ↦ find_device p (suc base) ds ])
    on_first (some z) rest s = record {
      low = omega arith;
      device = let e : base - base ≡ 0 = omega arith in rw e;
      place = s;
    }
    on_first none rest s = later (find_device p (suc base) ds) s rest

pub found_device :
    {p : Segment → Bool} {ds : List Device} {r : ℕ × Device × Place}
    → FoundOn p 0 ds r
    → get_elem? ds r.0 ≡ some r.1
found_device {ds = ds} {r} f =
    let e : r.0 - 0 ≡ r.0 = omega arith in subst (λ k. get_elem? ds k ≡ some r.1) e f.device

-- One place of one device is replaced by the segments `new`.
pub total_all-place :
    (w : Segment → ℕ) {p : Segment → Bool} (ds : List Device) (r : ℕ × Device × Place)
    → FoundOn p 0 ds r
    → (d' : Device) (new : List Segment) → d'.order ≡ rev_onto r.2.before new
    → total_all w (set ds r.0 d') + w r.2.here + total w r.2.after ≡ total_all w ds + total w new
total_all-place w ds (i, d, z) f d' new e = omega (
  arith,
  total_all-set w ds i d d' (found_device f),
  ap (total w) e,
  ap (total w) f.place.whole,
  total-rev_onto w z.before new,
  total-rev_onto w z.before (z.here ∷ z.after),
)
