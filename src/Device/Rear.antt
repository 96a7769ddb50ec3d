-- ===== src/Device/Rear.antt =====
-- A store of device.c in which the rear of one order list is replaced, and what that does to the
-- blocks on the bucketed list.
use olivehc.Prelude.{
  ℕ, ◌+◌, ◌≤◌, ◌<◌, ◌≡◌, false, some, List, [], ◌∷◌, set, get_elem?, arith, if◌then◌else◌, ◌==◌,
  Bool-cases, inl, inr, ap, subst, sym, ◌∙◌, All-set, All-get_elem?,
}
use olivehc.Ipbucket.{Handle, Ipbucket, ipbucket_add, ipbucket_del, ipbucket_update}
use olivehc.Ipbucket.Filed.{Filed, linked, IsBlockSize, add-Filed, del-Filed}
use olivehc.Ipbucket.Count.{linked-add, linked-del}
use olivehc.Device.{Segment, free, Device, Store, rev_onto}
use olivehc.Device.Weight.{total, total_all, total_all-set, total-rev_onto}
use olivehc.Device.Blocks.{
  free_size, free_mark, DeviceIsValid, size_of, blocks_of, StoreIsValid, size_none, size_of_none,
  Filed-same,
}

-- `ipbucket_update` moves a block into the bucket of its new size.
resize-Filed :
    (f g : Handle → ℕ) (ipb : Ipbucket) (h : Handle)
    → Filed f ipb
    → linked h ipb ≤ 1
    → IsBlockSize (g h)
    → ((x : Handle) → 0 < linked x ipb → (h == x) ≡ false → f x ≡ g x)
    → Filed g (ipbucket_update ipb h (g h))
unfolding ipbucket_update
resize-Filed f g ipb h v l s e = add-Filed g (ipbucket_del ipb h) h s (
    Filed-same f g (ipbucket_del ipb h) (λ x k. ground (arith, linked-del ipb h x l, e x))
      (del-Filed f ipb h v))

linked-update :
    (ipb : Ipbucket) (h : Handle) (size : ℕ) (x : Handle) {f : Handle → ℕ}
    → Filed f ipb
    → linked h ipb ≡ 1
    → linked x (ipbucket_update ipb h size) ≡ linked x ipb
unfolding ipbucket_update
linked-update ipb h size x {f} v l = elim (Bool-cases (h == x)) [
  | inl t ↦
      let e : h ≡ x = ground arith in
      ground (
        arith,
        linked-add (ipbucket_del ipb h) h size x (del-Filed f ipb h v).width,
        linked-del ipb h x,
        ap (λ t. linked t ipb) e,
      )
  | inr t ↦ ground (
    arith,
    linked-add (ipbucket_del ipb h) h size x (del-Filed f ipb h v).width,
    linked-del ipb h x,
  )
]

-- The rear `old` of the order list of a device.
module _ (st : Store) (v : StoreIsValid st) (index : ℕ) (d : Device)
    (at : get_elem? st.devices index ≡ some d) (cs old : List Segment)
    (whole : rev_onto cs old ≡ d.order) where
  abbrev stub_devices : List Device
  stub_devices = set st.devices index (record d { order = rev_onto cs [] })

  pub was : (w : Segment → ℕ) → total_all w st.devices ≡ total_all w stub_devices + total w old
  was w = omega (
    arith,
    total_all-set w st.devices index d (record d { order = rev_onto cs [] }) at,
    ap (total w) whole,
    total-rev_onto w cs old,
    total-rev_onto w cs [],
  )

  pub old_total : (w : Segment → ℕ) → total w d.order ≡ total w cs + total w old
  old_total w = sym (ap (total w) whole) ∙ total-rev_onto w cs old

  pub d-IsValid : DeviceIsValid d
  d-IsValid = All-get_elem? DeviceIsValid st.devices index v.devices at

  -- The device with the new rear.
  module _ (d' : Device) (new : List Segment) (e : d'.order ≡ rev_onto cs new)
      (ok : DeviceIsValid d') where
    abbrev devices' : List Device
    devices' = set st.devices index d'

    pub now : (w : Segment → ℕ) → total_all w devices' ≡ total_all w stub_devices + total w new
    now w = omega (
      arith,
      total_all-set w st.devices index d d' at,
      was w,
      ap (total w) e,
      old_total w,
      total-rev_onto w cs new,
    )

    -- The free blocks are the same.
    pub kept-IsValid :
        ((x : Handle) → total (free_mark x) new ≡ total (free_mark x) old)
        → ((x : Handle) → total (free_size x) new ≡ total (free_size x) old)
        → StoreIsValid (record { free_blocks = st.free_blocks; devices = devices' })
    kept-IsValid marks sizes = record {
      filed =
          Filed-same (size_of st.devices) (size_of devices') st.free_blocks
            (λ x l. omega (arith, was (free_size x), now (free_size x), sizes x)) v.filed;
      listed = λ x. omega (arith, was (free_mark x), now (free_mark x), marks x, v.listed x);
      once = λ x. omega (arith, was (free_mark x), now (free_mark x), marks x, v.once x);
      devices = All-set DeviceIsValid st.devices index d' v.devices ok;
    }

    -- The new rear begins with a free block.
    module _ (p size offset : ℕ) (ys : List Segment) (is : new ≡ free p offset size ∷ ys) where
      rear_marks :
          (x : Handle)
          → total (free_mark x) new ≡ (if p == x then 1 else 0) + total (free_mark x) ys
      rear_marks x = ground (arith, ap (total (free_mark x)) is)

      rear_sizes :
          (x : Handle)
          → total (free_size x) new ≡ (if p == x then size else 0) + total (free_size x) ys
      rear_sizes x = ground (arith, ap (total (free_size x)) is)

      -- The block's size, where its handle is in use once.
      new_size : blocks_of devices' p ≤ 1 → size_of devices' p ≡ size
      new_size l = ground (
        arith,
        now (free_mark p),
        rear_marks p,
        now (free_size p),
        rear_sizes p,
        size_of_none p stub_devices,
        size_none p ys,
      )

      module _ (sized : IsBlockSize size) where
        -- A block of its own.
        pub added-IsValid :
            blocks_of st.devices p ≡ 0
            → ((x : Handle) → total (free_mark x) ys ≡ total (free_mark x) old)
            → ((x : Handle) → total (free_size x) ys ≡ total (free_size x) old)
            → StoreIsValid
                (record { free_blocks = ipbucket_add st.free_blocks p size; devices = devices' })
        added-IsValid fresh marks sizes =
            let more : (x : Handle)
                → blocks_of devices' x ≡ blocks_of st.devices x + (if p == x then 1 else 0) =
              λ x. omega (arith, was (free_mark x), now (free_mark x), rear_marks x, marks x) in
            let once' : (x : Handle) → blocks_of devices' x ≤ 1 = λ x. elim (Bool-cases (p == x)) [
              | inl t ↦
                  let e : p ≡ x = ground arith in
                  subst (λ t. blocks_of devices' t ≤ 1) e (ground (arith, more p, fresh))
              | inr t ↦ ground (arith, more x, v.once x)
            ] in
            let s : size_of devices' p ≡ size = new_size (once' p) in
            record {
              filed =
                  subst (λ t. Filed (size_of devices') (ipbucket_add st.free_blocks p t)) s
                    (add-Filed (size_of devices') st.free_blocks p (subst IsBlockSize (sym s) sized)
                      (Filed-same (size_of st.devices) (size_of devices') st.free_blocks
                        (λ x k. unmoved x (omega (arith, k, v.listed x))) v.filed));
              listed = λ x.
                  omega
                    (arith, linked-add st.free_blocks p size x v.filed.width, more x, v.listed x);
              once = once';
              devices = All-set DeviceIsValid st.devices index d' v.devices ok;
            }
          where
            unmoved :
                (x : Handle)
                → 0 < blocks_of st.devices x
                → size_of st.devices x ≡ size_of devices' x
            unmoved x k = elim (Bool-cases (p == x)) [
              | inl t ↦
                  let e : p ≡ x = ground arith in
                  absurd (omega (arith, k, ap (blocks_of st.devices) e, fresh))
              | inr t ↦
                  ground (arith, was (free_size x), now (free_size x), rear_sizes x, sizes x, t)
            ]

        -- A block that was there has grown.
        pub grown-IsValid :
            ((x : Handle)
              → total (free_mark x) old ≡ (if p == x then 1 else 0) + total (free_mark x) ys)
            → ((x : Handle) → (p == x) ≡ false → total (free_size x) old ≡ total (free_size x) ys)
            → StoreIsValid
                (record { free_blocks = ipbucket_update st.free_blocks p size; devices = devices' })
        grown-IsValid marks sizes =
            let same : (x : Handle) → blocks_of devices' x ≡ blocks_of st.devices x =
              λ x. omega (arith, was (free_mark x), now (free_mark x), rear_marks x, marks x) in
            let l : linked p st.free_blocks ≡ 1 =
              ground (arith, v.listed p, v.once p, was (free_mark p), marks p) in
            let s : size_of devices' p ≡ size = new_size (omega (arith, same p, v.once p)) in
            record {
              filed =
                  subst (λ t. Filed (size_of devices') (ipbucket_update st.free_blocks p t)) s
                    (resize-Filed (size_of st.devices) (size_of devices') st.free_blocks p v.filed
                      (omega (arith, l)) (subst IsBlockSize (sym s) sized)
                      (λ x k n.
                        ground (
                          arith,
                          was (free_size x),
                          now (free_size x),
                          rear_sizes x,
                          sizes x n,
                          n,
                        )));
              listed = λ x.
                  omega
                    (arith, linked-update st.free_blocks p size x v.filed l, same x, v.listed x);
              once = λ x. omega (arith, same x, v.once x);
              devices = All-set DeviceIsValid st.devices index d' v.devices ok;
            }

        -- A block that was there has grown, and another one is gone.
        pub merged-IsValid :
            (q : Handle)
            → ((x : Handle)
                → total (free_mark x) old
                  ≡ (if p == x then 1 else 0)
                    + ((if q == x then 1 else 0) + total (free_mark x) ys))
            → ((x : Handle)
                → (p == x) ≡ false
                → (q == x) ≡ false
                → total (free_size x) old ≡ total (free_size x) ys)
            → StoreIsValid (record {
              free_blocks = ipbucket_del (ipbucket_update st.free_blocks p size) q;
              devices = devices';
            })
        merged-IsValid q marks sizes =
            let grown = ipbucket_update st.free_blocks p size in
            let fewer : (x : Handle)
                → blocks_of devices' x + (if q == x then 1 else 0) ≡ blocks_of st.devices x =
              λ x. omega (arith, was (free_mark x), now (free_mark x), rear_marks x, marks x) in
            let l : linked p st.free_blocks ≡ 1 =
              ground (arith, v.listed p, v.once p, was (free_mark p), marks p) in
            let once' : (x : Handle) → blocks_of devices' x ≤ 1 =
              λ x. omega (arith, fewer x, v.once x) in
            let s : size_of devices' p ≡ size = new_size (once' p) in
            let links : (x : Handle) → linked x grown ≡ blocks_of st.devices x =
              λ x. linked-update st.free_blocks p size x v.filed l ∙ v.listed x in
            let q_once : linked q grown ≤ 1 = omega (arith, links q, v.once q) in
            let middle : Handle → ℕ = λ x. if p == x then size else size_of st.devices x in
            let mid : middle p ≡ size = ground arith in
            let filed' : Filed middle grown =
              subst (λ t. Filed middle (ipbucket_update st.free_blocks p t)) mid
                (resize-Filed (size_of st.devices) middle st.free_blocks p v.filed
                  (omega (arith, l)) (subst IsBlockSize (sym mid) sized)
                  (λ x k n. ground (arith, n))) in
            record {
              filed =
                  Filed-same middle (size_of devices') (ipbucket_del grown q)
                    (λ x k. settled x s (ground (arith, k, linked-del grown q x q_once)))
                    (del-Filed middle grown q filed');
              listed = λ x. ground (arith, linked-del grown q x q_once, links x, fewer x, v.once x);
              once = once';
              devices = All-set DeviceIsValid st.devices index d' v.devices ok;
            }
          where
            settled :
                (x : Handle)
                → size_of devices' p ≡ size
                → (q == x) ≡ false
                → (if p == x then size else size_of st.devices x) ≡ size_of devices' x
            settled x s n = elim (Bool-cases (p == x)) [
              | inl t ↦ let e : p ≡ x = ground arith in rw t (sym s ∙ ap (size_of devices') e)
              | inr t ↦ rw t (
                  omega (
                    arith,
                    was (free_size x),
                    now (free_size x),
                    rear_sizes x,
                    sizes x t n,
                    ap (λ b. if b then size else 0) t,
                  ))
            ]
